-- ===== src/Builds/Writes.antt =====
-- Each write to the build_runs table is sound. `run` may be stale.
use kubwave.Common.{
  ℕ, ◌≤◌, ◌≡◌, refl, inl, inr, Bool, true, false, Option, none, some, String, List, [], ◌∷◌, ◌++◌,
  ◌==◌, arith, All, All-map, All-append, any, IsOnly, unique_rows, update_where, count_where,
  count-append, Bool-cases, Option-cases, leb, find_where, subst,
}
use kubwave.Store.{Store, BuildRun, BuildSettings, cluster, agent, queued, is_open, is_queued}
use kubwave.Builds.Runs.{
  ensure_build_run, reserve_build_run, reserve_at, is_on_cluster, Placement, nowhere, at_cluster,
  at_agent, place, find_run, set_reserved, mark_cluster_build_started, set_started,
  finish_build_run, set_finished, publish_agent_build, set_published, cancel_build_run,
  set_run_canceled,
}
use kubwave.Builds.Maintain.{end_run, set_ended, is_unmoved}
use kubwave.Builds.Rows.{
  RunStep, RunsInv, RunsSound, RunsSound-refl, update-RunsSound, update_all-RunsSound,
  RunsEvolve-append, RunsEvolve-refl,
}

absent_count :
    (k : ℕ) (key : BuildRun → ℕ) (t : List BuildRun)
    → any (λ r. key r == k) t ≡ false
    → count_where (λ r. key r == k) t ≡ 0
absent_count k key [] h = refl
absent_count k key (d ∷ t) h = ground (arith, absent_count k key t)

append-RunsSound :
    (row : BuildRun) (t : List BuildRun)
    → row.status ≡ queued
    → row.attempt ≤ 2
    → any (λ r. r.id == row.id) t ≡ false
    → any (λ r. r.deployment_id == row.deployment_id) t ≡ false
    → RunsInv t
    → RunsSound t (t ++ row ∷ [])
append-RunsSound row t st le fresh first inv = record {
  evolves = RunsEvolve-append t t (row ∷ []) (RunsEvolve-refl t) (st, tt);
  inv = record {
    unique = λ k. ground (
      arith,
      count-append (λ r. r.id == k) t (row ∷ []),
      inv.unique k,
      absent_count row.id (λ r. r.id) t fresh,
    );
    one_run = λ k. ground (
      arith,
      count-append (λ r. r.deployment_id == k) t (row ∷ []),
      inv.one_run k,
      absent_count row.deployment_id (λ r. r.deployment_id) t first,
    );
    attempts = All-append (λ r. r.attempt ≤ 2) t (row ∷ []) inv.attempts (le, tt);
  };
}

-- A deployment gets one run, however often it is asked for.
pub ensure_build_run-RunsSound :
    (now id deployment_id : ℕ) (settings : BuildSettings) (s : Store)
    → any (λ r. r.id == id) s.build_runs ≡ false
    → RunsInv s.build_runs
    → RunsSound s.build_runs (ensure_build_run now id deployment_id settings s).build_runs
unfolding ensure_build_run
ensure_build_run-RunsSound now id deployment_id settings s fresh inv =
    elim (Bool-cases (any (λ r. r.deployment_id == deployment_id) s.build_runs)) [
      | inl e ↦ rw e (RunsSound-refl s.build_runs inv)
      | inr e ↦ rw e (append-RunsSound _ s.build_runs refl (omega arith) fresh e inv)
    ]

pub mark_started-RunsSound :
    (now id : ℕ) (image : String) (s : Store)
    → RunsInv s.build_runs
    → RunsSound s.build_runs (mark_cluster_build_started now id image s).build_runs
unfolding mark_cluster_build_started
mark_started-RunsSound now id image s inv =
    update_all-RunsSound _ (set_started now image) s.build_runs (λ x h. ground arith) inv

pub finish_build_run-RunsSound :
    (now id : ℕ) (success : Bool) (e : Option String) (s : Store)
    → RunsInv s.build_runs
    → RunsSound s.build_runs (finish_build_run now id success e s).build_runs
unfolding finish_build_run
finish_build_run-RunsSound now id success e s inv =
    update_all-RunsSound _ (set_finished now success e) s.build_runs (λ x h. ground arith) inv

pub publish-RunsSound :
    (run : BuildRun) (payload image : String) (s : Store)
    → RunsInv s.build_runs
    → RunsSound s.build_runs (publish_agent_build run payload image s).build_runs
unfolding publish_agent_build
publish-RunsSound run payload image s inv =
    update_all-RunsSound _ (set_published payload image) s.build_runs (λ x h. ground arith) inv

pub cancel_build_run-RunsSound :
    (now id : ℕ) (s : Store)
    → RunsInv s.build_runs
    → RunsSound s.build_runs (cancel_build_run now id s).0.build_runs
unfolding cancel_build_run
cancel_build_run-RunsSound now id s inv =
    update_all-RunsSound _ (set_run_canceled now) s.build_runs (λ x h. ground arith) inv

pub end_run-RunsSound :
    (now : ℕ) (run : BuildRun) (s : Store)
    → is_open run.status ≡ true
    → RunsInv s.build_runs
    → RunsSound s.build_runs (end_run now run s).build_runs
unfolding end_run
end_run-RunsSound now run s live inv =
    let moved =
      update_all-RunsSound (is_unmoved now run) (set_ended now run) s.build_runs
        (λ x h. ground arith) inv in
    let same = RunsSound-refl s.build_runs inv in ground (arith, moved, same)

-- What holds of every row holds of the row that a search finds, which meets its condition.
pub find_where-All {ℓ κ} :
    {A : Type ℓ} (P : A → Type κ) (p : A → Bool) (t : List A) {r : A}
    → find_where p t ≡ some r
    → All P t
    → P r × (p r ≡ true)
find_where-All P p [] e h = absurd (cc)
find_where-All P p (d ∷ t) {r} e (k, h) = elim (Bool-cases (p d)) [
  | inl hit ↦ let same : d ≡ r = ground arith in (subst P same k, subst (λ x. p x ≡ true) same hit)
  | inr miss ↦ find_where-All P p t (ground arith) h
]

-- An update, by its id, of a row that the table holds once.
pub update_only-RunsSound :
    (f : BuildRun → BuildRun) (r : BuildRun) (t : List BuildRun)
    → IsOnly (λ x. x.id) t r
    → RunStep r (f r)
    → RunsInv t
    → RunsSound t (update_where (λ x. x.id == r.id) f t)
update_only-RunsSound f r t only step inv =
    update-RunsSound (λ x. x.id == r.id) f t
      (All-map (λ x. x.id ≡ r.id → x ≡ r) (λ x. (x.id == r.id) ≡ true → RunStep x (f x)) t
        (λ x o e. let same : x ≡ r = o (ground arith) in rw same step) only)
      inv

reserve_at-RunsSound :
    (now : ℕ) (live : BuildSettings) (place : Placement) (r : BuildRun) (s : Store)
    → r.status ≡ queued
    → IsOnly (λ x. x.id) s.build_runs r
    → RunsInv s.build_runs
    → RunsSound s.build_runs (reserve_at now live place r s).0.build_runs
reserve_at-RunsSound now live nowhere r s st only inv = RunsSound-refl s.build_runs inv
reserve_at-RunsSound now live (at_agent id) r s st only inv =
    update_only-RunsSound (set_reserved now agent (some id)) r s.build_runs only (ground arith) inv
reserve_at-RunsSound now live at_cluster r s st only inv =
    elim (Bool-cases (leb live.max_concurrent_builds (count_where is_on_cluster s.build_runs))) [
      | inl e ↦ rw e (RunsSound-refl s.build_runs inv)
      | inr e ↦ rw e (
          update_only-RunsSound (set_reserved now cluster none) r s.build_runs only (ground arith)
            inv)
    ]

-- Reserving is sound: the run was queued, and it alone changes.
pub reserve_build_run-RunsSound :
    (now : ℕ) (live : BuildSettings) (architecture : String) (id : ℕ) (s : Store)
    → RunsInv s.build_runs
    → RunsSound s.build_runs (reserve_build_run now live architecture id s).0.build_runs
unfolding reserve_build_run find_run
reserve_build_run-RunsSound now live architecture id s inv =
    elim (Option-cases (find_run id s.build_runs)) [
      | inl e ↦ rw e (RunsSound-refl s.build_runs inv)
      | inr (r, e) ↦ elim (Bool-cases (is_queued r.status)) [
        | inl free ↦
            rw (e, free)
              (reserve_at-RunsSound now live (place now architecture r.execution r s) r s
                (ground arith)
                (find_where-All (IsOnly (λ x. x.id) s.build_runs) (λ r. r.id == id) s.build_runs e
                  (unique_rows (λ x. x.id) s.build_runs inv.unique)).0
                inv)
        | inr busy ↦ rw (e, busy) (RunsSound-refl s.build_runs inv)
      ]
    ]
