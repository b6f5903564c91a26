-- ===== src/Builds/Ended.antt =====
-- What a history keeps of a build run.
use kubwave.Common.{
  ℕ, ◌≤◌, ◌≡◌, ◌∙◌, refl, ◌⊎◌, inl, inr, true, false, Option, none, some, String, List, [], ◌∷◌,
  ◌==◌, arith, Bool-cases, Bool, not, ◌||◌, ap, select_where,
}
use kubwave.Store.{Store, BuildRun, RunStatus, is_open}
use kubwave.Builds.Runs.{find_run}
use kubwave.Builds.Rows.{RunStep, RunsEvolve, RunsInv, run_may_move}
use kubwave.Builds.History.{
  RunWrite, RunReach, here, next, run_deletes, runs_deleted, RunEffect, RunWrite-RunEffect,
  RunReach-RunsInv,
}

pub record IsRunKept (x y : BuildRun) : Type 0 where
  pub same_id : y.id ≡ x.id
  pub same_deployment : y.deployment_id ≡ x.deployment_id
  pub same_settings : y.settings ≡ x.settings
  pub more_attempts : x.attempt ≤ y.attempt
  pub kept_commit : (x.source_commit ≡ none) ⊎ (y.source_commit ≡ x.source_commit)
  pub kept_end : (is_open x.status ≡ true) ⊎ ((y.status ≡ x.status) × (y.attempt ≡ x.attempt))

ended_stays : (a b : RunStatus) → run_may_move a b ≡ true → is_open a ≡ false → b ≡ a
ended_stays a b m t = ground arith

IsRunKept-refl : (x : BuildRun) → IsRunKept x x
IsRunKept-refl x = record {
  same_id = refl;
  same_deployment = refl;
  same_settings = refl;
  more_attempts = omega arith;
  kept_commit = inr refl;
  kept_end = inr (refl, refl);
}

RunStep-IsRunKept : (x y : BuildRun) → RunStep x y → IsRunKept x y
RunStep-IsRunKept x y r = record {
  same_id = r.same_id;
  same_deployment = r.same_deployment;
  same_settings = r.same_settings;
  more_attempts = r.more_attempts;
  kept_commit = r.kept_commit;
  kept_end = elim (Bool-cases (is_open x.status)) [
    | inl e ↦ inl e
    | inr e ↦ inr (ended_stays x.status y.status r.moves e, r.kept_attempt e)
  ];
}

end_trans :
    (a b c : RunStatus) (m n o : ℕ)
    → (is_open a ≡ true) ⊎ ((b ≡ a) × (n ≡ m))
    → (is_open b ≡ true) ⊎ ((c ≡ b) × (o ≡ n))
    → (is_open a ≡ true) ⊎ ((c ≡ a) × (o ≡ m))
end_trans a b c m n o h k = ground arith

IsRunKept-trans : (x y z : BuildRun) → IsRunKept x y → IsRunKept y z → IsRunKept x z
IsRunKept-trans x y z k l = record {
  same_id = l.same_id ∙ k.same_id;
  same_deployment = l.same_deployment ∙ k.same_deployment;
  same_settings = l.same_settings ∙ k.same_settings;
  more_attempts = omega (arith, k.more_attempts, l.more_attempts);
  kept_commit = ground (arith, k.kept_commit, l.kept_commit);
  kept_end =
      end_trans x.status y.status z.status x.attempt y.attempt z.attempt k.kept_end l.kept_end;
}

RunsEvolve-find :
    (id : ℕ) (t u : List BuildRun) (x : BuildRun)
    → RunsEvolve t u
    → find_run id t ≡ some x
    → (y : BuildRun) × (find_run id u ≡ some y) × RunStep x y
unfolding find_run
RunsEvolve-find id [] u x ev e = absurd (cc)
RunsEvolve-find id (d ∷ t) [] x ev e = absurd ev
RunsEvolve-find id (d ∷ t) (v ∷ u) x (r, ev) e = elim (Bool-cases (d.id == id)) [
  | inl same ↦ let hit : d ≡ x = ground arith in (v, ground (arith, r.same_id), rw (← hit) r)
  | inr other ↦
      let (y, found, step) = RunsEvolve-find id t u x ev (ground arith) in
      (y, ground (arith, r.same_id), step)
]

find_run-kept :
    (id : ℕ) (gone : BuildRun → Bool) (t : List BuildRun) (x : BuildRun)
    → gone x ≡ false
    → find_run id t ≡ some x
    → find_run id (select_where (λ r. not (gone r)) t) ≡ some x
unfolding find_run
find_run-kept id gone [] x n e = absurd (cc)
find_run-kept id gone (d ∷ t) x n e = elim (Bool-cases (d.id == id)) [
  | inl same ↦
      let hit : d ≡ x = ground arith in
      let stays : gone d ≡ false = rw hit n in rw (stays, same) (rw hit refl)
  | inr other ↦ ground (arith, find_run-kept id gone t x n (ground arith))
]

module _ (hash : String → String) (decrypt : String → Option String)
    (redact : Option String → String → String) where
  RunEffect-find :
      {s t : Store} (id : ℕ) (x : BuildRun) (w : RunWrite hash decrypt redact s t)
      → RunEffect w
      → run_deletes w x.deployment_id ≡ false
      → find_run id s.build_runs ≡ some x
      → (y : BuildRun) × (find_run id t.build_runs ≡ some y) × IsRunKept x y
  RunEffect-find {s} {t} id x w (inl h) stays e =
      let (y, found, kept) = RunsEvolve-find id s.build_runs t.build_runs x h.evolves e in
      (y, found, RunStep-IsRunKept x y kept)
  RunEffect-find {s} id x w (inr e') stays e = (
    x,
    ap (find_run id) e'
        ∙ find_run-kept id (λ r. run_deletes w r.deployment_id) s.build_runs x stays e,
    IsRunKept-refl x,
  )

  -- In every history from a table with the invariant that does not delete the run's deployment, a
  -- run is found under its id at the end, with its deployment and settings; its attempts have not
  -- gone down, a source commit that was recorded stays through every retry, and if it had
  -- succeeded, failed or been canceled, its status and attempt are the same.
  pub RunReach-IsRunKept :
      {s t : Store} (id : ℕ) (x : BuildRun) (r : RunReach hash decrypt redact s t)
      → RunsInv s.build_runs
      → runs_deleted r x.deployment_id ≡ false
      → find_run id s.build_runs ≡ some x
      → (y : BuildRun) × (find_run id t.build_runs ≡ some y) × IsRunKept x y
  RunReach-IsRunKept id x here inv stays e = (x, e, IsRunKept-refl x)
  RunReach-IsRunKept id x (next r w) inv stays e =
      let (y, found, kept) = RunReach-IsRunKept id x r inv (ground (arith, stays)) e in
      let now_stays : run_deletes w y.deployment_id ≡ false =
        rw kept.same_deployment
          (not_now (runs_deleted r x.deployment_id) (run_deletes w x.deployment_id) stays) in
      let (z, found', more) =
        RunEffect-find id y w
          (RunWrite-RunEffect hash decrypt redact w (RunReach-RunsInv hash decrypt redact r inv))
          now_stays found in
      (z, found', IsRunKept-trans x y z kept more)
    where
      not_now : (a b : Bool) → (a || b) ≡ false → b ≡ false
      not_now a b e = ground arith
