-- ===== src/Builds/Sweep.antt =====
-- What the sweep over the open runs leaves, when it runs alone (`maintainBuildRuns` of
-- apps/backend/src/shared/builds/runs.ts).
use kubwave.Common.{
  ℕ, ◌≤◌, ◌≡◌, ◌∙◌, refl, sym, ap, ◌⊎◌, inl, inr, Bool, true, false, List, [], ◌∷◌, ◌==◌, arith,
  All, All-map, All-select, UniqueKeys, UniqueKeys-head, UniqueKeys-tail, IsOnly, unique_rows, any,
  select_where, All-zip, count_where, Bool-cases, ==_refl,
}
use kubwave.Store.{Store, Deployment, BuildRun, is_open}
use kubwave.Deployments.Claim.{find_deployment}
use kubwave.Builds.Runs.{cancel_build_run}
use kubwave.Builds.Maintain.{
  end_run, maintain_live, maintain_of, maintain_build_run, maintain_each, maintain_build_runs,
}
use kubwave.Builds.Rows.{RunsInv}
use kubwave.Builds.SweepRound.{IsSwept, Passed, maintain_of-Passed, rest-after, IsOnly-after}

-- The runs that are still to come are rows of the table, each the only one of its id and of its
-- deployment, and every other row is swept.
record IsDue (now : ℕ) (ds : List Deployment) (rs t : List BuildRun) : Type 0 where
  pub ids : All (λ r. IsOnly (λ x. x.id) t r) rs
  pub deployments : All (λ r. IsOnly (λ x. x.deployment_id) t r) rs
  pub are_open : All (λ r. is_open r.status ≡ true) rs
  pub unique : UniqueKeys (λ r. r.id) rs
  pub one_run : UniqueKeys (λ r. r.deployment_id) rs
  pub rest : All (λ x. IsSwept now ds x ⊎ (any (λ r. r.id == x.id) rs ≡ true)) t

others :
    (key : BuildRun → ℕ) (run : BuildRun) (rs : List BuildRun)
    → UniqueKeys key (run ∷ rs)
    → All (λ r. (key run == key r) ≡ false) rs
others key run rs u =
    All-map _ _ rs (λ r n. flip (key r) (key run) n) (UniqueKeys-head key run rs u)
  where
    flip : (a b : ℕ) → (a == b) ≡ false → (b == a) ≡ false
    flip a b e = ground arith

Passed-IsDue :
    (now : ℕ) (ds : List Deployment) (run : BuildRun) (rs t u : List BuildRun)
    → IsDue now ds (run ∷ rs) t
    → Passed now ds run t u
    → IsDue now ds rs u
Passed-IsDue now ds run rs t u d h = record {
  ids =
      All-map _ _ rs
        (λ r both. IsOnly-after now ds run (λ x. x.id) r t u (λ x y k. k.same_id) both.0 h both.1)
        (All-zip _ _ rs (others (λ x. x.id) run rs d.unique) d.ids.1);
  deployments =
      All-map _ _ rs
        (λ r both.
          IsOnly-after now ds run (λ x. x.deployment_id) r t u (λ x y k. k.same_deployment) both.0 h
            both.1)
        (All-zip _ _ rs (others (λ x. x.deployment_id) run rs d.one_run) d.deployments.1);
  are_open = d.are_open.1;
  unique = UniqueKeys-tail (λ r. r.id) run rs d.unique;
  one_run = UniqueKeys-tail (λ r. r.deployment_id) run rs d.one_run;
  rest = rest-after now ds run t u rs h d.ids.0 d.rest;
}

maintain_build_run-deployments :
    (now : ℕ) (run : BuildRun) (s : Store)
    → (maintain_build_run now run s).deployments ≡ s.deployments
unfolding maintain_build_run maintain_of maintain_live end_run cancel_build_run
maintain_build_run-deployments now run s = ground arith

maintain_each-IsSwept :
    (now : ℕ) (ds : List Deployment) (rs : List BuildRun) (s : Store)
    → s.deployments ≡ ds
    → IsDue now ds rs s.build_runs
    → All (IsSwept now ds) (maintain_each now rs s).build_runs
unfolding maintain_each maintain_build_run
maintain_each-IsSwept now ds [] s e d = All-map _ _ s.build_runs (λ x k. done x k) d.rest
  where
    done : (x : BuildRun) → IsSwept now ds x ⊎ (false ≡ true) → IsSwept now ds x
    done x (inl h) = h
    done x (inr h) = absurd (cc)
maintain_each-IsSwept now ds (run ∷ rs) s e d =
    maintain_each-IsSwept now ds rs (maintain_build_run now run s)
      (maintain_build_run-deployments now run s ∙ e)
      (Passed-IsDue now ds run rs s.build_runs (maintain_build_run now run s).build_runs d (
        maintain_of-Passed now ds run d.are_open.0 s d.ids.0 d.deployments.0
          (find_deployment run.deployment_id s.deployments)
          (ap (find_deployment run.deployment_id) (sym e))))

-- The rows that the sweep selects.
among_selected :
    (p : BuildRun → Bool) (t : List BuildRun)
    → All (λ x. p x ≡ true → any (λ r. r.id == x.id) (select_where p t) ≡ true) t
among_selected p [] = tt
among_selected p (x ∷ t) = (
  λ h. ground (arith, h, ==_refl x.id),
  All-map _ _ t (λ y k h. ground (arith, k h)) (among_selected p t),
)

count-select-le :
    (q p : BuildRun → Bool) (t : List BuildRun) → count_where q (select_where p t) ≤ count_where q t
count-select-le q p [] = omega arith
count-select-le q p (x ∷ t) = ground (arith, count-select-le q p t)

selected-IsDue :
    (now : ℕ) (ds : List Deployment) (t : List BuildRun)
    → RunsInv t
    → IsDue now ds (select_where (λ r. is_open r.status) t) t
selected-IsDue now ds t inv =
    let open_run : BuildRun → Bool = λ r. is_open r.status in
    let ids = All-select _ open_run t (unique_rows (λ r. r.id) t inv.unique) in
    let deployments = All-select _ open_run t (unique_rows (λ r. r.deployment_id) t inv.one_run) in
    record {
      ids = All-map _ _ _ (λ r both. both.0) ids;
      deployments = All-map _ _ _ (λ r both. both.0) deployments;
      are_open = All-map _ _ _ (λ r both. both.1) ids;
      unique = λ k. omega (arith, inv.unique k, count-select-le (λ r. r.id == k) open_run t);
      one_run =
          λ k. omega (arith, inv.one_run k, count-select-le (λ r. r.deployment_id == k) open_run t);
      rest = All-map _ _ t (λ x k. rest_of x k) (among_selected open_run t);
    }
  where
    rest_of :
        (x : BuildRun)
        → (is_open x.status ≡ true
            → any (λ r. r.id == x.id) (select_where (λ r. is_open r.status) t) ≡ true)
        → IsSwept now ds x
          ⊎ (any (λ r. r.id == x.id) (select_where (λ r. is_open r.status) t) ≡ true)
    rest_of x k = elim (Bool-cases (is_open x.status)) [
      | inl e ↦ inr (k e)
      | inr e ↦ inl (λ h. absurd (cc (e, h)))
    ]

-- The sweep, run alone on a table with the invariant, leaves no run open whose deployment is gone
-- or over; and of a deployment that is queued or deploying it leaves no open run that is beyond its
-- lease or beyond its time.
pub maintain_build_runs-IsSwept :
    (now : ℕ) (s : Store)
    → RunsInv s.build_runs
    → All (IsSwept now s.deployments) (maintain_build_runs now s).build_runs
unfolding maintain_build_runs
maintain_build_runs-IsSwept now s inv =
    maintain_each-IsSwept now s.deployments (select_where (λ r. is_open r.status) s.build_runs) s
      refl (selected-IsDue now s.deployments s.build_runs inv)
