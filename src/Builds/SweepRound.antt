-- ===== src/Builds/SweepRound.antt =====
-- What one round of the sweep over the open runs does to the table (`maintainBuildRuns` of
-- apps/backend/src/shared/builds/runs.ts).
use kubwave.Common.{
  ℕ, ◌≡◌, ◌∙◌, refl, sym, ap, subst, ◌⊎◌, inl, inr, Bool, true, false, not, ◌&&◌, ◌||◌, Option,
  none, some, List, [], ◌∷◌, ◌==◌, arith, All, All-map, IsOnly, any, update_where, Bool-cases,
  ==_refl,
}
use kubwave.Store.{
  Store, Deployment, BuildRun, is_open, is_queued, is_canceling, is_pending, is_deploying,
  run_status_code,
}
use kubwave.Deployments.Claim.{find_deployment}
use kubwave.Builds.Runs.{cancel_build_run, open_run_of, set_run_canceled}
use kubwave.Builds.Maintain.{
  lease_expired, timed_out, queue_timed_out, set_queue_timeout, set_ended, is_unmoved, end_run,
  maintain_live, maintain_of,
}

-- A run may be open while its deployment is being canceled, and while the deployment is queued or
-- deploying as long as the run is within its lease and its time.
abbrev pub Allows : ℕ → Option Deployment → BuildRun → Type 0
Allows now none r = ⊥
Allows now (some d) r =
    (is_canceling d.status ≡ true)
    ⊎ (((is_pending d.status || is_deploying d.status) ≡ true)
        × (lease_expired now r ≡ false)
        × (timed_out now r ≡ false))

abbrev pub IsSwept : ℕ → List Deployment → BuildRun → Type 0
IsSwept now deployments r =
    is_open r.status ≡ true → Allows now (find_deployment r.deployment_id deployments) r

module _ (now : ℕ) (ds : List Deployment) (run : BuildRun) where
  -- A round of the loop touches no row but its run, and leaves that one swept.
  pub record PassedRow (x y : BuildRun) : Type 0 where
    pub same_id : y.id ≡ x.id
    pub same_deployment : y.deployment_id ≡ x.deployment_id
    pub touched : (y ≡ x) ⊎ (x ≡ run)
    pub swept : x ≡ run → IsSwept now ds y

  abbrev pub Passed : List BuildRun → List BuildRun → Type 0
  Passed [] [] = Unit
  Passed [] (y ∷ ys) = ⊥
  Passed (x ∷ xs) [] = ⊥
  Passed (x ∷ xs) (y ∷ ys) = PassedRow x y × Passed xs ys

  same-Passed : (xs : List BuildRun) → IsSwept now ds run → Passed xs xs
  same-Passed [] h = tt
  same-Passed (x ∷ xs) h = (
    record {
      same_id = refl;
      same_deployment = refl;
      touched = inl refl;
      swept = λ e. subst (IsSwept now ds) (sym e) h;
    },
    same-Passed xs h,
  )

  update-Passed :
      (p : BuildRun → Bool) (f : BuildRun → BuildRun) (xs : List BuildRun)
      → ((x : BuildRun) → (f x).id ≡ x.id)
      → ((x : BuildRun) → (f x).deployment_id ≡ x.deployment_id)
      → All (λ x. p x ≡ true → x ≡ run) xs
      → (p run ≡ true → IsSwept now ds (f run))
      → (p run ≡ false → IsSwept now ds run)
      → Passed xs (update_where p f xs)
  update-Passed p f [] fi fd h yes_run no_run = tt
  update-Passed p f (x ∷ xs) fi fd (k, h) yes_run no_run = elim (Bool-cases (p x)) [
    | inl e ↦ rw e (
      record {
        same_id = fi x;
        same_deployment = fd x;
        touched = inr (k e);
        swept =
            λ same. subst (λ r. IsSwept now ds (f r)) (sym same) (yes_run (ap p (sym same) ∙ e));
      },
      update-Passed p f xs fi fd h yes_run no_run,
    )
    | inr e ↦ rw e (
      record {
        same_id = refl;
        same_deployment = refl;
        touched = inl refl;
        swept = λ same. subst (IsSwept now ds) (sym same) (no_run (ap p (sym same) ∙ e));
      },
      update-Passed p f xs fi fd h yes_run no_run,
    )
  ]

  -- The rows of the run's id, or of its deployment, are the run.
  only :
      (key : BuildRun → ℕ) (p : BuildRun → Bool) (xs : List BuildRun)
      → ((x : BuildRun) → p x ≡ true → (key x == key run) ≡ true)
      → IsOnly key xs run
      → All (λ x. p x ≡ true → x ≡ run) xs
  only key p xs h o = All-map _ _ xs (λ x k e. k (ground (arith, h x e))) o

  module _ (live : is_open run.status ≡ true) (t : List BuildRun) (one : IsOnly (λ r. r.id) t run)
      (one_run : IsOnly (λ r. r.deployment_id) t run) where
    cancel-Passed : Passed t (update_where (open_run_of run.deployment_id) (set_run_canceled now) t)
    cancel-Passed =
        update-Passed (open_run_of run.deployment_id) (set_run_canceled now) t (λ x. refl)
          (λ x. refl)
          (only (λ r. r.deployment_id) (open_run_of run.deployment_id) t (λ x e. ground arith)
            one_run)
          (λ h e. absurd (cc)) (λ n. absurd (ground (arith, ==_refl run.deployment_id)))

    late-Passed :
        (d : Deployment)
        → queue_timed_out now run ≡ true
        → Passed t
            (update_where (λ r. r.id == run.id && is_queued r.status) (set_queue_timeout now) t)
    late-Passed d late =
        update-Passed (λ r. r.id == run.id && is_queued r.status) (set_queue_timeout now) t
          (λ x. refl) (λ x. refl)
          (only (λ r. r.id) (λ r. r.id == run.id && is_queued r.status) t (λ x e. ground arith) one)
          (λ h e. absurd (cc)) (λ n. absurd (ground (arith, ==_refl run.id)))

    -- A run that goes back to the queue holds no lease and has not started.
    ended-IsSwept :
        (d : Deployment)
        → find_deployment run.deployment_id ds ≡ some d
        → (is_pending d.status || is_deploying d.status) ≡ true
        → IsSwept now ds (set_ended now run run)
    ended-IsSwept d found waits e = rw found (inr (waits, refl, refl))

    unmoved : is_unmoved now run run ≡ true
    unmoved =
        ground (arith, ==_refl run.id, ==_refl (run_status_code run.status), ==_refl run.attempt)

    ended-Passed :
        (d : Deployment)
        → find_deployment run.deployment_id ds ≡ some d
        → (is_pending d.status || is_deploying d.status) ≡ true
        → Passed t (update_where (is_unmoved now run) (set_ended now run) t)
    ended-Passed d found waits =
        update-Passed (is_unmoved now run) (set_ended now run) t (λ x. refl) (λ x. refl)
          (only (λ r. r.id) (is_unmoved now run) t (λ x e. ground arith) one)
          (λ h. ended-IsSwept d found waits) (λ n. absurd (cc (n, unmoved)))

  module _ (live : is_open run.status ≡ true) (s : Store)
      (one : IsOnly (λ r. r.id) s.build_runs run)
      (one_run : IsOnly (λ r. r.deployment_id) s.build_runs run) where
    end_run-Passed :
        (d : Deployment)
        → find_deployment run.deployment_id ds ≡ some d
        → (is_pending d.status || is_deploying d.status) ≡ true
        → Passed s.build_runs (end_run now run s).build_runs
    unfolding end_run
    end_run-Passed d found waits =
        elim (Bool-cases (not (lease_expired now run) && not (timed_out now run))) [
          | inl e ↦
              rw e
                (same-Passed s.build_runs (λ h. rw found (inr (waits, ground arith, ground arith))))
          | inr e ↦ rw e (ended-Passed live s.build_runs one one_run d found waits)
        ]

    live-Passed :
        (d : Deployment)
        → find_deployment run.deployment_id ds ≡ some d
        → (is_pending d.status || is_deploying d.status) ≡ true
        → Passed s.build_runs (maintain_live now run s).build_runs
    unfolding maintain_live
    live-Passed d found waits = elim (Bool-cases (queue_timed_out now run)) [
      | inl e ↦ rw e (late-Passed live s.build_runs one one_run d e)
      | inr e ↦ rw e (end_run-Passed d found waits)
    ]

    pub maintain_of-Passed :
        (o : Option Deployment)
        → find_deployment run.deployment_id ds ≡ o
        → Passed s.build_runs (maintain_of now run o s).build_runs
    unfolding maintain_of cancel_build_run
    maintain_of-Passed none found = cancel-Passed live s.build_runs one one_run
    maintain_of-Passed (some d) found = elim (Bool-cases (is_canceling d.status)) [
      | inl e ↦ rw e (same-Passed s.build_runs (λ h. rw found (inl e)))
      | inr n ↦ rw n (elim (Bool-cases (is_pending d.status || is_deploying d.status)) [
        | inl e ↦ rw e (live-Passed d found e)
        | inr e ↦ rw e (cancel-Passed live s.build_runs one one_run)
      ])
    ]

  pub rest-after :
      (t u rs : List BuildRun)
      → Passed t u
      → IsOnly (λ r. r.id) t run
      → All (λ x. IsSwept now ds x ⊎ (any (λ r. r.id == x.id) (run ∷ rs) ≡ true)) t
      → All (λ y. IsSwept now ds y ⊎ (any (λ r. r.id == y.id) rs ≡ true)) u
  rest-after [] [] rs h o k = tt
  rest-after (x ∷ t) [] rs h o k = absurd h
  rest-after [] (y ∷ u) rs h o k = absurd h
  rest-after (x ∷ t) (y ∷ u) rs (h, hs) (o, os) (k, ks) =
      (one h.touched k, rest-after t u rs hs os ks)
    where
      one :
          (y ≡ x) ⊎ (x ≡ run)
          → IsSwept now ds x ⊎ (any (λ r. r.id == x.id) (run ∷ rs) ≡ true)
          → IsSwept now ds y ⊎ (any (λ r. r.id == y.id) rs ≡ true)
      one (inr same) k = inl (h.swept same)
      one (inl kept) (inl swept) = inl (subst (IsSwept now ds) (sym kept) swept)
      one (inl kept) (inr among) = elim (Bool-cases (run.id == x.id)) [
        | inl e ↦ inl (h.swept (o (ground arith)))
        | inr e ↦ inr (rw kept (ground (arith, among)))
      ]

  pub IsOnly-after :
      (key : BuildRun → ℕ) (r : BuildRun) (t u : List BuildRun)
      → ((x y : BuildRun) → PassedRow x y → key y ≡ key x)
      → (key run == key r) ≡ false
      → Passed t u
      → IsOnly key t r
      → IsOnly key u r
  IsOnly-after key r [] [] same n h o = tt
  IsOnly-after key r (x ∷ t) [] same n h o = absurd h
  IsOnly-after key r [] (y ∷ u) same n h o = absurd h
  IsOnly-after key r (x ∷ t) (y ∷ u) same n (h, hs) (o, os) =
      (one h.touched, IsOnly-after key r t u same n hs os)
    where
      one : (y ≡ x) ⊎ (x ≡ run) → key y ≡ key r → y ≡ r
      one (inl kept) e = kept ∙ o (ap key (sym kept) ∙ e)
      one (inr is_run) e =
          let k : key run ≡ key r = ap key (sym is_run) ∙ sym (same x y h) ∙ e in
          absurd (ground (arith, n, k))
