-- ===== src/Builds/Rows.antt =====
-- How one row of the build_runs table may change in one write, and the table's invariant.
use kubwave.Common.{
  ◌≤◌, ◌≡◌, refl, ◌⊎◌, inl, inr, Bool, true, false, not, ◌||◌, none, List, [], ◌∷◌, ◌++◌, ◌==◌,
  arith, All, All-map, All-intro, All-append, UniqueKeys, update_where, count-update-eq, Bool-cases,
  All-update, All-select, select_where, count-remove-le,
}
use kubwave.Store.{
  BuildRun, RunStatus, queued, preparing, ready, running, succeeded, failed, canceled, is_open,
  is_preparing, is_ready,
}

-- The status graph of a run: a queued run is reserved, fails or is canceled; an active run goes on,
-- ends, or returns to the queue; a run that has ended stays.
abbrev pub run_may_move : RunStatus → RunStatus → Bool
run_may_move queued queued = true
run_may_move queued preparing = true
run_may_move queued failed = true
run_may_move queued canceled = true
run_may_move preparing b = true
run_may_move ready b = not (is_preparing b)
run_may_move running b = not (is_preparing b || is_ready b)
run_may_move succeeded succeeded = true
run_may_move failed failed = true
run_may_move canceled canceled = true
run_may_move a b = false

-- What one write does to a row: its identity and settings stay, its attempts never go down nor above
-- two, and a recorded source commit stays.
pub record RunStep (x y : BuildRun) : Type 0 where
  pub same_id : y.id ≡ x.id
  pub same_deployment : y.deployment_id ≡ x.deployment_id
  pub same_settings : y.settings ≡ x.settings
  pub more_attempts : x.attempt ≤ y.attempt
  pub bounded : x.attempt ≤ 2 → y.attempt ≤ 2
  pub kept_commit : (x.source_commit ≡ none) ⊎ (y.source_commit ≡ x.source_commit)
  pub moves : run_may_move x.status y.status ≡ true
  pub kept_attempt : is_open x.status ≡ false → y.attempt ≡ x.attempt

pub RunStep-refl : (x : BuildRun) → RunStep x x
RunStep-refl x = record {
  same_id = refl;
  same_deployment = refl;
  same_settings = refl;
  more_attempts = omega arith;
  bounded = λ h. h;
  kept_commit = inr refl;
  moves = ground arith;
  kept_attempt = λ h. refl;
}

abbrev pub IsNewRun : BuildRun → Type 0
IsNewRun r = r.status ≡ queued

abbrev pub RunsEvolve : List BuildRun → List BuildRun → Type 0
RunsEvolve [] ys = All IsNewRun ys
RunsEvolve (x ∷ xs) [] = ⊥
RunsEvolve (x ∷ xs) (y ∷ ys) = RunStep x y × RunsEvolve xs ys

pub RunsEvolve-refl : (xs : List BuildRun) → RunsEvolve xs xs
RunsEvolve-refl [] = tt
RunsEvolve-refl (x ∷ xs) = (RunStep-refl x, RunsEvolve-refl xs)

RunsEvolve-update :
    (p : BuildRun → Bool) (f : BuildRun → BuildRun) (xs : List BuildRun)
    → All (λ x. p x ≡ true → RunStep x (f x)) xs
    → RunsEvolve xs (update_where p f xs)
RunsEvolve-update p f [] h = tt
RunsEvolve-update p f (x ∷ xs) (k, h) = elim (Bool-cases (p x)) [
  | inl e ↦ rw e (k e, RunsEvolve-update p f xs h)
  | inr e ↦ rw e (RunStep-refl x, RunsEvolve-update p f xs h)
]

pub RunsEvolve-append :
    (xs ys zs : List BuildRun) → RunsEvolve xs ys → All IsNewRun zs → RunsEvolve xs (ys ++ zs)
RunsEvolve-append [] ys zs h q = All-append IsNewRun ys zs h q
RunsEvolve-append (x ∷ xs) (y ∷ ys) zs (s, h) q = (s, RunsEvolve-append xs ys zs h q)
RunsEvolve-append (x ∷ xs) [] zs h q = absurd h

-- One row for each id, at most one for each deployment, and no more than two attempts.
pub record RunsInv (t : List BuildRun) : Type 0 where
  pub unique : UniqueKeys (λ r. r.id) t
  pub one_run : UniqueKeys (λ r. r.deployment_id) t
  pub attempts : All (λ r. r.attempt ≤ 2) t

pub record RunsSound (t u : List BuildRun) : Type 0 where
  pub evolves : RunsEvolve t u
  pub inv : RunsInv u

pub update-RunsSound :
    (p : BuildRun → Bool) (f : BuildRun → BuildRun) (t : List BuildRun)
    → All (λ x. p x ≡ true → RunStep x (f x)) t
    → RunsInv t
    → RunsSound t (update_where p f t)
update-RunsSound p f t h inv = record {
  evolves = RunsEvolve-update p f t h;
  inv = record {
    unique = λ k.
        rw
          (count-update-eq (λ r. r.id == k) p f t
            (All-map (λ x. p x ≡ true → RunStep x (f x))
              (λ x. p x ≡ true → ((f x).id == k) ≡ (x.id == k)) t (λ x s e. rw (s e).same_id) h))
          (inv.unique k);
    one_run = λ k.
        rw
          (count-update-eq (λ r. r.deployment_id == k) p f t
            (All-map (λ x. p x ≡ true → RunStep x (f x))
              (λ x. p x ≡ true → ((f x).deployment_id == k) ≡ (x.deployment_id == k)) t
              (λ x s e. rw (s e).same_deployment) h))
          (inv.one_run k);
    attempts =
        All-update (λ r. r.attempt ≤ 2) p f t
          (All-map (λ x. p x ≡ true → RunStep x (f x))
            (λ x. p x ≡ true → x.attempt ≤ 2 → (f x).attempt ≤ 2) t (λ x s e. (s e).bounded) h)
          inv.attempts;
  };
}

-- The same, where the condition on a row does not depend on the table.
pub update_all-RunsSound :
    (p : BuildRun → Bool) (f : BuildRun → BuildRun) (t : List BuildRun)
    → ((x : BuildRun) → p x ≡ true → RunStep x (f x))
    → RunsInv t
    → RunsSound t (update_where p f t)
update_all-RunsSound p f t h inv = update-RunsSound p f t (All-intro _ h t) inv

pub RunsSound-refl : (t : List BuildRun) → RunsInv t → RunsSound t t
RunsSound-refl t inv = record { evolves = RunsEvolve-refl t; inv = inv }

pub remove-RunsInv :
    (gone : BuildRun → Bool) (t : List BuildRun)
    → RunsInv t
    → RunsInv (select_where (λ r. not (gone r)) t)
remove-RunsInv gone t inv = record {
  unique = λ k. omega (arith, inv.unique k, count-remove-le (λ r. r.id == k) gone t);
  one_run = λ k. omega (arith, inv.one_run k, count-remove-le (λ r. r.deployment_id == k) gone t);
  attempts = All-map _ _ _ (λ r both. both.0) (All-select _ (λ r. not (gone r)) t inv.attempts);
}
