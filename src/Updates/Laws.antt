-- ===== src/Updates/Laws.antt =====
-- An update run that has ended stays as it is, and every run ends.
use kubwave.Common.{
  ℕ, ◌+◌, ◌-◌, ◌<◌, ◌≡◌, ap, refl, inl, inr, Bool, true, false, ◌||◌, Option, none, some, List, [],
  ◌∷◌, ◌==◌, arith, ltb, if◌then◌else◌, update_where, find_where, or_else, Bool-cases, ==_refl,
}
use kubwave.Deployments.Cancel.{Call, returned, thrown}
use kubwave.Updates.Pods.{Pod, is_truthy, is_some}
use kubwave.Updates.Runs.{
  UpdateRun, is_update_active, is_waiting_row, is_active_row, Job, Outcome, success, failure,
  job_outcome, update_outcome, Creation, created, refused, set_created, create_update_job,
  apply_outcome, set_phase_to, set_succeeded, set_failed, reconcile_update_run, reconcile_read,
  reconcile_with, phase_in, failure_in, is_new_phase, failed_message, failed_phase,
  update_timeout_ms, is_failed_condition, format_job_failure,
}

unfoldable pub find_update_run : ℕ → List UpdateRun → Option UpdateRun
find_update_run id t = find_where (λ r. r.id == id) t

-- One pass over one run, with a copy of the row that may be stale, and the requests for a run.
pub data UpdateStep (t : List UpdateRun) : List UpdateRun → Type 0 where
  create : (now id : ℕ) (c : Creation) → UpdateStep t (create_update_job now id c t)
  reconcile :
      (now : ℕ) (run : UpdateRun) (job : Call (Option Job)) (pod : Call (Option Pod))
      → UpdateStep t (reconcile_update_run now run job pod t)

pub data UpdateReach (t : List UpdateRun) : List UpdateRun → Type 0 where
  here : UpdateReach t t
  next : {u v : List UpdateRun} → UpdateReach t u → UpdateStep u v → UpdateReach t v

-- An update of active rows that keeps ids leaves a row that has ended.
find-update-ended :
    (p : UpdateRun → Bool) (f : UpdateRun → UpdateRun) (id : ℕ) (t : List UpdateRun) (x : UpdateRun)
    → ((r : UpdateRun) → p r ≡ true → is_update_active r.status ≡ true)
    → ((r : UpdateRun) → (f r).id ≡ r.id)
    → is_update_active x.status ≡ false
    → find_where (λ r. r.id == id) t ≡ some x
    → find_where (λ r. r.id == id) (update_where p f t) ≡ some x
find-update-ended p f id [] x h k st e = absurd (cc)
find-update-ended p f id (r ∷ t) x h k st e = elim (Bool-cases (r.id == id)) [
  | inl same ↦
      let hit : r ≡ x = ground arith in
      let idle : p r ≡ false = ground (arith, h r) in rw (idle, same) (ap some hit)
  | inr other ↦ ground (arith, k r, find-update-ended p f id t x h k st (ground arith))
]

if-ended :
    (b : Bool) (id : ℕ) (t u : List UpdateRun) (x : UpdateRun)
    → find_update_run id t ≡ some x
    → find_update_run id u ≡ some x
    → find_update_run id (if b then t else u) ≡ some x
if-ended true id t u x h k = h
if-ended false id t u x h k = k

apply_outcome-ended :
    (now : ℕ) (run : UpdateRun) (pod : Option Pod) (o : Option Outcome) (id : ℕ)
    (t : List UpdateRun) (x : UpdateRun)
    → is_update_active x.status ≡ false
    → find_update_run id t ≡ some x
    → find_update_run id (apply_outcome now run pod o t) ≡ some x
unfolding find_update_run
apply_outcome-ended now run pod none id t x st e =
    if-ended (is_new_phase (phase_in pod) run.phase) id
      (update_where (is_active_row run.id) (set_phase_to (phase_in pod)) t) t x
      (find-update-ended (is_active_row run.id) (set_phase_to (phase_in pod)) id t x
        (λ r h. ground arith) (λ r. refl) st e)
      e
apply_outcome-ended now run pod (some success) id t x st e =
    find-update-ended (is_active_row run.id) (set_succeeded now) id t x (λ r h. ground arith)
      (λ r. refl) st e
apply_outcome-ended now run pod (some (failure text)) id t x st e =
    find-update-ended (is_active_row run.id)
      (set_failed now (failed_message text (failure_in pod)) (failed_phase run (failure_in pod))) id
      t x (λ r h. ground arith) (λ r. refl) st e

reconcile_with-ended :
    (now : ℕ) (run : UpdateRun) (job : Call (Option Job)) (pod : Call (Option Pod)) (id : ℕ)
    (t : List UpdateRun) (x : UpdateRun)
    → is_update_active x.status ≡ false
    → find_update_run id t ≡ some x
    → find_update_run id (reconcile_with now run job pod t) ≡ some x
reconcile_with-ended now run (returned job) (returned pod) id t x st e =
    apply_outcome-ended now run pod (update_outcome now run job) id t x st e
reconcile_with-ended now run (returned job) (thrown message) id t x st e = e
reconcile_with-ended now run (thrown message) pod id t x st e = e

UpdateStep-ended :
    {t u : List UpdateRun} (id : ℕ) (x : UpdateRun)
    → UpdateStep t u
    → is_update_active x.status ≡ false
    → find_update_run id t ≡ some x
    → find_update_run id u ≡ some x
unfolding find_update_run create_update_job reconcile_update_run
UpdateStep-ended {t} id x (create now k (created name)) st e =
    find-update-ended (is_waiting_row k) (set_created now (created name)) id t x
      (λ r h. ground arith) (λ r. refl) st e
UpdateStep-ended {t} id x (create now k (refused m)) st e =
    find-update-ended (is_waiting_row k) (set_created now (refused m)) id t x (λ r h. ground arith)
      (λ r. refl) st e
UpdateStep-ended {t} id x (reconcile now run job pod) st e =
    if-ended (is_truthy run.job_name) id (reconcile_with now run job pod t)
      (reconcile_read now run none none t) x (reconcile_with-ended now run job pod id t x st e)
      (apply_outcome-ended now run none (update_outcome now run none) id t x st e)

-- A run that has succeeded or failed keeps its whole row through every later pass of every worker,
-- whatever copies of rows they hold and whatever the cluster answers.
pub UpdateReach-ended :
    {t u : List UpdateRun} (id : ℕ) (x : UpdateRun)
    → UpdateReach t u
    → is_update_active x.status ≡ false
    → find_update_run id t ≡ some x
    → find_update_run id u ≡ some x
UpdateReach-ended id x here st e = e
UpdateReach-ended id x (next r step) st e =
    UpdateStep-ended id x step st (UpdateReach-ended id x r st e)

-- The outcome of a run that has lasted too long.
late_outcome :
    (now : ℕ) (run : UpdateRun) (job : Option Job)
    → is_update_active run.status ≡ true
    → run.created_at + update_timeout_ms < now
    → or_else run.started_at run.created_at + update_timeout_ms < now
    → (o : Outcome) × (update_outcome now run job ≡ some o)
unfolding update_outcome
late_outcome now run job live old long = elim (Bool-cases (is_truthy run.job_name)) [
  | inr e ↦ (failure "Update job was not created.", ground arith)
  | inl e ↦ let (o, h) = job_late job in (o, rw (live, e) h)
]
  where
    job_late : (job : Option Job) → (o : Outcome) × (job_outcome now run job ≡ some o)
    job_late none = (_, refl)
    job_late (some j) = elim (Bool-cases (ltb 0 j.succeeded_pods)) [
      | inl e ↦ (success, rw e refl)
      | inr e ↦
          elim (Bool-cases
            (ltb 0 j.failed_pods || is_some (find_where is_failed_condition j.conditions))) [
              | inl f ↦ (
                failure (format_job_failure (find_where is_failed_condition j.conditions)),
                rw (e, f) refl,
              )
              | inr f ↦
                  let late : ltb update_timeout_ms (now - or_else run.started_at run.created_at)
                      ≡ true =
                    ground arith in
                  (failure "Update timed out after 65 minutes.", rw (e, f, late) refl)
            ]
    ]

find-update-active :
    (f : UpdateRun → UpdateRun) (id : ℕ) (t : List UpdateRun) (x : UpdateRun)
    → ((r : UpdateRun) → (f r).id ≡ r.id)
    → is_update_active x.status ≡ true
    → find_where (λ r. r.id == id) t ≡ some x
    → find_where (λ r. r.id == id) (update_where (is_active_row x.id) f t) ≡ some (f x)
find-update-active f id [] x k live e = absurd (cc)
find-update-active f id (r ∷ t) x k live e = elim (Bool-cases (r.id == id)) [
  | inl same ↦ let hit : r ≡ x = ground arith in rw (hit, live, ==_refl x.id) (ground (arith, k x))
  | inr other ↦ ground (arith, k r, find-update-active f id t x k live (ground arith))
]

-- The row is in the table and has ended.
pub record HasEnded (id : ℕ) (t : List UpdateRun) : Type 0 where
  pub row : UpdateRun
  pub found : find_update_run id t ≡ some row
  pub ended : is_update_active row.status ≡ false

apply_outcome-HasEnded :
    (now : ℕ) (run : UpdateRun) (pod : Option Pod) (o : Outcome) (id : ℕ) (t : List UpdateRun)
    → find_update_run id t ≡ some run
    → is_update_active run.status ≡ true
    → HasEnded id (apply_outcome now run pod (some o) t)
unfolding find_update_run
apply_outcome-HasEnded now run pod success id t e live = record {
  row = _;
  found = find-update-active (set_succeeded now) id t run (λ r. refl) live e;
  ended = refl;
}
apply_outcome-HasEnded now run pod (failure text) id t e live = record {
  row = _;
  found =
      find-update-active
        (set_failed now (failed_message text (failure_in pod)) (failed_phase run (failure_in pod)))
        id t run (λ r. refl) live e;
  ended = refl;
}

-- A pass over an active run, with its current row, that was created, and if it started has been
-- running, for more than 65 minutes ends it, whatever job and pod the cluster shows or does not
-- show, where the reads of them return and do not throw.
pub reconcile_update_run-HasEnded :
    (now id : ℕ) (run : UpdateRun) (job : Option Job) (pod : Option Pod) (t : List UpdateRun)
    → find_update_run id t ≡ some run
    → is_update_active run.status ≡ true
    → run.created_at + update_timeout_ms < now
    → or_else run.started_at run.created_at + update_timeout_ms < now
    → HasEnded id (reconcile_update_run now run (returned job) (returned pod) t)
unfolding reconcile_update_run
reconcile_update_run-HasEnded now id run job pod t e live old long =
    elim (Bool-cases (is_truthy run.job_name)) [
      | inl named ↦
          let (o, h) = late_outcome now run job live old long in
          rw (named, h) (apply_outcome-HasEnded now run pod o id t e live)
      | inr bare ↦
          let (o, h) = late_outcome now run none live old long in
          rw (bare, h) (apply_outcome-HasEnded now run none o id t e live)
    ]
