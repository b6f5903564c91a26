-- ===== src/Deployments/Outcomes.antt =====
-- What one reconcile pass writes (apps/backend/src/modules/worker/jobs/deployments/workflow/outcomes.ts,
-- errors.ts, the lease of reconcile-one.ts, and `persistDeploymentImageRef` of image-ref.ts). `row` is
-- the worker's copy of the deployment, which may be stale when the write comes.
use text.Mathlib.Text.{◌==◌ as str_eq}
use kubwave.Common.{
  ℕ, String, Bool, true, false, not, ◌&&◌, Option, none, some, List, [], ◌∷◌, ◌++◌, ◌==◌,
  update_where, if◌then◌else◌,
}
use kubwave.Store.{
  Store, Deployment, DeploymentStatus, deploying, canceling, succeeded, failed, is_canceling,
  is_in_flight, DeploymentLogEntry, info, error,
}
use kubwave.Deployments.Logs.{log_entry, phase_entry, row_in, update_and_log, finalize}

pub data ReconcileState : Type 0 where
  ready : ReconcileState
  progressing : String → ReconcileState
  broken : String → ReconcileState

-- `broken` is the state `failed`, a name that the statuses have. `events` are logged as they are; absent ones are the empty list.
pub record ReconcileResult : Type 0 where
  pub state : ReconcileState
  pub events : List DeploymentLogEntry

-- `phase !== row.phase`, where `row.phase` may be null.
abbrev pub is_new_text : String → Option String → Bool
is_new_text text none = true
is_new_text text (some old) = not (str_eq text old)

abbrev pub set_progress : String → Deployment → Deployment
set_progress phase d = record d { phase = some phase }

abbrev pub phase_entries : ℕ → String → Deployment → List DeploymentLogEntry
phase_entries now phase row = if is_new_text phase row.phase then phase_entry now phase ∷ [] else []

abbrev pub apply_state : ℕ → Deployment → ReconcileState → List DeploymentLogEntry → Store → Store
apply_state now row ready events =
    finalize now row.id deploying
      (record { status = succeeded; phase = "done"; last_error = none; rollback_attempts = none })
      (events ++ log_entry now info "succeeded" "Deployment succeeded" ∷ [])
apply_state now row (broken message) events =
    finalize now row.id deploying
      (record {
        status = failed;
        phase = "failed";
        last_error = some message;
        rollback_attempts = none;
      })
      (events ++ log_entry now error "failed" message ∷ [])
apply_state now row (progressing phase) events =
    update_and_log (row_in row.id deploying) (set_progress phase) row.id
      (events ++ phase_entries now phase row)

unfoldable pub apply_reconcile_result : ℕ → Deployment → ReconcileResult → Store → Store
apply_reconcile_result now row result = apply_state now row result.state result.events

abbrev pub active_status : DeploymentStatus → DeploymentStatus
active_status status = if is_canceling status then canceling else deploying

abbrev pub set_last_error : String → Deployment → Deployment
set_last_error message d = record d { last_error = some message }

-- The row stays active for the next tick; a message that it already holds is not logged again.
unfoldable pub handle_reconcile_error : ℕ → Deployment → String → Store → Store
handle_reconcile_error now row message =
    update_and_log (row_in row.id (active_status row.status)) (set_last_error message) row.id
      (if is_new_text message row.last_error then log_entry now error "error" message ∷ [] else [])

abbrev pub set_lease : String → ℕ → Deployment → Deployment
set_lease worker now d = record d { locked_by = some worker; locked_at = some now }

unfoldable pub reassert_deployment_lease : String → ℕ → Deployment → Store → Store
reassert_deployment_lease worker now row s = record s {
  deployments =
      update_where (λ d. d.id == row.id && is_in_flight d.status) (set_lease worker now)
        s.deployments;
}

abbrev pub is_null : Option String → Bool
is_null none = true
is_null (some text) = false

abbrev pub set_image_ref : String → Deployment → Deployment
set_image_ref ref d = record d { image_ref = some ref }

-- The image is written once.
unfoldable pub persist_deployment_image_ref : ℕ → String → Store → Store
persist_deployment_image_ref id ref s = record s {
  deployments =
      update_where (λ d. d.id == id && is_null d.image_ref) (set_image_ref ref) s.deployments;
}
