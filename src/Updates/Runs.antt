-- ===== src/Updates/Runs.antt =====
-- The worker's passes over update runs
-- (apps/backend/src/modules/worker/jobs/updates/{outcome,create,reconcile,types}.ts). What the cluster
-- answers is an argument: the reads of the job and the pod, which may throw, and whether the creation
-- of the job threw.
use text.Mathlib.Text.{◌==◌ as str_eq}
use kubwave.Common.{
  ℕ, ◌-◌, ◌*◌, String, Bool, true, false, not, ◌&&◌, ◌||◌, Option, none, some, List, ◌==◌, ltb,
  if◌then◌else◌, update_where, find_where, or_else, ◌<>◌, is_empty,
}
use kubwave.Deployments.Cancel.{Call, returned, thrown}
use kubwave.Updates.Pods.{
  Pod, ContainerFailure, describe_failed_container, current_update_phase, join_details, is_truthy,
  is_some,
}

pub data UpdateStatus : Type 0 where
  waiting running succeeded failed : UpdateStatus

pub record UpdateRun : Type 0 where
  pub id : ℕ
  pub to_version : String
  pub status : UpdateStatus
  pub started_at : Option ℕ
  pub finished_at : Option ℕ
  pub phase : Option String
  pub last_error : Option String
  pub job_name : Option String
  pub created_at : ℕ

-- ACTIVE_UPDATE_RUN_STATUSES; `waiting` is the status `pending`.
abbrev pub is_update_active : UpdateStatus → Bool
is_update_active waiting = true
is_update_active running = true
is_update_active _ = false

abbrev pub is_waiting : UpdateStatus → Bool
is_waiting waiting = true
is_waiting _ = false

pub record JobCondition : Type 0 where
  pub type : String
  pub status : String
  pub reason : Option String
  pub message : Option String

-- The job's counts, 0 where they are absent.
pub record Job : Type 0 where
  pub succeeded_pods : ℕ
  pub failed_pods : ℕ
  pub conditions : List JobCondition

abbrev pub creation_grace_ms : ℕ
creation_grace_ms = 2 * 60 * 1000

abbrev pub update_timeout_ms : ℕ
update_timeout_ms = 65 * 60 * 1000

pub data Outcome : Type 0 where
  success : Outcome
  failure : String → Outcome

abbrev pub is_failed_condition : JobCondition → Bool
is_failed_condition c = str_eq c.type "Failed" && str_eq c.status "True"

abbrev pub format_job_failure : Option JobCondition → String
format_job_failure none = "Update job failed."
format_job_failure (some c) =
    let details = join_details c.reason c.message in
    if is_empty details then "Update job failed." else "Update job failed: " <> details

abbrev pub job_outcome : ℕ → UpdateRun → Option Job → Option Outcome
job_outcome now run none = some (failure "Update job was deleted or is no longer present.")
job_outcome now run (some job) =
    let condition = find_where is_failed_condition job.conditions in
    if ltb 0 job.succeeded_pods
    then some success
    else if ltb 0 job.failed_pods || is_some condition
    then some (failure (format_job_failure condition))
    else if ltb update_timeout_ms (now - or_else run.started_at run.created_at)
    then some (failure "Update timed out after 65 minutes.")
    else none

unfoldable pub update_outcome : ℕ → UpdateRun → Option Job → Option Outcome
update_outcome now run job =
    if not (is_update_active run.status)
    then none
    else if not (is_truthy run.job_name)
    then if ltb creation_grace_ms (now - run.created_at)
      then some (failure "Update job was not created.")
      else none
    else job_outcome now run job

-- What creating the job comes to: the job's name, or the error that was thrown.
pub data Creation : Type 0 where
  created : String → Creation
  refused : String → Creation

abbrev pub set_created : ℕ → Creation → UpdateRun → UpdateRun
set_created now (created name) r = record r {
  job_name = some name;
  started_at = some now;
  status = running;
}
set_created now (refused message) r = record r {
  status = failed;
  last_error = some message;
  finished_at = some now;
}

abbrev pub is_waiting_row : ℕ → UpdateRun → Bool
is_waiting_row id r = r.id == id && is_waiting r.status

-- The write that ends `createUpdateJob`, either way.
unfoldable pub create_update_job : ℕ → ℕ → Creation → List UpdateRun → List UpdateRun
create_update_job now id creation t = update_where (is_waiting_row id) (set_created now creation) t

abbrev pub is_active_row : ℕ → UpdateRun → Bool
is_active_row id r = r.id == id && is_update_active r.status

abbrev pub is_new_phase : Option String → Option String → Bool
is_new_phase none old = false
is_new_phase (some phase) none = not (is_empty phase)
is_new_phase (some phase) (some old) = not (is_empty phase) && not (str_eq phase old)

abbrev pub set_phase_to : Option String → UpdateRun → UpdateRun
set_phase_to phase r = record r { phase = phase }

abbrev pub set_succeeded : ℕ → UpdateRun → UpdateRun
set_succeeded now r = record r {
  status = succeeded;
  phase = some "done";
  last_error = none;
  finished_at = some now;
}

abbrev pub set_failed : ℕ → String → Option String → UpdateRun → UpdateRun
set_failed now message phase r = record r {
  status = failed;
  last_error = some message;
  phase = phase;
  finished_at = some now;
}

abbrev pub phase_in : Option Pod → Option String
phase_in none = none
phase_in (some pod) = current_update_phase pod

abbrev pub failure_in : Option Pod → Option ContainerFailure
failure_in none = none
failure_in (some pod) = describe_failed_container pod

abbrev pub failed_message : String → Option ContainerFailure → String
failed_message text none = text
failed_message text (some f) = f.message

abbrev pub failed_phase : UpdateRun → Option ContainerFailure → Option String
failed_phase run none = run.phase
failed_phase run (some f) = some f.phase

abbrev pub apply_outcome :
    ℕ → UpdateRun → Option Pod → Option Outcome → List UpdateRun → List UpdateRun
apply_outcome now run pod none t =
    if is_new_phase (phase_in pod) run.phase
    then update_where (is_active_row run.id) (set_phase_to (phase_in pod)) t
    else t
apply_outcome now run pod (some success) t =
    update_where (is_active_row run.id) (set_succeeded now) t
apply_outcome now run pod (some (failure text)) t =
    update_where (is_active_row run.id)
      (set_failed now (failed_message text (failure_in pod)) (failed_phase run (failure_in pod))) t

-- The body of `reconcileUpdateRun` once both reads have returned.
abbrev pub reconcile_read :
    ℕ → UpdateRun → Option Job → Option Pod → List UpdateRun → List UpdateRun
reconcile_read now run job pod t = apply_outcome now run pod (update_outcome now run job) t

-- A read that throws ends the pass before it writes.
abbrev pub reconcile_with :
    ℕ → UpdateRun → Call (Option Job) → Call (Option Pod) → List UpdateRun → List UpdateRun
reconcile_with now run (returned job) (returned pod) t = reconcile_read now run job pod t
reconcile_with now run (returned job) (thrown message) t = t
reconcile_with now run (thrown message) pod t = t

-- `run` is the copy that the sweep selected. The reads of the job and of its pod return, with none
-- where there is no such thing, or throw; the sweep catches that. Without a job's name nothing is
-- read of the cluster.
unfoldable pub reconcile_update_run :
    ℕ → UpdateRun → Call (Option Job) → Call (Option Pod) → List UpdateRun → List UpdateRun
reconcile_update_run now run job pod t =
    if is_truthy run.job_name
    then reconcile_with now run job pod t
    else reconcile_read now run none none t
