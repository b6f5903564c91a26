-- ===== src/Deployments/Cancel.antt =====
-- Reconciling a deployment that is being canceled
-- (apps/backend/src/modules/worker/jobs/deployments/cancel.ts). The cluster answers through `Cluster`;
-- what a deployer does to the cluster and to the store is its interface `Deployer`
-- (deployers/types.ts).
use text.Mathlib.Text.{starts_with, ◌==◌ as str_eq}
use kubwave.Common.{
  ℕ, ◌+◌, ◌-◌, ◌*◌, ◌/◌, String, Bool, true, false, ◌&&◌, Option, none, some, List, [], ◌∷◌, ◌++◌,
  ◌==◌, ltb, leb, if◌then◌else◌, select_where, sort_with, ◌<>◌, decimal, trim, drop_text, is_empty,
}
use kubwave.Store.{
  Store, Deployment, canceling, canceled, failed, is_succeeded, is_build_type, is_build_phase,
  ServiceType, ServiceConfig, DeploymentLogEntry, info, warn, error,
}
use kubwave.Builds.Runs.{cancel_build_run}
use kubwave.Deployments.Logs.{log_entry, row_in, update_and_log, FinalFields, finalize}
use kubwave.Deployments.Outcomes.{
  ReconcileState, ready, progressing, broken, ReconcileResult, set_progress, phase_entries,
}

-- A call of the cluster's API returns or throws.
pub data Call {ℓ} (A : Type ℓ) : Type ℓ where
  returned : A → Call A
  thrown : String → Call A

pub data BuildMode : Type 0 where
  normal rollback : BuildMode

pub record Deployer : Type 0 where
  pub reconcile : Deployment → BuildMode → Store → Store × Call ReconcileResult
  pub teardown : ℕ → Call Bool

-- The cluster during one pass. Only whether these calls throw, and what they return, is read.
pub record Cluster : Type 0 where
  pub delete_artifacts : ℕ → Call Bool
  pub has_running_build_job : ℕ → Call Bool
  pub ensure_namespace : ℕ → Call Bool
  pub get_deployer : ServiceType → Deployer

-- `resolveConfig`: a configuration, a ReferenceResolutionError, or another throw.
pub data Resolution : Type 0 where
  resolved : ServiceConfig → Resolution
  unresolved : String → Resolution
  crashed : String → Resolution

pub record Context : Type 0 where
  pub now : ℕ
  pub worker_id : String
  pub reconcile_interval_ms : ℕ
  pub environment_id : ℕ
  pub cluster : Cluster
  pub resolve_config : ServiceConfig → Resolution

-- Three, and the ticks of the 15 seconds that a pod must stay ready, rounded up.
unfoldable pub max_cancel_rollback_attempts : ℕ → ℕ
max_cancel_rollback_attempts interval_ms = 3 + (15 * 1000 + interval_ms - 1) / interval_ms

-- A pass over the store that may throw; what it wrote before stays written.
abbrev pub Pass : Type 0 → Type 0
Pass A = Store → Store × Call A

abbrev pub pure : {A : Type 0} → A → Pass A
pure a s = (s, returned a)

infixl 5 ◌>>=◌ ◌>>◌
abbrev pub ◌>>=◌ : {A B : Type 0} → Pass A → (A → Pass B) → Pass B
◌>>=◌ m f s = let (t, call) = m s in elim call [ returned a ↦ f a t | thrown e ↦ (t, thrown e) ]

abbrev pub ◌>>◌ : {A B : Type 0} → Pass A → Pass B → Pass B
m >> k = m >>= λ _. k

abbrev pub ask : {A : Type 0} → Call A → Pass A
ask call s = (s, call)

abbrev pub write : (Store → Store) → Pass Bool
write f s = (f s, returned true)

abbrev pub read : {A : Type 0} → (Store → A) → Pass A
read f s = (s, returned (f s))

abbrev pub final_canceled : FinalFields
final_canceled = record {
  status = canceled;
  phase = "canceled";
  last_error = none;
  rollback_attempts = none;
}

abbrev pub finish_canceled : Context → Deployment → List DeploymentLogEntry → Pass Bool
finish_canceled c row entries = write (finalize c.now row.id canceling final_canceled entries)

-- The error of a rollback that failed, or that reports an error while it goes on.
abbrev pub text_or : String → String → String
text_or text other = if is_empty text then other else text

unfoldable pub cancel_rollback_error : ReconcileState → Option String
cancel_rollback_error ready = none
cancel_rollback_error (broken message) = some (text_or message "unknown error")
cancel_rollback_error (progressing phase) =
    if starts_with phase "error:" then some (text_or (trim (drop_text 6 phase)) phase) else none

abbrev pub is_previous : Deployment → Deployment → Bool
is_previous row d =
    d.service_id == row.service_id && is_succeeded d.status && ltb d.created_at row.created_at

abbrev pub first : List Deployment → Option Deployment
first [] = none
first (d ∷ ds) = some d

unfoldable pub previous_successful_deployment : Deployment → Store → Option Deployment
previous_successful_deployment row s = first (
    sort_with (λ a b. leb b.created_at a.created_at) (select_where (is_previous row) s.deployments))

unfoldable pub update_canceling_progress :
    ℕ → Deployment → String → List DeploymentLogEntry → Store → Store
update_canceling_progress now row phase events =
    update_and_log (row_in row.id canceling) (set_progress phase) row.id
      (events ++ phase_entries now phase row)

abbrev pub set_rollback_failure : ℕ → String → Deployment → Deployment
set_rollback_failure attempt message d = record d {
  rollback_attempts = attempt;
  phase = some "rollback-retrying";
  last_error = some message;
}

unfoldable pub record_rollback_failure :
    Context → Deployment → String → List DeploymentLogEntry → ℕ → Store → Store
unfolding max_cancel_rollback_attempts
record_rollback_failure c row message events attempt =
    update_and_log (row_in row.id canceling)
      (set_rollback_failure attempt ("Cancel rollback failed: " <> message)) row.id
      (events
        ++ log_entry c.now warn "rollback-retry" (
            "Cancel rollback attempt "
            <> decimal attempt
            <> "/"
            <> decimal (max_cancel_rollback_attempts c.reconcile_interval_ms)
            <> " failed: "
            <> message)
          ∷ phase_entries c.now "rollback-retrying" row)

abbrev pub fail_rollback :
    Context → Deployment → String → List DeploymentLogEntry → ℕ → Store → Store
fail_rollback c row text events attempt =
    finalize c.now row.id canceling
      (record {
        status = failed;
        phase = "failed";
        last_error = some text;
        rollback_attempts = some attempt;
      })
      (events ++ log_entry c.now error "failed" text ∷ [])

-- One more failed attempt: the deployment fails at the last one.
unfoldable pub rollback_failed :
    Context → Deployment → String → List DeploymentLogEntry → Store → Store
unfolding record_rollback_failure max_cancel_rollback_attempts
rollback_failed c row message events s =
    let attempt = row.rollback_attempts + 1 in
    if leb (max_cancel_rollback_attempts c.reconcile_interval_ms) attempt
    then fail_rollback c row ("Cancel rollback failed: " <> message) events attempt s
    else record_rollback_failure c row message events attempt s

abbrev pub roll_on : Context → Deployment → ReconcileState → List DeploymentLogEntry → Store → Store
roll_on c row (progressing phase) events = update_canceling_progress c.now row phase events
roll_on c row _ events = λ s. s

abbrev pub roll_back :
    Context → Deployment → Option String → ReconcileState → List DeploymentLogEntry → Store → Store
roll_back c row (some message) state events = rollback_failed c row message events
roll_back c row none state events = roll_on c row state events

abbrev pub apply_rollback_state :
    Context → Deployment → Deployment → ReconcileState → List DeploymentLogEntry → Store → Store
apply_rollback_state c row previous ready events = finalize c.now row.id canceling final_canceled (
    events
    ++ log_entry c.now info "restored"
        ("Restored previous successful deployment " <> decimal previous.id)
      ∷ log_entry c.now warn "canceled" "Deployment canceled"
      ∷ [])
apply_rollback_state c row previous state events =
    roll_back c row (cancel_rollback_error state) state events

-- What the rollback's result writes.
unfoldable pub apply_rollback : Context → Deployment → Deployment → ReconcileResult → Store → Store
unfolding cancel_rollback_error rollback_failed update_canceling_progress
apply_rollback c row previous result =
    apply_rollback_state c row previous result.state result.events

abbrev pub rollback_result : Deployer → Deployment → Resolution → Pass ReconcileResult
rollback_result deployer previous (unresolved message) s =
    (s, returned (record { state = broken message; events = [] }))
rollback_result deployer previous (crashed message) s = (s, thrown message)
rollback_result deployer previous (resolved config) s =
    deployer.reconcile (record previous { config = config }) rollback s

-- Back to the previous successful deployment, or down where there is none.
abbrev pub restore : Context → Deployment → Option Deployment → Pass Bool
restore c row none = do
  ask ((c.cluster.get_deployer row.type).teardown row.service_id)
  finish_canceled c row (
      log_entry c.now warn "cleanup"
        "Removed deployment resources because no previous successful deployment exists"
      ∷ log_entry c.now warn "canceled" "Deployment canceled"
      ∷ [])
restore c row (some previous) = do
  ask (c.cluster.ensure_namespace c.environment_id)
  result ←
      rollback_result (c.cluster.get_deployer previous.type) previous
        (c.resolve_config previous.config)
  write (apply_rollback c row previous result)

-- The build's run is canceled first; `true` if it was open.
abbrev pub cancel_run : Context → Deployment → Pass Bool
cancel_run c row s =
    let (t, was_open) = cancel_build_run c.now row.id s in
    if is_build_type row.type then (t, returned was_open) else (s, returned false)

-- Whether a build job runs, asked only of a build deployment in phase `building`.
abbrev pub is_building : Option String → Bool
is_building none = false
is_building (some phase) = str_eq phase "building"

abbrev pub running_job : Context → Deployment → Pass Bool
running_job c row =
    if is_build_type row.type && is_building row.phase
    then ask (c.cluster.has_running_build_job row.id)
    else pure false

abbrev pub finish_build : Context → Deployment → List DeploymentLogEntry → Pass Bool
finish_build c row entries = do
  ask (c.cluster.delete_artifacts row.id)
  finish_canceled c row entries

abbrev pub cleanup_entries : ℕ → List DeploymentLogEntry
cleanup_entries now =
    log_entry now warn "cleanup" "Canceled build and removed build artifacts"
    ∷ log_entry now warn "canceled" "Deployment canceled"
    ∷ []

abbrev pub cancel_deployed : Context → Deployment → Pass Bool
cancel_deployed c row = do
  previous ← read (previous_successful_deployment row)
  restore c row previous

abbrev pub cancel_building : Context → Deployment → Pass Bool
cancel_building c row = do
  runs ← running_job c row
  if runs then finish_build c row (cleanup_entries c.now) else cancel_deployed c row

unfoldable pub reconcile_canceling : Context → Deployment → Pass Bool
unfolding previous_successful_deployment apply_rollback
reconcile_canceling c row = do
  was_open ← cancel_run c row
  if was_open && is_build_phase row.phase
      then finish_build c row (log_entry c.now warn "canceled" "Build canceled" ∷ [])
      else cancel_building c row
