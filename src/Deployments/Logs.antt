-- ===== src/Deployments/Logs.antt =====
-- Step logs of a deployment and the guarded final write
-- (apps/backend/src/modules/worker/jobs/deployments/logs.ts). The clock is an argument, `now`.
use text.Mathlib.Text.{starts_with, ◌==◌ as str_eq}
use kubwave.Common.{
  ℕ, String, Bool, ◌&&◌, Option, none, some, List, ◌++◌, map, ◌==◌, update_where, if◌then◌else◌,
  any, trim, drop_text, or_else,
}
use kubwave.Store.{
  Store, Deployment, DeploymentStatus, same_status, DeploymentLog, DeploymentLogEntry, LogLevel,
  info, warn, event,
}

abbrev pub log_entry : ℕ → LogLevel → String → String → DeploymentLogEntry
log_entry now level step message = record {
  ts = now;
  level = level;
  step = step;
  message = message;
}

abbrev pub deployment_log_row : ℕ → DeploymentLogEntry → DeploymentLog
deployment_log_row id entry = record {
  deployment_id = id;
  kind = event;
  ts = entry.ts;
  level = entry.level;
  step = entry.step;
  message = entry.message;
  container_name = none;
  source_ts = none;
  line_hash = none;
}

abbrev pub deployment_log_rows : ℕ → List DeploymentLogEntry → List DeploymentLog
deployment_log_rows id = map (deployment_log_row id)

-- An empty list of entries inserts nothing, which appending it does too.
abbrev pub insert_logs : ℕ → List DeploymentLogEntry → Store → Store
insert_logs id entries s = record s {
  deployment_logs = s.deployment_logs ++ deployment_log_rows id entries;
}

unfoldable pub phase_entry : ℕ → String → DeploymentLogEntry
phase_entry now phase =
    if starts_with phase "error:"
    then log_entry now warn "error" (trim (drop_text 6 phase))
    else if str_eq phase "applying"
    then log_entry now info "applying" "Applying manifests…"
    else if str_eq phase "rolling-out"
    then log_entry now info "rolling-out" "Waiting for rollout…"
    else if str_eq phase "building"
    then log_entry now info "building" "Building image…"
    else if str_eq phase "pushing"
    then log_entry now info "pushing" "Pushing image to the registry…"
    else if str_eq phase "image-ready"
    then log_entry now info "image-ready" "Image built — applying manifests…"
    else log_entry now info phase phase

-- `where id = … and status = …`
abbrev pub row_in : ℕ → DeploymentStatus → Deployment → Bool
row_in id status d = d.id == id && same_status d.status status

-- An update of the deployments that meet a condition; the entries are logged if a row was updated.
abbrev pub update_and_log :
    (Deployment → Bool) → (Deployment → Deployment) → ℕ → List DeploymentLogEntry → Store → Store
update_and_log p f id entries s =
    let t = record s { deployments = update_where p f s.deployments } in
    if any p s.deployments then insert_logs id entries t else t

-- The columns that `finalize` sets; `rollback_attempts` is left alone where it is absent.
pub record FinalFields : Type 0 where
  pub status : DeploymentStatus
  pub phase : String
  pub last_error : Option String
  pub rollback_attempts : Option ℕ

abbrev pub set_final : ℕ → FinalFields → Deployment → Deployment
set_final now fields d = record d {
  status = fields.status;
  phase = some fields.phase;
  last_error = fields.last_error;
  rollback_attempts = or_else fields.rollback_attempts d.rollback_attempts;
  finished_at = some now;
}

-- The row is final only if it still has the expected status.
unfoldable pub finalize :
    ℕ → ℕ → DeploymentStatus → FinalFields → List DeploymentLogEntry → Store → Store
finalize now id expected fields entries =
    update_and_log (row_in id expected) (set_final now fields) id entries
