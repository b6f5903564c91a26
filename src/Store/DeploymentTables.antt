-- ===== src/Store/DeploymentTables.antt =====
-- The `deployments` and `deployment_logs` tables (packages/db/src/schema.ts), and the sets of
-- statuses by which the worker selects (jobs/deployments/types.ts).
use kubwave.Common.{ℕ, String, Bool, true, false, Option, ◌==◌, one_of_two}
use kubwave.Store.Config.{ServiceType, ServiceConfig}

pub data DeploymentStatus : Type 0 where
  pending deploying canceling succeeded failed superseded canceled : DeploymentStatus

pub data DeploymentTrigger : Type 0 where
  manual auto preview : DeploymentTrigger

pub record Deployment : Type 0 where
  pub id : ℕ
  pub service_id : ℕ
  pub type : ServiceType
  pub config : ServiceConfig
  pub image_ref : Option String
  pub status : DeploymentStatus
  pub phase : Option String
  pub last_error : Option String
  pub locked_by : Option String
  pub locked_at : Option ℕ
  pub attempts : ℕ
  pub rollback_attempts : ℕ
  pub trigger : DeploymentTrigger
  pub triggered_by_user_id : Option ℕ
  pub started_at : Option ℕ
  pub finished_at : Option ℕ
  pub created_at : ℕ

pub data LogLevel : Type 0 where
  info warn error : LogLevel

pub data LogKind : Type 0 where
  event build_output : LogKind

pub record DeploymentLogEntry : Type 0 where
  pub ts : ℕ
  pub level : LogLevel
  pub step : String
  pub message : String

pub record DeploymentLog : Type 0 where
  pub deployment_id : ℕ
  pub kind : LogKind
  pub ts : ℕ
  pub level : LogLevel
  pub step : String
  pub message : String
  pub container_name : Option String
  pub source_ts : Option ℕ
  pub line_hash : Option String

abbrev pub is_pending : DeploymentStatus → Bool
is_pending pending = true
is_pending _ = false

abbrev pub is_deploying : DeploymentStatus → Bool
is_deploying deploying = true
is_deploying _ = false

abbrev pub is_canceling : DeploymentStatus → Bool
is_canceling canceling = true
is_canceling _ = false

abbrev pub is_succeeded : DeploymentStatus → Bool
is_succeeded succeeded = true
is_succeeded _ = false

-- RECONCILE_IN_FLIGHT_STATUSES
abbrev pub is_in_flight : DeploymentStatus → Bool
is_in_flight deploying = true
is_in_flight canceling = true
is_in_flight _ = false

-- BUILD_ACTIVE_STATUSES
abbrev pub is_build_active : DeploymentStatus → Bool
is_build_active pending = true
is_build_active deploying = true
is_build_active canceling = true
is_build_active _ = false

abbrev pub status_code : DeploymentStatus → ℕ
status_code pending = 0
status_code deploying = 1
status_code canceling = 2
status_code succeeded = 3
status_code failed = 4
status_code superseded = 5
status_code canceled = 6

abbrev pub same_status : DeploymentStatus → DeploymentStatus → Bool
same_status a b = status_code a == status_code b

-- `['building', 'build-queued'].includes(phase ?? '')`
abbrev pub is_build_phase : Option String → Bool
is_build_phase phase = one_of_two phase "building" "build-queued"
