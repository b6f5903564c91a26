-- ===== src/Store/BuildTables.antt =====
-- The `build_runs` and `build_agents` tables (packages/db/src/schema.ts) and the settings that a
-- run carries (shared/builds/settings.ts).
use kubwave.Common.{ℕ, String, Bool, true, false, Option}

pub data Execution : Type 0 where
  cluster agent : Execution

pub data RunStatus : Type 0 where
  queued preparing ready running succeeded failed canceled : RunStatus

pub record BuildSettings : Type 0 where
  pub execution : Execution
  pub cpu_request : String
  pub cpu_limit : String
  pub memory_request : String
  pub memory_limit : String
  pub max_concurrent_builds : ℕ
  pub timeout_seconds : ℕ
  pub queue_timeout_seconds : ℕ
  pub fallback_to_cluster : Bool

pub record BuildRun : Type 0 where
  pub id : ℕ
  pub deployment_id : ℕ
  pub settings : BuildSettings
  pub execution : Execution
  pub status : RunStatus
  pub agent_id : Option ℕ
  pub attempt : ℕ
  pub lease_token_hash : Option String
  pub lease_expires_at : Option ℕ
  pub payload_ciphertext : Option String
  pub source_commit : Option String
  pub image_ref : Option String
  pub last_error : Option String
  pub started_at : Option ℕ
  pub finished_at : Option ℕ
  pub created_at : ℕ

pub record Capabilities : Type 0 where
  pub cpus : ℕ
  pub memory_bytes : ℕ
  pub free_disk_bytes : ℕ
  pub docker_ready : Bool

pub record BuildAgent : Type 0 where
  pub id : ℕ
  pub name : String
  pub registration_hash : Option String
  pub registration_expires_at : Option ℕ
  pub token_hash : Option String
  pub paused : Bool
  pub revoked : Bool
  pub max_concurrent_builds : ℕ
  pub last_seen_at : Option ℕ
  pub protocol_version : Option ℕ
  pub version : Option String
  pub architecture : Option String
  pub capabilities : Option Capabilities
  pub created_at : ℕ

-- ACTIVE_BUILD_STATES
abbrev pub is_active : RunStatus → Bool
is_active preparing = true
is_active ready = true
is_active running = true
is_active _ = false

-- ['queued', ...ACTIVE_BUILD_STATES]
abbrev pub is_open : RunStatus → Bool
is_open queued = true
is_open preparing = true
is_open ready = true
is_open running = true
is_open _ = false

abbrev pub is_queued : RunStatus → Bool
is_queued queued = true
is_queued _ = false

abbrev pub is_preparing : RunStatus → Bool
is_preparing preparing = true
is_preparing _ = false

abbrev pub is_ready : RunStatus → Bool
is_ready ready = true
is_ready _ = false

abbrev pub is_running : RunStatus → Bool
is_running running = true
is_running _ = false

abbrev pub run_status_code : RunStatus → ℕ
run_status_code queued = 0
run_status_code preparing = 1
run_status_code ready = 2
run_status_code running = 3
run_status_code succeeded = 4
run_status_code failed = 5
run_status_code canceled = 6

abbrev pub on_cluster : Execution → Bool
on_cluster cluster = true
on_cluster agent = false
