-- ===== src/Builds/Runs.antt =====
-- The build queue (apps/backend/src/shared/builds/runs.ts and execution.ts). A transaction under the
-- advisory lock is one step. `live` is the current build settings row.
use text.Mathlib.Text.{◌==◌ as str_eq}
use kubwave.Common.{
  ℕ, ◌+◌, ◌-◌, ◌*◌, String, Bool, false, not, ◌&&◌, ◌||◌, Option, none, some, List, [], ◌∷◌, ◌++◌,
  ◌==◌, ltb, leb, if◌then◌else◌, any, select_where, count_where, update_where, sort_with,
  find_where,
}
use kubwave.Store.{
  Store, BuildRun, BuildAgent, BuildSettings, Execution, cluster, agent, queued, preparing, ready,
  running, succeeded, failed, canceled, is_active, is_open, is_queued, is_preparing, on_cluster,
  Capabilities,
}

abbrev pub build_protocol_version : ℕ
build_protocol_version = 1

-- AGENT_LEASE_SECONDS * 1000
abbrev pub lease_ms : ℕ
lease_ms = 90000

-- `1024 ** 3`
abbrev pub min_free_disk : ℕ
min_free_disk = 1073741824

abbrev pub is_number : Option ℕ → ℕ → Bool
is_number none k = false
is_number (some n) k = n == k

abbrev pub is_text : Option String → String → Bool
is_text none t = false
is_text (some s) t = str_eq s t

abbrev pub seen_recently : ℕ → Option ℕ → Bool
seen_recently now none = false
seen_recently now (some t) = ltb (now - t) lease_ms

abbrev pub is_capable : Option Capabilities → Bool
is_capable none = false
is_capable (some c) = c.docker_ready && ltb min_free_disk c.free_disk_bytes

unfoldable pub agent_available : ℕ → BuildAgent → String → Bool
agent_available now a architecture =
    not a.paused
    && not a.revoked
    && is_number a.protocol_version build_protocol_version
    && is_text a.architecture architecture
    && seen_recently now a.last_seen_at
    && is_capable a.capabilities

unfoldable pub get_build_run : ℕ → Store → Option BuildRun
get_build_run deployment_id s = find_where (λ r. r.deployment_id == deployment_id) s.build_runs

-- The insert does nothing where the deployment has a run; `id` and `now` fill in a new row.
unfoldable pub ensure_build_run : ℕ → ℕ → ℕ → BuildSettings → Store → Store
ensure_build_run now id deployment_id settings s =
    if any (λ r. r.deployment_id == deployment_id) s.build_runs then s else record s {
      build_runs =
          s.build_runs
          ++ record {
            id = id;
            deployment_id = deployment_id;
            settings = settings;
            execution = settings.execution;
            status = queued;
            agent_id = none;
            attempt = 1;
            lease_token_hash = none;
            lease_expires_at = none;
            payload_ciphertext = none;
            source_commit = none;
            image_ref = none;
            last_error = none;
            started_at = none;
            finished_at = none;
            created_at = now;
          }
            ∷ [];
    }

abbrev pub is_of_agent : ℕ → BuildRun → Bool
is_of_agent id r = is_active r.status && is_number r.agent_id id

-- How many active builds an agent has.
abbrev pub occupancy : List BuildRun → ℕ → ℕ
occupancy runs id = count_where (is_of_agent id) runs

-- The quotients are compared by cross products, which agree where the limits are positive.
abbrev pub is_less_busy : List BuildRun → BuildAgent → BuildAgent → Bool
is_less_busy runs a b =
    leb (occupancy runs a.id * b.max_concurrent_builds)
      (occupancy runs b.id * a.max_concurrent_builds)

abbrev pub has_room : List BuildRun → BuildAgent → Bool
has_room runs a = ltb (occupancy runs a.id) a.max_concurrent_builds

-- The least busy available agent with room.
unfoldable pub pick_agent : ℕ → String → Store → Option BuildAgent
pick_agent now architecture s = find_where (has_room s.build_runs) (
    sort_with (is_less_busy s.build_runs)
      (select_where (λ a. agent_available now a architecture) s.build_agents))

-- Where a queued run may start: on the cluster, or at an agent.
pub data Placement : Type 0 where
  nowhere : Placement
  at_cluster : Placement
  at_agent : ℕ → Placement

-- No agent is free: a first attempt may fall back to the cluster after the wait.
abbrev pub may_fall_back : ℕ → BuildRun → Bool
may_fall_back now r =
    not (ltb 1 r.attempt || not r.settings.fallback_to_cluster || ltb (now - r.created_at) lease_ms)

abbrev pub place_agent : ℕ → BuildRun → Option BuildAgent → Placement
place_agent now r none = if may_fall_back now r then at_cluster else nowhere
place_agent now r (some a) = at_agent a.id

abbrev pub place : ℕ → String → Execution → BuildRun → Store → Placement
place now architecture cluster r s = at_cluster
place now architecture agent r s = place_agent now r (pick_agent now architecture s)

abbrev pub is_on_cluster : BuildRun → Bool
is_on_cluster r = is_active r.status && on_cluster r.execution

abbrev pub set_reserved : ℕ → Execution → Option ℕ → BuildRun → BuildRun
set_reserved now execution agent_id r = record r {
  status = preparing;
  execution = execution;
  agent_id = agent_id;
  lease_expires_at = some (now + lease_ms);
}

abbrev pub reserve_as : ℕ → Execution → Option ℕ → BuildRun → Store → Store × Option BuildRun
reserve_as now execution agent_id r s = (
  record s {
    build_runs =
        update_where (λ x. x.id == r.id) (set_reserved now execution agent_id) s.build_runs;
  },
  some (set_reserved now execution agent_id r),
)

abbrev pub reserve_at : ℕ → BuildSettings → Placement → BuildRun → Store → Store × Option BuildRun
reserve_at now live nowhere r s = (s, none)
reserve_at now live at_cluster r s =
    if leb live.max_concurrent_builds (count_where is_on_cluster s.build_runs)
    then (s, none)
    else reserve_as now cluster none r s
reserve_at now live (at_agent id) r s = reserve_as now agent (some id) r s

unfoldable pub find_run : ℕ → List BuildRun → Option BuildRun
find_run id runs = find_where (λ r. r.id == id) runs

abbrev pub reserve_found :
    ℕ → BuildSettings → String → Option BuildRun → Store → Store × Option BuildRun
reserve_found now live architecture none s = (s, none)
reserve_found now live architecture (some r) s =
    if is_queued r.status
    then reserve_at now live (place now architecture r.execution r s) r s
    else (s, none)

unfoldable pub reserve_build_run : ℕ → BuildSettings → String → ℕ → Store → Store × Option BuildRun
unfolding find_run
reserve_build_run now live architecture id s =
    reserve_found now live architecture (find_run id s.build_runs) s

abbrev pub set_started : ℕ → String → BuildRun → BuildRun
set_started now image_ref r = record r {
  status = running;
  image_ref = some image_ref;
  started_at = some now;
  lease_expires_at = none;
}

unfoldable pub mark_cluster_build_started : ℕ → ℕ → String → Store → Store
mark_cluster_build_started now id image_ref s = record s {
  build_runs =
      update_where (λ r. r.id == id && is_preparing r.status) (set_started now image_ref)
        s.build_runs;
}

abbrev pub set_finished : ℕ → Bool → Option String → BuildRun → BuildRun
set_finished now success last_error r = record r {
  status = if success then succeeded else failed;
  last_error = last_error;
  finished_at = some now;
  payload_ciphertext = none;
  lease_token_hash = none;
}

unfoldable pub finish_build_run : ℕ → ℕ → Bool → Option String → Store → Store
finish_build_run now id success last_error s = record s {
  build_runs =
      update_where (λ r. r.id == id && is_active r.status) (set_finished now success last_error)
        s.build_runs;
}

-- The write that ends `publishAgentBuild`; the payload is made and encrypted before.
abbrev pub set_published : String → String → BuildRun → BuildRun
set_published payload image_ref r = record r {
  status = ready;
  payload_ciphertext = some payload;
  image_ref = some image_ref;
}

unfoldable pub publish_agent_build : BuildRun → String → String → Store → Store
publish_agent_build run payload image_ref s = record s {
  build_runs =
      update_where (λ r. r.id == run.id && is_preparing r.status && r.attempt == run.attempt)
        (set_published payload image_ref) s.build_runs;
}

abbrev pub set_run_canceled : ℕ → BuildRun → BuildRun
set_run_canceled now r = record r {
  status = canceled;
  finished_at = some now;
  payload_ciphertext = none;
  lease_token_hash = none;
}

abbrev pub open_run_of : ℕ → BuildRun → Bool
open_run_of deployment_id r = r.deployment_id == deployment_id && is_open r.status

unfoldable pub cancel_build_run : ℕ → ℕ → Store → Store × Bool
cancel_build_run now deployment_id s = (
  record s {
    build_runs = update_where (open_run_of deployment_id) (set_run_canceled now) s.build_runs;
  },
  any (open_run_of deployment_id) s.build_runs,
)
