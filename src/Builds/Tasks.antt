-- ===== src/Builds/Tasks.antt =====
-- The tasks that build servers lease: heartbeat and claim
-- (apps/backend/src/modules/build-agents/build-agents.service.ts). `hash` is the token hash of
-- node:crypto, `decrypt` the payload's decryption and parse (`none` where it throws).
use kubwave.Common.{
  ℕ, ◌+◌, ◌*◌, String, Bool, true, not, ◌&&◌, ◌||◌, Option, none, some, List, [], ◌∷◌, ◌==◌, leb,
  if◌then◌else◌, any, select_where, count_where, update_where, order_by, find_where, or_else,
}
use kubwave.Store.{
  Store, Deployment, is_pending, is_deploying, BuildRun, BuildAgent, Capabilities, running,
  is_ready, is_running,
}
use kubwave.Builds.Runs.{lease_ms, is_number, is_text, agent_available}
use kubwave.Builds.Agents.{Reply, reply, api_error, is_after, is_agent}

-- `deploymentActive`: the run's deployment exists and is pending or deploying.
abbrev pub is_live_of : BuildRun → Deployment → Bool
is_live_of r d = d.id == r.deployment_id && (is_pending d.status || is_deploying d.status)

abbrev pub deployment_active : List Deployment → BuildRun → Bool
deployment_active ds r = any (is_live_of r) ds

-- A task as an agent names it.
pub record TaskRef : Type 0 where
  pub id : ℕ
  pub attempt : ℕ
  pub lease_token : String

pub record HeartbeatInput : Type 0 where
  pub protocol_version : ℕ
  pub architecture : String
  pub version : String
  pub capabilities : Capabilities
  pub tasks : List TaskRef

pub record AgentTask : Type 0 where
  pub payload : String
  pub id : ℕ
  pub attempt : ℕ
  pub lease_token : String
  pub lease_expires_at : ℕ
  pub timeout_seconds : ℕ

-- `started_at + timeout`, null where the run has not started.
abbrev pub deadline_of : Option ℕ → ℕ → Option ℕ
deadline_of none timeout_seconds = none
deadline_of (some started) timeout_seconds = some (started + timeout_seconds * 1000)

abbrev pub is_within : ℕ → BuildRun → Bool
is_within now r = is_after now (deadline_of r.started_at r.settings.timeout_seconds)

module _ (hash : String → String) where
  abbrev pub task_ownership : ℕ → ℕ → TaskRef → BuildRun → Bool
  task_ownership now agent_id task r =
      r.id == task.id
      && is_number r.agent_id agent_id
      && r.attempt == task.attempt
      && is_text r.lease_token_hash (hash task.lease_token)
      && is_after now r.lease_expires_at

  -- The condition of `activeTask`, and of the writes of a task.
  abbrev pub is_active_task : ℕ → ℕ → TaskRef → List Deployment → BuildRun → Bool
  is_active_task now agent_id task ds r =
      task_ownership now agent_id task r && is_running r.status && deployment_active ds r

  abbrev pub is_renewable : ℕ → ℕ → TaskRef → List Deployment → BuildRun → Bool
  is_renewable now agent_id task ds r = is_active_task now agent_id task ds r && is_within now r

  abbrev pub set_lease_end : ℕ → BuildRun → BuildRun
  set_lease_end t r = record r { lease_expires_at = some t }

  abbrev pub set_seen : ℕ → HeartbeatInput → BuildAgent → BuildAgent
  set_seen now input a = record a {
    last_seen_at = some now;
    protocol_version = some input.protocol_version;
    architecture = some input.architecture;
    version = some input.version;
    capabilities = some input.capabilities;
  }

  -- One task: its lease is renewed while it is the agent's and within its time.
  unfoldable pub renew_task : ℕ → ℕ → TaskRef → Store → Store
  renew_task now agent_id task s = record s {
    build_runs =
        update_where (is_renewable now agent_id task s.deployments) (set_lease_end (now + lease_ms))
          s.build_runs;
  }

  -- The loop over the tasks; the ids of those that could not be renewed are returned.
  unfoldable pub renew_tasks : ℕ → ℕ → List TaskRef → Store → Store × List ℕ
  unfolding renew_task
  renew_tasks now agent_id [] s = (s, [])
  renew_tasks now agent_id (task ∷ tasks) s =
      let (t, canceled) = renew_tasks now agent_id tasks (renew_task now agent_id task s) in
      (
        t,
        if any (is_renewable now agent_id task s.deployments) s.build_runs
            then canceled
            else task.id ∷ canceled,
      )

  unfoldable pub heartbeat : ℕ → ℕ → HeartbeatInput → Store → Store × (ℕ × List ℕ)
  unfolding renew_tasks
  heartbeat now id input s =
      let (t, canceled) = renew_tasks now id input.tasks (record s {
        build_agents = update_where (is_agent id) (set_seen now input) s.build_agents;
      }) in
      (t, (now + lease_ms, canceled))

  abbrev pub is_claimable_task : ℕ → ℕ → List Deployment → BuildRun → Bool
  is_claimable_task now id ds r =
      is_number r.agent_id id
      && is_ready r.status
      && is_after now r.lease_expires_at
      && deployment_active ds r

  abbrev pub is_running_at : ℕ → BuildRun → Bool
  is_running_at id r = is_number r.agent_id id && is_running r.status

  abbrev pub set_leased : ℕ → String → BuildRun → BuildRun
  set_leased now token r = record r {
    status = running;
    started_at = some now;
    lease_token_hash = some (hash token);
    lease_expires_at = some (now + lease_ms);
  }

  -- The oldest task that is ready for the agent, of those that no transaction holds.
  unfoldable pub next_task : ℕ → ℕ → (ℕ → Bool) → Store → Option BuildRun
  next_task now id is_locked s =
      find_where (λ r. true)
        (order_by (λ r. r.created_at)
          (select_where (λ r. is_claimable_task now id s.deployments r && not (is_locked r.id))
            s.build_runs))

  module _ (decrypt : String → Option String) where
    abbrev pub lease_payload :
        ℕ → String → BuildRun → Option String → Store → Store × Reply (Option AgentTask)
    lease_payload now token r none s = (s, api_error 500 "decrypt")
    lease_payload now token r (some payload) s = (
      record s {
        build_runs = update_where (λ x. x.id == r.id) (set_leased now token) s.build_runs;
      },
      reply (
          some (record {
            payload = payload;
            id = r.id;
            attempt = r.attempt;
            lease_token = token;
            lease_expires_at = now + lease_ms;
            timeout_seconds = r.settings.timeout_seconds;
          })),
    )

    abbrev pub lease_ciphertext :
        ℕ
        → String
        → BuildAgent
        → BuildRun
        → Option String
        → Store
        → Store × Reply (Option AgentTask)
    lease_ciphertext now token a r none s = (s, reply none)
    lease_ciphertext now token a r (some ciphertext) s =
        if leb a.max_concurrent_builds (count_where (is_running_at a.id) s.build_runs)
        then (s, reply none)
        else lease_payload now token r (decrypt ciphertext) s

    abbrev pub lease_next :
        ℕ → String → BuildAgent → Option BuildRun → Store → Store × Reply (Option AgentTask)
    lease_next now token a none s = (s, reply none)
    lease_next now token a (some r) s = lease_ciphertext now token a r r.payload_ciphertext s

    abbrev pub claim_at :
        ℕ → String → (ℕ → Bool) → Option BuildAgent → Store → Store × Reply (Option AgentTask)
    claim_at now token is_locked none s = (s, reply none)
    claim_at now token is_locked (some a) s =
        if agent_available now a (or_else a.architecture "")
        then lease_next now token a (next_task now a.id is_locked s) s
        else (s, reply none)

    -- `token` is the fresh lease token.
    unfoldable pub claim : ℕ → String → ℕ → (ℕ → Bool) → Store → Store × Reply (Option AgentTask)
    unfolding next_task
    claim now token id is_locked s =
        claim_at now token is_locked (find_where (λ a. a.id == id) s.build_agents) s
