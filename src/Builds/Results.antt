-- ===== src/Builds/Results.antt =====
-- What a build server reports of its task: logs, the source commit and the result
-- (apps/backend/src/modules/build-agents/build-agents.service.ts). `hash` is the token hash of
-- node:crypto; `redact` takes a run's encrypted payload and a message to `redactBuildLog` of them.
use kubwave.Common.{
  ℕ, String, Bool, true, false, ◌&&◌, Option, none, some, List, [], ◌∷◌, ◌++◌, ◌==◌, if◌then◌else◌,
  any, update_where, find_where, or_else, ◌<>◌, decimal,
}
use kubwave.Store.{
  Store, DeploymentLog, info, build_output, BuildRun, succeeded, failed, RunStatus, run_status_code,
}
use kubwave.Builds.Runs.{is_number, is_text}
use kubwave.Builds.Agents.{Reply, reply, api_error}
use kubwave.Builds.Tasks.{TaskRef, is_active_task}

pub record LogLine : Type 0 where
  pub sequence : ℕ
  pub container : String
  pub message : String
  pub ts : ℕ

module _ (hash : String → String) where
  unfoldable pub active_task : ℕ → ℕ → TaskRef → Store → Option BuildRun
  active_task now agent_id task s =
      find_where (is_active_task hash now agent_id task s.deployments) s.build_runs

  abbrev pub is_null_or : Option String → String → Bool
  is_null_or none text = true
  is_null_or (some t) text = is_text (some t) text

  abbrev pub set_source : String → BuildRun → BuildRun
  set_source commit r = record r { source_commit = some commit }

  -- The commit is fixed by the first report.
  abbrev pub is_source_of : ℕ → ℕ → TaskRef → String → Store → BuildRun → Bool
  is_source_of now agent_id task commit s r =
      is_active_task hash now agent_id task s.deployments r && is_null_or r.source_commit commit

  unfoldable pub report_source : ℕ → ℕ → TaskRef → String → Store → Store × Reply Bool
  report_source now agent_id task commit s =
      let p = is_source_of now agent_id task commit s in
      (
        record s { build_runs = update_where p (set_source commit) s.build_runs },
        if any p s.build_runs then reply true else api_error 409 "build_attempt_expired",
      )

  module _ (redact : Option String → String → String) where
    abbrev pub output_row : BuildRun → LogLine → DeploymentLog
    output_row r line = record {
      deployment_id = r.deployment_id;
      kind = build_output;
      ts = line.ts;
      level = info;
      step = "build-output";
      message = redact r.payload_ciphertext line.message;
      container_name = some ("agent-" <> decimal r.attempt <> "-" <> line.container);
      source_ts = some 0;
      line_hash = some (decimal line.sequence);
    }

    abbrev pub same_text : Option String → Option String → Bool
    same_text none u = false
    same_text (some t) none = false
    same_text (some t) (some u) = is_text (some t) u

    abbrev pub same_number : Option ℕ → Option ℕ → Bool
    same_number none u = false
    same_number (some t) u = is_number u t

    -- The unique index over deployment, container, source time and line hash.
    abbrev pub is_same_line : DeploymentLog → DeploymentLog → Bool
    is_same_line a b =
        a.deployment_id == b.deployment_id
        && same_text a.container_name b.container_name
        && same_number a.source_ts b.source_ts
        && same_text a.line_hash b.line_hash

    -- `onConflictDoNothing`: a line that is there is not inserted again.
    unfoldable pub insert_lines : BuildRun → List LogLine → List DeploymentLog → List DeploymentLog
    insert_lines r [] logs = logs
    insert_lines r (line ∷ lines) logs = insert_lines r lines (
        if any (is_same_line (output_row r line)) logs
        then logs
        else logs ++ output_row r line ∷ [])

    abbrev pub write_logs : List LogLine → Option BuildRun → Store → Store × Reply Bool
    write_logs lines none s = (s, api_error 409 "build_attempt_expired")
    write_logs lines (some r) s =
        (record s { deployment_logs = insert_lines r lines s.deployment_logs }, reply true)

    unfoldable pub report_logs : ℕ → ℕ → TaskRef → List LogLine → Store → Store × Reply Bool
    unfolding active_task insert_lines
    report_logs now agent_id task lines s = write_logs lines (active_task now agent_id task s) s

    abbrev pub result_status : Bool → RunStatus
    result_status success = if success then succeeded else failed

    -- The row that a repeated report finds: ended by this attempt's token, with the same result.
    abbrev pub is_completed : ℕ → TaskRef → Bool → BuildRun → Bool
    is_completed agent_id task success r =
        r.id == task.id
        && is_number r.agent_id agent_id
        && r.attempt == task.attempt
        && is_text r.lease_token_hash (hash task.lease_token)
        && run_status_code r.status == run_status_code (result_status success)

    abbrev pub set_result : ℕ → Bool → Option String → BuildRun → BuildRun
    set_result now success last_error r = record r {
      status = result_status success;
      last_error = last_error;
      finished_at = some now;
      payload_ciphertext = none;
    }

    abbrev pub result_error : Bool → Option String → BuildRun → Option String
    result_error success message r =
        if success
        then none
        else some (redact r.payload_ciphertext (or_else message "External build failed."))

    abbrev pub write_result :
        ℕ → ℕ → TaskRef → Bool → Option String → Option BuildRun → Store → Store × Reply Bool
    write_result now agent_id task success message none s =
        (s, api_error 409 "build_attempt_expired")
    write_result now agent_id task success message (some run) s =
        let p = is_active_task hash now agent_id task s.deployments in
        (
          record s {
            build_runs =
                update_where p (set_result now success (result_error success message run))
                  s.build_runs;
          },
          if any p s.build_runs then reply true else api_error 409 "build_attempt_expired",
        )

    unfoldable pub report_result :
        ℕ → ℕ → TaskRef → Bool → Option String → Store → Store × Reply Bool
    unfolding active_task
    report_result now agent_id task success message s =
        if any (is_completed agent_id task success) s.build_runs
        then (s, reply true)
        else write_result now agent_id task success message (active_task now agent_id task s) s
