-- ===== src/Builds/Maintain.antt =====
-- The sweep over the open build runs (`maintainBuildRuns` of apps/backend/src/shared/builds/runs.ts).
-- `run` is the copy that the sweep selected, which may be stale when a write comes.
use kubwave.Common.{
  ℕ, ◌+◌, ◌-◌, ◌*◌, Bool, false, not, ◌&&◌, ◌||◌, Option, none, some, List, [], ◌∷◌, ◌==◌, ltb,
  if◌then◌else◌, select_where, update_where,
}
use kubwave.Store.{
  Store, Deployment, is_canceling, is_pending, is_deploying, BuildRun, queued, failed, is_open,
  is_queued, run_status_code,
}
use kubwave.Deployments.Claim.{find_deployment}
use kubwave.Builds.Runs.{cancel_build_run}

abbrev pub is_past : ℕ → Option ℕ → Bool
is_past now none = false
is_past now (some t) = ltb t now

abbrev pub has_lasted : ℕ → Option ℕ → ℕ → Bool
has_lasted now none limit = false
has_lasted now (some t) limit = ltb limit (now - t)

abbrev pub lease_expired : ℕ → BuildRun → Bool
lease_expired now r = is_past now r.lease_expires_at

abbrev pub timed_out : ℕ → BuildRun → Bool
timed_out now r = has_lasted now r.started_at (r.settings.timeout_seconds * 1000)

abbrev pub will_retry : ℕ → BuildRun → Bool
will_retry now r = lease_expired now r && not (timed_out now r) && ltb r.attempt 2

abbrev pub set_queue_timeout : ℕ → BuildRun → BuildRun
set_queue_timeout now r = record r {
  status = failed;
  last_error = some "Build queue timeout: no capacity became available.";
  finished_at = some now;
}

-- Back to the queue for one more attempt, or failed; decided from the copy `run`.
abbrev pub set_ended : ℕ → BuildRun → BuildRun → BuildRun
set_ended now run r = record r {
  status = if will_retry now run then queued else failed;
  attempt = if will_retry now run then run.attempt + 1 else run.attempt;
  agent_id = none;
  lease_token_hash = none;
  lease_expires_at = none;
  payload_ciphertext = none;
  started_at = none;
  last_error =
      if will_retry now run
      then none
      else some (
          if timed_out now run
          then "Build exceeded its timeout."
          else "Build server lease expired.");
  finished_at = if will_retry now run then none else some now;
}

-- The row that the write expects: the same status and attempt, its lease still expired if it was.
abbrev pub is_unmoved : ℕ → BuildRun → BuildRun → Bool
is_unmoved now run r =
    r.id == run.id
    && run_status_code r.status == run_status_code run.status
    && r.attempt == run.attempt
    && (not (lease_expired now run) || is_past now r.lease_expires_at)

unfoldable pub end_run : ℕ → BuildRun → Store → Store
end_run now run s = if not (lease_expired now run) && not (timed_out now run) then s else record s {
  build_runs = update_where (is_unmoved now run) (set_ended now run) s.build_runs;
}

abbrev pub queue_timed_out : ℕ → BuildRun → Bool
queue_timed_out now r =
    is_queued r.status && ltb (r.settings.queue_timeout_seconds * 1000) (now - r.created_at)

unfoldable pub maintain_live : ℕ → BuildRun → Store → Store
unfolding end_run
maintain_live now run s =
    if queue_timed_out now run
    then record s {
      build_runs =
          update_where (λ r. r.id == run.id && is_queued r.status) (set_queue_timeout now)
            s.build_runs;
    }
    else end_run now run s

unfoldable pub maintain_of : ℕ → BuildRun → Option Deployment → Store → Store
unfolding end_run
maintain_of now run none s = (cancel_build_run now run.deployment_id s).0
maintain_of now run (some d) s =
    if is_canceling d.status
    then s
    else if is_pending d.status || is_deploying d.status
    then maintain_live now run s
    else (cancel_build_run now run.deployment_id s).0

-- One round of the loop.
unfoldable pub maintain_build_run : ℕ → BuildRun → Store → Store
unfolding maintain_of maintain_live
maintain_build_run now run s =
    maintain_of now run (find_deployment run.deployment_id s.deployments) s

unfoldable pub maintain_each : ℕ → List BuildRun → Store → Store
maintain_each now [] s = s
maintain_each now (run ∷ runs) s = maintain_each now runs (maintain_build_run now run s)

unfoldable pub maintain_build_runs : ℕ → Store → Store
unfolding maintain_each
maintain_build_runs now s = maintain_each now (select_where (λ r. is_open r.status) s.build_runs) s
