-- ===== src/Builds/Examples.antt =====
-- Two build servers, a run that waits for one and a run that the first one executes.
use kubwave.Common.{
  ℕ, ◌≤◌, ◌≡◌, ◌≢◌, refl, max, true, false, Option, none, some, String, [], ◌∷◌, arith, All,
  count_where, ◌<>◌, ◌==◌, map,
}
use kubwave.Store.{Store, BuildRun, BuildAgent, queued, running, RunStatus, deploying}
use kubwave.Store.Cascade.{without_runs}
use kubwave.Store.Samples.{sample_deployment, sample_run, sample_settings}
use kubwave.Builds.Runs.{reserve_build_run, occupancy, is_on_cluster, find_run}
use kubwave.Builds.Agents.{reply, api_error, register, authenticate, revoke_agent}
use kubwave.Builds.Tasks.{TaskRef, claim, is_running_at}
use kubwave.Builds.Maintain.{
  maintain_build_runs, maintain_each, maintain_build_run, maintain_of, maintain_live, end_run,
}
use kubwave.Builds.Results.{report_source, report_logs, report_result}
use kubwave.Builds.Rows.{RunsInv}
use kubwave.Builds.SweepRound.{IsSwept}
use kubwave.Builds.Sweep.{maintain_build_runs-IsSwept}
use kubwave.Builds.History.{RunWrite, RunReach, here, next, RunReach-RunsInv}
use kubwave.Builds.Ended.{IsRunKept, RunReach-IsRunKept}
use kubwave.Builds.Capacity.{reserve_build_run-Fits}
use kubwave.Builds.Limits.{reserve_build_run-cluster, claim-limit}
use kubwave.Builds.Leases.{reports-rejected, report_result-repeat}
use kubwave.Builds.Access.{register-once, revoke_agent-authenticate}

abbrev run_with : ℕ → RunStatus → Option ℕ → Option String → BuildRun
run_with id status agent_id token = record (sample_run id) {
  status = status;
  agent_id = agent_id;
  lease_token_hash = token;
  lease_expires_at = some 90000;
}

abbrev waiting_run : BuildRun
waiting_run = run_with 1 queued none none

abbrev leased_run : BuildRun
leased_run = run_with 2 running (some 1) (some "#token")

abbrev server : ℕ → BuildAgent
server id = record {
  id = id;
  name = "server";
  registration_hash = some "#invite";
  registration_expires_at = some 500;
  token_hash = some "#secret";
  paused = false;
  revoked = false;
  max_concurrent_builds = 2;
  last_seen_at = some 90;
  protocol_version = some 1;
  version = none;
  architecture = some "amd64";
  capabilities =
      some
        (record { cpus = 4; memory_bytes = 1; free_disk_bytes = 2000000000; docker_ready = true });
  created_at = id;
}

abbrev store : Store
store = record {
  deployments = sample_deployment 1 7 deploying ∷ sample_deployment 2 8 deploying ∷ [];
  deployment_logs = [];
  build_runs = waiting_run ∷ leased_run ∷ [];
  build_agents = server 1 ∷ server 2 ∷ [];
}

abbrev hash : String → String
hash s = "#" <> s

abbrev redact : Option String → String → String
redact payload message = message

abbrev task : TaskRef
task = record { id = 2; attempt = 1; lease_token = "token" }

abbrev stale_task : TaskRef
stale_task = record { id = 2; attempt = 1; lease_token = "old" }

runs-RunsInv : RunsInv store.build_runs
runs-RunsInv = record {
  unique = λ k. ground arith;
  one_run = λ k. ground arith;
  attempts = (omega arith, (omega arith, tt));
}

-- The waiting run is reserved, and the other one's result comes in.
abbrev reported : Store
reported =
    (report_result hash redact 200 1 task true none
      (reserve_build_run 100 sample_settings "amd64" 1 store).0).0

-- Then the deployment of the waiting run is deleted.
abbrev later : Store
later = without_runs (λ deployment. deployment == 1) reported

abbrev history : RunReach hash some redact store later
history =
    next
      (next (next here (RunWrite.reserve 100 sample_settings "amd64" 1))
        (RunWrite.result 200 1 task true none))
      (RunWrite.delete (λ deployment. deployment == 1))

RunReach-RunsInv_example : RunsInv later.build_runs
RunReach-RunsInv_example = RunReach-RunsInv hash some redact history runs-RunsInv

RunReach-IsRunKept_example :
    (y : BuildRun) × (find_run 2 later.build_runs ≡ some y) × IsRunKept leased_run y
unfolding find_run
RunReach-IsRunKept_example =
    RunReach-IsRunKept hash some redact 2 leased_run history runs-RunsInv refl refl

reserve_build_run-Fits_example :
    All
      (λ a.
        occupancy (reserve_build_run 100 sample_settings "amd64" 1 store).0.build_runs a.id
        ≤ max a.max_concurrent_builds (occupancy store.build_runs a.id))
      store.build_agents
reserve_build_run-Fits_example =
    reserve_build_run-Fits 100 sample_settings "amd64" 1 store runs-RunsInv.unique
      (λ k. ground arith)

reserve_build_run-cluster_example :
    count_where is_on_cluster (reserve_build_run 100 sample_settings "amd64" 1 store).0.build_runs
    ≤ max sample_settings.max_concurrent_builds (count_where is_on_cluster store.build_runs)
reserve_build_run-cluster_example =
    reserve_build_run-cluster 100 sample_settings "amd64" 1 store runs-RunsInv.unique

claim-limit_example :
    count_where
      (is_running_at hash 1)
      (claim hash some 100 "fresh" 1 (λ id. false) store).0.build_runs
    ≤ max 2 (count_where (is_running_at hash 1) store.build_runs)
claim-limit_example =
    claim-limit hash some 100 "fresh" store runs-RunsInv.unique 1 (λ id. false) (server 1) refl

reports-rejected_example :
    (report_source hash 100 1 stale_task "c0ffee" store
      ≡ (store, api_error 409 "build_attempt_expired"))
    × (report_logs hash redact 100 1 stale_task [] store
        ≡ (store, api_error 409 "build_attempt_expired"))
    × (report_result hash redact 100 1 stale_task true none store
        ≡ (store, api_error 409 "build_attempt_expired"))
reports-rejected_example =
    reports-rejected hash redact 100 1 stale_task store (refl, (refl, tt)) "c0ffee" [] true none

report_result-repeat_example :
    report_result hash redact 300 1 task true none
      (report_result hash redact 200 1 task true none store).0
    ≡ ((report_result hash redact 200 1 task true none store).0, reply true)
unfolding report_result
report_result-repeat_example =
    report_result-repeat hash redact 200 300 1 task true none none store refl

register-once_example :
    (register hash 200 "invite" "another" (register hash 100 "invite" "credential" store).0).1
    ≡ api_error 401 "invalid_build_agent_registration"
register-once_example =
    register-once hash 100 200 "invite" "credential" "another" store (omega arith)

revoke_agent-authenticate_example :
    authenticate hash (λ t. 6) "secret" (revoke_agent 100 1 store).0 ≢ reply 1
revoke_agent-authenticate_example =
    revoke_agent-authenticate hash (λ t. 6) 100 1 "secret" store refl

maintain_build_runs-IsSwept_example :
    All (IsSwept 100000 store.deployments) (maintain_build_runs 100000 store).build_runs
maintain_build_runs-IsSwept_example = maintain_build_runs-IsSwept 100000 store runs-RunsInv

-- Long after, both runs are back in the queue for their second attempt.
retried : map (λ r. r.attempt) (maintain_build_runs 100000 store).build_runs ≡ 2 ∷ 2 ∷ []
unfolding maintain_build_runs maintain_each maintain_build_run maintain_of maintain_live end_run
retried = refl
