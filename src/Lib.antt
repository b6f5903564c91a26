-- ===== src/Lib.antt =====
-- Verification of kubwave's control plane: the deployment worker, the build queue with its build
-- servers, platform updates, git polling, tag watching, preview environments, registry pruning,
-- public ports, generated domains, references between services, the health of workloads, and users
-- with their teams and invitations.
--
-- The program keeps its state in PostgreSQL tables. Users and pollers queue and cancel deployments,
-- worker replicas claim and reconcile them against a Kubernetes cluster, and build servers lease
-- build tasks over HTTP. Each statement or transaction of the database is one step here, a function
-- from the store to the store; everything else that the code does in between, with copies of rows
-- that may be stale by then, is an argument of the steps.
--
-- Parts and files:
--   Accounts    apps/backend/src/modules/teams/teams.service.ts (Teams, Members),
--               modules/invitations/invitations.service.ts (Invitations) and
--               modules/platform/users/platform-users.service.ts (Users), on the tables of
--               Accounts/Tables. Proofs: Owners, TeamInv, TeamHistory, UserInv, UserHistory,
--               OwnersHistory, Access and InviteOnce.
--   Common      Boolean tests, lists, tables as lists of rows (select, count, update, order), rows
--               with a primary key, rows removed or found (Removal), the claim of due rows with its
--               lease (Claims), texts, and texts as UTF-16 units (Units).
--   Store       packages/db/src/schema.ts: the deployments, deployment_logs, build_runs and
--               build_agents tables, services, environments and service configurations, and what the
--               deletion of services takes along (Cascade); Store/Samples has rows for the tests.
--   Deployments apps/backend/src/modules/worker/jobs/deployments and the deployments module:
--               Logs (logs.ts), Enqueue (deployments.service.ts, git-poll/enqueue.ts,
--               registry-tag-watch/enqueue.ts), Request (cancelDeployment), Claim (claim.ts,
--               concurrency.ts, builds/promotion.ts), Outcomes (workflow/outcomes.ts, errors.ts),
--               Cancel (cancel.ts), Reconcile (reconcile.ts, workflow/reconcile-one.ts). Proofs:
--               Rows, Writes, Admission, ClaimLaws (each write is sound), Cancellation,
--               Batches, History, Terminal, FailedRollback, StalledRollback, Attempts, Pauses,
--               Progress, Fairness and Slots.
--   Builds      apps/backend/src/shared/builds/runs.ts and execution.ts (Runs, Maintain) and
--               apps/backend/src/modules/build-agents/build-agents.service.ts (Agents, Tasks,
--               Results). Proofs: Rows, Writes, TaskWrites, History, Ended, Capacity, Limits,
--               Leases, Access, SweepRound, Sweep.
--   Updates     apps/backend/src/modules/worker/jobs/updates: Pods (logs.ts), Runs (outcome.ts,
--               create.ts, reconcile.ts), Laws.
--   Registry    apps/backend/src/modules/worker/jobs/registry/prune.ts: Prune (one repository), Images
--               (the pass over all), and proofs in Kept, Groups, Joined and Live.
--   Domains     packages/db/src/default-domain.ts: Labels and Hosts, and proofs in Valid and Bounds.
--   GitPoll     apps/backend/src/modules/worker/jobs/git-poll: WatchPaths (watch-paths.ts), Poll
--               (poll.ts), Schedule (schedule.ts), Claim (claim.ts), LsRemote (ls-remote.ts), and
--               proofs in Once, Claim, RefLines and RefsRead.
--   TagWatch    apps/backend/src/modules/worker/jobs/registry-tag-watch: Watch (claim.ts, watch.ts),
--               Client and Fetch (registry.ts), and proofs in Credentials.
--   Previews    apps/backend/src/modules/worker/jobs/pr-preview: Plan (clone-plan.ts), Clone (clone.ts,
--               teardown.ts), Discovery (job.ts, diff.ts, cap.ts, claim.ts), and proofs in Bounds,
--               Replicas, Kept and Collision.
--   Ports       apps/backend/src/modules/services/port-exposures.ts: Pool, and proofs in Laws and
--               Wanted.
--   References  apps/backend/src/shared/service-references.ts (Tokens, Configs),
--               apps/backend/src/modules/worker/jobs/deployments/references.ts (Addresses, Deployed),
--               and of modules/services the rename of services.service.ts (Configs) and the check of
--               services.config.ts (Deployed). Proofs: Written, Parsed, Rename, Verbatim, Configs,
--               Checked and Agreement; Decoded has a codec for the examples.
--   Workloads   packages/kube/src/workloads/index.ts: the rollout gate and the displayed status.
--
-- How the model stands to the code. An id is a number that stands for the uuid; a time is a number
-- of milliseconds, and a difference of times stops at 0, which the comparisons of the code do not
-- tell from a negative one. The clock, fresh ids and tokens are arguments. `for update skip locked`
-- is a set of locked ids. The cluster, the deployers, git, the token hash and decryption are
-- parameters. A pass that may throw is a small monad in which what was written stays written. No
-- function runs on fuel but the decimal print of a number, which gets one more than the number.
--
-- A request of the account services runs alone: its check and its write are functions of their own,
-- and Accounts/Access says what two requests do that interleave. A sweep of preview environments is
-- one function as well, and its loop is a step relation for sweeps that interleave. The histories
-- of deployments and of build runs have a step for the deletion of services, of deployments and of
-- users. A random delay is a function of the seconds with the bound of its jitter ratio; what lower
-- case is, PostgreSQL or the engine says. A clone of a preview may fail as a whole, for any pull
-- request.
--
-- Not modelled: projects, environments and templates as services of their own, HTTP, validation,
-- Kubernetes manifests, the making of build payloads, the rewriting of hosts and ids in a preview's
-- texts, the clients of forges, and queries that only list.
pub mod Common
pub mod Store
pub mod Builds
pub mod Deployments
pub mod Updates
pub mod Accounts
pub mod Domains
pub mod TagWatch
pub mod Previews
pub mod Workloads
pub mod References
pub mod Registry
pub mod Ports
pub mod GitPoll
