-- ===== src/Workloads.antt =====
-- Rollout and health of a workload, read from its Kubernetes Deployment
-- (packages/kube/src/workloads/index.ts).
pub mod Examples
use text.Mathlib.Text.{◌==◌ as str_eq}
use kubwave.Common.{
  ℕ, ◌-◌, ◌*◌, ◌≤◌, ◌≡◌, ◌↔◌, String, Bool, true, false, not, ◌&&◌, Option, none, some, List, ltb,
  leb, ◌==◌, if◌then◌else◌, find_where, or_else, arith,
}

-- The counts that a Deployment may lack are 0 where they are absent, `replicas` of the spec 1. The
-- transition time of a condition is in milliseconds, and absent where it cannot be read.
pub record DeployCondition : Type 0 where
  pub type : String
  pub status : String
  pub reason : String
  pub last_transition_time : Option ℕ

pub record KubeDeployment : Type 0 where
  pub spec_replicas : Option ℕ
  pub generation : ℕ
  pub observed_generation : ℕ
  pub updated_replicas : ℕ
  pub ready_replicas : ℕ
  pub available_replicas : ℕ
  pub replicas : ℕ
  pub conditions : List DeployCondition

pub data RolloutState : Type 0 where
  complete ongoing broken_down : RolloutState

pub data RuntimeStatus : Type 0 where
  running degraded progressing stopped failed not_deployed unknown : RuntimeStatus

pub record ServiceRuntime : Type 0 where
  pub status : RuntimeStatus
  pub ready_replicas : ℕ
  pub desired_replicas : ℕ
  pub updated_replicas : ℕ
  pub available_replicas : ℕ

abbrev pub rollout_failure_grace_seconds : ℕ
rollout_failure_grace_seconds = 60

unfoldable pub unknown_runtime : ServiceRuntime
unknown_runtime = record {
  status = unknown;
  ready_replicas = 0;
  desired_replicas = 0;
  updated_replicas = 0;
  available_replicas = 0;
}

abbrev pub is_unknown : RuntimeStatus → Bool
is_unknown unknown = true
is_unknown _ = false

unfoldable pub with_active_deployment : ServiceRuntime → Bool → ServiceRuntime
with_active_deployment runtime is_active =
    if not is_active
    then runtime
    else if is_unknown runtime.status
    then runtime
    else record runtime { status = progressing }

abbrev pub is_deadline_exceeded : DeployCondition → Bool
is_deadline_exceeded c =
    str_eq c.type "Progressing"
    && str_eq c.status "False"
    && str_eq c.reason "ProgressDeadlineExceeded"

abbrev pub is_past_grace : ℕ → Option ℕ → Bool
is_past_grace now none = false
is_past_grace now (some t) = leb (rollout_failure_grace_seconds * 1000) (now - t)

abbrev pub has_passed_grace : ℕ → Option DeployCondition → Bool
has_passed_grace now none = false
has_passed_grace now (some c) = is_past_grace now c.last_transition_time

unfoldable pub progress_deadline_failure_is_final : KubeDeployment → ℕ → Bool
progress_deadline_failure_is_final dep now =
    has_passed_grace now (find_where is_deadline_exceeded dep.conditions)

abbrev pub desired_of : KubeDeployment → ℕ
desired_of dep = or_else dep.spec_replicas 1

unfoldable pub deployment_rollout_state : KubeDeployment → ℕ → RolloutState
unfolding progress_deadline_failure_is_final
deployment_rollout_state dep now =
    let desired = desired_of dep in
    if ltb dep.observed_generation dep.generation
    then ongoing
    else if leb desired dep.updated_replicas
        && leb desired dep.ready_replicas
        && leb desired dep.available_replicas
        && leb dep.replicas desired
    then complete
    else if progress_deadline_failure_is_final dep now
    then broken_down
    else ongoing

abbrev pub with_counts : KubeDeployment → RuntimeStatus → ServiceRuntime
with_counts dep status = record {
  status = status;
  ready_replicas = dep.ready_replicas;
  desired_replicas = desired_of dep;
  updated_replicas = dep.updated_replicas;
  available_replicas = dep.available_replicas;
}

-- The status while the rollout is neither complete nor failed.
abbrev pub ongoing_status : KubeDeployment → RuntimeStatus
ongoing_status dep =
    let desired = desired_of dep in
    if ltb dep.observed_generation dep.generation
    then progressing
    else if ltb dep.updated_replicas desired
    then progressing
    else if leb desired dep.ready_replicas && leb desired dep.available_replicas
    then running
    else if leb desired dep.ready_replicas
    then progressing
    else if ltb 0 dep.ready_replicas
    then degraded
    else progressing

abbrev pub status_in : KubeDeployment → RolloutState → RuntimeStatus
status_in dep broken_down = failed
status_in dep complete = running
status_in dep ongoing = ongoing_status dep

unfoldable pub deployment_runtime_status : Option KubeDeployment → ℕ → ServiceRuntime
unfolding unknown_runtime
deployment_runtime_status none now = record unknown_runtime { status = not_deployed }
deployment_runtime_status (some dep) now =
    with_counts dep
      (if desired_of dep == 0 then stopped else status_in dep (deployment_rollout_state dep now))

-- A Deployment that asks for at least one replica is shown as failed just where the worker's
-- rollout gate reports a failure.
pub runtime_failed_iff :
    (dep : KubeDeployment) (now : ℕ)
    → 1 ≤ desired_of dep
    → ((deployment_runtime_status (some dep) now).status ≡ failed)
      ↔ (deployment_rollout_state dep now ≡ broken_down)
unfolding deployment_runtime_status
runtime_failed_iff dep now n = go (deployment_rollout_state dep now)
  where
    go :
        (r : RolloutState)
        → ((with_counts dep (if desired_of dep == 0 then stopped else status_in dep r)).status
            ≡ failed)
          ↔ (r ≡ broken_down)
    go complete = ground arith
    go ongoing = ground arith
    go broken_down = ground arith

-- A Deployment is shown as running only if its last specification was observed and as many
-- replicas as it asks for are updated, ready and available.
runtime_running :
    (dep : KubeDeployment) (now : ℕ)
    → (deployment_runtime_status (some dep) now).status ≡ running
    → (dep.generation ≤ dep.observed_generation)
      × (desired_of dep ≤ dep.updated_replicas)
      × (desired_of dep ≤ dep.ready_replicas)
      × (desired_of dep ≤ dep.available_replicas)
unfolding deployment_runtime_status deployment_rollout_state unknown_runtime
runtime_running dep now h = ground arith
