-- ===== src/Workloads/Examples.antt =====
-- A Deployment whose two replicas are up, and one whose deadline passed long ago.
use kubwave.Common.{◌≡◌, ◌↔◌, some, [], ◌∷◌, arith}
use kubwave.Workloads.{
  KubeDeployment, deployment_runtime_status, deployment_rollout_state, runtime_failed_iff, failed,
  broken_down,
}

abbrev healthy : KubeDeployment
healthy = record {
  spec_replicas = some 2;
  generation = 3;
  observed_generation = 3;
  updated_replicas = 2;
  ready_replicas = 2;
  available_replicas = 2;
  replicas = 2;
  conditions = [];
}

abbrev stuck : KubeDeployment
stuck = record healthy {
  ready_replicas = 0;
  available_replicas = 0;
  conditions =
      record {
        type = "Progressing";
        status = "False";
        reason = "ProgressDeadlineExceeded";
        last_transition_time = some 1000;
      }
      ∷ [];
}

runtime_failed_iff_example :
    ((deployment_runtime_status (some stuck) 90000).status ≡ failed)
    ↔ (deployment_rollout_state stuck 90000 ≡ broken_down)
runtime_failed_iff_example = runtime_failed_iff stuck 90000 (omega arith)
