-- ===== src/Previews/Examples.antt =====
-- A base environment with one repository, whose pull request 1 is closed and 2 is open.
use kubwave.Common.{
  ℕ, String, ◌≡◌, refl, true, false, Option, none, some, List, [], ◌∷◌, arith, any, ◌==◌, ◌≤◌, ◌+◌,
  map, Bool, All, suc, decimal,
}
use kubwave.Common.Units.{units}
use kubwave.Store.{public_repo, Service}
use kubwave.Store.Samples.{sample_config, sample_service}
use kubwave.Store.Environments.{Environment, persistent, preview}
use kubwave.Deployments.Cancel.{Call, returned}
use kubwave.GitPoll.Schedule.{greater}
use kubwave.Previews.Clone.{OpenPr, PreviewStore, CloneInputs, clone_preview, teardown_preview}
use kubwave.Previews.Discovery.{
  targets_of, diff_previews, create_each, sync_repo, poll_environment, preview_count_for_project,
}
use kubwave.Previews.Bounds.{poll_environment-cap}
use kubwave.Previews.Replicas.{ReplicaStep, ReplicaReach, here, next, ReplicaReach-cap}
use kubwave.Previews.Kept.{is_closed, services_of, poll_environment-kept}

abbrev base : Environment
base = record {
  id = 1;
  project_id = 9;
  name = units "production";
  kind = persistent;
  pr_previews_enabled = true;
  base_environment_id = none;
  pr_number = none;
  pr_repo_url = none;
  pr_ref = none;
  pr_next_poll_at = none;
  pr_last_polled_at = none;
  pr_last_poll_error = none;
  created_at = 0;
  updated_at = 0;
}

abbrev preview_of : ℕ → ℕ → Environment
preview_of id number = record base {
  id = id;
  kind = preview;
  pr_previews_enabled = false;
  base_environment_id = some 1;
  pr_number = some number;
  pr_repo_url = some "https://github.com/acme/api";
}

abbrev service : Service
service = record (sample_service 7) {
  type = public_repo;
  config = record sample_config { repo_url = some "https://github.com/acme/api" };
}

abbrev before : PreviewStore
before = record {
  environments = base ∷ preview_of 2 1 ∷ preview_of 3 2 ∷ [];
  services = service ∷ record service { id = 8; environment_id = 3 } ∷ [];
  store = record { deployments = []; deployment_logs = []; build_runs = []; build_agents = [] };
}

abbrev listing : String → Option String → Call (List OpenPr)
listing url i = returned (
    record { pr_number = 2; pr_ref = "refs/pull/2/head"; head_sha = "b" }
    ∷ record { pr_number = 4; pr_ref = "refs/pull/4/head"; head_sha = "d" }
    ∷ [])

abbrev inputs : CloneInputs
inputs = record {
  texts = record {
    resource_name = λ id. "svc";
    namespace_of = λ id. "env";
    decrypt = λ s. s;
    encrypt = λ s. s;
    rewrite = λ m s. s;
  };
  lower = λ s. s;
  default_domain_host = λ id name. none;
  now = 50;
  environment_id = λ url n. 100 + n;
  service_id = λ url n id. 200 + id;
  deployment_id = λ id. 300 + id;
}

abbrev never : String → ℕ → Bool
never url n = false

poll_environment-cap_example :
    preview_count_for_project 9
      (poll_environment inputs listing never 3 999 base before).environments
    ≤ greater (preview_count_for_project 9 before.environments) 3
poll_environment-cap_example = poll_environment-cap inputs listing never 3 999 base before

none_closed :
    All
      (λ e. (e.id == 3) ≡ true → is_closed listing 1 (targets_of base before) e ≡ false)
      before.environments
unfolding is_closed
none_closed = (λ h. refl, (λ h. absurd (cc), (λ h. refl, tt)))

poll_environment-kept_example :
    (any (λ e. e.id == 3) (poll_environment inputs listing never 3 999 base before).environments
      ≡ true)
    × (services_of 3 (poll_environment inputs listing never 3 999 base before).services
        ≡ services_of 3 before.services)
poll_environment-kept_example =
    poll_environment-kept inputs listing never 3 999 3 base before (λ url n. ground arith) refl
      none_closed

swept :
    map (λ e. e.id) (poll_environment inputs listing never 3 999 base before).environments
    ≡ 1 ∷ 3 ∷ 104 ∷ []
unfolding poll_environment sync_repo diff_previews create_each teardown_preview clone_preview
swept = refl

abbrev pull : ℕ → OpenPr
pull n = record { pr_number = n; pr_ref = "refs/pull/head"; head_sha = "d" }

-- Two sweeps count two previews each, and both clone one.
abbrev one_cloned : PreviewStore
one_cloned = clone_preview inputs base (pull 4) "https://github.com/acme/api" before

abbrev two_cloned : PreviewStore
two_cloned = clone_preview inputs base (pull 5) "https://github.com/acme/api" one_cloned

interleaved : ReplicaReach 2 3 9 before two_cloned 0
unfolding preview_count_for_project
interleaved =
    next
      (next
        (next (next here (ReplicaStep.count refl (omega arith)))
          (ReplicaStep.count refl (omega arith)))
        (ReplicaStep.create inputs base (pull 4) "https://github.com/acme/api" 1 refl refl))
      (ReplicaStep.create inputs base (pull 5) "https://github.com/acme/api" 0 refl refl)

ReplicaReach-cap_example :
    suc (preview_count_for_project 9 two_cloned.environments)
    ≤ greater (preview_count_for_project 9 before.environments) 3 + 2
ReplicaReach-cap_example = ReplicaReach-cap 2 3 9 (omega arith) interleaved

overshoot : preview_count_for_project 9 two_cloned.environments ≡ 4
unfolding preview_count_for_project clone_preview decimal
overshoot = refl
