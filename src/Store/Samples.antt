-- ===== src/Store/Samples.antt =====
-- Rows that the tests and examples share.
use kubwave.Common.{ℕ, false, none, some, []}
use kubwave.Store.Services.{Service}
use kubwave.Store.Config.{ServiceConfig, docker_image}
use kubwave.Store.BuildTables.{BuildSettings, BuildRun, agent, queued}
use kubwave.Store.DeploymentTables.{Deployment, DeploymentStatus, manual}

abbrev pub sample_config : ServiceConfig
sample_config = record {
  container_port = some 8080;
  default_domain_enabled = none;
  env = [];
  secrets = none;
  domains = [];
  config_files = none;
  exposed_ports = none;
  repo_url = none;
  branch = none;
  commit = none;
  digest = none;
  root_directory = none;
  watch_paths = none;
  watch_entire_repo = none;
  installation_id = none;
}

-- A deployment of a prebuilt image, locked by the worker "w".
abbrev pub sample_deployment : ℕ → ℕ → DeploymentStatus → Deployment
sample_deployment id service_id status = record {
  id = id;
  service_id = service_id;
  type = docker_image;
  config = sample_config;
  image_ref = none;
  status = status;
  phase = some "applying";
  last_error = none;
  locked_by = some "w";
  locked_at = some 5;
  attempts = 1;
  rollback_attempts = 0;
  trigger = manual;
  triggered_by_user_id = none;
  started_at = some 5;
  finished_at = none;
  created_at = id;
}

-- A service of a prebuilt image that nothing polls.
abbrev pub sample_service : ℕ → Service
sample_service id = record {
  id = id;
  environment_id = 1;
  name = "web";
  description = "";
  type = docker_image;
  config = sample_config;
  auto_deploy_enabled = false;
  last_polled_commit = none;
  last_polled_at = none;
  next_poll_at = none;
  last_poll_error = none;
  image_watch_enabled = false;
  last_watched_digest = none;
  last_watched_at = none;
  next_watch_at = none;
  last_watch_error = none;
  created_at = 0;
  updated_at = 0;
}

abbrev pub sample_settings : BuildSettings
sample_settings = record {
  execution = agent;
  cpu_request = "";
  cpu_limit = "";
  memory_request = "1.5Gi";
  memory_limit = "2Gi";
  max_concurrent_builds = 3;
  timeout_seconds = 1800;
  queue_timeout_seconds = 86400;
  fallback_to_cluster = false;
}

-- A queued run of the deployment with its number.
abbrev pub sample_run : ℕ → BuildRun
sample_run id = record {
  id = id;
  deployment_id = id;
  settings = sample_settings;
  execution = agent;
  status = queued;
  agent_id = none;
  attempt = 1;
  lease_token_hash = none;
  lease_expires_at = none;
  payload_ciphertext = none;
  source_commit = none;
  image_ref = none;
  last_error = none;
  started_at = none;
  finished_at = none;
  created_at = id;
}
