-- ===== src/Previews/Clone.antt =====
-- Cloning a base environment into a preview, and deleting one
-- (apps/backend/src/modules/worker/jobs/pr-preview/clone.ts and teardown.ts). Fresh ids are arguments.
-- A preview is the base of no environment, so its deletion takes no other environment along.
use text.Mathlib.Text.{◌==◌ as str_eq}
use kubwave.Common.{
  ℕ, String, Bool, true, false, not, ◌&&◌, ◌||◌, Option, none, some, List, [], ◌∷◌, ◌++◌, ◌==◌,
  if◌then◌else◌, leb, map, any, take, select_where, decimal, length, ◌-◌, ◌<>◌,
}
use kubwave.Common.Units.{Units, units, is_blank, same_units, ends_with, split, replace_unit}
use kubwave.Store.{
  Store, Deployment, DeploymentLog, DeploymentStatus, succeeded, preview, Service, info, warn,
}
use kubwave.Store.Cascade.{without_services}
use kubwave.Store.Environments.{Environment, EnvironmentKind, is_preview}
use kubwave.Store.Environments
use kubwave.Deployments.Logs.{log_entry, deployment_log_rows}
use kubwave.Deployments.Enqueue.{queued_row}
use kubwave.Previews.Plan.{
  CloneTexts, ClonePlanContext, PreviewServiceRow, plan_preview_services, deployable_preview_rows,
}

pub record OpenPr : Type 0 where
  pub pr_number : ℕ
  pub pr_ref : String
  pub head_sha : String

pub record PreviewStore : Type 0 where
  pub environments : List Environment
  pub services : List Service
  pub store : Store

-- The last part of a repository's address, in lower case, as letters, digits and hyphens.
abbrev pub last_part : List Units → Units
last_part [] = []
last_part (p ∷ []) = p
last_part (p ∷ q ∷ ps) = last_part (q ∷ ps)

abbrev pub without_git : Units → Units
without_git s = if ends_with s (units ".git") then take (length s - 4) s else s

abbrev pub is_slug_unit : ℕ → Bool
is_slug_unit c = leb 97 c && leb c 122 || leb 48 c && leb c 57 || c == 45

unfoldable pub slug : (Units → Units) → Units → Units
slug lower url =
    let tail = last_part (split 47 (replace_unit 58 47 (without_git url))) in
    let s = take 30 (map (λ c. if is_slug_unit c then c else 45) (lower tail)) in
    if is_blank s then units "repo" else s

abbrev pub preview_name : (Units → Units) → ℕ → String → Units
preview_name lower number url =
    units "pr-" ++ units (decimal number) ++ units "-" ++ slug lower (units url)

unfoldable pub preview_environment :
    (Units → Units) → ℕ → ℕ → Environment → OpenPr → String → Environment
preview_environment lower now id base pr url = record {
  id = id;
  project_id = base.project_id;
  name = preview_name lower pr.pr_number url;
  kind = Environments.preview;
  pr_previews_enabled = false;
  base_environment_id = some base.id;
  pr_number = some pr.pr_number;
  pr_repo_url = some url;
  pr_ref = some pr.pr_ref;
  pr_next_poll_at = none;
  pr_last_polled_at = none;
  pr_last_poll_error = none;
  created_at = now;
  updated_at = now;
}

abbrev pub is_number : Option ℕ → ℕ → Bool
is_number none n = false
is_number (some k) n = k == n

abbrev pub is_url : Option String → String → Bool
is_url none u = false
is_url (some v) u = str_eq v u

abbrev pub both_number : Option ℕ → Option ℕ → Bool
both_number none o = false
both_number (some k) o = is_number o k

abbrev pub both_url : Option String → Option String → Bool
both_url none o = false
both_url (some u) o = is_url o u

-- The unique indexes: a project's environments by name, and previews by base, repository and number.
abbrev pub conflicts : Environment → Environment → Bool
conflicts new e =
    e.project_id == new.project_id && same_units e.name new.name
    || both_number new.base_environment_id e.base_environment_id
      && both_number new.pr_number e.pr_number
      && both_url new.pr_repo_url e.pr_repo_url

abbrev pub service_row : ℕ → PreviewServiceRow → Service
service_row now row = record {
  id = row.id;
  environment_id = row.environment_id;
  name = row.name;
  description = row.description;
  type = row.type;
  config = row.config;
  auto_deploy_enabled = row.auto_deploy_enabled;
  last_polled_commit = row.last_polled_commit;
  last_polled_at = none;
  next_poll_at = none;
  last_poll_error = none;
  image_watch_enabled = false;
  last_watched_digest = none;
  last_watched_at = none;
  next_watch_at = none;
  last_watch_error = none;
  created_at = now;
  updated_at = now;
}

abbrev pub is_succeeded : DeploymentStatus → Bool
is_succeeded succeeded = true
is_succeeded _ = false

abbrev pub is_deployed : Store → ℕ → Bool
is_deployed s id = any (λ d. d.service_id == id && is_succeeded d.status) s.deployments

abbrev pub no_preview_host_message : String
no_preview_host_message =
    "This service is public in the base environment, but the preview got no URL: the platform default domain is off or unresolved (or the service has no container port). Env values referencing its base hosts were left unchanged."

-- What a clone draws and reads: ids, the clock, and the texts of the plan.
pub record CloneInputs : Type 0 where
  pub texts : CloneTexts
  pub lower : Units → Units
  pub default_domain_host : ℕ → String → Option String
  pub now : ℕ
  pub environment_id : String → ℕ → ℕ
  pub service_id : String → ℕ → ℕ → ℕ
  pub deployment_id : ℕ → ℕ

abbrev pub preview_deployment : CloneInputs → PreviewServiceRow → Deployment
preview_deployment inputs row =
    queued_row inputs.now (inputs.deployment_id row.id)
      (record { id = row.id; type = row.type; config = row.config }) row.config preview none

abbrev pub preview_logs : CloneInputs → ℕ → List ℕ → PreviewServiceRow → List DeploymentLog
preview_logs inputs number without row = deployment_log_rows (inputs.deployment_id row.id) (
    log_entry inputs.now info "queued" ("PR #" <> decimal number <> " preview")
    ∷ (if any (λ id. id == row.id) without
        then log_entry inputs.now warn "preview-domain" no_preview_host_message ∷ []
        else []))

abbrev pub all_logs : CloneInputs → ℕ → List ℕ → List PreviewServiceRow → List DeploymentLog
all_logs inputs number without [] = []
all_logs inputs number without (row ∷ rows) =
    preview_logs inputs number without row ++ all_logs inputs number without rows

abbrev pub plan_context : CloneInputs → Environment → OpenPr → String → ClonePlanContext
plan_context inputs base pr url =
    let id = inputs.environment_id url pr.pr_number in
    record {
      preview_environment_id = id;
      base_namespace = inputs.texts.namespace_of base.id;
      preview_namespace = inputs.texts.namespace_of id;
      pr_repo_url = url;
      pr_ref = pr.pr_ref;
      head_sha = pr.head_sha;
      default_domain_host = inputs.default_domain_host;
      new_id = inputs.service_id url pr.pr_number;
    }

abbrev pub insert_preview :
    CloneInputs → Environment → OpenPr → String → List Service → PreviewStore → PreviewStore
insert_preview inputs env pr url base_services p =
    let plan = plan_preview_services inputs.texts (plan_context inputs env pr url) base_services in
    let rows = deployable_preview_rows base_services plan.services (is_deployed p.store) url in
    record {
      environments =
          p.environments
          ++ preview_environment inputs.lower inputs.now (inputs.environment_id url pr.pr_number)
              env pr url
            ∷ [];
      services = p.services ++ map (service_row inputs.now) plan.services;
      store = record p.store {
        deployments = p.store.deployments ++ map (preview_deployment inputs) rows;
        deployment_logs =
            p.store.deployment_logs ++ all_logs inputs pr.pr_number plan.no_preview_host rows;
      };
    }

-- The inserts are one transaction, which a conflict rolls back.
unfoldable pub clone_preview :
    CloneInputs → Environment → OpenPr → String → PreviewStore → PreviewStore
unfolding preview_environment plan_preview_services slug
clone_preview inputs base pr url p =
    let new =
      preview_environment inputs.lower inputs.now (inputs.environment_id url pr.pr_number) base pr
        url in
    if any (conflicts new) p.environments
    then p
    else insert_preview inputs base pr url
        (select_where (λ svc. svc.environment_id == base.id) p.services) p

abbrev pub is_preview_of_id : ℕ → Environment → Bool
is_preview_of_id id e = e.id == id && is_preview e.kind

abbrev pub lives_in : ℕ → List Service → ℕ → Bool
lives_in env services id = any (λ svc. svc.id == id && svc.environment_id == env) services

-- Deleting the row takes its services along, with what depends on them.
unfoldable pub teardown_preview : ℕ → PreviewStore → PreviewStore
unfolding without_services
teardown_preview id p =
    if any (is_preview_of_id id) p.environments
    then record {
      environments = select_where (λ e. not (is_preview_of_id id e)) p.environments;
      services = select_where (λ svc. not (svc.environment_id == id)) p.services;
      store = without_services (lives_in id p.services) p.store;
    }
    else p
