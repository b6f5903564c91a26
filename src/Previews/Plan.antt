-- ===== src/Previews/Plan.antt =====
-- The plan of a preview's services (apps/backend/src/modules/worker/jobs/pr-preview/clone-plan.ts).
-- `rewrite` stands for `rewriteCrossRefs`, and a cipher that cannot be read is among the failures of
-- the clone as a whole. A base service's preview id is drawn by `new_id`.
use text.Mathlib.Text.{◌==◌ as str_eq}
use kubwave.Common.{
  ℕ, String, Bool, true, false, not, ◌&&◌, ◌||◌, Option, none, some, List, [], ◌∷◌, ◌++◌,
  if◌then◌else◌, map, is_empty, or_else,
}
use mathlib.Core.Option
use kubwave.Store.{ServiceType, ServiceConfig, KeyValue, ServiceConfigFile, Service}

pub record RefMapping : Type 0 where
  pub namespace_from : String
  pub namespace_to : String
  pub services : List (String × String)
  pub hosts : List (String × String)

-- What the plan does with texts: resource names of service ids, and the parts named above.
pub record CloneTexts : Type 0 where
  pub resource_name : ℕ → String
  pub namespace_of : ℕ → String
  pub decrypt : String → String
  pub encrypt : String → String
  pub rewrite : RefMapping → String → String

pub record ClonePlanContext : Type 0 where
  pub preview_environment_id : ℕ
  pub base_namespace : String
  pub preview_namespace : String
  pub pr_repo_url : String
  pub pr_ref : String
  pub head_sha : String
  pub default_domain_host : ℕ → String → Option String
  pub new_id : ℕ → ℕ

-- The columns that the clone inserts; the others take their defaults.
pub record PreviewServiceRow : Type 0 where
  pub id : ℕ
  pub environment_id : ℕ
  pub name : String
  pub description : String
  pub type : ServiceType
  pub config : ServiceConfig
  pub auto_deploy_enabled : Bool
  pub last_polled_commit : Option String

pub record ClonePlan : Type 0 where
  pub services : List PreviewServiceRow
  pub no_preview_host : List ℕ

abbrev pub is_pr_service : ServiceConfig → String → Bool
is_pr_service config url = elim config.repo_url [ none ↦ false | some u ↦ str_eq u url ]

abbrev pub has_domains : ServiceConfig → Bool
has_domains config = elim config.domains [ [] ↦ false | d ∷ ds ↦ true ]

abbrev pub has_port : ServiceConfig → Bool
has_port config = elim config.container_port [ none ↦ false | some p ↦ true ]

abbrev pub default_domain_is_active : ServiceConfig → Bool
default_domain_is_active config =
    or_else config.default_domain_enabled false && has_port config && not (has_domains config)

abbrev pub is_public : ServiceConfig → Bool
is_public config =
    has_domains config || or_else config.default_domain_enabled false && has_port config

abbrev pub filled : Option String → Option String
filled none = none
filled (some s) = if is_empty s then none else some s

-- The host of the preview copy; an empty one counts as none.
abbrev pub preview_host : ClonePlanContext → Service → Option String
preview_host ctx svc =
    if has_port svc.config
    then filled (ctx.default_domain_host (ctx.new_id svc.id) svc.name)
    else none

-- `map.set(host, to)`
abbrev pub set_host : String → String → List (String × String) → List (String × String)
set_host host to [] = (host, to) ∷ []
set_host host to ((h, t) ∷ m) =
    let rest = (h, t) ∷ set_host host to m in if str_eq h host then (h, to) ∷ m else rest

abbrev pub set_hosts : List String → String → List (String × String) → List (String × String)
set_hosts [] to m = m
set_hosts (host ∷ hosts) to m =
    set_hosts hosts to (if not (str_eq host to) then set_host host to m else m)

abbrev pub base_default : Option String → List String
base_default none = []
base_default (some host) = host ∷ []

-- The hosts under which the base service is reached.
abbrev pub base_hosts : ClonePlanContext → Service → List String
base_hosts ctx svc =
    map (λ d. d.host) svc.config.domains
    ++ (if default_domain_is_active svc.config
        then base_default (filled (ctx.default_domain_host svc.id svc.name))
        else [])

abbrev pub HostMap : Type 0
HostMap = List (String × String) × List ℕ

abbrev pub add_hosts : ClonePlanContext → Service → Option String → HostMap → HostMap
add_hosts ctx svc none (hosts, without) = (hosts, without ++ ctx.new_id svc.id ∷ [])
add_hosts ctx svc (some to) (hosts, without) = (set_hosts (base_hosts ctx svc) to hosts, without)

abbrev pub build_host_map : ClonePlanContext → List Service → HostMap → HostMap
build_host_map ctx [] m = m
build_host_map ctx (svc ∷ base) m =
    build_host_map ctx base
      (if is_public svc.config then add_hosts ctx svc (preview_host ctx svc) m else m)

abbrev pub ref_mapping : CloneTexts → ClonePlanContext → List Service → RefMapping
ref_mapping texts ctx base = record {
  namespace_from = ctx.base_namespace;
  namespace_to = ctx.preview_namespace;
  services =
      map (λ svc. (texts.resource_name svc.id, texts.resource_name (ctx.new_id svc.id))) base;
  hosts = (build_host_map ctx base ([], [])).0;
}

abbrev pub rewrite_ciphertext : CloneTexts → RefMapping → String → String
rewrite_ciphertext texts mapping cipher =
    let plain = texts.decrypt cipher in
    let next = texts.rewrite mapping plain in
    if str_eq next plain then cipher else texts.encrypt next

abbrev pub map_value : (String → String) → KeyValue → KeyValue
map_value f e = record e { value = f e.value }

abbrev pub map_content : (String → String) → ServiceConfigFile → ServiceConfigFile
map_content f file = record file { content = f file.content }

-- `config.commit || svc.lastPolledCommit || undefined`
abbrev pub frozen_commit : Option String → Option String → Option String
frozen_commit commit polled = elim (filled commit) [ some c ↦ some c | none ↦ filled polled ]

abbrev pub branch_of : Bool → String → Option String → Option String → Option String
branch_of tracks pr_ref none branch = branch
branch_of tracks pr_ref (some url) branch = if tracks then some pr_ref else branch

abbrev pub commit_of : Bool → String → Option String → Option String → Option String → Option String
commit_of tracks head none commit polled = commit
commit_of tracks head (some url) commit polled =
    if tracks then some head else frozen_commit commit polled

unfoldable pub preview_config : CloneTexts → ClonePlanContext → RefMapping → Service → ServiceConfig
preview_config texts ctx mapping svc =
    let config = svc.config in
    let tracks = is_pr_service config ctx.pr_repo_url in
    record config {
      env = map (map_value (texts.rewrite mapping)) config.env;
      secrets = Option.map (map (map_value (rewrite_ciphertext texts mapping))) config.secrets;
      config_files =
          Option.map (map (map_content (rewrite_ciphertext texts mapping))) config.config_files;
      default_domain_enabled =
          if is_public config then some true else config.default_domain_enabled;
      domains = [];
      exposed_ports = none;
      branch = branch_of tracks ctx.pr_ref config.repo_url config.branch;
      commit = commit_of tracks ctx.head_sha config.repo_url config.commit svc.last_polled_commit;
    }

unfoldable pub preview_row :
    CloneTexts → ClonePlanContext → RefMapping → Service → PreviewServiceRow
unfolding preview_config
preview_row texts ctx mapping svc =
    let tracks = is_pr_service svc.config ctx.pr_repo_url in
    record {
      id = ctx.new_id svc.id;
      environment_id = ctx.preview_environment_id;
      name = svc.name;
      description = svc.description;
      type = svc.type;
      config = preview_config texts ctx mapping svc;
      auto_deploy_enabled = tracks;
      last_polled_commit = if tracks then some ctx.head_sha else none;
    }

unfoldable pub plan_preview_services : CloneTexts → ClonePlanContext → List Service → ClonePlan
unfolding preview_row
plan_preview_services texts ctx base = record {
  services = map (preview_row texts ctx (ref_mapping texts ctx base)) base;
  no_preview_host = (build_host_map ctx base ([], [])).1;
}

-- The rows that get a first deployment, each beside its base service.
abbrev pub deployable_preview_rows :
    List Service → List PreviewServiceRow → (ℕ → Bool) → String → List PreviewServiceRow
deployable_preview_rows (svc ∷ base) (row ∷ rows) deployed url =
    let rest = deployable_preview_rows base rows deployed url in
    if is_pr_service svc.config url || deployed svc.id then row ∷ rest else rest
deployable_preview_rows base rows deployed url = []
