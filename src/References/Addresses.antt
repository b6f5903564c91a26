-- ===== src/References/Addresses.antt =====
-- The addresses that references stand for, and the resolution of a text
-- (apps/backend/src/modules/worker/jobs/deployments/references.ts, withDefaultDomain of its runtime
-- deployer, and the ports of packages/db/src/database-engines.ts). Of the runtime configuration only
-- what an address is made of is kept. Ids and hosts are texts; `lower` is as for default domains.
use kubwave.Common.{
  ℕ, Bool, true, false, not, ◌&&◌, ◌||◌, Option, none, some, List, [], ◌∷◌, ◌++◌, if◌then◌else◌,
  decimal, or_else,
}
use kubwave.Common.Units.{Units, units, is_blank, same_units}
use kubwave.Store.{ServiceType, postgres, mysql, mariadb, mongodb, ServiceConfig, ServiceDomain}
use kubwave.Domains.Hosts.{
  DefaultDomainMode, off, DefaultDomainSettings, DefaultDomainRuntime,
  build_default_domain_for_service,
}
use kubwave.References.Tokens.{
  ServiceReference, Segment, kept, matched, segments, parse_reference, is_reference_prop, quoted,
  missing_message, prop_message,
}

pub record ReferenceTarget : Type 0 where
  pub id : Units
  pub name : Units
  pub type : ServiceType
  pub config : ServiceConfig

pub record DefaultDomainContext : Type 0 where
  pub settings : DefaultDomainSettings
  pub runtime : DefaultDomainRuntime

pub data Resolution : Type 0 where
  value error : Units → Resolution

pub record RuntimeAddress : Type 0 where
  pub container_port : Option ℕ
  pub default_domain_enabled : Option Bool
  pub domains : List ServiceDomain

-- `isDatabaseEngine`, with the port of the engine.
abbrev pub engine_port : ServiceType → Option ℕ
engine_port postgres = some 5432
engine_port mysql = some 3306
engine_port mariadb = some 3306
engine_port mongodb = some 27017
engine_port _ = none

abbrev pub address_of : Option ℕ → ServiceConfig → RuntimeAddress
address_of (some port) config = record {
  container_port = some port;
  default_domain_enabled = none;
  domains = [];
}
address_of none config = record {
  container_port = config.container_port;
  default_domain_enabled = config.default_domain_enabled;
  domains = config.domains;
}

abbrev pub runtime_config_of : ReferenceTarget → RuntimeAddress
runtime_config_of target = address_of (engine_port target.type) target.config

-- `svc-<id>`
abbrev pub internal_service_name : Units → Units
internal_service_name id = units "svc-" ++ id

abbrev pub service_message : Units → Units → Units
service_message name problem = units "service " ++ (quoted name ++ problem)

abbrev pub internal_value : Units → Units → ℕ → Units
internal_value prop host port =
    let shown = units (decimal port) in
    if same_units prop (units "host")
    then host
    else if same_units prop (units "port")
    then shown
    else units "http://" ++ (host ++ (units ":" ++ shown))

abbrev pub internal_at : ReferenceTarget → Units → Option ℕ → Resolution
internal_at target prop none = error (service_message target.name (units " has no container port"))
internal_at target prop (some port) =
    value (internal_value prop (internal_service_name target.id) port)

unfoldable pub internal_address : ReferenceTarget → Units → Resolution
internal_address target prop = internal_at target prop (runtime_config_of target).container_port

abbrev pub default_host : Option Units → Option ℕ → Option Units
default_host none port = none
default_host (some host) none = none
default_host (some host) (some port) = if is_blank host then none else some host

-- The host of the first domain that `withDefaultDomain` gives.
abbrev pub first_domain : RuntimeAddress → Option Units → Option Units
first_domain address host = elim address.domains [
  | d ∷ ds ↦ some (units d.host)
  | [] ↦
      if or_else address.default_domain_enabled false
      then default_host host address.container_port
      else none
]

abbrev pub is_off : DefaultDomainMode → Bool
is_off off = true
is_off _ = false

module _ (lower : Units → Units) (ctx : DefaultDomainContext) where
  unfoldable pub public_host : ReferenceTarget → Option Units
  public_host target = first_domain (runtime_config_of target) (
      build_default_domain_for_service lower ctx.settings ctx.runtime
        (record { service_id = target.id; service_name = target.name }))

  abbrev pub no_domain : ReferenceTarget → Resolution
  no_domain target = error (
      service_message target.name (
        if is_off ctx.settings.mode
          && or_else (runtime_config_of target).default_domain_enabled false
        then units " has no custom domain and the platform default domain is off"
        else units " has no public domain (add a custom domain or enable its default domain)"))

  abbrev pub public_value : Units → Units → Units
  public_value prop domain =
      let url =
        (if ctx.runtime.tls then units "https" else units "http") ++ (units "://" ++ domain) in
      if same_units prop (units "domain") then domain else url

  abbrev pub public_at : ReferenceTarget → Units → Option Units → Resolution
  public_at target prop none = no_domain target
  public_at target prop (some domain) =
      if is_blank domain then no_domain target else value (public_value prop domain)

  unfoldable pub public_address : ReferenceTarget → Units → Resolution
  public_address target prop = public_at target prop (public_host target)

  unfoldable pub resolve_reference : Option ReferenceTarget → ServiceReference → Resolution
  resolve_reference none ref = error (missing_message ref.name)
  resolve_reference (some target) ref =
      if not (is_reference_prop ref.prop)
      then error (prop_message ref.prop)
      else if same_units ref.prop (units "domain") || same_units ref.prop (units "url")
      then public_address target ref.prop
      else internal_address target ref.prop

-- `byName.get(name)`: of two targets with one name the later counts.
abbrev pub or_later : ReferenceTarget → Bool → Option ReferenceTarget → Option ReferenceTarget
or_later target same (some later) = some later
or_later target same none = if same then some target else none

abbrev pub target_named : List ReferenceTarget → Units → Option ReferenceTarget
target_named [] name = none
target_named (target ∷ targets) name =
    or_later target (same_units target.name name) (target_named targets name)

abbrev pub prepend : Units → Resolution → Resolution
prepend s (value t) = value (s ++ t)
prepend s (error e) = error e

-- What the callback of the resolver gives for one reference: its value, or the message it throws.
abbrev pub or_throw : Units → Units → Resolution → Resolution
or_throw token location (value v) = value v
or_throw token location (error e) =
    error (units "Cannot resolve " ++ (token ++ (units " in " ++ (location ++ (units ": " ++ e)))))

abbrev pub then_prepend : Resolution → Resolution → Resolution
then_prepend (value v) rest = prepend v rest
then_prepend (error e) rest = error e

module _ (lower : Units → Units) (ctx : DefaultDomainContext) (targets : List ReferenceTarget)
    (location : Units) where
  abbrev pub resolve_token : Units → Option ServiceReference → Resolution
  resolve_token token none = value token
  resolve_token token (some ref) =
      or_throw token location (resolve_reference lower ctx (target_named targets ref.name) ref)

  -- The first reference that cannot be resolved ends the replacement.
  abbrev pub resolve_segments : List Segment → Resolution
  resolve_segments [] = value []
  resolve_segments (kept c ∷ ms) = prepend (c ∷ []) (resolve_segments ms)
  resolve_segments (matched expr token ∷ ms) =
      then_prepend (resolve_token token (parse_reference expr)) (resolve_segments ms)

  unfoldable pub resolve_text : Units → Resolution
  resolve_text text = resolve_segments (segments text)
