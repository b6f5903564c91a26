-- ===== src/Domains/Hosts.antt =====
-- The host of a service under the platform's default domain. A service id is a uuid: it has no `$`, which
-- would be special in a replacement.
use kubwave.Common.{
  ℕ, ◌+◌, ◌*◌, ◌-◌, Bool, false, not, ◌&&◌, Option, none, some, [], ◌∷◌, ◌++◌, ◌==◌, leb,
  if◌then◌else◌, length, take, all, or_else,
}
use kubwave.Common.Units.{
  Units, units, is_blank, trim, remove_unit, replace_unit, replace_first, split,
}
use kubwave.Domains.Labels.{hyphen, sanitize_dns_label, clamp_label}

pub data DefaultDomainMode : Type 0 where
  off wildcard sslip : DefaultDomainMode

pub record DefaultDomainSettings : Type 0 where
  pub mode : DefaultDomainMode
  pub base : Option Units
  pub subdomain_template : Option Units

pub record DefaultDomainRuntime : Type 0 where
  pub ingress_ip : Option Units
  pub tls : Bool

-- What is stored may lack members.
pub record StoredSettings : Type 0 where
  pub mode : Option DefaultDomainMode
  pub base : Option Units
  pub subdomain_template : Option Units

pub record StoredRuntime : Type 0 where
  pub ingress_ip : Option Units
  pub tls : Option Bool

unfoldable pub resolve_default_domain_settings : StoredSettings → DefaultDomainSettings
resolve_default_domain_settings stored = record {
  mode = or_else stored.mode sslip;
  base = stored.base;
  subdomain_template = stored.subdomain_template;
}

unfoldable pub resolve_default_domain_runtime : StoredRuntime → DefaultDomainRuntime
resolve_default_domain_runtime stored = record {
  ingress_ip = stored.ingress_ip;
  tls = or_else stored.tls false;
}

pub record NamedService : Type 0 where
  pub service_id : Units
  pub service_name : Units

abbrev pub short_id_from_service_id : Units → Units
short_id_from_service_id id = take 8 (remove_unit hyphen id)

abbrev pub dot : ℕ
dot = 46

unfoldable pub sslip_base_from_ip : Units → Units
unfolding trim
sslip_base_from_ip ip = replace_unit dot hyphen (trim ip) ++ units ".sslip.io"

abbrev pub is_digit : ℕ → Bool
is_digit c = leb 48 c && leb c 57

-- The number that a text of digits spells.
abbrev pub number_from : ℕ → Units → ℕ
number_from n [] = n
number_from n (c ∷ s) = number_from (10 * n + (c - 48)) s

-- `/^\d{1,3}$/.test(part) && Number(part) <= 255`
abbrev pub is_octet : Units → Bool
is_octet part =
    not (is_blank part) && leb (length part) 3 && all is_digit part && leb (number_from 0 part) 255

unfoldable pub is_ipv4 : Units → Bool
unfolding trim
is_ipv4 value = let parts = split dot (trim value) in length parts == 4 && all is_octet parts

-- `value?.trim() || null`
abbrev pub trimmed : Option Units → Option Units
trimmed none = none
trimmed (some s) = let t = trim s in if is_blank t then none else some t

abbrev pub sslip_base : Option Units → Option Units
sslip_base none = none
sslip_base (some ip) =
    if not (is_blank ip) && is_ipv4 ip then some (sslip_base_from_ip ip) else none

abbrev pub base_of_mode : DefaultDomainMode → Option Units → Option Units → Option Units
base_of_mode off base ip = none
base_of_mode wildcard base ip = trimmed base
base_of_mode sslip base ip = sslip_base ip

unfoldable pub effective_base : DefaultDomainSettings → DefaultDomainRuntime → Option Units
effective_base settings runtime = base_of_mode settings.mode settings.base runtime.ingress_ip

abbrev pub default_template : Units
default_template = units "{name}-{shortId}"

abbrev pub max_fqdn : ℕ
max_fqdn = 253

abbrev pub host_on : Units → Units → Option Units
host_on label base =
    let host = label ++ dot ∷ base in if leb (length host) max_fqdn then some host else none

module _ (lower : Units → Units) where
  abbrev pub rendered : Option Units → NamedService → Units
  rendered template service =
      replace_first (units "{shortId}") (short_id_from_service_id service.service_id) (
        replace_first (units "{name}") (sanitize_dns_label lower service.service_name)
          (or_else (trimmed template) default_template))

  abbrev pub host_on_base : Option Units → NamedService → Option Units → Option Units
  host_on_base template service none = none
  host_on_base template service (some base) =
      let label = clamp_label (sanitize_dns_label lower (rendered template service)) in
      if is_blank label then none else host_on label base

  unfoldable pub build_default_domain_host :
      Option Units → Option Units → NamedService → Option Units
  build_default_domain_host base template service = host_on_base template service (trimmed base)

  unfoldable pub build_default_domain_for_service :
      DefaultDomainSettings → DefaultDomainRuntime → NamedService → Option Units
  unfolding build_default_domain_host
  build_default_domain_for_service settings runtime service =
      build_default_domain_host (effective_base settings runtime) settings.subdomain_template
        service
