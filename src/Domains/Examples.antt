-- ===== src/Domains/Examples.antt =====
-- The host of a service named "My App!".
use kubwave.Common.{
  ◌≡◌, refl, none, some, ◌++◌, ◌∷◌, ◌≤◌, length, leb, if◌then◌else◌, true, false, map, ◌+◌, ◌&&◌,
}
use kubwave.Common.Units.{Units, units, trim, is_blank}
use kubwave.Domains.Hosts.{NamedService, build_default_domain_host, is_ipv4, dot}
use kubwave.Domains.Labels.{sanitize_dns_label, clamp_label}
use kubwave.Domains.Valid.{IsWellFormed}
use kubwave.Domains.Bounds.{build_default_domain_host-label}

-- The lower case of ASCII letters.
abbrev lower_ascii : Units → Units
lower_ascii s = map (λ c. if leb 65 c && leb c 90 then c + 32 else c) s

abbrev service : NamedService
service = record { service_id = units "0123-4567-89ab"; service_name = units "My App!" }

host :
    build_default_domain_host lower_ascii (some (units " example.com ")) none service
    ≡ some (units "my-app-01234567.example.com")
unfolding build_default_domain_host sanitize_dns_label clamp_label trim
host = refl

addresses : (is_ipv4 (units "10.0.0.255") ≡ true) × (is_ipv4 (units "10.0.0.256") ≡ false)
unfolding is_ipv4
addresses = (refl, refl)

given : is_blank (trim (units " example.com ")) ≡ false
unfolding trim
given = refl

build_default_domain_host-label_example :
    (label : Units) × IsWellFormed label
    × (length label ≤ 63)
    × (build_default_domain_host lower_ascii (some (units " example.com ")) none service ≡ (
        if leb (length (label ++ dot ∷ trim (units " example.com "))) 253
        then some (label ++ dot ∷ trim (units " example.com "))
        else none))
build_default_domain_host-label_example =
    build_default_domain_host-label lower_ascii (units " example.com ") none service given
