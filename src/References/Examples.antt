-- ===== src/References/Examples.antt =====
-- A text that refers to the services "db" and "web".
use kubwave.Common.{
  ◌≡◌, ◌↔◌, refl, true, false, none, some, [], ◌∷◌, ◌++◌, List, length, find_where, ◌==◌,
}
use kubwave.Common.Units.{Units, units}
use kubwave.Store.{docker_image}
use kubwave.Store.Samples.{sample_config, sample_service}
use kubwave.Store.{Service, ServiceConfig}
use kubwave.References.Configs.{
  ConfigTexts, IsUnmentioned, rename_service, rename_service_unmentioned,
}
use kubwave.References.Decoded.{text_of, text_of-units}
use kubwave.Domains.Hosts.{off}
use kubwave.References.Tokens.{
  ServiceReference, map_references, parse_reference, match_token, rename_references,
  invalid_references, is_reference_prop,
}
use kubwave.References.Written.{Token, Body, write, IsBody}
use kubwave.References.Rename.{is_inner-IsInner, after_rename, rename_references-map_references}
use kubwave.References.Addresses.{
  ReferenceTarget, DefaultDomainContext, value, internal_address, public_host, resolve_reference,
  resolve_text,
}
use kubwave.References.Checked.{IsReachable, has_name}
use kubwave.References.Deployed.{reference_issues, plain_input, resolve_deployment}
use kubwave.References.Agreement.{IsResolved, reference_issues-resolve_deployment}

abbrev host_of_db : Token
host_of_db = record { before = units " "; expr = units "services.db.host"; after = units " " }

abbrev body : Body
body = (host_of_db, units ":5432") ∷ []

abbrev text : Units
text = write (units "at ") body

text_lem : text ≡ units "at ${{ services.db.host }}:5432"
text_lem = refl

moved :
    rename_references text (units "db") (units "main.db")
    ≡ units "at ${{services.main.db.host}}:5432"
unfolding rename_references map_references parse_reference match_token
moved = refl

-- A token may go on over a closing brace, and its white space over a line end.
foreign_kept :
    rename_references (units "${{ a }b }} ${{\n services.db.port}}") (units "db") (units "x")
    ≡ units "${{ a }b }} ${{services.x.port}}"
unfolding rename_references map_references parse_reference match_token
foreign_kept = refl

body-IsBody : IsBody body
body-IsBody = (
  (
    record {
      before = (refl, tt);
      expr = record {
        inner = is_inner-IsInner (units "services.db.host") refl;
        starts = refl;
        ends = refl;
      };
      after = (refl, tt);
    },
    (refl, (refl, (refl, (refl, (refl, tt))))),
  ),
  tt,
)

abbrev show : ServiceReference → Units → Units
show ref token = ref.name ++ (units "/" ++ ref.prop)

rename_references-map_references_example :
    map_references show (rename_references text (units "db") (units "main.db"))
    ≡ map_references (after_rename show (units "db") (units "main.db")) text
rename_references-map_references_example =
    rename_references-map_references show (units "db") (units "main.db") (units "at ") body
      (is_inner-IsInner (units "main.db") refl) (refl, (refl, (refl, tt))) body-IsBody

abbrev context : DefaultDomainContext
context = record {
  settings = record { mode = off; base = none; subdomain_template = none };
  runtime = record { ingress_ip = none; tls = true };
}

abbrev db : ReferenceTarget
db = record {
  id = units "7";
  name = units "db";
  type = docker_image;
  config = record sample_config { domains = record { host = "db.example.com"; port = 8080 } ∷ [] };
}

db-IsReachable : IsReachable (λ s. s) context db
unfolding public_host
db-IsReachable = record {
  port = 8080;
  port_given = refl;
  host = units "db.example.com";
  host_given = refl;
  host_filled = refl;
}

resolved_text :
    resolve_text (λ s. s) context (db ∷ []) (units "env A") text ≡ value (units "at svc-7:5432")
unfolding resolve_text resolve_reference internal_address is_reference_prop parse_reference
    match_token
resolved_text = refl

-- A token over two lines that another opening precedes: the renaming joins the lines, and the reference
-- is then inside a token that is none.
swallowed :
    rename_references (units "${{ a ${{\n services.db.host}}") (units "db") (units "x")
    ≡ units "${{ a ${{services.x.host}}"
unfolding rename_references map_references parse_reference match_token
swallowed = refl

swallowed_then : invalid_references (units "${{ a ${{services.x.host}}") (λ n. false) ≡ []
unfolding invalid_references parse_reference match_token
swallowed_then = refl

swallowed_before :
    length (invalid_references (units "${{ a ${{\n services.db.host}}") (λ n. false)) ≡ 1
unfolding invalid_references parse_reference match_token
swallowed_before = refl

abbrev texts : ConfigTexts
texts = record { decrypt = λ s. s; encrypt = λ s. s; of_text = units; to_text = text_of }

abbrev web : Service
web = record (sample_service 2) {
  config = record sample_config {
    env = record { key = "A"; value = "${{services.cache.host}}" } ∷ [];
  };
}

web-IsUnmentioned : IsUnmentioned texts "db" web.config
unfolding parse_reference match_token
web-IsUnmentioned = record { in_env = refl; in_secrets = refl; in_files = refl }

rename_service_unmentioned_example :
    (after : List Service) × (rename_service texts 1 1 "db" "store" 9 (sample_service 1 ∷ web ∷ [])
      ≡ some after)
    × (find_where (λ s. s.id == 2) after ≡ some web)
rename_service_unmentioned_example =
    rename_service_unmentioned texts 1 1 "db" "store" 9 (sample_service 1 ∷ web ∷ []) 2 web
      text_of-units refl refl refl web-IsUnmentioned

-- An entry and a secret that refer to "db".
abbrev config : ServiceConfig
config = record sample_config {
  env = record { key = "A"; value = "${{services.db.url}}" } ∷ [];
  secrets = some (record { key = "B"; value = "${{ services.db.port }}" } ∷ []);
}

reference_issues-resolve_deployment_example :
    (reference_issues texts (has_name (db ∷ [])) (plain_input texts config) ≡ [])
    ↔ IsResolved (resolve_deployment texts (λ s. s) context (db ∷ []) config)
reference_issues-resolve_deployment_example =
    reference_issues-resolve_deployment texts (λ s. s) context (db ∷ []) config (db-IsReachable, tt)

-- What the check says of a reference to a service that is missing.
missing_service :
    reference_issues texts (has_name []) (plain_input texts web.config)
    ≡ units "env A: ${{services.cache.host}}: no service named \"cache\" in this environment" ∷ []
unfolding reference_issues invalid_references is_reference_prop parse_reference match_token
missing_service = refl
