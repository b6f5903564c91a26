-- ===== src/References/Deployed.antt =====
-- The references of a whole configuration: their check when it is written (referenceIssues of
-- apps/backend/src/modules/services/services.config.ts), and their resolution when it is deployed
-- (referenceResolver and resolveDeployment of
-- apps/backend/src/modules/worker/jobs/deployments/references.ts), which the worker calls. Each cipher
-- can be read.
use text.Mathlib.Text.{◌==◌ as str_eq}
use kubwave.Common.{String, Bool, Option, none, some, List, [], ◌∷◌, ◌++◌, if◌then◌else◌, map}
use mathlib.Core.Option
use kubwave.Common.Units.{Units, units}
use kubwave.Store.{ServiceConfig, KeyValue, ServiceConfigFile}
use kubwave.Deployments.Cancel.{Call, returned, thrown, Resolution, resolved, unresolved}
use kubwave.References.Tokens.{invalid_references}
use kubwave.References.Addresses
use kubwave.References.Addresses.{ReferenceTarget, DefaultDomainContext, value, error, resolve_text}
use kubwave.References.Configs.{ConfigTexts}

-- A null secret keeps the stored one.
pub record SecretInput : Type 0 where
  pub key : String
  pub value : Option String

pub record ReferenceInput : Type 0 where
  pub env : Option (List KeyValue)
  pub secrets : Option (List SecretInput)
  pub config_files : Option (List ServiceConfigFile)

abbrev pub flat_map {ℓ} : {A : Type ℓ} → (A → List Units) → List A → List Units
flat_map f [] = []
flat_map f (x ∷ xs) = f x ++ flat_map f xs

abbrev pub flat_in {ℓ} : {A : Type ℓ} → (A → List Units) → Option (List A) → List Units
flat_in f none = []
flat_in f (some xs) = flat_map f xs

-- The first element that throws ends the walk.
abbrev pub then_cons : {A : Type 0} → Call A → Call (List A) → Call (List A)
then_cons (returned x) (returned xs) = returned (x ∷ xs)
then_cons (returned x) (thrown e) = thrown e
then_cons (thrown e) rest = thrown e

abbrev pub map_call : {A : Type 0} → (A → Call A) → List A → Call (List A)
map_call f [] = returned []
map_call f (x ∷ xs) = then_cons (f x) (map_call f xs)

abbrev pub on_returned : {A B : Type 0} → (A → B) → Call A → Call B
on_returned f (returned x) = returned (f x)
on_returned f (thrown e) = thrown e

abbrev pub map_in : {A : Type 0} → (A → Call A) → Option (List A) → Call (Option (List A))
map_in f none = returned none
map_in f (some xs) = on_returned some (map_call f xs)

abbrev pub assembled :
    ServiceConfig
    → Call (List KeyValue)
    → Call (Option (List KeyValue))
    → Call (Option (List ServiceConfigFile))
    → Resolution
assembled config (thrown e) secrets files = unresolved e
assembled config (returned env) (thrown e) files = unresolved e
assembled config (returned env) (returned secrets) (thrown e) = unresolved e
assembled config (returned env) (returned secrets) (returned files) =
    resolved (record config { env = env; secrets = secrets; config_files = files })

module _ (texts : ConfigTexts) where
  abbrev pub entry_place : String → Units
  entry_place key = units "env " ++ texts.of_text key

  abbrev pub secret_place : String → Units
  secret_place key = units "secret " ++ texts.of_text key

  abbrev pub file_place : String → Units
  file_place path = units "config file " ++ texts.of_text path

  module _ (has : Units → Bool) where
    abbrev pub issues_at : Units → String → List Units
    issues_at place text =
        map (λ issue. place ++ (units ": " ++ issue)) (invalid_references (texts.of_text text) has)

    abbrev pub secret_issues : SecretInput → List Units
    secret_issues s = elim s.value [ none ↦ [] | some text ↦ issues_at (secret_place s.key) text ]

    unfoldable pub reference_issues : ReferenceInput → List Units
    reference_issues input =
        flat_in (λ e. issues_at (entry_place e.key) e.value) input.env
        ++ (flat_in secret_issues input.secrets
            ++ flat_in (λ c. issues_at (file_place c.path) c.content) input.config_files)

  module _ (lower : Units → Units) (ctx : DefaultDomainContext)
      (targets : List ReferenceTarget) where
    abbrev pub as_call : Addresses.Resolution → Call String
    as_call (value v) = returned (texts.to_text v)
    as_call (error e) = thrown (texts.to_text e)

    abbrev pub resolve_value : Units → String → Call String
    resolve_value place text = as_call (resolve_text lower ctx targets place (texts.of_text text))

    abbrev pub encrypted : String → String → String → String
    encrypted cipher text next = if str_eq next text then cipher else texts.encrypt next

    abbrev pub resolve_cipher : Units → String → Call String
    resolve_cipher place cipher =
        let text = texts.decrypt cipher in
        on_returned (encrypted cipher text) (resolve_value place text)

    abbrev pub resolve_entry : KeyValue → Call KeyValue
    resolve_entry e =
        on_returned (λ v. record e { value = v }) (resolve_value (entry_place e.key) e.value)

    abbrev pub resolve_secret : KeyValue → Call KeyValue
    resolve_secret s =
        on_returned (λ v. record s { value = v }) (resolve_cipher (secret_place s.key) s.value)

    abbrev pub resolve_file : ServiceConfigFile → Call ServiceConfigFile
    resolve_file c =
        on_returned (λ v. record c { content = v }) (resolve_cipher (file_place c.path) c.content)

    -- `resolveDeployment`, with the resolver of an environment.
    unfoldable pub resolve_deployment : ServiceConfig → Resolution
    resolve_deployment config =
        assembled config (map_call resolve_entry config.env) (map_in resolve_secret config.secrets)
          (map_in resolve_file config.config_files)

  -- What a request would have given that stores this configuration.
  abbrev pub plain_secret : KeyValue → SecretInput
  plain_secret s = record { key = s.key; value = some (texts.decrypt s.value) }

  abbrev pub plain_file : ServiceConfigFile → ServiceConfigFile
  plain_file c = record c { content = texts.decrypt c.content }

  abbrev pub plain_input : ServiceConfig → ReferenceInput
  plain_input config = record {
    env = some config.env;
    secrets = Option.map (map plain_secret) config.secrets;
    config_files = Option.map (map plain_file) config.config_files;
  }
