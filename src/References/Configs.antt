-- ===== src/References/Configs.antt =====
-- Renaming a service in the configurations of its environment (mapConfigValues of
-- apps/backend/src/shared/service-references.ts, and the transaction of a rename in
-- apps/backend/src/modules/services/services.service.ts, for a request that gives a new name only).
-- Ciphers, and how a stored text stands for its UTF-16 units, are parameters.
use text.Mathlib.Text.{◌==◌ as str_eq}
use text.Mathlib.TextPositions.{eq_refl}
use kubwave.Common.{
  ℕ, String, ◌≡◌, ◌∙◌, refl, ap, Bool, true, false, not, ◌&&◌, ◌||◌, Option, none, some, List, [],
  ◌∷◌, ◌==◌, inl, inr, arith, if◌then◌else◌, ◌<>◌, map, any, find_where, Bool-cases,
}
use mathlib.Core.Option
use kubwave.Common.Units.{Units}
use kubwave.Store.{ServiceConfig, KeyValue, ServiceConfigFile, Service}
use kubwave.References.Tokens.{rename_references}
use kubwave.References.Verbatim.{mentions, rename_references_unmentioned}

pub record ConfigTexts : Type 0 where
  pub decrypt : String → String
  pub encrypt : String → String
  pub of_text : String → Units
  pub to_text : Units → String

abbrev any_in {ℓ} : {A : Type ℓ} → (A → Bool) → Option (List A) → Bool
any_in p none = false
any_in p (some xs) = any p xs

abbrev file_location : String → String
file_location path = "config file " <> path

module _ (texts : ConfigTexts) where
  -- `f` takes a value and the place that it stands in.
  module _ (f : String → String → String) where
    abbrev pub changes : String → String → Bool
    changes text location = not (str_eq (f text location) text)

    abbrev pub map_ciphertext : String → String → String
    map_ciphertext cipher location =
        let text = texts.decrypt cipher in
        if changes text location then texts.encrypt (f text location) else cipher

    abbrev pub is_changed : ServiceConfig → Bool
    is_changed config =
        any (λ e. changes e.value ("env " <> e.key)) config.env
        || any_in (λ s. changes (texts.decrypt s.value) ("secret " <> s.key)) config.secrets
        || any_in (λ c. changes (texts.decrypt c.content) (file_location c.path))
            config.config_files

    abbrev pub map_entry : KeyValue → KeyValue
    map_entry e = record e { value = f e.value ("env " <> e.key) }

    abbrev pub map_secret : KeyValue → KeyValue
    map_secret s = record s { value = map_ciphertext s.value ("secret " <> s.key) }

    abbrev pub map_file : ServiceConfigFile → ServiceConfigFile
    map_file c = record c { content = map_ciphertext c.content (file_location c.path) }

    abbrev pub next_config : ServiceConfig → ServiceConfig
    next_config config = record config {
      env = map map_entry config.env;
      secrets = Option.map (map map_secret) config.secrets;
      config_files = Option.map (map map_file) config.config_files;
    }

    -- The flag says that the configuration is a new object.
    unfoldable pub map_config_values : ServiceConfig → ServiceConfig × Bool
    map_config_values config =
        if is_changed config then (next_config config, true) else (config, false)

  abbrev pub rename_text : String → String → String → String → String
  rename_text from to text location =
      texts.to_text (rename_references (texts.of_text text) (texts.of_text from) (texts.of_text to))

  unfoldable pub with_renamed_references : String → String → ServiceConfig → ServiceConfig × Bool
  with_renamed_references from to config = map_config_values (rename_text from to) config

  abbrev pub written_config : ℕ → Service → ServiceConfig × Bool → Service
  written_config now svc (config, false) = svc
  written_config now svc (config, true) = record svc { config = config; updated_at = now }

  -- One row of the environment: the service itself, or another.
  abbrev pub rename_row : ℕ → String → String → ℕ → Service → Service
  rename_row own from to now svc =
      if svc.id == own
      then record svc {
        name = to;
        config = (with_renamed_references from to svc.config).0;
        updated_at = now;
      }
      else written_config now svc (with_renamed_references from to svc.config)

  abbrev pub in_environment : ℕ → ℕ → String → String → ℕ → Service → Service
  in_environment environment own from to now svc =
      if svc.environment_id == environment then rename_row own from to now svc else svc

  -- Where the service is no longer in the environment, nothing is written.
  unfoldable pub rename_service : ℕ → ℕ → String → String → ℕ → List Service → Option (List Service)
  rename_service environment own from to now services =
      if any (λ svc. svc.id == own && svc.environment_id == environment) services
      then some (map (in_environment environment own from to now) services)
      else none

  -- No text of the configuration refers to the name.
  pub record IsUnmentioned (from : String) (config : ServiceConfig) : Type 0 where
    pub in_env : any (λ e. mentions (texts.of_text from) (texts.of_text e.value)) config.env ≡ false
    pub in_secrets :
        any_in
          (λ s. mentions (texts.of_text from) (texts.of_text (texts.decrypt s.value)))
          config.secrets
        ≡ false
    pub in_files :
        any_in
          (λ c. mentions (texts.of_text from) (texts.of_text (texts.decrypt c.content)))
          config.config_files
        ≡ false

module _ {ℓ} {A : Type ℓ} (p q : A → Bool) (h : (x : A) → p x ≡ false → q x ≡ false) where
  any_less : (xs : List A) → any p xs ≡ false → any q xs ≡ false
  any_less [] e = refl
  any_less (x ∷ xs) e = rw (h x (ground (arith, e)), any_less xs (ground (arith, e))) refl

  any_in_less : (o : Option (List A)) → any_in p o ≡ false → any_in q o ≡ false
  any_in_less none e = refl
  any_in_less (some xs) e = any_less xs e

module _ {ℓ} {A : Type ℓ} (p : A → Bool) (f : A → A) (h : (x : A) → p (f x) ≡ p x) where
  find_where_fixed :
      (xs : List A) (a : A) → f a ≡ a → find_where p xs ≡ some a → find_where p (map f xs) ≡ some a
  find_where_fixed [] a s e = e
  find_where_fixed (x ∷ xs) a s e = elim (Bool-cases (p x)) [
    | inl k ↦
        let same : x ≡ a = ground (arith, k, e) in
        rw (h x, k) (ap (λ y. some (f y)) same ∙ ap some s)
    | inr k ↦ rw (h x, k) (find_where_fixed xs a s (ground (arith, k, e)))
  ]

module _ (texts : ConfigTexts) (r : (s : String) → texts.to_text (texts.of_text s) ≡ s) where
  unchanged_text :
      (from to text location : String)
      → mentions (texts.of_text from) (texts.of_text text) ≡ false
      → changes texts (rename_text texts from to) text location ≡ false
  unchanged_text from to text location h =
      ap (λ t. not (str_eq t text))
        (ap texts.to_text (
            rename_references_unmentioned (texts.of_text text) (texts.of_text from)
              (texts.of_text to) h)
          ∙ r text)
      ∙ ap not (eq_refl text)

  unchanged_config :
      (from to : String) (config : ServiceConfig)
      → IsUnmentioned texts from config
      → is_changed texts (rename_text texts from to) config ≡ false
  unchanged_config from to config u =
      rw
        (
          any_less (λ e. mentions (texts.of_text from) (texts.of_text e.value))
              (λ e. changes texts (rename_text texts from to) e.value ("env " <> e.key))
              (λ e. unchanged_text from to e.value ("env " <> e.key)) config.env u.in_env,
          any_in_less (λ s. mentions (texts.of_text from) (texts.of_text (texts.decrypt s.value)))
              (λ s.
                changes texts (rename_text texts from to) (texts.decrypt s.value)
                  ("secret " <> s.key))
              (λ s. unchanged_text from to (texts.decrypt s.value) ("secret " <> s.key))
              config.secrets u.in_secrets,
          any_in_less (λ c. mentions (texts.of_text from) (texts.of_text (texts.decrypt c.content)))
              (λ c.
                changes texts (rename_text texts from to) (texts.decrypt c.content)
                  (file_location c.path))
              (λ c. unchanged_text from to (texts.decrypt c.content) (file_location c.path))
              config.config_files u.in_files,
        )
        refl

  unchanged_row :
      (environment own : ℕ) (from to : String) (now : ℕ) (svc : Service)
      → (svc.id == own) ≡ false
      → IsUnmentioned texts from svc.config
      → in_environment texts environment own from to now svc ≡ svc
  unfolding with_renamed_references map_config_values
  unchanged_row environment own from to now svc other u =
      elim (Bool-cases (svc.environment_id == environment)) [
        | inl e ↦ rw (e, other, unchanged_config from to svc.config u) refl
        | inr e ↦ rw e refl
      ]

  kept_id :
      (environment own : ℕ) (from to : String) (now id : ℕ) (svc : Service)
      → ((in_environment texts environment own from to now svc).id == id) ≡ (svc.id == id)
  kept_id environment own from to now id svc =
      elim (Bool-cases (svc.environment_id == environment)) [
        | inl e ↦ elim (Bool-cases (svc.id == own)) [
          | inl k ↦ rw (e, k) refl
          | inr k ↦ rw (e, k) (written_id (with_renamed_references texts from to svc.config))
        ]
        | inr e ↦ rw e refl
      ]
    where
      written_id :
          (w : ServiceConfig × Bool) → ((written_config texts now svc w).id == id) ≡ (svc.id == id)
      written_id (config, false) = refl
      written_id (config, true) = refl

-- A rename of a service that is in its environment is written, and it writes nothing to a row of
-- another service whose texts, read and decrypted, do not refer to the old name: not its time of
-- change, nor a cipher. A text is what its units give back.
pub rename_service_unmentioned :
    (texts : ConfigTexts) (environment own : ℕ) (from to : String) (now : ℕ)
    (services : List Service) (id : ℕ) (svc : Service)
    → ((s : String) → texts.to_text (texts.of_text s) ≡ s)
    → any (λ s. s.id == own && s.environment_id == environment) services ≡ true
    → find_where (λ s. s.id == id) services ≡ some svc
    → (svc.id == own) ≡ false
    → IsUnmentioned texts from svc.config
    → (after : List Service) × (rename_service texts environment own from to now services
        ≡ some after)
      × (find_where (λ s. s.id == id) after ≡ some svc)
unfolding rename_service
rename_service_unmentioned texts environment own from to now services id svc r present f other u = (
  map (in_environment texts environment own from to now) services,
  rw present refl,
  find_where_fixed (λ s. s.id == id) (in_environment texts environment own from to now)
      (kept_id texts r environment own from to now id) services svc
      (unchanged_row texts r environment own from to now svc other u) f,
)
