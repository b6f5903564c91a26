-- ===== src/References/Agreement.antt =====
-- The check of a configuration's references agrees with their resolution.
use kubwave.Common.{
  ◌≡◌, ◌∙◌, ◌↔◌, refl, ap, String, Option, none, some, List, [], ◌∷◌, ◌++◌, map, All,
}
use mathlib.Core.Option
use kubwave.Common.Units.{Units, units}
use kubwave.Store.{ServiceConfig, KeyValue, ServiceConfigFile}
use kubwave.Deployments.Cancel.{Call, returned, thrown, Resolution, resolved, unresolved, crashed}
use kubwave.References.Tokens.{invalid_references}
use kubwave.References.Addresses
use kubwave.References.Addresses.{ReferenceTarget, DefaultDomainContext, value, error, resolve_text}
use kubwave.References.Checked.{has_name, IsReachable, IsValue, invalid_references-resolve_text}
use kubwave.References.Configs.{ConfigTexts}
use kubwave.References.Deployed.{
  flat_map, flat_in, then_cons, map_call, on_returned, map_in, entry_place, secret_place,
  file_place, issues_at, secret_issues, reference_issues, as_call, resolve_value, resolve_cipher,
  resolve_entry, resolve_secret, resolve_file, assembled, resolve_deployment, plain_secret,
  plain_file, plain_input,
}

abbrev pub IsReturned : {A : Type 0} → Call A → Type 0
IsReturned (returned x) = Unit
IsReturned (thrown e) = ⊥

abbrev pub IsResolved : Resolution → Type 0
IsResolved (resolved config) = Unit
IsResolved (unresolved e) = ⊥
IsResolved (crashed e) = ⊥

-- Texts have no issue just where a call returns.
abbrev Agree : {A : Type 0} → List Units → Call A → Type 0
Agree issues call = (issues ≡ []) ↔ IsReturned call

on_returned-Agree :
    {A B : Type 0} (f : A → B) (issues : List Units) (c : Call A)
    → Agree issues c
    → Agree issues (on_returned f c)
on_returned-Agree f issues (returned x) h = h
on_returned-Agree f issues (thrown e) h = h

none_in : (xs ys : List Units) → xs ++ ys ≡ [] → (xs ≡ []) × (ys ≡ [])
none_in [] ys e = (refl, e)
none_in (x ∷ xs) ys e = absurd (cc)

cons-Agree :
    {A : Type 0} (xs ys : List Units) (c : Call A) (rest : Call (List A))
    → Agree xs c
    → Agree ys rest
    → Agree (xs ++ ys) (then_cons c rest)
cons-Agree xs ys (returned x) (returned r) h k = (λ e. tt, λ u. ap (λ l. l ++ ys) (h.1 tt) ∙ k.1 tt)
cons-Agree xs ys (returned x) (thrown m) h k = (λ e. k.0 (none_in xs ys e).1, λ u. absurd u)
cons-Agree xs ys (thrown m) rest h k = (λ e. h.0 (none_in xs ys e).0, λ u. absurd u)

map-Agree :
    {A : Type 0} (f : A → Call A) (g : A → List Units)
    → ((x : A) → Agree (g x) (f x))
    → (xs : List A) → Agree (flat_map g xs) (map_call f xs)
map-Agree f g h [] = (λ e. tt, λ u. refl)
map-Agree f g h (x ∷ xs) =
    cons-Agree (g x) (flat_map g xs) (f x) (map_call f xs) (h x) (map-Agree f g h xs)

flat_map-map :
    {A B : Type 0} (g : B → List Units) (k : A → B) (xs : List A)
    → flat_map g (map k xs) ≡ flat_map (λ x. g (k x)) xs
flat_map-map g k [] = refl
flat_map-map g k (x ∷ xs) = ap (λ l. g (k x) ++ l) (flat_map-map g k xs)

in-Agree :
    {A B : Type 0} (f : A → Call A) (g : B → List Units) (k : A → B)
    → ((x : A) → Agree (g (k x)) (f x))
    → (o : Option (List A)) → Agree (flat_in g (Option.map (map k) o)) (map_in f o)
in-Agree f g k h none = (λ e. tt, λ u. refl)
in-Agree f g k h (some xs) = rw (flat_map-map g k xs) (
    on_returned-Agree some (flat_map (λ x. g (k x)) xs) (map_call f xs)
      (map-Agree f (λ x. g (k x)) h xs))

assembled-Agree :
    (config : ServiceConfig) (xs ys zs : List Units) (env : Call (List KeyValue))
    (secrets : Call (Option (List KeyValue))) (files : Call (Option (List ServiceConfigFile)))
    → Agree xs env
    → Agree ys secrets
    → Agree zs files
    → (xs ++ (ys ++ zs) ≡ []) ↔ IsResolved (assembled config env secrets files)
assembled-Agree config xs ys zs (returned e) (returned s) (returned f) h k l =
    (λ q. tt, λ u. ap (λ x. x ++ (ys ++ zs)) (h.1 tt) ∙ ap (λ y. y ++ zs) (k.1 tt) ∙ l.1 tt)
assembled-Agree config xs ys zs (thrown m) s f h k l =
    (λ q. h.0 (none_in xs (ys ++ zs) q).0, λ u. absurd u)
assembled-Agree config xs ys zs (returned e) (thrown m) f h k l =
    (λ q. k.0 (none_in ys zs (none_in xs (ys ++ zs) q).1).0, λ u. absurd u)
assembled-Agree config xs ys zs (returned e) (returned s) (thrown m) h k l =
    (λ q. l.0 (none_in ys zs (none_in xs (ys ++ zs) q).1).1, λ u. absurd u)

labelled : (f : Units → Units) (issues : List Units) → (map f issues ≡ []) ↔ (issues ≡ [])
labelled f [] = (λ e. e, λ e. e)
labelled f (i ∷ is) = (λ e. absurd (cc), λ e. absurd (cc))

module _ (texts : ConfigTexts) (lower : Units → Units) (ctx : DefaultDomainContext)
    (targets : List ReferenceTarget) (r : All (IsReachable lower ctx) targets) where
  value-Agree :
      (place : Units) (text : String)
      → Agree
          (issues_at texts (has_name targets) place text)
          (resolve_value texts lower ctx targets place text)
  value-Agree place text =
      let (to, from) =
        invalid_references-resolve_text lower ctx targets place (texts.of_text text) r in
      let (out, back) =
        labelled (λ issue. place ++ (units ": " ++ issue))
          (invalid_references (texts.of_text text) (has_name targets)) in
      let (there, here) = called (resolve_text lower ctx targets place (texts.of_text text)) in
      (λ e. there (to (out e)), λ u. back (from (here u)))
    where
      called :
          (a : Addresses.Resolution) → IsValue a ↔ IsReturned (as_call texts lower ctx targets a)
      called (value v) = (λ u. u, λ u. u)
      called (error e) = (λ u. u, λ u. u)

  cipher-Agree :
      (place : Units) (cipher : String)
      → Agree
          (issues_at texts (has_name targets) place (texts.decrypt cipher))
          (resolve_cipher texts lower ctx targets place cipher)
  cipher-Agree place cipher =
      on_returned-Agree _ _ (resolve_value texts lower ctx targets place (texts.decrypt cipher))
        (value-Agree place (texts.decrypt cipher))

-- Where each service of the environment has a container port and a public domain, and each cipher can
-- be read, a configuration resolves for its deployment just where the check at its writing, of the
-- plain values, has no issue with it.
pub reference_issues-resolve_deployment :
    (texts : ConfigTexts) (lower : Units → Units) (ctx : DefaultDomainContext)
    (targets : List ReferenceTarget) (config : ServiceConfig)
    → All (IsReachable lower ctx) targets
    → (reference_issues texts (has_name targets) (plain_input texts config) ≡ [])
      ↔ IsResolved (resolve_deployment texts lower ctx targets config)
unfolding reference_issues resolve_deployment
reference_issues-resolve_deployment texts lower ctx targets config r =
    assembled-Agree config _ _ _ (map_call (resolve_entry texts lower ctx targets) config.env)
      (map_in (resolve_secret texts lower ctx targets) config.secrets)
      (map_in (resolve_file texts lower ctx targets) config.config_files)
      (map-Agree (resolve_entry texts lower ctx targets)
        (λ e. issues_at texts (has_name targets) (entry_place texts e.key) e.value)
        (λ e.
          on_returned-Agree _ _ _
            (value-Agree texts lower ctx targets r (entry_place texts e.key) e.value))
        config.env)
      (in-Agree (resolve_secret texts lower ctx targets) (secret_issues texts (has_name targets))
        (plain_secret texts)
        (λ s.
          on_returned-Agree _ _ _
            (cipher-Agree texts lower ctx targets r (secret_place texts s.key) s.value))
        config.secrets)
      (in-Agree (resolve_file texts lower ctx targets)
        (λ c. issues_at texts (has_name targets) (file_place texts c.path) c.content)
        (plain_file texts)
        (λ c.
          on_returned-Agree _ _ _
            (cipher-Agree texts lower ctx targets r (file_place texts c.path) c.content))
        config.config_files)
