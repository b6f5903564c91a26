-- ===== src/References/Checked.antt =====
-- The check of references when a configuration is written, beside their resolution when it is deployed.
use kubwave.Common.{
  ℕ, ◌≡◌, ◌∙◌, ◌↔◌, refl, sym, ap, subst, Bool, true, false, ◌||◌, Option, none, some, List, [],
  ◌∷◌, ◌++◌, inl, inr, any, All, Bool-cases,
}
use kubwave.Common.Units.{Units, units, is_blank, same_units}
use kubwave.References.Tokens.{
  ServiceReference, Segment, kept, matched, segments, parse_reference, is_reference_prop,
  missing_message, prop_message, callback_issues, issues_of, segment_issues, invalid_references,
}
use kubwave.References.Addresses.{
  ReferenceTarget, DefaultDomainContext, Resolution, value, error, runtime_config_of,
  internal_value, internal_service_name, internal_address, public_host, public_value,
  public_address, resolve_reference, or_later, target_named, prepend, or_throw, then_prepend,
  resolve_token, resolve_segments, resolve_text,
}

-- The names of an environment's services.
abbrev pub has_name : List ReferenceTarget → Units → Bool
has_name targets name = any (λ t. same_units t.name name) targets

pub record IsReachable (lower : Units → Units) (ctx : DefaultDomainContext)
    (target : ReferenceTarget) : Type 0 where
  pub port : ℕ
  pub port_given : (runtime_config_of target).container_port ≡ some port
  pub host : Units
  pub host_given : public_host lower ctx target ≡ some host
  pub host_filled : is_blank host ≡ false

abbrev pub IsValue : Resolution → Type 0
IsValue (value v) = Unit
IsValue (error e) = ⊥

data Found (targets : List ReferenceTarget) (name : Units) : Type 0 where
  missing : target_named targets name ≡ none → has_name targets name ≡ false → Found targets name
  present :
      (t : ReferenceTarget)
      → target_named targets name ≡ some t
      → has_name targets name ≡ true
      → Found targets name

find : (targets : List ReferenceTarget) (name : Units) → Found targets name
find [] name = missing refl refl
find (t ∷ targets) name = elim (find targets name) [
  | missing e n ↦ elim (Bool-cases (same_units t.name name)) [
    | inl same ↦ present t (rw (e, same) refl) (rw same refl)
    | inr other ↦ missing (rw (e, other) refl) (rw (other, n) refl)
  ]
  | present u e h ↦ elim (Bool-cases (same_units t.name name)) [
    | inl same ↦ present u (rw (e) refl) (rw same refl)
    | inr other ↦ present u (rw (e) refl) (rw (other, h) refl)
  ]
]

module _ (P : ReferenceTarget → Type 0) where
  later-All :
      (t u : ReferenceTarget) (same : Bool) (o : Option ReferenceTarget)
      → P t
      → ((v : ReferenceTarget) → o ≡ some v → P v)
      → or_later t same o ≡ some u
      → P u
  later-All t u same (some v) p h e = h u e
  later-All t u true none p h e = subst P (cc) p
  later-All t u false none p h e = absurd (cc)

  named-All :
      (targets : List ReferenceTarget) (name : Units) (t : ReferenceTarget)
      → All P targets
      → target_named targets name ≡ some t
      → P t
  named-All [] name t h e = absurd (cc)
  named-All (u ∷ targets) name t (p, h) e =
      later-All u t (same_units u.name name) (target_named targets name) p
        (λ v. named-All targets name v h) e

-- What the check and the resolution make of one reference.
data Judgement (issues : List Units) (resolution : Resolution) : Type 0 where
  accepted : issues ≡ [] → (v : Units) → resolution ≡ value v → Judgement issues resolution
  refused :
      (issue : Units)
      → issues ≡ issue ∷ []
      → (e : Units) → resolution ≡ error e
      → Judgement issues resolution

public-value :
    (lower : Units → Units) (ctx : DefaultDomainContext) (target : ReferenceTarget) (prop : Units)
    → IsReachable lower ctx target
    → (v : Units) × (public_address lower ctx target prop ≡ value v)
unfolding public_address
public-value lower ctx target prop h =
    (public_value lower ctx prop h.host, rw (h.host_given, h.host_filled) refl)

internal-value :
    (lower : Units → Units) (ctx : DefaultDomainContext) (target : ReferenceTarget) (prop : Units)
    → IsReachable lower ctx target
    → (v : Units) × (internal_address target prop ≡ value v)
unfolding internal_address
internal-value lower ctx target prop h =
    (internal_value prop (internal_service_name target.id) h.port, rw h.port_given refl)

module _ (lower : Units → Units) (ctx : DefaultDomainContext) (targets : List ReferenceTarget) where
  address_outcome :
      (t : ReferenceTarget) (ref : ServiceReference) (token : Units)
      → IsReachable lower ctx t
      → has_name targets ref.name ≡ true
      → Judgement
          (callback_issues (has_name targets) ref token)
          (resolve_reference lower ctx (some t) ref)
  unfolding resolve_reference
  address_outcome t ref token r h = elim (Bool-cases (is_reference_prop ref.prop)) [
    | inl known ↦
        elim (Bool-cases
          (same_units ref.prop (units "domain") || same_units ref.prop (units "url"))) [
            | inl outside ↦
                let (v, e) = public-value lower ctx t ref.prop r in
                accepted (rw (h, known) refl) v (rw (known, outside) e)
            | inr within ↦
                let (v, e) = internal-value lower ctx t ref.prop r in
                accepted (rw (h, known) refl) v (rw (known, within) e)
          ]
    | inr unknown ↦
        refused (token ++ units ": " ++ prop_message ref.prop) (rw (h, unknown) refl)
          (prop_message ref.prop) (rw unknown refl)
  ]

  outcome :
      (ref : ServiceReference) (token : Units)
      → All (IsReachable lower ctx) targets
      → Judgement
          (callback_issues (has_name targets) ref token)
          (resolve_reference lower ctx (target_named targets ref.name) ref)
  unfolding resolve_reference
  outcome ref token r = elim (find targets ref.name) [
    | missing e h ↦
        refused (token ++ units ": " ++ missing_message ref.name) (rw h refl)
          (missing_message ref.name) (rw e refl)
    | present t e h ↦
        rw e
          (address_outcome t ref token (named-All (IsReachable lower ctx) targets ref.name t r e) h)
  ]

  module _ (location : Units) (r : All (IsReachable lower ctx) targets) where
    prepend-IsValue : (s : Units) (rest : Resolution) → IsValue rest → IsValue (prepend s rest)
    prepend-IsValue s (value v) h = tt
    prepend-IsValue s (error e) h = h

    prepend-IsValue_back : (s : Units) (rest : Resolution) → IsValue (prepend s rest) → IsValue rest
    prepend-IsValue_back s (value v) h = tt
    prepend-IsValue_back s (error e) h = h

    token_resolves :
        (o : Option ServiceReference) (token : Units) (rest : List Units) (res : Resolution)
        → (rest ≡ [] → IsValue res)
        → issues_of (has_name targets) o token ++ rest ≡ []
        → IsValue (then_prepend (resolve_token lower ctx targets location token o) res)
    token_resolves none token rest res k e = prepend-IsValue token res (k e)
    token_resolves (some ref) token rest res k e = elim (outcome ref token r) [
      | accepted n v q ↦ rw q (prepend-IsValue v res (k (ap (λ l. l ++ rest) (sym n) ∙ e)))
      | refused issue n m q ↦
          let shown : issue ∷ rest ≡ [] = ap (λ l. l ++ rest) (sym n) ∙ e in absurd (cc)
    ]

    token_accepted :
        (o : Option ServiceReference) (token : Units) (rest : List Units) (res : Resolution)
        → (IsValue res → rest ≡ [])
        → IsValue (then_prepend (resolve_token lower ctx targets location token o) res)
        → issues_of (has_name targets) o token ++ rest ≡ []
    token_accepted none token rest res k h = k (prepend-IsValue_back token res h)
    token_accepted (some ref) token rest res k h = elim (outcome ref token r) [
      | accepted n v q ↦ rw n (
          k (
            prepend-IsValue_back v res
              (subst (λ a. IsValue (then_prepend (or_throw token location a) res)) q h)))
      | refused issue n m q ↦
          absurd (subst (λ a. IsValue (then_prepend (or_throw token location a) res)) q h)
    ]

    accepted_resolves :
        (ms : List Segment)
        → segment_issues (has_name targets) ms ≡ []
        → IsValue (resolve_segments lower ctx targets location ms)
    accepted_resolves [] e = tt
    accepted_resolves (kept c ∷ ms) e =
        prepend-IsValue (c ∷ []) (resolve_segments lower ctx targets location ms)
          (accepted_resolves ms e)
    accepted_resolves (matched expr token ∷ ms) e =
        token_resolves (parse_reference expr) token (segment_issues (has_name targets) ms)
          (resolve_segments lower ctx targets location ms) (accepted_resolves ms) e

    resolved_accepted :
        (ms : List Segment)
        → IsValue (resolve_segments lower ctx targets location ms)
        → segment_issues (has_name targets) ms ≡ []
    resolved_accepted [] h = refl
    resolved_accepted (kept c ∷ ms) h =
        resolved_accepted ms
          (prepend-IsValue_back (c ∷ []) (resolve_segments lower ctx targets location ms) h)
    resolved_accepted (matched expr token ∷ ms) h =
        token_accepted (parse_reference expr) token (segment_issues (has_name targets) ms)
          (resolve_segments lower ctx targets location ms) (resolved_accepted ms) h

-- Where each service of the environment has a container port and a public domain, a text resolves
-- just where the check of references has no issue with it.
pub invalid_references-resolve_text :
    (lower : Units → Units) (ctx : DefaultDomainContext) (targets : List ReferenceTarget)
    (location text : Units)
    → All (IsReachable lower ctx) targets
    → (invalid_references text (has_name targets) ≡ [])
      ↔ IsValue (resolve_text lower ctx targets location text)
unfolding invalid_references resolve_text
invalid_references-resolve_text lower ctx targets location text r = (
  accepted_resolves lower ctx targets location r (segments text),
  resolved_accepted lower ctx targets location r (segments text),
)
