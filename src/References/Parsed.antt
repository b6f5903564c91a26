-- ===== src/References/Parsed.antt =====
-- The parts of an expression: where it is split, and what its property can contain.
use kubwave.Common.{
  ℕ, ◌≡◌, ◌∙◌, refl, sym, ap, subst, true, Option, none, some, [], ◌∷◌, ◌++◌, ◌==◌, ==_refl, inl,
  inr, arith, All, Bool-cases,
}
use mathlib.Core.List.{append_assoc}
use mathlib.Core.Option
use kubwave.Common.Units.{Units, units, after_word}
use kubwave.References.Tokens.{
  dot, ServiceReference, split_at, split_last, named, reference_of, parse_reference,
}
use kubwave.References.Written.{IsInner, ends_dark, IsExpr}

-- A split is at the last place of its unit.
abbrev IsSplit : ℕ → Units → Option (Units × Units) → Type 0
IsSplit sep s none = Unit
IsSplit sep s (some (b, a)) = (b ++ sep ∷ a ≡ s) × (split_last sep a ≡ none)

split_at-IsSplit :
    (sep c : ℕ) (s : Units) (o : Option (Units × Units))
    → split_last sep s ≡ o
    → IsSplit sep s o
    → IsSplit sep (c ∷ s) (split_at sep c s o)
split_at-IsSplit sep c s none n h = elim (Bool-cases (c == sep)) [
  | inl e ↦ let same : c ≡ sep = ground (arith, e) in rw e (ap (λ k. k ∷ s) (sym same), n)
  | inr e ↦ rw e tt
]
split_at-IsSplit sep c s (some (b, a)) n (e, h) = (ap (λ r. c ∷ r) e, h)

split_last-IsSplit : (sep : ℕ) (s : Units) → IsSplit sep s (split_last sep s)
split_last-IsSplit sep [] = tt
split_last-IsSplit sep (c ∷ s) =
    split_at-IsSplit sep c s (split_last sep s) refl (split_last-IsSplit sep s)

pub split_last-append :
    (sep : ℕ) (b a : Units) → split_last sep a ≡ none → split_last sep (b ++ sep ∷ a) ≡ some (b, a)
split_last-append sep [] a n = rw (n, ==_refl sep) refl
split_last-append sep (c ∷ b) a n = rw (split_last-append sep b a n) refl

pub after_word-found : (w s r : Units) → after_word w s ≡ some r → w ++ r ≡ s
after_word-found [] s r e = ap (λ o. elim o [ none ↦ [] | some x ↦ x ]) (sym e)
after_word-found (w ∷ ws) [] r e = absurd (cc)
after_word-found (w ∷ ws) (c ∷ s) r e = elim (Bool-cases (w == c)) [
  | inl k ↦
      let same : w ≡ c = ground (arith, k) in
      let later : after_word ws s ≡ some r = ground (arith, k, e) in
      ap (λ x. x ∷ (ws ++ r)) same ∙ ap (λ t. c ∷ t) (after_word-found ws s r later)
  | inr k ↦ absurd (ground (arith, k, e))
]

pub after_word-append : (w s : Units) → after_word w (w ++ s) ≡ some s
after_word-append [] s = refl
after_word-append (c ∷ w) s = rw (==_refl c) (after_word-append w s)

-- What the rest of an expression keeps of the whole.
pub record IsTail (s : Units) : Type 0 where
  pub inner : All IsInner s
  pub ends : ends_dark s ≡ true

dropped-IsTail : (c : ℕ) (s : Units) → IsTail (c ∷ s) → IsTail s
dropped-IsTail c [] h = record { inner = tt; ends = refl }
dropped-IsTail c (d ∷ s) h = record { inner = h.inner.1; ends = h.ends }

suffix-IsTail : (b a : Units) → IsTail (b ++ a) → IsTail a
suffix-IsTail [] a h = h
suffix-IsTail (c ∷ b) a h = suffix-IsTail b a (dropped-IsTail c (b ++ a) h)

-- A property that a reference can have: nothing that would end its token, and no dot.
pub record IsProperty (s : Units) : Type 0 where
  pub tail : IsTail s
  pub no_dot : split_last dot s ≡ none

named-IsProperty :
    (rest : Units) (o : Option (Units × Units))
    → IsTail rest
    → IsSplit dot rest o
    → IsProperty (named rest o).prop
named-IsProperty rest none h k = record { tail = record { inner = tt; ends = refl }; no_dot = refl }
named-IsProperty rest (some (b, a)) h (e, n) = record {
  tail =
      suffix-IsTail (b ++ dot ∷ []) a (subst IsTail (sym e ∙ sym (append_assoc b (dot ∷ []) a)) h);
  no_dot = n;
}

parsed-IsProperty :
    (expr rest : Units)
    → IsExpr expr
    → after_word (units "services.") expr ≡ some rest
    → IsProperty (reference_of rest).prop
parsed-IsProperty expr rest h e =
    let whole : IsTail expr = record { inner = h.inner; ends = h.ends } in
    named-IsProperty rest (split_last dot rest)
      (suffix-IsTail (units "services.") rest
        (subst IsTail (sym (after_word-found (units "services.") expr rest e)) whole))
      (split_last-IsSplit dot rest)

-- What an expression is: something foreign, or a reference whose property can be written again.
pub data Reading (expr : Units) : Type 0 where
  foreign : parse_reference expr ≡ none → Reading expr
  referring :
      (ref : ServiceReference)
      → parse_reference expr ≡ some ref
      → IsProperty ref.prop
      → Reading expr

pub reading : (expr : Units) → IsExpr expr → Reading expr
unfolding parse_reference
reading expr h = go (after_word (units "services.") expr) refl
  where
    go : (o : Option Units) → after_word (units "services.") expr ≡ o → Reading expr
    go none e = foreign (ap (Option.map reference_of) e)
    go (some rest) e =
        referring (reference_of rest) (ap (Option.map reference_of) e)
          (parsed-IsProperty expr rest h e)
