-- ===== src/References/Written.antt =====
-- Texts as a writer makes them, literal text and tokens in turn, and how the reader of
-- References.Tokens cuts them into segments.
use kubwave.Common.{
  ℕ, ◌-◌, ◌≡◌, ◌∙◌, refl, ap, Bool, true, false, not, none, some, List, [], ◌∷◌, ◌++◌, ◌==◌, inl,
  inr, arith, length, take, map, All, Bool-cases, length-append,
}
use mathlib.Core.List.{append_assoc}
use kubwave.Common.Units.{Units, is_space, strip_start, after_word}
use kubwave.References.Tokens.{
  opening, closing, is_line_end, find_closing, match_token, Segment, kept, matched, segments_past,
  segments,
}

pub record Token : Type 0 where
  pub before : Units
  pub expr : Units
  pub after : Units

abbrev pub inner_text : Token → Units
inner_text t = t.before ++ (t.expr ++ (t.after ++ closing))

abbrev pub write_token : Token → Units
write_token t = opening ++ inner_text t

abbrev pub Body : Type 0
Body = List (Token × Units)

-- A literal text, and then tokens that each have a literal text after them.
abbrev pub write : Units → Body → Units
write literal [] = literal
write literal ((t, next) ∷ body) = literal ++ (write_token t ++ write next body)

abbrev pub cut : Units → Body → List Segment
cut literal [] = map kept literal
cut literal ((t, next) ∷ body) =
    map kept literal ++ (matched t.expr (write_token t) ∷ cut next body)

abbrev pub IsWhite : ℕ → Type 0
IsWhite c = is_space c ≡ true

-- Neither a line end nor a closing brace.
abbrev pub IsInner : ℕ → Type 0
IsInner c = (is_line_end c ≡ false) × ((125 == c) ≡ false)

abbrev pub starts_dark : Units → Bool
starts_dark [] = false
starts_dark (c ∷ s) = not (is_space c)

abbrev pub ends_dark : Units → Bool
ends_dark [] = true
ends_dark (c ∷ []) = not (is_space c)
ends_dark (c ∷ d ∷ s) = ends_dark (d ∷ s)

pub record IsExpr (expr : Units) : Type 0 where
  pub inner : All IsInner expr
  pub starts : starts_dark expr ≡ true
  pub ends : ends_dark expr ≡ true

pub record IsToken (t : Token) : Type 0 where
  pub before : All IsWhite t.before
  pub expr : IsExpr t.expr
  pub after : All IsWhite t.after

-- No token opens in a literal text.
abbrev pub IsLiteral : Units → Type 0
IsLiteral [] = Unit
IsLiteral (c ∷ s) = (after_word opening (c ∷ s) ≡ none) × IsLiteral s

abbrev pub IsBody : Body → Type 0
IsBody [] = Unit
IsBody ((t, next) ∷ body) = (IsToken t × IsLiteral next) × IsBody body

pub strip-white :
    (w s : Units) → All IsWhite w → strip_start is_space (w ++ s) ≡ strip_start is_space s
strip-white [] s h = refl
strip-white (c ∷ w) s (e, h) = rw e (strip-white w s h)

pub closing_found :
    (w rest : Units) → All IsWhite w → find_closing (w ++ (closing ++ rest)) ≡ some ([], rest)
closing_found [] rest h = refl
closing_found (c ∷ w) rest (e, h) = rw (e, strip-white w (closing ++ rest) h) refl

-- White space inside the expression is followed by something that is not the closing.
pub closing_later :
    (c : ℕ) (e s : Units)
    → All IsInner (c ∷ e)
    → ends_dark (c ∷ e) ≡ true
    → after_word closing (strip_start is_space (c ∷ (e ++ s))) ≡ none
closing_later c [] s ((l, b), h) d = elim (Bool-cases (is_space c)) [
  | inl w ↦ absurd (ground (arith, w, d))
  | inr w ↦ rw (w, b) refl
]
closing_later c (x ∷ e) s ((l, b), h) d = elim (Bool-cases (is_space c)) [
  | inl w ↦ rw w (closing_later x e s h d)
  | inr w ↦ rw (w, b) refl
]

pub ends-tail : (c : ℕ) (e : Units) → ends_dark (c ∷ e) ≡ true → ends_dark e ≡ true
ends-tail c [] d = refl
ends-tail c (x ∷ e) d = d

pub expr_found :
    (e w rest : Units)
    → All IsInner e
    → ends_dark e ≡ true
    → All IsWhite w
    → find_closing (e ++ (w ++ (closing ++ rest))) ≡ some (e, rest)
expr_found [] w rest h d hw = closing_found w rest hw
expr_found (c ∷ e) w rest ((l, b), h) d hw =
    rw
      (
        closing_later c e (w ++ (closing ++ rest)) ((l, b), h) d,
        l,
        expr_found e w rest h (ends-tail c e d) hw,
      )
      refl

pub starts-strip : (e s : Units) → starts_dark e ≡ true → strip_start is_space (e ++ s) ≡ e ++ s
starts-strip [] s d = absurd (cc)
starts-strip (c ∷ e) s d = let k : is_space c ≡ false = ground (arith, d) in rw k refl

pub inner_text-append :
    (t : Token) (rest : Units)
    → inner_text t ++ rest ≡ t.before ++ (t.expr ++ (t.after ++ (closing ++ rest)))
inner_text-append t rest =
    append_assoc t.before (t.expr ++ (t.after ++ closing)) rest
    ∙ ap (λ s. t.before ++ s)
        (append_assoc t.expr (t.after ++ closing) rest
          ∙ ap (λ s. t.expr ++ s) (append_assoc t.after closing rest))

pub token_matched :
    (t : Token) (rest : Units)
    → IsToken t
    → match_token (write_token t ++ rest) ≡ some (t.expr, rest)
unfolding match_token
token_matched t rest h =
    rw
      (
        inner_text-append t rest,
        strip-white t.before (t.expr ++ (t.after ++ (closing ++ rest))) h.before,
        starts-strip t.expr (t.after ++ (closing ++ rest)) h.expr.starts,
      )
      (expr_found t.expr t.after rest h.expr.inner h.expr.ends h.after)

pub take-append : (a b : Units) → take (length a) (a ++ b) ≡ a
take-append [] b = refl
take-append (c ∷ a) b = ap (λ s. c ∷ s) (take-append a b)

pub skipped : (a b : Units) → segments_past (length a) (a ++ b) ≡ segments b
skipped [] [] = refl
skipped [] (c ∷ b) = refl
skipped (c ∷ a) b = skipped a b

pub segments-token :
    (t : Token) (rest : Units)
    → IsToken t
    → segments (write_token t ++ rest) ≡ matched t.expr (write_token t) ∷ segments rest
segments-token t rest h =
    let n : length (write_token t ++ rest) - length rest ≡ length (write_token t) =
      omega (arith, length-append (write_token t) rest) in
    let k : length (write_token t) - 1 ≡ length (123 ∷ 123 ∷ inner_text t) = omega arith in
    rw (token_matched t rest h, n, take-append (write_token t) rest, k)
      (ap (λ ms. matched t.expr (write_token t) ∷ ms) (skipped (123 ∷ 123 ∷ inner_text t) rest))

-- A literal text opens no token where another text that begins with `$` follows it.
pub no_opening :
    (c : ℕ) (s t : Units)
    → after_word opening (c ∷ s) ≡ none
    → after_word opening (c ∷ (s ++ 36 ∷ t)) ≡ none
no_opening c [] t h = elim (Bool-cases (36 == c)) [ inl e ↦ rw e refl | inr e ↦ rw e refl ]
no_opening c (d ∷ []) t h = elim (Bool-cases (36 == c)) [
  | inl e ↦ elim (Bool-cases (123 == d)) [ inl k ↦ rw (e, k) refl | inr k ↦ rw (e, k) refl ]
  | inr e ↦ rw e refl
]
no_opening c (d ∷ x ∷ s) t h = elim (Bool-cases (36 == c)) [
  | inl e ↦ elim (Bool-cases (123 == d)) [
    | inl k ↦ elim (Bool-cases (123 == x)) [
      | inl l ↦ absurd (ground (arith, e, k, l, h))
      | inr l ↦ rw (e, k, l) refl
    ]
    | inr k ↦ rw (e, k) refl
  ]
  | inr e ↦ rw e refl
]

pub segments-literal :
    (s t : Units) → IsLiteral s → segments (s ++ 36 ∷ t) ≡ map kept s ++ segments (36 ∷ t)
unfolding match_token
segments-literal [] t h = refl
segments-literal (c ∷ s) t (e, h) =
    rw (no_opening c s t e) (ap (λ ms. kept c ∷ ms) (segments-literal s t h))

pub segments-end : (s : Units) → IsLiteral s → segments s ≡ map kept s
unfolding match_token
segments-end [] h = refl
segments-end (c ∷ s) (e, h) = rw e (ap (λ ms. kept c ∷ ms) (segments-end s h))

pub segments-write :
    (literal : Units) (body : Body)
    → IsLiteral literal
    → IsBody body
    → segments (write literal body) ≡ cut literal body
segments-write literal [] h hb = segments-end literal h
segments-write literal ((t, next) ∷ body) h ((ht, hn), hb) =
    segments-literal literal (123 ∷ 123 ∷ inner_text t ++ write next body) h
    ∙ ap (λ ms. map kept literal ++ ms)
        (segments-token t (write next body) ht
          ∙ ap (λ ms. matched t.expr (write_token t) ∷ ms) (segments-write next body hn hb))
