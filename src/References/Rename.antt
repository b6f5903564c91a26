-- ===== src/References/Rename.antt =====
-- Renaming a service in the texts that refer to it, and reading them afterwards.
use kubwave.Common.{
  ℕ, ◌≡◌, ◌∙◌, refl, sym, ap, Bool, true, Option, none, some, List, [], ◌∷◌, ◌++◌, inl, inr, arith,
  if◌then◌else◌, not, ◌&&◌, ◌==◌, map, all, All, All-append, All-of_all, Bool-cases,
}
use mathlib.Core.List.{append_assoc}
use kubwave.Common.Units.{Units, units, same_units}
use kubwave.References.Tokens.{
  closing, dot, is_line_end, Segment, kept, matched, segments, ServiceReference, split_last,
  parse_reference, map_references, map_segments, replaced, write_reference, renamed,
  rename_references,
}
use kubwave.References.Written.{
  Token, write_token, Body, write, cut, IsInner, ends_dark, IsToken, IsLiteral, IsBody,
  segments-write,
}
use kubwave.References.Parsed.{IsProperty, split_last-append, foreign, referring, reading}

-- The token of a reference that is written anew.
abbrev new_expr : Units → Units → Units
new_expr to prop = units "services." ++ (to ++ dot ∷ prop)

abbrev new_token : Units → Units → Token
new_token to prop = record { before = []; expr = new_expr to prop; after = [] }

abbrev renamed_token : Units → Units → Token → Option ServiceReference → Token
renamed_token from to t none = t
renamed_token from to t (some ref) = if same_units ref.name from then new_token to ref.prop else t

abbrev rename_body : Units → Units → Body → Body
rename_body from to [] = []
rename_body from to ((t, next) ∷ body) =
    (renamed_token from to t (parse_reference t.expr), next) ∷ rename_body from to body

written_new : (to prop : Units) → write_token (new_token to prop) ≡ write_reference to prop
written_new to prop = ap (λ s. units "${{services." ++ s) (append_assoc to (dot ∷ prop) closing)

parsed_new :
    (to prop : Units)
    → split_last dot prop ≡ none
    → parse_reference (new_expr to prop) ≡ some (record { name = to; prop = prop })
unfolding parse_reference
parsed_new to prop n = rw (split_last-append dot to prop n) refl

ends-dot : (prop : Units) → ends_dark prop ≡ true → ends_dark (dot ∷ prop) ≡ true
ends-dot [] h = refl
ends-dot (c ∷ prop) h = h

ends-append :
    (b : Units) (c : ℕ) (a : Units) → ends_dark (c ∷ a) ≡ true → ends_dark (b ++ c ∷ a) ≡ true
ends-append [] c a h = h
ends-append (x ∷ []) c a h = h
ends-append (x ∷ y ∷ b) c a h = ends-append (y ∷ b) c a h

abbrev pub is_inner : ℕ → Bool
is_inner c = not (is_line_end c) && not (125 == c)

pub is_inner-IsInner : (s : Units) → all is_inner s ≡ true → All IsInner s
is_inner-IsInner = All-of_all IsInner is_inner (λ c h. (ground (arith, h), ground (arith, h)))

new_token-IsToken :
    (to prop : Units) → All IsInner to → IsProperty prop → IsToken (new_token to prop)
new_token-IsToken to prop h p = record {
  before = tt;
  expr = record {
    inner =
        All-append IsInner (units "services.") (to ++ dot ∷ prop)
          (is_inner-IsInner (units "services.") refl)
          (All-append IsInner to (dot ∷ prop) h ((refl, refl), p.tail.inner));
    starts = refl;
    ends = ends-append (115 ∷ to) dot prop (ends-dot prop p.tail.ends);
  };
  after = tt;
}

renamed_token-IsToken :
    (from to : Units) (t : Token)
    → All IsInner to
    → IsToken t
    → IsToken (renamed_token from to t (parse_reference t.expr))
renamed_token-IsToken from to t h k = elim (reading t.expr k.expr) [
  | foreign e ↦ rw e k
  | referring ref e p ↦ elim (Bool-cases (same_units ref.name from)) [
    | inl same ↦ rw (e, same) (new_token-IsToken to ref.prop h p)
    | inr other ↦ rw (e, other) k
  ]
]

rename_body-IsBody :
    (from to : Units) (body : Body)
    → All IsInner to
    → IsBody body
    → IsBody (rename_body from to body)
rename_body-IsBody from to [] h hb = tt
rename_body-IsBody from to ((t, next) ∷ body) h ((ht, hn), hb) =
    ((renamed_token-IsToken from to t h ht, hn), rename_body-IsBody from to body h hb)

written_renamed :
    (from to : Units) (t : Token) (o : Option ServiceReference)
    → replaced (renamed from to) o (write_token t) ≡ write_token (renamed_token from to t o)
written_renamed from to t none = refl
written_renamed from to t (some ref) = elim (Bool-cases (same_units ref.name from)) [
  | inl same ↦ rw same (sym (written_new to ref.prop))
  | inr other ↦ rw other refl
]

module _ (f : ServiceReference → Units → Units) where
  -- What `f` gives for a reference after the renaming.
  abbrev pub after_rename : Units → Units → ServiceReference → Units → Units
  after_rename from to ref token =
      if same_units ref.name from
      then f (record { name = to; prop = ref.prop }) (write_reference to ref.prop)
      else f ref token

  map_segments-kept :
      (s : Units) (ms : List Segment) → map_segments f (map kept s ++ ms) ≡ s ++ map_segments f ms
  map_segments-kept [] ms = refl
  map_segments-kept (c ∷ s) ms = ap (λ t. c ∷ t) (map_segments-kept s ms)

  map_segments-end : (s : Units) → map_segments f (map kept s) ≡ s
  map_segments-end [] = refl
  map_segments-end (c ∷ s) = ap (λ t. c ∷ t) (map_segments-end s)

  -- Through the literal text that comes first.
  map_segments-cut :
      (literal : Units) (t : Token) (next : Units) (body : Body)
      → map_segments f (cut literal ((t, next) ∷ body))
        ≡ literal
          ++ (replaced f (parse_reference t.expr) (write_token t) ++ map_segments f (cut next body))
  map_segments-cut literal t next body =
      map_segments-kept literal (matched t.expr (write_token t) ∷ cut next body)

module _ (f : ServiceReference → Units → Units) (from to : Units) where
  replaced_after :
      (t : Token)
      → IsToken t
      → replaced f
          (parse_reference (renamed_token from to t (parse_reference t.expr)).expr)
          (write_token (renamed_token from to t (parse_reference t.expr)))
        ≡ replaced (after_rename f from to) (parse_reference t.expr) (write_token t)
  replaced_after t h = elim (reading t.expr h.expr) [
    | foreign e ↦ rw (e, e) refl
    | referring ref e p ↦ elim (Bool-cases (same_units ref.name from)) [
      | inl same ↦
          rw (e, same, parsed_new to ref.prop p.no_dot)
            (ap (f (record { name = to; prop = ref.prop })) (written_new to ref.prop))
      | inr other ↦ rw (e, other, e) refl
    ]
  ]

  rename_then_map :
      (literal : Units) (body : Body)
      → IsBody body
      → map_segments f (cut literal (rename_body from to body))
        ≡ map_segments (after_rename f from to) (cut literal body)
  rename_then_map literal [] h =
      map_segments-end f literal ∙ sym (map_segments-end (after_rename f from to) literal)
  rename_then_map literal ((t, next) ∷ body) ((ht, hn), h) =
      map_segments-cut f literal (renamed_token from to t (parse_reference t.expr)) next
        (rename_body from to body)
      ∙ ap (λ s. literal ++ s)
          (ap (λ s. s ++ map_segments f (cut next (rename_body from to body))) (replaced_after t ht)
            ∙ ap
                (λ s.
                  replaced (after_rename f from to) (parse_reference t.expr) (write_token t) ++ s)
                (rename_then_map next body h))
      ∙ sym (map_segments-cut (after_rename f from to) literal t next body)

renamed_body :
    (from to literal : Units) (body : Body)
    → map_segments (renamed from to) (cut literal body) ≡ write literal (rename_body from to body)
renamed_body from to literal [] = map_segments-end (renamed from to) literal
renamed_body from to literal ((t, next) ∷ body) =
    map_segments-cut (renamed from to) literal t next body
    ∙ ap (λ s. literal ++ s)
        (ap (λ s. s ++ map_segments (renamed from to) (cut next body))
            (written_renamed from to t (parse_reference t.expr))
          ∙ ap (λ s. write_token (renamed_token from to t (parse_reference t.expr)) ++ s)
              (renamed_body from to next body))

-- A service is renamed in a text that a writer has made of literal text and of tokens, where literal
-- text opens no token, and a token's inner text has no line end, no closing brace and no white space
-- at its ends; the new name has no line end and no closing brace. Then the text that the renaming
-- gives reads as the old one does, with each reference to the old name taken for one to the new name.
pub rename_references-map_references :
    (f : ServiceReference → Units → Units) (from to literal : Units) (body : Body)
    → All IsInner to
    → IsLiteral literal
    → IsBody body
    → map_references f (rename_references (write literal body) from to)
      ≡ map_references (after_rename f from to) (write literal body)
unfolding map_references rename_references
rename_references-map_references f from to literal body ht hl hb =
    let new = rename_body from to body in
    ap (λ s. map_segments f (segments s))
      (ap (map_segments (renamed from to)) (segments-write literal body hl hb)
        ∙ renamed_body from to literal body)
    ∙ ap (map_segments f) (segments-write literal new hl (rename_body-IsBody from to body ht hb))
    ∙ rename_then_map f from to literal body hb
    ∙ sym (ap (map_segments (after_rename f from to)) (segments-write literal body hl hb))
