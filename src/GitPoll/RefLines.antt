-- ===== src/GitPoll/RefLines.antt =====
-- One line of what git prints of the refs of a repository, and its reading.
use kubwave.Common.{
  ℕ, ◌-◌, ◌≡◌, ◌∙◌, refl, sym, ap, ◌⊎◌, inl, inr, Bool, true, false, ◌&&◌, List, [], ◌∷◌, ◌++◌,
  ◌==◌, ==_refl, arith, leb, if◌then◌else◌, length, all, map, All, All-append, All-map, Bool-cases,
  length-append,
}
use mathlib.Core.List.{append_assoc}
use kubwave.Common.Units.{
  Units, units, is_blank, is_space, strip_start, strip_end, trim, split, same_units, drop,
  ends_with,
}
use kubwave.GitPoll.LsRemote.{
  is_hex_digit, lower_hex, Refs, set_ref, parse_parts, parse_line, newline, tab,
}

-- One line of the output; a peeled line names the commit of an annotated tag.
pub record Advertised : Type 0 where
  pub sha : Units
  pub ref : Units
  pub is_peeled : Bool

abbrev pub shown_ref : Advertised → Units
shown_ref a = if a.is_peeled then a.ref ++ units "^{}" else a.ref

abbrev pub line_of : Advertised → Units
line_of a = a.sha ++ tab ∷ shown_ref a

abbrev pub print_refs : List Advertised → Units
print_refs [] = []
print_refs (a ∷ rest) = line_of a ++ newline ∷ print_refs rest

-- The refs that are not peeled, each with its hash.
abbrev pub refs_of : List Advertised → Refs
refs_of [] = []
refs_of (a ∷ rest) = if a.is_peeled then refs_of rest else (a.ref, a.sha) ∷ refs_of rest

abbrev pub IsNoSpace : ℕ → Type 0
IsNoSpace c = is_space c ≡ false

abbrev pub IsLowerHex : ℕ → Type 0
IsLowerHex c = (is_hex_digit c ≡ true) × (lower_hex c ≡ c)

-- What git prints: a hash of 40 lower-case hexadecimal digits, and a ref with no white space that
-- does not itself end in `^{}`.
pub record IsAdvertised (a : Advertised) : Type 0 where
  pub sha_length : length a.sha ≡ 40
  pub sha_digits : All IsLowerHex a.sha
  pub ref_units : All IsNoSpace a.ref
  pub ref_given : is_blank a.ref ≡ false
  pub ref_plain : ends_with a.ref (units "^{}") ≡ false

-- No ref is named twice.
abbrev pub HasDistinctRefs : Refs → Type 0
HasDistinctRefs [] = Unit
HasDistinctRefs ((k, v) ∷ m) = All (λ r. same_units k r.0 ≡ false) m × HasDistinctRefs m

pub split-line :
    (sep : ℕ) (line rest : Units)
    → All (λ c. (c == sep) ≡ false) line
    → split sep (line ++ sep ∷ rest) ≡ line ∷ split sep rest
split-line sep [] rest h = rw (==_refl sep) refl
split-line sep (c ∷ line) rest (e, h) = rw (e, split-line sep line rest h) refl

pub split-last :
    (sep : ℕ) (line : Units) → All (λ c. (c == sep) ≡ false) line → split sep line ≡ line ∷ []
split-last sep [] h = refl
split-last sep (c ∷ line) (e, h) = rw (e, split-last sep line h) refl

pub kept_end : (s : Units) → All IsNoSpace s → strip_end is_space s ≡ s
kept_end [] h = refl
kept_end (c ∷ s) (e, h) = rw (e, kept_end s h) refl

pub kept_end-append :
    (s t : Units) → All IsNoSpace t → is_blank t ≡ false → strip_end is_space (s ++ t) ≡ s ++ t
kept_end-append [] t h given = kept_end t h
kept_end-append (c ∷ s) t h given =
    rw (kept_end-append s t h given) (kept c (s ++ t) (not_blank s t given))
  where
    not_blank : (s t : Units) → is_blank t ≡ false → is_blank (s ++ t) ≡ false
    not_blank [] t g = g
    not_blank (c ∷ s) t g = refl

    kept :
        (c : ℕ) (u : Units)
        → is_blank u ≡ false
        → (if is_space c && is_blank u then [] else c ∷ u) ≡ c ∷ u
    kept c u g = elim (Bool-cases (is_space c)) [ inl e ↦ rw (e, g) refl | inr e ↦ rw e refl ]

pub same_units_refl : (s : Units) → same_units s s ≡ true
same_units_refl [] = refl
same_units_refl (c ∷ s) = rw (==_refl c, same_units_refl s) refl

pub drop-append : (s t : Units) → drop (length s) (s ++ t) ≡ t
drop-append [] t = refl
drop-append (c ∷ s) t = drop-append s t

pub ends_with-append : (s w : Units) → ends_with (s ++ w) w ≡ true
ends_with-append s w =
    let n : length (s ++ w) - length w ≡ length s = omega (arith, length-append s w) in
    let le : leb (length w) (length (s ++ w)) ≡ true = ground (arith, length-append s w) in
    rw (le, n, drop-append s w, same_units_refl w) refl

pub shown_units : (a : Advertised) → IsAdvertised a → All IsNoSpace (shown_ref a)
shown_units a w = elim (Bool-cases a.is_peeled) [
  | inl e ↦ rw e (All-append IsNoSpace a.ref (units "^{}") w.ref_units (refl, (refl, (refl, tt))))
  | inr e ↦ rw e w.ref_units
]

pub append-not_blank : (s t : Units) → is_blank s ≡ false → is_blank (s ++ t) ≡ false
append-not_blank [] t g = absurd (cc)
append-not_blank (c ∷ s) t g = refl

pub shown_given : (a : Advertised) → IsAdvertised a → is_blank (shown_ref a) ≡ false
shown_given a w = elim (Bool-cases a.is_peeled) [
  | inl e ↦ rw e (append-not_blank a.ref (units "^{}") w.ref_given)
  | inr e ↦ rw e w.ref_given
]

pub hex-ne :
    (sep : ℕ) (s : Units)
    → (sep ≡ tab) ⊎ (sep ≡ newline)
    → All IsLowerHex s
    → All (λ c. (c == sep) ≡ false) s
hex-ne sep s (inl e) h =
    All-map IsLowerHex (λ c. (c == sep) ≡ false) s (λ c k. ground (arith, k.0)) h
hex-ne sep s (inr e) h =
    All-map IsLowerHex (λ c. (c == sep) ≡ false) s (λ c k. ground (arith, k.0)) h

pub space-ne :
    (sep : ℕ) (s : Units)
    → (sep ≡ tab) ⊎ (sep ≡ newline)
    → All IsNoSpace s
    → All (λ c. (c == sep) ≡ false) s
space-ne sep s (inl e) h =
    All-map IsNoSpace (λ c. (c == sep) ≡ false) s (λ c k. ground (arith, k)) h
space-ne sep s (inr e) h =
    All-map IsNoSpace (λ c. (c == sep) ≡ false) s (λ c k. ground (arith, k)) h

pub line-no_newline :
    (a : Advertised) → IsAdvertised a → All (λ c. (c == newline) ≡ false) (line_of a)
line-no_newline a w =
    All-append (λ c. (c == newline) ≡ false) a.sha (tab ∷ shown_ref a)
      (hex-ne newline a.sha (inr refl) w.sha_digits)
      (refl, space-ne newline (shown_ref a) (inr refl) (shown_units a w))

pub kept_start :
    (s t : Units) → length s ≡ 40 → All IsLowerHex s → strip_start is_space (s ++ t) ≡ s ++ t
kept_start [] t n h = absurd (omega arith)
kept_start (c ∷ s) t n (k, h) =
    let plain : is_space c ≡ false = ground (arith, k.0) in rw plain refl

pub cons-append : (s t : Units) (c : ℕ) → s ++ c ∷ t ≡ (s ++ c ∷ []) ++ t
cons-append s t c = sym (append_assoc s (c ∷ []) t)

pub trimmed_line : (a : Advertised) → IsAdvertised a → trim (line_of a) ≡ line_of a
unfolding trim
trimmed_line a w =
    ap (strip_end is_space) (kept_start a.sha (tab ∷ shown_ref a) w.sha_length w.sha_digits)
    ∙ rw (cons-append a.sha (shown_ref a) tab)
        (kept_end-append (a.sha ++ tab ∷ []) (shown_ref a) (shown_units a w) (shown_given a w))

pub line-not_blank : (s t : Units) (c : ℕ) → is_blank (s ++ c ∷ t) ≡ false
line-not_blank [] t c = refl
line-not_blank (d ∷ s) t c = refl

pub parts_of_line :
    (a : Advertised) → IsAdvertised a → split tab (line_of a) ≡ a.sha ∷ shown_ref a ∷ []
parts_of_line a w =
    split-line tab a.sha (shown_ref a) (hex-ne tab a.sha (inl refl) w.sha_digits)
    ∙ ap (λ t. a.sha ∷ t)
        (split-last tab (shown_ref a) (space-ne tab (shown_ref a) (inl refl) (shown_units a w)))

pub lowered : (s : Units) → All IsLowerHex s → map lower_hex s ≡ s
lowered [] h = refl
lowered (c ∷ s) (k, h) = rw (k.1, lowered s h) refl

pub all_hex : (s : Units) → All IsLowerHex s → all is_hex_digit s ≡ true
all_hex [] h = refl
all_hex (c ∷ s) (k, h) = rw (k.0, all_hex s h) refl

pub blank-length : (s : Units) → length s ≡ 40 → is_blank s ≡ false
blank-length [] n = absurd (omega arith)
blank-length (c ∷ s) n = refl

pub parsed_parts :
    (m : Refs) (a : Advertised)
    → IsAdvertised a
    → parse_parts m (a.sha ∷ shown_ref a ∷ []) ≡ (if a.is_peeled then m else set_ref a.ref a.sha m)
parsed_parts m a w = elim (Bool-cases a.is_peeled) [
  | inl e ↦
      rw
        (
          e,
          blank-length a.sha w.sha_length,
          append-not_blank a.ref (units "^{}") w.ref_given,
          ends_with-append a.ref (units "^{}"),
        )
        refl
  | inr e ↦
      rw
        (
          e,
          blank-length a.sha w.sha_length,
          w.ref_given,
          w.ref_plain,
          w.sha_length,
          all_hex a.sha w.sha_digits,
          lowered a.sha w.sha_digits,
        )
        refl
]

pub parsed_line :
    (m : Refs) (a : Advertised)
    → IsAdvertised a
    → parse_line m (line_of a) ≡ (if a.is_peeled then m else set_ref a.ref a.sha m)
unfolding parse_line
parsed_line m a w =
    rw (trimmed_line a w, line-not_blank a.sha (shown_ref a) tab, parts_of_line a w)
      (parsed_parts m a w)
