-- ===== src/References/Verbatim.antt =====
-- What the reader of tokens leaves as it is: the segments of a text are the text.
use kubwave.Common.{
  ℕ, zero, suc, ◌≤◌, ◌+◌, ◌-◌, ◌≡◌, ◌∙◌, refl, sym, ap, Bool, false, ◌||◌, Option, none, some, List,
  [], ◌∷◌, ◌++◌, inl, inr, arith, length, take, Bool-cases, length-append,
}
use kubwave.Common.Units.{Units, is_space, strip_start, after_word, drop, same_units}
use kubwave.References.Tokens.{
  opening, closing, is_line_end, before_found, closing_at, find_closing, inside, match_token,
  Segment, kept, matched, segment, segment_then, segments_past, segments, ServiceReference,
  parse_reference, replaced, map_segments, map_references, renamed, rename_references,
}
use kubwave.References.Parsed.{after_word-found}

abbrev segment_text : Segment → Units
segment_text (kept c) = c ∷ []
segment_text (matched expr token) = token

abbrev all_text : List Segment → Units
all_text [] = []
all_text (m ∷ ms) = segment_text m ++ all_text ms

-- What is left after a match.
abbrev LeavesAtMost : ℕ → Option (Units × Units) → Type 0
LeavesAtMost n none = Unit
LeavesAtMost n (some (expr, rest)) = length rest ≤ n

after_word-length : (w s r : Units) → after_word w s ≡ some r → length w + length r ≡ length s
after_word-length w s r e = sym (length-append w r) ∙ ap length (after_word-found w s r e)

strip-length : (s : Units) → length (strip_start is_space s) ≤ length s
strip-length [] = omega arith
strip-length (c ∷ s) = elim (Bool-cases (is_space c)) [
  | inl e ↦ rw e (omega (arith, strip-length s))
  | inr e ↦ rw e (omega arith)
]

before-LeavesAtMost :
    (c n : ℕ) (o : Option (Units × Units))
    → LeavesAtMost n o
    → LeavesAtMost (suc n) (before_found c o)
before-LeavesAtMost c n none h = tt
before-LeavesAtMost c n (some (expr, rest)) h = omega (arith, h)

closing-LeavesAtMost :
    (c n : ℕ) (o : Option Units) (later : Option (Units × Units))
    → ((rest : Units) → o ≡ some rest → length rest ≤ suc n)
    → LeavesAtMost n later
    → LeavesAtMost (suc n) (closing_at c o later)
closing-LeavesAtMost c n (some rest) later f h = f rest refl
closing-LeavesAtMost c n none later f h = elim (Bool-cases (is_line_end c)) [
  | inl e ↦ rw e tt
  | inr e ↦ rw e (before-LeavesAtMost c n later h)
]

find_closing-LeavesAtMost : (s : Units) → LeavesAtMost (length s) (find_closing s)
find_closing-LeavesAtMost [] = tt
find_closing-LeavesAtMost (c ∷ s) =
    closing-LeavesAtMost c (length s) (after_word closing (strip_start is_space (c ∷ s)))
      (find_closing s)
      (λ rest e. omega (
        arith,
        after_word-length closing (strip_start is_space (c ∷ s)) rest e,
        strip-length (c ∷ s),
      ))
      (find_closing-LeavesAtMost s)

weaker : (m n : ℕ) (o : Option (Units × Units)) → m ≤ n → LeavesAtMost m o → LeavesAtMost n o
weaker m n none e h = tt
weaker m n (some (expr, rest)) e h = omega (arith, e, h)

inside-LeavesAtMost :
    (n : ℕ) (o : Option Units)
    → ((rest : Units) → o ≡ some rest → length rest ≤ n)
    → LeavesAtMost n (inside o)
inside-LeavesAtMost n none f = tt
inside-LeavesAtMost n (some rest) f =
    weaker (length (strip_start is_space rest)) n (find_closing (strip_start is_space rest))
      (omega (arith, strip-length rest, f rest refl))
      (find_closing-LeavesAtMost (strip_start is_space rest))

-- A match takes at least one unit.
match_token-LeavesAtMost : (c : ℕ) (s : Units) → LeavesAtMost (length s) (match_token (c ∷ s))
unfolding match_token
match_token-LeavesAtMost c s =
    inside-LeavesAtMost (length s) (after_word opening (c ∷ s))
      (λ rest e. omega (arith, after_word-length opening (c ∷ s) rest e))

take-drop : (n : ℕ) (s : Units) → take n s ++ drop n s ≡ s
take-drop zero s = refl
take-drop (suc n) [] = refl
take-drop (suc n) (c ∷ s) = ap (λ t. c ∷ t) (take-drop n s)

segment_then-text :
    (c : ℕ) (s : Units) (o : Option (Units × Units)) (past : ℕ → List Segment)
    → LeavesAtMost (length s) o
    → ((k : ℕ) → all_text (past k) ≡ drop k s)
    → all_text (segment_then c (segment (c ∷ s) o) past) ≡ c ∷ s
segment_then-text c s none past h f = ap (λ t. c ∷ t) (f zero)
segment_then-text c s (some (expr, rest)) past h f =
    let n : length (c ∷ s) - length rest ≡ suc (length s - length rest) = omega (arith, h) in
    let k : suc (length s - length rest) - 1 ≡ length s - length rest = omega arith in
    rw (n, k, f (length s - length rest)) (ap (λ t. c ∷ t) (take-drop (length s - length rest) s))

segments_past-text : (skip : ℕ) (s : Units) → all_text (segments_past skip s) ≡ drop skip s
segments_past-text zero [] = refl
segments_past-text (suc skip) [] = refl
segments_past-text (suc skip) (c ∷ s) = segments_past-text skip s
segments_past-text zero (c ∷ s) =
    segment_then-text c s (match_token (c ∷ s)) (λ k. segments_past k s)
      (match_token-LeavesAtMost c s) (λ k. segments_past-text k s)

abbrev pub is_to : Units → Option ServiceReference → Bool
is_to name none = false
is_to name (some ref) = same_units ref.name name

abbrev pub mentioned : Units → List Segment → Bool
mentioned name [] = false
mentioned name (kept c ∷ ms) = mentioned name ms
mentioned name (matched expr token ∷ ms) = is_to name (parse_reference expr) || mentioned name ms

-- Whether a text has a reference to a service of this name.
abbrev pub mentions : Units → Units → Bool
mentions name text = mentioned name (segments text)

kept_reference :
    (from to token : Units) (o : Option ServiceReference)
    → is_to from o ≡ false
    → replaced (renamed from to) o token ≡ token
kept_reference from to token none h = refl
kept_reference from to token (some ref) h = rw h refl

kept_segments :
    (from to : Units) (ms : List Segment)
    → mentioned from ms ≡ false
    → map_segments (renamed from to) ms ≡ all_text ms
kept_segments from to [] h = refl
kept_segments from to (kept c ∷ ms) h = ap (λ t. c ∷ t) (kept_segments from to ms h)
kept_segments from to (matched expr token ∷ ms) h =
    ap (λ t. t ++ map_segments (renamed from to) ms)
      (kept_reference from to token (parse_reference expr) (ground (arith, h)))
    ∙ ap (λ t. token ++ t) (kept_segments from to ms (ground (arith, h)))

-- Renaming leaves every text without a reference to the old name as it is, unit by unit.
pub rename_references_unmentioned :
    (text from to : Units) → mentions from text ≡ false → rename_references text from to ≡ text
unfolding rename_references map_references
rename_references_unmentioned text from to h =
    kept_segments from to (segments text) h ∙ segments_past-text zero text
