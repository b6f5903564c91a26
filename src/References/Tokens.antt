-- ===== src/References/Tokens.antt =====
-- The tokens of a text (apps/backend/src/shared/service-references.ts). What `replace` with the regular
-- expression does is read off here: the tokens from left to right, which do not overlap, with the
-- shortest inner text; `.` takes no line end, and white space may be one.
use kubwave.Common.{
  ℕ, zero, suc, ◌-◌, Bool, not, ◌||◌, Option, none, some, List, [], ◌∷◌, ◌++◌, ◌==◌, if◌then◌else◌,
  length, take, any,
}
use mathlib.Core.Option
use kubwave.Common.Units.{Units, units, is_space, strip_start, after_word, same_units}

abbrev pub opening : Units
opening = units "${{"

abbrev pub closing : Units
closing = units "}}"

abbrev pub dot : ℕ
dot = 46

-- What `.` does not take.
abbrev pub is_line_end : ℕ → Bool
is_line_end c = c == 10 || c == 13 || c == 8232 || c == 8233

abbrev pub before_found : ℕ → Option (Units × Units) → Option (Units × Units)
before_found c none = none
before_found c (some (expr, rest)) = some (c ∷ expr, rest)

abbrev pub closing_at : ℕ → Option Units → Option (Units × Units) → Option (Units × Units)
closing_at c (some rest) later = some ([], rest)
closing_at c none later = if is_line_end c then none else before_found c later

-- `(.*?)\s*\}\}`: the inner text, and what follows the token.
abbrev pub find_closing : Units → Option (Units × Units)
find_closing [] = none
find_closing (c ∷ s) =
    closing_at c (after_word closing (strip_start is_space (c ∷ s))) (find_closing s)

abbrev pub inside : Option Units → Option (Units × Units)
inside none = none
inside (some rest) = find_closing (strip_start is_space rest)

-- The token at the beginning of a text.
unfoldable pub match_token : Units → Option (Units × Units)
match_token s = inside (after_word opening s)

-- A unit that is in no token, or a token with its inner text.
pub data Segment : Type 0 where
  kept : ℕ → Segment
  matched : Units → Units → Segment

abbrev pub segment : Units → Option (Units × Units) → Option (Segment × ℕ)
segment s none = none
segment s (some (expr, rest)) =
    some (matched expr (take (length s - length rest) s), length s - length rest)

abbrev pub segment_then : ℕ → Option (Segment × ℕ) → (ℕ → List Segment) → List Segment
segment_then c none past = kept c ∷ past zero
segment_then c (some (m, n)) past = m ∷ past (n - 1)

-- The segments of a text past the next `skip` units.
abbrev pub segments_past : ℕ → Units → List Segment
segments_past skip [] = []
segments_past (suc skip) (c ∷ s) = segments_past skip s
segments_past zero (c ∷ s) =
    segment_then c (segment (c ∷ s) (match_token (c ∷ s))) (λ k. segments_past k s)

abbrev pub segments : Units → List Segment
segments s = segments_past zero s

pub record ServiceReference : Type 0 where
  pub name : Units
  pub prop : Units

abbrev pub split_at : ℕ → ℕ → Units → Option (Units × Units) → Option (Units × Units)
split_at sep c s (some (before, after)) = some (c ∷ before, after)
split_at sep c s none = if c == sep then some ([], s) else none

-- The text around the last place of a unit.
abbrev pub split_last : ℕ → Units → Option (Units × Units)
split_last sep [] = none
split_last sep (c ∷ s) = split_at sep c s (split_last sep s)

abbrev pub named : Units → Option (Units × Units) → ServiceReference
named rest none = record { name = rest; prop = [] }
named rest (some (name, prop)) = record { name = name; prop = prop }

abbrev pub reference_of : Units → ServiceReference
reference_of rest = named rest (split_last dot rest)

unfoldable pub parse_reference : Units → Option ServiceReference
parse_reference expr = Option.map reference_of (after_word (units "services.") expr)

module _ (fn : ServiceReference → Units → Units) where
  abbrev pub replaced : Option ServiceReference → Units → Units
  replaced none token = token
  replaced (some ref) token = fn ref token

  abbrev pub map_segment : Segment → Units
  map_segment (kept c) = c ∷ []
  map_segment (matched expr token) = replaced (parse_reference expr) token

  abbrev pub map_segments : List Segment → Units
  map_segments [] = []
  map_segments (m ∷ ms) = map_segment m ++ map_segments ms

  unfoldable pub map_references : Units → Units
  map_references text = map_segments (segments text)

abbrev pub reference_props : List Units
reference_props =
    units "host" ∷ units "port" ∷ units "internalUrl" ∷ units "domain" ∷ units "url" ∷ []

unfoldable pub is_reference_prop : Units → Bool
is_reference_prop prop = any (λ p. same_units p prop) reference_props

abbrev pub quoted : Units → Units
quoted s = units "\"" ++ s ++ units "\""

abbrev pub missing_message : Units → Units
missing_message name = units "no service named " ++ quoted name ++ units " in this environment"

abbrev pub prop_message : Units → Units
prop_message prop =
    units "unknown property " ++ quoted prop ++ units " (use host, port, internalUrl, domain, url)"

-- What the callback of `invalidReferences` adds for one reference.
abbrev pub callback_issues : (Units → Bool) → ServiceReference → Units → List Units
callback_issues has_name ref token =
    if not (has_name ref.name)
    then (token ++ units ": " ++ missing_message ref.name) ∷ []
    else if not (is_reference_prop ref.prop)
    then (token ++ units ": " ++ prop_message ref.prop) ∷ []
    else []

abbrev pub issues_of : (Units → Bool) → Option ServiceReference → Units → List Units
issues_of has_name none token = []
issues_of has_name (some ref) token = callback_issues has_name ref token

abbrev pub segment_issues : (Units → Bool) → List Segment → List Units
segment_issues has_name [] = []
segment_issues has_name (kept c ∷ ms) = segment_issues has_name ms
segment_issues has_name (matched expr token ∷ ms) =
    issues_of has_name (parse_reference expr) token ++ segment_issues has_name ms

unfoldable pub invalid_references : Units → (Units → Bool) → List Units
invalid_references text has_name = segment_issues has_name (segments text)

abbrev pub write_reference : Units → Units → Units
write_reference name prop =
    opening ++ (units "services." ++ (name ++ (units "." ++ (prop ++ closing))))

abbrev pub renamed : Units → Units → ServiceReference → Units → Units
renamed from to ref token = if same_units ref.name from then write_reference to ref.prop else token

unfoldable pub rename_references : Units → Units → Units → Units
unfolding map_references
rename_references text from to = map_references (renamed from to) text
