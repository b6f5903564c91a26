-- ===== src/Common/Units.antt =====
-- Texts as lists of UTF-16 units, which the source's length, slices and regular expressions count.
use Prim.Native.Char.{code}
use kubwave.Common.{
  ℕ, zero, suc, ◌-◌, length, String, Bool, true, false, not, ◌&&◌, ◌||◌, Option, none, some, List,
  [], ◌∷◌, ◌++◌, ◌==◌, leb, if◌then◌else◌,
}

abbrev pub Units : Type 0
Units = List ℕ

-- The units of an ASCII text.
abbrev pub units : String → Units
units String.[] = []
units (String.◌∷◌ c s) = code c ∷ units s

abbrev pub is_blank : Units → Bool
is_blank [] = true
is_blank (c ∷ s) = false

abbrev pub is_space : ℕ → Bool
is_space c =
    leb 9 c && leb c 13
    || c == 32
    || c == 160
    || c == 5760
    || leb 8192 c && leb c 8202
    || leb 8232 c && leb c 8233
    || c == 8239
    || c == 8287
    || c == 12288
    || c == 65279

-- `replace(/[p]+$/, '')`
abbrev pub strip_end : (ℕ → Bool) → Units → Units
strip_end p [] = []
strip_end p (c ∷ s) = let rest = strip_end p s in if p c && is_blank rest then [] else c ∷ rest

abbrev pub strip_start : (ℕ → Bool) → Units → Units
strip_start p [] = []
strip_start p (c ∷ s) = let rest = strip_start p s in if p c then rest else c ∷ s

unfoldable pub trim : Units → Units
trim s = strip_end is_space (strip_start is_space s)

-- `replace(/[p]+/g, by)`; the flag says that the last unit was in a run.
abbrev pub replace_runs : (ℕ → Bool) → ℕ → Bool → Units → Units
replace_runs p by in_run [] = []
replace_runs p by in_run (c ∷ s) =
    let kept = c ∷ replace_runs p by false s in
    let run = replace_runs p by true s in
    if not (p c) then kept else if in_run then run else by ∷ run

-- `replace(p, '')` of single units, all of them.
abbrev pub remove_unit : ℕ → Units → Units
remove_unit p [] = []
remove_unit p (c ∷ s) = let rest = remove_unit p s in if c == p then rest else c ∷ rest

abbrev pub replace_unit : ℕ → ℕ → Units → Units
replace_unit p by [] = []
replace_unit p by (c ∷ s) = (if c == p then by else c) ∷ replace_unit p by s

-- What follows a word, if the text begins with it.
abbrev pub after_word : Units → Units → Option Units
after_word [] s = some s
after_word (w ∷ ws) [] = none
after_word (w ∷ ws) (c ∷ s) = if w == c then after_word ws s else none

-- `replace(word, by)`: the first place, for a word that is not blank.
abbrev pub replace_first : Units → Units → Units → Units
replace_first word by [] = []
replace_first word by (c ∷ s) = elim (after_word word (c ∷ s)) [
  | some rest ↦ by ++ rest
  | none ↦ c ∷ replace_first word by s
]

abbrev pub drop : ℕ → Units → Units
drop zero s = s
drop (suc n) [] = []
drop (suc n) (c ∷ s) = drop n s

-- `split(sep)` at a single unit
abbrev pub cons_head : ℕ → List Units → List Units
cons_head c [] = (c ∷ []) ∷ []
cons_head c (p ∷ ps) = (c ∷ p) ∷ ps

abbrev pub split : ℕ → Units → List Units
split sep [] = [] ∷ []
split sep (c ∷ s) = let rest = split sep s in if c == sep then [] ∷ rest else cons_head c rest

abbrev pub same_units : Units → Units → Bool
same_units [] [] = true
same_units [] (d ∷ t) = false
same_units (c ∷ s) [] = false
same_units (c ∷ s) (d ∷ t) = c == d && same_units s t

abbrev pub starts_with : Units → Units → Bool
starts_with s [] = true
starts_with [] (w ∷ ws) = false
starts_with (c ∷ s) (w ∷ ws) = c == w && starts_with s ws

abbrev pub ends_with : Units → Units → Bool
ends_with s w = leb (length w) (length s) && same_units (drop (length s - length w) s) w
