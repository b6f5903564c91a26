-- ===== src/Domains/Labels.antt =====
-- DNS labels: `sanitizeDnsLabel` and `clampLabel`. What lower case is, the JavaScript engine decides:
-- `lower` is a parameter.
use kubwave.Common.{
  ℕ, ◌-◌, Bool, false, not, ◌&&◌, ◌||◌, [], ◌∷◌, ◌++◌, ◌==◌, leb, if◌then◌else◌, length, take, all,
}
use kubwave.Common.Units.{Units, units, is_blank, strip_end, replace_runs, drop}

abbrev pub hyphen : ℕ
hyphen = 45

abbrev pub is_hyphen : ℕ → Bool
is_hyphen c = c == hyphen

-- [a-z0-9-]
abbrev pub is_label_unit : ℕ → Bool
is_label_unit c = leb 97 c && leb c 122 || leb 48 c && leb c 57 || is_hyphen c

-- [0-9a-f]
abbrev pub is_hex : ℕ → Bool
is_hex c = leb 48 c && leb c 57 || leb 97 c && leb c 102

-- `replace(/^-|-$/g, '')`
abbrev pub drop_first_hyphen : Units → Units
drop_first_hyphen [] = []
drop_first_hyphen (c ∷ s) = if is_hyphen c then s else c ∷ s

abbrev pub drop_last_hyphen : Units → Units
drop_last_hyphen [] = []
drop_last_hyphen (c ∷ []) = if is_hyphen c then [] else c ∷ []
drop_last_hyphen (c ∷ d ∷ s) = c ∷ drop_last_hyphen (d ∷ s)

abbrev pub or_app : Units → Units
or_app s = if is_blank s then units "app" else s

-- The replacements, on the lower-case text.
abbrev pub hyphenate : Units → Units
hyphenate s = drop_last_hyphen (
    drop_first_hyphen (
      replace_runs is_hyphen hyphen false
        (replace_runs (λ c. not (is_label_unit c)) hyphen false s)))

unfoldable pub sanitize_dns_label : (Units → Units) → Units → Units
sanitize_dns_label lower name = or_app (hyphenate (lower name))

abbrev pub max_label : ℕ
max_label = 63

-- The last nine units, where they are a hyphen and eight hexadecimal digits.
abbrev pub is_id_suffix : Units → Bool
is_id_suffix [] = false
is_id_suffix (c ∷ s) = is_hyphen c && all is_hex s

unfoldable pub clamp_label : Units → Units
clamp_label label =
    let suffix = drop (length label - 9) label in
    if leb (length label) max_label
    then label
    else if is_id_suffix suffix
    then strip_end is_hyphen (take (max_label - length suffix) label) ++ suffix
    else strip_end is_hyphen (take max_label label)
