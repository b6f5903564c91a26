-- ===== src/GitPoll/LsRemote.antt =====
-- The output of `git ls-remote` (apps/backend/src/modules/worker/jobs/git-poll/ls-remote.ts). A ref and
-- a hash are lists of UTF-16 units; a JavaScript Map is an association list in the order of insertion.
use kubwave.Common.{
  ℕ, ◌+◌, Bool, ◌&&◌, ◌||◌, Option, none, some, List, [], ◌∷◌, ◌++◌, ◌==◌, leb, if◌then◌else◌,
  length, all, map,
}
use kubwave.Common.Units.{Units, units, is_blank, trim, split, same_units, starts_with, ends_with}
use kubwave.Deployments.Cancel.{Call, returned, thrown}

unfoldable pub to_remote_ref : Units → Units
to_remote_ref ref = if starts_with ref (units "refs/") then ref else units "refs/heads/" ++ ref

abbrev pub newline : ℕ
newline = 10

abbrev pub tab : ℕ
tab = 9

-- [0-9a-f] in either case
abbrev pub is_hex_digit : ℕ → Bool
is_hex_digit c = leb 48 c && leb c 57 || leb 97 c && leb c 102 || leb 65 c && leb c 70

abbrev pub is_sha : Units → Bool
is_sha s = length s == 40 && all is_hex_digit s

abbrev pub lower_hex : ℕ → ℕ
lower_hex c = if leb 65 c && leb c 70 then c + 32 else c

abbrev pub Refs : Type 0
Refs = List (Units × Units)

-- `map.set(ref, sha)`
abbrev pub set_ref : Units → Units → Refs → Refs
set_ref ref sha [] = (ref, sha) ∷ []
set_ref ref sha ((k, v) ∷ m) =
    let rest = (k, v) ∷ set_ref ref sha m in if same_units k ref then (k, sha) ∷ m else rest

-- `map.get(ref)`
abbrev pub get_ref : Units → Refs → Option Units
get_ref ref [] = none
get_ref ref ((k, v) ∷ m) = if same_units k ref then some v else get_ref ref m

-- The first two of the tab-separated parts.
abbrev pub parse_parts : Refs → List Units → Refs
parse_parts m (sha ∷ ref ∷ more) =
    if is_blank sha || is_blank ref || ends_with ref (units "^{}")
    then m
    else if is_sha sha
    then set_ref ref (map lower_hex sha) m
    else m
parse_parts m other = m

unfoldable pub parse_line : Refs → Units → Refs
parse_line m line =
    let trimmed = trim line in if is_blank trimmed then m else parse_parts m (split tab trimmed)

abbrev pub parse_lines : Refs → List Units → Refs
parse_lines m [] = m
parse_lines m (line ∷ lines) = parse_lines (parse_line m line) lines

unfoldable pub parse_ls_remote_refs : Units → Refs
unfolding parse_line
parse_ls_remote_refs stdout = parse_lines [] (split newline stdout)

unfoldable pub parse_ls_remote : Units → Units → Option Units
unfolding to_remote_ref parse_ls_remote_refs
parse_ls_remote stdout ref = get_ref (to_remote_ref ref) (parse_ls_remote_refs stdout)

-- git answers with its output, or throws.
unfoldable pub resolve_remote_head : Units → Call Units → Call (Option Units)
unfolding parse_ls_remote
resolve_remote_head branch (thrown message) = thrown message
resolve_remote_head branch (returned stdout) = returned (parse_ls_remote stdout branch)
