-- ===== src/GitPoll/WatchPaths.antt =====
-- Which changed files gate an automatic deployment
-- (apps/backend/src/modules/worker/jobs/git-poll/watch-paths.ts and
-- apps/backend/src/shared/git/repo-relative-path.ts).
use text.Mathlib.Text.{starts_with, ◌==◌ as str_eq}
use kubwave.Common.{
  String, Bool, true, false, ◌||◌, List, [], ◌∷◌, if◌then◌else◌, any, or_else, trim, strip_start,
  strip_end, is_empty, ◌<>◌,
}
use kubwave.Store.{ServiceConfig}

unfoldable pub normalize_repo_relative_path : String → String
normalize_repo_relative_path path = strip_end (strip_start (trim path))

abbrev pub has_text : List String → String → Bool
has_text texts t = any (λ u. str_eq u t) texts

-- `[...new Set(texts)]`
abbrev pub distinct_texts : List String → List String → List String
distinct_texts seen [] = []
distinct_texts seen (t ∷ ts) =
    let rest = distinct_texts (t ∷ seen) ts in if has_text seen t then rest else t ∷ rest

-- The paths that are not empty once normalized.
unfoldable pub prefixes_of : List String → List String
unfolding normalize_repo_relative_path
prefixes_of [] = []
prefixes_of (p ∷ ps) =
    let rest = prefixes_of ps in
    let path = normalize_repo_relative_path p in if is_empty path then rest else path ∷ rest

unfoldable pub effective_watch_paths : ServiceConfig → List String
unfolding prefixes_of
effective_watch_paths config =
    if or_else config.watch_entire_repo false
    then []
    else distinct_texts []
        (prefixes_of (or_else config.root_directory "" ∷ or_else config.watch_paths []))

unfoldable pub path_matches_prefix : String → String → Bool
unfolding normalize_repo_relative_path
path_matches_prefix file prefix =
    let f = normalize_repo_relative_path file in
    let p = normalize_repo_relative_path prefix in
    if is_empty f || is_empty p then false else str_eq f p || starts_with f (p <> "/")

unfoldable pub paths_match : List String → List String → Bool
unfolding path_matches_prefix
paths_match files [] = true
paths_match files prefixes =
    any (λ file. any (λ prefix. path_matches_prefix file prefix) prefixes) files
