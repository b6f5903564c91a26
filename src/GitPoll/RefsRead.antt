-- ===== src/GitPoll/RefsRead.antt =====
-- Reading back what git prints of the refs of a repository.
use kubwave.Common.{
  ◌≡◌, ◌∙◌, refl, sym, ap, Bool, true, false, List, [], ◌∷◌, ◌++◌, if◌then◌else◌, All,
}
use mathlib.Core.List.{append-nil, append_assoc}
use kubwave.Common.Units.{Units, trim, split, same_units}
use kubwave.GitPoll.LsRemote.{Refs, set_ref, parse_line, parse_lines, parse_ls_remote_refs, newline}
use kubwave.GitPoll.RefLines.{
  Advertised, print_refs, line_of, refs_of, IsAdvertised, HasDistinctRefs, split-line,
  line-no_newline, parsed_line,
}

set_all : Refs → Refs → Refs
set_all m [] = m
set_all m ((k, v) ∷ rs) = set_all (set_ref k v m) rs

set_all-if :
    (b : Bool) (m rs : Refs) (k v : Units)
    → set_all (if b then m else set_ref k v m) rs ≡ set_all m (if b then rs else (k, v) ∷ rs)
unfolding set_all
set_all-if true m rs k v = refl
set_all-if false m rs k v = refl

parsed_lines :
    (m : Refs) (out : List Advertised)
    → All IsAdvertised out
    → parse_lines m (split newline (print_refs out)) ≡ set_all m (refs_of out)
unfolding parse_line trim set_all
parsed_lines m [] h = refl
parsed_lines m (a ∷ rest) (w, h) =
    ap (parse_lines m) (split-line newline (line_of a) (print_refs rest) (line-no_newline a w))
    ∙ ap (λ t. parse_lines t (split newline (print_refs rest))) (parsed_line m a w)
    ∙ parsed_lines (if a.is_peeled then m else set_ref a.ref a.sha m) rest h
    ∙ set_all-if a.is_peeled m (refs_of rest) a.ref a.sha

set_new :
    (k v : Units) (m : Refs)
    → All (λ r. same_units r.0 k ≡ false) m
    → set_ref k v m ≡ m ++ (k, v) ∷ []
set_new k v [] h = refl
set_new k v ((j, w) ∷ m) (e, h) = rw (e, set_new k v m h) refl

apart :
    (k v : Units) (m rs : Refs)
    → HasDistinctRefs (m ++ (k, v) ∷ rs)
    → All (λ r. same_units r.0 k ≡ false) m
apart k v [] rs h = tt
apart k v ((j, w) ∷ m) rs (d, h) = (at_end m d, apart k v m rs h)
  where
    at_end :
        (m : Refs) → All (λ r. same_units j r.0 ≡ false) (m ++ (k, v) ∷ rs) → same_units j k ≡ false
    at_end [] d = d.0
    at_end (r ∷ m) d = at_end m d.1

set_all-append : (m rs : Refs) → HasDistinctRefs (m ++ rs) → set_all m rs ≡ m ++ rs
unfolding set_all
set_all-append m [] h = sym (append-nil m)
set_all-append m ((k, v) ∷ rs) h = rw (set_new k v m (apart k v m rs h)) (
    set_all-append (m ++ (k, v) ∷ []) rs (rw (append_assoc m ((k, v) ∷ []) rs) h)
    ∙ append_assoc m ((k, v) ∷ []) rs)

-- Reading the output of `git ls-remote` gives back the refs that it lists, in their order and each
-- with its hash, and skips the peeled ones, where each hash has 40 lower-case hexadecimal digits,
-- no ref has white space or itself ends in `^{}`, and no ref is listed twice.
pub parse_ls_remote_refs-print_refs :
    (out : List Advertised)
    → All IsAdvertised out
    → HasDistinctRefs (refs_of out)
    → parse_ls_remote_refs (print_refs out) ≡ refs_of out
unfolding parse_ls_remote_refs
parse_ls_remote_refs-print_refs out h distinct =
    parsed_lines [] out h ∙ set_all-append [] (refs_of out) distinct
