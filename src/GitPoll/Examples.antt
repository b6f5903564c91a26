-- ===== src/GitPoll/Examples.antt =====
-- A service that watches one directory, whose branch has a new head.
use kubwave.Common.Units.{Units, units, is_space}
use kubwave.GitPoll.Claim.{claim_due_services}
use kubwave.GitPoll.LsRemote.{is_hex_digit, lower_hex, parse_ls_remote_refs}
use kubwave.GitPoll.RefLines.{IsLowerHex, IsNoSpace, Advertised, IsAdvertised, print_refs, refs_of}
use kubwave.GitPoll.RefsRead.{parse_ls_remote_refs-print_refs}
use kubwave.Common.{
  all, All-of_all, not, ◌&&◌, ℕ, ◌*◌, Option, List, arith, All, ◌==◌, true, false, ◌≡◌, refl, none,
  some, [], ◌∷◌, map,
}
use kubwave.Store.{Service, public_repo}
use kubwave.Store.Samples.{sample_config, sample_service}
use kubwave.Deployments.Cancel.{returned, thrown}
use kubwave.GitPoll.WatchPaths.{effective_watch_paths, paths_match}
use kubwave.GitPoll.Poll.{PollStore, poll_service, find_service}
use kubwave.GitPoll.Once.{poll_service-once}

abbrev service : Service
service = record (sample_service 7) {
  config = record sample_config { watch_paths = some ("/apps/api/" ∷ []) };
  last_polled_commit = some "aaa";
}

watched : paths_match ("apps/api/main.ts" ∷ []) (effective_watch_paths service.config) ≡ true
unfolding paths_match effective_watch_paths
watched = refl

unwatched : paths_match ("apps/apix" ∷ []) (effective_watch_paths service.config) ≡ false
unfolding paths_match effective_watch_paths
unwatched = refl

abbrev before : PollStore
before = record {
  services = service ∷ [];
  store = record { deployments = []; deployment_logs = []; build_runs = []; build_agents = [] };
}

abbrev after : PollStore
after =
    poll_service 100 1 900 service (returned (some "bbb")) (returned ("apps/api/main.ts" ∷ []))
      before

poll_service-once_example :
    (row : Service) × (find_service 7 after.services ≡ some row)
    × ((poll_service 200 2 900 row (returned (some "bbb")) (thrown "timeout") after).store
        ≡ after.store)
unfolding find_service
poll_service-once_example =
    poll_service-once 100 1 900 200 2 900 service "bbb" (returned ("apps/api/main.ts" ∷ []))
      (thrown "timeout") before refl

abbrev due_service : ℕ → Option ℕ → Service
due_service id at = record (sample_service id) {
  type = public_repo;
  auto_deploy_enabled = true;
  next_poll_at = at;
}

abbrev jitter : ℕ → ℕ → ℕ
jitter id seconds = 1000 * seconds

abbrev due_services : List Service
due_services = due_service 1 (some 500) ∷ due_service 2 none ∷ []

-- The table that the first claim left, with an outcome written to every service.
abbrev polled_services : List Service
polled_services =
    map (λ (s : Service). record s { last_polled_commit = some "ccc" })
      (claim_due_services jitter 60 1000 1 (λ id. false) due_services).0

abbrev tag_sha : Units
tag_sha = units "0123456789abcdef0123456789abcdef01234567"

abbrev commit_sha : Units
commit_sha = units "89abcdef0123456789abcdef0123456789abcdef"

abbrev tag_ref : Units
tag_ref = units "refs/tags/v1"

abbrev advertised : List Advertised
advertised =
    record { sha = tag_sha; ref = tag_ref; is_peeled = false }
    ∷ record { sha = commit_sha; ref = tag_ref; is_peeled = true }
    ∷ []

lower_hex_digits :
    (s : Units) → all (λ c. is_hex_digit c && (lower_hex c == c)) s ≡ true → All IsLowerHex s
lower_hex_digits s h = All-of_all IsLowerHex _ (λ c k. (ground arith, ground arith)) s h

no_spaces : (s : Units) → all (λ c. not (is_space c)) s ≡ true → All IsNoSpace s
no_spaces s h = All-of_all IsNoSpace _ (λ c k. ground arith) s h

advertised-IsAdvertised : All IsAdvertised advertised
advertised-IsAdvertised = (
  record {
    sha_length = refl;
    sha_digits = lower_hex_digits tag_sha refl;
    ref_units = no_spaces tag_ref refl;
    ref_given = refl;
    ref_plain = refl;
  },
  (
    record {
      sha_length = refl;
      sha_digits = lower_hex_digits commit_sha refl;
      ref_units = no_spaces tag_ref refl;
      ref_given = refl;
      ref_plain = refl;
    },
    tt,
  ),
)

parse_ls_remote_refs-print_refs_example :
    parse_ls_remote_refs (print_refs advertised) ≡ refs_of advertised
parse_ls_remote_refs-print_refs_example =
    parse_ls_remote_refs-print_refs advertised advertised-IsAdvertised (tt, tt)
