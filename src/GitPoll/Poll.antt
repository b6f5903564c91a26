-- ===== src/GitPoll/Poll.antt =====
-- Polling one claimed service (apps/backend/src/modules/worker/jobs/git-poll/poll.ts, and
-- `shouldDeploy` of schedule.ts). git answers through `head` and `files`, which may throw; the next
-- poll's time after an error, which schedule.ts draws at random, is an argument.
use text.Mathlib.Text.{◌==◌ as str_eq}
use kubwave.Common.{
  ℕ, String, Bool, true, false, not, ◌&&◌, ◌||◌, Option, none, some, List, [], ◌∷◌, ◌==◌,
  if◌then◌else◌, update_where, find_where, is_empty,
}
use kubwave.Store.{Store, Service}
use kubwave.Deployments.Enqueue.{enqueue_auto_deployment}
use kubwave.Deployments.Cancel.{Call, returned, thrown}
use kubwave.GitPoll.WatchPaths.{effective_watch_paths, paths_match}

-- The services table beside the others.
pub record PollStore : Type 0 where
  pub services : List Service
  pub store : Store

abbrev pub is_same_sha : String → Option String → Bool
is_same_sha sha none = false
is_same_sha sha (some last) = str_eq sha last

unfoldable pub should_deploy : Option String → Option String → Bool
should_deploy none last = false
should_deploy (some sha) last = if is_empty sha then false else not (is_same_sha sha last)

abbrev pub is_absent : Option String → Bool
is_absent none = true
is_absent (some text) = is_empty text

abbrev pub is_nil : List String → Bool
is_nil [] = true
is_nil (x ∷ xs) = false

-- A diff that throws does not hold a deployment back.
abbrev pub match_files : List String → Call (List String) → Bool
match_files prefixes (thrown message) = true
match_files prefixes (returned files) = paths_match files prefixes

unfoldable pub should_enqueue_for_paths : Service → Call (List String) → Bool
unfolding effective_watch_paths paths_match
should_enqueue_for_paths service files =
    let prefixes = effective_watch_paths service.config in
    if is_nil prefixes || is_absent service.last_polled_commit
    then true
    else match_files prefixes files

abbrev pub update_service : ℕ → (Service → Service) → List Service → List Service
update_service id f services = update_where (λ s. s.id == id) f services

abbrev pub set_polled : Option String → Service → Service
set_polled commit s = record s { last_polled_commit = commit; last_poll_error = none }

abbrev pub set_poll_error : String → ℕ → Service → Service
set_poll_error message at s = record s { last_poll_error = some message; next_poll_at = some at }

abbrev pub enqueue_head : ℕ → ℕ → Service → String → Call (List String) → Store → Store
enqueue_head now id service head files s =
    if should_deploy (some head) service.last_polled_commit
      && should_enqueue_for_paths service files
    then enqueue_auto_deployment now id
        (record { id = service.id; type = service.type; config = service.config }) head s
    else s

-- `service` is the copy that the claim returned; `id` is a fresh deployment id.
unfoldable pub poll_service :
    ℕ → ℕ → ℕ → Service → Call (Option String) → Call (List String) → PollStore → PollStore
poll_service now id backoff_at service (thrown message) files p = record p {
  services = update_service service.id (set_poll_error message backoff_at) p.services;
}
poll_service now id backoff_at service (returned none) files p = record p {
  services = update_service service.id (set_polled service.last_polled_commit) p.services;
}
poll_service now id backoff_at service (returned (some head)) files p = record {
  services = update_service service.id (set_polled (some head)) p.services;
  store = enqueue_head now id service head files p.store;
}

unfoldable pub find_service : ℕ → List Service → Option Service
find_service id services = find_where (λ s. s.id == id) services
