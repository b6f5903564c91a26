-- ===== src/TagWatch/Watch.antt =====
-- The claim of services whose image tag is watched, and the watch of one of them
-- (apps/backend/src/modules/worker/jobs/registry-tag-watch/claim.ts and watch.ts). The registry answers
-- through `digest`, which may throw; the time of the next watch after an error is an argument.
use text.Mathlib.Text.{◌==◌ as str_eq}
use kubwave.Common.{
  ℕ, String, Bool, true, false, not, ◌&&◌, Option, none, some, List, ◌==◌, if◌then◌else◌,
  update_where, is_empty, claim_due,
}
use kubwave.Store.{Store, ServiceType, docker_image, Service}
use kubwave.Deployments.Enqueue.{enqueue_watch_deployment}
use kubwave.Deployments.Cancel.{Call, returned, thrown}
use kubwave.GitPoll.Schedule.{compute_next_poll_at}
use kubwave.GitPoll.Poll.{PollStore}

abbrev pub is_docker_image : ServiceType → Bool
is_docker_image docker_image = true
is_docker_image _ = false

abbrev pub is_watched : Service → Bool
is_watched s = s.image_watch_enabled && is_docker_image s.type

abbrev pub lease_watch : (ℕ → ℕ → ℕ) → ℕ → ℕ → Service → Service → Service
lease_watch jitter now interval row s = record s {
  next_watch_at = some (compute_next_poll_at (jitter row.id) now interval);
  last_watched_at = some now;
}

unfoldable pub claim_due_watch_services :
    (ℕ → ℕ → ℕ) → ℕ → ℕ → ℕ → (ℕ → Bool) → List Service → List Service × List Service
claim_due_watch_services jitter interval now limit locked services =
    claim_due (λ s. s.id) (λ s. s.next_watch_at) is_watched (lease_watch jitter now interval) now
      limit locked services

abbrev pub is_same_digest : String → Option String → Bool
is_same_digest digest none = false
is_same_digest digest (some last) = str_eq digest last

abbrev pub set_watched : Option String → Service → Service
set_watched digest s = record s { last_watched_digest = digest; last_watch_error = none }

abbrev pub set_watch_error : String → ℕ → Service → Service
set_watch_error message at s = record s { last_watch_error = some message; next_watch_at = some at }

abbrev pub enqueue_digest : ℕ → ℕ → Service → String → Store → Store
enqueue_digest now id service digest s =
    if not (is_empty digest) && not (is_same_digest digest service.last_watched_digest)
    then enqueue_watch_deployment now id
        (record { id = service.id; type = service.type; config = service.config }) digest s
    else s

-- `service` is the copy that the claim returned; `id` is a fresh deployment id.
unfoldable pub watch_service : ℕ → ℕ → ℕ → Service → Call (Option String) → PollStore → PollStore
watch_service now id backoff_at service (thrown message) p = record p {
  services = update_where (λ s. s.id == service.id) (set_watch_error message backoff_at) p.services;
}
watch_service now id backoff_at service (returned none) p = record p {
  services =
      update_where (λ s. s.id == service.id) (set_watched service.last_watched_digest) p.services;
}
watch_service now id backoff_at service (returned (some digest)) p = record {
  services = update_where (λ s. s.id == service.id) (set_watched (some digest)) p.services;
  store = enqueue_digest now id service digest p.store;
}
