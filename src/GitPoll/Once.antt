-- ===== src/GitPoll/Once.antt =====
-- A commit is deployed at most once.
use text.Mathlib.TextEquality.{eq_iff}
use kubwave.Common.{
  ℕ, String, ◌≡◌, refl, inl, inr, Bool, true, false, some, List, [], ◌∷◌, ◌==◌, ==_refl, arith,
  if◌then◌else◌, update_where, find_where, is_empty, Bool-cases,
}
use kubwave.Deployments.Cancel.{Call, returned}
use kubwave.Store.{Service}
use kubwave.GitPoll.Poll.{PollStore, should_deploy, poll_service, find_service, set_polled}

find-update_service :
    (f : Service → Service) (id : ℕ) (t : List Service) (x : Service)
    → ((s : Service) → (f s).id ≡ s.id)
    → find_where (λ s. s.id == id) t ≡ some x
    → find_where (λ s. s.id == id) (update_where (λ s. s.id == x.id) f t) ≡ some (f x)
find-update_service f id [] x k e = absurd (cc)
find-update_service f id (s ∷ t) x k e = elim (Bool-cases (s.id == id)) [
  | inl same ↦ let hit : s ≡ x = ground arith in rw (hit, ==_refl x.id) (ground (arith, k x))
  | inr other ↦
      let is_id = find_id id t x (ground arith) in
      ground (arith, k s, find-update_service f id t x k (ground arith))
]
  where
    find_id :
        (id : ℕ) (t : List Service) (x : Service)
        → find_where (λ s. s.id == id) t ≡ some x
        → x.id ≡ id
    find_id id [] x e = absurd (cc)
    find_id id (s ∷ t) x e = elim (Bool-cases (s.id == id)) [
      | inl same ↦ let hit : s ≡ x = ground arith in rw (← hit) (ground arith)
      | inr other ↦ find_id id t x (ground arith)
    ]

known-head : (head : String) → should_deploy (some head) (some head) ≡ false
unfolding should_deploy
known-head head = rw ((eq_iff head head).1 refl) (either (is_empty head))
  where
    either : (b : Bool) → (if b then false else false) ≡ false
    either true = refl
    either false = refl

-- After a poll of a service of the table that found a head, whatever came of it, a poll of the
-- service's row that finds the same head queues nothing.
pub poll_service-once :
    (now id backoff_at later id' backoff_at' : ℕ) (service : Service) (head : String)
    (files files' : Call (List String)) (p : PollStore)
    → find_service service.id p.services ≡ some service
    → (row : Service) × (find_service service.id
          (poll_service now id backoff_at service (returned (some head)) files p).services
        ≡ some row)
      × ((poll_service later id' backoff_at' row
            (returned (some head))
            files'
            (poll_service now id backoff_at service (returned (some head)) files p)).store
          ≡ (poll_service now id backoff_at service (returned (some head)) files p).store)
unfolding poll_service find_service
poll_service-once now id backoff_at later id' backoff_at' service head files files' p e = (
  set_polled (some head) service,
  find-update_service (set_polled (some head)) service.id p.services service (λ s. refl) e,
  rw (known-head head) refl,
)
