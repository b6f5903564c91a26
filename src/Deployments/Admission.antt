-- ===== src/Deployments/Admission.antt =====
-- Queueing, cancellation requests and slot reservations are sound writes too.
use kubwave.Common.{
  ℕ, ◌≡◌, ◌∙◌, refl, inl, inr, true, false, Option, some, String, List, [], ◌∷◌, ◌++◌, ◌==◌, arith,
  All, All-map, any, update_where, select_where, count_where, count-append, select-append, subst,
  ==_refl, Option-cases, Bool-cases, IsOnly, unique_rows,
}
use kubwave.Store.{
  Store, Deployment, DeploymentStatus, pending, deploying, DeploymentTrigger, ServiceConfig,
}
use kubwave.Deployments.Enqueue.{DeploySource, pending_of, set_superseded, queued_row, enqueue}
use kubwave.Deployments.Claim.{
  find_deployment, in_flight_of, reserve_build_deployment, set_phase, Setting,
}
use kubwave.Deployments.Request.{cancel_row, cancel_by_status, set_canceled, set_canceling}
use kubwave.Deployments.Rows.{
  RowStep, IsTame, TableInv, Sound, Sound-refl, update-Sound, update_all-Sound, Evolves-append,
}

absent_count :
    (id : ℕ) (t : List Deployment)
    → any (λ d. d.id == id) t ≡ false
    → count_where (λ d. d.id == id) t ≡ 0
absent_count id [] h = refl
absent_count id (d ∷ t) h = ground (arith, absent_count id t)

pending-cleared :
    (service now : ℕ) (t : List Deployment)
    → select_where (pending_of service) (update_where (pending_of service) (set_superseded now) t)
      ≡ []
pending-cleared service now [] = refl
pending-cleared service now (d ∷ t) = ground (arith, pending-cleared service now t)

pending-cleared_count :
    (service now : ℕ) (t : List Deployment)
    → count_where (pending_of service) (update_where (pending_of service) (set_superseded now) t)
      ≡ 0
pending-cleared_count service now [] = refl
pending-cleared_count service now (d ∷ t) = ground (arith, pending-cleared_count service now t)

supersede-Sound :
    (service now : ℕ) (t : List Deployment)
    → TableInv t
    → Sound t (update_where (pending_of service) (set_superseded now) t)
supersede-Sound service now t inv =
    update_all-Sound (pending_of service) (set_superseded now) t (λ x h. ground arith) inv

append-TableInv :
    (row : Deployment) (t : List Deployment)
    → row.status ≡ pending
    → any (λ d. d.id == row.id) t ≡ false
    → count_where (pending_of row.service_id) t ≡ 0
    → TableInv t
    → TableInv (t ++ row ∷ [])
append-TableInv row t queued fresh clear inv = record {
  unique = λ k. ground (
    arith,
    count-append (λ d. d.id == k) t (row ∷ []),
    inv.unique k,
    absent_count row.id t fresh,
  );
  one_pending =
      λ k. ground (arith, count-append (pending_of k) t (row ∷ []), inv.one_pending k, clear);
  one_in_flight =
      λ k. ground (arith, count-append (in_flight_of k) t (row ∷ []), inv.one_in_flight k);
}

any-supersede :
    (id service now : ℕ) (t : List Deployment)
    → any (λ d. d.id == id) (update_where (pending_of service) (set_superseded now) t)
      ≡ any (λ d. d.id == id) t
any-supersede id service now [] = refl
any-supersede id service now (d ∷ t) = ground (arith, any-supersede id service now t)

module _ (now id : ℕ) (service : DeploySource) (config : ServiceConfig)
    (trigger : DeploymentTrigger) (user : Option ℕ) (message : String) (s : Store) where
  pub enqueue-Sound :
      any (λ d. d.id == id) s.deployments ≡ false
      → TableInv s.deployments
      → Sound s.deployments (enqueue now id service config trigger user message s).deployments
  unfolding enqueue
  enqueue-Sound fresh inv =
      let step = supersede-Sound service.id now s.deployments inv in
      record {
        evolves = Evolves-append s.deployments _ _ step.evolves (refl, tt);
        inv =
            append-TableInv (queued_row now id service config trigger user) _ refl
              (any-supersede id service.id now s.deployments ∙ fresh)
              (pending-cleared_count service.id now s.deployments) step.inv;
      }

  -- After queueing, the queued deployments of the service are the new row alone: what was queued
  -- before is superseded.
  pub enqueue-select :
      select_where
        (pending_of service.id)
        (enqueue now id service config trigger user message s).deployments
      ≡ queued_row now id service config trigger user ∷ []
  unfolding enqueue
  enqueue-select =
      rw
        (
          select-append (pending_of service.id)
              (update_where (pending_of service.id) (set_superseded now) s.deployments)
              (queued_row now id service config trigger user ∷ []),
          pending-cleared service.id now s.deployments,
        )
        (ground (arith, ==_refl service.id))

-- What holds of every row holds of the row that a search by id finds.
pub find_deployment-All {ℓ} :
    (P : Deployment → Type ℓ) (id : ℕ) (t : List Deployment) {r : Deployment}
    → find_deployment id t ≡ some r
    → All P t
    → P r × (r.id ≡ id)
find_deployment-All P id [] e h = cc
find_deployment-All P id (d ∷ t) {r} e (p, h) = elim (Bool-cases (d.id == id)) [
  | inl same ↦ let hit : d ≡ r = ground arith in (subst P hit p, ground arith)
  | inr other ↦ find_deployment-All P id t (ground arith) h
]

-- An update of the one row that a search by id has found.
update_found-Sound :
    (f : Deployment → Deployment) (id : ℕ) (t : List Deployment) (r : Deployment)
    → find_deployment id t ≡ some r
    → RowStep r (f r)
    → IsTame r (f r)
    → TableInv t
    → Sound t (update_where (λ d. d.id == r.id) f t)
update_found-Sound f id t r e step tame inv =
    update-Sound (λ d. d.id == r.id) f t
      (All-map (λ x. x.id ≡ r.id → x ≡ r)
        (λ x. (x.id == r.id) ≡ true → RowStep x (f x) × IsTame x (f x)) t
        (λ x only h. let same : x ≡ r = only (ground arith) in rw same (step, tame))
        (find_deployment-All (IsOnly (λ d. d.id) t) id t e
          (unique_rows (λ d. d.id) t inv.unique)).0)
      inv

cancel_by_status-Sound :
    (now : ℕ) (a : DeploymentStatus) (id : ℕ) (r : Deployment) (s : Store)
    → r.status ≡ a
    → find_deployment id s.deployments ≡ some r
    → TableInv s.deployments
    → Sound s.deployments (cancel_by_status now a r s).0.deployments
cancel_by_status-Sound now pending id r s st e inv =
    update_found-Sound (set_canceled now) id s.deployments r e (ground arith) (ground arith) inv
cancel_by_status-Sound now deploying id r s st e inv =
    update_found-Sound set_canceling id s.deployments r e (ground arith) (ground arith) inv
cancel_by_status-Sound now a id r s st e inv = Sound-refl s.deployments inv

pub cancel_row-Sound :
    (now id : ℕ) (s : Store)
    → TableInv s.deployments
    → Sound s.deployments (cancel_row now id s).0.deployments
unfolding cancel_row
cancel_row-Sound now id s inv = elim (Option-cases (find_deployment id s.deployments)) [
  | inl e ↦ rw (e, cancel_row) (Sound-refl s.deployments inv)
  | inr (r, e) ↦ rw (e, cancel_row) (cancel_by_status-Sound now r.status id r s refl e inv)
]

pub reserve_build_deployment-Sound :
    (id : ℕ) (setting : Setting) (s : Store)
    → TableInv s.deployments
    → Sound s.deployments (reserve_build_deployment id setting s).0.deployments
unfolding reserve_build_deployment
reserve_build_deployment-Sound id setting s inv =
    let moved =
      update_all-Sound (λ x. x.id == id) (set_phase "applying") s.deployments (λ x h. ground arith)
        inv in
    let same = Sound-refl s.deployments inv in ground (arith, moved, same)
