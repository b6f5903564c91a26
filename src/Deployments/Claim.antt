-- ===== src/Deployments/Claim.antt =====
-- Claiming queued deployments under the global cap
-- (apps/backend/src/modules/worker/jobs/deployments/claim.ts, concurrency.ts, builds/promotion.ts and
-- packages/kube/src/platform/settings/deployment-concurrency.ts).
use kubwave.Common.{
  ℕ, ◌+◌, ◌-◌, min, String, Bool, true, false, not, ◌&&◌, Option, none, some, List, [], ◌∷◌, ◌==◌,
  leb, if◌then◌else◌, any, take, select_where, count_where, update_where, order_by, or_else, ◌<>◌,
}
use kubwave.Store.{
  Store, Deployment, deploying, is_pending, is_in_flight, is_deploying, is_build_phase, info,
}
use kubwave.Deployments.Logs.{log_entry, insert_logs}

-- A stored setting: absent or not a number, or a number.
pub data Setting : Type 0 where
  unusable : Setting
  integer : ℕ → Setting

abbrev pub default_max_concurrent_deployments : ℕ
default_max_concurrent_deployments = 3

-- A value that is no integer of at least 1 falls back to the default.
unfoldable pub normalize_max : Setting → ℕ
normalize_max unusable = default_max_concurrent_deployments
normalize_max (integer raw) = if leb 1 raw then raw else default_max_concurrent_deployments

abbrev pub claim_batch : ℕ
claim_batch = 5

-- `Math.max(0, Math.min(batch, max - inflight))`; the difference of numbers stops at 0 by itself.
unfoldable pub compute_claim_limit : ℕ → ℕ → ℕ → ℕ
compute_claim_limit max inflight batch = min batch (max - inflight)

-- In flight, and in no build phase: what the cap counts.
abbrev pub is_occupying : Deployment → Bool
is_occupying d = is_in_flight d.status && not (is_build_phase d.phase)

abbrev pub in_flight_of : ℕ → Deployment → Bool
in_flight_of service_id d = d.service_id == service_id && is_in_flight d.status

abbrev pub is_claimable : List Deployment → Deployment → Bool
is_claimable table d = is_pending d.status && not (any (in_flight_of d.service_id) table)

-- The rows that the select returns: `is_locked` tells which rows another transaction holds.
unfoldable pub select_claimable : (ℕ → Bool) → ℕ → List Deployment → List Deployment
select_claimable is_locked limit table = take limit (
    order_by (λ d. d.created_at)
      (select_where (λ d. is_claimable table d && not (is_locked d.id)) table))

-- What the update of the loop sets, from the selected row.
abbrev pub set_claimed : String → ℕ → Deployment → Deployment → Deployment
set_claimed worker now row d = record d {
  status = deploying;
  phase = some "applying";
  locked_by = some worker;
  locked_at = some now;
  started_at = some (or_else row.started_at now);
  attempts = row.attempts + 1;
}

unfoldable pub claim_rows : String → ℕ → List Deployment → Store → Store
claim_rows worker now [] s = s
claim_rows worker now (row ∷ rows) s = claim_rows worker now rows (
    insert_logs row.id
      (log_entry now info "claimed" ("Claimed by worker " <> worker <> " - applying manifests")
        ∷ [])
      (record s {
        deployments = update_where (λ d. d.id == row.id) (set_claimed worker now row) s.deployments;
      }))

unfoldable pub claim_pending : String → ℕ → Setting → (ℕ → Bool) → Store → Store × List Deployment
unfolding compute_claim_limit select_claimable claim_rows normalize_max
claim_pending worker now setting is_locked s =
    let inflight = count_where is_occupying s.deployments in
    let limit = compute_claim_limit (normalize_max setting) inflight claim_batch in
    let rows = select_claimable is_locked limit s.deployments in
    if limit == 0 then (s, []) else (claim_rows worker now rows s, rows)

abbrev pub find_deployment : ℕ → List Deployment → Option Deployment
find_deployment id [] = none
find_deployment id (d ∷ ds) = if d.id == id then some d else find_deployment id ds

abbrev pub set_phase : String → Deployment → Deployment
set_phase phase d = record d { phase = some phase }

-- A finished build asks for a deployment slot.
unfoldable pub reserve_build_deployment : ℕ → Setting → Store → Store × Bool
unfolding normalize_max
reserve_build_deployment id setting s = elim (find_deployment id s.deployments) [
  | none ↦ (s, false)
  | some d ↦
      if not (is_deploying d.status)
      then (s, false)
      else if not (is_build_phase d.phase)
      then (s, true)
      else if leb (normalize_max setting) (count_where is_occupying s.deployments)
      then (s, false)
      else (
        record s {
          deployments = update_where (λ x. x.id == id) (set_phase "applying") s.deployments;
        },
        true,
      )
]
