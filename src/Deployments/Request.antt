-- ===== src/Deployments/Request.antt =====
-- Asking for a cancellation (`cancelDeployment` of
-- apps/backend/src/modules/deployments/deployments.service.ts).
use kubwave.Common.{ℕ, String, Bool, none, some, [], ◌∷◌, ◌==◌, update_where, if◌then◌else◌}
use kubwave.Store.{
  Store, Deployment, DeploymentStatus, pending, deploying, canceling, canceled, warn,
}
use kubwave.Deployments.Logs.{log_entry, insert_logs}
use kubwave.Deployments.Claim.{find_deployment}

pub data CancelReply : Type 0 where
  accepted : Deployment → CancelReply
  not_found not_cancelable : CancelReply

abbrev pub set_canceled : ℕ → Deployment → Deployment
set_canceled now d = record d {
  status = canceled;
  phase = some "canceled";
  last_error = none;
  finished_at = some now;
}

abbrev pub set_canceling : Deployment → Deployment
set_canceling d = record d { status = canceling; last_error = none; rollback_attempts = 0 }

-- An update of the row `current` by its id, with one log line; the reply is the updated row.
abbrev pub write_request :
    ℕ → (Deployment → Deployment) → String → String → Deployment → Store → Store × CancelReply
write_request now f step message current s = (
  insert_logs current.id (log_entry now warn step message ∷ [])
      (record s { deployments = update_where (λ d. d.id == current.id) f s.deployments }),
  accepted (f current),
)

abbrev pub cancel_by_status : ℕ → DeploymentStatus → Deployment → Store → Store × CancelReply
cancel_by_status now pending current s =
    write_request now (set_canceled now) "canceled" "Deployment canceled before rollout started"
      current s
cancel_by_status now deploying current s =
    write_request now set_canceling "canceling"
      "Cancellation requested; restoring previous deployment" current s
cancel_by_status now canceling current s = (s, accepted current)
cancel_by_status now canceled current s = (s, accepted current)
cancel_by_status now _ current s = (s, not_cancelable)

-- The transaction.
unfoldable pub cancel_row : ℕ → ℕ → Store → Store × CancelReply
cancel_row now id s = elim (find_deployment id s.deployments) [
  | none ↦ (s, not_found)
  | some current ↦ cancel_by_status now current.status current s
]

-- `can_access` says whether the acting user may load a service; if not, the reply hides the row.
unfoldable pub cancel_deployment : (ℕ → Bool) → ℕ → ℕ → Store → Store × CancelReply
unfolding cancel_row
cancel_deployment can_access now id s = elim (find_deployment id s.deployments) [
  | none ↦ (s, not_found)
  | some initial ↦ if can_access initial.service_id then cancel_row now id s else (s, not_found)
]
