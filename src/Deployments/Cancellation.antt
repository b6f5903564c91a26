-- ===== src/Deployments/Cancellation.antt =====
-- What a request to cancel comes to.
use kubwave.Common.{
  ℕ, ◌≡◌, refl, ◌⊎◌, inl, inr, Bool, some, ◌==◌, ==_refl, Option-cases, Bool-cases,
}
use kubwave.Store.{
  Store, Deployment, DeploymentStatus, pending, deploying, canceling, succeeded, failed, superseded,
  canceled,
}
use kubwave.Deployments.Claim.{find_deployment}
use kubwave.Deployments.Lookup.{find-update}
use kubwave.Deployments.Request.{
  CancelReply, accepted, not_found, not_cancelable, set_canceled, set_canceling, cancel_by_status,
  cancel_row, cancel_deployment,
}

-- The reply and the table agree: an accepted row is found, canceled or to be canceled, and a refusal
-- writes nothing.
abbrev pub IsAnswered : ℕ → Store → Store → CancelReply → Type 0
IsAnswered id s t (accepted d) =
    (find_deployment id t.deployments ≡ some d) × ((d.status ≡ canceling) ⊎ (d.status ≡ canceled))
IsAnswered id s t not_found = t ≡ s
IsAnswered id s t not_cancelable = t ≡ s

cancel_by_status-IsAnswered :
    (now id : ℕ) (a : DeploymentStatus) (d : Deployment) (s : Store)
    → d.status ≡ a
    → find_deployment id s.deployments ≡ some d
    → IsAnswered id s (cancel_by_status now a d s).0 (cancel_by_status now a d s).1
cancel_by_status-IsAnswered now id pending d s st e = (
  find-update (λ x. x.id == d.id) (set_canceled now) id s.deployments d (λ x. refl) e
      (==_refl d.id),
  inr refl,
)
cancel_by_status-IsAnswered now id deploying d s st e = (
  find-update (λ x. x.id == d.id) set_canceling id s.deployments d (λ x. refl) e (==_refl d.id),
  inl refl,
)
cancel_by_status-IsAnswered now id canceling d s st e = (e, inl st)
cancel_by_status-IsAnswered now id canceled d s st e = (e, inr st)
cancel_by_status-IsAnswered now id succeeded d s st e = refl
cancel_by_status-IsAnswered now id failed d s st e = refl
cancel_by_status-IsAnswered now id superseded d s st e = refl

cancel_row-IsAnswered :
    (now id : ℕ) (s : Store) → IsAnswered id s (cancel_row now id s).0 (cancel_row now id s).1
unfolding cancel_row
cancel_row-IsAnswered now id s = elim (Option-cases (find_deployment id s.deployments)) [
  | inl e ↦ rw (e, cancel_row) refl
  | inr (d, e) ↦ rw (e, cancel_row) (cancel_by_status-IsAnswered now id d.status d s refl e)
]

-- A request to cancel, on every branch, is answered as the table then is: the row that an accepted
-- request replies with is found under its id and is canceling or canceled, and a refusal writes
-- nothing.
pub cancel_deployment-IsAnswered :
    (can_access : ℕ → Bool) (now id : ℕ) (s : Store)
    → IsAnswered id s
        (cancel_deployment can_access now id s).0
        (cancel_deployment can_access now id s).1
unfolding cancel_deployment
cancel_deployment-IsAnswered can_access now id s =
    elim (Option-cases (find_deployment id s.deployments)) [
      | inl e ↦ rw (e, cancel_deployment) refl
      | inr (d, e) ↦ elim (Bool-cases (can_access d.service_id)) [
        | inl may ↦ rw (e, cancel_deployment, may) (cancel_row-IsAnswered now id s)
        | inr barred ↦ rw (e, cancel_deployment, barred) refl
      ]
    ]
