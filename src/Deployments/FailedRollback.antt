-- ===== src/Deployments/FailedRollback.antt =====
-- One pass over a canceled deployment whose rollback fails.
use kubwave.Common.{
  ◌≡◌, ◌∙◌, ap, refl, Bool, true, false, ◌&&◌, none, some, String, List, [], ◌∷◌, arith,
  if◌then◌else◌, ◌≢◌,
}
use kubwave.Store.{
  Store, Deployment, ServiceType, DeploymentLogEntry, is_build_type, is_canceling, is_build_phase,
  ServiceConfig, canceling, DeploymentStatus, warn,
}
use kubwave.Deployments.Logs.{log_entry}
use kubwave.Deployments.Cancel.{
  Call, returned, thrown, rollback, Context, Resolution, resolved, unresolved, crashed, restore,
  rollback_result, reconcile_canceling, apply_rollback, apply_rollback_state, roll_back,
  cancel_deployed, previous_successful_deployment, cancel_rollback_error, rollback_failed,
  cancel_run, running_job, finish_build, cancel_building, cleanup_entries, Pass, ask, write, ◌>>=◌,
}
use kubwave.Deployments.Outcomes.{ReconcileState, ready, progressing, broken, ReconcileResult}
use kubwave.Deployments.Reconcile.{reconcile_active, deploy}

-- A result that counts as a failed rollback.
abbrev pub IsFailure : ReconcileResult → Type 0
IsFailure r = (m : String) × (cancel_rollback_error r.state ≡ some m)

-- Nothing throws, and each deployer answers a rollback with a failure or with a phase that starts with
-- `error:`; a rollback that is just under way is no failure.
pub record IsFailing (c : Context) : Type 0 where
  pub reachable : (b : Bool) × (c.cluster.ensure_namespace c.environment_id ≡ returned b)
  pub readable : (config : ServiceConfig) (m : String) → c.resolve_config config ≢ crashed m
  pub failing :
      (type : ServiceType) (d : Deployment) (s : Store)
      → (r : ReconcileResult) × ((c.cluster.get_deployer type).reconcile d rollback s
          ≡ (s, returned r))
        × IsFailure r

rollback_result-fails :
    (c : Context) (type : ServiceType) (previous : Deployment) (x : Resolution) (s : Store)
    → IsFailing c
    → ((m : String) → x ≢ crashed m)
    → (r : ReconcileResult) × (rollback_result (c.cluster.get_deployer type) previous x s
        ≡ (s, returned r))
      × IsFailure r
unfolding cancel_rollback_error
rollback_result-fails c type previous (resolved config) s h n =
    h.failing type (record previous { config = config }) s
rollback_result-fails c type previous (unresolved m) s h n =
    (record { state = broken m; events = [] }, refl, (_, refl))
rollback_result-fails c type previous (crashed m) s h n = absurd (n m refl)

ready-none : cancel_rollback_error ready ≡ none
unfolding cancel_rollback_error
ready-none = refl

apply_rollback-fails :
    (c : Context) (row previous : Deployment) (state : ReconcileState)
    (es : List DeploymentLogEntry) (m : String) (s : Store)
    → cancel_rollback_error state ≡ some m
    → apply_rollback_state c row previous state es s ≡ rollback_failed c row m es s
apply_rollback-fails c row previous ready es m s e = absurd (cc (e, ready-none))
apply_rollback-fails c row previous (progressing phase) es m s e =
    ap (λ o. roll_back c row o (progressing phase) es s) e
apply_rollback-fails c row previous (broken text) es m s e =
    ap (λ o. roll_back c row o (broken text) es s) e

-- A pass goes on with what its first part returned.
pub bind-returned :
    {A B : Type 0} (m : Pass A) (f : A → Pass B) (a : A) (s t : Store)
    → m s ≡ (t, returned a)
    → (m >>= f) s ≡ f a t
bind-returned {A} {B} m f a s t e =
    ap
      (λ (p : Store × Call A). elim p.1 as (λ _. Store × Call B) [
        | returned a ↦ f a p.0
        | thrown x ↦ (p.0, thrown x)
      ])
      e

restore-fails :
    (c : Context) (row previous : Deployment) (s : Store)
    → IsFailing c
    → (m : String) × (es : List DeploymentLogEntry) × (restore c row (some previous) s
        ≡ (rollback_failed c row m es s, returned true))
unfolding apply_rollback
restore-fails c row previous s h =
    let (b, up) = h.reachable in
    let config = c.resolve_config previous.config in
    let back = rollback_result (c.cluster.get_deployer previous.type) previous config in
    let (r, e, (m, bad)) =
      rollback_result-fails c previous.type previous config s h (h.readable previous.config) in
    let then_write : ReconcileResult → Pass Bool =
      λ result. write (apply_rollback c row previous result) in
    (
      m,
      r.events,
      bind-returned (ask (c.cluster.ensure_namespace c.environment_id)) (λ _. back >>= then_write) b
            s s (ap (λ call. (s, call)) up)
          ∙ bind-returned back then_write r s s e
          ∙ ap (λ t. (t, returned true))
              (apply_rollback-fails c row previous r.state r.events m s bad),
    )

cancel_run-plain :
    (c : Context) (row : Deployment) (s : Store)
    → is_build_type row.type ≡ false
    → cancel_run c row s ≡ (s, returned false)
cancel_run-plain c row s e = rw e refl

running_job-plain :
    (c : Context) (row : Deployment) (s : Store)
    → is_build_type row.type ≡ false
    → running_job c row s ≡ (s, returned false)
running_job-plain c row s e = rw e refl

reconcile_canceling-plain :
    (c : Context) (row : Deployment) (s : Store)
    → is_build_type row.type ≡ false
    → reconcile_canceling c row s ≡ restore c row (previous_successful_deployment row s) s
unfolding reconcile_canceling
reconcile_canceling-plain c row s e =
    let entries = log_entry c.now warn "canceled" "Build canceled" ∷ [] in
    bind-returned (cancel_run c row)
      (λ was_open.
        if was_open && is_build_phase row.phase
        then finish_build c row entries
        else cancel_building c row)
      false s s (cancel_run-plain c row s e)
    ∙ bind-returned (running_job c row)
        (λ runs. if runs then finish_build c row (cleanup_entries c.now) else cancel_deployed c row)
        false s s (running_job-plain c row s e)

-- A pass over a deployment that is rolled back is a restoration.
pub canceling-restore :
    (c : Context) (row previous : Deployment) (s : Store)
    → row.status ≡ canceling
    → is_build_type row.type ≡ false
    → previous_successful_deployment row s ≡ some previous
    → reconcile_active c row s ≡ restore c row (some previous) s
canceling-restore c row previous s st type p =
    ap
      (λ b. (if b then reconcile_canceling c row else deploy c row (c.resolve_config row.config)) s)
      (status_eq row.status st)
    ∙ reconcile_canceling-plain c row s type
    ∙ ap (λ o. restore c row o s) p
  where
    status_eq : (a : DeploymentStatus) → a ≡ canceling → is_canceling a ≡ true
    status_eq a st = ground arith

-- A pass over a deployment that is rolled back counts one more failed attempt.
pub reconcile_active-fails :
    (c : Context) (row previous : Deployment) (s : Store)
    → IsFailing c
    → row.status ≡ canceling
    → is_build_type row.type ≡ false
    → previous_successful_deployment row s ≡ some previous
    → (m : String) × (es : List DeploymentLogEntry) × (reconcile_active c row s
        ≡ (rollback_failed c row m es s, returned true))
reconcile_active-fails c row previous s h st type p =
    let (m, es, e) = restore-fails c row previous s h in
    (m, es, canceling-restore c row previous s st type p ∙ e)
