-- ===== src/Deployments/StalledRollback.antt =====
-- One pass over a canceled deployment whose rollback throws or is still under way.
use kubwave.Common.{
  ◌≡◌, ◌∙◌, ap, refl, Bool, true, false, none, some, String, List, ◌≢◌, subst, sym,
}
use kubwave.Store.{
  Store, Deployment, ServiceType, DeploymentLogEntry, is_build_type, ServiceConfig, canceling,
}
use kubwave.Deployments.Cancel.{
  Call, returned, thrown, rollback, Context, Resolution, resolved, unresolved, crashed, restore,
  rollback_result, apply_rollback, apply_rollback_state, roll_back, previous_successful_deployment,
  cancel_rollback_error, Pass, ask, write, ◌>>=◌, update_canceling_progress,
}
use kubwave.Deployments.Outcomes.{progressing, ReconcileResult}
use kubwave.Deployments.Reconcile.{reconcile_active}
use kubwave.Deployments.FailedRollback.{bind-returned, canceling-restore}

-- What a rollback that is just under way, or whose deployer throws, comes back with.
abbrev pub IsWaiting : Call ReconcileResult → Type 0
IsWaiting (thrown message) = Unit
IsWaiting (returned r) =
    (phase : String) × (r.state ≡ progressing phase)
    × (cancel_rollback_error (progressing phase) ≡ none)

-- The namespace cannot be had; or it can, and each deployer throws or is still under way with the
-- rollback, or the reading of the configuration throws.
pub data IsStalled (c : Context) : Type 0 where
  unreachable : (m : String) → c.cluster.ensure_namespace c.environment_id ≡ thrown m → IsStalled c
  waiting :
      (b : Bool)
      → c.cluster.ensure_namespace c.environment_id ≡ returned b
      → ((config : ServiceConfig) (m : String) → c.resolve_config config ≢ unresolved m)
      → ((type : ServiceType) (d : Deployment) (s : Store)
          → (r : Call ReconcileResult) × ((c.cluster.get_deployer type).reconcile d rollback s
              ≡ (s, r))
            × IsWaiting r)
      → IsStalled c

bind-thrown :
    {A B : Type 0} (m : Pass A) (f : A → Pass B) (x : String) (s t : Store)
    → m s ≡ (t, thrown x)
    → (m >>= f) s ≡ (t, thrown x)
bind-thrown {A} {B} m f x s t e =
    ap
      (λ (p : Store × Call A). elim p.1 as (λ _. Store × Call B) [
        | returned a ↦ f a p.0
        | thrown y ↦ (p.0, thrown y)
      ])
      e

-- What a pass that settles nothing comes to: it throws with the store as it was, or notes the phase.
pub data Stalls (c : Context) (row : Deployment) (s : Store) : Store × Call Bool → Type 0 where
  throws : (m : String) (p : Store × Call Bool) → p ≡ (s, thrown m) → Stalls c row s p
  goes_on :
      (phase : String) (es : List DeploymentLogEntry) (p : Store × Call Bool)
      → p ≡ (update_canceling_progress c.now row phase es s, returned true)
      → Stalls c row s p

rollback_result-stalls :
    (c : Context) (type : ServiceType) (previous : Deployment) (x : Resolution) (s : Store)
    → ((m : String) → x ≢ unresolved m)
    → ((type : ServiceType) (d : Deployment) (s : Store)
        → (r : Call ReconcileResult) × ((c.cluster.get_deployer type).reconcile d rollback s
            ≡ (s, r))
          × IsWaiting r)
    → (r : Call ReconcileResult) × (rollback_result (c.cluster.get_deployer type) previous x s
        ≡ (s, r))
      × IsWaiting r
rollback_result-stalls c type previous (resolved config) s n h =
    h type (record previous { config = config }) s
rollback_result-stalls c type previous (unresolved m) s n h = absurd (n m refl)
rollback_result-stalls c type previous (crashed m) s n h = (thrown m, refl, tt)

apply_rollback-stalls :
    (c : Context) (row previous : Deployment) (r : ReconcileResult) (phase : String) (s : Store)
    → r.state ≡ progressing phase
    → cancel_rollback_error (progressing phase) ≡ none
    → apply_rollback c row previous r s ≡ update_canceling_progress c.now row phase r.events s
unfolding apply_rollback
apply_rollback-stalls c row previous r phase s e quiet =
    ap (λ state. apply_rollback_state c row previous state r.events s) e
    ∙ ap (λ o. roll_back c row o (progressing phase) r.events s) quiet

restore-Stalls :
    (c : Context) (row previous : Deployment) (s : Store)
    → IsStalled c
    → Stalls c row s (restore c row (some previous) s)
restore-Stalls c row previous s (unreachable m down) =
    let back =
      rollback_result (c.cluster.get_deployer previous.type) previous
        (c.resolve_config previous.config) in
    let then_write : ReconcileResult → Pass Bool =
      λ result. write (apply_rollback c row previous result) in
    throws m _ (
      bind-thrown (ask (c.cluster.ensure_namespace c.environment_id)) (λ _. back >>= then_write) m s
        s (ap (λ call. (s, call)) down))
restore-Stalls c row previous s (waiting b up readable h) =
    let config = c.resolve_config previous.config in
    let back = rollback_result (c.cluster.get_deployer previous.type) previous config in
    let (r, e, waits) =
      rollback_result-stalls c previous.type previous config s (readable previous.config) h in
    let then_write : ReconcileResult → Pass Bool =
      λ result. write (apply_rollback c row previous result) in
    answered r e waits (
      bind-returned (ask (c.cluster.ensure_namespace c.environment_id)) (λ _. back >>= then_write) b
        s s (ap (λ call. (s, call)) up))
  where
    answered :
        (r : Call ReconcileResult)
        → rollback_result
            (c.cluster.get_deployer previous.type)
            previous
            (c.resolve_config previous.config)
            s
          ≡ (s, r)
        → IsWaiting r
        → restore c row (some previous) s
          ≡ (rollback_result
                  (c.cluster.get_deployer previous.type)
                  previous
                  (c.resolve_config previous.config)
                >>= λ result. write (apply_rollback c row previous result))
              s
        → Stalls c row s (restore c row (some previous) s)
    answered (thrown m) e waits first = throws m _ (
        first
        ∙ bind-thrown
            (rollback_result (c.cluster.get_deployer previous.type) previous
              (c.resolve_config previous.config))
            (λ result. write (apply_rollback c row previous result)) m s s e)
    answered (returned r) e (phase, state, quiet) first = goes_on phase r.events _ (
        first
        ∙ bind-returned
            (rollback_result (c.cluster.get_deployer previous.type) previous
              (c.resolve_config previous.config))
            (λ result. write (apply_rollback c row previous result)) r s s e
        ∙ ap (λ t. (t, returned true)) (apply_rollback-stalls c row previous r phase s state quiet))

pub reconcile_active-Stalls :
    (c : Context) (row previous : Deployment) (s : Store)
    → IsStalled c
    → row.status ≡ canceling
    → is_build_type row.type ≡ false
    → previous_successful_deployment row s ≡ some previous
    → Stalls c row s (reconcile_active c row s)
reconcile_active-Stalls c row previous s h st type p =
    subst (Stalls c row s) (sym (canceling-restore c row previous s st type p))
      (restore-Stalls c row previous s h)
