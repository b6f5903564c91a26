-- ===== src/Deployments/Writes.antt =====
-- Each write of the worker and of the user is sound: rows follow the status graph, and the table's
-- invariant holds after it. `row` may be stale.
use kubwave.Common.{
  ℕ, ◌+◌, ◌≡◌, refl, ◌⊎◌, inl, inr, Bool, true, false, Option, none, some, String, List, arith,
  update_where, leb, if◌then◌else◌, ◌<>◌,
}
use kubwave.Store.{Store, Deployment, DeploymentStatus, deploying, canceling, DeploymentLogEntry}
use kubwave.Deployments.Logs.{row_in, set_final, FinalFields, finalize, update_and_log}
use kubwave.Deployments.Outcomes.{
  ReconcileState, ready, progressing, broken, ReconcileResult, apply_reconcile_result,
  handle_reconcile_error, reassert_deployment_lease, persist_deployment_image_ref, set_progress,
  set_last_error, set_lease, set_image_ref, active_status, apply_state,
}
use kubwave.Deployments.Cancel.{
  Context, final_canceled, finish_canceled, update_canceling_progress, rollback_failed,
  record_rollback_failure, max_cancel_rollback_attempts, set_rollback_failure, fail_rollback,
  roll_back, apply_rollback_state, apply_rollback,
}
use kubwave.Deployments.Rows.{TableInv, Sound, Sound-refl, update_all-Sound, may_move}

pub update_and_log-deployments :
    (p : Deployment → Bool) (f : Deployment → Deployment) (id : ℕ) (es : List DeploymentLogEntry)
    (s : Store)
    → (update_and_log p f id es s).deployments ≡ update_where p f s.deployments
update_and_log-deployments p f id es s = ground arith

pub finalize-Sound :
    (now id : ℕ) (a : DeploymentStatus) (fields : FinalFields) (es : List DeploymentLogEntry)
    (s : Store)
    → may_move a fields.status ≡ true
    → (a ≡ deploying) ⊎ (a ≡ canceling)
    → TableInv s.deployments
    → Sound s.deployments (finalize now id a fields es s).deployments
unfolding finalize
finalize-Sound now id a fields es s m o inv =
    rw (update_and_log-deployments (row_in id a) (set_final now fields) id es s) (
      update_all-Sound (row_in id a) (set_final now fields) s.deployments (λ x h. ground arith) inv)

progress-Sound :
    (id : ℕ) (a : DeploymentStatus) (phase : String) (es : List DeploymentLogEntry) (s : Store)
    → TableInv s.deployments
    → Sound s.deployments (update_and_log (row_in id a) (set_progress phase) id es s).deployments
progress-Sound id a phase es s inv =
    rw (update_and_log-deployments (row_in id a) (set_progress phase) id es s)
      (update_all-Sound (row_in id a) (set_progress phase) s.deployments (λ x h. ground arith) inv)

apply_state-Sound :
    (now : ℕ) (row : Deployment) (state : ReconcileState) (es : List DeploymentLogEntry) (s : Store)
    → TableInv s.deployments
    → Sound s.deployments (apply_state now row state es s).deployments
apply_state-Sound now row ready es s inv =
    finalize-Sound now row.id deploying _ _ s refl (inl refl) inv
apply_state-Sound now row (broken message) es s inv =
    finalize-Sound now row.id deploying _ _ s refl (inl refl) inv
apply_state-Sound now row (progressing phase) es s inv =
    progress-Sound row.id deploying phase _ s inv

pub apply_reconcile_result-Sound :
    (now : ℕ) (row : Deployment) (result : ReconcileResult) (s : Store)
    → TableInv s.deployments
    → Sound s.deployments (apply_reconcile_result now row result s).deployments
unfolding apply_reconcile_result
apply_reconcile_result-Sound now row result s inv =
    apply_state-Sound now row result.state result.events s inv

pub handle_reconcile_error-Sound :
    (now : ℕ) (row : Deployment) (message : String) (s : Store)
    → TableInv s.deployments
    → Sound s.deployments (handle_reconcile_error now row message s).deployments
unfolding handle_reconcile_error
handle_reconcile_error-Sound now row message s inv =
    rw
      (update_and_log-deployments (row_in row.id (active_status row.status))
        (set_last_error message) row.id _ s)
      (update_all-Sound (row_in row.id (active_status row.status)) (set_last_error message)
        s.deployments (λ x h. ground arith) inv)

pub reassert_deployment_lease-Sound :
    (worker : String) (now : ℕ) (row : Deployment) (s : Store)
    → TableInv s.deployments
    → Sound s.deployments (reassert_deployment_lease worker now row s).deployments
unfolding reassert_deployment_lease
reassert_deployment_lease-Sound worker now row s inv =
    update_all-Sound _ (set_lease worker now) s.deployments (λ x h. ground arith) inv

pub persist_deployment_image_ref-Sound :
    (id : ℕ) (ref : String) (s : Store)
    → TableInv s.deployments
    → Sound s.deployments (persist_deployment_image_ref id ref s).deployments
unfolding persist_deployment_image_ref
persist_deployment_image_ref-Sound id ref s inv =
    update_all-Sound _ (set_image_ref ref) s.deployments (λ x h. ground arith) inv

pub update_canceling_progress-Sound :
    (now : ℕ) (row : Deployment) (phase : String) (es : List DeploymentLogEntry) (s : Store)
    → TableInv s.deployments
    → Sound s.deployments (update_canceling_progress now row phase es s).deployments
unfolding update_canceling_progress
update_canceling_progress-Sound now row phase es s inv =
    progress-Sound row.id canceling phase _ s inv

if-Sound :
    (b : Bool) (t : List Deployment) (s u : Store)
    → Sound t s.deployments
    → Sound t u.deployments
    → Sound t (if b then s else u).deployments
if-Sound true t s u h k = h
if-Sound false t s u h k = k

rollback_retry-Sound :
    (c : Context) (row : Deployment) (message : String) (es : List DeploymentLogEntry) (n : ℕ)
    (s : Store)
    → TableInv s.deployments
    → Sound s.deployments (record_rollback_failure c row message es n s).deployments
unfolding record_rollback_failure
rollback_retry-Sound c row message es n s inv =
    rw
      (update_and_log-deployments (row_in row.id canceling)
        (set_rollback_failure n ("Cancel rollback failed: " <> message)) row.id _ s)
      (update_all-Sound (row_in row.id canceling)
        (set_rollback_failure n ("Cancel rollback failed: " <> message)) s.deployments
        (λ x h. ground arith) inv)

rollback_failed-Sound :
    (c : Context) (row : Deployment) (message : String) (es : List DeploymentLogEntry) (s : Store)
    → TableInv s.deployments
    → Sound s.deployments (rollback_failed c row message es s).deployments
unfolding rollback_failed
rollback_failed-Sound c row message es s inv =
    if-Sound
      (leb (max_cancel_rollback_attempts c.reconcile_interval_ms) (row.rollback_attempts + 1)) _
      (fail_rollback c row ("Cancel rollback failed: " <> message) es (row.rollback_attempts + 1) s)
      (record_rollback_failure c row message es (row.rollback_attempts + 1) s)
      (finalize-Sound c.now row.id canceling _ _ s refl (inr refl) inv)
      (rollback_retry-Sound c row message es (row.rollback_attempts + 1) s inv)

roll_back-Sound :
    (c : Context) (row : Deployment) (o : Option String) (state : ReconcileState)
    (es : List DeploymentLogEntry) (s : Store)
    → TableInv s.deployments
    → Sound s.deployments (roll_back c row o state es s).deployments
roll_back-Sound c row (some message) state es s inv = rollback_failed-Sound c row message es s inv
roll_back-Sound c row none (progressing phase) es s inv =
    update_canceling_progress-Sound c.now row phase es s inv
roll_back-Sound c row none ready es s inv = Sound-refl s.deployments inv
roll_back-Sound c row none (broken m) es s inv = Sound-refl s.deployments inv

apply_rollback_state-Sound :
    (c : Context) (row previous : Deployment) (state : ReconcileState)
    (es : List DeploymentLogEntry) (s : Store)
    → TableInv s.deployments
    → Sound s.deployments (apply_rollback_state c row previous state es s).deployments
apply_rollback_state-Sound c row previous ready es s inv =
    finalize-Sound c.now row.id canceling _ _ s refl (inr refl) inv
apply_rollback_state-Sound c row previous (progressing phase) es s inv =
    roll_back-Sound c row _ (progressing phase) es s inv
apply_rollback_state-Sound c row previous (broken m) es s inv =
    roll_back-Sound c row _ (broken m) es s inv

pub apply_rollback-Sound :
    (c : Context) (row previous : Deployment) (result : ReconcileResult) (s : Store)
    → TableInv s.deployments
    → Sound s.deployments (apply_rollback c row previous result s).deployments
unfolding apply_rollback
apply_rollback-Sound c row previous result s inv =
    apply_rollback_state-Sound c row previous result.state result.events s inv

pub finish_canceled-Sound :
    (c : Context) (row : Deployment) (es : List DeploymentLogEntry) (s : Store)
    → TableInv s.deployments
    → Sound s.deployments (finish_canceled c row es s).0.deployments
finish_canceled-Sound c row es s inv =
    finalize-Sound c.now row.id canceling final_canceled es s refl (inr refl) inv
