-- ===== src/Deployments/History.antt =====
-- Every history of the deployments table: any interleaving of the writes of users, pollers and
-- workers, each one statement or transaction of the database, with any copies of rows, stale or not,
-- and the deletions that reach the table by cascade.
use kubwave.Common.{
  ℕ, Bool, false, not, ◌||◌, ◌≡◌, ◌⊎◌, inl, inr, refl, Option, String, List, ◌++◌, map, any, ◌==◌,
  select_where, subst, sym,
}
use kubwave.Store.{Store, Deployment, DeploymentLogEntry, DeploymentTrigger, ServiceConfig}
use kubwave.Deployments.Enqueue.{DeploySource, enqueue}
use kubwave.Deployments.Claim.{Setting, claim_pending, reserve_build_deployment}
use kubwave.Deployments.Request.{cancel_row}
use kubwave.Deployments.Outcomes.{
  ReconcileResult, apply_reconcile_result, handle_reconcile_error, reassert_deployment_lease,
  persist_deployment_image_ref,
}
use kubwave.Deployments.Cancel.{Context, finish_canceled, apply_rollback}
use kubwave.Deployments.Rows.{TableInv, Sound, Sound-refl}
use kubwave.Deployments.Writes.{
  apply_reconcile_result-Sound, handle_reconcile_error-Sound, reassert_deployment_lease-Sound,
  persist_deployment_image_ref-Sound, finish_canceled-Sound, apply_rollback-Sound,
}
use kubwave.Deployments.Admission.{enqueue-Sound, cancel_row-Sound, reserve_build_deployment-Sound}
use kubwave.Deployments.ClaimLaws.{claim_pending-Sound}
use kubwave.Deployments.Batches.{
  IsFreshBatch, append-Sound, forget_user, forget_user-Sound, remove-TableInv,
}
use kubwave.Previews.Plan.{PreviewServiceRow}
use kubwave.Previews.Clone.{CloneInputs, preview_deployment}
use kubwave.Store.Cascade.{without_services}

pub data Step (s : Store) : Store → Type 0 where
  -- A user, a new commit or a new digest queues a deployment under a fresh id.
  queue :
      (now id : ℕ) (service : DeploySource) (config : ServiceConfig) (trigger : DeploymentTrigger)
      (user : Option ℕ) (message : String)
      → any (λ d. d.id == id) s.deployments ≡ false
      → Step s (enqueue now id service config trigger user message s)
  claiming :
      (worker : String) (now : ℕ) (setting : Setting) (is_locked : ℕ → Bool)
      → Step s (claim_pending worker now setting is_locked s).0
  reserve : (id : ℕ) (setting : Setting) → Step s (reserve_build_deployment id setting s).0
  request : (now id : ℕ) → Step s (cancel_row now id s).0
  lease :
      (worker : String) (now : ℕ) (row : Deployment)
      → Step s (reassert_deployment_lease worker now row s)
  image : (id : ℕ) (ref : String) → Step s (persist_deployment_image_ref id ref s)
  result :
      (now : ℕ) (row : Deployment) (r : ReconcileResult)
      → Step s (apply_reconcile_result now row r s)
  problem :
      (now : ℕ) (row : Deployment) (message : String)
      → Step s (handle_reconcile_error now row message s)
  finish :
      (c : Context) (row : Deployment) (es : List DeploymentLogEntry)
      → Step s (finish_canceled c row es s).0
  roll_back :
      (c : Context) (row previous : Deployment) (r : ReconcileResult)
      → Step s (apply_rollback c row previous r s)
  -- The clone of a preview queues a deployment of each of its new services.
  clone :
      (inputs : CloneInputs) (rows : List PreviewServiceRow)
      → IsFreshBatch s.deployments (map (preview_deployment inputs) rows)
      → Step s (record s { deployments = s.deployments ++ map (preview_deployment inputs) rows })
  -- A user is deleted.
  forget : (user : ℕ) → Step s (forget_user user s)
  -- Services are deleted: by a request, with their environment or project, or with a preview.
  delete : (gone : ℕ → Bool) → Step s (without_services gone s)
  -- A write to other tables.
  elsewhere : {t : Store} → t.deployments ≡ s.deployments → Step s t

pub data Reach (s : Store) : Store → Type 0 where
  here : Reach s s
  next : {t u : Store} → Reach s t → Step t u → Reach s u

-- The services that a step deletes, and those that a history deletes in some step.
abbrev pub deletes : {s t : Store} → Step s t → ℕ → Bool
deletes (delete gone) service = gone service
deletes (queue now id source config trigger user message fresh) service = false
deletes (claiming worker now setting is_locked) service = false
deletes (reserve id setting) service = false
deletes (request now id) service = false
deletes (lease worker now row) service = false
deletes (image id ref) service = false
deletes (result now row r) service = false
deletes (problem now row message) service = false
deletes (finish c row es) service = false
deletes (roll_back c row previous r) service = false
deletes (clone inputs rows fresh) service = false
deletes (forget user) service = false
deletes (elsewhere e) service = false

abbrev pub has_deleted : {s t : Store} → Reach s t → ℕ → Bool
has_deleted here service = false
has_deleted (next r step) service = has_deleted r service || deletes step service

-- What a step makes of the table: either each row follows the status graph with its id, service,
-- snapshot and creation time kept and a recorded image never replaced, and new rows are queued; or
-- the rows of the services that the step deletes are gone.
abbrev pub Effect : {s t : Store} → Step s t → Type 0
Effect {s} {t} step =
    Sound s.deployments t.deployments
    ⊎ (t.deployments
        ≡ select_where (λ (d : Deployment). not (deletes step d.service_id)) s.deployments)

pub Step-Effect : {s t : Store} (step : Step s t) → TableInv s.deployments → Effect step
unfolding without_services
Step-Effect {s} (queue now id service config trigger user message fresh) inv =
    inl (enqueue-Sound now id service config trigger user message s fresh inv)
Step-Effect {s} (claiming worker now setting is_locked) inv =
    inl (claim_pending-Sound worker now setting is_locked s inv)
Step-Effect {s} (reserve id setting) inv = inl (reserve_build_deployment-Sound id setting s inv)
Step-Effect {s} (request now id) inv = inl (cancel_row-Sound now id s inv)
Step-Effect {s} (lease worker now row) inv =
    inl (reassert_deployment_lease-Sound worker now row s inv)
Step-Effect {s} (image id ref) inv = inl (persist_deployment_image_ref-Sound id ref s inv)
Step-Effect {s} (result now row r) inv = inl (apply_reconcile_result-Sound now row r s inv)
Step-Effect {s} (problem now row message) inv =
    inl (handle_reconcile_error-Sound now row message s inv)
Step-Effect {s} (finish c row es) inv = inl (finish_canceled-Sound c row es s inv)
Step-Effect {s} (roll_back c row previous r) inv = inl (apply_rollback-Sound c row previous r s inv)
Step-Effect {s} (clone inputs rows fresh) inv =
    inl (append-Sound inputs s.deployments rows fresh inv)
Step-Effect {s} (forget user) inv = inl (forget_user-Sound user s inv)
Step-Effect {s} (delete gone) inv = inr refl
Step-Effect {s} (elsewhere e) inv =
    inl (subst (Sound s.deployments) (sym e) (Sound-refl s.deployments inv))

Effect-TableInv :
    {s t : Store} (step : Step s t) → Effect step → TableInv s.deployments → TableInv t.deployments
Effect-TableInv step (inl h) inv = h.inv
Effect-TableInv {s} step (inr e) inv =
    subst TableInv (sym e) (remove-TableInv (λ d. deletes step d.service_id) s.deployments inv)

-- In every history that starts from a table where each id names one row, and each service has at
-- most one queued deployment and at most one that is deploying or canceling, the table it leads to
-- is so too.
pub Reach-TableInv : {s t : Store} → Reach s t → TableInv s.deployments → TableInv t.deployments
Reach-TableInv here inv = inv
Reach-TableInv (next r step) inv =
    let before = Reach-TableInv r inv in Effect-TableInv step (Step-Effect step before) before
