-- ===== src/Deployments/Pauses.antt =====
-- What one pass makes of a row whose rollback throws or is still under way: no attempt is counted.
use kubwave.Common.{
  ℕ, ◌≡◌, ◌∙◌, ap, refl, Bool, true, false, some, String, List, arith, if◌then◌else◌, update_where,
  subst, sym,
}
use kubwave.Store.{
  Store, Deployment, DeploymentLogEntry, is_build_type, is_in_flight, canceling, DeploymentStatus,
  is_succeeded,
}
use kubwave.Deployments.Logs.{row_in}
use kubwave.Deployments.Cancel.{
  Context, previous_successful_deployment, Call, update_canceling_progress,
}
use kubwave.Deployments.Outcomes.{
  reassert_deployment_lease, set_lease, handle_reconcile_error, set_last_error, set_progress,
  active_status,
}
use kubwave.Deployments.Claim.{find_deployment}
use kubwave.Deployments.Writes.{update_and_log-deployments}
use kubwave.Deployments.Reconcile.{reconcile_one, catch_error, reconcile_active}
use kubwave.Deployments.StalledRollback.{
  IsStalled, Stalls, throws, goes_on, reconcile_active-Stalls,
}
use kubwave.Deployments.Attempts.{
  IsRollingBack, tick, tick_found, leased, lease-previous, previous-update, written-found,
}

-- A pass over a row whose rollback does not come to an end.
tick-caught :
    (c : Context) (id : ℕ) (row : Deployment) (s : Store)
    → find_deployment id s.deployments ≡ some row
    → row.status ≡ canceling
    → tick c id s
      ≡ catch_error c row
          (reconcile_active c row (reassert_deployment_lease c.worker_id c.now row s))
unfolding tick reconcile_one
tick-caught c id row s found st =
    ap (tick_found c s) found
    ∙ ap (λ b. if b then reconcile_one c row s else s) (in_flight row.status st)
  where
    in_flight : (a : DeploymentStatus) → a ≡ canceling → is_in_flight a ≡ true
    in_flight a st = ground arith

module _ (c : Context) (id k : ℕ) (s : Store) (b : IsRollingBack id k s) where
  -- An update of the row that keeps what the rollback reads leaves it in its rollback.
  written-IsRollingBack :
      (f : Deployment → Deployment) (t : Store)
      → ((x : Deployment) → (f x).id ≡ x.id)
      → ((x : Deployment) → (f x).status ≡ x.status)
      → ((x : Deployment) → (f x).type ≡ x.type)
      → ((x : Deployment) → (f x).rollback_attempts ≡ x.rollback_attempts)
      → previous_successful_deployment (f (set_lease c.worker_id c.now b.row)) t
        ≡ previous_successful_deployment b.row t
      → t.deployments ≡ update_where (row_in b.row.id canceling) f (leased c id k s b).deployments
      → IsRollingBack id k t
  written-IsRollingBack f t same_id same_status same_type same_attempts same_previous e =
      let x = set_lease c.worker_id c.now b.row in
      record {
        row = f x;
        found = written-found c id k s b f t same_id e;
        is_canceled = same_status x ∙ b.is_canceled;
        is_plain = ap is_build_type (same_type x) ∙ b.is_plain;
        after = same_attempts x ∙ b.after;
        previous = b.previous;
        has_previous =
            same_previous
            ∙ previous-update b.row (row_in b.row.id canceling) f (leased c id k s b) t e
                (λ y h. quiet y (f y) (same_status y) h)
            ∙ lease-previous c.worker_id c.now b.row s
            ∙ b.has_previous;
      }
    where
      quiet :
          (y z : Deployment)
          → z.status ≡ y.status
          → row_in b.row.id canceling y ≡ true
          → (is_succeeded y.status ≡ false) × (is_succeeded z.status ≡ false)
      quiet y z e h = ground arith

  thrown-IsRollingBack :
      (m : String) → IsRollingBack id k (handle_reconcile_error c.now b.row m (leased c id k s b))
  unfolding handle_reconcile_error previous_successful_deployment
  thrown-IsRollingBack m =
      written-IsRollingBack (set_last_error m)
        (handle_reconcile_error c.now b.row m (leased c id k s b)) (λ x. refl) (λ x. refl)
        (λ x. refl) (λ x. refl) refl
        (update_and_log-deployments (row_in b.row.id (active_status b.row.status))
            (set_last_error m) b.row.id _ (leased c id k s b)
          ∙ ap
              (λ a.
                update_where (row_in b.row.id a) (set_last_error m) (leased c id k s b).deployments)
              (ap active_status b.is_canceled))

  progress-IsRollingBack :
      (phase : String) (es : List DeploymentLogEntry)
      → IsRollingBack id k (update_canceling_progress c.now b.row phase es (leased c id k s b))
  unfolding update_canceling_progress previous_successful_deployment
  progress-IsRollingBack phase es =
      written-IsRollingBack (set_progress phase)
        (update_canceling_progress c.now b.row phase es (leased c id k s b)) (λ x. refl) (λ x. refl)
        (λ x. refl) (λ x. refl) refl
        (update_and_log-deployments (row_in b.row.id canceling) (set_progress phase) b.row.id _
          (leased c id k s b))

  -- A pass that settles nothing counts no attempt, and the row is still being canceled.
  pub stalled-IsRollingBack : IsStalled c → IsRollingBack id k (tick c id s)
  stalled-IsRollingBack h =
      subst (IsRollingBack id k) (sym (tick-caught c id b.row s b.found b.is_canceled)) (
        settled (reconcile_active c b.row (leased c id k s b)) (
          reconcile_active-Stalls c b.row b.previous (leased c id k s b) h b.is_canceled b.is_plain
            (lease-previous c.worker_id c.now b.row s ∙ b.has_previous)))
    where
      settled :
          (p : Store × Call Bool)
          → Stalls c b.row (leased c id k s b) p
          → IsRollingBack id k (catch_error c b.row p)
      settled p (throws m _ e) =
          subst (λ q. IsRollingBack id k (catch_error c b.row q)) (sym e) (thrown-IsRollingBack m)
      settled p (goes_on phase es _ e) =
          subst (λ q. IsRollingBack id k (catch_error c b.row q)) (sym e)
            (progress-IsRollingBack phase es)
