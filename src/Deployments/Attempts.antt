-- ===== src/Deployments/Attempts.antt =====
-- What one pass makes of a row whose rollback fails: one more attempt, or the end.
use kubwave.Common.{
  ℕ, ◌+◌, ◌≤◌, ◌<◌, ◌≡◌, ◌∙◌, ap, refl, Bool, true, false, ◌&&◌, Option, none, some, String, List,
  arith, if◌then◌else◌, ◌==◌, leb, select_where, update_where, select-update-eq, All-intro,
  sort_with, ◌<>◌,
}
use kubwave.Store.{
  Store, Deployment, DeploymentLogEntry, is_build_type, is_in_flight, canceling, failed,
  DeploymentStatus, is_succeeded,
}
use kubwave.Deployments.Logs.{row_in, set_final, finalize}
use kubwave.Deployments.Cancel.{
  Context, previous_successful_deployment, max_cancel_rollback_attempts, rollback_failed,
  fail_rollback, record_rollback_failure, set_rollback_failure, is_previous, first,
}
use kubwave.Deployments.Outcomes.{reassert_deployment_lease, set_lease}
use kubwave.Deployments.Claim.{find_deployment}
use kubwave.Deployments.Lookup.{find-update}
use kubwave.Deployments.Writes.{update_and_log-deployments}
use kubwave.Deployments.Reconcile.{reconcile_one, catch_error}
use kubwave.Deployments.FailedRollback.{IsFailing, reconcile_active-fails}

-- A pass of the worker over one row, which it takes up only while the row is in flight.
abbrev pub tick_found : Context → Store → Option Deployment → Store
tick_found c s none = s
tick_found c s (some row) = if is_in_flight row.status then reconcile_one c row s else s

unfoldable pub tick : Context → ℕ → Store → Store
tick c id s = tick_found c s (find_deployment id s.deployments)

pub tick-attempt :
    (c : Context) (id : ℕ) (row previous : Deployment) (s : Store)
    → IsFailing c
    → find_deployment id s.deployments ≡ some row
    → row.status ≡ canceling
    → is_build_type row.type ≡ false
    → previous_successful_deployment row (reassert_deployment_lease c.worker_id c.now row s)
      ≡ some previous
    → (m : String) × (es : List DeploymentLogEntry) × (tick c id s
        ≡ rollback_failed c row m es (reassert_deployment_lease c.worker_id c.now row s))
unfolding tick reconcile_one
tick-attempt c id row previous s h found st type p =
    let t = reassert_deployment_lease c.worker_id c.now row s in
    let (m, es, e) = reconcile_active-fails c row previous t h st type p in
    (
      m,
      es,
      ap (tick_found c s) found
          ∙ ap (λ b. if b then reconcile_one c row s else s) (in_flight row.status st)
          ∙ ap (catch_error c row) e,
    )
  where
    in_flight : (a : DeploymentStatus) → a ≡ canceling → is_in_flight a ≡ true
    in_flight a st = ground arith

-- The row `id` is being rolled back to some deployment, after `k` failed attempts.
pub record IsRollingBack (id k : ℕ) (s : Store) : Type 0 where
  pub row : Deployment
  pub found : find_deployment id s.deployments ≡ some row
  pub is_canceled : row.status ≡ canceling
  pub is_plain : is_build_type row.type ≡ false
  pub after : row.rollback_attempts ≡ k
  pub previous : Deployment
  pub has_previous : previous_successful_deployment row s ≡ some previous

-- The row `id` has failed.
pub record HasFailed (id : ℕ) (s : Store) : Type 0 where
  pub row : Deployment
  pub found : find_deployment id s.deployments ≡ some row
  pub is_failed : row.status ≡ failed

-- Updates of rows that have not succeeded, which leave them so, keep the previous deployment.
pub previous-update :
    (row : Deployment) (p : Deployment → Bool) (f : Deployment → Deployment) (s : Store) (t : Store)
    → t.deployments ≡ update_where p f s.deployments
    → ((x : Deployment)
        → p x ≡ true
        → (is_succeeded x.status ≡ false) × (is_succeeded (f x).status ≡ false))
    → previous_successful_deployment row t ≡ previous_successful_deployment row s
unfolding previous_successful_deployment
previous-update row p f s t e h =
    ap
      (λ rows.
        first
          (sort_with (λ a b. leb b.created_at a.created_at) (select_where (is_previous row) rows)))
      e
    ∙ ap (λ rows. first (sort_with (λ a b. leb b.created_at a.created_at) rows))
        (select-update-eq (is_previous row) p f s.deployments (
          All-intro
            (λ x. p x ≡ true → (is_previous row x ≡ false) × (is_previous row (f x) ≡ false))
            (λ x k. ground (arith, h x k)) s.deployments))

pub lease-previous :
    (worker : String) (now : ℕ) (row : Deployment) (s : Store)
    → previous_successful_deployment row (reassert_deployment_lease worker now row s)
      ≡ previous_successful_deployment row s
unfolding reassert_deployment_lease
lease-previous worker now row s =
    previous-update row (λ d. d.id == row.id && is_in_flight d.status) (set_lease worker now) s _
      refl (λ x k. ground arith)

lease-found :
    (worker : String) (now id : ℕ) (row : Deployment) (s : Store)
    → find_deployment id s.deployments ≡ some row
    → row.status ≡ canceling
    → find_deployment id (reassert_deployment_lease worker now row s).deployments
      ≡ some (set_lease worker now row)
unfolding reassert_deployment_lease
lease-found worker now id row s e st =
    find-update (λ d. d.id == row.id && is_in_flight d.status) (set_lease worker now) id
      s.deployments row (λ x. refl) e (ground arith)

-- A pass over the row whose write is an update of the row in status `canceling`.
module _ (c : Context) (id k : ℕ) (s : Store) (b : IsRollingBack id k s) where
  abbrev pub leased : Store
  leased = reassert_deployment_lease c.worker_id c.now b.row s

  pub written-found :
      (f : Deployment → Deployment) (t : Store)
      → ((x : Deployment) → (f x).id ≡ x.id)
      → t.deployments ≡ update_where (row_in b.row.id canceling) f leased.deployments
      → find_deployment id t.deployments ≡ some (f (set_lease c.worker_id c.now b.row))
  written-found f t same e =
      ap (find_deployment id) e
      ∙ find-update (row_in b.row.id canceling) f id leased.deployments
          (set_lease c.worker_id c.now b.row) same
          (lease-found c.worker_id c.now id b.row s b.found b.is_canceled)
          (ground (arith, b.is_canceled))

  fail-deployments :
      (m : String) (es : List DeploymentLogEntry) (n : ℕ)
      → (fail_rollback c b.row m es n leased).deployments
        ≡ update_where
            (row_in b.row.id canceling)
            (set_final c.now (record {
              status = failed;
              phase = "failed";
              last_error = some m;
              rollback_attempts = some n;
            }))
            leased.deployments
  unfolding finalize
  fail-deployments m es n =
      update_and_log-deployments (row_in b.row.id canceling) _ b.row.id _ leased

  pub failed-HasFailed :
      (m : String) (es : List DeploymentLogEntry)
      → max_cancel_rollback_attempts c.reconcile_interval_ms ≤ k + 1
      → HasFailed id (rollback_failed c b.row m es leased)
  unfolding rollback_failed
  failed-HasFailed m es le =
      let at : leb (max_cancel_rollback_attempts c.reconcile_interval_ms)
            (b.row.rollback_attempts + 1)
          ≡ true =
        ground (arith, b.after) in
      rw at (record {
        row = _;
        found =
            written-found _
              (fail_rollback c b.row ("Cancel rollback failed: " <> m) es
                (b.row.rollback_attempts + 1) leased)
              (λ x. refl)
              (fail-deployments ("Cancel rollback failed: " <> m) es (b.row.rollback_attempts + 1));
        is_failed = refl;
      })

  retried-previous :
      (n : ℕ) (m : String) (t : Store)
      → previous_successful_deployment
          (set_rollback_failure n m (set_lease c.worker_id c.now b.row))
          t
        ≡ previous_successful_deployment b.row t
  unfolding previous_successful_deployment
  retried-previous n m t = refl

  pub retried-IsRollingBack :
      (m : String) (es : List DeploymentLogEntry)
      → k + 1 < max_cancel_rollback_attempts c.reconcile_interval_ms
      → IsRollingBack id (k + 1) (rollback_failed c b.row m es leased)
  unfolding rollback_failed record_rollback_failure
  retried-IsRollingBack m es lt =
      let at : leb (max_cancel_rollback_attempts c.reconcile_interval_ms)
            (b.row.rollback_attempts + 1)
          ≡ false =
        ground (arith, b.after) in
      let e =
        update_and_log-deployments (row_in b.row.id canceling)
          (set_rollback_failure (b.row.rollback_attempts + 1) ("Cancel rollback failed: " <> m))
          b.row.id _ leased in
      rw at (record {
        row = _;
        found =
            written-found
              (set_rollback_failure (b.row.rollback_attempts + 1) ("Cancel rollback failed: " <> m))
              (record_rollback_failure c b.row m es (b.row.rollback_attempts + 1) leased)
              (λ x. refl) e;
        is_canceled = b.is_canceled;
        is_plain = b.is_plain;
        after = ap (λ n. n + 1) b.after;
        previous = b.previous;
        has_previous =
            retried-previous (b.row.rollback_attempts + 1) ("Cancel rollback failed: " <> m)
              (record_rollback_failure c b.row m es (b.row.rollback_attempts + 1) leased)
            ∙ previous-update b.row (row_in b.row.id canceling)
                (set_rollback_failure (b.row.rollback_attempts + 1)
                  ("Cancel rollback failed: " <> m))
                leased (record_rollback_failure c b.row m es (b.row.rollback_attempts + 1) leased) e
                (λ x h. ground arith)
            ∙ lease-previous c.worker_id c.now b.row s
            ∙ b.has_previous;
      })
