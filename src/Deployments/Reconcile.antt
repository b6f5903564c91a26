-- ===== src/Deployments/Reconcile.antt =====
-- One pass over the deployments in flight
-- (apps/backend/src/modules/worker/jobs/deployments/reconcile.ts and workflow/reconcile-one.ts).
use text.Mathlib.Text.{◌==◌ as str_eq}
use kubwave.Common.{
  ℕ, ◌-◌, String, Bool, false, ◌&&◌, ◌||◌, Option, none, some, List, [], ◌∷◌, ltb, if◌then◌else◌,
  select_where,
}
use kubwave.Store.{Store, Deployment, is_in_flight, is_canceling, ServiceConfig}
use kubwave.Deployments.Outcomes.{
  broken, apply_reconcile_result, handle_reconcile_error, reassert_deployment_lease,
}
use kubwave.Deployments.Cancel.{
  Call, returned, thrown, normal, Resolution, resolved, unresolved, crashed, Context, Pass, ask,
  write, ◌>>=◌, ◌>>◌, reconcile_canceling,
}

abbrev pub deploy_resolved : Context → Deployment → ServiceConfig → Pass Bool
deploy_resolved c row config = do
  ask (c.cluster.ensure_namespace c.environment_id)
  result ← (c.cluster.get_deployer row.type).reconcile (record row { config = config }) normal
  write (apply_reconcile_result c.now row result)

-- A configuration whose references cannot be resolved fails the deployment at once.
abbrev pub deploy : Context → Deployment → Resolution → Pass Bool
deploy c row (crashed message) s = (s, thrown message)
deploy c row (unresolved message) s =
    write (apply_reconcile_result c.now row (record { state = broken message; events = [] })) s
deploy c row (resolved config) s = deploy_resolved c row config s

-- The body of the `try`.
abbrev pub reconcile_active : Context → Deployment → Pass Bool
reconcile_active c row =
    if is_canceling row.status
    then reconcile_canceling c row
    else deploy c row (c.resolve_config row.config)

abbrev pub catch_error : Context → Deployment → Store × Call Bool → Store
catch_error c row (s, returned done) = s
catch_error c row (s, thrown message) = handle_reconcile_error c.now row message s

unfoldable pub reconcile_one : Context → Deployment → Store → Store
unfolding reassert_deployment_lease
reconcile_one c row s =
    catch_error c row (reconcile_active c row (reassert_deployment_lease c.worker_id c.now row s))

abbrev pub is_worker : Option String → String → Bool
is_worker none worker = false
is_worker (some w) worker = str_eq w worker

abbrev pub is_older : Option ℕ → ℕ → ℕ → Bool
is_older none now timeout = false
is_older (some t) now timeout = ltb t (now - timeout)

-- The rows that a worker takes up: its own, and those whose lease has run out.
unfoldable pub in_flight_rows : String → ℕ → ℕ → Store → List Deployment
in_flight_rows worker now lease_timeout s =
    select_where
      (λ d.
        is_in_flight d.status
        && (is_worker d.locked_by worker || is_older d.locked_at now lease_timeout))
      s.deployments

abbrev pub reconcile_known : Deployment → Option Context → Store → Store
reconcile_known row none s = s
reconcile_known row (some c) s = reconcile_one c row s

-- The loop of `reconcileInFlight`; `context_of` finds a row's context, and none for a service that
-- is gone.
unfoldable pub reconcile_each : (Deployment → Option Context) → List Deployment → Store → Store
reconcile_each context_of [] s = s
reconcile_each context_of (row ∷ rows) s =
    reconcile_each context_of rows (reconcile_known row (context_of row) s)

unfoldable pub reconcile_in_flight : (Deployment → Option Context) → String → ℕ → ℕ → Store → Store
unfolding in_flight_rows reconcile_each
reconcile_in_flight context_of worker now lease_timeout s =
    reconcile_each context_of (in_flight_rows worker now lease_timeout s) s
