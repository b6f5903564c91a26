-- ===== src/Deployments/Examples.antt =====
-- A table with two services: the first has a deployment that succeeded, one that is being canceled and
-- one that waits, the second one that waits.
use kubwave.Common.{
  ◌≤◌, ◌≡◌, refl, max, true, false, none, some, List, [], ◌∷◌, arith, count_where, select_where,
}
use kubwave.Store.{Store, Deployment, succeeded, canceling, pending, manual, docker_image}
use kubwave.Store.Cascade.{without_services}
use kubwave.Store.Samples.{sample_config, sample_deployment}
use kubwave.Deployments.Enqueue.{DeploySource, enqueue, pending_of, queued_row}
use kubwave.Deployments.Claim.{integer, claim_pending, find_deployment, is_occupying, normalize_max}
use kubwave.Deployments.Request.{cancel_row}
use kubwave.Deployments.Outcomes.{broken}
use kubwave.Deployments.Cancel.{Context, Deployer, returned, thrown, resolved}
use kubwave.Deployments.Claim.{reserve_build_deployment}
use kubwave.Deployments.Slots.{reserve_build_deployment-capacity}
use kubwave.Deployments.Fairness.{IsServed, claim_pending-IsServed}
use kubwave.Common.{All, ℕ, ◌==◌}
use kubwave.Store.{deploying}
use kubwave.Deployments.Request.{cancel_deployment}
use kubwave.Deployments.Cancellation.{IsAnswered, cancel_deployment-IsAnswered}
use kubwave.Deployments.Rows.{TableInv}
use kubwave.Deployments.Admission.{enqueue-select}
use kubwave.Deployments.ClaimLaws.{claim_pending-capacity}
use kubwave.Deployments.History.{Step, Reach, here, next, Reach-TableInv}
use kubwave.Deployments.Terminal.{IsKept, Reach-IsKept}

abbrev restored : Deployment
restored = sample_deployment 1 7 succeeded

abbrev canceled_one : Deployment
canceled_one = sample_deployment 2 7 canceling

abbrev table : List Deployment
table = restored ∷ canceled_one ∷ sample_deployment 3 7 pending ∷ sample_deployment 4 8 pending ∷ []

abbrev store : Store
store = record { deployments = table; deployment_logs = []; build_runs = []; build_agents = [] }

table-TableInv : TableInv table
table-TableInv = record {
  unique = λ k. ground arith;
  one_pending = λ k. ground arith;
  one_in_flight = λ k. ground arith;
}

-- A user asks to cancel the waiting deployment 3, and a worker claims what may start.
abbrev claimed : Store
claimed = (claim_pending "w" 9 (integer 3) (λ id. false) (cancel_row 8 3 store).0).0

-- Then the second service is deleted.
abbrev later : Store
later = without_services (λ service. service == 8) claimed

abbrev history : Reach store later
history =
    next (next (next here (Step.request 8 3)) (Step.claiming "w" 9 (integer 3) (λ id. false)))
      (Step.delete (λ service. service == 8))

Reach-TableInv_example : TableInv later.deployments
Reach-TableInv_example = Reach-TableInv history table-TableInv

Reach-IsKept_example :
    (y : Deployment) × (find_deployment 1 later.deployments ≡ some y) × IsKept restored y
Reach-IsKept_example = Reach-IsKept 1 restored history table-TableInv refl refl

claim_pending-capacity_example :
    count_where is_occupying (claim_pending "w" 9 (integer 3) (λ id. false) store).0.deployments
    ≤ max (normalize_max (integer 3)) (count_where is_occupying store.deployments)
claim_pending-capacity_example =
    claim_pending-capacity "w" 9 (integer 3) (λ id. false) store table-TableInv.unique

abbrev source : DeploySource
source = record { id = 7; type = docker_image; config = sample_config }

enqueue-select_example :
    select_where
      (pending_of 7)
      (enqueue 9 5 source sample_config manual none "Queued" store).deployments
    ≡ queued_row 9 5 source sample_config manual none ∷ []
enqueue-select_example = enqueue-select 9 5 source sample_config manual none "Queued" store

-- A cluster that gets no rollback through.
abbrev failing : Deployer
failing = record {
  reconcile = λ d mode s. (s, returned (record { state = broken "ImagePullBackOff"; events = [] }));
  teardown = λ service. returned true;
}

abbrev context_with : Deployer → Context
context_with deployer = record {
  now = 20;
  worker_id = "w";
  reconcile_interval_ms = 5000;
  environment_id = 1;
  cluster = record {
    delete_artifacts = λ id. returned true;
    has_running_build_job = λ id. returned false;
    ensure_namespace = λ id. returned true;
    get_deployer = λ type. deployer;
  };
  resolve_config = resolved;
}

-- A cluster that answers a rollback by an exception.
abbrev refusing : Deployer
refusing = record {
  reconcile = λ d mode s. (s, thrown "connection refused");
  teardown = λ service. returned true;
}

abbrev contexts : List Context
contexts =
    context_with failing
    ∷ context_with refusing
    ∷ context_with failing
    ∷ context_with failing
    ∷ context_with failing
    ∷ context_with failing
    ∷ context_with failing
    ∷ []

claim_pending-IsServed_example :
    All (IsServed (λ id. false) table (claim_pending "w" 9 (integer 3) (λ id. false) store).1) table
claim_pending-IsServed_example = claim_pending-IsServed "w" 9 (integer 3) (λ id. false) store

-- A deployment that has just been built.
abbrev built : Store
built = record store {
  deployments = record (sample_deployment 6 9 deploying) { phase = some "building" } ∷ table;
}

built_unique : (k : ℕ) → count_where (λ d. d.id == k) built.deployments ≤ 1
built_unique k = ground arith

reserve_build_deployment-capacity_example :
    count_where is_occupying (reserve_build_deployment 6 (integer 3) built).0.deployments
    ≤ max (normalize_max (integer 3)) (count_where is_occupying built.deployments)
reserve_build_deployment-capacity_example =
    reserve_build_deployment-capacity 6 (integer 3) built built_unique

cancel_deployment-IsAnswered_example :
    IsAnswered 3 store
      (cancel_deployment (λ id. true) 9 3 store).0
      (cancel_deployment (λ id. true) 9 3 store).1
cancel_deployment-IsAnswered_example = cancel_deployment-IsAnswered (λ id. true) 9 3 store
