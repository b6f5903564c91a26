-- ===== src/Builds/TaskWrites.antt =====
-- The writes of build servers, of the sweep and of administrators are sound too.
use text.Mathlib.TextEquality.{eq_iff}
use kubwave.Common.{
  ℕ, ◌+◌, ◌≡◌, refl, ◌⊎◌, inl, inr, Bool, true, not, ◌&&◌, Option, none, some, String, ◌==◌, arith,
  All-select, All-order_by, any, UniqueKeys, IsOnly, unique_rows, count_where, Bool-cases,
  Option-cases, leb, find_where, or_else,
}
use kubwave.Store.{Store, BuildRun, BuildAgent, ready, is_open, is_queued}
use kubwave.Builds.Runs.{lease_ms, is_of_agent, agent_available}
use kubwave.Builds.Agents.{revoke_agent, remove_agent, set_run_revoked}
use kubwave.Builds.Tasks.{
  TaskRef, renew_task, claim, claim_at, lease_next, lease_ciphertext, lease_payload, next_task,
  set_leased, is_claimable_task, is_running_at, is_renewable, set_lease_end, is_active_task,
}
use kubwave.Builds.Results.{
  report_source, set_source, is_null_or, is_source_of, report_result, write_result, set_result,
  result_error, active_task, is_completed,
}
use kubwave.Builds.Maintain.{maintain_build_run, maintain_of, maintain_live, set_queue_timeout}
use kubwave.Builds.Rows.{RunStep, RunsInv, RunsSound, RunsSound-refl, update_all-RunsSound}
use kubwave.Builds.Writes.{
  find_where-All, update_only-RunsSound, cancel_build_run-RunsSound, end_run-RunsSound,
}

pub revoke_agent-RunsSound :
    (now id : ℕ) (s : Store)
    → RunsInv s.build_runs
    → RunsSound s.build_runs (revoke_agent now id s).0.build_runs
unfolding revoke_agent
revoke_agent-RunsSound now id s inv = elim (Bool-cases (any (λ a. a.id == id) s.build_agents)) [
  | inl e ↦ rw e (
      update_all-RunsSound (is_of_agent id) (set_run_revoked now) s.build_runs (λ x h. ground arith)
        inv)
  | inr e ↦ rw e (RunsSound-refl s.build_runs inv)
]

pub remove_agent-RunsSound :
    (id : ℕ) (s : Store)
    → RunsInv s.build_runs
    → RunsSound s.build_runs (remove_agent id s).0.build_runs
unfolding remove_agent
remove_agent-RunsSound id s inv = elim (Bool-cases (any (is_of_agent id) s.build_runs)) [
  | inl e ↦ rw e (RunsSound-refl s.build_runs inv)
  | inr e ↦ rw e (
      update_all-RunsSound _ (λ r. record r { agent_id = none }) s.build_runs (λ x h. ground arith)
        inv)
]

pub maintain_build_run-RunsSound :
    (now : ℕ) (run : BuildRun) (s : Store)
    → is_open run.status ≡ true
    → RunsInv s.build_runs
    → RunsSound s.build_runs (maintain_build_run now run s).build_runs
unfolding maintain_build_run maintain_of maintain_live
maintain_build_run-RunsSound now run s live inv =
    let same = RunsSound-refl s.build_runs inv in
    let gone = cancel_build_run-RunsSound now run.deployment_id s inv in
    let ended = end_run-RunsSound now run s live inv in
    let late =
      update_all-RunsSound (λ r. r.id == run.id && is_queued r.status) (set_queue_timeout now)
        s.build_runs (λ x h. ground arith) inv in
    ground (arith, same, gone, ended, late)

module _ (hash : String → String) where
  source-RunStep :
      (now agent_id : ℕ) (task : TaskRef) (commit : String) (s : Store) (x : BuildRun)
      → is_source_of hash now agent_id task commit s x ≡ true
      → RunStep x (set_source hash commit x)
  source-RunStep now agent_id task commit s x h = record {
    same_id = refl;
    same_deployment = refl;
    same_settings = refl;
    more_attempts = omega arith;
    bounded = λ k. k;
    kept_commit = kept x.source_commit (ground arith);
    moves = ground arith;
    kept_attempt = λ k. refl;
  }
    where
      kept : (o : Option String) → is_null_or hash o commit ≡ true → (o ≡ none) ⊎ (some commit ≡ o)
      kept none e = inl refl
      kept (some t) e = inr (rw ((eq_iff t commit).0 e) refl)

  pub report_source-RunsSound :
      (now agent_id : ℕ) (task : TaskRef) (commit : String) (s : Store)
      → RunsInv s.build_runs
      → RunsSound s.build_runs (report_source hash now agent_id task commit s).0.build_runs
  unfolding report_source
  report_source-RunsSound now agent_id task commit s inv =
      update_all-RunsSound (is_source_of hash now agent_id task commit s) (set_source hash commit)
        s.build_runs (source-RunStep now agent_id task commit s) inv

  pub renew_task-RunsSound :
      (now agent_id : ℕ) (task : TaskRef) (s : Store)
      → RunsInv s.build_runs
      → RunsSound s.build_runs (renew_task hash now agent_id task s).build_runs
  unfolding renew_task
  renew_task-RunsSound now agent_id task s inv =
      update_all-RunsSound (is_renewable hash now agent_id task s.deployments)
        (set_lease_end hash (now + lease_ms)) s.build_runs (λ x h. ground arith) inv

  lease_payload-RunsSound :
      (decrypt : String → Option String) (now : ℕ) (token : String) (r : BuildRun)
      (payload : Option String) (s : Store)
      → IsOnly (λ x. x.id) s.build_runs r
      → r.status ≡ ready
      → RunsInv s.build_runs
      → RunsSound s.build_runs (lease_payload hash decrypt now token r payload s).0.build_runs
  lease_payload-RunsSound decrypt now token r none s only st inv = RunsSound-refl s.build_runs inv
  lease_payload-RunsSound decrypt now token r (some text) s only st inv =
      update_only-RunsSound (set_leased hash now token) r s.build_runs only (ground (arith, st)) inv

  lease_ciphertext-RunsSound :
      (decrypt : String → Option String) (now : ℕ) (token : String) (a : BuildAgent) (r : BuildRun)
      (o : Option String) (s : Store)
      → IsOnly (λ x. x.id) s.build_runs r
      → r.status ≡ ready
      → RunsInv s.build_runs
      → RunsSound s.build_runs (lease_ciphertext hash decrypt now token a r o s).0.build_runs
  lease_ciphertext-RunsSound decrypt now token a r none s only st inv =
      RunsSound-refl s.build_runs inv
  lease_ciphertext-RunsSound decrypt now token a r (some text) s only st inv =
      elim (Bool-cases
        (leb a.max_concurrent_builds (count_where (is_running_at hash a.id) s.build_runs))) [
          | inl full ↦ rw full (RunsSound-refl s.build_runs inv)
          | inr room ↦
              rw room (lease_payload-RunsSound decrypt now token r (decrypt text) s only st inv)
        ]

  -- The next task is a row of the table that is ready for the agent.
  pub next_task-found :
      (now id : ℕ) (is_locked : ℕ → Bool) (s : Store) (r : BuildRun)
      → next_task hash now id is_locked s ≡ some r
      → UniqueKeys (λ x. x.id) s.build_runs
      → IsOnly (λ x. x.id) s.build_runs r × (is_claimable_task hash now id s.deployments r ≡ true)
  unfolding next_task
  next_task-found now id is_locked s r e u =
      let free =
        λ (x : BuildRun). is_claimable_task hash now id s.deployments x && not (is_locked x.id) in
      let P = λ (x : BuildRun). IsOnly (λ x. x.id) s.build_runs x × (free x ≡ true) in
      let hit =
        find_where-All P (λ r. true) _ e
          (All-order_by P (λ r. r.created_at) _
            (All-select (IsOnly (λ x. x.id) s.build_runs) free s.build_runs
              (unique_rows (λ x. x.id) s.build_runs u))) in
      (hit.0.0, ground (arith, hit.0.1))

  lease_next-RunsSound :
      (decrypt : String → Option String) (now : ℕ) (token : String) (is_locked : ℕ → Bool)
      (a : BuildAgent) (s : Store)
      → RunsInv s.build_runs
      → RunsSound s.build_runs
          (lease_next hash decrypt now token a (next_task hash now a.id is_locked s) s).0.build_runs
  lease_next-RunsSound decrypt now token is_locked a s inv =
      elim (Option-cases (next_task hash now a.id is_locked s)) [
        | inl e ↦ rw e (RunsSound-refl s.build_runs inv)
        | inr (r, e) ↦
            let (only, free) = next_task-found now a.id is_locked s r e inv.unique in
            rw e (
              lease_ciphertext-RunsSound decrypt now token a r r.payload_ciphertext s only
                (ground arith) inv)
      ]

  claim_at-RunsSound :
      (decrypt : String → Option String) (now : ℕ) (token : String) (is_locked : ℕ → Bool)
      (o : Option BuildAgent) (s : Store)
      → RunsInv s.build_runs
      → RunsSound s.build_runs (claim_at hash decrypt now token is_locked o s).0.build_runs
  claim_at-RunsSound decrypt now token is_locked none s inv = RunsSound-refl s.build_runs inv
  claim_at-RunsSound decrypt now token is_locked (some a) s inv =
      elim (Bool-cases (agent_available now a (or_else a.architecture ""))) [
        | inl e ↦ rw e (lease_next-RunsSound decrypt now token is_locked a s inv)
        | inr e ↦ rw e (RunsSound-refl s.build_runs inv)
      ]

  -- A claim is sound: what it starts was ready for the agent.
  pub claim-RunsSound :
      (decrypt : String → Option String) (now : ℕ) (token : String) (id : ℕ) (is_locked : ℕ → Bool)
      (s : Store)
      → RunsInv s.build_runs
      → RunsSound s.build_runs (claim hash decrypt now token id is_locked s).0.build_runs
  unfolding claim
  claim-RunsSound decrypt now token id is_locked s inv =
      claim_at-RunsSound decrypt now token is_locked (find_where (λ a. a.id == id) s.build_agents) s
        inv

  module _ (redact : Option String → String → String) where
    write_result-RunsSound :
        (now agent_id : ℕ) (task : TaskRef) (success : Bool) (message : Option String)
        (o : Option BuildRun) (s : Store)
        → RunsInv s.build_runs
        → RunsSound s.build_runs
            (write_result hash redact now agent_id task success message o s).0.build_runs
    write_result-RunsSound now agent_id task success message none s inv =
        RunsSound-refl s.build_runs inv
    write_result-RunsSound now agent_id task success message (some run) s inv =
        update_all-RunsSound (is_active_task hash now agent_id task s.deployments)
          (set_result hash redact now success (result_error hash redact success message run))
          s.build_runs (λ x h. ground arith) inv

    pub report_result-RunsSound :
        (now agent_id : ℕ) (task : TaskRef) (success : Bool) (message : Option String) (s : Store)
        → RunsInv s.build_runs
        → RunsSound s.build_runs
            (report_result hash redact now agent_id task success message s).0.build_runs
    unfolding report_result
    report_result-RunsSound now agent_id task success message s inv =
        elim (Bool-cases (any (is_completed hash redact agent_id task success) s.build_runs)) [
          | inl e ↦ rw e (RunsSound-refl s.build_runs inv)
          | inr e ↦ rw e (
              write_result-RunsSound now agent_id task success message
                (active_task hash now agent_id task s) s inv)
        ]
