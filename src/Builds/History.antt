-- ===== src/Builds/History.antt =====
-- Every history of the build_runs table: any interleaving of the writes of workers, build servers,
-- administrators and the sweep, each one statement or transaction of the database. Copies of runs may
-- be stale, and deployments may be deleted.
use kubwave.Common.{
  ℕ, ◌≡◌, ◌⊎◌, inl, inr, refl, sym, subst, Bool, true, false, not, ◌||◌, Option, String, any, ◌==◌,
  select_where,
}
use kubwave.Store.{Store, BuildRun, BuildSettings, is_open}
use kubwave.Store.Cascade.{without_runs}
use kubwave.Builds.Runs.{
  ensure_build_run, reserve_build_run, mark_cluster_build_started, finish_build_run,
  publish_agent_build, cancel_build_run,
}
use kubwave.Builds.Maintain.{maintain_build_run}
use kubwave.Builds.Agents.{revoke_agent, remove_agent}
use kubwave.Builds.Tasks.{TaskRef, renew_task, claim}
use kubwave.Builds.Results.{report_source, report_result}
use kubwave.Builds.Rows.{RunsInv, RunsSound, RunsSound-refl, remove-RunsInv}
use kubwave.Builds.Writes.{
  ensure_build_run-RunsSound, mark_started-RunsSound, finish_build_run-RunsSound, publish-RunsSound,
  cancel_build_run-RunsSound, reserve_build_run-RunsSound,
}
use kubwave.Builds.TaskWrites.{
  revoke_agent-RunsSound, remove_agent-RunsSound, maintain_build_run-RunsSound,
  report_source-RunsSound, renew_task-RunsSound, claim-RunsSound, report_result-RunsSound,
}

module _ (hash : String → String) (decrypt : String → Option String)
    (redact : Option String → String → String) where
  pub data RunWrite (s : Store) : Store → Type 0 where
    ensure :
        (now id deployment_id : ℕ) (settings : BuildSettings)
        → any (λ r. r.id == id) s.build_runs ≡ false
        → RunWrite s (ensure_build_run now id deployment_id settings s)
    reserve :
        (now : ℕ) (live : BuildSettings) (architecture : String) (id : ℕ)
        → RunWrite s (reserve_build_run now live architecture id s).0
    start : (now id : ℕ) (image : String) → RunWrite s (mark_cluster_build_started now id image s)
    finish :
        (now id : ℕ) (success : Bool) (e : Option String)
        → RunWrite s (finish_build_run now id success e s)
    publish :
        (run : BuildRun) (payload image : String)
        → RunWrite s (publish_agent_build run payload image s)
    cancel : (now deployment_id : ℕ) → RunWrite s (cancel_build_run now deployment_id s).0
    -- The sweep's copy was open when the sweep selected it.
    maintain :
        (now : ℕ) (run : BuildRun)
        → is_open run.status ≡ true
        → RunWrite s (maintain_build_run now run s)
    renewing :
        (now agent_id : ℕ) (task : TaskRef) → RunWrite s (renew_task hash now agent_id task s)
    lease :
        (now : ℕ) (token : String) (id : ℕ) (is_locked : ℕ → Bool)
        → RunWrite s (claim hash decrypt now token id is_locked s).0
    source :
        (now agent_id : ℕ) (task : TaskRef) (commit : String)
        → RunWrite s (report_source hash now agent_id task commit s).0
    result :
        (now agent_id : ℕ) (task : TaskRef) (success : Bool) (message : Option String)
        → RunWrite s (report_result hash redact now agent_id task success message s).0
    revoke : (now id : ℕ) → RunWrite s (revoke_agent now id s).0
    remove : (id : ℕ) → RunWrite s (remove_agent id s).0
    -- Deployments are deleted, and their runs with them.
    delete : (gone : ℕ → Bool) → RunWrite s (without_runs gone s)
    -- A write to other tables.
    elsewhere : {t : Store} → t.build_runs ≡ s.build_runs → RunWrite s t

  pub data RunReach (s : Store) : Store → Type 0 where
    here : RunReach s s
    next : {t u : Store} → RunReach s t → RunWrite t u → RunReach s u

-- The deployments that a write deletes, and those that a history deletes in some write.
module _ {hash : String → String} {decrypt : String → Option String}
    {redact : Option String → String → String} where
  abbrev pub run_deletes : {s t : Store} → RunWrite hash decrypt redact s t → ℕ → Bool
  run_deletes (delete gone) deployment = gone deployment
  run_deletes (ensure now id deployment_id settings fresh) deployment = false
  run_deletes (reserve now live architecture id) deployment = false
  run_deletes (start now id image) deployment = false
  run_deletes (finish now id success e) deployment = false
  run_deletes (publish run payload image) deployment = false
  run_deletes (cancel now id) deployment = false
  run_deletes (maintain now run live) deployment = false
  run_deletes (renewing now agent_id task) deployment = false
  run_deletes (lease now token id is_locked) deployment = false
  run_deletes (source now agent_id task commit) deployment = false
  run_deletes (result now agent_id task success message) deployment = false
  run_deletes (revoke now id) deployment = false
  run_deletes (remove id) deployment = false
  run_deletes (elsewhere e) deployment = false

  abbrev pub runs_deleted : {s t : Store} → RunReach hash decrypt redact s t → ℕ → Bool
  runs_deleted here deployment = false
  runs_deleted (next r w) deployment = runs_deleted r deployment || run_deletes w deployment

  -- What a write makes of the table: either each run follows its status graph, or the runs of the
  -- deployments that the write deletes are gone.
  abbrev pub RunEffect : {s t : Store} → RunWrite hash decrypt redact s t → Type 0
  RunEffect {s} {t} w =
      RunsSound s.build_runs t.build_runs
      ⊎ (t.build_runs
          ≡ select_where (λ (r : BuildRun). not (run_deletes w r.deployment_id)) s.build_runs)

module _ (hash : String → String) (decrypt : String → Option String)
    (redact : Option String → String → String) where
  pub RunWrite-RunEffect :
      {s t : Store} (w : RunWrite hash decrypt redact s t) → RunsInv s.build_runs → RunEffect w
  RunWrite-RunEffect {s} (ensure now id deployment_id settings fresh) inv =
      inl (ensure_build_run-RunsSound now id deployment_id settings s fresh inv)
  RunWrite-RunEffect {s} (reserve now live architecture id) inv =
      inl (reserve_build_run-RunsSound now live architecture id s inv)
  RunWrite-RunEffect {s} (start now id image) inv = inl (mark_started-RunsSound now id image s inv)
  RunWrite-RunEffect {s} (finish now id success e) inv =
      inl (finish_build_run-RunsSound now id success e s inv)
  RunWrite-RunEffect {s} (publish run payload image) inv =
      inl (publish-RunsSound run payload image s inv)
  RunWrite-RunEffect {s} (cancel now id) inv = inl (cancel_build_run-RunsSound now id s inv)
  RunWrite-RunEffect {s} (maintain now run live) inv =
      inl (maintain_build_run-RunsSound now run s live inv)
  RunWrite-RunEffect {s} (renewing now agent_id task) inv =
      inl (renew_task-RunsSound hash now agent_id task s inv)
  RunWrite-RunEffect {s} (lease now token id is_locked) inv =
      inl (claim-RunsSound hash decrypt now token id is_locked s inv)
  RunWrite-RunEffect {s} (source now agent_id task commit) inv =
      inl (report_source-RunsSound hash now agent_id task commit s inv)
  RunWrite-RunEffect {s} (result now agent_id task success message) inv =
      inl (report_result-RunsSound hash redact now agent_id task success message s inv)
  RunWrite-RunEffect {s} (revoke now id) inv = inl (revoke_agent-RunsSound now id s inv)
  RunWrite-RunEffect {s} (remove id) inv = inl (remove_agent-RunsSound id s inv)
  RunWrite-RunEffect {s} (elsewhere e) inv =
      inl (subst (RunsSound s.build_runs) (sym e) (RunsSound-refl s.build_runs inv))
  RunWrite-RunEffect {s} (delete gone) inv = inr refl

  RunEffect-RunsInv :
      {s t : Store} (w : RunWrite hash decrypt redact s t)
      → RunEffect w
      → RunsInv s.build_runs
      → RunsInv t.build_runs
  RunEffect-RunsInv w (inl h) inv = h.inv
  RunEffect-RunsInv {s} w (inr e) inv =
      subst RunsInv (sym e) (remove-RunsInv (λ r. run_deletes w r.deployment_id) s.build_runs inv)

  -- In every history that starts from a table where each id names one run, each deployment has at
  -- most one, and no run is beyond two attempts, the table it leads to is so too.
  pub RunReach-RunsInv :
      {s t : Store} → RunReach hash decrypt redact s t → RunsInv s.build_runs → RunsInv t.build_runs
  RunReach-RunsInv here inv = inv
  RunReach-RunsInv (next r w) inv =
      let before = RunReach-RunsInv r inv in
      RunEffect-RunsInv w (RunWrite-RunEffect w before) before
