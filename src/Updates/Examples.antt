-- ===== src/Updates/Examples.antt =====
-- An update that succeeded long ago, and one that has been running for too long.
use kubwave.Common.{ℕ, ◌≡◌, refl, none, some, List, [], ◌∷◌, arith}
use kubwave.Deployments.Cancel.{returned}
use kubwave.Updates.Runs.{UpdateRun, UpdateStatus, running, succeeded, Job, reconcile_update_run}
use kubwave.Updates.Laws.{
  UpdateStep, here, next, find_update_run, UpdateReach-ended, HasEnded,
  reconcile_update_run-HasEnded,
}

abbrev run_with : ℕ → UpdateStatus → UpdateRun
run_with id status = record {
  id = id;
  to_version = "1.2.0";
  status = status;
  started_at = some 1000;
  finished_at = none;
  phase = none;
  last_error = none;
  job_name = some "update-1";
  created_at = 500;
}

abbrev table : List UpdateRun
table = run_with 1 succeeded ∷ run_with 2 running ∷ []

abbrev silent_job : Job
silent_job = record { succeeded_pods = 0; failed_pods = 0; conditions = [] }

abbrev later : List UpdateRun
later = reconcile_update_run 9000000 (run_with 1 running) (returned none) (returned none) table

UpdateReach-ended_example : find_update_run 1 later ≡ some (run_with 1 succeeded)
unfolding find_update_run
UpdateReach-ended_example =
    UpdateReach-ended 1 (run_with 1 succeeded)
      (next here
        (UpdateStep.reconcile 9000000 (run_with 1 running) (returned none) (returned none)))
      refl refl

reconcile_update_run-HasEnded_example : HasEnded 2 (
    reconcile_update_run 9000000
      (run_with 2 running)
      (returned (some silent_job))
      (returned none)
      table)
unfolding find_update_run
reconcile_update_run-HasEnded_example =
    reconcile_update_run-HasEnded 9000000 2 (run_with 2 running) (some silent_job) none table refl
      refl (omega arith) (omega arith)
