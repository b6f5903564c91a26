-- ===== src/Store/Cascade.antt =====
-- What deleting services takes along (`onDelete: 'cascade'` in packages/db/src/schema.ts): their
-- deployments, and the logs and build runs of these. A service goes by a user's request, with its
-- environment or project, and with a preview that is torn down.
use kubwave.Common.{ℕ, Bool, not, ◌&&◌, ◌==◌, any, select_where}
use kubwave.Store.{Store}

abbrev pub without_runs : (ℕ → Bool) → Store → Store
without_runs gone s = record s {
  build_runs = select_where (λ r. not (gone r.deployment_id)) s.build_runs;
}

abbrev pub is_gone : (ℕ → Bool) → Store → ℕ → Bool
is_gone gone s deployment = any (λ d. d.id == deployment && gone d.service_id) s.deployments

unfoldable pub without_services : (ℕ → Bool) → Store → Store
without_services gone s = record (without_runs (is_gone gone s) s) {
  deployments = select_where (λ d. not (gone d.service_id)) s.deployments;
  deployment_logs = select_where (λ l. not (is_gone gone s l.deployment_id)) s.deployment_logs;
}
