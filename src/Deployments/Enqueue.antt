-- ===== src/Deployments/Enqueue.antt =====
-- Queueing a deployment: by a user (apps/backend/src/modules/deployments/deployments.service.ts), by a
-- new commit (worker/jobs/git-poll/enqueue.ts) and by a new image digest
-- (worker/jobs/registry-tag-watch/enqueue.ts). The row's id and its creation time are what the
-- database fills in, `id` and `now`. Access of the acting user is checked before.
use Prim.Native.String.{slice}
use kubwave.Common.{
  ℕ, String, Bool, ◌&&◌, Option, none, some, [], ◌∷◌, ◌++◌, ◌==◌, update_where, ◌<>◌,
}
use kubwave.Store.{
  Store, Deployment, superseded, pending, is_pending, DeploymentTrigger, manual, auto, ServiceType,
  ServiceConfig, info,
}
use kubwave.Deployments.Logs.{log_entry, insert_logs}

-- The columns of a service row that a deployment snapshots.
pub record DeploySource : Type 0 where
  pub id : ℕ
  pub type : ServiceType
  pub config : ServiceConfig

abbrev pub pending_of : ℕ → Deployment → Bool
pending_of service_id d = d.service_id == service_id && is_pending d.status

abbrev pub set_superseded : ℕ → Deployment → Deployment
set_superseded now d = record d { status = superseded; finished_at = some now }

abbrev pub queued_row :
    ℕ → ℕ → DeploySource → ServiceConfig → DeploymentTrigger → Option ℕ → Deployment
queued_row now id service config trigger user = record {
  id = id;
  service_id = service.id;
  type = service.type;
  config = config;
  image_ref = none;
  status = pending;
  phase = none;
  last_error = none;
  locked_by = none;
  locked_at = none;
  attempts = 0;
  rollback_attempts = 0;
  trigger = trigger;
  triggered_by_user_id = user;
  started_at = none;
  finished_at = none;
  created_at = now;
}

-- The statements that the three transactions share: supersede what is pending, insert, log.
unfoldable pub enqueue :
    ℕ → ℕ → DeploySource → ServiceConfig → DeploymentTrigger → Option ℕ → String → Store → Store
enqueue now id service config trigger user message s =
    let replaced = update_where (pending_of service.id) (set_superseded now) s.deployments in
    let row = queued_row now id service config trigger user in
    insert_logs id (log_entry now info "queued" message ∷ [])
      (record s { deployments = replaced ++ row ∷ [] })

unfoldable pub enqueue_deployment : ℕ → ℕ → ℕ → DeploySource → Store → Store
unfolding enqueue
enqueue_deployment now id user service =
    enqueue now id service service.config manual (some user) "Queued"

abbrev pub pin_commit : ServiceConfig → String → ServiceConfig
pin_commit config commit = record config { commit = some commit }

unfoldable pub enqueue_auto_deployment : ℕ → ℕ → DeploySource → String → Store → Store
unfolding enqueue
enqueue_auto_deployment now id service commit =
    enqueue now id service (pin_commit service.config commit) auto none
      ("Auto-deploy: new commit " <> slice commit 0 7)

abbrev pub pin_digest : ServiceConfig → String → ServiceConfig
pin_digest config digest = record config { digest = some digest }

unfoldable pub enqueue_watch_deployment : ℕ → ℕ → DeploySource → String → Store → Store
unfolding enqueue
enqueue_watch_deployment now id service digest =
    enqueue now id service (pin_digest service.config digest) auto none
      ("Tag watch: new digest " <> slice digest 0 12)
