-- ===== src/Store/Services.antt =====
-- The services table (packages/db/src/schema.ts).
use kubwave.Common.{ℕ, String, Bool, Option}
use kubwave.Store.Config.{ServiceType, ServiceConfig}

pub record Service : Type 0 where
  pub id : ℕ
  pub environment_id : ℕ
  pub name : String
  pub description : String
  pub type : ServiceType
  pub config : ServiceConfig
  pub auto_deploy_enabled : Bool
  pub last_polled_commit : Option String
  pub last_polled_at : Option ℕ
  pub next_poll_at : Option ℕ
  pub last_poll_error : Option String
  pub image_watch_enabled : Bool
  pub last_watched_digest : Option String
  pub last_watched_at : Option ℕ
  pub next_watch_at : Option ℕ
  pub last_watch_error : Option String
  pub created_at : ℕ
  pub updated_at : ℕ
