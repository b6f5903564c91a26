-- ===== src/Store/Environments.antt =====
-- The environments table (packages/db/src/schema.ts).
use kubwave.Common.{ℕ, String, Bool, true, false, Option}
use kubwave.Common.Units.{Units}

pub data EnvironmentKind : Type 0 where
  persistent preview : EnvironmentKind

pub record Environment : Type 0 where
  pub id : ℕ
  pub project_id : ℕ
  pub name : Units
  pub kind : EnvironmentKind
  pub pr_previews_enabled : Bool
  pub base_environment_id : Option ℕ
  pub pr_number : Option ℕ
  pub pr_repo_url : Option String
  pub pr_ref : Option String
  pub pr_next_poll_at : Option ℕ
  pub pr_last_polled_at : Option ℕ
  pub pr_last_poll_error : Option String
  pub created_at : ℕ
  pub updated_at : ℕ

abbrev pub is_preview : EnvironmentKind → Bool
is_preview persistent = false
is_preview preview = true
