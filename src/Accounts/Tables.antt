-- ===== src/Accounts/Tables.antt =====
-- The users, teams, team_members and invitations tables (packages/db/src/schema.ts), and the answers
-- of the services on them.
use kubwave.Common.{ℕ, String, Bool, true, false, ◌&&◌, Option, none, some, List, ◌==◌}

pub record User : Type 0 where
  pub id : ℕ
  pub name : String
  pub email : String
  pub password : String
  pub is_admin : Bool
  pub created_at : ℕ
  pub updated_at : ℕ

pub data Role : Type 0 where
  owner member : Role

pub record Team : Type 0 where
  pub id : ℕ
  pub name : String
  pub default_for_user_id : Option ℕ
  pub created_by_user_id : Option ℕ
  pub created_at : ℕ
  pub updated_at : ℕ

pub record TeamMember : Type 0 where
  pub team_id : ℕ
  pub user_id : ℕ
  pub role : Role
  pub created_at : ℕ

pub record Invitation : Type 0 where
  pub id : ℕ
  pub email : String
  pub token_hash : String
  pub is_admin : Bool
  pub invited_by : Option ℕ
  pub expires_at : ℕ
  pub accepted_at : Option ℕ
  pub created_at : ℕ

pub record Accounts : Type 0 where
  pub users : List User
  pub teams : List Team
  pub team_members : List TeamMember
  pub invitations : List Invitation

-- The errors that the services throw.
pub data AccountError : Type 0 where
  team_not_found team_forbidden member_not_found team_user_not_found : AccountError
  already_member last_owner : AccountError
  invite_not_found invite_already_used invite_expired invite_email_in_use : AccountError
  user_not_found last_admin self_delete self_demotion : AccountError
  default_team_failed : AccountError

pub data Answer {ℓ} (A : Type ℓ) : Type ℓ where
  granted : A → Answer A
  refused : AccountError → Answer A

abbrev pub is_owner : Role → Bool
is_owner owner = true
is_owner member = false

abbrev pub same_role : Role → Role → Bool
same_role owner owner = true
same_role member member = true
same_role _ _ = false

-- `eq(column, id)` on a column that may be null
abbrev pub is_id : Option ℕ → ℕ → Bool
is_id none n = false
is_id (some k) n = k == n

abbrev pub is_member : ℕ → ℕ → TeamMember → Bool
is_member team user m = m.team_id == team && m.user_id == user

abbrev pub is_owner_of : ℕ → TeamMember → Bool
is_owner_of team m = m.team_id == team && is_owner m.role
