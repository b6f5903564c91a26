-- ===== src/Accounts/Users.antt =====
-- Administration of users (apps/backend/src/modules/platform/users/platform-users.service.ts). Deleting
-- a user takes the user's memberships along, and clears the columns that name the user.
use kubwave.Common.{
  ℕ, String, Bool, false, not, ◌&&◌, Option, none, some, ◌==◌, if◌then◌else◌, map, trim,
  select_where, update_where, count_where, leb,
}
use kubwave.Accounts.Tables.{
  User, Team, Invitation, Accounts, user_not_found, last_admin, self_delete, self_demotion, Answer,
  granted, refused,
}
use kubwave.Accounts.Members.{find_user}

-- The columns that the view of a user has: all but the password.
pub record PlatformUserView : Type 0 where
  pub id : ℕ
  pub name : String
  pub email : String
  pub is_admin : Bool
  pub created_at : ℕ
  pub updated_at : ℕ

abbrev pub to_view : User → PlatformUserView
to_view u = record {
  id = u.id;
  name = u.name;
  email = u.email;
  is_admin = u.is_admin;
  created_at = u.created_at;
  updated_at = u.updated_at;
}

pub record UpdatePlatformUserInput : Type 0 where
  pub name : Option String
  pub is_admin : Option Bool

unfoldable pub admin_count : Accounts → ℕ
admin_count s = count_where (λ u. u.is_admin) s.users

abbrev pub name_or : Option String → String → String
name_or none name = name
name_or (some new) name = trim new

abbrev pub admin_or : Option Bool → Bool → Bool
admin_or none b = b
admin_or (some new) b = new

abbrev pub patch_user : ℕ → UpdatePlatformUserInput → User → User
patch_user now input u = record u {
  name = name_or input.name u.name;
  is_admin = admin_or input.is_admin u.is_admin;
  updated_at = now;
}

abbrev pub demotes : Option Bool → Bool
demotes none = false
demotes (some b) = not b

abbrev pub write_patch :
    ℕ → UpdatePlatformUserInput → User → Accounts → Accounts × Answer PlatformUserView
write_patch now input target s = (
  record s { users = update_where (λ u. u.id == target.id) (patch_user now input) s.users },
  granted (to_view (patch_user now input target)),
)

abbrev pub patch_found :
    ℕ → UpdatePlatformUserInput → ℕ → Accounts → Option User → Accounts × Answer PlatformUserView
patch_found now input acting s none = (s, refused user_not_found)
patch_found now input acting s (some target) =
    if demotes input.is_admin && target.is_admin
    then if leb (count_where (λ u. u.is_admin) s.users) 1
      then (s, refused last_admin)
      else if target.id == acting
      then (s, refused self_demotion)
      else write_patch now input target s
    else write_patch now input target s

unfoldable pub update_user :
    ℕ → ℕ → UpdatePlatformUserInput → ℕ → Accounts → Accounts × Answer PlatformUserView
update_user now target input acting s = patch_found now input acting s (find_user target s.users)

abbrev pub cleared : ℕ → Option ℕ → Option ℕ
cleared id none = none
cleared id (some n) = if n == id then none else some n

abbrev pub forget_in_team : ℕ → Team → Team
forget_in_team id t = record t {
  default_for_user_id = cleared id t.default_for_user_id;
  created_by_user_id = cleared id t.created_by_user_id;
}

abbrev pub forget_in_invitation : ℕ → Invitation → Invitation
forget_in_invitation id i = record i { invited_by = cleared id i.invited_by }

abbrev pub without_user : ℕ → Accounts → Accounts
without_user id s = record {
  users = select_where (λ u. not (u.id == id)) s.users;
  teams = map (forget_in_team id) s.teams;
  team_members = select_where (λ m. not (m.user_id == id)) s.team_members;
  invitations = map (forget_in_invitation id) s.invitations;
}

abbrev pub erase_found : ℕ → Accounts → Option User → Accounts × Answer (Unit {0})
erase_found acting s none = (s, refused user_not_found)
erase_found acting s (some target) =
    if target.is_admin && leb (count_where (λ u. u.is_admin) s.users) 1
    then (s, refused last_admin)
    else if target.id == acting
    then (s, refused self_delete)
    else (without_user target.id s, granted tt)

unfoldable pub delete_user : ℕ → ℕ → Accounts → Accounts × Answer (Unit {0})
delete_user target acting s = erase_found acting s (find_user target s.users)
