-- ===== src/Accounts/Members.antt =====
-- Members of a team (apps/backend/src/modules/teams/teams.service.ts). No transaction holds a method's
-- check and its write together, so each is a function of its own; a method that runs alone is the
-- check and the write on one store. `lower` is PostgreSQL's function.
use text.Mathlib.Text.{◌==◌ as str_eq}
use kubwave.Common.{
  ℕ, String, Bool, not, ◌&&◌, ◌||◌, Option, none, some, List, [], ◌∷◌, ◌++◌, ◌==◌, if◌then◌else◌,
  find_where, select_where, update_where, count_where, sort_with, leb,
}
use kubwave.Accounts.Tables.{
  User, Role, owner, member, TeamMember, Accounts, team_forbidden, member_not_found,
  team_user_not_found, already_member, last_owner, Answer, granted, refused, is_owner, same_role,
  is_member, is_owner_of,
}
use kubwave.Accounts.Teams.{find_member, require_team_role, membership}

pub record TeamMemberView : Type 0 where
  pub user_id : ℕ
  pub name : String
  pub email : String
  pub role : Role
  pub joined_at : ℕ

abbrev pub to_member_view : User → TeamMember → TeamMemberView
to_member_view u m = record {
  user_id = m.user_id;
  name = u.name;
  email = u.email;
  role = m.role;
  joined_at = m.created_at;
}

abbrev pub find_user : ℕ → List User → Option User
find_user id = find_where (λ u. u.id == id)

unfoldable pub owner_count : ℕ → Accounts → ℕ
owner_count team s = count_where (is_owner_of team) s.team_members

-- Owners first, each by the time of joining.
abbrev pub listed_before : TeamMember → TeamMember → Bool
listed_before a b =
    is_owner a.role && not (is_owner b.role)
    || same_role a.role b.role && leb a.created_at b.created_at

abbrev pub cons_member : Option User → TeamMember → List TeamMemberView → List TeamMemberView
cons_member none m vs = vs
cons_member (some u) m vs = to_member_view u m ∷ vs

abbrev pub join_users : List User → List TeamMember → List TeamMemberView
join_users users [] = []
join_users users (m ∷ ms) = cons_member (find_user m.user_id users) m (join_users users ms)

abbrev pub list_allowed : ℕ → Accounts → Answer Role → Answer (List TeamMemberView)
list_allowed team s (refused e) = refused e
list_allowed team s (granted role) = granted (
    join_users s.users
      (sort_with listed_before (select_where (λ m. m.team_id == team) s.team_members)))

unfoldable pub list_team_members : ℕ → ℕ → Accounts → Answer (List TeamMemberView)
unfolding require_team_role
list_team_members acting team s = list_allowed team s (require_team_role acting team member s)

-- What a request asks the table for once its checks have passed.
pub data MemberWrite : Type 0 where
  insert_member : TeamMember → MemberWrite
  set_role : ℕ → ℕ → Role → MemberWrite
  delete_member : ℕ → ℕ → MemberWrite
  no_write : MemberWrite

abbrev pub with_role : Role → TeamMember → TeamMember
with_role role m = record m { role = role }

abbrev pub members_after : MemberWrite → List TeamMember → List TeamMember
members_after (insert_member m) ms = ms ++ m ∷ []
members_after (set_role team user role) ms = update_where (is_member team user) (with_role role) ms
members_after (delete_member team user) ms = select_where (λ m. not (is_member team user m)) ms
members_after no_write ms = ms

unfoldable pub apply_member_write : MemberWrite → Accounts → Accounts
apply_member_write w s = record s { team_members = members_after w s.team_members }

-- A method that runs alone: what its check asks for is written to the store that was checked.
abbrev pub run_alone {ℓ} : {A : Type ℓ} → Answer (MemberWrite × A) → Accounts → Accounts × Answer A
run_alone (refused e) s = (s, refused e)
run_alone (granted (w, a)) s =
    (record s { team_members = members_after w s.team_members }, granted a)

module _ (lower : String → String) where
  abbrev pub new_member : ℕ → ℕ → User → Option TeamMember → Answer (MemberWrite × TeamMemberView)
  new_member now team u (some m) = refused already_member
  new_member now team u none =
      let m = membership now team u.id member in granted (insert_member m, to_member_view u m)

  abbrev pub found_user : ℕ → ℕ → Accounts → Option User → Answer (MemberWrite × TeamMemberView)
  found_user now team s none = refused team_user_not_found
  found_user now team s (some u) = new_member now team u (find_member team u.id s.team_members)

  abbrev pub add_allowed :
      ℕ → ℕ → String → Accounts → Answer Role → Answer (MemberWrite × TeamMemberView)
  add_allowed now team email s (refused e) = refused e
  add_allowed now team email s (granted role) =
      found_user now team s (find_where (λ u. str_eq (lower u.email) (lower email)) s.users)

  unfoldable pub check_add : ℕ → ℕ → ℕ → String → Accounts → Answer (MemberWrite × TeamMemberView)
  unfolding require_team_role
  check_add now acting team email s =
      add_allowed now team email s (require_team_role acting team owner s)

  unfoldable pub add_team_member : ℕ → ℕ → ℕ → String → Accounts → Accounts × Answer TeamMemberView
  unfolding check_add
  add_team_member now acting team email s = run_alone (check_add now acting team email s) s

abbrev pub role_target :
    Role → ℕ → ℕ → TeamMember → User → ℕ → Answer (MemberWrite × TeamMemberView)
role_target role team target m u owners =
    if same_role m.role role
    then granted (no_write, to_member_view u m)
    else if is_owner m.role && not (is_owner role) && leb owners 1
    then refused last_owner
    else granted (set_role team target role, to_member_view u (with_role role m))

-- The membership joined with its user.
abbrev pub role_joined :
    Role → ℕ → ℕ → Accounts → TeamMember → Option User → Answer (MemberWrite × TeamMemberView)
role_joined role team target s m none = refused member_not_found
role_joined role team target s m (some u) =
    role_target role team target m u (count_where (is_owner_of team) s.team_members)

abbrev pub role_found :
    Role → ℕ → ℕ → Accounts → Option TeamMember → Answer (MemberWrite × TeamMemberView)
role_found role team target s none = refused member_not_found
role_found role team target s (some m) =
    role_joined role team target s m (find_user m.user_id s.users)

abbrev pub role_allowed :
    Role → ℕ → ℕ → Accounts → Answer Role → Answer (MemberWrite × TeamMemberView)
role_allowed role team target s (refused e) = refused e
role_allowed role team target s (granted acting_role) =
    role_found role team target s (find_member team target s.team_members)

unfoldable pub check_update : ℕ → ℕ → ℕ → Role → Accounts → Answer (MemberWrite × TeamMemberView)
unfolding require_team_role
check_update acting team target role s =
    role_allowed role team target s (require_team_role acting team owner s)

unfoldable pub update_team_member_role :
    ℕ → ℕ → ℕ → Role → Accounts → Accounts × Answer TeamMemberView
unfolding check_update
update_team_member_role acting team target role s =
    run_alone (check_update acting team target role s) s

abbrev pub remove_target : ℕ → ℕ → Accounts → Option TeamMember → Answer (MemberWrite × Unit {0})
remove_target team target s none = refused member_not_found
remove_target team target s (some m) =
    if is_owner m.role && leb (count_where (is_owner_of team) s.team_members) 1
    then refused last_owner
    else granted (delete_member team target, tt)

abbrev pub remove_allowed : ℕ → ℕ → ℕ → Accounts → Answer Role → Answer (MemberWrite × Unit {0})
remove_allowed acting team target s (refused e) = refused e
remove_allowed acting team target s (granted acting_role) =
    if not (target == acting) && not (is_owner acting_role)
    then refused team_forbidden
    else remove_target team target s (find_member team target s.team_members)

unfoldable pub check_remove : ℕ → ℕ → ℕ → Accounts → Answer (MemberWrite × Unit {0})
unfolding require_team_role
check_remove acting team target s =
    remove_allowed acting team target s (require_team_role acting team member s)

unfoldable pub remove_team_member : ℕ → ℕ → ℕ → Accounts → Accounts × Answer (Unit {0})
unfolding check_remove
remove_team_member acting team target s = run_alone (check_remove acting team target s) s
