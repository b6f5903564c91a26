-- ===== src/Accounts/Teams.antt =====
-- Teams themselves (apps/backend/src/modules/teams/teams.service.ts): their making, renaming and
-- deletion, and what a user sees of them. A fresh id and the clock are arguments, `id` and `now`.
use kubwave.Common.{
  ℕ, String, Bool, not, ◌&&◌, Option, none, some, List, [], ◌∷◌, ◌++◌, ◌==◌, if◌then◌else◌, trim,
  any, find_where, select_where, update_where, sort_with, ltb, leb, ◌||◌,
}
use kubwave.Accounts.Tables.{
  Role, owner, member, Team, TeamMember, Accounts, team_not_found, team_forbidden,
  default_team_failed, Answer, granted, refused, is_owner, is_id, is_member,
}

pub record TeamView : Type 0 where
  pub id : ℕ
  pub name : String
  pub role : Role
  pub is_default : Bool
  pub joined_at : ℕ

abbrev pub to_team_view : ℕ → TeamMember → Team → TeamView
to_team_view user m t = record {
  id = t.id;
  name = t.name;
  role = m.role;
  is_default = is_id t.default_for_user_id user;
  joined_at = m.created_at;
}

abbrev pub find_member : ℕ → ℕ → List TeamMember → Option TeamMember
find_member team user = find_where (is_member team user)

abbrev pub find_team : ℕ → List Team → Option Team
find_team id = find_where (λ t. t.id == id)

-- The check of a role that was found.
abbrev pub role_answer : Role → Option TeamMember → Answer Role
role_answer min none = refused team_not_found
role_answer owner (some m) = if is_owner m.role then granted m.role else refused team_forbidden
role_answer member (some m) = granted m.role

unfoldable pub require_team_role : ℕ → ℕ → Role → Accounts → Answer Role
require_team_role acting team min s = role_answer min (find_member team acting s.team_members)

-- A membership joined with its team.
abbrev pub joined_view : ℕ → TeamMember → Option Team → Option TeamView
joined_view user m none = none
joined_view user m (some t) = some (to_team_view user m t)

abbrev pub member_view : ℕ → ℕ → Accounts → Option TeamMember → Option TeamView
member_view user team s none = none
member_view user team s (some m) = joined_view user m (find_team team s.teams)

unfoldable pub load_team_view : ℕ → ℕ → Accounts → Option TeamView
load_team_view user team s = member_view user team s (find_member team user s.team_members)

abbrev pub found_view : Option TeamView → Answer TeamView
found_view none = refused team_not_found
found_view (some v) = granted v

unfoldable pub set_active_team_for_user : ℕ → ℕ → Accounts → Answer TeamView
unfolding load_team_view
set_active_team_for_user user team s = found_view (load_team_view user team s)

-- `order by created_at, team_id`
abbrev pub joined_before : TeamMember → TeamMember → Bool
joined_before a b =
    ltb a.created_at b.created_at || a.created_at == b.created_at && leb a.team_id b.team_id

abbrev pub memberships_of : ℕ → Accounts → List TeamMember
memberships_of user s =
    sort_with joined_before (select_where (λ m. m.user_id == user) s.team_members)

abbrev pub cons_view : Option TeamView → List TeamView → List TeamView
cons_view none vs = vs
cons_view (some v) vs = v ∷ vs

abbrev pub join_teams : ℕ → List Team → List TeamMember → List TeamView
join_teams user teams [] = []
join_teams user teams (m ∷ ms) =
    cons_view (joined_view user m (find_team m.team_id teams)) (join_teams user teams ms)

unfoldable pub list_teams_for_user : ℕ → Accounts → List TeamView
list_teams_for_user user s = join_teams user s.teams (memberships_of user s)

abbrev pub first_team : List TeamMember → Option ℕ
first_team [] = none
first_team (m ∷ ms) = some m.team_id

unfoldable pub first_team_id_for_user : ℕ → Accounts → Option ℕ
first_team_id_for_user user s = first_team (memberships_of user s)

abbrev pub first_view : List TeamView → Option ℕ
first_view [] = none
first_view (v ∷ vs) = some v.id

abbrev pub view_or_first : List TeamView → Option TeamView → Option ℕ
view_or_first vs none = first_view vs
view_or_first vs (some v) = some v.id

abbrev pub requested_view : List TeamView → Option ℕ → Option TeamView
requested_view vs none = none
requested_view vs (some id) = find_where (λ v. v.id == id) vs

pub record TeamState : Type 0 where
  pub teams : List TeamView
  pub active_team_id : Option ℕ

unfoldable pub get_team_state : ℕ → Option ℕ → Accounts → TeamState
unfolding list_teams_for_user
get_team_state user requested s =
    let views = list_teams_for_user user s in
    record { teams = views; active_team_id = view_or_first views (requested_view views requested) }

abbrev pub membership : ℕ → ℕ → ℕ → Role → TeamMember
membership now team user role = record {
  team_id = team;
  user_id = user;
  role = role;
  created_at = now;
}

-- `insert … on conflict do nothing`: the primary key is the team with the user.
abbrev pub add_membership : TeamMember → List TeamMember → List TeamMember
add_membership m ms = if any (is_member m.team_id m.user_id) ms then ms else ms ++ m ∷ []

abbrev pub new_team : ℕ → ℕ → String → Option ℕ → ℕ → Team
new_team now id name default_for user = record {
  id = id;
  name = name;
  default_for_user_id = default_for;
  created_by_user_id = some user;
  created_at = now;
  updated_at = now;
}

abbrev pub with_owner : ℕ → ℕ → ℕ → Accounts → Accounts
with_owner now team user s = record s {
  team_members = add_membership (membership now team user owner) s.team_members;
}

abbrev pub is_default_for : ℕ → Team → Bool
is_default_for user t = is_id t.default_for_user_id user

-- The row that the insert conflicted with.
abbrev pub join_default : ℕ → ℕ → Accounts → Option Team → Accounts × Answer ℕ
join_default now user s none = (s, refused default_team_failed)
join_default now user s (some t) = (with_owner now t.id user s, granted t.id)

unfoldable pub create_default_team_for_user : ℕ → ℕ → ℕ → Accounts → Accounts × Answer ℕ
create_default_team_for_user now id user s =
    if any (is_default_for user) s.teams
    then join_default now user s (find_where (is_default_for user) s.teams)
    else (
      with_owner now id user
          (record s { teams = s.teams ++ new_team now id "Default Team" (some user) user ∷ [] }),
      granted id,
    )

unfoldable pub create_team : ℕ → ℕ → ℕ → String → Accounts → Accounts × Answer TeamView
create_team now id acting name s =
    let team = new_team now id (trim name) none acting in
    let m = membership now id acting owner in
    (
      record s { teams = s.teams ++ team ∷ []; team_members = s.team_members ++ m ∷ [] },
      granted (to_team_view acting m team),
    )

abbrev pub set_name : ℕ → String → Team → Team
set_name now name t = record t { name = trim name; updated_at = now }

abbrev pub rename_allowed : ℕ → ℕ → ℕ → String → Accounts → Answer Role → Accounts × Answer TeamView
rename_allowed now acting team name s (refused e) = (s, refused e)
rename_allowed now acting team name s (granted role) =
    let after = record s { teams = update_where (λ t. t.id == team) (set_name now name) s.teams } in
    (after, set_active_team_for_user acting team after)

unfoldable pub rename_team : ℕ → ℕ → ℕ → String → Accounts → Accounts × Answer TeamView
unfolding require_team_role set_active_team_for_user
rename_team now acting team name s =
    rename_allowed now acting team name s (require_team_role acting team owner s)

-- Deleting a team takes its memberships along.
abbrev pub without_team : ℕ → Accounts → Accounts
without_team team s = record s {
  teams = select_where (λ t. not (t.id == team)) s.teams;
  team_members = select_where (λ m. not (m.team_id == team)) s.team_members;
}

abbrev pub delete_allowed : ℕ → Accounts → Answer Role → Accounts × Answer (Unit {0})
delete_allowed team s (refused e) = (s, refused e)
delete_allowed team s (granted role) = (without_team team s, granted tt)

unfoldable pub delete_team : ℕ → ℕ → Accounts → Accounts × Answer (Unit {0})
unfolding require_team_role
delete_team acting team s = delete_allowed team s (require_team_role acting team owner s)
