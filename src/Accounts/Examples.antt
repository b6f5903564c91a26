-- ===== src/Accounts/Examples.antt =====
-- A team of two owners, and a user who is invited.
use kubwave.Common.{
  ℕ, String, ◌≡◌, ◌≢◌, refl, true, false, Option, none, some, [], ◌∷◌, arith, ◌<>◌,
}
use kubwave.Accounts.Tables.{User, owner, member, TeamMember, Invitation, Accounts, granted}
use kubwave.Accounts.Teams.{create_default_team_for_user, rename_team, delete_team}
use kubwave.Accounts.Members.{
  add_team_member, update_team_member_role, remove_team_member, owner_count,
}
use kubwave.Accounts.Invitations.{
  AcceptInviteInput, Accepted, accept_tx, accept_invitation, new_user, find_valid_invite_by_token,
}
use kubwave.Accounts.Users.{delete_user}
use kubwave.Accounts.TeamInv.{OwnersInv}
use kubwave.Accounts.OwnersHistory.{AccountReach-OwnersInv}
use kubwave.Accounts.UserInv.{AdminsInv}
use kubwave.Accounts.UserHistory.{deleting_user, AccountReach-AdminsInv}
use kubwave.Accounts.UserHistory
use kubwave.Accounts.Access.{no_owner-changes_nothing}
use kubwave.Accounts.InviteOnce.{GivesAccount, accept_invitation-once}

abbrev user : ℕ → String → User
user id email = record {
  id = id;
  name = "";
  email = email;
  password = "";
  is_admin = true;
  created_at = 0;
  updated_at = 0;
}

abbrev owner_of_ten : ℕ → TeamMember
owner_of_ten id = record { team_id = 10; user_id = id; role = owner; created_at = id }

abbrev invitation : Invitation
invitation = record {
  id = 5;
  email = "new@example.com";
  token_hash = "#t";
  is_admin = false;
  invited_by = some 1;
  expires_at = 900;
  accepted_at = none;
  created_at = 0;
}

abbrev accounts : Accounts
accounts = record {
  users = user 1 "a" ∷ user 2 "b" ∷ [];
  teams =
      record {
        id = 10;
        name = "Team";
        default_for_user_id = none;
        created_by_user_id = some 1;
        created_at = 0;
        updated_at = 0;
      }
      ∷ [];
  team_members = owner_of_ten 1 ∷ owner_of_ten 2 ∷ [];
  invitations = invitation ∷ [];
}

abbrev lower : String → String
lower s = s

abbrev hash : String → String
hash s = "#" <> s

abbrev mail : Invitation → String → Option String
mail i token = none

accounts-OwnersInv : OwnersInv accounts
accounts-OwnersInv = record { one_row = λ t u. ground arith; has_owner = (omega arith, tt) }

-- One of the two owners is deleted.
AccountReach-OwnersInv_example : OwnersInv (delete_user 2 1 accounts).0
AccountReach-OwnersInv_example =
    AccountReach-OwnersInv lower hash mail (UserHistory.next UserHistory.here (deleting_user 2 1))
      (tt, (λ e. omega arith, tt)) accounts-OwnersInv

one_left : owner_count 10 (remove_team_member 1 10 2 accounts).0 ≡ 1
unfolding owner_count remove_team_member
one_left = refl

accounts-AdminsInv : AdminsInv accounts.users
accounts-AdminsInv = record { one_user = λ id. ground arith; has_admin = omega arith }

AccountReach-AdminsInv_example : AdminsInv (delete_user 2 1 accounts).0.users
AccountReach-AdminsInv_example =
    AccountReach-AdminsInv lower hash mail accounts-AdminsInv
      (UserHistory.next UserHistory.here (deleting_user 2 1))

no_owner-changes_nothing_example :
    ((rename_team 50 3 10 "Mine" accounts).0 ≡ accounts)
    × ((delete_team 3 10 accounts).0 ≡ accounts)
    × ((add_team_member lower 50 3 10 "b" accounts).0 ≡ accounts)
    × ((update_team_member_role 3 10 1 member accounts).0 ≡ accounts)
    × (◌≢◌ {A = ℕ} 1 3 → (remove_team_member 3 10 1 accounts).0 ≡ accounts)
no_owner-changes_nothing_example =
    no_owner-changes_nothing lower 50 3 10 1 "Mine" "b" member accounts refl

abbrev accept_input : AcceptInviteInput
accept_input = record { name = "New"; token = "t" }

abbrev accepted_account : Accepted
accepted_account = record { user = new_user 50 7 "New" "secret" invitation; active_team_id = 11 }

valid : find_valid_invite_by_token hash 50 "t" accounts ≡ granted invitation
unfolding find_valid_invite_by_token
valid = refl

accepted :
    (accept_invitation hash 50 7 11 "secret" accept_input accounts).1 ≡ granted accepted_account
unfolding accept_invitation accept_tx create_default_team_for_user find_valid_invite_by_token
accepted = refl

accept_invitation-once_example :
    GivesAccount hash 60 "t" invitation accepted_account
      (accept_invitation hash 50 7 11 "secret" accept_input accounts).0
accept_invitation-once_example =
    accept_invitation-once hash 50 7 11 60 "secret" accept_input invitation accepted_account
      accounts refl refl valid accepted
