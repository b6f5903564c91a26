-- ===== src/Accounts/TeamHistory.antt =====
-- The requests on teams, members and invitations, each run alone, and that they keep every team's
-- owner.
use kubwave.Common.{ℕ, Option, String}
use kubwave.Accounts.Tables.{Role, Invitation, Accounts}
use kubwave.Accounts.Teams.{create_default_team_for_user, create_team, rename_team, delete_team}
use kubwave.Accounts.Members.{add_team_member, update_team_member_role, remove_team_member}
use kubwave.Accounts.Invitations.{
  CreateInviteInput, AcceptInviteInput, create_invitation, resend_invitation, revoke_invitation,
  accept_invitation, find_valid_invite_by_token,
}
use kubwave.Accounts.Owners.{check_add-Ensures, check_update-Ensures, check_remove-Ensures}
use kubwave.Accounts.TeamInv.{
  IsFreshTeam, IsFreshUser, OwnersInv, create_team-OwnersInv, create_default-OwnersInv,
  rename_allowed-OwnersInv, delete_allowed-OwnersInv, run_alone-OwnersInv,
  create_invitation-OwnersInv, resend_found-OwnersInv, revoke_invitation-OwnersInv,
  accept_valid-OwnersInv,
}

module _ (lower hash : String → String) (mail : Invitation → String → Option String) where
  pub data TeamStep (s : Accounts) : Accounts → Type 0 where
    creating :
        (now id acting : ℕ) (name : String)
        → IsFreshTeam id s
        → TeamStep s (create_team now id acting name s).0
    defaulting :
        (now id user : ℕ)
        → IsFreshTeam id s
        → TeamStep s (create_default_team_for_user now id user s).0
    renaming :
        (now acting team : ℕ) (name : String) → TeamStep s (rename_team now acting team name s).0
    deleting : (acting team : ℕ) → TeamStep s (delete_team acting team s).0
    adding :
        (now acting team : ℕ) (email : String)
        → TeamStep s (add_team_member lower now acting team email s).0
    changing :
        (acting team target : ℕ) (role : Role)
        → TeamStep s (update_team_member_role acting team target role s).0
    removing : (acting team target : ℕ) → TeamStep s (remove_team_member acting team target s).0
    inviting :
        (now id : ℕ) (token : String) (input : CreateInviteInput) (inviter : ℕ)
        → TeamStep s (create_invitation hash mail now id token input inviter s).0
    resending :
        (now id : ℕ) (token : String) → TeamStep s (resend_invitation hash mail now id token s).0
    revoking : (id : ℕ) → TeamStep s (revoke_invitation id s).0
    accepting :
        (now user_id team_id : ℕ) (password : String) (input : AcceptInviteInput)
        → IsFreshUser user_id s
        → IsFreshTeam team_id s
        → TeamStep s (accept_invitation hash now user_id team_id password input s).0

module _ (lower hash : String → String) (mail : Invitation → String → Option String) where
  pub TeamStep-OwnersInv :
      {s t : Accounts} → TeamStep lower hash mail s t → OwnersInv s → OwnersInv t
  unfolding rename_team delete_team add_team_member update_team_member_role remove_team_member
      resend_invitation accept_invitation
  TeamStep-OwnersInv {s} (creating now id acting name fresh) inv =
      create_team-OwnersInv now id acting name s fresh inv
  TeamStep-OwnersInv {s} (defaulting now id user fresh) inv =
      create_default-OwnersInv now id user s fresh inv
  TeamStep-OwnersInv {s} (renaming now acting team name) inv =
      rename_allowed-OwnersInv now acting team name s _ inv
  TeamStep-OwnersInv {s} (deleting acting team) inv = delete_allowed-OwnersInv team s _ inv
  TeamStep-OwnersInv {s} (adding now acting team email) inv =
      run_alone-OwnersInv _ s (check_add-Ensures s inv.one_row lower now acting team email) inv
  TeamStep-OwnersInv {s} (changing acting team target role) inv =
      run_alone-OwnersInv _ s (check_update-Ensures s inv.one_row acting team target role) inv
  TeamStep-OwnersInv {s} (removing acting team target) inv =
      run_alone-OwnersInv _ s (check_remove-Ensures s inv.one_row acting team target) inv
  TeamStep-OwnersInv {s} (inviting now id token input inviter) inv =
      create_invitation-OwnersInv hash mail now id token input inviter s inv
  TeamStep-OwnersInv {s} (resending now id token) inv =
      resend_found-OwnersInv hash mail now token s _ inv
  TeamStep-OwnersInv {s} (revoking id) inv = revoke_invitation-OwnersInv id s inv
  TeamStep-OwnersInv {s} (accepting now user_id team_id password input fresh_user fresh) inv =
      accept_valid-OwnersInv now user_id team_id input.name password
        (find_valid_invite_by_token hash now input.token s) s fresh inv
