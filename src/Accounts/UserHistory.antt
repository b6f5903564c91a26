-- ===== src/Accounts/UserHistory.antt =====
-- Histories that also have the administration of users.
use kubwave.Common.{ℕ, ◌≡◌, refl, inl, inr, Option, none, some, String, Bool-cases}
use kubwave.Accounts.Tables.{Invitation, Accounts}
use kubwave.Accounts.Teams.{create_team, rename_team, delete_team}
use kubwave.Accounts.Members.{
  find_user, add_team_member, update_team_member_role, remove_team_member,
}
use kubwave.Accounts.Invitations.{
  CreateInviteInput, create_invitation, resend_found, resend_invitation, accept_invitation,
  email_exists, is_accepted, find_valid_invite_by_token,
}
use kubwave.Accounts.Users.{UpdatePlatformUserInput, update_user, delete_user}
use kubwave.Accounts.TeamHistory.{
  TeamStep, creating, defaulting, renaming, deleting, adding, changing, removing, inviting,
  resending, revoking, accepting,
}
use kubwave.Accounts.UserInv.{
  AdminsInv, run_alone-users, create_default-users, rename_allowed-users, delete_allowed-users,
  revoke_invitation-users, accept_valid-AdminsInv, patch_found-AdminsInv, erase_found-AdminsInv,
}

module _ (lower hash : String → String) (mail : Invitation → String → Option String) where
  pub data AccountStep (s : Accounts) : Accounts → Type 0 where
    team_step : {t : Accounts} → TeamStep lower hash mail s t → AccountStep s t
    updating_user :
        (now target : ℕ) (input : UpdatePlatformUserInput) (acting : ℕ)
        → AccountStep s (update_user now target input acting s).0
    deleting_user : (target acting : ℕ) → AccountStep s (delete_user target acting s).0

  pub data AccountReach (s : Accounts) : Accounts → Type 0 where
    here : AccountReach s s
    next : {t u : Accounts} → AccountReach s t → AccountStep t u → AccountReach s u

module _ (lower hash : String → String) (mail : Invitation → String → Option String) where
  invite-users :
      (now id : ℕ) (token : String) (input : CreateInviteInput) (inviter : ℕ) (s : Accounts)
      → (create_invitation hash mail now id token input inviter s).0.users ≡ s.users
  unfolding create_invitation
  invite-users now id token input inviter s = elim (Bool-cases (email_exists input.email s)) [
    | inl e ↦ rw e refl
    | inr e ↦ rw e refl
  ]

  resend_found-users :
      (now : ℕ) (token : String) (s : Accounts) (o : Option Invitation)
      → (resend_found hash mail now token s o).0.users ≡ s.users
  resend_found-users now token s none = refl
  resend_found-users now token s (some i) = elim (Bool-cases (is_accepted i)) [
    | inl e ↦ rw e refl
    | inr e ↦ rw e refl
  ]

  TeamStep-AdminsInv :
      {s t : Accounts} → TeamStep lower hash mail s t → AdminsInv s.users → AdminsInv t.users
  unfolding create_team rename_team delete_team add_team_member update_team_member_role
      remove_team_member resend_invitation accept_invitation
  TeamStep-AdminsInv {s} (creating now id acting name fresh) inv = inv
  TeamStep-AdminsInv {s} (defaulting now id user fresh) inv =
      rw (create_default-users now id user s) inv
  TeamStep-AdminsInv {s} (renaming now acting team name) inv =
      rw (rename_allowed-users now acting team name s _) inv
  TeamStep-AdminsInv {s} (deleting acting team) inv = rw (delete_allowed-users team s _) inv
  TeamStep-AdminsInv {s} (adding now acting team email) inv = rw (run_alone-users _ s) inv
  TeamStep-AdminsInv {s} (changing acting team target role) inv = rw (run_alone-users _ s) inv
  TeamStep-AdminsInv {s} (removing acting team target) inv = rw (run_alone-users _ s) inv
  TeamStep-AdminsInv {s} (inviting now id token input inviter) inv =
      rw (invite-users now id token input inviter s) inv
  TeamStep-AdminsInv {s} (resending now id token) inv = rw (resend_found-users now token s _) inv
  TeamStep-AdminsInv {s} (revoking id) inv = rw (revoke_invitation-users id s) inv
  TeamStep-AdminsInv {s} (accepting now user_id team_id password input fresh_user fresh) inv =
      accept_valid-AdminsInv now user_id team_id input.name password
        (find_valid_invite_by_token hash now input.token s) s fresh_user inv

  AccountStep-AdminsInv :
      {s t : Accounts} → AccountStep lower hash mail s t → AdminsInv s.users → AdminsInv t.users
  unfolding update_user delete_user
  AccountStep-AdminsInv (team_step st) inv = TeamStep-AdminsInv st inv
  AccountStep-AdminsInv {s} (updating_user now target input acting) inv =
      patch_found-AdminsInv now input acting target s (find_user target s.users) refl inv
  AccountStep-AdminsInv {s} (deleting_user target acting) inv =
      erase_found-AdminsInv acting target s (find_user target s.users) refl inv

  -- In every history of requests on teams, members, invitations and users, each run alone and with
  -- fresh ids for new teams and users, that starts where no two users share an id and one of them is
  -- an administrator, both hold at the end.
  pub AccountReach-AdminsInv :
      {s t : Accounts} → AdminsInv s.users → AccountReach lower hash mail s t → AdminsInv t.users
  AccountReach-AdminsInv inv here = inv
  AccountReach-AdminsInv inv (next r st) = AccountStep-AdminsInv st (AccountReach-AdminsInv inv r)
