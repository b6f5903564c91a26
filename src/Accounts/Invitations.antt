-- ===== src/Accounts/Invitations.antt =====
-- Invitations (apps/backend/src/modules/invitations/invitations.service.ts). The hash of a token and
-- the mailer are parameters; fresh ids, tokens, the password's hash and the clock are arguments.
use text.Mathlib.Text.{◌==◌ as str_eq}
use kubwave.Common.{
  ℕ, ◌+◌, ◌*◌, String, Bool, true, false, not, ◌&&◌, Option, none, some, [], ◌∷◌, ◌++◌, ◌==◌,
  if◌then◌else◌, any, find_where, select_where, update_where, leb,
}
use kubwave.Accounts.Tables.{
  User, Invitation, Accounts, invite_not_found, invite_already_used, invite_expired,
  invite_email_in_use, Answer, granted, refused,
}
use kubwave.Accounts.Teams.{create_default_team_for_user}

abbrev pub invite_ttl_days : ℕ
invite_ttl_days = 7

abbrev pub invite_ttl_ms : ℕ
invite_ttl_ms = invite_ttl_days * 24 * 60 * 60 * 1000

pub data InvitationStatus : Type 0 where
  accepted expired pending : InvitationStatus

abbrev pub is_accepted : Invitation → Bool
is_accepted i = elim i.accepted_at [ none ↦ false | some t ↦ true ]

unfoldable pub invitation_status : ℕ → Invitation → InvitationStatus
invitation_status now i =
    if is_accepted i then accepted else if leb i.expires_at now then expired else pending

abbrev pub email_exists : String → Accounts → Bool
email_exists email s = any (λ u. str_eq u.email email) s.users

-- What the caller gets: the row, and whether the mail went out. The inviter's name only goes into
-- the mail.
pub record CreateInviteResult : Type 0 where
  pub invitation : Invitation
  pub email_sent : Bool
  pub email_error : Option String

-- The mailer answers with the error that it threw, if any.
abbrev pub send_invite_for :
    (Invitation → String → Option String) → Invitation → String → CreateInviteResult
send_invite_for mail row token = record {
  invitation = row;
  email_sent = elim (mail row token) [ none ↦ true | some e ↦ false ];
  email_error = mail row token;
}

pub record CreateInviteInput : Type 0 where
  pub email : String
  pub is_admin : Bool

pub record AcceptInviteInput : Type 0 where
  pub name : String
  pub token : String

module _ (hash : String → String) (mail : Invitation → String → Option String) where
  abbrev pub new_invitation : ℕ → ℕ → String → CreateInviteInput → ℕ → Invitation
  new_invitation now id token input inviter = record {
    id = id;
    email = input.email;
    token_hash = hash token;
    is_admin = input.is_admin;
    invited_by = some inviter;
    expires_at = now + invite_ttl_ms;
    accepted_at = none;
    created_at = now;
  }

  abbrev pub is_open_for : String → Invitation → Bool
  is_open_for email i = str_eq i.email email && not (is_accepted i)

  unfoldable pub create_invitation :
      ℕ → ℕ → String → CreateInviteInput → ℕ → Accounts → Accounts × Answer CreateInviteResult
  create_invitation now id token input inviter s =
      let row = new_invitation now id token input inviter in
      if email_exists input.email s then (s, refused invite_email_in_use) else (
        record s {
          invitations =
              select_where (λ i. not (is_open_for input.email i)) s.invitations ++ row ∷ [];
        },
        granted (send_invite_for mail row token),
      )

  abbrev pub renew : ℕ → String → Invitation → Invitation
  renew now token i = record i { token_hash = hash token; expires_at = now + invite_ttl_ms }

  abbrev pub resend_found :
      ℕ → String → Accounts → Option Invitation → Accounts × Answer CreateInviteResult
  resend_found now token s none = (s, refused invite_not_found)
  resend_found now token s (some i) = if is_accepted i then (s, refused invite_already_used) else (
    record s { invitations = update_where (λ j. j.id == i.id) (renew now token) s.invitations },
    granted (send_invite_for mail (renew now token i) token),
  )

  unfoldable pub resend_invitation :
      ℕ → ℕ → String → Accounts → Accounts × Answer CreateInviteResult
  resend_invitation now id token s =
      resend_found now token s (find_where (λ i. i.id == id) s.invitations)

abbrev pub without_invitation : ℕ → Accounts → Accounts
without_invitation id s = record s {
  invitations = select_where (λ i. not (i.id == id)) s.invitations;
}

unfoldable pub revoke_invitation : ℕ → Accounts → Accounts × Answer (Unit {0})
revoke_invitation id s =
    if any (λ i. i.id == id) s.invitations
    then (without_invitation id s, granted tt)
    else (s, refused invite_not_found)

abbrev pub validity : ℕ → Option Invitation → Answer Invitation
validity now none = refused invite_not_found
validity now (some i) =
    if is_accepted i
    then refused invite_already_used
    else if leb i.expires_at now
    then refused invite_expired
    else granted i

abbrev pub email_of : Answer Invitation → Option String
email_of (refused e) = none
email_of (granted i) = some i.email

module _ (hash : String → String) where
  unfoldable pub find_valid_invite_by_token : ℕ → String → Accounts → Answer Invitation
  find_valid_invite_by_token now token s =
      validity now (find_where (λ i. str_eq i.token_hash (hash token)) s.invitations)

  -- `none` stands for `valid: false`.
  unfoldable pub check_invite_validity : ℕ → String → Accounts → Option String
  unfolding find_valid_invite_by_token
  check_invite_validity now token s = email_of (find_valid_invite_by_token now token s)

abbrev pub set_accepted : ℕ → Invitation → Invitation
set_accepted now i = record i { accepted_at = some now }

abbrev pub new_user : ℕ → ℕ → String → String → Invitation → User
new_user now id name password i = record {
  id = id;
  name = name;
  email = i.email;
  password = password;
  is_admin = i.is_admin;
  created_at = now;
  updated_at = now;
}

pub record Accepted : Type 0 where
  pub user : User
  pub active_team_id : ℕ

-- The end of the transaction, which a failure rolls back: `before` is the store at its start.
abbrev pub mark_accepted :
    ℕ → Invitation → User → Accounts → Accounts × Answer ℕ → Accounts × Answer Accepted
mark_accepted now i u before (s, refused e) = (before, refused e)
mark_accepted now i u before (s, granted team) =
    if any (λ j. j.id == i.id) s.invitations
    then (
      record s { invitations = update_where (λ j. j.id == i.id) (set_accepted now) s.invitations },
      granted (record { user = u; active_team_id = team }),
    )
    else (before, refused invite_not_found)

-- The transaction, on the invitation that was found before it began.
unfoldable pub accept_tx :
    ℕ → ℕ → ℕ → String → String → Invitation → Accounts → Accounts × Answer Accepted
accept_tx now user_id team_id name password i s =
    let u = new_user now user_id name password i in
    if email_exists i.email s
    then (s, refused invite_email_in_use)
    else mark_accepted now i u s
        (create_default_team_for_user now team_id user_id (record s { users = s.users ++ u ∷ [] }))

abbrev pub accept_valid :
    ℕ → ℕ → ℕ → String → String → Answer Invitation → Accounts → Accounts × Answer Accepted
accept_valid now user_id team_id name password (refused e) s = (s, refused e)
accept_valid now user_id team_id name password (granted i) s =
    accept_tx now user_id team_id name password i s

module _ (hash : String → String) where
  unfoldable pub accept_invitation :
      ℕ → ℕ → ℕ → String → AcceptInviteInput → Accounts → Accounts × Answer Accepted
  accept_invitation now user_id team_id password input s =
      accept_valid now user_id team_id input.name password
        (find_valid_invite_by_token hash now input.token s) s
