-- ===== src/Accounts/InviteOnce.antt =====
-- What accepting an invitation gives, and that it works once.
use text.Mathlib.Text.{◌==◌ as str_eq}
use kubwave.Common.{
  ℕ, ◌≡◌, ◌∙◌, refl, sym, ap, ◌⊎◌, inl, inr, Bool, true, false, ◌&&◌, Option, none, some, String,
  List, [], ◌∷◌, ◌++◌, ◌==◌, ==_refl, arith, any, update_where, Bool-cases, find-update_found,
}
use kubwave.Accounts.Tables.{
  owner, Invitation, Accounts, AccountError, invite_already_used, Answer, granted, refused,
  is_member, is_owner,
}
use kubwave.Accounts.Teams.{membership, new_team, is_default_for, create_default_team_for_user}
use kubwave.Accounts.Invitations.{
  AcceptInviteInput, Accepted, accept_tx, accept_invitation, set_accepted, email_exists,
  is_accepted, validity, find_valid_invite_by_token, new_user,
}
use kubwave.Accounts.TeamInv.{IsFreshTeam, no_row_of-team}

any-append {ℓ} :
    {A : Type ℓ} (p : A → Bool) (xs : List A) (y : A) → p y ≡ true → any p (xs ++ y ∷ []) ≡ true
any-append p [] y e = rw e refl
any-append p (x ∷ xs) y e = ground (arith, any-append p xs y e)

-- The user has a membership of the team as an owner.
abbrev pub owns : ℕ → ℕ → Accounts → Bool
owns user team s = any (λ m. is_member team user m && is_owner m.role) s.team_members

module _ (now user_id team_id : ℕ) (name password : String) (i : Invitation) (s : Accounts) where
  abbrev with_user : Accounts
  with_user = record s { users = s.users ++ new_user now user_id name password i ∷ [] }

  abbrev with_team : Accounts
  with_team = record s {
    users = s.users ++ new_user now user_id name password i ∷ [];
    teams = s.teams ++ new_team now team_id "Default Team" (some user_id) user_id ∷ [];
    team_members = s.team_members ++ membership now team_id user_id owner ∷ [];
  }

  abbrev after_accept : Accounts
  after_accept = record s {
    users = s.users ++ new_user now user_id name password i ∷ [];
    teams = s.teams ++ new_team now team_id "Default Team" (some user_id) user_id ∷ [];
    team_members = s.team_members ++ membership now team_id user_id owner ∷ [];
    invitations = update_where (λ j. j.id == i.id) (set_accepted now) s.invitations;
  }

  abbrev outcome : Accepted
  outcome = record { user = new_user now user_id name password i; active_team_id = team_id }

  owns-with_team : owns user_id team_id with_team ≡ true
  owns-with_team =
      any-append (λ m. is_member team_id user_id m && is_owner m.role) s.team_members
        (membership now team_id user_id owner) (rw (==_refl team_id, ==_refl user_id) refl)

  module _ (fresh : IsFreshTeam team_id s)
      (no_default : any (is_default_for user_id) s.teams ≡ false) where
    default_team_made :
        create_default_team_for_user now team_id user_id with_user ≡ (with_team, granted team_id)
    unfolding create_default_team_for_user
    default_team_made = rw (no_default, no_row_of-team team_id user_id s.team_members fresh) refl

    accept_tx-granted :
        (a : Accepted)
        → (accept_tx now user_id team_id name password i s).1 ≡ granted a
        → accept_tx now user_id team_id name password i s ≡ (after_accept, granted outcome)
    unfolding accept_tx
    accept_tx-granted a ok = elim (Bool-cases (email_exists i.email s)) [
      | inl e ↦ absurd (refused-ne-granted (rw e at ok))
      | inr e ↦ marked e (Bool-cases (any (λ j. j.id == i.id) s.invitations))
    ]
      where
        refused-ne-granted :
            {b : Accepted} {e : AccountError}
            → ◌≡◌ {A = Answer Accepted} (refused e) (granted b)
            → ⊥
        refused-ne-granted h = cc

        marked :
            email_exists i.email s ≡ false
            → (any (λ j. j.id == i.id) s.invitations ≡ true)
              ⊎ (any (λ j. j.id == i.id) s.invitations ≡ false)
            → accept_tx now user_id team_id name password i s ≡ (after_accept, granted outcome)
        marked e (inl known) = rw (e, default_team_made, known) refl
        marked e (inr unknown) =
            absurd (refused-ne-granted (rw (e, default_team_made, unknown) at ok))

valid-found :
    (now : ℕ) (o : Option Invitation) (i : Invitation) → validity now o ≡ granted i → o ≡ some i
valid-found now none i e = absurd (cc)
valid-found now (some j) i e = elim (Bool-cases (is_accepted j)) [
  | inl h ↦ absurd (ground arith)
  | inr h ↦ ground arith
]

granted_same : (a b : Accepted) → ◌≡◌ {A = Answer Accepted} (granted a) (granted b) → a ≡ b
granted_same a b e = cc

-- A new account with what the invitation says and a team of its own, and a token that is used up.
abbrev pub GivesAccount : (String → String) → ℕ → String → Invitation → Accepted → Accounts → Type 0
GivesAccount hash later token i a t =
    (a.user.email ≡ i.email)
    × (a.user.is_admin ≡ i.is_admin)
    × (any (λ u. u.id == a.user.id) t.users ≡ true)
    × (owns a.user.id a.active_team_id t ≡ true)
    × (find_valid_invite_by_token hash later token t ≡ refused invite_already_used)

after_accept-GivesAccount :
    (hash : String → String) (now user_id team_id later : ℕ) (password : String)
    (input : AcceptInviteInput) (i : Invitation) (s : Accounts)
    → IsFreshTeam team_id s
    → any (is_default_for user_id) s.teams ≡ false
    → find_valid_invite_by_token hash now input.token s ≡ granted i
    → GivesAccount hash later input.token i
        (outcome now user_id team_id input.name password i s)
        (after_accept now user_id team_id input.name password i s)
unfolding find_valid_invite_by_token
after_accept-GivesAccount hash now user_id team_id later password input i s fresh no_default valid =
    (
      refl,
      refl,
      any-append (λ u. u.id == user_id) s.users (new_user now user_id input.name password i)
          (==_refl user_id),
      owns-with_team now user_id team_id input.name password i s,
      ap (validity later) (
          find-update_found (λ j. str_eq j.token_hash (hash input.token)) (λ j. j.id == i.id)
            (set_accepted now) s.invitations i (λ x. refl) (valid-found now _ i valid)
            (==_refl i.id)),
    )

-- An invitation whose acceptance is granted, for a fresh team id and a user with no default team
-- yet, gives an account with the invited address and administrator flag that owns its active team,
-- and its token is refused as used ever after.
pub accept_invitation-once :
    (hash : String → String) (now user_id team_id later : ℕ) (password : String)
    (input : AcceptInviteInput) (i : Invitation) (a : Accepted) (s : Accounts)
    → IsFreshTeam team_id s
    → any (is_default_for user_id) s.teams ≡ false
    → find_valid_invite_by_token hash now input.token s ≡ granted i
    → (accept_invitation hash now user_id team_id password input s).1 ≡ granted a
    → GivesAccount hash later input.token i a
        (accept_invitation hash now user_id team_id password input s).0
unfolding accept_invitation
accept_invitation-once hash now user_id team_id later password input i a s fresh no_default valid
      ok =
    let run = rw valid at ok in
    let done =
      accept_tx-granted now user_id team_id input.name password i s fresh no_default a run in
    let same =
      granted_same (outcome now user_id team_id input.name password i s) a
        (sym (ap (λ r. r.1) done) ∙ run) in
    rw (valid, done, ← same)
      (after_accept-GivesAccount hash now user_id team_id later password input i s fresh no_default
        valid)
