-- ===== src/Accounts/TeamInv.antt =====
-- The invariant of teams and their owners, and that each request on its own keeps it.
use kubwave.Common.{
  ℕ, ◌≤◌, ◌≡◌, refl, inl, inr, false, not, Option, none, some, String, List, [], ◌∷◌, ◌++◌, ◌==◌,
  arith, All, All-map, All-append, All-select, All-update, All-intro, any, find_where, count_where,
  select_where, Bool-cases, count-append, count_none, none_of_any, trim, count-remove-le,
  count-remove-eq,
}
use kubwave.Accounts.Tables.{
  User, Role, owner, Team, TeamMember, Invitation, Accounts, Answer, granted, refused, is_member,
  is_owner_of,
}
use kubwave.Accounts.Teams.{
  membership, add_membership, new_team, with_owner, is_default_for, join_default,
  create_default_team_for_user, create_team, set_name, rename_allowed, delete_allowed, without_team,
}
use kubwave.Accounts.Members.{MemberWrite, members_after, run_alone}
use kubwave.Accounts.Invitations.{
  CreateInviteInput, create_invitation, resend_found, revoke_invitation, mark_accepted, accept_tx,
  accept_valid, email_exists, is_accepted, new_user,
}
use kubwave.Accounts.Owners.{HasOneRow, KeepsOwners, Ensures, insert-IsSafe}

-- A fresh team id names no membership.
abbrev pub IsFreshTeam : ℕ → Accounts → Type 0
IsFreshTeam id s = count_where (λ m. m.team_id == id) s.team_members ≡ 0

abbrev pub IsFreshUser : ℕ → Accounts → Type 0
IsFreshUser id s = count_where (λ u. u.id == id) s.users ≡ 0

-- Memberships are keyed by team and user, and every team has an owner.
pub record OwnersInv (s : Accounts) : Type 0 where
  pub one_row : HasOneRow s.team_members
  pub has_owner : All (λ t. 1 ≤ count_where (is_owner_of t.id) s.team_members) s.teams

pub add_membership-IsSafe :
    (ms : List TeamMember) (m : TeamMember)
    → HasOneRow ms
    → KeepsOwners ms (add_membership m ms) × HasOneRow (add_membership m ms)
add_membership-IsSafe ms m one = elim (Bool-cases (any (is_member m.team_id m.user_id) ms)) [
  | inl e ↦ rw e (λ k h. h, one)
  | inr e ↦
      rw e (
        insert-IsSafe ms one m (count_none (is_member m.team_id m.user_id) ms (none_of_any _ ms e)))
]

pub keep_owners :
    (ms ms' : List TeamMember) (ts : List Team)
    → KeepsOwners ms ms'
    → All (λ t. 1 ≤ count_where (is_owner_of t.id) ms) ts
    → All (λ t. 1 ≤ count_where (is_owner_of t.id) ms') ts
keep_owners ms ms' ts k h = All-map _ _ ts (λ t. k t.id) h

pub no_row_of-team :
    (id user : ℕ) (ms : List TeamMember)
    → count_where (λ m. m.team_id == id) ms ≡ 0
    → any (is_member id user) ms ≡ false
no_row_of-team id user [] e = refl
no_row_of-team id user (m ∷ ms) e = ground (arith, no_row_of-team id user ms)

-- A new team with its first member, an owner.
pub with_new_team :
    (now id user : ℕ) (t : Team) (s : Accounts)
    → t.id ≡ id
    → IsFreshTeam id s
    → OwnersInv s
    → OwnersInv (with_owner now id user (record s { teams = s.teams ++ t ∷ [] }))
with_new_team now id user t s same fresh inv =
    let m = membership now id user owner in
    let safe = add_membership-IsSafe s.team_members m inv.one_row in
    record {
      one_row = safe.1;
      has_owner =
          All-append _ s.teams (t ∷ [])
            (keep_owners s.team_members (add_membership m s.team_members) s.teams safe.0
              inv.has_owner)
            (
              rw (same, no_row_of-team id user s.team_members fresh)
                  (ground (arith, count-append (is_owner_of id) s.team_members (m ∷ []))),
              tt,
            );
    }

pub create_team-OwnersInv :
    (now id acting : ℕ) (name : String) (s : Accounts)
    → IsFreshTeam id s
    → OwnersInv s
    → OwnersInv (create_team now id acting name s).0
unfolding create_team
create_team-OwnersInv now id acting name s fresh inv =
    let made =
      with_new_team now id acting (new_team now id (trim name) none acting) s refl fresh inv in
    rw (no_row_of-team id acting s.team_members fresh) at made

pub with_owner-OwnersInv :
    (now id user : ℕ) (s : Accounts) → OwnersInv s → OwnersInv (with_owner now id user s)
with_owner-OwnersInv now id user s inv =
    let m = membership now id user owner in
    let safe = add_membership-IsSafe s.team_members m inv.one_row in
    record {
      one_row = safe.1;
      has_owner =
          keep_owners s.team_members (add_membership m s.team_members) s.teams safe.0 inv.has_owner;
    }

pub join_default-OwnersInv :
    (now user : ℕ) (s : Accounts) (o : Option Team)
    → OwnersInv s
    → OwnersInv (join_default now user s o).0
join_default-OwnersInv now user s none inv = inv
join_default-OwnersInv now user s (some t) inv = with_owner-OwnersInv now t.id user s inv

pub create_default-OwnersInv :
    (now id user : ℕ) (s : Accounts)
    → IsFreshTeam id s
    → OwnersInv s
    → OwnersInv (create_default_team_for_user now id user s).0
unfolding create_default_team_for_user
create_default-OwnersInv now id user s fresh inv =
    elim (Bool-cases (any (is_default_for user) s.teams)) [
      | inl e ↦
          rw e (join_default-OwnersInv now user s (find_where (is_default_for user) s.teams) inv)
      | inr e ↦ rw e (
          with_new_team now id user (new_team now id "Default Team" (some user) user) s refl fresh
            inv)
    ]

pub rename_allowed-OwnersInv :
    (now acting team : ℕ) (name : String) (s : Accounts) (a : Answer Role)
    → OwnersInv s
    → OwnersInv (rename_allowed now acting team name s a).0
rename_allowed-OwnersInv now acting team name s (refused e) inv = inv
rename_allowed-OwnersInv now acting team name s (granted role) inv = record {
  one_row = inv.one_row;
  has_owner =
      All-update _ (λ t. t.id == team) (set_name now name) s.teams
        (All-intro _ (λ t e h. h) s.teams) inv.has_owner;
}

pub without_team-OwnersInv :
    (team : ℕ) (s : Accounts) → OwnersInv s → OwnersInv (without_team team s)
without_team-OwnersInv team s inv = record {
  one_row = λ t u. omega (
    arith,
    inv.one_row t u,
    count-remove-le (is_member t u) (λ m. m.team_id == team) s.team_members,
  );
  has_owner =
      All-map _ _ (select_where (λ t. not (t.id == team)) s.teams)
        (λ t both. still t.id both.0 (ground (arith, both.1)))
        (All-select _ (λ t. not (t.id == team)) s.teams inv.has_owner);
}
  where
    still :
        (k : ℕ)
        → 1 ≤ count_where (is_owner_of k) s.team_members
        → (k == team) ≡ false
        → 1 ≤ count_where (is_owner_of k) (without_team team s).team_members
    still k h n =
        rw
          (count-remove-eq (is_owner_of k) (λ m. m.team_id == team) s.team_members
            (λ m e. ground arith))
          h

pub delete_allowed-OwnersInv :
    (team : ℕ) (s : Accounts) (a : Answer Role)
    → OwnersInv s
    → OwnersInv (delete_allowed team s a).0
delete_allowed-OwnersInv team s (refused e) inv = inv
delete_allowed-OwnersInv team s (granted role) inv = without_team-OwnersInv team s inv

pub run_alone-OwnersInv {ℓ} :
    {A : Type ℓ} (a : Answer (MemberWrite × A)) (s : Accounts)
    → Ensures s.team_members a
    → OwnersInv s
    → OwnersInv (run_alone a s).0
run_alone-OwnersInv (refused e) s h inv = inv
run_alone-OwnersInv (granted (w, a)) s h inv = record {
  one_row = h.1;
  has_owner = keep_owners s.team_members (members_after w s.team_members) s.teams h.0 inv.has_owner;
}

pub mark_accepted-OwnersInv :
    (now : ℕ) (i : Invitation) (u : User) (before : Accounts) (after : Accounts × Answer ℕ)
    → OwnersInv before
    → OwnersInv after.0
    → OwnersInv (mark_accepted now i u before after).0
mark_accepted-OwnersInv now i u before (s, refused e) inv inv' = inv
mark_accepted-OwnersInv now i u before (s, granted team) inv inv' =
    elim (Bool-cases (any (λ j. j.id == i.id) s.invitations)) [
      | inl e ↦ rw e (record { one_row = inv'.one_row; has_owner = inv'.has_owner })
      | inr e ↦ rw e inv
    ]

pub accept_tx-OwnersInv :
    (now user_id team_id : ℕ) (name password : String) (i : Invitation) (s : Accounts)
    → IsFreshTeam team_id s
    → OwnersInv s
    → OwnersInv (accept_tx now user_id team_id name password i s).0
unfolding accept_tx
accept_tx-OwnersInv now user_id team_id name password i s fresh inv =
    elim (Bool-cases (email_exists i.email s)) [
      | inl e ↦ rw e inv
      | inr e ↦
          let u = new_user now user_id name password i in
          let s' = record s { users = s.users ++ u ∷ [] } in
          rw e (
            mark_accepted-OwnersInv now i u s (create_default_team_for_user now team_id user_id s')
              inv
              (create_default-OwnersInv now team_id user_id s' fresh
                (record { one_row = inv.one_row; has_owner = inv.has_owner })))
    ]

pub accept_valid-OwnersInv :
    (now user_id team_id : ℕ) (name password : String) (a : Answer Invitation) (s : Accounts)
    → IsFreshTeam team_id s
    → OwnersInv s
    → OwnersInv (accept_valid now user_id team_id name password a s).0
accept_valid-OwnersInv now user_id team_id name password (refused e) s fresh inv = inv
accept_valid-OwnersInv now user_id team_id name password (granted i) s fresh inv =
    accept_tx-OwnersInv now user_id team_id name password i s fresh inv

pub revoke_invitation-OwnersInv :
    (id : ℕ) (s : Accounts) → OwnersInv s → OwnersInv (revoke_invitation id s).0
unfolding revoke_invitation
revoke_invitation-OwnersInv id s inv = elim (Bool-cases (any (λ i. i.id == id) s.invitations)) [
  | inl e ↦ rw e (record { one_row = inv.one_row; has_owner = inv.has_owner })
  | inr e ↦ rw e inv
]

module _ (hash : String → String) (mail : Invitation → String → Option String) where
  pub create_invitation-OwnersInv :
      (now id : ℕ) (token : String) (input : CreateInviteInput) (inviter : ℕ) (s : Accounts)
      → OwnersInv s
      → OwnersInv (create_invitation hash mail now id token input inviter s).0
  unfolding create_invitation
  create_invitation-OwnersInv now id token input inviter s inv =
      elim (Bool-cases (email_exists input.email s)) [
        | inl e ↦ rw e inv
        | inr e ↦ rw e (record { one_row = inv.one_row; has_owner = inv.has_owner })
      ]

  pub resend_found-OwnersInv :
      (now : ℕ) (token : String) (s : Accounts) (o : Option Invitation)
      → OwnersInv s
      → OwnersInv (resend_found hash mail now token s o).0
  resend_found-OwnersInv now token s none inv = inv
  resend_found-OwnersInv now token s (some i) inv = elim (Bool-cases (is_accepted i)) [
    | inl e ↦ rw e inv
    | inr e ↦ rw e (record { one_row = inv.one_row; has_owner = inv.has_owner })
  ]
