-- ===== src/Accounts/OwnersHistory.antt =====
-- Every history of the requests on teams, members, invitations and users, and the owners of teams.
use kubwave.Common.{
  ℕ, ◌≤◌, ◌≡◌, refl, inl, inr, true, not, ◌&&◌, ◌==◌, Option, none, some, String, List, [], ◌∷◌,
  arith, All, any, leb, map, count_where, select_where, Bool-cases, count_none, none_of_any,
  count-remove-both, count-imply-le, count-remove-le, find_some-test,
}
use kubwave.Accounts.Tables.{User, Team, TeamMember, Invitation, Accounts, is_member, is_owner_of}
use kubwave.Accounts.Members.{find_user}
use kubwave.Accounts.Users.{
  UpdatePlatformUserInput, update_user, delete_user, patch_found, write_patch, without_user,
  erase_found, forget_in_team, demotes,
}
use kubwave.Accounts.Owners.{HasOneRow}
use kubwave.Accounts.TeamInv.{OwnersInv}
use kubwave.Accounts.TeamHistory.{TeamStep-OwnersInv}
use kubwave.Accounts.UserHistory.{
  AccountStep, team_step, updating_user, deleting_user, AccountReach, here, next,
}

-- Where the user owns a team, the team has a second owner.
abbrev pub IsNoLastOwner : ℕ → Accounts → Type 0
IsNoLastOwner user s =
    All
      (λ t.
        any (λ m. is_owner_of t.id m && m.user_id == user) s.team_members ≡ true
        → 2 ≤ count_where (is_owner_of t.id) s.team_members)
      s.teams

owner-left :
    (k user : ℕ) (ms : List TeamMember)
    → HasOneRow ms
    → 1 ≤ count_where (is_owner_of k) ms
    → (any (λ m. is_owner_of k m && m.user_id == user) ms ≡ true
        → 2 ≤ count_where (is_owner_of k) ms)
    → 1 ≤ count_where (is_owner_of k) (select_where (λ m. not (m.user_id == user)) ms)
owner-left k user ms one has spare =
    let split = count-remove-both (is_owner_of k) (λ m. m.user_id == user) ms in
    elim (Bool-cases (any (λ m. is_owner_of k m && m.user_id == user) ms)) [
      | inl e ↦ omega (
        arith,
        split,
        spare e,
        one k user,
        count-imply-le (λ m. is_owner_of k m && m.user_id == user) (is_member k user) ms
            (λ m h. ground arith),
      )
      | inr e ↦ omega (
        arith,
        split,
        has,
        count_none (λ m. is_owner_of k m && m.user_id == user) ms (none_of_any _ ms e),
      )
    ]

owners-left :
    (user : ℕ) (ms : List TeamMember) (ts : List Team)
    → HasOneRow ms
    → All (λ t. 1 ≤ count_where (is_owner_of t.id) ms) ts
    → All
        (λ t.
          any (λ m. is_owner_of t.id m && m.user_id == user) ms ≡ true
          → 2 ≤ count_where (is_owner_of t.id) ms)
        ts
    → All
        (λ t. 1 ≤ count_where (is_owner_of t.id) (select_where (λ m. not (m.user_id == user)) ms))
        (map (forget_in_team user) ts)
owners-left user ms [] one has spare = tt
owners-left user ms (t ∷ ts) one (h, has) (k, spare) =
    (owner-left t.id user ms one h k, owners-left user ms ts one has spare)

without_user-OwnersInv :
    (user : ℕ) (s : Accounts) → IsNoLastOwner user s → OwnersInv s → OwnersInv (without_user user s)
without_user-OwnersInv user s spare inv = record {
  one_row = λ t u. omega (
    arith,
    inv.one_row t u,
    count-remove-le (is_member t u) (λ m. m.user_id == user) s.team_members,
  );
  has_owner = owners-left user s.team_members s.teams inv.one_row inv.has_owner spare;
}

-- The user that is found under an id has it.
erase_found-OwnersInv :
    (acting target : ℕ) (s : Accounts) (o : Option User)
    → find_user target s.users ≡ o
    → IsNoLastOwner target s
    → OwnersInv s
    → OwnersInv (erase_found acting s o).0
erase_found-OwnersInv acting target s none e spare inv = inv
erase_found-OwnersInv acting target s (some u) e spare inv =
    elim (Bool-cases (u.is_admin && leb (count_where (λ v. v.is_admin) s.users) 1)) [
      | inl last ↦ rw last inv
      | inr more ↦ rw more (elim (Bool-cases (u.id == acting)) [
        | inl self ↦ rw self inv
        | inr other ↦
            let same : u.id ≡ target =
              ground (arith, find_some-test (λ v. v.id == target) s.users u e) in
            rw (other, same) (without_user-OwnersInv target s spare inv)
      ])
    ]

write_patch-OwnersInv :
    (now : ℕ) (input : UpdatePlatformUserInput) (u : User) (s : Accounts)
    → OwnersInv s
    → OwnersInv (write_patch now input u s).0
write_patch-OwnersInv now input u s inv = record {
  one_row = inv.one_row;
  has_owner = inv.has_owner;
}

patch_found-OwnersInv :
    (now acting : ℕ) (input : UpdatePlatformUserInput) (s : Accounts) (o : Option User)
    → OwnersInv s
    → OwnersInv (patch_found now input acting s o).0
patch_found-OwnersInv now acting input s none inv = inv
patch_found-OwnersInv now acting input s (some u) inv =
    let written = write_patch-OwnersInv now input u s inv in
    elim (Bool-cases (demotes input.is_admin && u.is_admin)) [
      | inr e ↦ rw e written
      | inl e ↦ rw e (elim (Bool-cases (leb (count_where (λ v. v.is_admin) s.users) 1)) [
        | inl last ↦ rw last inv
        | inr more ↦ rw more (elim (Bool-cases (u.id == acting)) [
          | inl self ↦ rw self inv
          | inr other ↦ rw other written
        ])
      ])
    ]

module _ {lower hash : String → String} {mail : Invitation → String → Option String} where
  abbrev pub SparesOwners : {s t : Accounts} → AccountStep lower hash mail s t → Type 0
  SparesOwners (team_step st) = Unit
  SparesOwners (updating_user now target input acting) = Unit
  SparesOwners {s} (deleting_user target acting) = IsNoLastOwner target s

  -- No user is deleted while some team has no other owner.
  abbrev pub SparesLastOwners : {s t : Accounts} → AccountReach lower hash mail s t → Type 0
  SparesLastOwners here = Unit
  SparesLastOwners (next r st) = SparesLastOwners r × SparesOwners st

module _ (lower hash : String → String) (mail : Invitation → String → Option String) where
  AccountStep-OwnersInv :
      {s t : Accounts} (st : AccountStep lower hash mail s t)
      → SparesOwners st
      → OwnersInv s
      → OwnersInv t
  unfolding update_user delete_user
  AccountStep-OwnersInv (team_step st) spare inv = TeamStep-OwnersInv lower hash mail st inv
  AccountStep-OwnersInv {s} (updating_user now target input acting) spare inv =
      patch_found-OwnersInv now acting input s (find_user target s.users) inv
  AccountStep-OwnersInv {s} (deleting_user target acting) spare inv =
      erase_found-OwnersInv acting target s (find_user target s.users) refl spare inv

  -- In every history of requests on teams, members, invitations and users, each run alone and with
  -- fresh ids for new teams and users, that starts where a user has at most one membership of a
  -- team and every team has an owner, and in which no user is deleted who is then the only owner of
  -- some team, these two hold at the end.
  pub AccountReach-OwnersInv :
      {s t : Accounts} (r : AccountReach lower hash mail s t)
      → SparesLastOwners r
      → OwnersInv s
      → OwnersInv t
  AccountReach-OwnersInv here spare inv = inv
  AccountReach-OwnersInv (next r st) spare inv =
      AccountStep-OwnersInv st spare.1 (AccountReach-OwnersInv r spare.0 inv)
