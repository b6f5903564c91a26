-- ===== src/Accounts/Owners.antt =====
-- What the checks of the member requests ensure of the writes they allow: no team loses its last owner.
use kubwave.Common.{
  ℕ, ◌≤◌, ◌≡◌, ◌≢◌, refl, inl, inr, true, false, Option, none, some, String, List, [], ◌∷◌, ◌==◌,
  arith, count_where, leb, Bool-cases, count-append, find_none-count, count-remove-add,
  count-remove-le, count-remove-eq, count-remove-found, count-change-add, count-change-eq,
  count-change-le,
}
use kubwave.Accounts.Tables.{
  User, Role, owner, member, TeamMember, Accounts, Answer, granted, refused, is_owner, same_role,
  is_member, is_owner_of,
}
use kubwave.Accounts.Teams.{find_member, require_team_role}
use kubwave.Accounts.Members.{
  MemberWrite, insert_member, set_role, delete_member, members_after, with_role, find_user,
  new_member, found_user, add_allowed, check_add, role_target, role_joined, role_found,
  role_allowed, check_update, remove_target, remove_allowed, check_remove,
}

-- A team with the user is one row.
abbrev pub HasOneRow : List TeamMember → Type 0
HasOneRow ms = (team user : ℕ) → count_where (is_member team user) ms ≤ 1

abbrev pub KeepsOwners : List TeamMember → List TeamMember → Type 0
KeepsOwners ms ms' =
    (k : ℕ) → 1 ≤ count_where (is_owner_of k) ms → 1 ≤ count_where (is_owner_of k) ms'

abbrev pub IsSafe : List TeamMember → MemberWrite → Type 0
IsSafe ms w = KeepsOwners ms (members_after w ms) × HasOneRow (members_after w ms)

abbrev pub Ensures {ℓ} : {A : Type ℓ} → List TeamMember → Answer (MemberWrite × A) → Type 0
Ensures ms (refused e) = Unit
Ensures ms (granted (w, a)) = IsSafe ms w

module _ (ms : List TeamMember) (one : HasOneRow ms) where
  pub insert-IsSafe :
      (m : TeamMember)
      → count_where (is_member m.team_id m.user_id) ms ≡ 0
      → IsSafe ms (insert_member m)
  insert-IsSafe m fresh = (
    λ k h. ground (arith, count-append (is_owner_of k) ms (m ∷ [])),
    λ t u. elim (Bool-cases (is_member t u m)) [
      | inl e ↦
          let same_t : m.team_id ≡ t = ground arith in
          let same_u : m.user_id ≡ u = ground arith in
          let none_yet : count_where (is_member t u) ms ≡ 0 = rw (← same_t, ← same_u) fresh in
          ground (arith, count-append (is_member t u) ms (m ∷ []), none_yet)
      | inr e ↦ ground (arith, count-append (is_member t u) ms (m ∷ []), one t u)
    ],
  )

  delete-HasOneRow : (team user : ℕ) → HasOneRow (members_after (delete_member team user) ms)
  delete-HasOneRow team user t u =
      omega (arith, one t u, count-remove-le (is_member t u) (is_member team user) ms)

  set_role-HasOneRow :
      (team user : ℕ) (role : Role) → HasOneRow (members_after (set_role team user role) ms)
  set_role-HasOneRow team user role t u = omega (
    arith,
    one t u,
    count-change-eq (is_member t u) (is_member team user) (with_role role) ms (λ x e. refl),
  )

  delete-of-others :
      (team user k : ℕ)
      → k ≢ team
      → count_where (is_owner_of k) (members_after (delete_member team user) ms)
        ≡ count_where (is_owner_of k) ms
  delete-of-others team user k n =
      count-remove-eq (is_owner_of k) (is_member team user) ms (λ x e. ground arith)

  -- Deleting one of several owners.
  delete_owner-IsSafe :
      (team user : ℕ) → 2 ≤ count_where (is_owner_of team) ms → IsSafe ms (delete_member team user)
  delete_owner-IsSafe team user two = (
    λ k h. elim (Bool-cases (k == team)) [
      | inl e ↦
          let same : k ≡ team = ground arith in
          rw same (
            omega
              (arith, one team user, count-remove-add (is_owner_of team) (is_member team user) ms))
      | inr e ↦ rw (delete-of-others team user k (ground arith)) h
    ],
    delete-HasOneRow team user,
  )

  delete_member-IsSafe :
      (team user : ℕ) (m : TeamMember)
      → find_member team user ms ≡ some m
      → is_owner m.role ≡ false
      → IsSafe ms (delete_member team user)
  delete_member-IsSafe team user m e n = (
    λ k h. omega (
      arith,
      count-remove-found (is_owner_of k) (is_member team user) ms m e (one team user)
          (ground arith),
    ),
    delete-HasOneRow team user,
  )

  promote-IsSafe : (team user : ℕ) → IsSafe ms (set_role team user owner)
  promote-IsSafe team user = (
    λ k h. omega (
      arith,
      count-change-le (is_owner_of k) (is_member team user) (with_role owner) ms
          (λ x e. ground arith),
    ),
    set_role-HasOneRow team user owner,
  )

  demote-of-others :
      (team user k : ℕ)
      → k ≢ team
      → count_where (is_owner_of k) (members_after (set_role team user member) ms)
        ≡ count_where (is_owner_of k) ms
  demote-of-others team user k n =
      count-change-eq (is_owner_of k) (is_member team user) (with_role member) ms
        (λ x e. ground arith)

  demote-IsSafe :
      (team user : ℕ)
      → 2 ≤ count_where (is_owner_of team) ms
      → IsSafe ms (set_role team user member)
  demote-IsSafe team user two = (
    λ k h. elim (Bool-cases (k == team)) [
      | inl e ↦
          let same : k ≡ team = ground arith in
          rw same (
            omega (
              arith,
              one team user,
              count-change-add (is_owner_of team) (is_member team user) (with_role member) ms,
            ))
      | inr e ↦ rw (demote-of-others team user k (ground arith)) h
    ],
    set_role-HasOneRow team user member,
  )

module _ (s : Accounts) (one : HasOneRow s.team_members) where
  role_target-Ensures :
      (role : Role) (team target : ℕ) (m : TeamMember) (u : User)
      → Ensures s.team_members
          (role_target role team target m u (count_where (is_owner_of team) s.team_members))
  role_target-Ensures owner team target m u = elim (Bool-cases (same_role m.role owner)) [
    | inl e ↦ rw e (λ k h. h, one)
    | inr e ↦ rw e (elim (Bool-cases (is_owner m.role)) [
      | inl o ↦ rw o (promote-IsSafe s.team_members one team target)
      | inr o ↦ rw o (promote-IsSafe s.team_members one team target)
    ])
  ]
  role_target-Ensures member team target m u = elim (Bool-cases (same_role m.role member)) [
    | inl e ↦ rw e (λ k h. h, one)
    | inr e ↦
        let is : is_owner m.role ≡ true = ground arith in
        rw (e, is)
          (elim (Bool-cases (leb (count_where (is_owner_of team) s.team_members) 1)) [
            | inl few ↦ rw few tt
            | inr many ↦ rw many (demote-IsSafe s.team_members one team target (ground arith))
          ])
  ]

  role_joined-Ensures :
      (role : Role) (team target : ℕ) (m : TeamMember) (o : Option User)
      → Ensures s.team_members (role_joined role team target s m o)
  role_joined-Ensures role team target m none = tt
  role_joined-Ensures role team target m (some u) = role_target-Ensures role team target m u

  role_found-Ensures :
      (role : Role) (team target : ℕ) (o : Option TeamMember)
      → Ensures s.team_members (role_found role team target s o)
  role_found-Ensures role team target none = tt
  role_found-Ensures role team target (some m) =
      role_joined-Ensures role team target m (find_user m.user_id s.users)

  role_allowed-Ensures :
      (role : Role) (team target : ℕ) (a : Answer Role)
      → Ensures s.team_members (role_allowed role team target s a)
  role_allowed-Ensures role team target (refused e) = tt
  role_allowed-Ensures role team target (granted r) =
      role_found-Ensures role team target (find_member team target s.team_members)

  pub check_update-Ensures :
      (acting team target : ℕ) (role : Role)
      → Ensures s.team_members (check_update acting team target role s)
  unfolding check_update
  check_update-Ensures acting team target role =
      role_allowed-Ensures role team target (require_team_role acting team owner s)

  remove_target-Ensures :
      (team target : ℕ) (o : Option TeamMember)
      → find_member team target s.team_members ≡ o
      → Ensures s.team_members (remove_target team target s o)
  remove_target-Ensures team target none e = tt
  remove_target-Ensures team target (some m) e = elim (Bool-cases (is_owner m.role)) [
    | inl o ↦ rw o (elim (Bool-cases (leb (count_where (is_owner_of team) s.team_members) 1)) [
      | inl few ↦ rw few tt
      | inr many ↦ rw many (delete_owner-IsSafe s.team_members one team target (ground arith))
    ])
    | inr o ↦ rw o (delete_member-IsSafe s.team_members one team target m e o)
  ]

  remove_allowed-Ensures :
      (acting team target : ℕ) (a : Answer Role)
      → Ensures s.team_members (remove_allowed acting team target s a)
  remove_allowed-Ensures acting team target (refused e) = tt
  remove_allowed-Ensures acting team target (granted r) = elim (Bool-cases (target == acting)) [
    | inl self ↦ rw self (remove_target-Ensures team target _ refl)
    | inr other ↦ rw other (elim (Bool-cases (is_owner r)) [
      | inl o ↦ rw o (remove_target-Ensures team target _ refl)
      | inr o ↦ rw o tt
    ])
  ]

  pub check_remove-Ensures :
      (acting team target : ℕ) → Ensures s.team_members (check_remove acting team target s)
  unfolding check_remove
  check_remove-Ensures acting team target =
      remove_allowed-Ensures acting team target (require_team_role acting team member s)

  module _ (lower : String → String) where
    new_member-Ensures :
        (now team : ℕ) (u : User) (o : Option TeamMember)
        → find_member team u.id s.team_members ≡ o
        → Ensures s.team_members (new_member lower now team u o)
    new_member-Ensures now team u (some m) e = tt
    new_member-Ensures now team u none e =
        insert-IsSafe s.team_members one _ (find_none-count (is_member team u.id) s.team_members e)

    found_user-Ensures :
        (now team : ℕ) (o : Option User) → Ensures s.team_members (found_user lower now team s o)
    found_user-Ensures now team none = tt
    found_user-Ensures now team (some u) =
        new_member-Ensures now team u (find_member team u.id s.team_members) refl

    add_allowed-Ensures :
        (now team : ℕ) (email : String) (a : Answer Role)
        → Ensures s.team_members (add_allowed lower now team email s a)
    add_allowed-Ensures now team email (refused e) = tt
    add_allowed-Ensures now team email (granted r) = found_user-Ensures now team _

    pub check_add-Ensures :
        (now acting team : ℕ) (email : String)
        → Ensures s.team_members (check_add lower now acting team email s)
    unfolding check_add
    check_add-Ensures now acting team email =
        add_allowed-Ensures now team email (require_team_role acting team owner s)
