-- ===== src/Accounts/UserInv.antt =====
-- The platform's administrators: unique user ids and at least one administrator, which each request on
-- its own keeps.
use kubwave.Common.{
  ℕ, ◌≤◌, ◌≡◌, refl, inl, inr, Bool, true, false, ◌&&◌, Option, none, some, String, List, [], ◌∷◌,
  ◌++◌, ◌==◌, arith, any, find_where, count_where, update_where, leb, Bool-cases, count-append,
  find_some-test, count-remove-add, count-remove-le, count-remove-found, count-change-add,
  count-change-eq, count-change-found, count-change-le,
}
use kubwave.Accounts.Tables.{User, Role, Team, Invitation, Accounts, Answer, granted, refused}
use kubwave.Accounts.Teams.{
  is_default_for, join_default, create_default_team_for_user, rename_allowed, delete_allowed,
}
use kubwave.Accounts.Members.{MemberWrite, run_alone, find_user}
use kubwave.Accounts.Invitations.{
  revoke_invitation, mark_accepted, accept_tx, accept_valid, email_exists, new_user,
}
use kubwave.Accounts.Users.{
  UpdatePlatformUserInput, patch_user, demotes, patch_found, without_user, erase_found,
}
use kubwave.Accounts.TeamInv.{IsFreshUser}

abbrev pub is_admin : User → Bool
is_admin u = u.is_admin

-- User ids are unique, and the platform has an administrator.
pub record AdminsInv (users : List User) : Type 0 where
  pub one_user : (id : ℕ) → count_where (λ u. u.id == id) users ≤ 1
  pub has_admin : 1 ≤ count_where is_admin users

pub run_alone-users {ℓ} :
    {A : Type ℓ} (a : Answer (MemberWrite × A)) (s : Accounts) → (run_alone a s).0.users ≡ s.users
run_alone-users (refused e) s = refl
run_alone-users (granted (w, a)) s = refl

pub create_default-users :
    (now id user : ℕ) (s : Accounts)
    → (create_default_team_for_user now id user s).0.users ≡ s.users
unfolding create_default_team_for_user
create_default-users now id user s = elim (Bool-cases (any (is_default_for user) s.teams)) [
  | inl e ↦ rw e (joined (find_where (is_default_for user) s.teams))
  | inr e ↦ rw e refl
]
  where
    joined : (o : Option Team) → (join_default now user s o).0.users ≡ s.users
    joined none = refl
    joined (some t) = refl

pub rename_allowed-users :
    (now acting team : ℕ) (name : String) (s : Accounts) (a : Answer Role)
    → (rename_allowed now acting team name s a).0.users ≡ s.users
rename_allowed-users now acting team name s (refused e) = refl
rename_allowed-users now acting team name s (granted role) = refl

pub delete_allowed-users :
    (team : ℕ) (s : Accounts) (a : Answer Role) → (delete_allowed team s a).0.users ≡ s.users
delete_allowed-users team s (refused e) = refl
delete_allowed-users team s (granted role) = refl

pub revoke_invitation-users : (id : ℕ) (s : Accounts) → (revoke_invitation id s).0.users ≡ s.users
unfolding revoke_invitation
revoke_invitation-users id s = ground arith

pub AdminsInv-append :
    (u : User) (users : List User)
    → count_where (λ v. v.id == u.id) users ≡ 0
    → AdminsInv users
    → AdminsInv (users ++ u ∷ [])
AdminsInv-append u users fresh inv = record {
  one_user = λ id. elim (Bool-cases (u.id == id)) [
    | inl e ↦
        let same : u.id ≡ id = ground arith in
        let unused : count_where (λ v. v.id == id) users ≡ 0 = rw (← same) fresh in
        ground (arith, count-append (λ v. v.id == id) users (u ∷ []), unused)
    | inr e ↦ ground (arith, count-append (λ v. v.id == id) users (u ∷ []), inv.one_user id)
  ];
  has_admin = ground (arith, count-append is_admin users (u ∷ []), inv.has_admin);
}

pub mark_accepted-AdminsInv :
    (now : ℕ) (i : Invitation) (u : User) (before : Accounts) (after : Accounts × Answer ℕ)
    → AdminsInv before.users
    → AdminsInv after.0.users
    → AdminsInv (mark_accepted now i u before after).0.users
mark_accepted-AdminsInv now i u before (s, refused e) inv inv' = inv
mark_accepted-AdminsInv now i u before (s, granted team) inv inv' =
    elim (Bool-cases (any (λ j. j.id == i.id) s.invitations)) [
      | inl e ↦ rw e inv'
      | inr e ↦ rw e inv
    ]

pub accept_tx-AdminsInv :
    (now user_id team_id : ℕ) (name password : String) (i : Invitation) (s : Accounts)
    → IsFreshUser user_id s
    → AdminsInv s.users
    → AdminsInv (accept_tx now user_id team_id name password i s).0.users
unfolding accept_tx
accept_tx-AdminsInv now user_id team_id name password i s fresh inv =
    elim (Bool-cases (email_exists i.email s)) [
      | inl e ↦ rw e inv
      | inr e ↦
          let u = new_user now user_id name password i in
          let s' = record s { users = s.users ++ u ∷ [] } in
          rw e (
            mark_accepted-AdminsInv now i u s (create_default_team_for_user now team_id user_id s')
              inv
              (rw (create_default-users now team_id user_id s')
                (AdminsInv-append u s.users fresh inv)))
    ]

pub accept_valid-AdminsInv :
    (now user_id team_id : ℕ) (name password : String) (a : Answer Invitation) (s : Accounts)
    → IsFreshUser user_id s
    → AdminsInv s.users
    → AdminsInv (accept_valid now user_id team_id name password a s).0.users
accept_valid-AdminsInv now user_id team_id name password (refused e) s fresh inv = inv
accept_valid-AdminsInv now user_id team_id name password (granted i) s fresh inv =
    accept_tx-AdminsInv now user_id team_id name password i s fresh inv

pub patched-one_user :
    (now : ℕ) (input : UpdatePlatformUserInput) (target : User) (users : List User)
    → AdminsInv users
    → (id : ℕ)
    → count_where
        (λ u. u.id == id)
        (update_where (λ u. u.id == target.id) (patch_user now input) users)
      ≤ 1
patched-one_user now input target users inv id = omega (
  arith,
  inv.one_user id,
  count-change-eq (λ u. u.id == id) (λ u. u.id == target.id) (patch_user now input) users
      (λ u e. refl),
)

-- A patch that demotes no administrator.
pub keep_admin :
    (now : ℕ) (name : Option String) (admin : Option Bool) (target : User) (users : List User)
    (id : ℕ)
    → find_user id users ≡ some target
    → (demotes admin && target.is_admin) ≡ false
    → AdminsInv users
    → 1
      ≤ count_where is_admin (
          update_where
            (λ u. u.id == target.id)
            (patch_user now (record { name = name; is_admin = admin }))
            users)
keep_admin now name none target users id found e inv = omega (
  arith,
  inv.has_admin,
  count-change-le is_admin (λ u. u.id == target.id)
      (patch_user now (record { name = name; is_admin = none })) users (λ u h. h),
)
keep_admin now name (some true) target users id found e inv = omega (
  arith,
  inv.has_admin,
  count-change-le is_admin (λ u. u.id == target.id)
      (patch_user now (record { name = name; is_admin = some true })) users (λ u h. refl),
)
keep_admin now name (some false) target users id found e inv =
    let known : target.id ≡ id =
      ground (arith, find_some-test (λ u. u.id == id) users target found) in
    rw known (
      omega (
        arith,
        inv.has_admin,
        count-change-found is_admin (λ u. u.id == id)
            (patch_user now (record { name = name; is_admin = some false })) users target found
            (inv.one_user id) (ground arith),
      ))

pub patch_found-AdminsInv :
    (now : ℕ) (input : UpdatePlatformUserInput) (acting id : ℕ) (s : Accounts) (o : Option User)
    → find_user id s.users ≡ o
    → AdminsInv s.users
    → AdminsInv (patch_found now input acting s o).0.users
patch_found-AdminsInv now input acting id s none found inv = inv
patch_found-AdminsInv now input acting id s (some target) found inv =
    elim (Bool-cases (demotes input.is_admin && target.is_admin)) [
      | inl e ↦ rw e (elim (Bool-cases (leb (count_where is_admin s.users) 1)) [
        | inl few ↦ rw few inv
        | inr many ↦ rw many (elim (Bool-cases (target.id == acting)) [
          | inl self ↦ rw self inv
          | inr other ↦
              let two : 2 ≤ count_where is_admin s.users = ground arith in
              rw other (record {
                one_user = patched-one_user now input target s.users inv;
                has_admin = omega (
                  arith,
                  inv.one_user target.id,
                  two,
                  count-change-add is_admin (λ u. u.id == target.id) (patch_user now input) s.users,
                );
              })
        ])
      ])
      | inr e ↦ rw e (record {
        one_user = patched-one_user now input target s.users inv;
        has_admin = keep_admin now input.name input.is_admin target s.users id found e inv;
      })
    ]

pub erased-one_user :
    (id : ℕ) (s : Accounts)
    → AdminsInv s.users
    → (k : ℕ) → count_where (λ u. u.id == k) (without_user id s).users ≤ 1
erased-one_user id s inv k =
    omega (arith, inv.one_user k, count-remove-le (λ u. u.id == k) (λ u. u.id == id) s.users)

pub erase_found-AdminsInv :
    (acting id : ℕ) (s : Accounts) (o : Option User)
    → find_user id s.users ≡ o
    → AdminsInv s.users
    → AdminsInv (erase_found acting s o).0.users
erase_found-AdminsInv acting id s none found inv = inv
erase_found-AdminsInv acting id s (some target) found inv =
    let known : target.id ≡ id =
      ground (arith, find_some-test (λ u. u.id == id) s.users target found) in
    elim (Bool-cases (target.is_admin && leb (count_where is_admin s.users) 1)) [
      | inl e ↦ rw e inv
      | inr e ↦ rw e (elim (Bool-cases (target.id == acting)) [
        | inl self ↦ rw self inv
        | inr other ↦
            rw (other, known)
              (record {
                one_user = erased-one_user id s inv;
                has_admin = elim (Bool-cases target.is_admin) [
                  | inl admin ↦
                      ground (
                        arith,
                        inv.one_user id,
                        count-remove-add is_admin (λ u. u.id == id) s.users,
                      )
                  | inr plain ↦ omega (
                    arith,
                    inv.has_admin,
                    count-remove-found is_admin (λ u. u.id == id) s.users target found
                        (inv.one_user id) plain,
                  )
                ];
              })
      ])
    ]
