-- ===== src/Accounts/Access.antt =====
-- Who may change a team, and what two requests do whose checks both come before their writes.
use kubwave.Common.{
  ℕ, ◌≡◌, ◌≢◌, ◌∙◌, refl, inl, inr, Bool, true, false, ◌&&◌, Option, none, some, String, List, [],
  ◌∷◌, ◌==◌, ==_refl, arith, any, find_where, count_where, leb, Bool-cases, find-remove,
  find_some-test, count-remove-lt,
}
use kubwave.Accounts.Tables.{
  Role, owner, member, TeamMember, Accounts, AccountError, team_not_found, team_forbidden, granted,
  refused, is_owner, is_member, is_owner_of,
}
use kubwave.Accounts.Teams.{find_member, role_answer, require_team_role, rename_team, delete_team}
use kubwave.Accounts.Members.{
  members_after, delete_member, apply_member_write, owner_count, run_alone, check_add,
  add_team_member, check_update, update_team_member_role, remove_allowed, check_remove,
  remove_team_member,
}

-- The user has no membership of the team as an owner.
abbrev pub IsNoOwner : ℕ → ℕ → Accounts → Type 0
IsNoOwner acting team s =
    any (λ m. is_member team acting m && is_owner m.role) s.team_members ≡ false

found_no_owner :
    (p : TeamMember → Bool) (ms : List TeamMember) (m : TeamMember)
    → any (λ m. p m && is_owner m.role) ms ≡ false
    → find_where p ms ≡ some m
    → is_owner m.role ≡ false
found_no_owner p [] m h e = absurd (cc)
found_no_owner p (x ∷ ms) m h e = elim (Bool-cases (p x)) [
  | inl hit ↦ let same : x ≡ m = ground arith in rw (← same) (ground arith)
  | inr miss ↦ found_no_owner p ms m (ground arith) (ground arith)
]

owner_refused :
    (acting team : ℕ) (s : Accounts) (o : Option TeamMember)
    → IsNoOwner acting team s
    → find_member team acting s.team_members ≡ o
    → (e : AccountError) × (role_answer owner o ≡ refused e)
owner_refused acting team s none h e = (team_not_found, refl)
owner_refused acting team s (some m) h e =
    (team_forbidden, rw (found_no_owner (is_member team acting) s.team_members m h e))

no_owner-remove :
    (acting team target : ℕ) (s : Accounts) (o : Option TeamMember)
    → target ≢ acting
    → IsNoOwner acting team s
    → find_member team acting s.team_members ≡ o
    → (run_alone (remove_allowed acting team target s (role_answer member o)) s).0 ≡ s
no_owner-remove acting team target s none n h e = refl
no_owner-remove acting team target s (some m) n h e =
    let other : (target == acting) ≡ false = ground arith in
    rw (other, found_no_owner (is_member team acting) s.team_members m h e) refl

-- What a user without an owner's membership of a team asks changes nothing at all: no renaming or
-- deletion of the team, no new member, no change of a role, and no removal of anybody but the
-- user.
pub no_owner-changes_nothing :
    (lower : String → String) (now acting team target : ℕ) (name email : String) (role : Role)
    (s : Accounts)
    → IsNoOwner acting team s
    → ((rename_team now acting team name s).0 ≡ s)
      × ((delete_team acting team s).0 ≡ s)
      × ((add_team_member lower now acting team email s).0 ≡ s)
      × ((update_team_member_role acting team target role s).0 ≡ s)
      × (target ≢ acting → (remove_team_member acting team target s).0 ≡ s)
unfolding rename_team delete_team add_team_member update_team_member_role remove_team_member
    check_add check_update check_remove require_team_role
no_owner-changes_nothing lower now acting team target name email role s h =
    let (e, is) = owner_refused acting team s (find_member team acting s.team_members) h refl in
    (
      rw is refl,
      rw is refl,
      rw is refl,
      rw is refl,
      λ n. no_owner-remove acting team target s (find_member team acting s.team_members) n h refl,
    )

leave_granted :
    (user team : ℕ) (s : Accounts) (m : TeamMember)
    → find_member team user s.team_members ≡ some m
    → is_owner m.role ≡ true
    → owner_count team s ≡ 2
    → check_remove user team user s ≡ granted (delete_member team user, tt)
unfolding check_remove require_team_role owner_count
leave_granted user team s m found o two =
    let many : leb (count_where (is_owner_of team) s.team_members) 1 ≡ false = ground arith in
    rw (found, ==_refl user, found, o, many) refl

owned :
    (team u : ℕ) (ms : List TeamMember) (x : TeamMember)
    → find_member team u ms ≡ some x
    → is_owner x.role ≡ true
    → is_owner_of team x ≡ true
owned team u ms x f o = ground (arith, find_some-test (is_member team u) ms x f)

none_left :
    (a b team : ℕ) (ms : List TeamMember) (m n : TeamMember)
    → a ≢ b
    → find_member team a ms ≡ some m
    → find_member team b ms ≡ some n
    → is_owner m.role ≡ true
    → is_owner n.role ≡ true
    → count_where (is_owner_of team) ms ≡ 2
    → count_where
        (is_owner_of team)
        (members_after (delete_member team b) (members_after (delete_member team a) ms))
      ≡ 0
none_left a b team ms m n ne fa fb oa ob two =
    let rest = members_after (delete_member team a) ms in
    let still : find_member team b rest ≡ some n =
      find-remove (is_member team b) (is_member team a) ms (λ x e. ground arith) ∙ fb in
    omega (
      arith,
      count-remove-lt (is_owner_of team) (is_member team a) ms m fa (owned team a ms m fa oa),
      count-remove-lt (is_owner_of team) (is_member team b) rest n still (owned team b ms n fb ob),
    )

-- Where a team has just two owners, and both ask to leave before either has left, both checks
-- pass, and after both deletions the team has no owner.
pub leave-leave :
    (a b team : ℕ) (s : Accounts) (m n : TeamMember)
    → a ≢ b
    → find_member team a s.team_members ≡ some m
    → find_member team b s.team_members ≡ some n
    → is_owner m.role ≡ true
    → is_owner n.role ≡ true
    → owner_count team s ≡ 2
    → (check_remove a team a s ≡ granted (delete_member team a, tt))
      × (check_remove b team b s ≡ granted (delete_member team b, tt))
      × (owner_count team (
            apply_member_write (delete_member team b) (apply_member_write (delete_member team a) s))
          ≡ 0)
unfolding owner_count apply_member_write
leave-leave a b team s m n ne fa fb oa ob two = (
  leave_granted a team s m fa oa two,
  leave_granted b team s n fb ob two,
  none_left a b team s.team_members m n ne fa fb oa ob two,
)
