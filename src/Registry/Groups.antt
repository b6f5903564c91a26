-- ===== src/Registry/Groups.antt =====
-- The rows that a pass groups by service (pruneRegistryImages of
-- apps/backend/src/modules/worker/jobs/registry/prune.ts).
use kubwave.Common.{
  ℕ, ◌≡◌, refl, inl, inr, Bool, true, false, not, ◌&&◌, ◌||◌, List, [], ◌∷◌, ◌++◌, ◌==◌, ==_refl,
  arith, any, map, sort_with, insert_with, select_where, update_where, All, All-map, All-append,
  any-append_left, none_of_any, Bool-cases,
}
use kubwave.Registry.Prune.{PruneRow}
use kubwave.Registry.Images.{JoinedRow, Group, new_group, with_row, push_row, group_rows}

module _ {ℓ} {A : Type ℓ} (p : A → Bool) where
  pub any-append : (xs ys : List A) → any p (xs ++ ys) ≡ (any p xs || any p ys)
  any-append [] ys = refl
  any-append (x ∷ xs) ys = ground (arith, any-append xs ys)

  any-insert :
      (le : A → A → Bool) (x : A) (xs : List A) → any p (insert_with le x xs) ≡ any p (x ∷ xs)
  any-insert le x [] = refl
  any-insert le x (y ∷ ys) = elim (Bool-cases (le x y)) [
    | inl e ↦ rw e refl
    | inr e ↦ rw e (ground (arith, any-insert le x ys))
  ]

  pub any-sort : (le : A → A → Bool) (xs : List A) → any p (sort_with le xs) ≡ any p xs
  any-sort le [] = refl
  any-sort le (x ∷ xs) = ground (arith, any-insert le x (sort_with le xs), any-sort le xs)

  pub any-select :
      (q : A → Bool) (xs : List A) → any p (select_where q xs) ≡ any (λ x. q x && p x) xs
  any-select q [] = refl
  any-select q (x ∷ xs) = ground (arith, any-select q xs)

  pub any-map {κ} :
      {B : Type κ} (f : B → A) (xs : List B) → any p (map f xs) ≡ any (λ x. p (f x)) xs
  any-map f [] = refl
  any-map f (x ∷ xs) = ground (arith, any-map f xs)

-- A row of one service that meets a test, in the groups: they have a group of the service, and every
-- such group has a row that meets it.
module _ (service : ℕ) (q : PruneRow → Bool) where
  abbrev pub holds : Group → Bool
  holds g = not (g.service_id == service) || any q g.rows

  abbrev pub HasRow : List Group → Type 0
  HasRow groups =
      (any (λ g. g.service_id == service) groups ≡ true) × All (λ g. holds g ≡ true) groups

  update-any :
      (k : ℕ) (row : PruneRow) (groups : List Group)
      → any
          (λ g. g.service_id == service)
          (update_where (λ g. g.service_id == k) (with_row row) groups)
        ≡ any (λ g. g.service_id == service) groups
  update-any k row [] = refl
  update-any k row (g ∷ groups) = ground (arith, update-any k row groups)

  -- Adding a row keeps what a group has, and gives it the row.
  update-holds :
      (k : ℕ) (row : PruneRow) (groups : List Group)
      → All (λ g. holds g ≡ true) groups
      → All (λ g. holds g ≡ true) (update_where (λ g. g.service_id == k) (with_row row) groups)
  update-holds k row [] h = tt
  update-holds k row (g ∷ groups) (e, h) = elim (Bool-cases (g.service_id == k)) [
    | inl same ↦
        rw same (ground (arith, any-append q g.rows (row ∷ []), e), update-holds k row groups h)
    | inr other ↦ rw other (e, update-holds k row groups h)
  ]

  new-holds :
      (row : PruneRow) (groups : List Group)
      → q row ≡ true
      → All
          (λ g. holds g ≡ true)
          (update_where (λ g. g.service_id == service) (with_row row) groups)
  new-holds row [] e = tt
  new-holds row (g ∷ groups) e = elim (Bool-cases (g.service_id == service)) [
    | inl same ↦ rw same (ground (arith, any-append q g.rows (row ∷ []), e), new-holds row groups e)
    | inr other ↦ rw other (ground (arith, other), new-holds row groups e)
  ]

  kept_row : (r : JoinedRow) (groups : List Group) → HasRow groups → HasRow (push_row r groups)
  kept_row r groups (a, h) = elim (Bool-cases (any (λ g. g.service_id == r.service_id) groups)) [
    | inl found ↦
        rw found
          (rw (update-any r.service_id r.row groups) a, update-holds r.service_id r.row groups h)
    | inr new ↦ elim (Bool-cases (r.service_id == service)) [
      | inl same ↦
          let e : r.service_id ≡ service = ground (arith, same) in
          absurd (ground (arith, a, (rw e at new)))
      | inr other ↦ rw new (
        any-append_left (λ g. g.service_id == service) groups (new_group r ∷ []) a,
        All-append (λ g. holds g ≡ true) groups (new_group r ∷ []) h (ground (arith, other), tt),
      )
    ]
  ]

  new_row :
      (r : JoinedRow) (groups : List Group)
      → r.service_id ≡ service
      → q r.row ≡ true
      → HasRow (push_row r groups)
  new_row r groups e k = elim (Bool-cases (any (λ g. g.service_id == service) groups)) [
    | inl found ↦
        rw (e, found) (rw (update-any service r.row groups) found, new-holds r.row groups k)
    | inr new ↦
        rw (e, new)
          (
            ground (
              arith,
              any-append (λ g. g.service_id == service) groups
                  (new_group (record r { service_id = service }) ∷ []),
              e,
              ==_refl service,
            ),
            All-append (λ g. holds g ≡ true) groups
                (new_group (record r { service_id = service }) ∷ [])
                (All-map (λ g. (g.service_id == service) ≡ false) (λ g. holds g ≡ true) groups
                  (λ g f. ground (arith, f))
                  (none_of_any (λ g. g.service_id == service) groups new))
                (ground (arith, k), tt),
          )
  ]

  kept_rows :
      (rs : List JoinedRow) (groups : List Group) → HasRow groups → HasRow (group_rows rs groups)
  kept_rows [] groups h = h
  kept_rows (r ∷ rs) groups h = kept_rows rs (push_row r groups) (kept_row r groups h)

  pub grouped :
      (rs : List JoinedRow) (groups : List Group)
      → any (λ r. r.service_id == service && q r.row) rs ≡ true
      → HasRow (group_rows rs groups)
  grouped [] groups h = absurd (cc)
  grouped (r ∷ rs) groups h = elim (Bool-cases (r.service_id == service && q r.row)) [
    | inl hit ↦
        kept_rows rs (push_row r groups)
          (new_row r groups (ground (arith, hit)) (ground (arith, hit)))
    | inr miss ↦ grouped rs (push_row r groups) (ground (arith, miss, h))
  ]

-- Every group of a service has the service's environment.
module _ (service environment : ℕ) where
  abbrev pub lives_in : Group → Bool
  lives_in g = not (g.service_id == service) || g.environment_id == environment

  abbrev pub row_lives_in : JoinedRow → Bool
  row_lives_in r = not (r.service_id == service) || r.environment_id == environment

  update-lives_in :
      (k : ℕ) (row : PruneRow) (groups : List Group)
      → All (λ g. lives_in g ≡ true) groups
      → All (λ g. lives_in g ≡ true) (update_where (λ g. g.service_id == k) (with_row row) groups)
  update-lives_in k row [] h = tt
  update-lives_in k row (g ∷ groups) (e, h) = elim (Bool-cases (g.service_id == k)) [
    | inl same ↦ rw same (e, update-lives_in k row groups h)
    | inr other ↦ rw other (e, update-lives_in k row groups h)
  ]

  pub grouped-lives_in :
      (rs : List JoinedRow) (groups : List Group)
      → All (λ r. row_lives_in r ≡ true) rs
      → All (λ g. lives_in g ≡ true) groups
      → All (λ g. lives_in g ≡ true) (group_rows rs groups)
  grouped-lives_in [] groups hr h = h
  grouped-lives_in (r ∷ rs) groups (e, hr) h =
      grouped-lives_in rs (push_row r groups) hr (added r e)
    where
      added :
          (r : JoinedRow) → row_lives_in r ≡ true → All (λ g. lives_in g ≡ true) (push_row r groups)
      added r e = elim (Bool-cases (any (λ g. g.service_id == r.service_id) groups)) [
        | inl found ↦ rw found (update-lives_in r.service_id r.row groups h)
        | inr new ↦ rw new (All-append (λ g. lives_in g ≡ true) groups (new_group r ∷ []) h (e, tt))
      ]
