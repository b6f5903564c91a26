-- ===== src/Common/Tables.antt =====
-- A database table as a list of rows: selection, counting, ordering and update by a condition.
use Prim.Native.Nat.{ℕ, zero, suc, ◌+◌, ◌≤◌}
use mathlib.Core.Path.{◌≡◌, refl}
use mathlib.Core.Logic.{inl, inr}
use mathlib.Core.Bool.{Bool, true, false, ◌&&◌}
use mathlib.Core.List.{List, [], ◌∷◌, ◌++◌}
use native.Mathlib.Omega.{arith}
use kubwave.Common.Tests.{if◌then◌else◌, leb, Bool-cases}
use kubwave.Common.Lists.{All, take, length, any}

module _ {ℓ} {A : Type ℓ} where
  -- select … where p
  abbrev pub select_where : (A → Bool) → List A → List A
  select_where p [] = []
  select_where p (x ∷ xs) = if p x then x ∷ select_where p xs else select_where p xs

  -- select count() … where p
  abbrev pub count_where : (A → Bool) → List A → ℕ
  count_where p [] = 0
  count_where p (x ∷ xs) = if p x then suc (count_where p xs) else count_where p xs

  -- update … set f where p
  abbrev pub update_where : (A → Bool) → (A → A) → List A → List A
  update_where p f [] = []
  update_where p f (x ∷ xs) = (if p x then f x else x) ∷ update_where p f xs

  -- order by key, stable
  abbrev pub insert_by : (A → ℕ) → A → List A → List A
  insert_by key x [] = x ∷ []
  insert_by key x (y ∷ ys) =
      let later = y ∷ insert_by key x ys in if leb (key x) (key y) then x ∷ y ∷ ys else later

  abbrev pub order_by : (A → ℕ) → List A → List A
  order_by key [] = []
  order_by key (x ∷ xs) = insert_by key x (order_by key xs)

  pub count-append :
      (p : A → Bool) (xs ys : List A)
      → count_where p (xs ++ ys) ≡ count_where p xs + count_where p ys
  count-append p [] ys = omega arith
  count-append p (x ∷ xs) ys = ground (arith, count-append p xs ys)

  pub select-append :
      (p : A → Bool) (xs ys : List A)
      → select_where p (xs ++ ys) ≡ select_where p xs ++ select_where p ys
  select-append p [] ys = refl
  select-append p (x ∷ xs) ys = ground (arith, select-append p xs ys)

  pub count_pos-any :
      (p : A → Bool) (xs : List A) → count_where p xs ≡ 0 → All (λ x. p x ≡ false) xs
  count_pos-any p [] h = tt
  count_pos-any p (x ∷ xs) h = elim (Bool-cases (p x)) [
    | inl e ↦ absurd (ground arith)
    | inr e ↦ (e, count_pos-any p xs (ground arith))
  ]

  -- What an update adds to a count: nothing, where the rows that it changes come to count only if
  -- they counted before.
  pub count-update-le :
      (q p : A → Bool) (f : A → A) (xs : List A)
      → All (λ x. p x ≡ true → q (f x) ≡ true → q x ≡ true) xs
      → count_where q (update_where p f xs) ≤ count_where q xs
  count-update-le q p f [] h = omega arith
  count-update-le q p f (x ∷ xs) (k, h) = ground (arith, k, count-update-le q p f xs h)

  pub count-update-add :
      (q p : A → Bool) (f : A → A) (xs : List A)
      → count_where q (update_where p f xs) ≤ count_where q xs + count_where p xs
  count-update-add q p f [] = omega arith
  count-update-add q p f (x ∷ xs) = ground (arith, count-update-add q p f xs)

  -- The rows that came to count were updated.
  pub count-update-split :
      (q p : A → Bool) (f : A → A) (xs : List A)
      → count_where q (update_where p f xs)
        ≤ count_where q xs + count_where (λ x. p x && q (f x)) xs
  count-update-split q p f [] = omega arith
  count-update-split q p f (x ∷ xs) = ground (arith, count-update-split q p f xs)

  pub count_none : (p : A → Bool) (xs : List A) → All (λ x. p x ≡ false) xs → count_where p xs ≡ 0
  count_none p [] h = refl
  count_none p (x ∷ xs) (e, h) = ground (arith, e, count_none p xs h)

  pub none_of_any : (p : A → Bool) (xs : List A) → any p xs ≡ false → All (λ x. p x ≡ false) xs
  none_of_any p [] h = tt
  none_of_any p (x ∷ xs) h = (ground arith, none_of_any p xs (ground arith))

  -- Rows that are selected neither before nor after an update leave a selection as it was.
  pub select-update-eq :
      (q p : A → Bool) (f : A → A) (xs : List A)
      → All (λ x. p x ≡ true → (q x ≡ false) × (q (f x) ≡ false)) xs
      → select_where q (update_where p f xs) ≡ select_where q xs
  select-update-eq q p f [] h = refl
  select-update-eq q p f (x ∷ xs) (k, h) = ground (arith, k, select-update-eq q p f xs h)

  pub count-update-eq :
      (q p : A → Bool) (f : A → A) (xs : List A)
      → All (λ x. p x ≡ true → q (f x) ≡ q x) xs
      → count_where q (update_where p f xs) ≡ count_where q xs
  count-update-eq q p f [] h = refl
  count-update-eq q p f (x ∷ xs) (k, h) = ground (arith, k, count-update-eq q p f xs h)

  pub count_select-length :
      (p : A → Bool) (xs : List A) → length (select_where p xs) ≡ count_where p xs
  count_select-length p [] = refl
  count_select-length p (x ∷ xs) = ground (arith, count_select-length p xs)

  pub count-select-le :
      (q p : A → Bool) (xs : List A) → count_where q (select_where p xs) ≤ count_where q xs
  count-select-le q p [] = omega arith
  count-select-le q p (x ∷ xs) = ground (arith, count-select-le q p xs)

  pub count-take-le :
      (q : A → Bool) (n : ℕ) (xs : List A) → count_where q (take n xs) ≤ count_where q xs
  count-take-le q zero xs = omega arith
  count-take-le q (suc n) [] = omega arith
  count-take-le q (suc n) (x ∷ xs) = ground (arith, count-take-le q n xs)

  pub count-insert_by :
      (q : A → Bool) (key : A → ℕ) (x : A) (xs : List A)
      → count_where q (insert_by key x xs) ≡ count_where q (x ∷ xs)
  count-insert_by q key x [] = refl
  count-insert_by q key x (y ∷ ys) = ground (arith, count-insert_by q key x ys)

  pub count-order_by :
      (q : A → Bool) (key : A → ℕ) (xs : List A)
      → count_where q (order_by key xs) ≡ count_where q xs
  count-order_by q key [] = refl
  count-order_by q key (x ∷ xs) =
      ground (arith, count-insert_by q key x (order_by key xs), count-order_by q key xs)

  -- Rows that one count implies another for.
  pub count_mono :
      (p q : A → Bool) (xs : List A)
      → All (λ x. p x ≡ true → q x ≡ true) xs
      → count_where p xs ≤ count_where q xs
  count_mono p q [] h = omega arith
  count_mono p q (x ∷ xs) (k, h) = ground (arith, k, count_mono p q xs h)

module _ {ℓ κ} {A : Type ℓ} (P : A → Type κ) where
  pub All-select :
      (p : A → Bool) (xs : List A) → All P xs → All (λ x. P x × (p x ≡ true)) (select_where p xs)
  All-select p [] h = tt
  All-select p (x ∷ xs) (k, h) = elim (Bool-cases (p x)) [
    | inl e ↦ rw e ((k, e), All-select p xs h)
    | inr e ↦ rw e (All-select p xs h)
  ]

  pub All-insert_by :
      (key : A → ℕ) (x : A) (xs : List A) → P x → All P xs → All P (insert_by key x xs)
  All-insert_by key x [] k h = (k, tt)
  All-insert_by key x (y ∷ ys) k (l, h) = elim (Bool-cases (leb (key x) (key y))) [
    | inl e ↦ rw e (k, (l, h))
    | inr e ↦ rw e (l, All-insert_by key x ys k h)
  ]

  pub All-order_by : (key : A → ℕ) (xs : List A) → All P xs → All P (order_by key xs)
  All-order_by key [] h = tt
  All-order_by key (x ∷ xs) (k, h) = All-insert_by key x (order_by key xs) k (All-order_by key xs h)

  pub All-update :
      (p : A → Bool) (f : A → A) (xs : List A)
      → All (λ x. p x ≡ true → P x → P (f x)) xs
      → All P xs
      → All P (update_where p f xs)
  All-update p f [] g h = tt
  All-update p f (x ∷ xs) (u, g) (k, h) = elim (Bool-cases (p x)) [
    | inl e ↦ rw e (u e k, All-update p f xs g h)
    | inr e ↦ rw e (k, All-update p f xs g h)
  ]
