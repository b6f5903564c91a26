-- ===== src/Common/Removal.antt =====
-- What removing or changing the rows that meet a condition does to a count, and what a search found.
use Prim.Native.Nat.{suc, ◌+◌, ◌≤◌}
use mathlib.Core.Path.{◌≡◌, refl, ap}
use mathlib.Core.Logic.{inl, inr}
use mathlib.Core.Bool.{Bool, true, false, not, ◌&&◌}
use mathlib.Core.Option.{none, some}
use mathlib.Core.List.{List, [], ◌∷◌, ◌++◌}
use native.Mathlib.Omega.{arith}
use kubwave.Common.Tests.{Bool-cases}
use kubwave.Common.Lists.{All, any, find_where}
use kubwave.Common.Tables.{select_where, count_where, update_where}

module _ {ℓ} {A : Type ℓ} where
  pub find_none-count : (p : A → Bool) (xs : List A) → find_where p xs ≡ none → count_where p xs ≡ 0
  find_none-count p [] e = refl
  find_none-count p (x ∷ xs) e = elim (Bool-cases (p x)) [
    | inl h ↦ absurd (ground arith)
    | inr h ↦ ground (arith, find_none-count p xs (ground arith))
  ]

  pub find_some-test : (p : A → Bool) (xs : List A) (m : A) → find_where p xs ≡ some m → p m ≡ true
  find_some-test p [] m e = absurd (cc)
  find_some-test p (x ∷ xs) m e = elim (Bool-cases (p x)) [
    | inl h ↦ let same : x ≡ m = ground arith in rw (← same) h
    | inr h ↦ find_some-test p xs m (ground arith)
  ]

  pub count-remove-add :
      (q p : A → Bool) (xs : List A)
      → count_where q xs ≤ count_where q (select_where (λ x. not (p x)) xs) + count_where p xs
  count-remove-add q p [] = omega arith
  count-remove-add q p (x ∷ xs) = ground (arith, count-remove-add q p xs)

  -- Only the rows that meet both conditions go.
  pub count-remove-both :
      (q p : A → Bool) (xs : List A)
      → count_where q xs
        ≤ count_where q (select_where (λ x. not (p x)) xs) + count_where (λ x. q x && p x) xs
  count-remove-both q p [] = omega arith
  count-remove-both q p (x ∷ xs) = ground (arith, count-remove-both q p xs)

  pub count-imply-le :
      (q p : A → Bool) (xs : List A)
      → ((x : A) → q x ≡ true → p x ≡ true)
      → count_where q xs ≤ count_where p xs
  count-imply-le q p [] h = omega arith
  count-imply-le q p (x ∷ xs) h = ground (arith, h x, count-imply-le q p xs h)

  pub count-remove-le :
      (q p : A → Bool) (xs : List A)
      → count_where q (select_where (λ x. not (p x)) xs) ≤ count_where q xs
  count-remove-le q p [] = omega arith
  count-remove-le q p (x ∷ xs) = ground (arith, count-remove-le q p xs)

  -- Rows of one kind are no rows of another.
  pub count-remove-eq :
      (q p : A → Bool) (xs : List A)
      → ((x : A) → p x ≡ true → q x ≡ false)
      → count_where q (select_where (λ x. not (p x)) xs) ≡ count_where q xs
  count-remove-eq q p [] h = refl
  count-remove-eq q p (x ∷ xs) h = ground (arith, h x, count-remove-eq q p xs h)

  -- The one row that goes did not count.
  pub count-remove-found :
      (q p : A → Bool) (xs : List A) (m : A)
      → find_where p xs ≡ some m
      → count_where p xs ≤ 1
      → q m ≡ false
      → count_where q xs ≤ count_where q (select_where (λ x. not (p x)) xs)
  count-remove-found q p [] m e one n = omega arith
  count-remove-found q p (x ∷ xs) m e one n = elim (Bool-cases (p x)) [
    | inl h ↦
        let same : x ≡ m = ground arith in
        let miss : q x ≡ false = rw same n in ground (arith, count-remove-add q p xs, miss)
    | inr h ↦ ground (arith, count-remove-found q p xs m (ground arith) (ground arith) n)
  ]

  pub count-change-add :
      (q p : A → Bool) (f : A → A) (xs : List A)
      → count_where q xs ≤ count_where q (update_where p f xs) + count_where p xs
  count-change-add q p f [] = omega arith
  count-change-add q p f (x ∷ xs) = ground (arith, count-change-add q p f xs)

  pub count-change-eq :
      (q p : A → Bool) (f : A → A) (xs : List A)
      → ((x : A) → p x ≡ true → q (f x) ≡ q x)
      → count_where q (update_where p f xs) ≡ count_where q xs
  count-change-eq q p f [] h = refl
  count-change-eq q p f (x ∷ xs) h = ground (arith, h x, count-change-eq q p f xs h)

  pub count-change-le :
      (q p : A → Bool) (f : A → A) (xs : List A)
      → ((x : A) → q x ≡ true → q (f x) ≡ true)
      → count_where q xs ≤ count_where q (update_where p f xs)
  count-change-le q p f [] h = omega arith
  count-change-le q p f (x ∷ xs) h = ground (arith, h x, count-change-le q p f xs h)

  -- The one row that changes did not count.
  pub count-change-found :
      (q p : A → Bool) (f : A → A) (xs : List A) (m : A)
      → find_where p xs ≡ some m
      → count_where p xs ≤ 1
      → q m ≡ false
      → count_where q xs ≤ count_where q (update_where p f xs)
  count-change-found q p f [] m e one n = omega arith
  count-change-found q p f (x ∷ xs) m e one n = elim (Bool-cases (p x)) [
    | inl h ↦
        let same : x ≡ m = ground arith in
        let miss : q x ≡ false = rw same n in ground (arith, count-change-add q p f xs, miss)
    | inr h ↦ ground (arith, count-change-found q p f xs m (ground arith) (ground arith) n)
  ]

  -- The found row counted, and goes.
  pub count-remove-lt :
      (q p : A → Bool) (xs : List A) (m : A)
      → find_where p xs ≡ some m
      → q m ≡ true
      → suc (count_where q (select_where (λ x. not (p x)) xs)) ≤ count_where q xs
  count-remove-lt q p [] m e k = absurd (cc)
  count-remove-lt q p (x ∷ xs) m e k = elim (Bool-cases (p x)) [
    | inl h ↦
        let same : x ≡ m = ground arith in
        let hit : q x ≡ true = rw same k in ground (arith, count-remove-le q p xs, hit)
    | inr h ↦ ground (arith, count-remove-lt q p xs m (ground arith) k)
  ]

  -- Rows of another kind are found as before.
  pub find-remove :
      (r p : A → Bool) (xs : List A)
      → ((x : A) → p x ≡ true → r x ≡ false)
      → find_where r (select_where (λ x. not (p x)) xs) ≡ find_where r xs
  find-remove r p [] h = refl
  find-remove r p (x ∷ xs) h = ground (arith, h x, find-remove r p xs h)

  -- A found row that is updated is found updated.
  pub find-update_found :
      (p q : A → Bool) (f : A → A) (xs : List A) (m : A)
      → ((x : A) → p (f x) ≡ p x)
      → find_where p xs ≡ some m
      → q m ≡ true
      → find_where p (update_where q f xs) ≡ some (f m)
  find-update_found p q f [] m k e h = absurd (cc)
  find-update_found p q f (x ∷ xs) m k e h = elim (Bool-cases (p x)) [
    | inl hit ↦
        let same : x ≡ m = ground arith in
        let passes : q x ≡ true = rw same h in rw (passes, k x, hit) (ap (λ t. some (f t)) same)
    | inr miss ↦ ground (arith, k x, miss, find-update_found p q f xs m k (ground arith) h)
  ]

  -- A selection of rows of another kind is as before.
  pub select-remove :
      (r p : A → Bool) (xs : List A)
      → ((x : A) → p x ≡ true → r x ≡ false)
      → select_where r (select_where (λ x. not (p x)) xs) ≡ select_where r xs
  select-remove r p [] h = refl
  select-remove r p (x ∷ xs) h = ground (arith, h x, select-remove r p xs h)

  pub select_none :
      (r : A → Bool) (xs : List A) → All (λ x. r x ≡ false) xs → select_where r xs ≡ []
  select_none r [] h = refl
  select_none r (x ∷ xs) (e, h) = rw (e, select_none r xs h) refl

  pub any-remove :
      (r p : A → Bool) (xs : List A)
      → ((x : A) → p x ≡ true → r x ≡ false)
      → any r (select_where (λ x. not (p x)) xs) ≡ any r xs
  any-remove r p [] h = refl
  any-remove r p (x ∷ xs) h = ground (arith, h x, any-remove r p xs h)

  pub any-append_left : (r : A → Bool) (xs ys : List A) → any r xs ≡ true → any r (xs ++ ys) ≡ true
  any-append_left r [] ys e = absurd (cc)
  any-append_left r (x ∷ xs) ys e = ground (arith, any-append_left r xs ys)

  pub any-change :
      (r p : A → Bool) (f : A → A) (xs : List A)
      → ((x : A) → r (f x) ≡ r x)
      → any r (update_where p f xs) ≡ any r xs
  any-change r p f [] h = refl
  any-change r p f (x ∷ xs) h = ground (arith, h x, any-change r p f xs h)
