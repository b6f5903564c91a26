-- ===== src/Common/Ordered.antt =====
-- What `order by` and `limit` give: a sorted list, whose first rows come before all the others.
use Prim.Native.Nat.{ℕ, zero, suc, ◌≤◌}
use mathlib.Core.Path.{◌≡◌, refl}
use mathlib.Core.Logic.{◌⊎◌, inl, inr}
use mathlib.Core.Bool.{Bool, true, false}
use mathlib.Core.List.{List, [], ◌∷◌}
use native.Mathlib.Omega.{arith}
use kubwave.Common.Tests.{leb, ◌==◌, ==_refl, Bool-cases}
use kubwave.Common.Lists.{All, All-map, All-zip, any, take}
use kubwave.Common.Tables.{select_where, insert_by, order_by, All-insert_by}

module _ {ℓ} {A : Type ℓ} (key : A → ℕ) where
  abbrev pub IsSorted : List A → Type 0
  IsSorted [] = Unit
  IsSorted (x ∷ xs) = All (λ y. key x ≤ key y) xs × IsSorted xs

  insert_by-IsSorted : (x : A) (xs : List A) → IsSorted xs → IsSorted (insert_by key x xs)
  insert_by-IsSorted x [] s = (tt, tt)
  insert_by-IsSorted x (y ∷ ys) (h, s) = elim (Bool-cases (leb (key x) (key y))) [
    | inl e ↦ rw e (
      (ground arith, All-map (λ z. key y ≤ key z) (λ z. key x ≤ key z) ys (λ z le. ground arith) h),
      (h, s),
    )
    | inr e ↦
        rw e
          (All-insert_by (λ z. key y ≤ key z) key x ys (ground arith) h, insert_by-IsSorted x ys s)
  ]

  pub order_by-IsSorted : (xs : List A) → IsSorted (order_by key xs)
  order_by-IsSorted [] = tt
  order_by-IsSorted (x ∷ xs) = insert_by-IsSorted x (order_by key xs) (order_by-IsSorted xs)

module _ {ℓ κ} {A : Type ℓ} (P : A → Type κ) where
  insert_by-All : (key : A → ℕ) (x : A) (xs : List A) → All P (insert_by key x xs) → P x × All P xs
  insert_by-All key x [] h = h
  insert_by-All key x (y ∷ ys) h = elim (Bool-cases (leb (key x) (key y))) [
    | inl e ↦ rw e at h
    | inr e ↦ let k = rw e at h in let (p, more) = insert_by-All key x ys k.1 in (p, (k.0, more))
  ]

  -- What holds of the ordered rows holds of the rows.
  pub order_by-All : (key : A → ℕ) (xs : List A) → All P (order_by key xs) → All P xs
  order_by-All key [] h = tt
  order_by-All key (x ∷ xs) h =
      let (p, more) = insert_by-All key x (order_by key xs) h in (p, order_by-All key xs more)

  -- What holds of the selected rows holds of every row that meets the condition.
  pub select_where-All :
      (p : A → Bool) (xs : List A) → All P (select_where p xs) → All (λ x. (p x ≡ false) ⊎ P x) xs
  select_where-All p [] h = tt
  select_where-All p (x ∷ xs) h = elim (Bool-cases (p x)) [
    | inl e ↦ let k = rw e at h in (inr k.0, select_where-All p xs k.1)
    | inr e ↦ (inl e, select_where-All p xs (rw e at h))
  ]

-- A row of a sorted list is among the first `n`, or none of these comes after it.
module _ {ℓ} {A : Type ℓ} (id key : A → ℕ) where
  abbrev pub IsTakenOrLater : List A → A → Type 0
  IsTakenOrLater firsts x =
      (any (λ r. id r == id x) firsts ≡ true) ⊎ All (λ r. key r ≤ key x) firsts

  pub take-IsTakenOrLater :
      (n : ℕ) (xs : List A) → IsSorted key xs → All (IsTakenOrLater (take n xs)) xs
  take-IsTakenOrLater n [] s = tt
  take-IsTakenOrLater zero (x ∷ xs) (h, s) =
      (inr tt, All-map (λ y. key x ≤ key y) (IsTakenOrLater []) xs (λ y k. inr tt) h)
  take-IsTakenOrLater (suc n) (x ∷ xs) (h, s) = (
    inl (rw (==_refl (id x)) refl),
    All-map (λ y. (key x ≤ key y) × IsTakenOrLater (take n xs) y) (IsTakenOrLater (x ∷ take n xs))
        xs (λ y k. widen y k.0 k.1)
        (All-zip (λ y. key x ≤ key y) (IsTakenOrLater (take n xs)) xs h
          (take-IsTakenOrLater n xs s)),
  )
    where
      widen :
          (y : A) → key x ≤ key y → IsTakenOrLater (take n xs) y → IsTakenOrLater (x ∷ take n xs) y
      widen y le (inl e) = inl (ground arith)
      widen y le (inr k) = inr (le, k)
