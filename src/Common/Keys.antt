-- ===== src/Common/Keys.antt =====
-- Tables with a primary key: rows found by key, and a loop of updates by key as one update.
use Prim.Native.Nat.{ℕ, ◌≤◌}
use mathlib.Core.Path.{◌≡◌, refl, sym, ◌∙◌, ap}
use mathlib.Core.Logic.{◌≢◌, inl, inr}
use mathlib.Core.Bool.{Bool, true, false, ◌||◌}
use mathlib.Core.List.{List, [], ◌∷◌}
use native.Mathlib.Omega.{arith}
use kubwave.Common.Tests.{◌==◌, ==_refl, Bool-cases}
use kubwave.Common.Lists.{All, All-map, All-zip, All-intro, any}
use kubwave.Common.Tables.{count_where, update_where, count_pos-any, count-update-eq, All-update}

module _ {ℓ} {A : Type ℓ} where
  pub update-none :
      (p : A → Bool) (f : A → A) (xs : List A)
      → All (λ x. p x ≡ false) xs
      → update_where p f xs ≡ xs
  update-none p f [] h = refl
  update-none p f (x ∷ xs) (e, h) = rw (e, update-none p f xs h)

module _ {ℓ} {A : Type ℓ} (key : A → ℕ) where
  abbrev pub UniqueKeys : List A → Type 0
  UniqueKeys xs = (k : ℕ) → count_where (λ x. key x == k) xs ≤ 1

  -- Whatever shares the key of `r` is `r`.
  abbrev pub IsOnly : List A → A → Type ℓ
  IsOnly xs r = All (λ x. key x ≡ key r → x ≡ r) xs

  -- for (const row of rows) update … set f(row) where key = row.key
  unfoldable pub update_each : (A → A → A) → List A → List A → List A
  update_each f [] xs = xs
  update_each f (r ∷ rs) xs = update_each f rs (update_where (λ x. key x == key r) (f r) xs)

  pub UniqueKeys-tail : (x : A) (xs : List A) → UniqueKeys (x ∷ xs) → UniqueKeys xs
  UniqueKeys-tail x xs u k = ground (arith, u k)

  pub UniqueKeys-head :
      (x : A) (xs : List A) → UniqueKeys (x ∷ xs) → All (λ y. (key y == key x) ≡ false) xs
  UniqueKeys-head x xs u = count_pos-any _ xs (ground (arith, u (key x)))

  IsOnly-cons : (x r : A) (xs : List A) → key x ≢ key r → IsOnly xs r → IsOnly (x ∷ xs) r
  IsOnly-cons x r xs n h = (λ e. absurd (n e), h)

  pub unique_rows : (xs : List A) → UniqueKeys xs → All (IsOnly xs) xs
  unique_rows [] u = tt
  unique_rows (x ∷ xs) u =
      let other = UniqueKeys-head x xs u in
      (
        (λ e. refl, All-map _ _ xs (λ y n e. absurd (ground arith)) other),
        All-map _ _ xs (λ r both. IsOnly-cons x r xs (λ e. ground (arith, both.0)) both.1)
            (All-zip _ _ xs other (unique_rows xs (UniqueKeys-tail x xs u))),
      )

  any-ne :
      (k : ℕ) (rs : List A) → All (λ y. (key y == k) ≡ false) rs → any (λ y. k == key y) rs ≡ false
  any-ne k [] h = refl
  any-ne k (y ∷ rs) (e, h) = ground (arith, any-ne k rs h)

  -- One update by key after which the rest is updated by key.
  update-update :
      (f : A → A → A) (r : A) (rs xs : List A)
      → ((s x : A) → key (f s x) ≡ key x)
      → IsOnly xs r
      → any (λ y. key r == key y) rs ≡ false
      → update_where
          (λ x. any (λ y. key x == key y) rs)
          (λ x. f x x)
          (update_where (λ x. key x == key r) (f r) xs)
        ≡ update_where (λ x. key x == key r || any (λ y. key x == key y) rs) (λ x. f x x) xs
  update-update f r rs [] fk h n = refl
  update-update f r rs (x ∷ xs) fk (o, h) n = elim (Bool-cases (key x == key r)) [
    | inl e ↦
        let same : x ≡ r = o (ground arith) in
        rw (same, ==_refl (key r), fk r r, n) (ap (λ t. f r r ∷ t) (update-update f r rs xs fk h n))
    | inr e ↦ rw (e, update-update f r rs xs fk h n)
  ]

  IsOnly-update :
      (f : A → A → A) (r s : A) (xs : List A)
      → ((s x : A) → key (f s x) ≡ key x)
      → (key s == key r) ≡ false
      → IsOnly xs s
      → IsOnly (update_where (λ x. key x == key r) (f r) xs) s
  IsOnly-update f r s xs fk n h =
      All-update (λ x. key x ≡ key s → x ≡ s) (λ x. key x == key r) (f r) xs
        (All-intro
          (λ x. (key x == key r) ≡ true → (key x ≡ key s → x ≡ s) → key (f r x) ≡ key s → f r x ≡ s)
          (λ x e o k. absurd (ground (arith, fk r x))) xs)
        h

  pub UniqueKeys-update :
      (f : A → A → A) (r : A) (xs : List A)
      → ((s x : A) → key (f s x) ≡ key x)
      → UniqueKeys xs
      → UniqueKeys (update_where (λ x. key x == key r) (f r) xs)
  UniqueKeys-update f r xs fk u k =
      rw
        (count-update-eq (λ x. key x == k) (λ x. key x == key r) (f r) xs
          (All-intro _ (λ x e. rw (fk r x)) xs))
        (u k)

  -- A loop of updates by key, over rows that the table holds, is one update.
  pub update_each-eq-update :
      (f : A → A → A) (rs xs : List A)
      → ((s x : A) → key (f s x) ≡ key x)
      → UniqueKeys rs
      → UniqueKeys xs
      → All (IsOnly xs) rs
      → update_each f rs xs ≡ update_where (λ x. any (λ y. key x == key y) rs) (λ x. f x x) xs
  unfolding update_each
  update_each-eq-update f [] xs fk ur u h =
      sym (update-none (λ x. false) (λ x. f x x) xs (All-intro _ (λ x. refl) xs))
  update_each-eq-update f (r ∷ rs) xs fk ur u (o, h) =
      let other = UniqueKeys-head r rs ur in
      update_each-eq-update f rs (update_where (λ x. key x == key r) (f r) xs) fk
        (UniqueKeys-tail r rs ur) (UniqueKeys-update f r xs fk u)
        (All-map _ _ rs (λ s both. IsOnly-update f r s xs fk both.0 both.1)
          (All-zip _ _ rs other h))
      ∙ update-update f r rs xs fk o (any-ne (key r) rs other)
