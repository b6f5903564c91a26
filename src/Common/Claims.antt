-- ===== src/Common/Claims.antt =====
-- The claim of due rows, as the polling jobs do it: `for update skip locked`, earliest first, and a
-- time in the future as the lease.
use Prim.Native.Nat.{ℕ, suc}
use mathlib.Core.Path.{◌≡◌, ◌∙◌, refl}
use mathlib.Core.Logic.{◌⊎◌, inl, inr}
use mathlib.Core.Bool.{Bool, true, false, not, ◌&&◌}
use mathlib.Core.Option.{Option, none, some}
use mathlib.Core.List.{List, [], ◌∷◌}
use native.Mathlib.Omega.{arith}
use kubwave.Common.Tests.{leb, ◌==◌, Bool-cases}
use kubwave.Common.Lists.{All, All-map, All-intro, All-take, any, take}
use kubwave.Common.Tables.{select_where, update_where, order_by, All-select, All-order_by}
use kubwave.Common.Keys.{update_each}

-- `or(isNull(next_at), lte(next_at, now))`
abbrev pub is_due : ℕ → Option ℕ → Bool
is_due now none = true
is_due now (some t) = leb t now

-- `asc nulls first`
abbrev pub nulls_first : Option ℕ → ℕ
nulls_first none = 0
nulls_first (some t) = suc t

-- Whether two times that may be null are the same.
abbrev pub same_time : Option ℕ → Option ℕ → Bool
same_time none none = true
same_time (some s) (some t) = s == t
same_time _ _ = false

module _ {ℓ} {A : Type ℓ} (id : A → ℕ) (next_at : A → Option ℕ) (eligible : A → Bool) where
  abbrev pub due_rows : ℕ → ℕ → (ℕ → Bool) → List A → List A
  due_rows now limit locked rows = take limit (
      order_by (λ x. nulls_first (next_at x))
        (select_where (λ x. (eligible x && is_due now (next_at x)) && not (locked (id x))) rows))

  -- The claimed rows as they were read, and the table with their leases.
  abbrev pub claim_due : (A → A → A) → ℕ → ℕ → (ℕ → Bool) → List A → List A × List A
  claim_due lease now limit locked rows =
      let claimed = due_rows now limit locked rows in (update_each id lease claimed rows, claimed)

  abbrev pub is_among : List A → A → Bool
  is_among claimed x = any (λ r. id r == id x) claimed

  -- Every row that the loop of updates names is leased at its end.
  update_each-leased :
      (P : A → Type 0) (lease : A → A → A) (claimed rs xs : List A)
      → ((r x : A) → P (lease r x))
      → ((r x : A) → id (lease r x) ≡ id x)
      → All (λ x. is_among claimed x ≡ true → (is_among rs x ≡ true) ⊎ P x) xs
      → All (λ x. is_among claimed x ≡ true → P x) (update_each id lease rs xs)
  unfolding update_each
  update_each-leased P lease claimed [] xs leased same h = All-map _ _ xs (λ x k e. still (k e)) h
    where
      still : {x : A} → (false ≡ true) ⊎ P x → P x
      still (inl e) = absurd (cc)
      still (inr p) = p
  update_each-leased P lease claimed (r ∷ rs) xs leased same h =
      update_each-leased P lease claimed rs (update_where (λ x. id x == id r) (lease r) xs) leased
        same (step xs h)
    where
      step :
          (xs : List A)
          → All (λ x. is_among claimed x ≡ true → (is_among (r ∷ rs) x ≡ true) ⊎ P x) xs
          → All
              (λ x. is_among claimed x ≡ true → (is_among rs x ≡ true) ⊎ P x)
              (update_where (λ x. id x == id r) (lease r) xs)
      step [] h = tt
      step (x ∷ xs) (k, h) = elim (Bool-cases (id x == id r)) [
        | inl e ↦ rw e (λ c. inr (leased r x), step xs h)
        | inr e ↦ rw e (λ c. rest (ground arith) (k c), step xs h)
      ]
        where
          rest :
              (id r == id x) ≡ false
              → (is_among (r ∷ rs) x ≡ true) ⊎ P x
              → (is_among rs x ≡ true) ⊎ P x
          rest n (inl c) = inl (rw n at c)
          rest n (inr p) = inr p

  -- Each row has a row of the first table with its id and its time.
  abbrev pub KeepsTimes : List A → List A → Type 0
  KeepsTimes table later =
      All (λ x. any (λ y. id y == id x && same_time (next_at y) (next_at x)) table ≡ true) later

  -- A row with the id and the time of a leased row is not due either.
  kept-leased :
      (later : ℕ) (claimed : A → Bool) (x : A) (table : List A)
      → ((y : A) → (id y == id x) ≡ true → claimed y ≡ claimed x)
      → All (λ y. claimed y ≡ true → is_due later (next_at y) ≡ false) table
      → any (λ y. id y == id x && same_time (next_at y) (next_at x)) table ≡ true
      → claimed x ≡ true
      → is_due later (next_at x) ≡ false
  kept-leased later claimed x [] same h e c = absurd (cc)
  kept-leased later claimed x (y ∷ ys) same (k, h) e c =
      elim (Bool-cases (id y == id x && same_time (next_at y) (next_at x))) [
        | inl hit ↦
            let one : (id y == id x) ≡ true = ground arith in
            let mine : is_due later (next_at y) ≡ false = k (same y one ∙ c) in
            same_due later (next_at y) (next_at x) (ground arith) mine
        | inr miss ↦ kept-leased later claimed x ys same h (ground (arith, miss)) c
      ]
    where
      same_due :
          (later : ℕ) (s t : Option ℕ)
          → same_time s t ≡ true
          → is_due later s ≡ false
          → is_due later t ≡ false
      same_due later s t e n = ground arith

  -- A claim that comes before the leases end, on a table in which the claimed rows have the times
  -- that the first claim gave them, takes none of them.
  pub claim_due-leased :
      (lease lease' : A → A → A) (now limit later limit' : ℕ) (locked locked' : ℕ → Bool)
      (rows rows' : List A)
      → ((r x : A) → is_due later (next_at (lease r x)) ≡ false)
      → ((r x : A) → id (lease r x) ≡ id x)
      → KeepsTimes (claim_due lease now limit locked rows).0 rows'
      → All
          (λ x. is_among (claim_due lease now limit locked rows).1 x ≡ false)
          (claim_due lease' later limit' locked' rows').1
  claim_due-leased lease lease' now limit later limit' locked locked' rows rows' future same kept =
      let claimed = due_rows now limit locked rows in
      let table = update_each id lease claimed rows in
      let leased =
        update_each-leased (λ x. is_due later (next_at x) ≡ false) lease claimed claimed rows future
          same (All-intro _ (λ x e. inl e) rows) in
      All-take _ limit' _ (
        All-order_by _ (λ x. nulls_first (next_at x)) _
          (All-map _ _ _
            (λ x both.
              free x
                (kept-leased later (is_among claimed) x table (λ y e. agree claimed x y e) leased
                  both.0)
                both.1)
            (All-select _ (λ x. (eligible x && is_due later (next_at x)) && not (locked' (id x)))
              rows' kept)))
    where
      agree :
          (claimed : List A) (x y : A)
          → (id y == id x) ≡ true
          → is_among claimed y ≡ is_among claimed x
      agree [] x y e = refl
      agree (r ∷ rs) x y e = ground (arith, agree rs x y e)

      free :
          (x : A)
          → (is_among (due_rows now limit locked rows) x ≡ true → is_due later (next_at x) ≡ false)
          → ((eligible x && is_due later (next_at x)) && not (locked' (id x))) ≡ true
          → is_among (due_rows now limit locked rows) x ≡ false
      free x k due = elim (Bool-cases (is_among (due_rows now limit locked rows) x)) [
        | inl e ↦ absurd (clash (eligible x) (not (locked' (id x))) (k e) due)
        | inr e ↦ e
      ]
        where
          clash : (a c : Bool) {b : Bool} → b ≡ false → ((a && b) && c) ≡ true → ⊥
          clash a c e f = ground arith
