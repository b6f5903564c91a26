-- ===== src/Deployments/ClaimLaws.antt =====
-- Claiming is a sound write, stays under the cap, and takes only rows that may start.
use kubwave.Common.{
  ℕ, ◌+◌, ◌≤◌, max, ◌≡◌, refl, inl, inr, Bool, true, false, not, ◌&&◌, String, List, [], ◌∷◌, ◌==◌,
  arith, All, All-map, All-zip, All-take, All-order_by, All-select, All-intro, any, length,
  length-take-le, order_by, update_where, select_where, count_where, Bool-cases, IsOnly, UniqueKeys,
  unique_rows, UniqueKeys-update, update_each, update_each-eq-update, count-take-le, count-order_by,
  count-select-le, count-update-add, count-update-split, count-update-le, count-update-eq,
  count_none, none_of_any, count_mono, if◌then◌else◌,
}
use kubwave.Store.{Store, Deployment, is_pending}
use kubwave.Deployments.Enqueue.{pending_of}
use kubwave.Deployments.Claim.{
  claim_pending, claim_rows, set_claimed, select_claimable, is_claimable, in_flight_of,
  is_occupying, Setting, normalize_max, compute_claim_limit, claim_batch,
}
use kubwave.Deployments.Rows.{RowStep, TableInv, Sound, Sound-refl, Evolves-update}

pub claim_rows-deployments :
    (worker : String) (now : ℕ) (rows : List Deployment) (s : Store)
    → (claim_rows worker now rows s).deployments
      ≡ update_each (λ d. d.id) (set_claimed worker now) rows s.deployments
unfolding claim_rows update_each
claim_rows-deployments worker now [] s = refl
claim_rows-deployments worker now (r ∷ rows) s = claim_rows-deployments worker now rows _

-- What the selection gives: rows of the table, each once, and each free to start.
abbrev pub IsChosen : List Deployment → Deployment → Type 0
IsChosen t r = IsOnly (λ d. d.id) t r × (is_claimable t r ≡ true)

module _ (is_locked : ℕ → Bool) (limit : ℕ) (t : List Deployment)
    (unique : UniqueKeys (λ d. d.id) t) where
  pub select_claimable_unique : UniqueKeys (λ d. d.id) (select_claimable is_locked limit t)
  unfolding select_claimable
  select_claimable_unique k =
      let free = select_where (λ d. is_claimable t d && not (is_locked d.id)) t in
      omega (
        arith,
        count-take-le (λ (d : Deployment). d.id == k) limit (order_by (λ d. d.created_at) free),
        count-order_by (λ (d : Deployment). d.id == k) (λ d. d.created_at) free,
        count-select-le (λ (d : Deployment). d.id == k)
            (λ d. is_claimable t d && not (is_locked d.id)) t,
        unique k,
      )

  pub select_claimable-IsChosen : All (IsChosen t) (select_claimable is_locked limit t)
  unfolding select_claimable
  select_claimable-IsChosen = All-take (IsChosen t) limit _ (
      All-order_by (IsChosen t) (λ d. d.created_at) _
        (All-map (λ x. IsOnly (λ d. d.id) t x × ((is_claimable t x && not (is_locked x.id)) ≡ true))
          (IsChosen t) _ (λ x h. (h.0, ground (arith, h.1)))
          (All-select (IsOnly (λ d. d.id) t) (λ d. is_claimable t d && not (is_locked d.id)) t
            (unique_rows (λ d. d.id) t unique))))

-- The rows of the table whose id was selected may start.
chosen-claimable :
    (t u rows : List Deployment)
    → All (λ r. IsOnly (λ d. d.id) u r × (is_claimable t r ≡ true)) rows
    → All (λ x. any (λ y. x.id == y.id) rows ≡ true → is_claimable t x ≡ true) u
chosen-claimable t u [] h = All-intro _ (λ x e. cc) u
chosen-claimable t u (r ∷ rows) ((only, free), h) =
    All-map
      (λ x. (x.id ≡ r.id → x ≡ r) × (any (λ y. x.id == y.id) rows ≡ true → is_claimable t x ≡ true))
      (λ x. any (λ y. x.id == y.id) (r ∷ rows) ≡ true → is_claimable t x ≡ true) u
      (λ x both e. claimable x both.0 both.1 e) (All-zip _ _ u only (chosen-claimable t u rows h))
  where
    claimable :
        (x : Deployment)
        → (x.id ≡ r.id → x ≡ r)
        → (any (λ y. x.id == y.id) rows ≡ true → is_claimable t x ≡ true)
        → any (λ y. x.id == y.id) (r ∷ rows) ≡ true
        → is_claimable t x ≡ true
    claimable x only later e = elim (Bool-cases (x.id == r.id)) [
      | inl same ↦ let hit : x ≡ r = only (ground arith) in rw hit free
      | inr other ↦ later (ground arith)
    ]

-- The bulk update that the loop comes to, for rows that were chosen.
module _ (worker : String) (now : ℕ) (t rows : List Deployment) (inv : TableInv t)
    (once : UniqueKeys (λ d. d.id) rows) (chosen : All (IsChosen t) rows) where
  abbrev is_taken : Deployment → Bool
  is_taken x = any (λ y. x.id == y.id) rows

  abbrev claimed_table : List Deployment
  claimed_table = update_where is_taken (λ x. set_claimed worker now x x) t

  claim-bulk : update_each (λ d. d.id) (set_claimed worker now) rows t ≡ claimed_table
  claim-bulk =
      update_each-eq-update (λ d. d.id) (set_claimed worker now) rows t (λ s x. refl) once
        inv.unique (All-map (IsChosen t) (IsOnly (λ d. d.id) t) rows (λ x h. h.0) chosen)

  taken-claimable : All (λ x. is_taken x ≡ true → is_claimable t x ≡ true) t
  taken-claimable = chosen-claimable t t rows chosen

  claimed-in_flight : (k : ℕ) → count_where (in_flight_of k) claimed_table ≤ 1
  claimed-in_flight k = elim (Bool-cases (any (in_flight_of k) t)) [
    | inl busy ↦
        let none_started =
          count_none (λ x. is_taken x && in_flight_of k (set_claimed worker now x x)) t
            (All-map (λ x. is_taken x ≡ true → is_claimable t x ≡ true)
              (λ x. (is_taken x && in_flight_of k (set_claimed worker now x x)) ≡ false) t
              (λ x h. busy_skips k x busy h) taken-claimable) in
        omega (
          arith,
          count-update-split (in_flight_of k) is_taken (λ x. set_claimed worker now x x) t,
          none_started,
          inv.one_in_flight k,
        )
    | inr idle ↦ omega (
      arith,
      count-update-split (in_flight_of k) is_taken (λ x. set_claimed worker now x x) t,
      count_none (in_flight_of k) t (none_of_any (in_flight_of k) t idle),
      count_mono (λ x. is_taken x && in_flight_of k (set_claimed worker now x x)) (pending_of k) t
          (All-map (λ x. is_taken x ≡ true → is_claimable t x ≡ true)
            (λ x.
              (is_taken x && in_flight_of k (set_claimed worker now x x)) ≡ true
              → pending_of k x ≡ true)
            t (λ x h e. ground (arith, h (ground arith))) taken-claimable),
      inv.one_pending k,
    )
  ]
    where
      busy_skips :
          (k : ℕ) (x : Deployment)
          → any (in_flight_of k) t ≡ true
          → (is_taken x ≡ true → is_claimable t x ≡ true)
          → (is_taken x && in_flight_of k (set_claimed worker now x x)) ≡ false
      busy_skips k x busy h = elim (Bool-cases (x.service_id == k)) [
        | inl same ↦
            let here : x.service_id ≡ k = ground arith in
            elim (Bool-cases (is_taken x)) [
              | inl taken ↦ absurd (contra (rw here at (h taken)))
              | inr other ↦ rw other
            ]
        | inr other ↦ ground arith
      ]
        where
          contra : (is_pending x.status && not (any (in_flight_of k) t)) ≡ true → ⊥
          contra e = ground arith

  claimed-Sound : Sound t claimed_table
  claimed-Sound = record {
    evolves =
        Evolves-update is_taken (λ x. set_claimed worker now x x) t
          (All-map (λ x. is_taken x ≡ true → is_claimable t x ≡ true)
            (λ x. is_taken x ≡ true → RowStep x (set_claimed worker now x x)) t
            (λ x h e. ground (arith, h e)) taken-claimable);
    inv = record {
      unique = λ k.
          rw
            (count-update-eq (λ d. d.id == k) is_taken (λ x. set_claimed worker now x x) t
              (All-intro
                (λ x. is_taken x ≡ true → ((set_claimed worker now x x).id == k) ≡ (x.id == k))
                (λ x e. refl) t))
            (inv.unique k);
      one_pending = λ k. omega (
        arith,
        inv.one_pending k,
        count-update-le (pending_of k) is_taken (λ x. set_claimed worker now x x) t
            (All-intro
              (λ x.
                is_taken x ≡ true
                → pending_of k (set_claimed worker now x x) ≡ true
                → pending_of k x ≡ true)
              (λ x e h. ground arith) t),
      );
      one_in_flight = claimed-in_flight;
    };
  }

  pub claim_rows-Sound : Sound t (update_each (λ d. d.id) (set_claimed worker now) rows t)
  claim_rows-Sound = rw claim-bulk claimed-Sound

if-Sound :
    (b : Bool) (t : List Deployment) (x y : Store × List Deployment)
    → Sound t x.0.deployments
    → Sound t y.0.deployments
    → Sound t (if b then x else y).0.deployments
if-Sound true t x y h k = h
if-Sound false t x y h k = k

-- Claiming is sound: what it starts was queued, and no service comes to have two in flight.
pub claim_pending-Sound :
    (worker : String) (now : ℕ) (setting : Setting) (is_locked : ℕ → Bool) (s : Store)
    → TableInv s.deployments
    → Sound s.deployments (claim_pending worker now setting is_locked s).0.deployments
unfolding claim_pending
claim_pending-Sound worker now setting is_locked s inv =
    let limit =
      compute_claim_limit (normalize_max setting) (count_where is_occupying s.deployments)
        claim_batch in
    let rows = select_claimable is_locked limit s.deployments in
    if-Sound (limit == 0) s.deployments (s, []) (claim_rows worker now rows s, rows)
      (Sound-refl s.deployments inv)
      (rw (claim_rows-deployments worker now rows s) (
        claim_rows-Sound worker now s.deployments rows inv
          (select_claimable_unique is_locked limit s.deployments inv.unique)
          (select_claimable-IsChosen is_locked limit s.deployments inv.unique)))

update_each-count :
    (worker : String) (now : ℕ) (rows t : List Deployment)
    → UniqueKeys (λ d. d.id) t
    → count_where is_occupying (update_each (λ d. d.id) (set_claimed worker now) rows t)
      ≤ count_where is_occupying t + length rows
unfolding update_each
update_each-count worker now [] t u = omega arith
update_each-count worker now (r ∷ rows) t u =
    let t' = update_where (λ (x : Deployment). x.id == r.id) (set_claimed worker now r) t in
    omega (
      arith,
      update_each-count worker now rows t'
          (UniqueKeys-update (λ d. d.id) (set_claimed worker now) r t (λ s x. refl) u),
      count-update-add is_occupying (λ (x : Deployment). x.id == r.id) (set_claimed worker now r) t,
      u r.id,
    )

if-count :
    (b : Bool) (n : ℕ) (x y : Store × List Deployment)
    → count_where is_occupying x.0.deployments ≤ n
    → count_where is_occupying y.0.deployments ≤ n
    → count_where is_occupying (if b then x else y).0.deployments ≤ n
if-count true n x y h k = h
if-count false n x y h k = k

-- Where ids are unique, a claim leaves at most as many deployments that occupy a slot as the cap,
-- or as many as there were before it.
pub claim_pending-capacity :
    (worker : String) (now : ℕ) (setting : Setting) (is_locked : ℕ → Bool) (s : Store)
    → UniqueKeys (λ d. d.id) s.deployments
    → count_where is_occupying (claim_pending worker now setting is_locked s).0.deployments
      ≤ max (normalize_max setting) (count_where is_occupying s.deployments)
unfolding claim_pending compute_claim_limit select_claimable
claim_pending-capacity worker now setting is_locked s unique =
    let limit =
      compute_claim_limit (normalize_max setting) (count_where is_occupying s.deployments)
        claim_batch in
    let rows = select_claimable is_locked limit s.deployments in
    if-count (limit == 0) _ (s, []) (claim_rows worker now rows s, rows) (omega arith)
      (rw (claim_rows-deployments worker now rows s) (
        omega (
          arith,
          update_each-count worker now rows s.deployments unique,
          length-take-le {0} limit (
              order_by (λ d. d.created_at)
                (select_where (λ d. is_claimable s.deployments d && not (is_locked d.id))
                  s.deployments)),
        )))
