-- ===== src/Ports/Laws.antt =====
-- No two exposures share a public port, and a service that is exposed has every port that it wants.
use kubwave.Common.{
  ℕ, zero, suc, ◌+◌, ◌≤◌, ◌<◌, ◌≡◌, refl, inl, inr, Bool, true, false, not, ◌||◌, Option, none,
  some, List, [], ◌∷◌, ◌++◌, ◌==◌, arith, if◌then◌else◌, any, count_where, count-append,
  count-select-le, UniqueKeys, Bool-cases,
}
use kubwave.Ports.Pool.{
  Exposure, PoolConfig, PortReply, pool_disabled, has_number, allocate, new_row, add_port,
  allocate_all, is_of_service, is_wanted, remaining, taken_ports, missing_ports, finish_ports,
  reconcile_exposed_ports,
}

module _ (is_lost : ℕ → Bool) where
  -- The port that is found was free, and lies in the range.
  allocate-free :
      (n candidate : ℕ) (taken : List ℕ) (p : ℕ)
      → (allocate is_lost n candidate taken).0 ≡ some p
      → (has_number p taken ≡ false) × (candidate ≤ p) × (p < candidate + n)
  allocate-free zero candidate taken p e = absurd (cc)
  allocate-free (suc n) candidate taken p e =
      elim (Bool-cases (has_number candidate taken || is_lost candidate)) [
        | inl skip ↦
            let h =
              allocate-free n (candidate + 1)
                (if has_number candidate taken then taken else candidate ∷ taken) p
                (rw skip at e) in
            (ground (arith, h.0), omega (arith, h.1), omega (arith, h.2))
        | inr hit ↦ (ground arith, ground arith, ground arith)
      ]

  -- What was taken stays so, and the port that is found is taken then.
  allocate-taken :
      (n candidate : ℕ) (taken : List ℕ) (x : ℕ)
      → has_number x taken ≡ true
      → has_number x (allocate is_lost n candidate taken).1 ≡ true
  allocate-taken zero candidate taken x h = h
  allocate-taken (suc n) candidate taken x h =
      let k =
        allocate-taken n (candidate + 1)
          (if has_number candidate taken then taken else candidate ∷ taken) x in
      ground (arith, k)

  allocate-found :
      (n candidate : ℕ) (taken : List ℕ) (p : ℕ)
      → (allocate is_lost n candidate taken).0 ≡ some p
      → has_number p (allocate is_lost n candidate taken).1 ≡ true
  allocate-found zero candidate taken p e = absurd (cc)
  allocate-found (suc n) candidate taken p e =
      let k =
        allocate-found n (candidate + 1)
          (if has_number candidate taken then taken else candidate ∷ taken) p in
      ground (arith, k)

-- How many rows hold a public port.
abbrev holders : ℕ → List Exposure → ℕ
holders k t = count_where (λ e. e.public_port == k) t

-- The ports of the pool that rows hold are known as taken.
abbrev Covers : PoolConfig → List Exposure → List ℕ → Type 0
Covers pool t taken =
    (k : ℕ)
    → pool.start ≤ k
    → k < pool.start + pool.size
    → 1 ≤ holders k t
    → has_number k taken ≡ true

taken_ports-Covers : (pool : PoolConfig) (t : List Exposure) → Covers pool t (taken_ports pool t)
taken_ports-Covers pool [] k lo hi h = absurd (omega arith)
taken_ports-Covers pool (e ∷ t) k lo hi h = ground (arith, taken_ports-Covers pool t k lo hi)

pub add_port-some :
    (service_id port : ℕ) (o : Option ℕ) (rest : Option (List Exposure)) (rows : List Exposure)
    → add_port service_id port o rest ≡ some rows
    → (p : ℕ) × (o ≡ some p)
      × (more : List Exposure) × (rest ≡ some more)
      × (rows ≡ new_row service_id port p ∷ more)
add_port-some service_id port none rest rows e = absurd (cc)
add_port-some service_id port (some p) none rows e = absurd (cc)
add_port-some service_id port (some p) (some more) rows e = (p, refl, more, refl, ground arith)

-- The rows that are inserted hold ports that nothing held, each its own.
allocate_all-holders :
    (is_lost : ℕ → Bool) (pool : PoolConfig) (service_id : ℕ) (ports taken : List ℕ)
    (t rows : List Exposure)
    → Covers pool t taken
    → UniqueKeys (λ e. e.public_port) t
    → allocate_all is_lost pool service_id ports taken ≡ some rows
    → (k : ℕ) → holders k t + holders k rows ≤ 1
unfolding allocate_all
allocate_all-holders is_lost pool service_id [] taken t rows cover u e k =
    let none_new : rows ≡ [] = ground arith in rw none_new (omega (arith, u k))
allocate_all-holders is_lost pool service_id (port ∷ ports) taken t rows cover u e k =
    let found = allocate is_lost pool.size pool.start taken in
    let (p, at, more, rest, split) =
      add_port-some service_id port found.0 (allocate_all is_lost pool service_id ports found.1)
        rows e in
    let (free, lo, hi) = allocate-free is_lost pool.size pool.start taken p at in
    let row = new_row service_id port p in
    let added = λ (x : ℕ). count-append (λ (e : Exposure). e.public_port == x) t (row ∷ []) in
    let unheld : holders p t ≡ 0 = ground (arith, cover p lo hi) in
    let go =
      allocate_all-holders is_lost pool service_id ports found.1 (t ++ row ∷ []) more
        (λ x low high h. elim (Bool-cases (p == x)) [
          | inl same ↦
              let is_p : p ≡ x = ground arith in
              rw (← is_p) (allocate-found is_lost pool.size pool.start taken p at)
          | inr other ↦
              allocate-taken is_lost pool.size pool.start taken x
                (cover x low high (ground (arith, added x)))
        ])
        (λ x. elim (Bool-cases (p == x)) [
          | inl same ↦ let is_p : p ≡ x = ground arith in ground (arith, added x, rw is_p at unheld)
          | inr other ↦ ground (arith, added x, u x)
        ])
        rest k in
    rw split (ground (arith, go, added k))

finish_ports_unique :
    (service_id : ℕ) (desired : List ℕ) (t : List Exposure) (o : Option (List Exposure))
    → UniqueKeys (λ e. e.public_port) t
    → ((rows : List Exposure)
        → o ≡ some rows
        → (k : ℕ) → holders k (remaining service_id desired t) + holders k rows ≤ 1)
    → UniqueKeys (λ e. e.public_port) (finish_ports service_id desired t o).0
finish_ports_unique service_id desired t none u h k = u k
finish_ports_unique service_id desired t (some rows) u h k =
    rw (count-append (λ (e : Exposure). e.public_port == k) (remaining service_id desired t) rows)
      (h rows refl k)

remaining_unique :
    (service_id : ℕ) (desired : List ℕ) (t : List Exposure)
    → UniqueKeys (λ e. e.public_port) t
    → UniqueKeys (λ e. e.public_port) (remaining service_id desired t)
remaining_unique service_id desired t u k = omega (
  arith,
  u k,
  count-select-le (λ (e : Exposure). e.public_port == k)
      (λ e. not (is_of_service service_id e) || is_wanted service_id desired e) t,
)

if_unique :
    (b : Bool) (x y : List Exposure × PortReply)
    → UniqueKeys (λ e. e.public_port) x.0
    → UniqueKeys (λ e. e.public_port) y.0
    → UniqueKeys (λ e. e.public_port) (if b then x else y).0
if_unique true x y h k = h
if_unique false x y h k = k

-- Where no two exposures share a public port, none do after a service's exposures are converged,
-- whether that succeeds or not.
pub reconcile_exposed_ports_unique :
    (is_lost : ℕ → Bool) (pool : PoolConfig) (service_id : ℕ) (desired : List ℕ) (t : List Exposure)
    → UniqueKeys (λ e. e.public_port) t
    → UniqueKeys (λ e. e.public_port) (reconcile_exposed_ports is_lost pool service_id desired t).0
unfolding reconcile_exposed_ports
reconcile_exposed_ports_unique is_lost pool service_id desired t u =
    let missing = missing_ports service_id desired t in
    let kept = remaining_unique service_id desired t u in
    let made =
      allocate_all is_lost pool service_id missing
        (taken_ports pool (remaining service_id desired t)) in
    if_unique (not (any (λ p. true) missing)) (finish_ports service_id desired t (some [])) _
      (finish_ports_unique service_id desired t (some []) u
        (λ rows e k. let same : rows ≡ [] = ground arith in rw same (omega (arith, kept k))))
      (if_unique (not pool.enabled || pool.size == 0) (t, pool_disabled)
        (finish_ports service_id desired t made) u
        (finish_ports_unique service_id desired t made u (λ rows e.
          allocate_all-holders is_lost pool service_id missing
            (taken_ports pool (remaining service_id desired t)) (remaining service_id desired t)
            rows (taken_ports-Covers pool (remaining service_id desired t)) kept e)))
