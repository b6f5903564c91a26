-- ===== src/Ports/Wanted.antt =====
-- A service that is exposed has every port that it wants.
use kubwave.Common.{
  ℕ, ◌≡◌, refl, inl, inr, Bool, true, false, not, ◌&&◌, ◌||◌, Option, none, some, List, [], ◌∷◌,
  ◌++◌, ◌==◌, arith, if◌then◌else◌, any, select_where, Bool-cases,
}
use kubwave.Ports.Pool.{
  Exposure, PoolConfig, PortReply, exposed, pool_disabled, pool_exhausted, has_number,
  distinct_from, allocate, allocate_all, is_of_service, is_wanted, remaining, taken_ports,
  missing_ports, finish_ports, reconcile_exposed_ports,
}
use kubwave.Ports.Laws.{add_port-some}

distinct_from-has :
    (p : ℕ) (seen ps : List ℕ)
    → has_number p ps ≡ true
    → has_number p seen ≡ false
    → has_number p (distinct_from seen ps) ≡ true
distinct_from-has p seen [] h k = h
distinct_from-has p seen (q ∷ ps) h k = elim (Bool-cases (q == p)) [
  | inl same ↦ let is_p : q ≡ p = ground arith in ground (arith, rw (← is_p) at k)
  | inr other ↦ ground (arith, distinct_from-has p (q ∷ seen) ps (ground arith) (ground arith))
]

has_number-select :
    (p : ℕ) (f : ℕ → Bool) (xs : List ℕ)
    → has_number p xs ≡ true
    → f p ≡ true
    → has_number p (select_where f xs) ≡ true
has_number-select p f [] h k = h
has_number-select p f (x ∷ xs) h k = elim (Bool-cases (x == p)) [
  | inl same ↦ let is_p : x ≡ p = ground arith in ground (arith, rw (← is_p) at k)
  | inr other ↦ ground (arith, has_number-select p f xs (ground arith) k)
]

-- A table has a row of the service for a container port.
abbrev pub has_port : ℕ → ℕ → List Exposure → Bool
has_port service_id p t = any (λ e. is_of_service service_id e && e.container_port == p) t

has_port-append :
    (service_id p : ℕ) (t rows : List Exposure)
    → has_port service_id p (t ++ rows) ≡ (has_port service_id p t || has_port service_id p rows)
has_port-append service_id p [] rows = refl
has_port-append service_id p (e ∷ t) rows = ground (arith, has_port-append service_id p t rows)

remaining-has :
    (service_id p : ℕ) (desired : List ℕ) (t : List Exposure)
    → any (λ e. is_wanted service_id desired e && e.container_port == p) t ≡ true
    → has_port service_id p (remaining service_id desired t) ≡ true
remaining-has service_id p desired [] h = h
remaining-has service_id p desired (e ∷ t) h = ground (arith, remaining-has service_id p desired t)

allocate_all-has :
    (is_lost : ℕ → Bool) (pool : PoolConfig) (service_id p : ℕ) (ports taken : List ℕ)
    (rows : List Exposure)
    → allocate_all is_lost pool service_id ports taken ≡ some rows
    → has_number p ports ≡ true
    → has_port service_id p rows ≡ true
unfolding allocate_all
allocate_all-has is_lost pool service_id p [] taken rows e h = absurd (cc)
allocate_all-has is_lost pool service_id p (q ∷ ports) taken rows e h =
    let found = allocate is_lost pool.size pool.start taken in
    let (public, at, more, rest, split) =
      add_port-some service_id q found.0 (allocate_all is_lost pool service_id ports found.1) rows
        e in
    rw split (ground (arith, allocate_all-has is_lost pool service_id p ports found.1 more rest))

-- A reply that lists exposures.
abbrev pub is_exposed : PortReply → Bool
is_exposed (exposed rows) = true
is_exposed pool_disabled = false
is_exposed pool_exhausted = false

module _ (is_lost : ℕ → Bool) (pool : PoolConfig) (service_id p : ℕ) (desired : List ℕ)
    (t : List Exposure) (wanted : has_number p desired ≡ true) where
  abbrev HasIt : List Exposure × PortReply → Type 0
  HasIt x = is_exposed x.1 ≡ true → has_port service_id p x.0 ≡ true

  finish_ports-has :
      (o : Option (List Exposure))
      → ((rows : List Exposure)
          → o ≡ some rows
          → has_number p (missing_ports service_id desired t) ≡ true
          → has_port service_id p rows ≡ true)
      → HasIt (finish_ports service_id desired t o)
  finish_ports-has none h e = absurd (cc)
  finish_ports-has (some rows) h e =
      elim (Bool-cases (any (λ e. is_wanted service_id desired e && e.container_port == p) t)) [
        | inl kept ↦ ground (
          arith,
          has_port-append service_id p (remaining service_id desired t) rows,
          remaining-has service_id p desired t kept,
        )
        | inr gone ↦
            let absent =
              has_number-select p
                (λ p. not (any (λ e. is_wanted service_id desired e && e.container_port == p) t))
                (distinct_from [] desired) (distinct_from-has p [] desired wanted refl)
                (rw gone refl) in
            ground (
              arith,
              has_port-append service_id p (remaining service_id desired t) rows,
              h rows refl absent,
            )
      ]

  if-has :
      (b : Bool) (x y : List Exposure × PortReply)
      → HasIt x
      → (b ≡ false → HasIt y)
      → HasIt (if b then x else y)
  if-has true x y h k = h
  if-has false x y h k = k refl

  -- Where the reply lists exposures, the service then has one for every container port that it
  -- wants.
  pub reconcile_exposed_ports-has_port :
      is_exposed (reconcile_exposed_ports is_lost pool service_id desired t).1 ≡ true
      → has_port service_id p (reconcile_exposed_ports is_lost pool service_id desired t).0 ≡ true
  unfolding reconcile_exposed_ports
  reconcile_exposed_ports-has_port =
      let missing = missing_ports service_id desired t in
      let made =
        allocate_all is_lost pool service_id missing
          (taken_ports pool (remaining service_id desired t)) in
      nothing_missing (any (λ p. true) missing) refl
        (if not pool.enabled || pool.size == 0
          then (t, pool_disabled)
          else finish_ports service_id desired t made)
        (if-has (not pool.enabled || pool.size == 0) (t, pool_disabled)
          (finish_ports service_id desired t made) (λ e. absurd (cc))
          (λ b. finish_ports-has made (λ rows e.
            allocate_all-has is_lost pool service_id p missing
              (taken_ports pool (remaining service_id desired t)) rows e)))
    where
      none_any : (xs : List ℕ) → any (λ p. true) xs ≡ false → has_number p xs ≡ true → ⊥
      none_any [] h k = cc
      none_any (x ∷ xs) h k = cc

      nothing_missing :
          (b : Bool)
          → any (λ p. true) (missing_ports service_id desired t) ≡ b
          → (y : List Exposure × PortReply) → HasIt y
          → HasIt (if not b then finish_ports service_id desired t (some []) else y)
      nothing_missing true e y h = h
      nothing_missing false e y h =
          finish_ports-has (some [])
            (λ rows s k. absurd (none_any (missing_ports service_id desired t) e k))
