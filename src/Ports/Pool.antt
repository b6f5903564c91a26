-- ===== src/Ports/Pool.antt =====
-- Converging a service's exposures to the container ports that it wants
-- (apps/backend/src/modules/services/port-exposures.ts). `is_lost` tells for which public ports another
-- transaction has inserted a row in the meantime.
use kubwave.Common.{
  ℕ, zero, suc, ◌+◌, ◌-◌, Bool, true, not, ◌&&◌, ◌||◌, Option, none, some, List, [], ◌∷◌, ◌++◌,
  ◌==◌, leb, if◌then◌else◌, any, select_where, map, sort_with,
}

-- A row of service_port_exposures; its own id is never read but to delete it.
pub record Exposure : Type 0 where
  pub service_id : ℕ
  pub container_port : ℕ
  pub public_port : ℕ

pub record PoolConfig : Type 0 where
  pub enabled : Bool
  pub start : ℕ
  pub size : ℕ

pub data PortReply : Type 0 where
  exposed : List Exposure → PortReply
  pool_disabled pool_exhausted : PortReply

abbrev pub has_number : ℕ → List ℕ → Bool
has_number n ns = any (λ m. m == n) ns

-- `[...new Set(ports)]`
abbrev pub distinct_from : List ℕ → List ℕ → List ℕ
distinct_from seen [] = []
distinct_from seen (p ∷ ps) =
    let rest = distinct_from (p ∷ seen) ps in if has_number p seen then rest else p ∷ rest

-- The first candidate that is free and whose insert meets no conflict, with the ports then known as
-- taken; `n` counts the candidates from `candidate` to the end of the pool.
abbrev pub allocate : (ℕ → Bool) → ℕ → ℕ → List ℕ → Option ℕ × List ℕ
allocate is_lost zero candidate taken = (none, taken)
allocate is_lost (suc n) candidate taken =
    let later =
      allocate is_lost n (candidate + 1)
        (if has_number candidate taken then taken else candidate ∷ taken) in
    if has_number candidate taken || is_lost candidate
    then later
    else (some candidate, candidate ∷ taken)

abbrev pub new_row : ℕ → ℕ → ℕ → Exposure
new_row service_id container_port public_port = record {
  service_id = service_id;
  container_port = container_port;
  public_port = public_port;
}

-- The loop over the missing ports; the rows that it inserts, or none where the pool runs out.
abbrev pub add_row : Exposure → Option (List Exposure) → Option (List Exposure)
add_row row none = none
add_row row (some rows) = some (row ∷ rows)

abbrev pub add_port : ℕ → ℕ → Option ℕ → Option (List Exposure) → Option (List Exposure)
add_port service_id port none rest = none
add_port service_id port (some public) rest = add_row (new_row service_id port public) rest

unfoldable pub allocate_all : (ℕ → Bool) → PoolConfig → ℕ → List ℕ → List ℕ → Option (List Exposure)
allocate_all is_lost pool service_id [] taken = some []
allocate_all is_lost pool service_id (port ∷ ports) taken =
    let (public, later) = allocate is_lost pool.size pool.start taken in
    add_port service_id port public (allocate_all is_lost pool service_id ports later)

abbrev pub is_of_service : ℕ → Exposure → Bool
is_of_service service_id e = e.service_id == service_id

abbrev pub is_wanted : ℕ → List ℕ → Exposure → Bool
is_wanted service_id desired e = e.service_id == service_id && has_number e.container_port desired

-- What the delete of the stale rows leaves.
abbrev pub remaining : ℕ → List ℕ → List Exposure → List Exposure
remaining service_id desired table =
    select_where (λ e. not (is_of_service service_id e) || is_wanted service_id desired e) table

abbrev pub is_in_pool : PoolConfig → Exposure → Bool
is_in_pool pool e = leb pool.start e.public_port && leb e.public_port (pool.start + pool.size - 1)

abbrev pub taken_ports : PoolConfig → List Exposure → List ℕ
taken_ports pool table = map (λ e. e.public_port) (select_where (is_in_pool pool) table)

abbrev pub missing_ports : ℕ → List ℕ → List Exposure → List ℕ
missing_ports service_id desired table =
    select_where
      (λ p. not (any (λ e. is_wanted service_id desired e && e.container_port == p) table))
      (distinct_from [] desired)

abbrev pub sort_by_port : List Exposure → List Exposure
sort_by_port rows = sort_with (λ a b. leb a.container_port b.container_port) rows

-- A throw rolls the transaction back.
abbrev pub finish_ports :
    ℕ → List ℕ → List Exposure → Option (List Exposure) → List Exposure × PortReply
finish_ports service_id desired table none = (table, pool_exhausted)
finish_ports service_id desired table (some rows) = (
  remaining service_id desired table ++ rows,
  exposed (sort_by_port (select_where (is_wanted service_id desired) table ++ rows)),
)

unfoldable pub reconcile_exposed_ports :
    (ℕ → Bool) → PoolConfig → ℕ → List ℕ → List Exposure → List Exposure × PortReply
unfolding allocate_all
reconcile_exposed_ports is_lost pool service_id desired table =
    let missing = missing_ports service_id desired table in
    if not (any (λ p. true) missing)
    then finish_ports service_id desired table (some [])
    else if not pool.enabled || pool.size == 0
    then (table, pool_disabled)
    else finish_ports service_id desired table (
        allocate_all is_lost pool service_id missing
          (taken_ports pool (remaining service_id desired table)))
