-- ===== src/Ports/Examples.antt =====
-- Two services with a public port each; the first one wants two others.
use kubwave.Common.{ℕ, ◌≤◌, ◌≡◌, refl, true, List, [], ◌∷◌, ◌==◌, arith, UniqueKeys, count_where}
use kubwave.Ports.Pool.{Exposure, PoolConfig, new_row, reconcile_exposed_ports}
use kubwave.Ports.Laws.{reconcile_exposed_ports_unique}
use kubwave.Ports.Wanted.{has_port, reconcile_exposed_ports-has_port}

abbrev pool : PoolConfig
pool = record { enabled = true; start = 30000; size = 4 }

abbrev table : List Exposure
table = new_row 1 80 30000 ∷ new_row 2 80 30001 ∷ []

-- The row of container port 80 goes, and the new rows take 30000 and 30003: 30002 is lost to another
-- transaction.
abbrev later : List Exposure
later = (reconcile_exposed_ports (λ p. p == 30002) pool 1 (5432 ∷ 6379 ∷ []) table).0

table_unique : (k : ℕ) → count_where (λ e. e.public_port == k) table ≤ 1
table_unique k = ground arith

reconcile_exposed_ports_unique_example : UniqueKeys (λ e. e.public_port) later
reconcile_exposed_ports_unique_example =
    reconcile_exposed_ports_unique (λ p. p == 30002) pool 1 (5432 ∷ 6379 ∷ []) table table_unique

reconcile_exposed_ports-has_port_example : has_port 1 6379 later ≡ true
unfolding reconcile_exposed_ports
reconcile_exposed_ports-has_port_example =
    reconcile_exposed_ports-has_port (λ p. p == 30002) pool 1 6379 (5432 ∷ 6379 ∷ []) table refl
      refl
