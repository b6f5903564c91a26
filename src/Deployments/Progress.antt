-- ===== src/Deployments/Progress.antt =====
-- A rollback that keeps failing ends: each failed attempt is counted, whatever other passes come in
-- between, and the last one that is allowed fails the deployment.
use kubwave.Common.{ℕ, suc, ◌≡◌, List, [], ◌∷◌}
use kubwave.Store.{Store}
use kubwave.Deployments.Cancel.{Context}
use kubwave.Deployments.FailedRollback.{IsFailing}
use kubwave.Deployments.StalledRollback.{IsStalled}
use kubwave.Deployments.Attempts.{tick}

-- Passes over one row, one after another, each with its time and its cluster.
unfoldable pub passes : List Context → ℕ → Store → Store
unfolding tick
passes [] id s = s
passes (c ∷ cs) id s = passes cs id (tick c id s)

-- In `n` of the passes the rollback fails, in the others it does not come to an end; all have the same
-- interval between passes.
pub data Attempted (interval : ℕ) : List Context → ℕ → Type 0 where
  over : Attempted interval [] 0
  fails :
      {c : Context} {cs : List Context} {n : ℕ}
      → c.reconcile_interval_ms ≡ interval
      → IsFailing c
      → Attempted interval cs n
      → Attempted interval (c ∷ cs) (suc n)
  stalls :
      {c : Context} {cs : List Context} {n : ℕ}
      → IsStalled c
      → Attempted interval cs n
      → Attempted interval (c ∷ cs) n
