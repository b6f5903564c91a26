-- ===== src/Deployments/Lookup.antt =====
-- The row that a search by id finds, after an update.
use kubwave.Common.{
  ℕ, ◌≡◌, inl, inr, Bool, true, some, List, [], ◌∷◌, ◌==◌, arith, update_where, Bool-cases,
}
use kubwave.Store.{Deployment}
use kubwave.Deployments.Claim.{find_deployment}

-- An update that keeps ids, of rows among which is the one found.
pub find-update :
    (p : Deployment → Bool) (f : Deployment → Deployment) (id : ℕ) (t : List Deployment)
    (row : Deployment)
    → ((x : Deployment) → (f x).id ≡ x.id)
    → find_deployment id t ≡ some row
    → p row ≡ true
    → find_deployment id (update_where p f t) ≡ some (f row)
find-update p f id [] row k e h = cc
find-update p f id (d ∷ t) row k e h = elim (Bool-cases (d.id == id)) [
  | inl same ↦ let hit : d ≡ row = ground arith in rw (hit, h, k row) (ground (arith))
  | inr other ↦ ground (arith, find-update p f id t row k (ground arith) h, k d)
]

-- The row that is found has the id.
pub find_deployment-id :
    (id : ℕ) (t : List Deployment) (row : Deployment)
    → find_deployment id t ≡ some row
    → row.id ≡ id
find_deployment-id id [] row e = absurd (cc)
find_deployment-id id (d ∷ t) row e = elim (Bool-cases (d.id == id)) [
  | inl same ↦ let hit : d ≡ row = ground arith in rw (← hit) (ground arith)
  | inr other ↦ find_deployment-id id t row (ground arith)
]
