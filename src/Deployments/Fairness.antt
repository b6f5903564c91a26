-- ===== src/Deployments/Fairness.antt =====
-- Older deployments are claimed first.
use kubwave.Common.{
  ℕ, ◌≡◌, ◌⊎◌, inr, Bool, true, false, not, ◌&&◌, String, List, [], ◌==◌, All, All-intro,
  count_where, select_where, order_by, take, if◌then◌else◌, IsTakenOrLater, take-IsTakenOrLater,
  order_by-IsSorted, order_by-All, select_where-All,
}
use kubwave.Store.{Store, Deployment}
use kubwave.Deployments.Claim.{
  Setting, normalize_max, compute_claim_limit, claim_batch, is_occupying, is_claimable,
  select_claimable, claim_rows, claim_pending,
}

-- A row is not free to start, or is among those that were claimed, or is no older than any of them.
abbrev pub IsServed : (ℕ → Bool) → List Deployment → List Deployment → Deployment → Type 0
IsServed is_locked table claimed d =
    ((is_claimable table d && not (is_locked d.id)) ≡ false)
    ⊎ IsTakenOrLater (λ r. r.id) (λ r. r.created_at) claimed d

select_claimable-IsServed :
    (is_locked : ℕ → Bool) (limit : ℕ) (table : List Deployment)
    → All (IsServed is_locked table (select_claimable is_locked limit table)) table
unfolding select_claimable
select_claimable-IsServed is_locked limit table =
    let free = λ (d : Deployment). is_claimable table d && not (is_locked d.id) in
    let rows = select_where free table in
    let P =
      IsTakenOrLater (λ (r : Deployment). r.id) (λ r. r.created_at)
        (take limit (order_by (λ d. d.created_at) rows)) in
    select_where-All P free table (
      order_by-All P (λ d. d.created_at) rows
        (take-IsTakenOrLater (λ (r : Deployment). r.id) (λ r. r.created_at) limit
          (order_by (λ d. d.created_at) rows)
          (order_by-IsSorted (λ (d : Deployment). d.created_at) rows)))

if-IsServed :
    (is_locked : ℕ → Bool) (b : Bool) (t : List Deployment) (x y : Store × List Deployment)
    → All (IsServed is_locked t x.1) t
    → All (IsServed is_locked t y.1) t
    → All (IsServed is_locked t (if b then x else y).1) t
if-IsServed is_locked true t x y h k = h
if-IsServed is_locked false t x y h k = k

-- Of the rows that a claim finds queued, with no deployment of their service in flight and not
-- locked, each is claimed or is no older than any row that is.
pub claim_pending-IsServed :
    (worker : String) (now : ℕ) (setting : Setting) (is_locked : ℕ → Bool) (s : Store)
    → All
        (IsServed is_locked s.deployments (claim_pending worker now setting is_locked s).1)
        s.deployments
unfolding claim_pending
claim_pending-IsServed worker now setting is_locked s =
    let limit =
      compute_claim_limit (normalize_max setting) (count_where is_occupying s.deployments)
        claim_batch in
    let rows = select_claimable is_locked limit s.deployments in
    if-IsServed is_locked (limit == 0) s.deployments (s, []) (claim_rows worker now rows s, rows)
      (All-intro (IsServed is_locked s.deployments []) (λ d. inr (inr tt)) s.deployments)
      (select_claimable-IsServed is_locked limit s.deployments)
