-- ===== src/Deployments/Batches.antt =====
-- What the insert of a preview's deployments, the deletion of a user and the deletion of services do to
-- the deployments table.
use kubwave.Common.{
  ℕ, ◌≤◌, ◌≡◌, refl, inl, inr, Bool, true, false, not, some, List, [], ◌∷◌, ◌++◌, ◌==◌, arith, All,
  UniqueKeys, any, map, count_where, select_where, update_where, Bool-cases, count-append,
  count_none, none_of_any, count-imply-le, count-remove-le,
}
use kubwave.Store.{Store, Deployment}
use kubwave.Accounts.Users.{cleared}
use kubwave.Accounts.Tables.{is_id}
use kubwave.Previews.Plan.{PreviewServiceRow}
use kubwave.Previews.Clone.{CloneInputs, preview_deployment}
use kubwave.Deployments.Enqueue.{pending_of}
use kubwave.Deployments.Claim.{find_deployment, in_flight_of}
use kubwave.Deployments.Rows.{
  IsQueued, Evolves-refl, Evolves-append, TableInv, Sound, RowStep-refl, update_all-Sound,
}

-- The column that names the user who asked for a deployment is cleared when the user is deleted.
unfoldable pub forget_user : ℕ → Store → Store
forget_user user s = record s {
  deployments =
      update_where (λ d. is_id d.triggered_by_user_id user)
        (λ d. record d { triggered_by_user_id = cleared user d.triggered_by_user_id })
        s.deployments;
}

pub forget_user-Sound :
    (user : ℕ) (s : Store)
    → TableInv s.deployments
    → Sound s.deployments (forget_user user s).deployments
unfolding forget_user
forget_user-Sound user s inv =
    update_all-Sound (λ d. is_id d.triggered_by_user_id user)
      (λ d. record d { triggered_by_user_id = cleared user d.triggered_by_user_id }) s.deployments
      (λ x e. (
        record {
          same_id = refl;
          same_service = refl;
          same_config = refl;
          same_creation = refl;
          kept_image = inr refl;
          moves = (RowStep-refl x).moves;
        },
        record { same_id = refl; same_service = refl; no_queueing = λ h. h; no_start = λ h. h },
      ))
      inv

-- The rows have new ids, and new services of which each has one row.
pub record IsFreshBatch (t rows : List Deployment) : Type 0 where
  pub fresh_ids : All (λ d. count_where (λ e. e.id == d.id) t ≡ 0) rows
  pub new_services : All (λ d. count_where (λ e. e.service_id == d.service_id) t ≡ 0) rows
  pub unique_ids : UniqueKeys (λ d. d.id) rows
  pub one_each : UniqueKeys (λ d. d.service_id) rows

module _ (key : Deployment → ℕ) (t : List Deployment) where
  any-fresh :
      (k : ℕ) (rows : List Deployment)
      → All (λ d. count_where (λ e. key e == key d) t ≡ 0) rows
      → any (λ d. key d == k) rows ≡ true
      → count_where (λ e. key e == k) t ≡ 0
  any-fresh k [] h e = absurd (cc)
  any-fresh k (d ∷ rows) (n, h) e = elim (Bool-cases (key d == k)) [
    | inl hit ↦ let same : key d ≡ k = ground arith in rw (← same) n
    | inr miss ↦ any-fresh k rows h (ground (arith, miss))
  ]

  -- At most one row of a kind that names its key, where new rows have new keys.
  append-le :
      (q : Deployment → Bool) (k : ℕ) (rows : List Deployment)
      → ((d : Deployment) → q d ≡ true → (key d == k) ≡ true)
      → All (λ d. count_where (λ e. key e == key d) t ≡ 0) rows
      → UniqueKeys key rows
      → count_where q t ≤ 1
      → count_where q (t ++ rows) ≤ 1
  append-le q k rows h fresh one le = elim (Bool-cases (any (λ d. key d == k) rows)) [
    | inl e ↦ omega (
      arith,
      count-append q t rows,
      one k,
      count-imply-le q (λ d. key d == k) rows h,
      count-imply-le q (λ d. key d == k) t h,
      any-fresh k rows fresh e,
    )
    | inr e ↦ omega (
      arith,
      count-append q t rows,
      le,
      count-imply-le q (λ d. key d == k) rows h,
      count_none (λ d. key d == k) rows (none_of_any _ rows e),
    )
  ]

rows-IsQueued :
    (inputs : CloneInputs) (rows : List PreviewServiceRow)
    → All IsQueued (map (preview_deployment inputs) rows)
rows-IsQueued inputs [] = tt
rows-IsQueued inputs (row ∷ rows) = (refl, rows-IsQueued inputs rows)

pub append-Sound :
    (inputs : CloneInputs) (t : List Deployment) (rows : List PreviewServiceRow)
    → IsFreshBatch t (map (preview_deployment inputs) rows)
    → TableInv t
    → Sound t (t ++ map (preview_deployment inputs) rows)
append-Sound inputs t rows b inv =
    let new = map (preview_deployment inputs) rows in
    record {
      evolves = Evolves-append t t new (Evolves-refl t) (rows-IsQueued inputs rows);
      inv = record {
        unique = λ k.
            append-le (λ d. d.id) t (λ d. d.id == k) k new (λ d e. e) b.fresh_ids b.unique_ids
              (inv.unique k);
        one_pending = λ k.
            append-le (λ d. d.service_id) t (pending_of k) k new (λ d e. ground arith)
              b.new_services b.one_each (inv.one_pending k);
        one_in_flight = λ k.
            append-le (λ d. d.service_id) t (in_flight_of k) k new (λ d e. ground arith)
              b.new_services b.one_each (inv.one_in_flight k);
      };
    }

pub remove-TableInv :
    (gone : Deployment → Bool) (t : List Deployment)
    → TableInv t
    → TableInv (select_where (λ d. not (gone d)) t)
remove-TableInv gone t inv = record {
  unique = λ k. omega (arith, inv.unique k, count-remove-le (λ d. d.id == k) gone t);
  one_pending = λ k. omega (arith, inv.one_pending k, count-remove-le (pending_of k) gone t);
  one_in_flight = λ k. omega (arith, inv.one_in_flight k, count-remove-le (in_flight_of k) gone t);
}

pub find-kept :
    (id : ℕ) (gone : Deployment → Bool) (t : List Deployment) (x : Deployment)
    → gone x ≡ false
    → find_deployment id t ≡ some x
    → find_deployment id (select_where (λ d. not (gone d)) t) ≡ some x
find-kept id gone [] x n e = absurd (cc)
find-kept id gone (d ∷ t) x n e = elim (Bool-cases (d.id == id)) [
  | inl same ↦
      let hit : d ≡ x = ground arith in
      let stays : gone d ≡ false = rw hit n in rw (stays, same) (rw hit refl)
  | inr other ↦ ground (arith, find-kept id gone t x n (ground arith))
]
