-- ===== src/Deployments/Rows.antt =====
-- How one row of the deployments table may change in one write, and the table's invariant.
use kubwave.Common.{
  ℕ, ◌≤◌, ◌≡◌, refl, ◌⊎◌, inl, inr, Bool, true, none, List, [], ◌∷◌, ◌++◌, ◌==◌, arith, All,
  All-map, All-intro, All-append, UniqueKeys, update_where, count_where, count-update-eq,
  count-update-le, Bool-cases,
}
use kubwave.Store.{
  Deployment, DeploymentStatus, pending, deploying, canceling, succeeded, failed, superseded,
  canceled, is_pending, is_in_flight, same_status,
}
use kubwave.Deployments.Enqueue.{pending_of}
use kubwave.Deployments.Claim.{in_flight_of}

-- The status graph. `succeeded`, `failed`, `superseded` and `canceled` have no way out.
abbrev pub may_move : DeploymentStatus → DeploymentStatus → Bool
may_move pending superseded = true
may_move pending canceled = true
may_move pending deploying = true
may_move deploying succeeded = true
may_move deploying failed = true
may_move deploying canceling = true
may_move canceling canceled = true
may_move canceling failed = true
may_move a b = same_status a b

-- A write keeps the row's identity and snapshot, and never replaces a recorded image.
pub record RowStep (x y : Deployment) : Type 0 where
  pub same_id : y.id ≡ x.id
  pub same_service : y.service_id ≡ x.service_id
  pub same_config : y.config ≡ x.config
  pub same_creation : y.created_at ≡ x.created_at
  pub kept_image : (x.image_ref ≡ none) ⊎ (y.image_ref ≡ x.image_ref)
  pub moves : may_move x.status y.status ≡ true

pub RowStep-refl : (x : Deployment) → RowStep x x
RowStep-refl x = record {
  same_id = refl;
  same_service = refl;
  same_config = refl;
  same_creation = refl;
  kept_image = inr refl;
  moves = ground arith;
}

-- A new row is queued.
abbrev pub IsQueued : Deployment → Type 0
IsQueued d = d.status ≡ pending

-- Row by row, with new rows at the end.
abbrev pub Evolves : List Deployment → List Deployment → Type 0
Evolves [] ys = All IsQueued ys
Evolves (x ∷ xs) [] = ⊥
Evolves (x ∷ xs) (y ∷ ys) = RowStep x y × Evolves xs ys

pub Evolves-refl : (xs : List Deployment) → Evolves xs xs
Evolves-refl [] = tt
Evolves-refl (x ∷ xs) = (RowStep-refl x, Evolves-refl xs)

pub Evolves-update :
    (p : Deployment → Bool) (f : Deployment → Deployment) (xs : List Deployment)
    → All (λ x. p x ≡ true → RowStep x (f x)) xs
    → Evolves xs (update_where p f xs)
Evolves-update p f [] h = tt
Evolves-update p f (x ∷ xs) (k, h) = elim (Bool-cases (p x)) [
  | inl e ↦ rw e (k e, Evolves-update p f xs h)
  | inr e ↦ rw e (RowStep-refl x, Evolves-update p f xs h)
]

pub Evolves-append :
    (xs ys zs : List Deployment) → Evolves xs ys → All IsQueued zs → Evolves xs (ys ++ zs)
Evolves-append [] ys zs h q = All-append IsQueued ys zs h q
Evolves-append (x ∷ xs) (y ∷ ys) zs (s, h) q = (s, Evolves-append xs ys zs h q)
Evolves-append (x ∷ xs) [] zs h q = absurd h

-- One row for each id, at most one queued and at most one in flight for each service.
pub record TableInv (t : List Deployment) : Type 0 where
  pub unique : UniqueKeys (λ d. d.id) t
  pub one_pending : (service : ℕ) → count_where (pending_of service) t ≤ 1
  pub one_in_flight : (service : ℕ) → count_where (in_flight_of service) t ≤ 1

-- A write that queues nothing and starts nothing.
pub record IsTame (x y : Deployment) : Type 0 where
  pub same_id : y.id ≡ x.id
  pub same_service : y.service_id ≡ x.service_id
  pub no_queueing : is_pending y.status ≡ true → is_pending x.status ≡ true
  pub no_start : is_in_flight y.status ≡ true → is_in_flight x.status ≡ true

-- What a sound write does to the table.
pub record Sound (t u : List Deployment) : Type 0 where
  pub evolves : Evolves t u
  pub inv : TableInv u

update-TableInv :
    (p : Deployment → Bool) (f : Deployment → Deployment) (t : List Deployment)
    → All (λ x. p x ≡ true → IsTame x (f x)) t
    → TableInv t
    → TableInv (update_where p f t)
update-TableInv p f t tame inv = record {
  unique = λ k.
      rw
        (count-update-eq (λ d. d.id == k) p f t
          (All-map (λ x. p x ≡ true → IsTame x (f x))
            (λ x. p x ≡ true → ((f x).id == k) ≡ (x.id == k)) t (λ x h e. rw (h e).same_id) tame))
        (inv.unique k);
  one_pending = λ k. omega (
    arith,
    inv.one_pending k,
    count-update-le (pending_of k) p f t (
        All-map (λ x. p x ≡ true → IsTame x (f x))
          (λ x. p x ≡ true → pending_of k (f x) ≡ true → pending_of k x ≡ true) t
          (λ x h e g. ground (arith, h e)) tame),
  );
  one_in_flight = λ k. omega (
    arith,
    inv.one_in_flight k,
    count-update-le (in_flight_of k) p f t (
        All-map (λ x. p x ≡ true → IsTame x (f x))
          (λ x. p x ≡ true → in_flight_of k (f x) ≡ true → in_flight_of k x ≡ true) t
          (λ x h e g. ground (arith, h e)) tame),
  );
}

pub update-Sound :
    (p : Deployment → Bool) (f : Deployment → Deployment) (t : List Deployment)
    → All (λ x. p x ≡ true → RowStep x (f x) × IsTame x (f x)) t
    → TableInv t
    → Sound t (update_where p f t)
update-Sound p f t h inv = record {
  evolves = Evolves-update p f t (
      All-map (λ x. p x ≡ true → RowStep x (f x) × IsTame x (f x))
        (λ x. p x ≡ true → RowStep x (f x)) t (λ x k e. (k e).0) h);
  inv =
      update-TableInv p f t
        (All-map (λ x. p x ≡ true → RowStep x (f x) × IsTame x (f x))
          (λ x. p x ≡ true → IsTame x (f x)) t (λ x k e. (k e).1) h)
        inv;
}

-- The same, where the condition on a row does not depend on the table.
pub update_all-Sound :
    (p : Deployment → Bool) (f : Deployment → Deployment) (t : List Deployment)
    → ((x : Deployment) → p x ≡ true → RowStep x (f x) × IsTame x (f x))
    → TableInv t
    → Sound t (update_where p f t)
update_all-Sound p f t h inv = update-Sound p f t (All-intro _ h t) inv

pub Sound-refl : (t : List Deployment) → TableInv t → Sound t t
Sound-refl t inv = record { evolves = Evolves-refl t; inv = inv }
