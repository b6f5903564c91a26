-- ===== src/Deployments/Terminal.antt =====
-- A deployment that has ended stays as it ended, in every history that keeps its service.
use kubwave.Common.{
  ℕ, ◌≡◌, ◌∙◌, refl, ◌⊎◌, inl, inr, Bool, true, false, none, some, List, [], ◌∷◌, ◌==◌, arith,
  Bool-cases, ap, ◌||◌,
}
use kubwave.Store.{Store, Deployment, DeploymentStatus, succeeded, failed, superseded, canceled}
use kubwave.Deployments.Claim.{find_deployment}
use kubwave.Deployments.Rows.{RowStep, Evolves, TableInv, may_move}
use kubwave.Deployments.Batches.{find-kept}
use kubwave.Deployments.History.{
  Step, Reach, here, next, deletes, has_deleted, Effect, Step-Effect, Reach-TableInv,
}

abbrev pub is_terminal : DeploymentStatus → Bool
is_terminal succeeded = true
is_terminal failed = true
is_terminal superseded = true
is_terminal canceled = true
is_terminal _ = false

-- What a history keeps of a row.
pub record IsKept (x y : Deployment) : Type 0 where
  pub same_id : y.id ≡ x.id
  pub same_service : y.service_id ≡ x.service_id
  pub same_config : y.config ≡ x.config
  pub same_creation : y.created_at ≡ x.created_at
  pub kept_image : (x.image_ref ≡ none) ⊎ (y.image_ref ≡ x.image_ref)
  pub kept_end : (is_terminal x.status ≡ false) ⊎ (y.status ≡ x.status)

terminal_stays : (a b : DeploymentStatus) → may_move a b ≡ true → (is_terminal a ≡ false) ⊎ (b ≡ a)
terminal_stays a b m = ground arith

IsKept-refl : (x : Deployment) → IsKept x x
IsKept-refl x = record {
  same_id = refl;
  same_service = refl;
  same_config = refl;
  same_creation = refl;
  kept_image = inr refl;
  kept_end = inr refl;
}

RowStep-IsKept : (x y : Deployment) → RowStep x y → IsKept x y
RowStep-IsKept x y r = record {
  same_id = r.same_id;
  same_service = r.same_service;
  same_config = r.same_config;
  same_creation = r.same_creation;
  kept_image = r.kept_image;
  kept_end = terminal_stays x.status y.status r.moves;
}

end_trans :
    (a b c : DeploymentStatus)
    → (is_terminal a ≡ false) ⊎ (b ≡ a)
    → (is_terminal b ≡ false) ⊎ (c ≡ b)
    → (is_terminal a ≡ false) ⊎ (c ≡ a)
end_trans a b c h k = ground arith

IsKept-trans : (x y z : Deployment) → IsKept x y → IsKept y z → IsKept x z
IsKept-trans x y z k l = record {
  same_id = l.same_id ∙ k.same_id;
  same_service = l.same_service ∙ k.same_service;
  same_config = l.same_config ∙ k.same_config;
  same_creation = l.same_creation ∙ k.same_creation;
  kept_image = ground (arith, k.kept_image, l.kept_image);
  kept_end = end_trans x.status y.status z.status k.kept_end l.kept_end;
}

Evolves-find :
    (id : ℕ) (t u : List Deployment) (x : Deployment)
    → Evolves t u
    → find_deployment id t ≡ some x
    → (y : Deployment) × (find_deployment id u ≡ some y) × RowStep x y
Evolves-find id [] u x ev e = absurd (cc)
Evolves-find id (d ∷ t) [] x ev e = absurd ev
Evolves-find id (d ∷ t) (v ∷ u) x (r, ev) e = elim (Bool-cases (d.id == id)) [
  | inl same ↦ let hit : d ≡ x = ground arith in (v, ground (arith, r.same_id), rw (← hit) r)
  | inr other ↦
      let (y, found, step) = Evolves-find id t u x ev (ground arith) in
      (y, ground (arith, r.same_id), step)
]

Effect-find :
    {s t : Store} (id : ℕ) (x : Deployment) (step : Step s t)
    → Effect step
    → deletes step x.service_id ≡ false
    → find_deployment id s.deployments ≡ some x
    → (y : Deployment) × (find_deployment id t.deployments ≡ some y) × IsKept x y
Effect-find {s} {t} id x step (inl h) stays e =
    let (y, found, kept) = Evolves-find id s.deployments t.deployments x h.evolves e in
    (y, found, RowStep-IsKept x y kept)
Effect-find {s} id x step (inr e') stays e = (
  x,
  ap (find_deployment id) e'
      ∙ find-kept id (λ d. deletes step d.service_id) s.deployments x stays e,
  IsKept-refl x,
)

-- In every history from a table with the invariant that does not delete the row's service, a row is
-- found under its id at the end, with its service, configuration, creation time and recorded image;
-- if it had succeeded, failed, been superseded or canceled, its status is the same.
pub Reach-IsKept :
    {s t : Store} (id : ℕ) (x : Deployment) (r : Reach s t)
    → TableInv s.deployments
    → has_deleted r x.service_id ≡ false
    → find_deployment id s.deployments ≡ some x
    → (y : Deployment) × (find_deployment id t.deployments ≡ some y) × IsKept x y
Reach-IsKept id x here inv stays e = (x, e, IsKept-refl x)
Reach-IsKept id x (next r step) inv stays e =
    let (y, found, kept) = Reach-IsKept id x r inv (ground (arith, stays)) e in
    let now_stays : deletes step y.service_id ≡ false =
      rw kept.same_service
        (not_now (has_deleted r x.service_id) (deletes step x.service_id) stays) in
    let (z, found', more) =
      Effect-find id y step (Step-Effect step (Reach-TableInv r inv)) now_stays found in
    (z, found', IsKept-trans x y z kept more)
  where
    not_now : (a b : Bool) → (a || b) ≡ false → b ≡ false
    not_now a b e = ground arith
