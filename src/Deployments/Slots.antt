-- ===== src/Deployments/Slots.antt =====
-- A finished build takes a deployment slot only while one is free.
use kubwave.Common.{
  ℕ, ◌≤◌, ◌≡◌, refl, inl, inr, max, Bool, true, false, not, Option, none, some, ◌==◌, arith, leb,
  if◌then◌else◌, count_where, update_where, count-update-add, UniqueKeys, Bool-cases,
}
use kubwave.Store.{Store, Deployment, is_deploying, is_build_phase}
use kubwave.Common.{==_refl}
use kubwave.Deployments.Lookup.{find-update, find_deployment-id}
use kubwave.Deployments.Claim.{
  Setting, normalize_max, is_occupying, find_deployment, set_phase, reserve_build_deployment,
}

-- The deployment has a slot: it is deploying, and past its build.
record HasSlot (id : ℕ) (s : Store) : Type 0 where
  pub row : Deployment
  pub found : find_deployment id s.deployments ≡ some row
  pub is_deployed : is_deploying row.status ≡ true
  pub is_built : is_build_phase row.phase ≡ false

-- If a reservation is granted, its deployment is deploying then, and past its build phase.
reserve_build_deployment-HasSlot :
    (id : ℕ) (setting : Setting) (s : Store)
    → (reserve_build_deployment id setting s).1 ≡ true
    → HasSlot id (reserve_build_deployment id setting s).0
unfolding reserve_build_deployment
reserve_build_deployment-HasSlot id setting s = go (find_deployment id s.deployments) refl
  where
    decide : Deployment → Store × Bool
    decide d =
        if not (is_deploying d.status)
        then (s, false)
        else if not (is_build_phase d.phase)
        then (s, true)
        else if leb (normalize_max setting) (count_where is_occupying s.deployments)
        then (s, false)
        else (
          record s {
            deployments = update_where (λ x. x.id == id) (set_phase "applying") s.deployments;
          },
          true,
        )

    go :
        (o : Option Deployment)
        → find_deployment id s.deployments ≡ o
        → (elim o as (λ _. Store × Bool) [ none ↦ (s, false) | some d ↦ decide d ]).1 ≡ true
        → HasSlot id (elim o as (λ _. Store × Bool) [ none ↦ (s, false) | some d ↦ decide d ]).0
    go none e ok = absurd (cc)
    go (some d) e ok = elim (Bool-cases (is_deploying d.status)) [
      | inr idle ↦ absurd (ground arith)
      | inl live ↦ elim (Bool-cases (is_build_phase d.phase)) [
        | inr built ↦
            rw (live, built) (record { row = d; found = e; is_deployed = live; is_built = built })
        | inl building ↦
            elim (Bool-cases
              (leb (normalize_max setting) (count_where is_occupying s.deployments))) [
                | inl full ↦ absurd (ground arith)
                | inr room ↦
                    rw (live, building, room)
                      (record {
                        row = set_phase "applying" d;
                        found =
                            find-update (λ x. x.id == id) (set_phase "applying") id s.deployments d
                              (λ x. refl) e
                              (rw (find_deployment-id id s.deployments d e) (==_refl id));
                        is_deployed = live;
                        is_built = refl;
                      })
              ]
      ]
    ]

-- Where ids are unique, a reservation, granted or not, leaves at most as many deployments that
-- occupy a slot as the cap, or as many as there were before it.
pub reserve_build_deployment-capacity :
    (id : ℕ) (setting : Setting) (s : Store)
    → UniqueKeys (λ d. d.id) s.deployments
    → count_where is_occupying (reserve_build_deployment id setting s).0.deployments
      ≤ max (normalize_max setting) (count_where is_occupying s.deployments)
unfolding reserve_build_deployment
reserve_build_deployment-capacity id setting s unique =
    let more =
      count-update-add is_occupying (λ (x : Deployment). x.id == id) (set_phase "applying")
        s.deployments in
    let once = unique id in ground (arith, more, once)
