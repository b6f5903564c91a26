-- ===== src/Registry/Joined.antt =====
-- The rows that the joined tables have for a deployment that is under way (pruneRegistryImages of
-- apps/backend/src/modules/worker/jobs/registry/prune.ts).
use text.Mathlib.Text.{◌==◌ as str_eq}
use text.Mathlib.TextPositions.{eq_refl}
use kubwave.Common.{
  ℕ, ◌≡◌, ◌∙◌, refl, sym, ap, inl, inr, String, Bool, true, ◌&&◌, Option, none, some, List, [], ◌∷◌,
  ◌==◌, arith, any, map, find_where, select_where, decimal, All, All-append, any-append_left,
  Bool-cases,
}
use kubwave.Store.{Deployment, BuildRun, Service, is_build_type, is_build_active}
use kubwave.Registry.Prune.{PruneRow, has_tag, tags_of}
use kubwave.Registry.Groups.{any-append, any-select, any-map, row_lives_in}
use kubwave.Registry.Images.{tag_of, JoinedRow, prune_row, joined_runs, rows_of, joined_rows}

abbrev pub is_live : ℕ → ℕ → Deployment → Bool
is_live service id d =
    d.id == id && d.service_id == service && is_build_type d.type && is_build_active d.status

-- The tags of a deployment's images: its id, and the tag of an image recorded by its build.
abbrev pub has_image : ℕ → String → BuildRun → Bool
has_image id t run = run.deployment_id == id && has_tag (tags_of (tag_of run.image_ref)) t

-- The rows of a live deployment, among the joined ones.
abbrev pub by_id : ℕ → PruneRow → Bool
by_id id row = str_eq row.id (decimal id) && is_build_active row.status

abbrev pub by_image : ℕ → String → PruneRow → Bool
by_image id t row = str_eq row.id (decimal id) && has_tag (tags_of row.image_tag) t

abbrev pub at : ℕ → (PruneRow → Bool) → JoinedRow → Bool
at service q r = r.service_id == service && q r.row

module _ (service : ℕ) (services : List Service) (runs : List BuildRun) where
  -- A row that one deployment brings is among the joined ones.
  pub joined-any :
      (q : PruneRow → Bool) (p : Deployment → Bool)
      → ((d : Deployment) → p d ≡ true → is_build_type d.type ≡ true)
      → ((d : Deployment)
          → p d ≡ true
          → any (at service q) (rows_of runs d (find_where (λ x. x.id == d.service_id) services))
            ≡ true)
      → (ds : List Deployment) → any p ds ≡ true
      → any (at service q) (joined_rows services runs ds) ≡ true
  joined-any q p b f [] h = absurd (cc)
  joined-any q p b f (d ∷ ds) h = elim (Bool-cases (p d)) [
    | inl hit ↦ rw (b d hit) (
        any-append_left (at service q)
          (rows_of runs d (find_where (λ x. x.id == d.service_id) services))
          (joined_rows services runs ds) (f d hit))
    | inr miss ↦
        let later = joined-any q p b f ds (ground (arith, miss, h)) in
        elim (Bool-cases (is_build_type d.type)) [
          | inl build ↦ rw build (
              ground (
                arith,
                later,
                any-append (at service q)
                    (rows_of runs d (find_where (λ x. x.id == d.service_id) services))
                    (joined_rows services runs ds),
              ))
          | inr other ↦ rw other later
        ]
  ]

module _ (service : ℕ) (svc : Service) (d : Deployment) where
  abbrev pub row : Option BuildRun → JoinedRow
  row run = record {
    service_id = d.service_id;
    environment_id = svc.environment_id;
    row = prune_row d run;
  }

  -- Whatever the runs, a deployment has a row.
  some_row :
      (q : PruneRow → Bool) (l : List BuildRun)
      → ((o : Option BuildRun) → at service q (row o) ≡ true)
      → any (at service q) (map row (joined_runs l)) ≡ true
  some_row q [] h = ground (arith, h none)
  some_row q (run ∷ l) h = ground (arith, h (some run))

  run_row :
      (q : PruneRow → Bool) (l : List BuildRun)
      → any (λ run. at service q (row (some run))) l ≡ true
      → any (at service q) (map row (joined_runs l)) ≡ true
  run_row q [] h = absurd (cc)
  run_row q (run ∷ l) h =
      rw
        (
          any-map (at service q) row (map some (run ∷ l)),
          any-map (λ o. at service q (row o)) some (run ∷ l),
        )
        h

module _ {ℓ} {A : Type ℓ} (p q : A → Bool) (h : (x : A) → p x ≡ true → q x ≡ true) where
  any_more : (xs : List A) → any p xs ≡ true → any q xs ≡ true
  any_more [] e = e
  any_more (x ∷ xs) e = elim (Bool-cases (p x)) [
    | inl k ↦ ground (arith, h x k)
    | inr k ↦ ground (arith, any_more xs (ground (arith, k, e)))
  ]

module _ (svc : Service) (id : ℕ) (services : List Service) (runs : List BuildRun)
    (found : find_where (λ x. x.id == svc.id) services ≡ some svc) where
  abbrev pub rows_at : Deployment → List JoinedRow
  rows_at d = rows_of runs d (find_where (λ x. x.id == d.service_id) services)

  found_for :
      (d : Deployment)
      → is_live svc.id id d ≡ true
      → find_where (λ x. x.id == d.service_id) services ≡ some svc
  found_for d h = let here : d.service_id ≡ svc.id = ground (arith, h) in rw here found

  same_text :
      (d : Deployment) → is_live svc.id id d ≡ true → str_eq (decimal d.id) (decimal id) ≡ true
  same_text d h =
      let same : d.id ≡ id = ground (arith, h) in
      ap (λ n. str_eq (decimal n) (decimal id)) same ∙ eq_refl (decimal id)

  pub id_row :
      (d : Deployment) → is_live svc.id id d ≡ true → any (at svc.id (by_id id)) (rows_at d) ≡ true
  id_row d h = rw (found_for d h) (
      some_row svc.id svc d (by_id id) (select_where (λ run. run.deployment_id == d.id) runs) meets)
    where
      meets : (o : Option BuildRun) → at svc.id (by_id id) (row svc.id svc d o) ≡ true
      meets none = ground (arith, h, same_text d h)
      meets (some run) = ground (arith, h, same_text d h)

  pub image_row :
      (t : String)
      → any (has_image id t) runs ≡ true
      → (d : Deployment) → is_live svc.id id d ≡ true
      → any (at svc.id (by_image id t)) (rows_at d) ≡ true
  image_row t image d h = rw (found_for d h) (
      run_row svc.id svc d (by_image id t) (select_where (λ run. run.deployment_id == d.id) runs) (
        any-select (λ run. at svc.id (by_image id t) (row svc.id svc d (some run)))
          (λ run. run.deployment_id == d.id) runs
        ∙ any_more (has_image id t)
            (λ run.
              run.deployment_id == d.id && at svc.id (by_image id t) (row svc.id svc d (some run)))
            (λ run e. ground (arith, h, e, same_text d h)) runs image))

  all_mapped :
      (P : JoinedRow → Type 0) (f : Option BuildRun → JoinedRow)
      → ((o : Option BuildRun) → P (f o))
      → (l : List (Option BuildRun)) → All P (map f l)
  all_mapped P f h [] = tt
  all_mapped P f h (o ∷ l) = (h o, all_mapped P f h l)

  rows-lives_in :
      (d : Deployment) (o : Option Service)
      → find_where (λ x. x.id == d.service_id) services ≡ o
      → All (λ r. row_lives_in svc.id svc.environment_id r ≡ true) (rows_of runs d o)
  rows-lives_in d none e = tt
  rows-lives_in d (some other) e = elim (Bool-cases (d.service_id == svc.id)) [
    | inl same ↦
        let here : d.service_id ≡ svc.id = ground (arith, same) in
        let one : some other ≡ some svc = sym e ∙ rw here found in
        let it : other.environment_id ≡ svc.environment_id = ground (arith, one) in
        all_mapped (λ r. row_lives_in svc.id svc.environment_id r ≡ true) (row svc.id other d)
          (λ o. ground (arith, it))
          (joined_runs (select_where (λ run. run.deployment_id == d.id) runs))
    | inr differs ↦
        all_mapped (λ r. row_lives_in svc.id svc.environment_id r ≡ true) (row svc.id other d)
          (λ o. rw differs refl)
          (joined_runs (select_where (λ run. run.deployment_id == d.id) runs))
  ]

  pub joined-lives_in :
      (ds : List Deployment)
      → All (λ r. row_lives_in svc.id svc.environment_id r ≡ true) (joined_rows services runs ds)
  joined-lives_in [] = tt
  joined-lives_in (d ∷ ds) = elim (Bool-cases (is_build_type d.type)) [
    | inl build ↦ rw build (
        All-append (λ r. row_lives_in svc.id svc.environment_id r ≡ true) (rows_at d)
          (joined_rows services runs ds) (rows-lives_in d _ refl) (joined-lives_in ds))
    | inr other ↦ rw other (joined-lives_in ds)
  ]

  pub live_service : (d : Deployment) → is_live svc.id id d ≡ true → is_build_type d.type ≡ true
  live_service d h = ground (arith, h)
