-- ===== src/Registry/Live.antt =====
-- The pass over all repositories, and the deployments that are still under way.
use text.Mathlib.Text.{◌==◌ as str_eq}
use text.Mathlib.TextEquality.{eq_iff}
use kubwave.Common.{
  ℕ, ◌≡◌, ◌∙◌, refl, subst, leb, All-zip, inl, inr, String, Bool, true, false, not, ◌||◌, some,
  List, [], ◌∷◌, ◌++◌, ◌==◌, arith, if◌then◌else◌, any, map, find_where, decimal, All, All-map,
  Bool-cases,
}
use kubwave.Store.{Store, Service}
use kubwave.Registry.Prune.{Repo, has_tag, compute_keep_tags, prune_service_repo}
use kubwave.Registry.Kept.{
  has_tag-append, prune_service_repo-kept, compute_keep_tags-id, compute_keep_tags-active,
}
use kubwave.Registry.Groups.{any-sort, holds, grouped, lives_in, grouped-lives_in}
use kubwave.Registry.Joined.{
  is_live, has_image, by_id, by_image, joined-any, id_row, image_row, joined-lives_in, live_service,
}
use kubwave.Registry.Images.{
  joined_rows, newest_first, Group, group_rows, prune_group, prune_registry_images,
}

-- The requests to the repositories of one service.
abbrev pub requests_for : ℕ → List (ℕ × List String) → List String
requests_for service [] = []
requests_for service ((k, ds) ∷ rest) =
    if k == service then ds ++ requests_for service rest else requests_for service rest

abbrev pub names : Store → ℕ → String → Bool
names s id t = str_eq (decimal id) t || any (has_image id t) s.build_runs

module _ (svc : Service) (id : ℕ) where
  -- Each group of the service keeps the tag.
  abbrev keeps : ℕ → String → Group → Bool
  keeps limit t g = not (g.service_id == svc.id) || has_tag (compute_keep_tags g.rows limit) t

  keeps_id :
      (limit : ℕ) (g : Group) → holds svc.id (by_id id) g ≡ true → keeps limit (decimal id) g ≡ true
  keeps_id limit g h = elim (Bool-cases (g.service_id == svc.id)) [
    | inl same ↦ rw same (compute_keep_tags-id g.rows limit (decimal id) (ground (arith, same, h)))
    | inr other ↦ rw other refl
  ]

  keeps_image :
      (limit : ℕ) (t : String) (g : Group)
      → holds svc.id (by_id id) g ≡ true
      → holds svc.id (by_image id t) g ≡ true
      → keeps limit t g ≡ true
  keeps_image limit t g h k = elim (Bool-cases (g.service_id == svc.id)) [
    | inl same ↦
        rw same
          (compute_keep_tags-active g.rows limit (decimal id) t (ground (arith, same, h))
            (ground (arith, same, k))).1
    | inr other ↦ rw other refl
  ]

  module _ (registry : ℕ → ℕ → Repo) (limit : ℕ) (t digest : String) where
    -- No group asks for the digest.
    none_asks :
        (groups : List Group)
        → has_tag (registry svc.environment_id svc.id).tags t ≡ true
        → (registry svc.environment_id svc.id).digest_of t ≡ some digest
        → All (λ g. keeps limit t g ≡ true) groups
        → All (λ g. lives_in svc.id svc.environment_id g ≡ true) groups
        → has_tag (requests_for svc.id (map (prune_group registry limit) groups)) digest ≡ false
    none_asks [] listed at_digest hk he = refl
    none_asks (g ∷ groups) listed at_digest (k, hk) (e, he) =
        let later = none_asks groups listed at_digest hk he in
        elim (Bool-cases (g.service_id == svc.id)) [
          | inl same ↦
              let here : g.service_id ≡ svc.id = ground (arith, same) in
              let home : g.environment_id ≡ svc.environment_id = ground (arith, same, e) in
              let spared : has_tag
                    (prune_service_repo (registry g.environment_id g.service_id)
                      (compute_keep_tags g.rows limit))
                    digest
                  ≡ false =
                prune_service_repo-kept (registry g.environment_id g.service_id)
                  (compute_keep_tags g.rows limit) t digest (rw (here, home) listed)
                  (ground (arith, same, k)) (rw (here, home) at_digest) in
              rw same (
                ground (
                  arith,
                  spared,
                  later,
                  has_tag-append
                      (prune_service_repo (registry g.environment_id g.service_id)
                        (compute_keep_tags g.rows limit))
                      (requests_for svc.id (map (prune_group registry limit) groups)) digest,
                ))
          | inr other ↦ rw other later
        ]

-- Whatever is superseded, and whatever the registry answers, a pass over all repositories never asks to
-- delete the manifest that a listed tag of a deployment under way names, be it the deployment's id or
-- the tag of an image that its build has recorded, where its service is in the table.
pub prune_registry_images-live :
    (has_registry : Bool) (registry : ℕ → ℕ → Repo) (limit : ℕ) (services : List Service)
    (s : Store) (svc : Service) (id : ℕ) (t digest : String)
    → find_where (λ x. x.id == svc.id) services ≡ some svc
    → any (is_live svc.id id) s.deployments ≡ true
    → names s id t ≡ true
    → has_tag (registry svc.environment_id svc.id).tags t ≡ true
    → (registry svc.environment_id svc.id).digest_of t ≡ some digest
    → has_tag
        (requests_for svc.id (prune_registry_images has_registry registry limit services s))
        digest
      ≡ false
unfolding prune_registry_images
prune_registry_images-live false registry limit services s svc id t digest found live name listed
      e =
    refl
prune_registry_images-live true registry limit services s svc id t digest found live name listed e =
    let ds = newest_first s.deployments in
    let rs = joined_rows services s.build_runs ds in
    let groups = group_rows rs [] in
    let sorted : any (is_live svc.id id) ds ≡ true =
      any-sort (is_live svc.id id) (λ d e. leb e.created_at d.created_at) s.deployments ∙ live in
    let own : All (λ g. holds svc.id (by_id id) g ≡ true) groups =
      (grouped svc.id (by_id id) rs [] (
        joined-any svc.id services s.build_runs (by_id id) (is_live svc.id id)
          (live_service svc id services s.build_runs found)
          (id_row svc id services s.build_runs found) ds sorted)).1 in
    let homes =
      grouped-lives_in svc.id svc.environment_id rs []
        (joined-lives_in svc id services s.build_runs found ds) tt in
    let kept : All (λ g. keeps svc id limit t g ≡ true) groups =
      elim (Bool-cases (str_eq (decimal id) t)) [
        | inl same ↦
            subst (λ u. All (λ g. keeps svc id limit u g ≡ true) groups)
              ((eq_iff (decimal id) t).0 same)
              (All-map (λ g. holds svc.id (by_id id) g ≡ true) _ groups (keeps_id svc id limit) own)
        | inr other ↦
            let image : any (has_image id t) s.build_runs ≡ true = ground (arith, other, name) in
            let built =
              (grouped svc.id (by_image id t) rs [] (
                joined-any svc.id services s.build_runs (by_image id t) (is_live svc.id id)
                  (live_service svc id services s.build_runs found)
                  (image_row svc id services s.build_runs found t image) ds sorted)).1 in
            All-map
              (λ g. (holds svc.id (by_id id) g ≡ true) × (holds svc.id (by_image id t) g ≡ true)) _
              groups (λ g h. keeps_image svc id limit t g h.0 h.1)
              (All-zip (λ g. holds svc.id (by_id id) g ≡ true)
                (λ g. holds svc.id (by_image id t) g ≡ true) groups own built)
      ] in
    none_asks svc id registry limit t digest groups listed e kept homes
