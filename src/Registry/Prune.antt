-- ===== src/Registry/Prune.antt =====
-- Which image tags are kept, and the deletion of the others
-- (apps/backend/src/modules/worker/jobs/registry/prune.ts). The registry answers through `Repo`: each
-- request may fail, and a manifest is deleted by its digest.
use text.Mathlib.Text.{◌==◌ as str_eq}
use kubwave.Common.{
  ℕ, suc, String, Bool, not, ◌&&◌, ◌||◌, Option, none, some, List, [], ◌∷◌, ◌++◌, ltb,
  if◌then◌else◌, any, select_where, is_empty,
}
use kubwave.Store.{DeploymentStatus, is_build_active, is_succeeded}

-- One deployment of a service: its id, its image's tag and its build cache's tag.
pub record PruneRow : Type 0 where
  pub id : String
  pub status : DeploymentStatus
  pub image_tag : Option String
  pub cache_tag : Option String

abbrev pub has_tag : List String → String → Bool
has_tag tags tag = any (λ t. str_eq t tag) tags

abbrev pub tags_of : Option String → List String
tags_of none = []
tags_of (some t) = if is_empty t then [] else t ∷ []

-- The first loop: active deployments, and the first that succeeded.
abbrev pub takes_slot : ℕ → ℕ → PruneRow → Bool
takes_slot kept limit row =
    not (is_build_active row.status) && is_succeeded row.status && ltb kept limit

unfoldable pub keep_ids : ℕ → ℕ → List PruneRow → List String
keep_ids kept limit [] = []
keep_ids kept limit (row ∷ rows) =
    let rest = keep_ids (if takes_slot kept limit row then suc kept else kept) limit rows in
    if is_build_active row.status || takes_slot kept limit row then row.id ∷ rest else rest

-- The second loop, in which the set grows as it goes.
unfoldable pub keep_tags : List PruneRow → List String → List String
keep_tags [] keep = keep
keep_tags (row ∷ rows) keep =
    keep_tags rows
      (if has_tag keep row.id then tags_of row.image_tag ++ tags_of row.cache_tag ++ keep else keep)

unfoldable pub compute_keep_tags : List PruneRow → ℕ → List String
unfolding keep_ids keep_tags
compute_keep_tags rows limit = keep_tags rows (keep_ids 0 limit rows)

abbrev pub buildkit_cache_tag : String
buildkit_cache_tag = "buildcache"

abbrev pub is_protected : List String → String → Bool
is_protected keep tag = str_eq tag buildkit_cache_tag || has_tag keep tag

unfoldable pub select_tags_to_delete : List String → List String → List String
select_tags_to_delete tags keep = select_where (λ t. not (is_protected keep t)) tags

-- One repository: the tags that it lists (none if the request fails), and the digest that a tag
-- resolves to, absent if the request fails.
pub record Repo : Type 0 where
  pub tags : List String
  pub digest_of : String → Option String

abbrev pub add_digest : Option String → Option (List String) → Option (List String)
add_digest none rest = none
add_digest (some digest) none = none
add_digest (some digest) (some rest) = if is_empty digest then none else some (digest ∷ rest)

-- The digests of the tags that must stay; one that cannot be resolved stops the pass.
unfoldable pub protected_digests : Repo → List String → Option (List String)
protected_digests repo [] = some []
protected_digests repo (tag ∷ tags) = add_digest (repo.digest_of tag) (protected_digests repo tags)

-- The digests whose deletion is asked for, in order.
abbrev pub delete_digest : List String → Option String → List String → List String
delete_digest protected none rest = rest
delete_digest protected (some digest) rest =
    if is_empty digest || has_tag protected digest then rest else digest ∷ rest

unfoldable pub delete_requests : Repo → List String → List String → List String
delete_requests repo protected [] = []
delete_requests repo protected (tag ∷ tags) =
    delete_digest protected (repo.digest_of tag) (delete_requests repo protected tags)

abbrev pub requests_with : Repo → List String → Option (List String) → List String
requests_with repo doomed none = []
requests_with repo doomed (some protected) = delete_requests repo protected doomed

-- The deletions that a pass over one repository asks for.
unfoldable pub prune_service_repo : Repo → List String → List String
unfolding select_tags_to_delete protected_digests delete_requests
prune_service_repo repo keep =
    requests_with repo (select_tags_to_delete repo.tags keep)
      (protected_digests repo (select_where (is_protected keep) repo.tags))
