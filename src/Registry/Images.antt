-- ===== src/Registry/Images.antt =====
-- The pass over all repositories (pruneRegistryImages of
-- apps/backend/src/modules/worker/jobs/registry/prune.ts). `registry` is the repository of a service in
-- an environment; a Map is an association list in the order of insertion.
use Prim.Native.Char.{Char, code}
use kubwave.Common.{
  ℕ, String, Bool, Option, none, some, List, [], ◌∷◌, ◌++◌, ◌==◌, if◌then◌else◌, leb, any, map,
  find_where, sort_with, select_where, update_where, decimal, ◌<>◌,
}
use kubwave.Store.{Store, Deployment, BuildRun, Service, is_build_type}
use kubwave.Registry.Prune.{PruneRow, Repo, compute_keep_tags, prune_service_repo}

abbrev pub after_colon : Char → String → Option String → Option String
after_colon c s (some tail) = some tail
after_colon c s none = if code c == 58 then some s else none

-- What follows the last colon.
abbrev pub last_colon : String → Option String
last_colon String.[] = none
last_colon (String.◌∷◌ c s) = after_colon c s (last_colon s)

-- `imageRef?.split(':').at(-1)`
abbrev pub tag_of : Option String → Option String
tag_of none = none
tag_of (some ref) = elim (last_colon ref) [ none ↦ some ref | some tail ↦ some tail ]

pub record JoinedRow : Type 0 where
  pub service_id : ℕ
  pub environment_id : ℕ
  pub row : PruneRow

abbrev pub cache_tag_of : BuildRun → String
cache_tag_of run = "buildcache-" <> decimal run.id <> "-" <> decimal run.attempt

abbrev pub prune_row : Deployment → Option BuildRun → PruneRow
prune_row d none = record {
  id = decimal d.id;
  status = d.status;
  image_tag = none;
  cache_tag = none;
}
prune_row d (some run) = record {
  id = decimal d.id;
  status = d.status;
  image_tag = tag_of run.image_ref;
  cache_tag = some (cache_tag_of run);
}

-- The left join: a deployment without a run has one row.
abbrev pub joined_runs : List BuildRun → List (Option BuildRun)
joined_runs [] = none ∷ []
joined_runs (run ∷ runs) = map some (run ∷ runs)

abbrev pub rows_of : List BuildRun → Deployment → Option Service → List JoinedRow
rows_of runs d none = []
rows_of runs d (some svc) =
    map
      (λ run. record {
        service_id = d.service_id;
        environment_id = svc.environment_id;
        row = prune_row d run;
      })
      (joined_runs (select_where (λ run. run.deployment_id == d.id) runs))

abbrev pub joined_rows : List Service → List BuildRun → List Deployment → List JoinedRow
joined_rows services runs [] = []
joined_rows services runs (d ∷ ds) =
    let rest = joined_rows services runs ds in
    if is_build_type d.type
    then rows_of runs d (find_where (λ svc. svc.id == d.service_id) services) ++ rest
    else rest

abbrev pub newest_first : List Deployment → List Deployment
newest_first ds = sort_with (λ d e. leb e.created_at d.created_at) ds

pub record Group : Type 0 where
  pub service_id : ℕ
  pub environment_id : ℕ
  pub rows : List PruneRow

abbrev pub new_group : JoinedRow → Group
new_group r = record {
  service_id = r.service_id;
  environment_id = r.environment_id;
  rows = r.row ∷ [];
}

abbrev pub with_row : PruneRow → Group → Group
with_row row g = record g { rows = g.rows ++ row ∷ [] }

abbrev pub push_row : JoinedRow → List Group → List Group
push_row r groups =
    if any (λ g. g.service_id == r.service_id) groups
    then update_where (λ g. g.service_id == r.service_id) (with_row r.row) groups
    else groups ++ new_group r ∷ []

abbrev pub group_rows : List JoinedRow → List Group → List Group
group_rows [] groups = groups
group_rows (r ∷ rs) groups = group_rows rs (push_row r groups)

-- The deletions asked for, each with its service.
abbrev pub prune_group : (ℕ → ℕ → Repo) → ℕ → Group → ℕ × List String
prune_group registry keep g = (
  g.service_id,
  prune_service_repo (registry g.environment_id g.service_id) (compute_keep_tags g.rows keep),
)

unfoldable pub prune_registry_images :
    Bool → (ℕ → ℕ → Repo) → ℕ → List Service → Store → List (ℕ × List String)
prune_registry_images has_registry registry keep services s =
    if has_registry
    then map (prune_group registry keep)
        (group_rows (joined_rows services s.build_runs (newest_first s.deployments)) [])
    else []
