-- ===== src/Registry/Examples.antt =====
-- A repository in which a superseded tag names the manifest of the running one.
use kubwave.Common.{ℕ, ◌≡◌, refl, true, false, some, [], ◌∷◌, ◌<>◌, decimal}
use kubwave.Store.{Store, deploying, succeeded, failed, public_repo}
use kubwave.Store.Samples.{sample_deployment, sample_run, sample_service}
use kubwave.Registry.Prune.{
  Repo, has_tag, prune_service_repo, select_tags_to_delete, protected_digests, delete_requests,
  compute_keep_tags, keep_ids, keep_tags,
}
use kubwave.Registry.Images.{prune_registry_images}
use kubwave.Registry.Live.{requests_for, names, prune_registry_images-live}
use kubwave.Registry.Kept.{prune_service_repo-kept}

abbrev repo : Repo
repo = record { tags = "old" ∷ "d2" ∷ "buildcache" ∷ []; digest_of = λ tag. some "sha256:1" }

prune_service_repo-kept_example : has_tag (prune_service_repo repo ("d2" ∷ [])) "sha256:1" ≡ false
prune_service_repo-kept_example =
    prune_service_repo-kept repo ("d2" ∷ []) "d2" "sha256:1" refl refl refl

-- A newer deployment that succeeded, and one under way whose build has recorded an image.
abbrev tables : Store
tables = record {
  deployments =
      sample_deployment 2 1 succeeded
      ∷ record (sample_deployment 1 1 deploying) { type = public_repo }
      ∷ [];
  deployment_logs = [];
  build_runs = record (sample_run 1) { image_ref = some "registry:5000/env-1/svc-1:r-1" } ∷ [];
  build_agents = [];
}

image_name : names tables 1 "r-1" ≡ true
unfolding decimal
image_name = refl

-- A registry in which every tag of every repository names one manifest.
abbrev registry : ℕ → ℕ → Repo
registry environment service = record {
  tags = "old" ∷ "r-1" ∷ "buildcache" ∷ [];
  digest_of = λ tag. some "sha256:1";
}

prune_registry_images-live_example :
    has_tag
      (requests_for 1 (prune_registry_images true registry 0 (sample_service 1 ∷ []) tables))
      "sha256:1"
    ≡ false
prune_registry_images-live_example =
    prune_registry_images-live true registry 0 (sample_service 1 ∷ []) tables (sample_service 1) 1
      "r-1" "sha256:1" refl refl image_name refl refl

-- Once it has failed, its image may go.
abbrev ended : Store
ended = record tables {
  deployments = record (sample_deployment 1 1 failed) { type = public_repo } ∷ [];
}

abbrev separate : ℕ → ℕ → Repo
separate environment service = record {
  tags = "r-1" ∷ [];
  digest_of = λ tag. some ("sha256:" <> tag);
}

image_goes :
    prune_registry_images true separate 0 (sample_service 1 ∷ []) ended
    ≡ (1, "sha256:r-1" ∷ []) ∷ []
unfolding prune_registry_images prune_service_repo select_tags_to_delete protected_digests
    delete_requests compute_keep_tags keep_ids keep_tags decimal
image_goes = refl
