-- ===== src/Previews/Bounds.antt =====
-- The cap on a project's previews, for a sweep on its own.
use kubwave.Common.{
  ℕ, ◌≤◌, ◌≡◌, refl, inl, inr, Bool, Option, none, some, String, List, [], ◌∷◌, ◌==◌, arith, leb,
  any, count_where, Bool-cases, count-append, count-remove-le, count-change-eq, ◌+◌,
}
use kubwave.Store.Environments.{Environment}
use kubwave.Deployments.Cancel.{Call, returned, thrown}
use kubwave.Previews.Clone.{
  OpenPr, PreviewStore, CloneInputs, clone_preview, preview_environment, conflicts,
  teardown_preview, is_preview_of_id,
}
use kubwave.GitPoll.Schedule.{greater}
use kubwave.Previews.Discovery.{
  Targets, diff_previews, existing_previews, is_preview_in, preview_count_for_project,
  teardown_each, targets_of, create_each, sync_repo, Sweep, sync_listed, poll_repos, record_poll,
  set_pr_error, clear_pr_error, poll_environment,
}

pub teardown_preview-used :
    (project id : ℕ) (p : PreviewStore)
    → count_where (is_preview_in project) (teardown_preview id p).environments
      ≤ count_where (is_preview_in project) p.environments
unfolding teardown_preview
teardown_preview-used project id p = elim (Bool-cases (any (is_preview_of_id id) p.environments)) [
  | inl e ↦ rw e (count-remove-le (is_preview_in project) (is_preview_of_id id) p.environments)
  | inr e ↦ rw e (omega arith)
]

module _ (base : Environment) where
  abbrev pub used : PreviewStore → ℕ
  used p = count_where (is_preview_in base.project_id) p.environments

  teardown_each-used :
      (dead : List Environment) (p : PreviewStore) → used (teardown_each dead p) ≤ used p
  teardown_each-used [] p = omega arith
  teardown_each-used (e ∷ dead) p = omega (
    arith,
    teardown_each-used dead (teardown_preview e.id p),
    teardown_preview-used base.project_id e.id p,
  )

  pub clone_preview-used :
      (inputs : CloneInputs) (pr : OpenPr) (url : String) (p : PreviewStore)
      → used (clone_preview inputs base pr url p) ≤ used p + 1
  unfolding clone_preview
  clone_preview-used inputs pr url p =
      let new =
        preview_environment inputs.lower inputs.now (inputs.environment_id url pr.pr_number) base pr
          url in
      elim (Bool-cases (any (conflicts new) p.environments)) [
        | inl e ↦ rw e (omega arith)
        | inr e ↦
            rw e (
              ground
                (arith, count-append (is_preview_in base.project_id) p.environments (new ∷ [])))
      ]

  create_each-used :
      (inputs : CloneInputs) (fails : String → ℕ → Bool) (max_previews : ℕ) (url : String)
      (prs : List OpenPr) (p : PreviewStore)
      → used (create_each inputs fails max_previews base url prs p) ≤ greater (used p) max_previews
  unfolding create_each
  create_each-used inputs fails max_previews url [] p = ground arith
  create_each-used inputs fails max_previews url (pr ∷ prs) p =
      elim (Bool-cases (leb max_previews (used p))) [
        | inl full ↦ rw full (ground arith)
        | inr free ↦ rw free (elim (Bool-cases (fails url pr.pr_number)) [
          | inl failed ↦ rw failed (create_each-used inputs fails max_previews url prs p)
          | inr cloned ↦ rw cloned (
              ground (
                arith,
                create_each-used inputs fails max_previews url prs
                    (clone_preview inputs base pr url p),
                clone_preview-used inputs pr url p,
              ))
        ])
      ]

  sync_repo-used :
      (inputs : CloneInputs) (fails : String → ℕ → Bool) (max_previews : ℕ) (url : String)
      (prs : List OpenPr) (p : PreviewStore)
      → used (sync_repo inputs fails max_previews base url prs p) ≤ greater (used p) max_previews
  unfolding sync_repo
  sync_repo-used inputs fails max_previews url prs p =
      let diff = diff_previews prs (existing_previews base.id url p.environments) in
      ground (
        arith,
        create_each-used inputs fails max_previews url diff.to_create
            (teardown_each diff.to_teardown p),
        teardown_each-used diff.to_teardown p,
      )

  sync_listed-used :
      (inputs : CloneInputs) (fails : String → ℕ → Bool) (max_previews : ℕ) (url : String)
      (call : Call (List OpenPr)) (sweep : Sweep)
      → used (sync_listed inputs fails max_previews base url call sweep).0
        ≤ greater (used sweep.0) max_previews
  sync_listed-used inputs fails max_previews url (thrown message) (p, error) = ground arith
  sync_listed-used inputs fails max_previews url (returned prs) (p, error) =
      sync_repo-used inputs fails max_previews url prs p

  poll_repos-used :
      (inputs : CloneInputs) (listing : String → Option String → Call (List OpenPr))
      (fails : String → ℕ → Bool) (max_previews : ℕ) (targets : Targets) (sweep : Sweep)
      → used (poll_repos inputs listing fails max_previews base targets sweep).0
        ≤ greater (used sweep.0) max_previews
  poll_repos-used inputs listing fails max_previews [] sweep = ground arith
  poll_repos-used inputs listing fails max_previews ((url, i) ∷ targets) sweep = ground (
    arith,
    poll_repos-used inputs listing fails max_previews targets
        (sync_listed inputs fails max_previews base url (listing url i) sweep),
    sync_listed-used inputs fails max_previews url (listing url i) sweep,
  )

  record_poll-used : (backoff_at id : ℕ) (r : Sweep) → used (record_poll backoff_at id r) ≡ used r.0
  record_poll-used backoff_at id (p, none) =
      count-change-eq (is_preview_in base.project_id) (λ e. e.id == id) clear_pr_error
        p.environments (λ e k. refl)
  record_poll-used backoff_at id (p, some message) =
      count-change-eq (is_preview_in base.project_id) (λ e. e.id == id)
        (set_pr_error message backoff_at) p.environments (λ e k. refl)

-- A sweep over a base environment during which nobody else writes leaves its project with at most as
-- many previews as the cap allows, or as there were, whatever the forge answers and whichever clones
-- fail. Sweeps that run at once may exceed the cap.
pub poll_environment-cap :
    (inputs : CloneInputs) (listing : String → Option String → Call (List OpenPr))
    (fails : String → ℕ → Bool) (max_previews backoff_at : ℕ) (base : Environment)
    (p : PreviewStore)
    → preview_count_for_project base.project_id
        (poll_environment inputs listing fails max_previews backoff_at base p).environments
      ≤ greater (preview_count_for_project base.project_id p.environments) max_previews
unfolding poll_environment preview_count_for_project
poll_environment-cap inputs listing fails max_previews backoff_at base p =
    rw (record_poll-used base backoff_at base.id _)
      (poll_repos-used base inputs listing fails max_previews (targets_of base p) (p, none))
