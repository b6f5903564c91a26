-- ===== src/Previews/Replicas.antt =====
-- The cap on a project's previews while the sweeps of several replicas interleave
-- (`runPrDiscovery` and the loop of `syncRepo` in
-- apps/backend/src/modules/worker/jobs/pr-preview/job.ts): each sweep counts the previews, and clones
-- one later, when others may have cloned theirs.
use kubwave.Common.{ℕ, suc, ◌+◌, ◌≤◌, ◌<◌, ◌≡◌, false, String, arith, leb, subst, count_where}
use kubwave.Store.Environments.{Environment}
use kubwave.Previews.Clone.{OpenPr, PreviewStore, CloneInputs, clone_preview, teardown_preview}
use kubwave.GitPoll.Schedule.{greater}
use kubwave.Previews.Discovery.{preview_count_for_project, is_preview_in}
use kubwave.Previews.Bounds.{teardown_preview-used, clone_preview-used}

module _ (sweeps max_previews project : ℕ) where
  -- The tables, and how many of the sweeps have found room and not yet cloned.
  pub data ReplicaStep (p : PreviewStore) (ready : ℕ) : PreviewStore → ℕ → Type 0 where
    count :
        leb max_previews (preview_count_for_project project p.environments) ≡ false
        → ready < sweeps
        → ReplicaStep p ready p (suc ready)
    create :
        (inputs : CloneInputs) (base : Environment) (pr : OpenPr) (url : String) (rest : ℕ)
        → base.project_id ≡ project
        → ready ≡ suc rest
        → ReplicaStep p ready (clone_preview inputs base pr url p) rest
    -- The clone throws before its transaction commits.
    fail : (rest : ℕ) → ready ≡ suc rest → ReplicaStep p ready p rest
    teardown : (id : ℕ) → ReplicaStep p ready (teardown_preview id p) ready
    -- Any other write that adds no preview to the project.
    elsewhere :
        (q : PreviewStore)
        → preview_count_for_project project q.environments
          ≤ preview_count_for_project project p.environments
        → ReplicaStep p ready q ready

  pub data ReplicaReach (p : PreviewStore) : PreviewStore → ℕ → Type 0 where
    here : ReplicaReach p p 0
    next :
        {q r : PreviewStore} {k l : ℕ}
        → ReplicaReach p q k
        → ReplicaStep q k r l
        → ReplicaReach p r l

module _ (sweeps max_previews project : ℕ) where
  abbrev used_in : PreviewStore → ℕ
  used_in p = preview_count_for_project project p.environments

  -- A sweep that has found room takes one place more at most.
  abbrev IsWithin : ℕ → PreviewStore → ℕ → Type 0
  IsWithin start q ready = suc (used_in q + ready) ≤ greater start max_previews + sweeps

  clone_preview-count :
      (inputs : CloneInputs) (base : Environment) (pr : OpenPr) (url : String) (q : PreviewStore)
      → base.project_id ≡ project
      → used_in (clone_preview inputs base pr url q) ≤ used_in q + 1
  unfolding preview_count_for_project
  clone_preview-count inputs base pr url q same =
      subst
        (λ n.
          count_where (is_preview_in n) (clone_preview inputs base pr url q).environments
          ≤ count_where (is_preview_in n) q.environments + 1)
        same (clone_preview-used base inputs pr url q)

  ReplicaStep-IsWithin :
      {q r : PreviewStore} {k l : ℕ} (start : ℕ)
      → ReplicaStep sweeps max_previews project q k r l
      → IsWithin start q k
      → IsWithin start r l
  unfolding preview_count_for_project
  ReplicaStep-IsWithin start (count room free) h = ground arith
  ReplicaStep-IsWithin {q} start (create inputs base pr url rest same e) h =
      omega (arith, h, e, clone_preview-count inputs base pr url q same)
  ReplicaStep-IsWithin start (fail rest e) h = omega (arith, h, e)
  ReplicaStep-IsWithin {q} start (teardown id) h =
      omega (arith, h, teardown_preview-used project id q)
  ReplicaStep-IsWithin start (elsewhere q le) h = omega (arith, h, le)

  ReplicaReach-IsWithin :
      {p q : PreviewStore} {k : ℕ}
      → 1 ≤ sweeps
      → ReplicaReach sweeps max_previews project p q k
      → IsWithin (used_in p) q k
  ReplicaReach-IsWithin one here = ground arith
  ReplicaReach-IsWithin {p} one (next r st) =
      ReplicaStep-IsWithin (used_in p) st (ReplicaReach-IsWithin one r)

  -- However the sweeps of a project interleave, with teardowns and with any other write that adds
  -- no preview to it, the project has at most as many previews as the cap allows, or as there were
  -- at the start, and one more for each sweep but the first.
  pub ReplicaReach-cap :
      {p q : PreviewStore} {k : ℕ}
      → 1 ≤ sweeps
      → ReplicaReach sweeps max_previews project p q k
      → suc (preview_count_for_project project q.environments)
        ≤ greater (preview_count_for_project project p.environments) max_previews + sweeps
  ReplicaReach-cap one r = omega (arith, ReplicaReach-IsWithin one r)
