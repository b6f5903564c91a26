-- ===== src/Previews/Kept.antt =====
-- Which environments the sweep leaves alone.
use kubwave.Common.{
  ℕ, ◌≡◌, ◌∙◌, refl, ap, inl, inr, Bool, true, false, not, ◌&&◌, Option, none, some, String, List,
  [], ◌∷◌, ◌++◌, ◌==◌, arith, leb, any, map, All, All-append, All-map, All-select, select_where,
  select-append, count_where, Bool-cases, select-remove, any-remove, any-append_left, any-change,
}
use mathlib.Core.List.{append-nil}
use kubwave.Store.{Service}
use kubwave.Store.Environments.{Environment}
use kubwave.Deployments.Cancel.{Call, returned, thrown}
use kubwave.Previews.Plan.{
  CloneTexts, ClonePlanContext, RefMapping, ref_mapping, preview_row, plan_preview_services,
}
use kubwave.Previews.Clone.{
  OpenPr, PreviewStore, CloneInputs, clone_preview, preview_environment, conflicts, service_row,
  plan_context, teardown_preview, is_preview_of_id,
}
use kubwave.Previews.Discovery.{
  Targets, diff_previews, is_open, existing_previews, is_preview_of, has_number, is_preview_in,
  teardown_each, create_each, sync_repo, Sweep, sync_listed, poll_repos, record_poll, set_pr_error,
  clear_pr_error, targets_of, poll_environment,
}

-- A listing that came back says that the environment's pull request is open no more.
abbrev pub says_closed : Call (List OpenPr) → Environment → Bool
says_closed (thrown message) e = false
says_closed (returned open_prs) e = not (is_open open_prs e)

abbrev pub closed_at :
    (String → Option String → Call (List OpenPr)) → ℕ → String × Option String → Environment → Bool
closed_at listing base (url, i) e =
    (is_preview_of base url e && has_number e.pr_number) && says_closed (listing url i) e

-- A preview of the base environment whose pull request is closed in one of its repositories.
unfoldable pub is_closed :
    (String → Option String → Call (List OpenPr)) → ℕ → Targets → Environment → Bool
is_closed listing base targets e = any (λ t. closed_at listing base t e) targets

abbrev pub services_of : ℕ → List Service → List Service
services_of k services = select_where (λ svc. svc.environment_id == k) services

module _ (k : ℕ) (Closed : Environment → Bool) (before : List Service) (inputs : CloneInputs)
    (fresh : (url : String) (n : ℕ) → (inputs.environment_id url n == k) ≡ false) where
  record IsLeft (p : PreviewStore) : Type 0 where
    has_row : any (λ e. e.id == k) p.environments ≡ true
    stays : All (λ e. (e.id == k) ≡ true → Closed e ≡ false) p.environments
    same_services : services_of k p.services ≡ before

  teardown_preview-IsLeft :
      (id : ℕ) (p : PreviewStore) → (id == k) ≡ false → IsLeft p → IsLeft (teardown_preview id p)
  unfolding teardown_preview
  teardown_preview-IsLeft id p n h = elim (Bool-cases (any (is_preview_of_id id) p.environments)) [
    | inl e ↦ rw e (record {
      has_row =
          any-remove (λ e. e.id == k) (is_preview_of_id id) p.environments (λ e is. ground arith)
          ∙ h.has_row;
      stays =
          All-map _ _ _ (λ e both. both.0)
            (All-select _ (λ e. not (is_preview_of_id id e)) p.environments h.stays);
      same_services =
          select-remove (λ svc. svc.environment_id == k) (λ svc. svc.environment_id == id)
            p.services (λ svc is. ground arith)
          ∙ h.same_services;
    })
    | inr e ↦ rw e h
  ]

  teardown_each-IsLeft :
      (dead : List Environment) (p : PreviewStore)
      → All (λ d. (d.id == k) ≡ false) dead
      → IsLeft p
      → IsLeft (teardown_each dead p)
  teardown_each-IsLeft [] p n h = h
  teardown_each-IsLeft (d ∷ dead) p (n, ns) h =
      teardown_each-IsLeft dead (teardown_preview d.id p) ns (teardown_preview-IsLeft d.id p n h)

  planned_elsewhere :
      (env : ℕ) (texts : CloneTexts) (ctx : ClonePlanContext) (mapping : RefMapping) (now : ℕ)
      (base : List Service)
      → (ctx.preview_environment_id == k) ≡ false
      → services_of k (map (service_row now) (map (preview_row texts ctx mapping) base)) ≡ []
  unfolding preview_row
  planned_elsewhere env texts ctx mapping now [] n = refl
  planned_elsewhere env texts ctx mapping now (svc ∷ base) n =
      rw (n, planned_elsewhere env texts ctx mapping now base n) refl

  clone_preview-IsLeft :
      (base : Environment) (pr : OpenPr) (url : String) (p : PreviewStore)
      → IsLeft p
      → IsLeft (clone_preview inputs base pr url p)
  unfolding clone_preview
  clone_preview-IsLeft base pr url p h =
      let new =
        preview_environment inputs.lower inputs.now (inputs.environment_id url pr.pr_number) base pr
          url in
      let ctx = plan_context inputs base pr url in
      let rows = select_where (λ svc. svc.environment_id == base.id) p.services in
      let planned =
        map (service_row inputs.now) (plan_preview_services inputs.texts ctx rows).services in
      elim (Bool-cases (any (conflicts new) p.environments)) [
        | inl e ↦ rw e h
        | inr e ↦ rw e (record {
          has_row = any-append_left (λ e. e.id == k) p.environments (new ∷ []) h.has_row;
          stays =
              All-append _ p.environments (new ∷ []) h.stays
                (λ is. absurd (clash (fresh url pr.pr_number) is), tt);
          same_services =
              select-append (λ svc. svc.environment_id == k) p.services planned
              ∙ ap (λ t. services_of k p.services ++ t)
                  (planned_elsewhere new.id inputs.texts ctx (ref_mapping inputs.texts ctx rows)
                    inputs.now rows (fresh url pr.pr_number))
              ∙ append-nil (services_of k p.services)
              ∙ h.same_services;
        })
      ]
    where
      clash : {b : Bool} → b ≡ false → b ≡ true → ⊥
      clash e f = cc

  create_each-IsLeft :
      (fails : String → ℕ → Bool) (max_previews : ℕ) (base : Environment) (url : String)
      (prs : List OpenPr) (p : PreviewStore)
      → IsLeft p
      → IsLeft (create_each inputs fails max_previews base url prs p)
  unfolding create_each
  create_each-IsLeft fails max_previews base url [] p h = h
  create_each-IsLeft fails max_previews base url (pr ∷ prs) p h =
      elim (Bool-cases
        (leb max_previews (count_where (is_preview_in base.project_id) p.environments))) [
          | inl full ↦ rw full h
          | inr free ↦ rw free (elim (Bool-cases (fails url pr.pr_number)) [
            | inl failed ↦ rw failed (create_each-IsLeft fails max_previews base url prs p h)
            | inr cloned ↦ rw cloned (
                create_each-IsLeft fails max_previews base url prs
                  (clone_preview inputs base pr url p) (clone_preview-IsLeft base pr url p h))
          ])
        ]

  sync_repo-IsLeft :
      (fails : String → ℕ → Bool) (max_previews : ℕ) (base : Environment) (url : String)
      (prs : List OpenPr) (p : PreviewStore)
      → ((e : Environment)
          → ((is_preview_of base.id url e && has_number e.pr_number) && not (is_open prs e)) ≡ true
          → Closed e ≡ true)
      → IsLeft p
      → IsLeft (sync_repo inputs fails max_previews base url prs p)
  unfolding sync_repo diff_previews
  sync_repo-IsLeft fails max_previews base url prs p closed h =
      let existing = existing_previews base.id url p.environments in
      let dead = select_where (λ e. not (is_open prs e)) existing in
      let dead_elsewhere =
        All-map _ (λ d. (d.id == k) ≡ false) dead
          (λ d both. elsewhere d both.0.0 (closed d (ground (arith, both.0.1, both.1))))
          (All-select _ (λ e. not (is_open prs e)) existing
            (All-select _ (λ e. is_preview_of base.id url e && has_number e.pr_number)
              p.environments h.stays)) in
      create_each-IsLeft fails max_previews base url _ (teardown_each dead p)
        (teardown_each-IsLeft dead p dead_elsewhere h)
    where
      elsewhere :
          (d : Environment)
          → ((d.id == k) ≡ true → Closed d ≡ false)
          → Closed d ≡ true
          → (d.id == k) ≡ false
      elsewhere d stay is = elim (Bool-cases (d.id == k)) [
        | inl e ↦ absurd (clash (stay e) is)
        | inr e ↦ e
      ]
        where
          clash : {b : Bool} → b ≡ false → b ≡ true → ⊥
          clash e f = cc

  sync_listed-IsLeft :
      (listing : String → Option String → Call (List OpenPr)) (fails : String → ℕ → Bool)
      (max_previews : ℕ) (base : Environment) (url : String) (call : Call (List OpenPr))
      (sweep : Sweep)
      → ((e : Environment)
          → ((is_preview_of base.id url e && has_number e.pr_number) && says_closed call e) ≡ true
          → Closed e ≡ true)
      → IsLeft sweep.0
      → IsLeft (sync_listed inputs fails max_previews base url call sweep).0
  sync_listed-IsLeft listing fails max_previews base url (thrown message) (p, error) c h = h
  sync_listed-IsLeft listing fails max_previews base url (returned prs) (p, error) c h =
      sync_repo-IsLeft fails max_previews base url prs p c h

  poll_repos-IsLeft :
      (listing : String → Option String → Call (List OpenPr)) (fails : String → ℕ → Bool)
      (max_previews : ℕ) (base : Environment) (targets : Targets) (sweep : Sweep)
      → All
          (λ t. (e : Environment) → closed_at listing base.id t e ≡ true → Closed e ≡ true)
          targets
      → IsLeft sweep.0
      → IsLeft (poll_repos inputs listing fails max_previews base targets sweep).0
  poll_repos-IsLeft listing fails max_previews base [] sweep c h = h
  poll_repos-IsLeft listing fails max_previews base ((url, i) ∷ targets) sweep (c, cs) h =
      poll_repos-IsLeft listing fails max_previews base targets
        (sync_listed inputs fails max_previews base url (listing url i) sweep) cs
        (sync_listed-IsLeft listing fails max_previews base url (listing url i) sweep c h)

any-intro {ℓ} :
    {A : Type ℓ} (f : A → Environment → Bool) (ts : List A)
    → All (λ t. (e : Environment) → f t e ≡ true → any (λ u. f u e) ts ≡ true) ts
any-intro f [] = tt
any-intro f (t ∷ ts) =
    (λ e h. rw h refl, All-map _ _ ts (λ u k e h. ground (arith, k e h)) (any-intro f ts))

recorded :
    (k backoff_at id : ℕ) (sweep : Sweep)
    → (any (λ e. e.id == k) (record_poll backoff_at id sweep).environments
        ≡ any (λ e. e.id == k) sweep.0.environments)
      × ((record_poll backoff_at id sweep).services ≡ sweep.0.services)
recorded k backoff_at id (p, none) =
    (any-change (λ e. e.id == k) (λ e. e.id == id) clear_pr_error p.environments (λ e. refl), refl)
recorded k backoff_at id (p, some message) = (
  any-change (λ e. e.id == k) (λ e. e.id == id) (set_pr_error message backoff_at) p.environments
      (λ e. refl),
  refl,
)

-- A sweep neither deletes an environment nor touches its services, whatever clones fail, if the id
-- is none of the new previews' and no row with the id is a preview of the swept environment whose
-- pull request is missing from a listing of its repository that came back: an open pull request's
-- preview stays, and so does everything where the listing threw.
pub poll_environment-kept :
    (inputs : CloneInputs) (listing : String → Option String → Call (List OpenPr))
    (fails : String → ℕ → Bool) (max_previews backoff_at k : ℕ) (base : Environment)
    (p : PreviewStore)
    → ((url : String) (n : ℕ) → (inputs.environment_id url n == k) ≡ false)
    → any (λ e. e.id == k) p.environments ≡ true
    → All
        (λ e. (e.id == k) ≡ true → is_closed listing base.id (targets_of base p) e ≡ false)
        p.environments
    → (any
          (λ e. e.id == k)
          (poll_environment inputs listing fails max_previews backoff_at base p).environments
        ≡ true)
      × (services_of k
            (poll_environment inputs listing fails max_previews backoff_at base p).services
          ≡ services_of k p.services)
unfolding poll_environment is_closed
poll_environment-kept inputs listing fails max_previews backoff_at k base p fresh has stays =
    let targets = targets_of base p in
    let sweep = poll_repos inputs listing fails max_previews base targets (p, none) in
    let left =
      poll_repos-IsLeft k (λ e. any (λ t. closed_at listing base.id t e) targets)
        (services_of k p.services) inputs fresh listing fails max_previews base targets (p, none)
        (any-intro (closed_at listing base.id) targets)
        (record { has_row = has; stays = stays; same_services = refl }) in
    (
      (recorded k backoff_at base.id sweep).0 ∙ left.has_row,
      ap (services_of k) (recorded k backoff_at base.id sweep).1 ∙ left.same_services,
    )
