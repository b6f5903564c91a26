-- ===== src/Previews/Discovery.antt =====
-- The sweep over one base environment (apps/backend/src/modules/worker/jobs/pr-preview/job.ts, diff.ts,
-- cap.ts and claim.ts). A forge answers with its open pull requests through `listing`, which may throw;
-- `fails` says which clones throw before their transaction commits.
use text.Mathlib.Text.{◌==◌ as str_eq}
use kubwave.Common.{
  ℕ, String, Bool, true, false, not, ◌&&◌, Option, none, some, List, [], ◌∷◌, ◌==◌, if◌then◌else◌,
  leb, any, select_where, count_where, update_where, or_else, claim_due,
}
use kubwave.Store.{ServiceType, public_repo, github_repo, gitea_repo, Service}
use kubwave.Store.Environments.{Environment, is_preview}
use kubwave.Deployments.Cancel.{Call, returned, thrown}
use kubwave.GitPoll.Schedule.{compute_next_poll_at}
use kubwave.Previews.Plan.{filled}
use kubwave.Previews.Clone.{
  OpenPr, PreviewStore, CloneInputs, clone_preview, teardown_preview, is_number, is_url,
}

abbrev pub has_preview : List Environment → OpenPr → Bool
has_preview existing pr = any (λ e. is_number e.pr_number pr.pr_number) existing

abbrev pub is_open : List OpenPr → Environment → Bool
is_open open_prs e = any (λ pr. is_number e.pr_number pr.pr_number) open_prs

pub record PreviewDiff : Type 0 where
  pub to_create : List OpenPr
  pub to_teardown : List Environment

unfoldable pub diff_previews : List OpenPr → List Environment → PreviewDiff
diff_previews open_prs existing = record {
  to_create = select_where (λ pr. not (has_preview existing pr)) open_prs;
  to_teardown = select_where (λ e. not (is_open open_prs e)) existing;
}

abbrev pub default_max_previews_per_project : ℕ
default_max_previews_per_project = 5

-- The setting, or `none` where it is missing or no integer from 0 on.
unfoldable pub normalize_max_previews : Option ℕ → ℕ
normalize_max_previews raw = or_else raw default_max_previews_per_project

abbrev pub Targets : Type 0
Targets = List (String × Option String)

abbrev pub has_target : String → Targets → Bool
has_target url targets = any (λ t. str_eq t.0 url) targets

abbrev pub is_given : Option String → Bool
is_given none = false
is_given (some t) = true

-- Whether a target has an installation already.
abbrev pub has_installation : String → Targets → Bool
has_installation url [] = false
has_installation url ((u, i) ∷ targets) =
    if str_eq u url then is_given (filled i) else has_installation url targets

-- `targets.set(url, installation)`
abbrev pub set_target : String → Option String → Targets → Targets
set_target url i [] = (url, i) ∷ []
set_target url i ((u, j) ∷ targets) =
    let rest = (u, j) ∷ set_target url i targets in if str_eq u url then (u, i) ∷ targets else rest

abbrev pub with_installation : String → Option String → Targets → Targets
with_installation url i targets =
    if has_installation url targets then targets else set_target url i targets

abbrev pub add_target : ServiceType → String → Option String → Targets → Targets
add_target public_repo url i targets =
    if has_target url targets then targets else set_target url none targets
add_target github_repo url i targets = with_installation url i targets
add_target gitea_repo url i targets = with_installation url i targets
add_target _ url i targets = targets

abbrev pub repo_targets : List Service → Targets → Targets
repo_targets [] targets = targets
repo_targets (svc ∷ rest) targets =
    repo_targets rest
      (add_target svc.type (or_else svc.config.repo_url "") svc.config.installation_id targets)

abbrev pub has_number : Option ℕ → Bool
has_number none = false
has_number (some n) = true

abbrev pub is_preview_of : ℕ → String → Environment → Bool
is_preview_of base url e = is_number e.base_environment_id base && is_url e.pr_repo_url url

abbrev pub existing_previews : ℕ → String → List Environment → List Environment
existing_previews base url environments =
    select_where (λ e. is_preview_of base url e && has_number e.pr_number) environments

abbrev pub is_preview_in : ℕ → Environment → Bool
is_preview_in project e = e.project_id == project && is_preview e.kind

unfoldable pub preview_count_for_project : ℕ → List Environment → ℕ
preview_count_for_project project environments = count_where (is_preview_in project) environments

abbrev pub teardown_each : List Environment → PreviewStore → PreviewStore
teardown_each [] p = p
teardown_each (dead ∷ rest) p = teardown_each rest (teardown_preview dead.id p)

-- Creation stops at the first pull request for which the project has no place left.
unfoldable pub create_each :
    CloneInputs
    → (String → ℕ → Bool)
    → ℕ
    → Environment
    → String
    → List OpenPr
    → PreviewStore
    → PreviewStore
create_each inputs fails max_previews base url [] p = p
create_each inputs fails max_previews base url (pr ∷ rest) p =
    let failed = create_each inputs fails max_previews base url rest p in
    let cloned =
      create_each inputs fails max_previews base url rest (clone_preview inputs base pr url p) in
    if leb max_previews (count_where (is_preview_in base.project_id) p.environments)
    then p
    else if fails url pr.pr_number
    then failed
    else cloned

-- One repository whose open pull requests are known.
unfoldable pub sync_repo :
    CloneInputs
    → (String → ℕ → Bool)
    → ℕ
    → Environment
    → String
    → List OpenPr
    → PreviewStore
    → PreviewStore
unfolding diff_previews create_each
sync_repo inputs fails max_previews base url open_prs p =
    let diff = diff_previews open_prs (existing_previews base.id url p.environments) in
    create_each inputs fails max_previews base url diff.to_create (teardown_each diff.to_teardown p)

-- The previews so far, and the last error of a listing.
abbrev pub Sweep : Type 0
Sweep = PreviewStore × Option String

-- A failed listing is recorded, and its repository skipped.
abbrev pub sync_listed :
    CloneInputs
    → (String → ℕ → Bool)
    → ℕ
    → Environment
    → String
    → Call (List OpenPr)
    → Sweep
    → Sweep
sync_listed inputs fails max_previews base url (thrown message) (p, error) = (p, some message)
sync_listed inputs fails max_previews base url (returned open_prs) (p, error) =
    (sync_repo inputs fails max_previews base url open_prs p, error)

-- The repositories one after another.
abbrev pub poll_repos :
    CloneInputs
    → (String → Option String → Call (List OpenPr))
    → (String → ℕ → Bool)
    → ℕ
    → Environment
    → Targets
    → Sweep
    → Sweep
poll_repos inputs listing fails max_previews base [] sweep = sweep
poll_repos inputs listing fails max_previews base ((url, i) ∷ targets) sweep =
    poll_repos inputs listing fails max_previews base targets
      (sync_listed inputs fails max_previews base url (listing url i) sweep)

abbrev pub set_pr_error : String → ℕ → Environment → Environment
set_pr_error message at e = record e {
  pr_last_poll_error = some message;
  pr_next_poll_at = some at;
}

abbrev pub clear_pr_error : Environment → Environment
clear_pr_error e = record e { pr_last_poll_error = none }

abbrev pub record_poll : ℕ → ℕ → Sweep → PreviewStore
record_poll backoff_at id (p, none) = record p {
  environments = update_where (λ e. e.id == id) clear_pr_error p.environments;
}
record_poll backoff_at id (p, some message) = record p {
  environments = update_where (λ e. e.id == id) (set_pr_error message backoff_at) p.environments;
}

-- The repositories that a sweep of the environment asks for.
abbrev pub targets_of : Environment → PreviewStore → Targets
targets_of base p = repo_targets (select_where (λ svc. svc.environment_id == base.id) p.services) []

unfoldable pub poll_environment :
    CloneInputs
    → (String → Option String → Call (List OpenPr))
    → (String → ℕ → Bool)
    → ℕ
    → ℕ
    → Environment
    → PreviewStore
    → PreviewStore
poll_environment inputs listing fails max_previews backoff_at base p =
    record_poll backoff_at base.id
      (poll_repos inputs listing fails max_previews base (targets_of base p) (p, none))

abbrev pub is_polled_base : Environment → Bool
is_polled_base e = not (is_preview e.kind) && e.pr_previews_enabled

abbrev pub lease_discovery : (ℕ → ℕ → ℕ) → ℕ → ℕ → Environment → Environment → Environment
lease_discovery jitter now interval row e = record e {
  pr_next_poll_at = some (compute_next_poll_at (jitter row.id) now interval);
  pr_last_polled_at = some now;
}

unfoldable pub claim_due_environments :
    (ℕ → ℕ → ℕ) → ℕ → ℕ → ℕ → (ℕ → Bool) → List Environment → List Environment × List Environment
claim_due_environments jitter interval now limit locked environments =
    claim_due (λ e. e.id) (λ e. e.pr_next_poll_at) is_polled_base
      (lease_discovery jitter now interval) now limit locked environments
