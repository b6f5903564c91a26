-- ===== src/GitPoll/Claim.antt =====
-- The claim of services that are due for a poll
-- (apps/backend/src/modules/worker/jobs/git-poll/claim.ts). `locked` are the rows that other workers
-- hold; `jitter` draws for each row.
use kubwave.Common.{ℕ, Bool, true, false, ◌&&◌, some, List, claim_due, KeepsTimes}
use kubwave.Store.{ServiceType, public_repo, private_repo, github_repo, gitea_repo, Service}
use kubwave.GitPoll.Schedule.{compute_next_poll_at}

abbrev pub is_pollable_type : ServiceType → Bool
is_pollable_type public_repo = true
is_pollable_type private_repo = true
is_pollable_type github_repo = true
is_pollable_type gitea_repo = true
is_pollable_type _ = false

abbrev pub is_polled : Service → Bool
is_polled s = s.auto_deploy_enabled && is_pollable_type s.type

abbrev pub lease_poll : (ℕ → ℕ → ℕ) → ℕ → ℕ → Service → Service → Service
lease_poll jitter now interval row s = record s {
  next_poll_at = some (compute_next_poll_at (jitter row.id) now interval);
  last_polled_at = some now;
}

unfoldable pub claim_due_services :
    (ℕ → ℕ → ℕ) → ℕ → ℕ → ℕ → (ℕ → Bool) → List Service → List Service × List Service
claim_due_services jitter interval now limit locked services =
    claim_due (λ s. s.id) (λ s. s.next_poll_at) is_polled (lease_poll jitter now interval) now limit
      locked services

-- Each service of the later table has its id and its polling time in the first one: since then no
-- webhook, no switch of the automatic deployment and no failed poll has set another time.
abbrev pub KeepsPollTimes : List Service → List Service → Type 0
KeepsPollTimes services later =
    KeepsTimes (λ s. s.id) (λ s. s.next_poll_at) is_polled services later
