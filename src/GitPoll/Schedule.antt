-- ===== src/GitPoll/Schedule.antt =====
-- When a service is polled next (apps/backend/src/modules/worker/jobs/git-poll/schedule.ts). The random
-- factor and its rounding are a parameter: `jitter seconds` is `Math.round(seconds * factor * 1000)`.
use kubwave.Common.{ℕ, ◌+◌, ◌*◌, ltb, ◌≤◌, if◌then◌else◌}

-- `Math.max(a, b)`
abbrev pub greater : ℕ → ℕ → ℕ
greater a b = if ltb a b then b else a

unfoldable pub compute_next_poll_at : (ℕ → ℕ) → ℕ → ℕ → ℕ
compute_next_poll_at jitter now interval_seconds = now + jitter (greater 1 interval_seconds)

unfoldable pub compute_backoff_at : (ℕ → ℕ) → ℕ → ℕ → ℕ → ℕ
unfolding compute_next_poll_at
compute_backoff_at jitter now interval_seconds backoff_seconds =
    compute_next_poll_at jitter now
      (greater (greater 1 interval_seconds) (greater 1 backoff_seconds))

-- With a jitter ratio of 0.2 a delay is not below four fifths of the seconds asked for.
abbrev pub IsJitter : (ℕ → ℕ) → Type 0
IsJitter jitter = (seconds : ℕ) → 800 * seconds ≤ jitter seconds
