-- ===== src/Updates/Pods.antt =====
-- What the update reconciler reads of the update job's pod
-- (apps/backend/src/modules/worker/jobs/updates/logs.ts).
use kubwave.Common.{
  ℕ, String, Bool, true, false, not, ◌&&◌, ◌||◌, Option, none, some, List, [], ◌∷◌, ◌++◌, ◌==◌,
  has_word, if◌then◌else◌, find_where, map, ◌<>◌, decimal, is_empty, or_else,
}
use text.Mathlib.Text.{◌==◌ as str_eq}

pub record Terminated : Type 0 where
  pub exit_code : ℕ
  pub reason : Option String
  pub message : Option String

pub record Waiting : Type 0 where
  pub reason : Option String
  pub message : Option String

pub record ContainerStatus : Type 0 where
  pub name : String
  pub running : Bool
  pub terminated : Option Terminated
  pub waiting : Option Waiting
  pub last_terminated : Bool

pub record Pod : Type 0 where
  pub init_containers : List String
  pub containers : List String
  pub init_statuses : List ContainerStatus
  pub statuses : List ContainerStatus

pub record ContainerLogTarget : Type 0 where
  pub name : String
  pub failed : Bool
  pub readable : Bool
  pub complete : Bool
  pub reason : Option String
  pub message : Option String

-- A text that is there and not empty, as JavaScript's truth tests it.
abbrev pub is_truthy : Option String → Bool
is_truthy none = false
is_truthy (some text) = not (is_empty text)

-- `[a, b].filter(Boolean).join(': ')`
abbrev pub join_details : Option String → Option String → String
join_details none none = ""
join_details (some a) none = a
join_details none (some b) = b
join_details (some a) (some b) = if is_empty a then b else if is_empty b then a else a <> ": " <> b

-- `/BackOff|Err|Invalid|Failed/i`
abbrev pub is_failure_word : String → Bool
is_failure_word s =
    has_word "BackOff" s || has_word "Err" s || has_word "Invalid" s || has_word "Failed" s

abbrev pub terminated_reason : Terminated → String
terminated_reason t =
    if is_truthy t.reason
    then or_else t.reason "" <> " (exit " <> decimal t.exit_code <> ")"
    else "exit " <> decimal t.exit_code

abbrev pub failing_reason : Option String → Option String
failing_reason none = none
failing_reason (some text) = if not (is_empty text) && is_failure_word text then some text else none

abbrev pub waiting_reason : Option Waiting → Option String
waiting_reason none = none
waiting_reason (some w) = failing_reason w.reason

abbrev pub status_failure : ContainerStatus → Option Terminated → Option String
status_failure s none = waiting_reason s.waiting
status_failure s (some t) =
    if not (t.exit_code == 0) then some (terminated_reason t) else waiting_reason s.waiting

unfoldable pub container_failure_reason : Option ContainerStatus → Option String
container_failure_reason none = none
container_failure_reason (some s) = status_failure s s.terminated

abbrev pub is_some {ℓ} : {A : Type ℓ} → Option A → Bool
is_some none = false
is_some (some a) = true

unfoldable pub has_readable_logs : Option ContainerStatus → Bool
has_readable_logs none = false
has_readable_logs (some s) = s.running || is_some s.terminated || s.last_terminated

abbrev pub exited_well : Option Terminated → Bool
exited_well none = false
exited_well (some t) = t.exit_code == 0

unfoldable pub is_container_complete : Option ContainerStatus → Bool
is_container_complete none = false
is_container_complete (some s) = exited_well s.terminated

abbrev pub waiting_message : Option Waiting → Option String
waiting_message none = none
waiting_message (some w) = w.message

abbrev pub terminated_message : Option Terminated → Option String
terminated_message none = none
terminated_message (some t) = t.message

unfoldable pub container_message : Option ContainerStatus → Option String
container_message none = none
container_message (some s) =
    if is_truthy (terminated_message s.terminated)
    then terminated_message s.terminated
    else waiting_message s.waiting

-- The map by name: a later status replaces an earlier one.
unfoldable pub status_of : String → List ContainerStatus → Option ContainerStatus
status_of name [] = none
status_of name (s ∷ ss) = elim (status_of name ss) [
  | none ↦ if str_eq s.name name then some s else none
  | some t ↦ some t
]

unfoldable pub log_target : List ContainerStatus → String → ContainerLogTarget
unfolding container_failure_reason has_readable_logs is_container_complete container_message
    status_of
log_target statuses name =
    let status = status_of name statuses in
    record {
      name = name;
      failed = is_some (container_failure_reason status);
      readable = has_readable_logs status;
      complete = is_container_complete status;
      reason = container_failure_reason status;
      message = container_message status;
    }

unfoldable pub plan_container_logs : Pod → List ContainerLogTarget
unfolding log_target
plan_container_logs pod =
    map (log_target (pod.init_statuses ++ pod.statuses)) (pod.init_containers ++ pod.containers)

pub record ContainerFailure : Type 0 where
  pub phase : String
  pub message : String

abbrev pub map_option : {A B : Type 0} → (A → B) → Option A → Option B
map_option f none = none
map_option f (some a) = some (f a)

abbrev pub failure_of : ContainerLogTarget → ContainerFailure
failure_of t =
    let detail = join_details t.reason t.message in
    record {
      phase = t.name;
      message =
          if is_empty detail
          then "Update container \"" <> t.name <> "\" failed."
          else "Update container \"" <> t.name <> "\" failed: " <> detail;
    }

unfoldable pub describe_failed_container : Pod → Option ContainerFailure
unfolding plan_container_logs
describe_failed_container pod =
    map_option failure_of (find_where (λ t. t.failed) (plan_container_logs pod))

unfoldable pub current_update_phase : Pod → Option String
unfolding plan_container_logs
current_update_phase pod =
    map_option (λ t. t.name) (find_where (λ t. not t.complete) (plan_container_logs pod))
