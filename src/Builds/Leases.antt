-- ===== src/Builds/Leases.antt =====
-- A build server's reports count only while it holds the task; access ends when it is revoked.
use kubwave.Common.{
  ℕ, ◌≡◌, ap, refl, inl, inr, Bool, true, false, ◌&&◌, Option, none, some, String, List, [], ◌∷◌,
  ◌==◌, arith, All, All-map, any, update_where, update-none, Bool-cases, if◌then◌else◌, find_where,
}
use kubwave.Store.{Store, Deployment, BuildRun}
use kubwave.Builds.Runs.{is_number, is_text}
use kubwave.Builds.Agents.{Reply, reply, api_error}
use kubwave.Builds.Tasks.{TaskRef, is_active_task}
use kubwave.Builds.Results.{
  LogLine, active_task, report_source, is_source_of, set_source, report_logs, write_logs,
  report_result, write_result, is_completed, set_result, result_error,
}

module _ {ℓ} {A : Type ℓ} where
  any_none : (p : A → Bool) (t : List A) → All (λ x. p x ≡ false) t → any p t ≡ false
  any_none p [] h = refl
  any_none p (x ∷ t) (e, h) = rw (e, any_none p t h) refl

  find_none : (p : A → Bool) (t : List A) → All (λ x. p x ≡ false) t → find_where p t ≡ none
  find_none p [] h = refl
  find_none p (x ∷ t) (e, h) = rw (e, find_none p t h) refl

  -- What an update makes of a row that meets its condition is in the table after it.
  any-update :
      (p q : A → Bool) (f : A → A) (t : List A)
      → ((x : A) → p x ≡ true → q (f x) ≡ true)
      → any p t ≡ true
      → any q (update_where p f t) ≡ true
  any-update p q f [] h e = e
  any-update p q f (x ∷ t) h e = elim (Bool-cases (p x)) [
    | inl hit ↦ rw (hit, h x hit) refl
    | inr miss ↦ ground (arith, any-update p q f t h (ground arith))
  ]

module _ (hash : String → String) (redact : Option String → String → String) where
  -- The agent holds the task: the run is at this attempt, under this token and agent.
  abbrev pub holds : ℕ → TaskRef → BuildRun → Bool
  holds agent_id task r =
      r.id == task.id
      && is_number r.agent_id agent_id
      && r.attempt == task.attempt
      && is_text r.lease_token_hash (hash task.lease_token)

  -- The reply that a report without a valid lease gets, with nothing written.
  abbrev Rejected : Store → Store × Reply Bool
  Rejected s = (s, api_error 409 "build_attempt_expired")

  module _ (now agent_id : ℕ) (task : TaskRef) (s : Store)
      (h : All (λ r. holds agent_id task r ≡ false) s.build_runs) where
    inactive : All (λ r. is_active_task hash now agent_id task s.deployments r ≡ false) s.build_runs
    inactive =
        All-map (λ r. holds agent_id task r ≡ false)
          (λ r. is_active_task hash now agent_id task s.deployments r ≡ false) s.build_runs
          (λ r k. ground arith) h

    active_task-none : active_task hash now agent_id task s ≡ none
    unfolding active_task
    active_task-none =
        find_none (is_active_task hash now agent_id task s.deployments) s.build_runs inactive

    source-rejected : (commit : String) → report_source hash now agent_id task commit s ≡ Rejected s
    unfolding report_source
    source-rejected commit =
        let p = is_source_of hash now agent_id task commit s in
        let miss =
          All-map (λ r. holds agent_id task r ≡ false) (λ r. p r ≡ false) s.build_runs
            (λ r k. ground arith) h in
        rw (any_none p s.build_runs miss, update-none p (set_source hash commit) s.build_runs miss)
          refl

    logs-rejected :
        (lines : List LogLine) → report_logs hash redact now agent_id task lines s ≡ Rejected s
    unfolding report_logs
    logs-rejected lines = ap (λ o. write_logs hash redact lines o s) active_task-none

    result-rejected :
        (success : Bool) (message : Option String)
        → report_result hash redact now agent_id task success message s ≡ Rejected s
    unfolding report_result
    result-rejected success message =
        let miss =
          All-map (λ r. holds agent_id task r ≡ false)
            (λ r. is_completed hash redact agent_id task success r ≡ false) s.build_runs
            (λ r k. ground arith) h in
        rw (any_none (is_completed hash redact agent_id task success) s.build_runs miss) (
          ap (λ o. write_result hash redact now agent_id task success message o s) active_task-none)

    -- A build server that holds no run at the attempt and under the token that it names, as after
    -- its lease went to another attempt, is answered 409 to its reports of the source, of logs and
    -- of the result, and nothing is written.
    pub reports-rejected :
        (commit : String) (lines : List LogLine) (success : Bool) (message : Option String)
        → (report_source hash now agent_id task commit s
            ≡ (s, api_error 409 "build_attempt_expired"))
          × (report_logs hash redact now agent_id task lines s
              ≡ (s, api_error 409 "build_attempt_expired"))
          × (report_result hash redact now agent_id task success message s
              ≡ (s, api_error 409 "build_attempt_expired"))
    reports-rejected commit lines success message =
        (source-rejected commit, logs-rejected lines, result-rejected success message)

  set_result-completed :
      (now agent_id : ℕ) (task : TaskRef) (success : Bool) (e : Option String)
      (ds : List Deployment) (r : BuildRun)
      → is_active_task hash now agent_id task ds r ≡ true
      → is_completed hash redact agent_id task success (set_result hash redact now success e r)
        ≡ true
  set_result-completed now agent_id task true e ds r h = ground arith
  set_result-completed now agent_id task false e ds r h = ground arith

  write_result-completed :
      (now agent_id : ℕ) (task : TaskRef) (success : Bool) (message : Option String)
      (o : Option BuildRun) (s : Store)
      → (write_result hash redact now agent_id task success message o s).1 ≡ reply true
      → any
          (is_completed hash redact agent_id task success)
          (write_result hash redact now agent_id task success message o s).0.build_runs
        ≡ true
  write_result-completed now agent_id task success message none s ok = absurd (cc)
  write_result-completed now agent_id task success message (some run) s ok =
      any-update (is_active_task hash now agent_id task s.deployments)
        (is_completed hash redact agent_id task success)
        (set_result hash redact now success (result_error hash redact success message run))
        s.build_runs
        (set_result-completed now agent_id task success
          (result_error hash redact success message run) s.deployments)
        (accepted (any (is_active_task hash now agent_id task s.deployments) s.build_runs) ok)
    where
      accepted :
          (b : Bool)
          → (if b then reply true else api_error 409 "build_attempt_expired") ≡ reply true
          → b ≡ true
      accepted true e = refl
      accepted false e = absurd (cc)

  accepted-completed :
      (now agent_id : ℕ) (task : TaskRef) (success : Bool) (message : Option String) (s : Store)
      → (report_result hash redact now agent_id task success message s).1 ≡ reply true
      → any
          (is_completed hash redact agent_id task success)
          (report_result hash redact now agent_id task success message s).0.build_runs
        ≡ true
  unfolding report_result
  accepted-completed now agent_id task success message s =
      go (any (is_completed hash redact agent_id task success) s.build_runs) refl
    where
      go :
          (b : Bool)
          → any (is_completed hash redact agent_id task success) s.build_runs ≡ b
          → (if b
              then (s, reply true)
              else write_result hash redact now agent_id task success message
                  (active_task hash now agent_id task s)
                  s).1
            ≡ reply true
          → any
              (is_completed hash redact agent_id task success)
              (if b
                then (s, reply true)
                else write_result hash redact now agent_id task success message
                    (active_task hash now agent_id task s)
                    s).0.build_runs
            ≡ true
      go true e ok = e
      go false e ok =
          write_result-completed now agent_id task success message
            (active_task hash now agent_id task s) s ok

  completed-accepted :
      (now agent_id : ℕ) (task : TaskRef) (success : Bool) (message : Option String) (t : Store)
      → any (is_completed hash redact agent_id task success) t.build_runs ≡ true
      → report_result hash redact now agent_id task success message t ≡ (t, reply true)
  unfolding report_result
  completed-accepted now agent_id task success message t e = rw e refl

  -- A result that was accepted may be reported again, at any time and with any message: it is
  -- accepted then too, and changes nothing.
  pub report_result-repeat :
      (now later agent_id : ℕ) (task : TaskRef) (success : Bool) (message again : Option String)
      (s : Store)
      → (report_result hash redact now agent_id task success message s).1 ≡ reply true
      → report_result hash redact later agent_id task success again
          (report_result hash redact now agent_id task success message s).0
        ≡ ((report_result hash redact now agent_id task success message s).0, reply true)
  report_result-repeat now later agent_id task success message again s ok =
      completed-accepted later agent_id task success again _
        (accepted-completed now agent_id task success message s ok)
