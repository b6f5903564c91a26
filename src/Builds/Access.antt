-- ===== src/Builds/Access.antt =====
-- Access of build servers: a registration token works once, and a revoked server is out.
use kubwave.Common.{
  ℕ, ◌≤◌, ◌≡◌, ◌≢◌, ◌∙◌, ap, refl, sym, subst, inl, inr, Bool, true, false, not, ◌&&◌, Option, none,
  some, String, List, [], ◌∷◌, ◌==◌, arith, All, any, update_where, Bool-cases, ltb, if◌then◌else◌,
  find_where,
}
use kubwave.Store.{Store, BuildRun, BuildAgent}
use kubwave.Builds.Runs.{is_text, is_of_agent}
use kubwave.Builds.Agents.{
  reply, api_error, register, is_registration, set_registered, register_reply, authenticate,
  authenticate_reply, revoke_agent, set_revoked, set_run_revoked, is_after, remove_agent,
}

module _ (hash : String → String) where
  register-All :
      (now later : ℕ) (token credential : String) (t : List BuildAgent)
      → now ≤ later
      → All
          (λ a. is_registration hash later token a ≡ false)
          (update_where (is_registration hash now token) (set_registered hash credential) t)
  register-All now later token credential [] le = tt
  register-All now later token credential (a ∷ t) le =
      (step, register-All now later token credential t le)
    where
      step :
          is_registration hash later token
            (if is_registration hash now token a then set_registered hash credential a else a)
          ≡ false
      step = elim (Bool-cases (is_registration hash now token a)) [
        | inl e ↦ rw e refl
        | inr e ↦ rw e (
            expired a.registration_expires_at (is_text a.registration_hash (hash token))
              (not a.revoked) e)
      ]
        where
          expired :
              (o : Option ℕ) (b c : Bool)
              → (b && is_after now o && c) ≡ false
              → (b && is_after later o && c) ≡ false
          expired none b c e = ground arith
          expired (some n) b c e = ground arith

  find_where-none :
      (p : BuildAgent → Bool) (t : List BuildAgent)
      → All (λ x. p x ≡ false) t
      → find_where p t ≡ none
  find_where-none p [] h = refl
  find_where-none p (x ∷ t) (e, h) = rw (e, find_where-none p t h) refl

  -- A registration token works once: whatever came of it, the same token is refused with 401 from
  -- then on.
  pub register-once :
      (now later : ℕ) (token credential another : String) (s : Store)
      → now ≤ later
      → (register hash later token another (register hash now token credential s).0).1
        ≡ api_error 401 "invalid_build_agent_registration"
  unfolding register
  register-once now later token credential another s le = ap (register_reply hash another) (
      find_where-none (is_registration hash later token)
        (update_where (is_registration hash now token) (set_registered hash credential)
          s.build_agents)
        (register-All now later token credential s.build_agents le))

  found-kept :
      (p : BuildAgent → Bool) (t : List BuildAgent) (Q : BuildAgent → Type 0)
      → All (λ a. p a ≡ true → Q a) t
      → (a : BuildAgent) → find_where p t ≡ some a
      → Q a
  found-kept p [] Q h a e = absurd (cc)
  found-kept p (x ∷ t) Q (k, h) a e = elim (Bool-cases (p x)) [
    | inl hit ↦ let same : x ≡ a = ground arith in subst Q same (k hit)
    | inr miss ↦ found-kept p t Q h a (ground arith)
  ]

  revoked-All :
      (id : ℕ) (token : String) (t : List BuildAgent)
      → All
          (λ a. (is_text a.token_hash (hash token) && not a.revoked) ≡ true → a.id ≢ id)
          (update_where (λ a. a.id == id) set_revoked t)
  revoked-All id token [] = tt
  revoked-All id token (a ∷ t) = (
    elim (Bool-cases (a.id == id)) [
      | inl e ↦ rw e (λ k. absurd (cc))
      | inr e ↦ rw e (λ k same. absurd (ground arith))
    ],
    revoked-All id token t,
  )

  revoked-agents :
      (now id : ℕ) (s : Store)
      → any (λ a. a.id == id) s.build_agents ≡ true
      → (revoke_agent now id s).0.build_agents
        ≡ update_where (λ a. a.id == id) set_revoked s.build_agents
  unfolding revoke_agent
  revoked-agents now id s known = rw known refl

  if-reply :
      (b : Bool) (e : String) (o : Option BuildAgent) (n : ℕ)
      → (if b then api_error 401 e else authenticate_reply hash o) ≡ reply n
      → (a : BuildAgent) × (o ≡ some a) × (a.id ≡ n)
  if-reply true e o n h = absurd (cc)
  if-reply false e none n h = absurd (cc)
  if-reply false e (some a) n h = (a, refl, cc)

  -- No token authenticates as a build server of the table once that is revoked.
  pub revoke_agent-authenticate :
      (size : String → ℕ) (now id : ℕ) (token : String) (s : Store)
      → any (λ a. a.id == id) s.build_agents ≡ true
      → authenticate hash size token (revoke_agent now id s).0 ≢ reply id
  unfolding authenticate
  revoke_agent-authenticate size now id token s known h =
      let (a, e, same) = if-reply (ltb 200 (size token)) "invalid_build_agent_token" _ id h in
      found-kept (λ a. is_text a.token_hash (hash token) && not a.revoked)
        (update_where (λ a. a.id == id) set_revoked s.build_agents) (λ a. a.id ≢ id)
        (revoked-All id token s.build_agents) a
        (ap (find_where (λ a. is_text a.token_hash (hash token) && not a.revoked))
            (sym (revoked-agents now id s known))
          ∙ e)
        same

revoked-runs :
    (now id : ℕ) (t : List BuildRun)
    → any (is_of_agent id) (update_where (is_of_agent id) (set_run_revoked now) t) ≡ false
revoked-runs now id [] = refl
revoked-runs now id (r ∷ t) = ground (arith, revoked-runs now id t)

-- Revoking a build server of the table leaves it no active run, and its removal is then accepted.
revoke_agent-remove :
    (now id : ℕ) (s : Store)
    → any (λ a. a.id == id) s.build_agents ≡ true
    → (any (is_of_agent id) (revoke_agent now id s).0.build_runs ≡ false)
      × ((remove_agent id (revoke_agent now id s).0).1 ≡ reply true)
unfolding revoke_agent remove_agent
revoke_agent-remove now id s known = rw (known, revoked-runs now id s.build_runs) (refl, refl)
