-- ===== src/Builds/Agents.antt =====
-- Build servers: registration, settings, revocation
-- (apps/backend/src/modules/build-agents/build-agents.service.ts). The hash of a token and
-- fresh tokens come from node:crypto: `hash` and token arguments.
use kubwave.Common.{
  ℕ, String, Bool, true, false, not, ◌&&◌, Option, none, some, ◌==◌, ltb, if◌then◌else◌, any,
  select_where, update_where, find_where,
}
use kubwave.Store.{Store, BuildRun, BuildAgent, failed}
use kubwave.Builds.Runs.{is_number, is_text, is_of_agent}

-- An HTTP error, or what the handler returns.
pub data Reply {ℓ} (A : Type ℓ) : Type ℓ where
  reply : A → Reply A
  api_error : ℕ → String → Reply A

abbrev pub is_after : ℕ → Option ℕ → Bool
is_after now none = false
is_after now (some t) = ltb now t

abbrev pub is_agent : ℕ → BuildAgent → Bool
is_agent id a = a.id == id && not a.revoked

pub record UpdateInput : Type 0 where
  pub paused : Bool
  pub max_concurrent_builds : ℕ

abbrev pub set_agent : UpdateInput → BuildAgent → BuildAgent
set_agent input a = record a {
  paused = input.paused;
  max_concurrent_builds = input.max_concurrent_builds;
}

unfoldable pub update_agent : ℕ → UpdateInput → Store → Store × Reply Bool
update_agent id input s = (
  record s { build_agents = update_where (is_agent id) (set_agent input) s.build_agents },
  if any (is_agent id) s.build_agents then reply true else api_error 404 "build_agent_not_found",
)

abbrev pub set_revoked : BuildAgent → BuildAgent
set_revoked a = record a { revoked = true; token_hash = none; registration_hash = none }

abbrev pub set_run_revoked : ℕ → BuildRun → BuildRun
set_run_revoked now r = record r {
  status = failed;
  last_error = some "Build server access revoked.";
  payload_ciphertext = none;
  lease_token_hash = none;
  finished_at = some now;
}

-- A throw rolls the transaction back.
unfoldable pub revoke_agent : ℕ → ℕ → Store → Store × Reply Bool
revoke_agent now id s =
    if any (λ a. a.id == id) s.build_agents
    then (
      record s {
        build_agents = update_where (λ a. a.id == id) set_revoked s.build_agents;
        build_runs = update_where (is_of_agent id) (set_run_revoked now) s.build_runs;
      },
      reply true,
    )
    else (s, api_error 404 "build_agent_not_found")

-- The row goes, and what referred to it refers to nothing (`onDelete: 'set null'`).
unfoldable pub remove_agent : ℕ → Store → Store × Reply Bool
remove_agent id s =
    if any (is_of_agent id) s.build_runs
    then (s, api_error 409 "build_agent_has_active_builds")
    else (
      record s {
        build_agents = select_where (λ a. not (a.id == id)) s.build_agents;
        build_runs =
            update_where (λ r. is_number r.agent_id id) (λ r. record r { agent_id = none })
              s.build_runs;
      },
      reply true,
    )

module _ (hash : String → String) where
  abbrev pub is_registration : ℕ → String → BuildAgent → Bool
  is_registration now token a =
      is_text a.registration_hash (hash token)
      && is_after now a.registration_expires_at
      && not a.revoked

  abbrev pub set_registered : String → BuildAgent → BuildAgent
  set_registered credential a = record a {
    token_hash = some (hash credential);
    registration_hash = none;
    registration_expires_at = none;
  }

  abbrev pub register_reply : String → Option BuildAgent → Reply (ℕ × String)
  register_reply credential none = api_error 401 "invalid_build_agent_registration"
  register_reply credential (some a) = reply (a.id, credential)

  -- `credential` is the fresh token.
  unfoldable pub register : ℕ → String → String → Store → Store × Reply (ℕ × String)
  register now token credential s = (
    record s {
      build_agents =
          update_where (is_registration now token) (set_registered credential) s.build_agents;
    },
    register_reply credential (find_where (is_registration now token) s.build_agents),
  )

  abbrev pub authenticate_reply : Option BuildAgent → Reply ℕ
  authenticate_reply none = api_error 401 "invalid_build_agent_token"
  authenticate_reply (some a) = reply a.id

  -- `length` counts the token's characters.
  unfoldable pub authenticate : (String → ℕ) → String → Store → Reply ℕ
  authenticate length token s =
      if ltb 200 (length token)
      then api_error 401 "invalid_build_agent_token"
      else authenticate_reply
          (find_where (λ a. is_text a.token_hash (hash token) && not a.revoked) s.build_agents)
