-- ===== src/Builds/Limits.antt =====
-- The cluster's limit on builds, and what a build server may run at once.
use kubwave.Common.{
  ℕ, suc, ◌≤◌, ◌≡◌, inl, inr, max, Bool, true, false, Option, none, some, String, ◌==◌, arith,
  All-intro, UniqueKeys, count_where, count-update-le, Bool-cases, leb, if◌then◌else◌, find_where,
  or_else,
}
use kubwave.Store.{Store, BuildRun, BuildAgent, BuildSettings, cluster, agent, is_queued}
use kubwave.Builds.Runs.{
  agent_available, Placement, nowhere, at_cluster, at_agent, place, is_on_cluster, set_reserved,
  reserve_at, reserve_found, reserve_build_run, find_run,
}
use kubwave.Builds.Agents.{Reply}
use kubwave.Builds.Tasks.{
  AgentTask, claim, claim_at, lease_next, lease_ciphertext, lease_payload, next_task, set_leased,
  is_running_at,
}
use kubwave.Builds.Capacity.{count-update-one}

reserve_at-cluster :
    (now : ℕ) (live : BuildSettings) (pl : Placement) (r : BuildRun) (s : Store)
    → UniqueKeys (λ x. x.id) s.build_runs
    → count_where is_on_cluster (reserve_at now live pl r s).0.build_runs
      ≤ max live.max_concurrent_builds (count_where is_on_cluster s.build_runs)
reserve_at-cluster now live nowhere r s u = omega arith
reserve_at-cluster now live (at_agent id) r s u = omega (
  arith,
  count-update-le is_on_cluster (λ (x : BuildRun). x.id == r.id) (set_reserved now agent (some id))
      s.build_runs
      (All-intro
        (λ x.
          (x.id == r.id) ≡ true
          → is_on_cluster (set_reserved now agent (some id) x) ≡ true
          → is_on_cluster x ≡ true)
        (λ x h g. ground arith) s.build_runs),
)
reserve_at-cluster now live at_cluster r s u =
    elim (Bool-cases (leb live.max_concurrent_builds (count_where is_on_cluster s.build_runs))) [
      | inl e ↦ rw e (omega arith)
      | inr e ↦ rw e (
          ground (
            arith,
            count-update-one is_on_cluster (set_reserved now cluster none) r s.build_runs u,
          ))
    ]

-- Where ids of runs are unique, reserving a run leaves at most as many active runs on the cluster
-- as the configured limit, or as many as there were before, also when a run falls back from a
-- build server.
pub reserve_build_run-cluster :
    (now : ℕ) (live : BuildSettings) (architecture : String) (id : ℕ) (s : Store)
    → UniqueKeys (λ x. x.id) s.build_runs
    → count_where is_on_cluster (reserve_build_run now live architecture id s).0.build_runs
      ≤ max live.max_concurrent_builds (count_where is_on_cluster s.build_runs)
unfolding reserve_build_run
reserve_build_run-cluster now live architecture id s u = go (find_run id s.build_runs)
  where
    bounded : Store × Option BuildRun → Type 0
    bounded x =
        count_where is_on_cluster x.0.build_runs
        ≤ max live.max_concurrent_builds (count_where is_on_cluster s.build_runs)

    pick :
        (b : Bool) (x y : Store × Option BuildRun)
        → bounded x
        → bounded y
        → bounded (if b then x else y)
    pick true x y h k = h
    pick false x y h k = k

    go : (o : Option BuildRun) → bounded (reserve_found now live architecture o s)
    go none = omega arith
    go (some r) =
        pick (is_queued r.status) (reserve_at now live (place now architecture r.execution r s) r s)
          (s, none) (reserve_at-cluster now live (place now architecture r.execution r s) r s u)
          (omega arith)

module _ (hash : String → String) (decrypt : String → Option String) (now : ℕ) (token : String)
    (s : Store) (u : UniqueKeys (λ x. x.id) s.build_runs) where
  -- What an agent runs after a step that answers `x`.
  abbrev RunsAtMost : BuildAgent → Store × Reply (Option AgentTask) → Type 0
  RunsAtMost a x =
      count_where (is_running_at hash a.id) x.0.build_runs
      ≤ max a.max_concurrent_builds (count_where (is_running_at hash a.id) s.build_runs)

  lease_ciphertext-RunsAtMost :
      (a : BuildAgent) (r : BuildRun) (o : Option String)
      → RunsAtMost a (lease_ciphertext hash decrypt now token a r o s)
  lease_ciphertext-RunsAtMost a r none = omega arith
  lease_ciphertext-RunsAtMost a r (some text) =
      elim (Bool-cases
        (leb a.max_concurrent_builds (count_where (is_running_at hash a.id) s.build_runs))) [
          | inl full ↦ rw full (omega arith)
          | inr room ↦ rw room (payload (decrypt text) (ground arith))
        ]
    where
      payload :
          (o : Option String)
          → suc (count_where (is_running_at hash a.id) s.build_runs) ≤ a.max_concurrent_builds
          → RunsAtMost a (lease_payload hash decrypt now token r o s)
      payload none lt = omega arith
      payload (some p) lt = omega (
        arith,
        count-update-one (is_running_at hash a.id) (set_leased hash now token) r s.build_runs u,
      )

  lease_next-RunsAtMost :
      (a : BuildAgent) (o : Option BuildRun)
      → RunsAtMost a (lease_next hash decrypt now token a o s)
  lease_next-RunsAtMost a none = omega arith
  lease_next-RunsAtMost a (some r) = lease_ciphertext-RunsAtMost a r r.payload_ciphertext

  claim_at-RunsAtMost :
      (is_locked : ℕ → Bool) (a : BuildAgent)
      → RunsAtMost a (claim_at hash decrypt now token is_locked (some a) s)
  claim_at-RunsAtMost is_locked a =
      elim (Bool-cases (agent_available now a (or_else a.architecture ""))) [
        | inl e ↦ rw e (lease_next-RunsAtMost a (next_task hash now a.id is_locked s))
        | inr e ↦ rw e (omega arith)
      ]

  -- Where ids of runs are unique, a build server of the table that claims a task then runs at most
  -- as many as its limit, or as many as it ran before.
  pub claim-limit :
      (id : ℕ) (is_locked : ℕ → Bool) (a : BuildAgent)
      → find_where (λ x. x.id == id) s.build_agents ≡ some a
      → count_where
          (is_running_at hash a.id)
          (claim hash decrypt now token id is_locked s).0.build_runs
        ≤ max a.max_concurrent_builds (count_where (is_running_at hash a.id) s.build_runs)
  unfolding claim
  claim-limit id is_locked a e = rw e (claim_at-RunsAtMost is_locked a)
