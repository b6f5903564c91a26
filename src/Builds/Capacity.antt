-- ===== src/Builds/Capacity.antt =====
-- Builds never run above the limits: an agent's own, and the cluster's.
use kubwave.Common.{
  ℕ, suc, ◌≤◌, ◌<◌, ◌≡◌, refl, inl, inr, max, Bool, true, false, Option, none, some, String, List,
  [], ◌∷◌, ◌==◌, arith, All, All-map, All-intro, All-select, UniqueKeys, IsOnly, unique_rows,
  update_where, sort_with, insert_with, count_where, count-update-add, count-update-le, Bool-cases,
  leb, if◌then◌else◌,
}
use kubwave.Store.{Store, BuildRun, BuildAgent, BuildSettings, Execution, cluster, agent, is_queued}
use kubwave.Builds.Runs.{
  agent_available, is_of_agent, occupancy, has_room, is_less_busy, pick_agent, Placement, nowhere,
  at_cluster, at_agent, place, place_agent, may_fall_back, is_on_cluster, set_reserved, is_number,
  reserve_at, reserve_as, reserve_found, reserve_build_run, find_run,
}
use kubwave.Builds.Writes.{find_where-All}

All-insert_with {ℓ κ} :
    {A : Type ℓ} (P : A → Type κ) (le : A → A → Bool) (x : A) (xs : List A)
    → P x
    → All P xs
    → All P (insert_with le x xs)
All-insert_with P le x [] k h = (k, tt)
All-insert_with P le x (y ∷ ys) k (l, h) = elim (Bool-cases (le x y)) [
  | inl e ↦ rw e (k, (l, h))
  | inr e ↦ rw e (l, All-insert_with P le x ys k h)
]

All-sort_with {ℓ κ} :
    {A : Type ℓ} (P : A → Type κ) (le : A → A → Bool) (xs : List A)
    → All P xs
    → All P (sort_with le xs)
All-sort_with P le [] h = tt
All-sort_with P le (x ∷ xs) (k, h) =
    All-insert_with P le x (sort_with le xs) k (All-sort_with P le xs h)

-- An update of one row adds at most one to any count.
pub count-update-one :
    (q : BuildRun → Bool) (f : BuildRun → BuildRun) (r : BuildRun) (t : List BuildRun)
    → UniqueKeys (λ x. x.id) t
    → count_where q (update_where (λ x. x.id == r.id) f t) ≤ suc (count_where q t)
count-update-one q f r t u =
    omega (arith, count-update-add q (λ (x : BuildRun). x.id == r.id) f t, u r.id)

-- The agent that is picked is one of the table, is available, and has room.
pub pick_agent-found :
    (now : ℕ) (architecture : String) (s : Store) (a : BuildAgent)
    → pick_agent now architecture s ≡ some a
    → UniqueKeys (λ x. x.id) s.build_agents
    → IsOnly (λ x. x.id) s.build_agents a
      × (agent_available now a architecture ≡ true)
      × (occupancy s.build_runs a.id < a.max_concurrent_builds)
unfolding pick_agent
pick_agent-found now architecture s a e u =
    let P = λ (x : BuildAgent).
      IsOnly (λ y. y.id) s.build_agents x × (agent_available now x architecture ≡ true) in
    let hit = find_where-All P (has_room s.build_runs) _ e (
      All-sort_with P (is_less_busy s.build_runs) _ (
        All-select (IsOnly (λ y. y.id) s.build_agents) (λ a. agent_available now a architecture)
          s.build_agents (unique_rows (λ y. y.id) s.build_agents u))) in
    (hit.0.0, hit.0.1, ground (arith, hit.1))

-- Where a run is placed, its agent has room.
abbrev HasRoomAt : Store → BuildAgent → Placement → Type 0
HasRoomAt s a nowhere = Unit
HasRoomAt s a at_cluster = Unit
HasRoomAt s a (at_agent id) = a.id ≡ id → occupancy s.build_runs a.id < a.max_concurrent_builds

place_agent-room :
    (now : ℕ) (r : BuildRun) (o : Option BuildAgent) (s : Store) (a : BuildAgent)
    → ((x : BuildAgent)
        → o ≡ some x
        → (a.id ≡ x.id → a ≡ x) × (occupancy s.build_runs x.id < x.max_concurrent_builds))
    → HasRoomAt s a (place_agent now r o)
place_agent-room now r none s a h = elim (Bool-cases (may_fall_back now r)) [
  | inl e ↦ rw e tt
  | inr e ↦ rw e tt
]
place_agent-room now r (some x) s a h =
    λ e. let same : a ≡ x = (h x refl).0 e in rw same ((h x refl).1)

-- The lookup of one agent, from the whole table.
IsOnly-at :
    (t : List BuildAgent)
    → UniqueKeys (λ x. x.id) t
    → All (λ a. (x : BuildAgent) → IsOnly (λ y. y.id) t x → a.id ≡ x.id → a ≡ x) t
IsOnly-at t u = go t
  where
    go :
        (v : List BuildAgent)
        → All (λ a. (x : BuildAgent) → IsOnly (λ y. y.id) v x → a.id ≡ x.id → a ≡ x) v
    go [] = tt
    go (a ∷ v) = (
      (λ x h e. h.0 e),
      All-map (λ b. (x : BuildAgent) → IsOnly (λ y. y.id) v x → b.id ≡ x.id → b ≡ x)
          (λ b. (x : BuildAgent) → IsOnly (λ y. y.id) (a ∷ v) x → b.id ≡ x.id → b ≡ x) v
          (λ b k x h e. k x h.1 e) (go v),
    )

place-room :
    (now : ℕ) (architecture : String) (e : Execution) (r : BuildRun) (s : Store)
    → UniqueKeys (λ x. x.id) s.build_agents
    → All (λ a. HasRoomAt s a (place now architecture e r s)) s.build_agents
place-room now architecture cluster r s u = All-intro (λ a. Unit) (λ a. tt) s.build_agents
place-room now architecture agent r s u =
    All-map (λ a. (x : BuildAgent) → IsOnly (λ y. y.id) s.build_agents x → a.id ≡ x.id → a ≡ x)
      (λ a. HasRoomAt s a (place_agent now r (pick_agent now architecture s))) s.build_agents
      (λ a k.
        place_agent-room now r (pick_agent now architecture s) s a
          (λ x e. let hit = pick_agent-found now architecture s x e u in (k x hit.0, hit.2)))
      (IsOnly-at s.build_agents u)

-- No agent comes to hold more than its limit.
abbrev Fits : Store → Store → BuildAgent → Type 0
Fits s t a = occupancy t.build_runs a.id ≤ max a.max_concurrent_builds (occupancy s.build_runs a.id)

reserve_as-elsewhere :
    (now k : ℕ) (e : Execution) (o : Option ℕ) (r : BuildRun) (s : Store)
    → is_number o k ≡ false
    → occupancy (reserve_as now e o r s).0.build_runs k ≤ occupancy s.build_runs k
reserve_as-elsewhere now k e o r s other =
    count-update-le (is_of_agent k) (λ x. x.id == r.id) (set_reserved now e o) s.build_runs
      (All-intro
        (λ x.
          (x.id == r.id) ≡ true
          → is_of_agent k (set_reserved now e o x) ≡ true
          → is_of_agent k x ≡ true)
        (λ x h g. ground arith) s.build_runs)

reserve_at-Fits :
    (now : ℕ) (live : BuildSettings) (pl : Placement) (r : BuildRun) (s : Store) (a : BuildAgent)
    → UniqueKeys (λ x. x.id) s.build_runs
    → HasRoomAt s a pl
    → Fits s (reserve_at now live pl r s).0 a
reserve_at-Fits now live nowhere r s a u h = omega arith
reserve_at-Fits now live at_cluster r s a u h =
    elim (Bool-cases (leb live.max_concurrent_builds (count_where is_on_cluster s.build_runs))) [
      | inl e ↦ rw e (omega arith)
      | inr e ↦ rw e (omega (arith, reserve_as-elsewhere now a.id cluster none r s refl))
    ]
reserve_at-Fits now live (at_agent id) r s a u h = elim (Bool-cases (id == a.id)) [
  | inl e ↦ omega (
    arith,
    h (ground arith),
    count-update-one (is_of_agent a.id) (set_reserved now agent (some id)) r s.build_runs u,
  )
  | inr e ↦ omega (arith, reserve_as-elsewhere now a.id agent (some id) r s e)
]

if-Fits :
    (b : Bool) (x y : Store × Option BuildRun) (s : Store) (a : BuildAgent)
    → Fits s x.0 a
    → Fits s y.0 a
    → Fits s (if b then x else y).0 a
if-Fits true x y s a h k = h
if-Fits false x y s a h k = k

reserve_found-Fits :
    (now : ℕ) (live : BuildSettings) (architecture : String) (o : Option BuildRun) (s : Store)
    → UniqueKeys (λ x. x.id) s.build_runs
    → UniqueKeys (λ x. x.id) s.build_agents
    → All (Fits s (reserve_found now live architecture o s).0) s.build_agents
reserve_found-Fits now live architecture none s u v =
    All-intro (Fits s s) (λ a. omega arith) s.build_agents
reserve_found-Fits now live architecture (some r) s u v =
    All-map (λ a. HasRoomAt s a (place now architecture r.execution r s)) _ s.build_agents
      (λ a h.
        if-Fits (is_queued r.status)
          (reserve_at now live (place now architecture r.execution r s) r s) (s, none) s a
          (reserve_at-Fits now live (place now architecture r.execution r s) r s a u h)
          (omega arith))
      (place-room now architecture r.execution r s v)

-- Where ids of runs and of build servers are unique, reserving a run, whichever is asked for,
-- leaves each build server of the table with at most as many active runs as its limit, or as many
-- as it had before.
pub reserve_build_run-Fits :
    (now : ℕ) (live : BuildSettings) (architecture : String) (id : ℕ) (s : Store)
    → UniqueKeys (λ x. x.id) s.build_runs
    → UniqueKeys (λ x. x.id) s.build_agents
    → All
        (λ a.
          occupancy (reserve_build_run now live architecture id s).0.build_runs a.id
          ≤ max a.max_concurrent_builds (occupancy s.build_runs a.id))
        s.build_agents
unfolding reserve_build_run
reserve_build_run-Fits now live architecture id s u v =
    reserve_found-Fits now live architecture (find_run id s.build_runs) s u v
