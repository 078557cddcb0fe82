-- ===== src/Node/Lifecycle.antt =====
-- What a node's lifecycle allows (Sources/ShareComputeCore/NodeState.swift).
use share_compute.Prelude.{
  Bool, true, false, some, List, [], ◌∷◌, any, ◌≡◌, refl, ◌≢◌, ◌⊎◌, inl, inr, arith, Bool-cases,
}
use share_compute.Node.{
  NodeState, active_core, draining, suspended, NodeEvent, joined_as_core, joined_as_elastic,
  joined_as_opportunistic, returned_to_foreground, drain_completed, lease_expired, heartbeat_lost,
  next, apply, can_host_required_stage, participates_in_planning,
}

-- The node's state after a list of events, each applied as `NodeStateMachine.apply` does.
unfoldable pub run : NodeState → List NodeEvent → NodeState
run s [] = s
run s (e ∷ es) = run (apply e s).0 es

-- The two joins that end in a state which may hold a required stage.
abbrev pub is_host_join : NodeEvent → Bool
is_host_join joined_as_core = true
is_host_join joined_as_elastic = true
is_host_join _ = false

-- The events that end a drain.
abbrev pub ends_drain : NodeEvent → Bool
ends_drain drain_completed = true
ends_drain lease_expired = true
ends_drain heartbeat_lost = true
ends_drain _ = false

-- A state may host a required stage only if it takes part in planning.
pub hosts_participate :
    (s : NodeState) → can_host_required_stage s ≡ true → participates_in_planning s ≡ true
unfolding can_host_required_stage participates_in_planning
hosts_participate active_core h = refl
hosts_participate _ h = ground arith

-- One event makes a host of a node that was none only if it is one of the two joins.
host_by_join :
    (s : NodeState) (e : NodeEvent)
    → can_host_required_stage s ≡ false
    → can_host_required_stage (apply e s).0 ≡ true
    → is_host_join e ≡ true
unfolding can_host_required_stage apply
host_by_join s e h k = ground arith

-- Whatever happens to a node that may not host a required stage, it may host one afterwards only if
-- one of the events was a join as a core or an elastic node.
pub run-host :
    (s : NodeState) (es : List NodeEvent)
    → can_host_required_stage s ≡ false
    → can_host_required_stage (run s es) ≡ true
    → any is_host_join es ≡ true
unfolding run
run-host s [] h k = absurd (ground arith)
run-host s (e ∷ es) h k = elim (Bool-cases (can_host_required_stage (apply e s).0)) [
  | inl hosts ↦ ground (arith, host_by_join s e h hosts)
  | inr none_yet ↦ ground (arith, run-host (apply e s).0 es none_yet k)
]

stays_draining : (e : NodeEvent) → ends_drain e ≡ false → (apply e draining).0 ≡ draining
unfolding apply
stays_draining joined_as_core h = refl
stays_draining _ h = ground arith

-- A drain cannot be called off: without one of the three events that end it, a draining node keeps
-- draining, whatever else happens (its return to the foreground included).
pub run-draining : (es : List NodeEvent) → any ends_drain es ≡ false → run draining es ≡ draining
unfolding run
run-draining [] h = refl
run-draining (e ∷ es) h = rw (stays_draining e (ground arith)) (run-draining es (ground arith))

-- A lost heartbeat or a lapsed lease suspends a node from every other state.
pub suspension :
    (s : NodeState)
    → s ≢ suspended
    → (next s heartbeat_lost ≡ some suspended) × (next s lease_expired ≡ some suspended)
unfolding next
suspension s h = ground arith

-- Only a join or a return to the foreground takes a suspended node back into planning.
pub resumption :
    (e : NodeEvent)
    → participates_in_planning (apply e suspended).0 ≡ true
    → (is_host_join e ≡ true) ⊎ (e ≡ joined_as_opportunistic) ⊎ (e ≡ returned_to_foreground)
unfolding apply participates_in_planning
resumption e h = ground arith
