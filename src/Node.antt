-- ===== src/Node.antt =====
-- Sources/ShareComputeCore/NodeState.swift: the lifecycle of a node and its transitions.
pub mod Lifecycle
use share_compute.Prelude.{Bool, true, false, Option, none, some, if◌then◌else◌}
use share_compute.Capability.{
  CapabilityProfile, ConnectivityClass, core_desktop, elastic_mobile, opportunistic_mobile,
}

pub data NodeState : Type 0 where
  active_core active_elastic opportunistic draining suspended : NodeState

unfoldable pub can_host_required_stage : NodeState → Bool
can_host_required_stage active_core = true
can_host_required_stage active_elastic = true
can_host_required_stage opportunistic = false
can_host_required_stage draining = false
can_host_required_stage suspended = false

unfoldable pub participates_in_planning : NodeState → Bool
participates_in_planning active_core = true
participates_in_planning active_elastic = true
participates_in_planning opportunistic = true
participates_in_planning draining = false
participates_in_planning suspended = false

pub data NodeEvent : Type 0 where
  joined_as_core joined_as_elastic joined_as_opportunistic : NodeEvent
  entered_background returned_to_foreground : NodeEvent
  drain_requested drain_completed lease_expired heartbeat_lost power_duress : NodeEvent

-- `NodeStateMachine.next(from:on:)`; `none` where the event means nothing in the state.
unfoldable pub next : NodeState → NodeEvent → Option NodeState
next suspended joined_as_core = some active_core
next suspended joined_as_elastic = some active_elastic
next suspended joined_as_opportunistic = some opportunistic
next suspended returned_to_foreground = some opportunistic
next active_core entered_background = some draining
next active_elastic entered_background = some draining
next opportunistic entered_background = some draining
next active_core drain_requested = some draining
next active_elastic drain_requested = some draining
next opportunistic drain_requested = some draining
next active_elastic power_duress = some opportunistic
next active_core power_duress = some draining
next opportunistic power_duress = some draining
next draining drain_completed = some suspended
next draining lease_expired = some suspended
next draining heartbeat_lost = some suspended
next active_core lease_expired = some suspended
next active_elastic lease_expired = some suspended
next opportunistic lease_expired = some suspended
next active_core heartbeat_lost = some suspended
next active_elastic heartbeat_lost = some suspended
next opportunistic heartbeat_lost = some suspended
next _ _ = none

-- What `apply(_:to:)` makes of the answer of `next`: the state after it, and whether it moved.
abbrev moved : NodeState → Option NodeState → NodeState × Bool
moved s none = (s, false)
moved s (some t) = (t, true)

unfoldable pub apply : NodeEvent → NodeState → NodeState × Bool
unfolding next
apply event state = moved state (next state event)

by_connectivity : ConnectivityClass → NodeState
by_connectivity core_desktop = active_core
by_connectivity elastic_mobile = active_elastic
by_connectivity opportunistic_mobile = opportunistic

unfoldable pub initial_state : CapabilityProfile → NodeState
unfolding by_connectivity
initial_state profile =
    if profile.declares_can_host_required_stage
    then by_connectivity profile.connectivity
    else opportunistic
