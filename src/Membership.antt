-- ===== src/Membership.antt =====
-- Sources/ShareComputeCore/MembershipService.swift, and `PlannedMember` of StagePlanner.swift.
-- `clock.now` is the argument `now` of each operation. An operation that issues leases has the
-- argument `uuid`, what `UUID()` gives for the lease that it issues to each node. The intervals of a
-- configuration and the ages of dates are not negative, so `a - b >= c` on dates is `b + c <= a`.
pub mod Reports
pub mod Tick
pub mod Sweep
pub mod Evictions
pub mod Settled
pub mod History
pub mod Epochs
pub mod Authorised
pub mod Authority
pub mod Heartbeats
pub mod Rejoin
pub mod Stability
pub mod Unordered
pub mod Orders
pub mod Lifecycle
pub mod Reported
pub mod Resumption
pub mod Lives
use share_compute.Prelude.{
  ℕ, zero, suc, ◌+◌, ◌-◌, ◌*◌, ◌^◌, min, Bool, true, false, not, ◌&&◌, Option, none, some, List, [],
  ◌∷◌, ◌++◌, map, filter, leb, if◌then◌else◌, Dict, lookup, insert, values, string_eq, contains,
  sort_by, all,
}
use share_compute.Capability.{
  NodeId, id_lt, CapabilityProfile, StageType, prefill, decode_authoritative, decode_speculative,
  kv_store, edge_offload, is_required, maximum_supportable_lease_duration,
}
use share_compute.Node.{
  NodeState, active_core, active_elastic, opportunistic, draining, suspended, NodeEvent,
  joined_as_core, joined_as_elastic, joined_as_opportunistic, entered_background, drain_completed,
  lease_expired, heartbeat_lost, apply, initial_state, can_host_required_stage,
  participates_in_planning,
}
use share_compute.Lease.{Lease, LeaseId, Epoch, next_epoch, Score, one_score, is_valid}

pub record MembershipConfig : Type 0 where
  pub lease_duration : ℕ
  pub heartbeat_interval : ℕ
  pub missed_heartbeats_before_eviction : ℕ
  pub minimum_epoch_dwell_time : ℕ

-- The reasons are those of the source, in its order.
pub data EvictionReason : Type 0 where
  heartbeat_loss lease_expiry drained : EvictionReason

pub data MembershipEvent : Type 0 where
  node_joined node_draining : NodeId → MembershipEvent
  node_evicted : NodeId → EvictionReason → MembershipEvent
  epoch_changed : Epoch → List NodeId → MembershipEvent
  epoch_change_deferred : ℕ → MembershipEvent

pub record MemberRecord : Type 0 where
  pub profile : CapabilityProfile
  pub state : NodeState
  pub lease : Option Lease
  pub consecutive_missed_heartbeats : ℕ
  pub last_heard_from : ℕ
  pub stability_score : Score

abbrev pub Storage : Type 0
Storage = Dict NodeId MemberRecord

pub record MembershipService : Type 0 where
  pub local_node_id : NodeId
  pub config : MembershipConfig
  pub storage : Storage
  pub current_epoch : Epoch
  pub last_epoch_changed_at : ℕ
  pub last_epoch_members : List NodeId

unfoldable pub new : NodeId → ℕ → MembershipConfig → Epoch → MembershipService
new node now config epoch = record {
  local_node_id = node;
  config = config;
  storage = [];
  current_epoch = epoch;
  last_epoch_changed_at = now;
  last_epoch_members = [];
}

-- StagePlanner.swift's `PlannedMember`.
pub record PlannedMember : Type 0 where
  pub profile : CapabilityProfile
  pub state : NodeState
  pub lease : Option Lease

unfoldable pub member_id : PlannedMember → NodeId
member_id m = m.profile.node_id

unfoldable pub planned : MemberRecord → PlannedMember
planned r = record { profile = r.profile; state = r.state; lease = r.lease }

unfoldable pub planning_members : Storage → List PlannedMember
unfolding planned
planning_members storage =
    sort_by (λ a b. id_lt (member_id a) (member_id b))
      (map planned (filter (λ r. participates_in_planning r.state) (values storage)))

-- `smoothed(_:sample:)` at the samples 0.0 and 1.0: `current * 0.7 + sample * 0.3`.
unfoldable pub smoothed : Score → ℕ → Score
smoothed current sample = record {
  digits = 7 * current.digits + 3 * sample * 10 ^ current.places;
  places = suc current.places;
}

abbrev pub all_stages : List StageType
all_stages = prefill ∷ decode_authoritative ∷ decode_speculative ∷ kv_store ∷ edge_offload ∷ []

-- The stages that a lease issued in a state allows.
unfoldable pub stages_for : NodeState → List StageType
unfolding can_host_required_stage is_required
stages_for state =
    if can_host_required_stage state
    then all_stages
    else filter (λ s. not (is_required s)) all_stages

unfoldable pub issue_lease :
    MembershipConfig
    → Epoch
    → (NodeId → LeaseId)
    → CapabilityProfile
    → NodeState
    → ℕ
    → Score
    → Lease
issue_lease config epoch uuid profile state now score = record {
  id = uuid profile.node_id;
  node_id = profile.node_id;
  epoch = epoch;
  issued_at = now;
  expires_at = now + min config.lease_duration (maximum_supportable_lease_duration profile);
  allowed_stage_types = stages_for state;
  stability_score = score;
}

join_event_for : NodeState → NodeEvent
join_event_for active_core = joined_as_core
join_event_for active_elastic = joined_as_elastic
join_event_for _ = joined_as_opportunistic

unfoldable pub join_event : CapabilityProfile → NodeEvent
unfolding join_event_for
join_event profile = join_event_for (initial_state profile)

abbrev pub is_suspended : NodeState → Bool
is_suspended suspended = true
is_suspended _ = false

abbrev pub is_draining : NodeState → Bool
is_draining draining = true
is_draining _ = false

-- `storage[id] = record`.
abbrev pub store : MembershipService → NodeId → MemberRecord → MembershipService
store s id r = record s { storage = insert id r s.storage }

-- `issueLease` as the service calls it.
abbrev pub lease_for :
    MembershipService → (NodeId → LeaseId) → CapabilityProfile → NodeState → ℕ → Score → Lease
lease_for s uuid profile state now score =
    issue_lease s.config s.current_epoch uuid profile state now score
