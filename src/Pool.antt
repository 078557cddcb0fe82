-- ===== src/Pool.antt =====
-- Sources/ShareComputeCore/CrossPlatformPool.swift: one seat for each platform, over the membership
-- service and the planner. `clock.now` and `UUID()` are arguments, as in Membership. What the pool
-- hands to its transport, if it has one, is the list of deliveries that an operation returns; `try?`
-- drops their errors.
pub mod Drive
pub mod Simulated
pub mod Seats
pub mod Evicted
pub mod Ticks
pub mod Pooling
pub mod Conflicts
use share_compute.Prelude.{
  Bool, true, false, not, ◌||◌, Option, none, some, List, [], ◌∷◌, ◌++◌, any, all, Dict, lookup,
  insert, remove, keys, contains, string_eq, ◌=?◌, if◌then◌else◌, ℕ,
}
use share_compute.Capability.{NodeId, CapabilityProfile}
use share_compute.Lease.{Epoch, LeaseId, initial_epoch}
use share_compute.Membership.{
  MembershipService, MembershipConfig, MembershipEvent, node_joined, node_draining, EvictionReason,
}
use share_compute.Membership
use share_compute.Membership.Reports.{
  node_appeared, node_announced_drain, heartbeat_succeeded, heartbeat_failed,
}
use share_compute.Planner.{EligibilityPolicy}
use share_compute.Platform.{PlatformKind, platform_eq, all_required}
use share_compute.Transport.{Delivery, sends, broadcasts, join, heartbeat, drain, acknowledged}

pub data PoolConnectionEvent : Type 0 where
  peer_connected peer_already_present peer_draining : PlatformKind → NodeId → PoolConnectionEvent
  peer_evicted : PlatformKind → NodeId → EvictionReason → PoolConnectionEvent
  all_required_platforms_connected : List PlatformKind → PoolConnectionEvent
  epoch_changed : Epoch → List NodeId → PoolConnectionEvent
  epoch_change_deferred : ℕ → PoolConnectionEvent

pub record CrossPlatformPool : Type 0 where
  pub membership : MembershipService
  pub policy : EligibilityPolicy
  pub platform_by_node : Dict NodeId PlatformKind
  pub node_by_platform : Dict PlatformKind NodeId

unfoldable pub new : NodeId → ℕ → MembershipConfig → EligibilityPolicy → CrossPlatformPool
new node now config policy = record {
  membership = Membership.new node now config initial_epoch;
  policy = policy;
  platform_by_node = [];
  node_by_platform = [];
}

unfoldable pub connected_platforms : CrossPlatformPool → List PlatformKind
connected_platforms pool = keys pool.node_by_platform

-- `missingPlatforms.isEmpty`.
unfoldable pub has_all_required_platforms : CrossPlatformPool → Bool
unfolding connected_platforms
has_all_required_platforms pool = all (contains (connected_platforms pool)) all_required

-- What an operation returns: the pool, the events, and what is handed to the transport.
abbrev pub Result : Type 0
Result = CrossPlatformPool × List PoolConnectionEvent × List Delivery

joins : MembershipEvent → Bool
joins (node_joined id) = true
joins _ = false

drains : MembershipEvent → Bool
drains (node_draining id) = true
drains _ = false

is_bound {ℓ} : {A : Type ℓ} → Option A → Bool
is_bound none = false
is_bound (some a) = true

-- The first `if` of `connect`: another occupant of the seat is asked to leave.
unfoldable pub vacate : CrossPlatformPool → ℕ → PlatformKind → NodeId → CrossPlatformPool
vacate pool now platform node = elim (lookup platform pool.node_by_platform) [
  | none ↦ pool
  | some existing ↦ if existing =? node then pool else record pool {
    membership = (node_announced_drain pool.membership now existing).0;
    platform_by_node = remove existing pool.platform_by_node;
  }
]

abbrev pub holds_seat : Option NodeId → NodeId → Bool
holds_seat none node = false
holds_seat (some n) node = n =? node

-- The `else` of the second `if`: the peer takes the seat.
unfoldable pub seat :
    CrossPlatformPool → (NodeId → LeaseId) → ℕ → PlatformKind → CapabilityProfile → Result
unfolding joins is_bound
seat pool uuid now platform profile =
    let (membership, events) = node_appeared pool.membership uuid now profile in
    let node = profile.node_id in
    let connected =
      if any joins events || is_bound (lookup node membership.storage)
      then peer_connected platform node ∷ []
      else [] in
    (
      record pool {
        membership = membership;
        platform_by_node = insert node platform pool.platform_by_node;
        node_by_platform = insert platform node pool.node_by_platform;
      },
      connected,
      broadcasts (join platform profile) ∷ sends node (acknowledged node) ∷ [],
    )

-- The `if` branch: the occupant of the seat appears again.
unfoldable pub refresh :
    CrossPlatformPool → (NodeId → LeaseId) → ℕ → PlatformKind → CapabilityProfile → Result
refresh pool uuid now platform profile = (
  record pool { membership = (node_appeared pool.membership uuid now profile).0 },
  peer_already_present platform profile.node_id ∷ [],
  [],
)

unfoldable pub announce_all : Result → Result
announce_all (pool, events, sent) =
    if has_all_required_platforms pool
    then (pool, events ++ all_required_platforms_connected (connected_platforms pool) ∷ [], sent)
    else (pool, events, sent)

-- The second `if` of `connect`.
unfoldable pub occupy :
    CrossPlatformPool → (NodeId → LeaseId) → ℕ → PlatformKind → CapabilityProfile → Result
unfolding seat refresh
occupy pool uuid now platform profile =
    if holds_seat (lookup platform pool.node_by_platform) profile.node_id
    then refresh pool uuid now platform profile
    else seat pool uuid now platform profile

unfoldable pub connect :
    CrossPlatformPool → (NodeId → LeaseId) → ℕ → PlatformKind → CapabilityProfile → Result
connect pool uuid now platform profile =
    announce_all (occupy (vacate pool now platform profile.node_id) uuid now platform profile)

-- `heartbeatSucceeded`, `heartbeatFailed`.
unfoldable pub peer_answers : CrossPlatformPool → (NodeId → LeaseId) → ℕ → NodeId → Result
peer_answers pool uuid now node = (
  record pool { membership = heartbeat_succeeded pool.membership uuid now node },
  [],
  sends node (heartbeat node) ∷ [],
)

unfoldable pub peer_fails : CrossPlatformPool → NodeId → CrossPlatformPool
peer_fails pool node = record pool { membership = heartbeat_failed pool.membership node }

unfoldable pub announce_drain : CrossPlatformPool → ℕ → NodeId → Result
unfolding drains
announce_drain pool now node =
    let (membership, events) = node_announced_drain pool.membership now node in
    let pool' : CrossPlatformPool = record pool { membership = membership } in
    elim (lookup node pool.platform_by_node) [
      | none ↦ (pool', [], [])
      | some platform ↦
          if any drains events
          then (pool', peer_draining platform node ∷ [], broadcasts (drain node) ∷ [])
          else (pool', [], [])
    ]
