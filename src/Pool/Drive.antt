-- ===== src/Pool/Drive.antt =====
-- CrossPlatformPool.swift, `tick(at:)` and `planRAMPool`.
use share_compute.Prelude.{
  ℕ, Bool, true, false, not, Option, none, some, List, [], ◌∷◌, ◌++◌, any, all, map, filter, lookup,
  remove, contains, string_eq, ◌=?◌, if◌then◌else◌, sort_by, sum,
}
use share_compute.Capability.{NodeId}
use share_compute.Lease.{LeaseId}
use share_compute.Membership.{
  MembershipEvent, node_joined, node_draining, node_evicted, PlannedMember, member_id,
  planning_members,
}
use share_compute.Membership
use share_compute.Membership.Tick.{tick as membership_tick}
use share_compute.Planner.{ModelPlacementSpec, ShardPlan, Outcome, ok, ◌>>=◌}
use share_compute.Planner.Apportion.{Double}
use share_compute.Planner.Plan.{plan, is_empty}
use share_compute.Platform.{PlatformKind, platform_eq, platform_lt, all_required}
use share_compute.Transport
use share_compute.Transport.{Delivery, broadcasts}
use share_compute.Pool.{
  CrossPlatformPool, Result, PoolConnectionEvent, peer_evicted, epoch_changed,
  epoch_change_deferred, has_all_required_platforms,
}

-- The seat of an evicted node is freed, if the node still holds it.
unfoldable pub unseat : NodeId → PlatformKind → CrossPlatformPool → CrossPlatformPool
unseat node platform pool =
    let left : CrossPlatformPool = record pool {
      platform_by_node = remove node pool.platform_by_node;
    } in
    elim (lookup platform pool.node_by_platform) [
      | none ↦ left
      | some holder ↦
          if holder =? node
          then record left { node_by_platform = remove platform pool.node_by_platform }
          else left
    ]

-- The loop's body at one event of the membership.
unfoldable pub relay : MembershipEvent → Result → Result
relay (node_evicted node reason) (pool, events, sent) = elim (lookup node pool.platform_by_node) [
  | none ↦ (pool, events, sent)
  | some platform ↦
      (unseat node platform pool, events ++ peer_evicted platform node reason ∷ [], sent)
]
relay (Membership.epoch_changed epoch members) (pool, events, sent) = (
  pool,
  events ++ epoch_changed epoch members ∷ [],
  sent ++ broadcasts (Transport.epoch_changed epoch members) ∷ [],
)
relay (Membership.epoch_change_deferred until) (pool, events, sent) =
    (pool, events ++ epoch_change_deferred until ∷ [], sent)
relay (node_joined node) acc = acc
relay (node_draining node) acc = acc

unfoldable pub relay_all : List MembershipEvent → Result → Result
relay_all [] acc = acc
relay_all (e ∷ es) acc = relay_all es (relay e acc)

unfoldable pub tick : CrossPlatformPool → (NodeId → LeaseId) → ℕ → Result
tick pool uuid now =
    let (membership, events) = membership_tick pool.membership uuid now in
    relay_all events (record pool { membership = membership }, [], [])

pub record PoolPlanResult : Type 0 where
  pub platforms : List PlatformKind
  pub plan : ShardPlan
  pub total_usable_bytes : ℕ

abbrev pub is_deferral : PoolConnectionEvent → Bool
is_deferral (epoch_change_deferred until) = true
is_deferral _ = false

unfoldable pub seat_of : CrossPlatformPool → PlannedMember → List PlatformKind
seat_of pool m = elim (lookup (member_id m) pool.platform_by_node) [
  | none ↦ []
  | some platform ↦ platform ∷ []
]

-- `assignedMembers.compactMap { platformByNode[$0.nodeID] }`.
unfoldable pub seats_of : CrossPlatformPool → List PlannedMember → List PlatformKind
unfolding seat_of
seats_of pool [] = []
seats_of pool (m ∷ ms) = seat_of pool m ++ seats_of pool ms

-- The members that the plan gives a shard.
unfoldable pub assigned : ShardPlan → List PlannedMember → List PlannedMember
assigned p members =
    filter (λ m. contains (map (λ a. a.node_id) p.assignments) (member_id m)) members

-- The end of `planRAMPool`, once there is a plan. `Set(platforms) == allRequired`: the four
-- platforms are all there are.
unfoldable pub report : CrossPlatformPool → List PlannedMember → ShardPlan → Option PoolPlanResult
report pool members p =
    let holders = assigned p members in
    let platforms = sort_by platform_lt (seats_of pool holders) in
    if all (contains platforms) all_required
    then some (record {
      platforms = platforms;
      plan = p;
      total_usable_bytes = sum (map (λ m. m.profile.memory.usable_bytes) holders);
    })
    else none

-- `planRAMPool` from the second check of the seats on.
unfoldable pub plan_ticked :
    Double → ModelPlacementSpec → ℕ → ℕ → CrossPlatformPool → Outcome (Option PoolPlanResult)
unfolding report
plan_ticked F model duration now pool =
    let members = planning_members pool.membership.storage in
    if not (has_all_required_platforms pool)
    then ok none
    else if is_empty members
    then ok none
    else plan F pool.policy model members pool.membership.current_epoch now duration >>= λ p.
        ok (report pool members p)

unfoldable pub plan_ram_pool :
    Double
    → CrossPlatformPool
    → (NodeId → LeaseId)
    → ModelPlacementSpec
    → ℕ
    → ℕ
    → CrossPlatformPool × List Delivery × Outcome (Option PoolPlanResult)
unfolding plan_ticked
plan_ram_pool F pool uuid model duration now =
    let (ticked, events, sent) = tick pool uuid now in
    if not (has_all_required_platforms pool)
    then (pool, [], ok none)
    else if any is_deferral events
    then (ticked, sent, ok none)
    else (ticked, sent, plan_ticked F model duration now ticked)
