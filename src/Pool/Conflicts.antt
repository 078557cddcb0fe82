-- ===== src/Pool/Conflicts.antt =====
-- Two ways in which `connect` of CrossPlatformPool.swift departs from what it documents.
use share_compute.Prelude.{
  ℕ, false, none, some, List, [], ◌∷◌, ◌≡◌, inl, inr, arith, lookup, string_eq, lookup-insert,
  =?-refl, Bool-cases,
}
use share_compute.Capability.{NodeId, CapabilityProfile}
use share_compute.Node.{draining, participates_in_planning}
use share_compute.Lease.{LeaseId}
use share_compute.Membership.{MemberRecord}
use share_compute.Membership.Rejoin.{node_appeared-draining}
use share_compute.Platform.{PlatformKind, platform_eq}
use share_compute.Pool.Seats.{announce_all-pool}
use share_compute.Pool.{
  CrossPlatformPool, Result, has_all_required_platforms, PoolConnectionEvent, peer_connected,
  vacate, seat, occupy, connect, announce_all, all_required_platforms_connected,
  connected_platforms,
}

connect-free :
    (pool : CrossPlatformPool) (uuid : NodeId → LeaseId) (now : ℕ) (platform : PlatformKind)
    (profile : CapabilityProfile)
    → lookup platform pool.node_by_platform ≡ none
    → connect pool uuid now platform profile ≡ announce_all (seat pool uuid now platform profile)
unfolding connect vacate occupy
connect-free pool uuid now platform profile e =
    let v : vacate pool now platform profile.node_id ≡ pool = rw (e, vacate) in
    rw (connect, v, occupy, e)

-- A node that holds one seat and connects for a free one holds both, and the index of nodes keeps
-- only the new seat.
pub connect_two_seats :
    (pool : CrossPlatformPool) (uuid : NodeId → LeaseId) (now : ℕ) (held free : PlatformKind)
    (profile : CapabilityProfile)
    → lookup held pool.node_by_platform ≡ some profile.node_id
    → lookup free pool.node_by_platform ≡ none
    → let after = (connect pool uuid now free profile).0 in
      (lookup held after.node_by_platform ≡ some profile.node_id)
      × (lookup free after.node_by_platform ≡ some profile.node_id)
      × (lookup profile.node_id after.platform_by_node ≡ some free)
unfolding seat
connect_two_seats pool uuid now held free profile e f =
    let node = profile.node_id in
    let seated = seat pool uuid now free profile in
    let maps : (lookup held seated.0.node_by_platform ≡ some node)
        × (lookup free seated.0.node_by_platform ≡ some node)
        × (lookup node seated.0.platform_by_node ≡ some free) =
      (
        ground (
          arith,
          lookup-insert free held node pool.node_by_platform,
          platform_eq.beq_iff free held,
        ),
        rw (lookup-insert free free node pool.node_by_platform, =?-refl free),
        rw (lookup-insert node node free pool.platform_by_node, =?-refl node),
      ) in
    rw (connect-free pool uuid now free profile f, announce_all-pool seated) maps

-- Announcing that all platforms are connected comes after the other events.
announced :
    (r : Result) {e : PoolConnectionEvent}
    → r.1 ≡ e ∷ []
    → (rest : List PoolConnectionEvent) × ((announce_all r).1 ≡ e ∷ rest)
unfolding announce_all
announced (pool, events, sent) h = elim (Bool-cases (has_all_required_platforms pool)) [
  | inl b ↦ rw b (all_required_platforms_connected (connected_platforms pool) ∷ [], rw h)
  | inr b ↦ rw b (_, h)
]

-- A peer that is still draining is announced as connected when it connects for a free seat, although
-- it does not take part in planning: its record keeps draining.
pub connect_draining :
    (pool : CrossPlatformPool) (uuid : NodeId → LeaseId) (now : ℕ) (platform : PlatformKind)
    (profile : CapabilityProfile) (old : MemberRecord)
    → lookup platform pool.node_by_platform ≡ none
    → lookup profile.node_id pool.membership.storage ≡ some old
    → old.state ≡ draining
    → ((rest : List PoolConnectionEvent) × ((connect pool uuid now platform profile).1
          ≡ peer_connected platform profile.node_id ∷ rest))
      × ((r : MemberRecord) × (lookup profile.node_id
              (connect pool uuid now platform profile).0.membership.storage
            ≡ some r)
          × (participates_in_planning r.state ≡ false))
unfolding seat participates_in_planning
connect_draining pool uuid now platform profile old f e out =
    let node = profile.node_id in
    let seated = seat pool uuid now platform profile in
    let (silent, (r, found, still)) =
      node_appeared-draining pool.membership uuid now profile old e out in
    let told : seated.1 ≡ peer_connected platform node ∷ [] = rw (found, seat) (ground arith) in
    rw (connect-free pool uuid now platform profile f)
      (announced seated told, (r, rw (announce_all-pool seated) found, rw still))
