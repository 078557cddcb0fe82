-- ===== src/Membership/Tick.antt =====
-- MembershipService.swift, `tick(at:)`: evictions, completed drains and the next epoch.
use share_compute.Prelude.{
  ℕ, ◌+◌, ◌-◌, Bool, false, not, ◌&&◌, Option, none, some, List, [], ◌∷◌, ◌++◌, map, leb, all,
  if◌then◌else◌, lookup, keys, map_values, contains, sort_by, string_eq,
}
use share_compute.Capability.{NodeId, id_lt}
use share_compute.Node.{
  NodeEvent, drain_completed, lease_expired, heartbeat_lost, apply, participates_in_planning,
}
use share_compute.Lease.{Lease, LeaseId, next_epoch, is_valid}
use share_compute.Membership.{
  MembershipConfig, MembershipService, MembershipEvent, node_evicted, epoch_changed,
  epoch_change_deferred, EvictionReason, heartbeat_loss, lease_expiry, drained, MemberRecord, store,
  lease_for, member_id, planning_members, is_draining,
}

has_lapsed : Option Lease → ℕ → Bool
has_lapsed none now = false
has_lapsed (some lease) now = not (is_valid lease now)

-- The tests of the loop's body, in order: why the tick evicts a member, if it does.
unfoldable pub verdict : MembershipConfig → ℕ → MemberRecord → Option EvictionReason
unfolding has_lapsed
verdict config now r =
    if is_draining r.state
    then some drained
    else if not (participates_in_planning r.state)
    then none
    else if leb config.missed_heartbeats_before_eviction r.consecutive_missed_heartbeats
    then some heartbeat_loss
    else if has_lapsed r.lease now
    then some lease_expiry
    else none

-- The event that a reason applies to the member's state.
abbrev pub event_for : EvictionReason → NodeEvent
event_for drained = drain_completed
event_for heartbeat_loss = heartbeat_lost
event_for lease_expiry = lease_expired

unfoldable pub evicted : EvictionReason → MemberRecord → MemberRecord
evicted reason r = record r { state = (apply (event_for reason) r.state).0 }

-- The loop's body at one node. It changes `storage` and appends to `events`.
unfoldable pub visit :
    ℕ → NodeId → MembershipService × List MembershipEvent → MembershipService × List MembershipEvent
visit now id (s, events) = elim (lookup id s.storage) [
  | none ↦ (s, events)
  | some r ↦ elim (verdict s.config now r) [
    | none ↦ (s, events)
    | some reason ↦ (store s id (evicted reason r), events ++ node_evicted id reason ∷ [])
  ]
]

unfoldable pub sweep :
    ℕ
    → List NodeId
    → MembershipService × List MembershipEvent
    → MembershipService × List MembershipEvent
unfolding visit
sweep now [] acc = acc
sweep now (id ∷ ids) acc = sweep now ids (visit now id acc)

-- `Set(ids)`: each node once.
unfoldable pub to_set : List NodeId → List NodeId
to_set [] = []
to_set (x ∷ xs) = let rest = to_set xs in if contains rest x then rest else x ∷ rest

-- `==` of two sets.
unfoldable pub same_set : List NodeId → List NodeId → Bool
same_set xs ys = all (contains ys) xs && all (contains xs) ys

-- `Set(planningMembers.map(\.nodeID))`.
unfoldable pub planning_set : MembershipService → List NodeId
planning_set s = to_set (map member_id (planning_members s.storage))

-- The body of `reissueLeases` at one record.
unfoldable pub reissued : MembershipService → (NodeId → LeaseId) → ℕ → MemberRecord → MemberRecord
reissued s uuid now r =
    if participates_in_planning r.state
    then record r { lease = some (lease_for s uuid r.profile r.state now r.stability_score) }
    else r

unfoldable pub reissue_leases : MembershipService → (NodeId → LeaseId) → ℕ → MembershipService
reissue_leases s uuid now = record s { storage = map_values (reissued s uuid now) s.storage }

-- The end of the tick: a new epoch, a deferred one, or neither.
unfoldable pub renew_epoch :
    (NodeId → LeaseId)
    → ℕ
    → MembershipService × List MembershipEvent
    → MembershipService × List MembershipEvent
renew_epoch uuid now (s, events) =
    let members = planning_set s in
    let ready_at = s.last_epoch_changed_at + s.config.minimum_epoch_dwell_time in
    let t : MembershipService = record s {
      current_epoch = next_epoch s.current_epoch;
      last_epoch_changed_at = now;
      last_epoch_members = members;
    } in
    if same_set members s.last_epoch_members
    then (s, events)
    else if leb ready_at now
    then (
      reissue_leases t uuid now,
      events ++ epoch_changed t.current_epoch (sort_by id_lt members) ∷ [],
    )
    else (s, events ++ epoch_change_deferred (ready_at - now) ∷ [])

-- `tick(at:)`.
unfoldable pub tick :
    MembershipService → (NodeId → LeaseId) → ℕ → MembershipService × List MembershipEvent
tick s uuid now = renew_epoch uuid now (sweep now (sort_by id_lt (keys s.storage)) (s, []))
