-- ===== src/Membership/Reports.antt =====
-- MembershipService.swift: what the host reports between ticks (discovery, heartbeats, drains).
use share_compute.Prelude.{
  ℕ, ◌+◌, Bool, false, none, some, List, [], ◌∷◌, if◌then◌else◌, lookup, string_eq,
}
use share_compute.Capability.{NodeId, CapabilityProfile}
use share_compute.Node.{
  NodeEvent, entered_background, apply, initial_state, participates_in_planning,
}
use share_compute.Lease.{LeaseId, one_score}
use share_compute.Membership.{
  MembershipService, MembershipEvent, node_joined, node_draining, MemberRecord, store, lease_for,
  join_event, smoothed, is_suspended,
}

-- `nodeAppeared` at a node that is absent, suspended, or present.
appeared_new : MembershipService → (NodeId → LeaseId) → ℕ → CapabilityProfile → MembershipService
appeared_new s uuid now profile =
    let state = initial_state profile in
    store s profile.node_id (record {
      profile = profile;
      state = state;
      lease = some (lease_for s uuid profile state now one_score);
      consecutive_missed_heartbeats = 0;
      last_heard_from = now;
      stability_score = one_score;
    })

appeared_again :
    MembershipService
    → (NodeId → LeaseId)
    → ℕ
    → CapabilityProfile
    → MemberRecord
    → MembershipService
appeared_again s uuid now profile existing =
    let state = (apply (join_event profile) existing.state).0 in
    store s profile.node_id (record existing {
      state = state;
      profile = profile;
      last_heard_from = now;
      consecutive_missed_heartbeats = 0;
      stability_score = one_score;
      lease = some (lease_for s uuid profile state now one_score);
    })

refreshed : MembershipService → ℕ → CapabilityProfile → MemberRecord → MembershipService
refreshed s now profile existing = store s profile.node_id (record existing {
  profile = profile;
  last_heard_from = now;
  consecutive_missed_heartbeats = 0;
})

unfoldable pub node_appeared :
    MembershipService
    → (NodeId → LeaseId)
    → ℕ
    → CapabilityProfile
    → MembershipService × List MembershipEvent
unfolding appeared_new appeared_again refreshed
node_appeared s uuid now profile = elim (lookup profile.node_id s.storage) [
  | none ↦ (appeared_new s uuid now profile, node_joined profile.node_id ∷ [])
  | some existing ↦
      if is_suspended existing.state
      then (appeared_again s uuid now profile existing, node_joined profile.node_id ∷ [])
      else (refreshed s now profile existing, [])
]

heard : MembershipService → (NodeId → LeaseId) → ℕ → MemberRecord → MemberRecord
heard s uuid now r =
    let score = smoothed r.stability_score 1 in
    let r' : MemberRecord = record r {
      consecutive_missed_heartbeats = 0;
      last_heard_from = now;
      stability_score = score;
    } in
    if participates_in_planning r.state
    then record r' { lease = some (lease_for s uuid r.profile r.state now score) }
    else r'

unfoldable pub heartbeat_succeeded :
    MembershipService → (NodeId → LeaseId) → ℕ → NodeId → MembershipService
unfolding heard
heartbeat_succeeded s uuid now id = elim (lookup id s.storage) [
  | none ↦ s
  | some r ↦ store s id (heard s uuid now r)
]

missed : MemberRecord → MemberRecord
missed r = record r {
  consecutive_missed_heartbeats = r.consecutive_missed_heartbeats + 1;
  stability_score = smoothed r.stability_score 0;
}

unfoldable pub heartbeat_failed : MembershipService → NodeId → MembershipService
unfolding missed
heartbeat_failed s id = elim (lookup id s.storage) [ none ↦ s | some r ↦ store s id (missed r) ]

unfoldable pub node_announced_drain :
    MembershipService → ℕ → NodeId → MembershipService × List MembershipEvent
node_announced_drain s now id = elim (lookup id s.storage) [
  | none ↦ (s, [])
  | some r ↦
      let (state, moved) = apply entered_background r.state in
      if moved
      then (store s id (record r { state = state; last_heard_from = now }), node_draining id ∷ [])
      else (s, [])
]

-- `apply(_:to:)`.
unfoldable pub apply_event : MembershipService → NodeEvent → NodeId → MembershipService × Bool
apply_event s event id = elim (lookup id s.storage) [
  | none ↦ (s, false)
  | some r ↦
      let (state, moved) = apply event r.state in
      (if moved then store s id (record r { state = state }) else s, moved)
]
