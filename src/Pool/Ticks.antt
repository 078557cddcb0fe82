-- ===== src/Pool/Ticks.antt =====
-- The seats over a tick of CrossPlatformPool.swift.
use share_compute.Prelude.{
  ℕ, true, false, none, List, [], ◌∷◌, ◌≡◌, ◌⊎◌, refl, ◌∙◌, arith, inl, inr, lookup, lookup-remove,
  string_eq, Bool-cases, Option-cases, if◌then◌else◌,
}
use share_compute.Capability.{NodeId}
use share_compute.Lease.{LeaseId}
use share_compute.Membership.{MembershipEvent, node_joined, node_draining, node_evicted}
use share_compute.Membership
use share_compute.Membership.Tick.{tick as membership_tick}
use share_compute.Pool.{CrossPlatformPool, Result}
use share_compute.Membership.Evictions.{evictions_of, evictions_of-append}
use share_compute.Planner.Plan.{is_empty}
use share_compute.Pool.Drive.{unseat, relay, relay_all, tick}
use share_compute.Pool.Seats.{Seated}
use share_compute.Pool.Evicted.{unseat-Seated}

relay-Seated : (e : MembershipEvent) (acc : Result) → Seated acc.0 → Seated (relay e acc).0
unfolding relay
relay-Seated (node_evicted node reason) (pool, events, sent) h =
    elim (Option-cases (lookup node pool.platform_by_node)) [
      | inl e ↦ rw (e, relay) h
      | inr (platform, e) ↦ rw (e, relay) (unseat-Seated node platform pool e h)
    ]
relay-Seated (Membership.epoch_changed epoch members) (pool, events, sent) h = h
relay-Seated (Membership.epoch_change_deferred until) (pool, events, sent) h = h
relay-Seated (node_joined node) (pool, events, sent) h = h
relay-Seated (node_draining node) (pool, events, sent) h = h

relay_all-Seated :
    (es : List MembershipEvent) (acc : Result) → Seated acc.0 → Seated (relay_all es acc).0
unfolding relay_all
relay_all-Seated [] acc h = h
relay_all-Seated (e ∷ es) acc h = relay_all-Seated es (relay e acc) (relay-Seated e acc h)

pub ticked-Seated :
    (pool : CrossPlatformPool) (uuid : NodeId → LeaseId) (now : ℕ)
    → Seated pool
    → Seated (tick pool uuid now).0
unfolding tick
ticked-Seated pool uuid now h = relay_all-Seated (membership_tick pool.membership uuid now).1 _ h

-- One event takes a node off the list of the seated exactly if it evicts the node.
relay-lookup :
    (e : MembershipEvent) (acc : Result) (k : NodeId)
    → lookup k (relay e acc).0.platform_by_node
      ≡ (if is_empty (evictions_of k (e ∷ [])) then lookup k acc.0.platform_by_node else none)
unfolding relay unseat
relay-lookup (node_evicted node reason) (pool, events, sent) k =
    elim (Option-cases (lookup node pool.platform_by_node)) [
      | inl e ↦ ground (arith, string_eq.beq_iff node k)
      | inr (platform, e) ↦
          ground (arith, string_eq.beq_iff node k, lookup-remove node k pool.platform_by_node)
    ]
relay-lookup (Membership.epoch_changed epoch members) (pool, events, sent) k = refl
relay-lookup (Membership.epoch_change_deferred until) (pool, events, sent) k = refl
relay-lookup (node_joined node) (pool, events, sent) k = refl
relay-lookup (node_draining node) (pool, events, sent) k = refl

relay_all-lookup :
    (es : List MembershipEvent) (acc : Result) (k : NodeId)
    → lookup k (relay_all es acc).0.platform_by_node
      ≡ (if is_empty (evictions_of k es) then lookup k acc.0.platform_by_node else none)
unfolding relay_all
relay_all-lookup [] acc k = refl
relay_all-lookup (e ∷ es) acc k = ground (
  arith,
  relay_all-lookup es (relay e acc) k,
  relay-lookup e acc k,
  evictions_of-append k (e ∷ []) es,
)

-- A tick keeps the seats in order, and frees those of the nodes that it evicts and no others: a node
-- that the membership's tick evicts is listed under no platform afterwards and holds no seat, and any
-- other node is listed as before.
pub tick-Seated :
    (pool : CrossPlatformPool) (uuid : NodeId → LeaseId) (now : ℕ) (k : NodeId)
    → Seated pool
    → Seated (tick pool uuid now).0
      × (((is_empty (evictions_of k (membership_tick pool.membership uuid now).1) ≡ true)
            × (lookup k (tick pool uuid now).0.platform_by_node ≡ lookup k pool.platform_by_node))
          ⊎ ((is_empty (evictions_of k (membership_tick pool.membership uuid now).1) ≡ false)
              × (lookup k (tick pool uuid now).0.platform_by_node ≡ none)))
unfolding tick
tick-Seated pool uuid now k h =
    let events = (membership_tick pool.membership uuid now).1 in
    let listed = relay_all-lookup events _ k in
    (
      ticked-Seated pool uuid now h,
      elim (Bool-cases (is_empty (evictions_of k events))) [
        | inl kept ↦ inl (kept, listed ∙ rw kept refl)
        | inr out ↦ inr (out, listed ∙ rw out refl)
      ],
    )
