-- ===== src/Membership/Authorised.antt =====
-- The leases of the ring through each report and the tick's loop (MembershipService.swift).
use share_compute.Prelude.{
  ℕ, Bool, true, false, some, List, ◌≡◌, refl, inl, inr, arith, AllBindings, AllBindings-insert,
  AllBindings-lookup, lookup, string_eq, Bool-cases, Option-cases,
}
use share_compute.Capability.{NodeId, CapabilityProfile}
use share_compute.Node.{
  NodeState, NodeEvent, joined_as_core, joined_as_elastic, joined_as_opportunistic,
  returned_to_foreground, entered_background, apply, participates_in_planning,
}
use share_compute.Lease.{Lease, LeaseId, Epoch}
use share_compute.Membership.{
  MembershipService, MembershipEvent, MemberRecord, issue_lease, store, is_suspended,
}
use share_compute.Membership.Reports.{
  node_appeared, heartbeat_succeeded, heartbeat_failed, node_announced_drain, apply_event,
}
use share_compute.Membership.Tick.{visit, evicted, verdict, event_for}

-- A member is stored under its own identity, and in the ring it holds a lease of its own for the
-- epoch.
pub record Authorised (epoch : Epoch) (k : NodeId) (r : MemberRecord) : Type 0 where
  pub own : r.profile.node_id ≡ k
  pub leased :
      participates_in_planning r.state ≡ true
      → (l : Lease) × (r.lease ≡ some l) × (l.epoch ≡ epoch) × (l.node_id ≡ k)

abbrev pub AllAuthorised : MembershipService → Type 0
AllAuthorised s = AllBindings (Authorised s.current_epoch) s.storage

-- The events that bring a suspended node back.
abbrev pub is_resuming : NodeEvent → Bool
is_resuming joined_as_core = true
is_resuming joined_as_elastic = true
is_resuming joined_as_opportunistic = true
is_resuming returned_to_foreground = true
is_resuming _ = false

pub still_in_ring :
    (event : NodeEvent) (state : NodeState)
    → is_resuming event ≡ false
    → participates_in_planning (apply event state).0 ≡ true
    → participates_in_planning state ≡ true
unfolding apply participates_in_planning
still_in_ring event state h p = ground arith

module _ (s : MembershipService) (h : AllAuthorised s) where
  store-AllAuthorised :
      (k : NodeId) (r : MemberRecord) → Authorised s.current_epoch k r → AllAuthorised (store s k r)
  store-AllAuthorised k r a = AllBindings-insert (Authorised s.current_epoch) k r s.storage a h

  found-Authorised :
      (k : NodeId) {r : MemberRecord} → lookup k s.storage ≡ some r → Authorised s.current_epoch k r
  found-Authorised k e = AllBindings-lookup (Authorised s.current_epoch) k s.storage h e

  pub node_appeared-AllAuthorised :
      (uuid : NodeId → LeaseId) (now : ℕ) (profile : CapabilityProfile)
      → AllAuthorised (node_appeared s uuid now profile).0
  unfolding node_appeared issue_lease
  node_appeared-AllAuthorised uuid now profile =
      elim (Option-cases (lookup profile.node_id s.storage)) [
        | inl e ↦
            rw (e, node_appeared)
              (store-AllAuthorised _ _ (record { own = refl; leased = λ p. (_, refl, refl, refl) }))
        | inr (r, e) ↦ elim (Bool-cases (is_suspended r.state)) [
          | inl away ↦
              rw (e, node_appeared, away)
                (store-AllAuthorised _ _
                  (record { own = refl; leased = λ p. (_, refl, refl, refl) }))
          | inr present ↦
              rw (e, node_appeared, present)
                (store-AllAuthorised _ _
                  (record { own = refl; leased = (found-Authorised _ e).leased }))
        ]
      ]

  pub heartbeat_succeeded-AllAuthorised :
      (uuid : NodeId → LeaseId) (now : ℕ) (k : NodeId)
      → AllAuthorised (heartbeat_succeeded s uuid now k)
  unfolding heartbeat_succeeded issue_lease
  heartbeat_succeeded-AllAuthorised uuid now k = elim (Option-cases (lookup k s.storage)) [
    | inl e ↦ rw (e, heartbeat_succeeded) h
    | inr (r, e) ↦
        let old = found-Authorised k e in
        elim (Bool-cases (participates_in_planning r.state)) [
          | inl p ↦
              rw (e, heartbeat_succeeded, p)
                (store-AllAuthorised _ _
                  (record { own = old.own; leased = λ _. (_, refl, refl, old.own) }))
          | inr p ↦
              rw (e, heartbeat_succeeded, p)
                (store-AllAuthorised _ _ (record { own = old.own; leased = old.leased }))
        ]
  ]

  pub heartbeat_failed-AllAuthorised : (k : NodeId) → AllAuthorised (heartbeat_failed s k)
  unfolding heartbeat_failed
  heartbeat_failed-AllAuthorised k = elim (Option-cases (lookup k s.storage)) [
    | inl e ↦ rw (e, heartbeat_failed) h
    | inr (r, e) ↦
        let old = found-Authorised k e in
        rw (e, heartbeat_failed)
          (store-AllAuthorised _ _ (record { own = old.own; leased = old.leased }))
  ]

  -- A move that brings nobody back into the ring leaves the leases as they are.
  moved-Authorised :
      (k : NodeId) (r : MemberRecord) (state : NodeState) (heard : ℕ)
      → lookup k s.storage ≡ some r
      → (participates_in_planning state ≡ true → participates_in_planning r.state ≡ true)
      → AllAuthorised (store s k (record r { state = state; last_heard_from = heard }))
  moved-Authorised k r state heard e down =
      let old = found-Authorised k e in
      store-AllAuthorised _ _ (record { own = old.own; leased = λ p. old.leased (down p) })

  pub node_announced_drain-AllAuthorised :
      (now : ℕ) (k : NodeId) → AllAuthorised (node_announced_drain s now k).0
  unfolding node_announced_drain
  node_announced_drain-AllAuthorised now k = elim (Option-cases (lookup k s.storage)) [
    | inl e ↦ rw (e, node_announced_drain) h
    | inr (r, e) ↦ elim (Bool-cases (apply entered_background r.state).1) [
      | inl m ↦
          rw (e, node_announced_drain, m)
            (moved-Authorised k r _ now e (still_in_ring entered_background r.state refl))
      | inr m ↦ rw (e, node_announced_drain, m) h
    ]
  ]

  pub apply_event-AllAuthorised :
      (event : NodeEvent) (k : NodeId)
      → is_resuming event ≡ false
      → AllAuthorised (apply_event s event k).0
  unfolding apply_event
  apply_event-AllAuthorised event k q = elim (Option-cases (lookup k s.storage)) [
    | inl e ↦ rw (e, apply_event) h
    | inr (r, e) ↦ elim (Bool-cases (apply event r.state).1) [
      | inl m ↦
          rw (e, apply_event, m)
            (moved-Authorised k r _ r.last_heard_from e (still_in_ring event r.state q))
      | inr m ↦ rw (e, apply_event, m) h
    ]
  ]

  pub visit-AllAuthorised :
      (now : ℕ) (k : NodeId) (events : List MembershipEvent)
      → AllAuthorised (visit now k (s, events)).0
  unfolding visit evicted
  visit-AllAuthorised now k events = elim (Option-cases (lookup k s.storage)) [
    | inl e ↦ rw (e, visit) h
    | inr (r, e) ↦ elim (Option-cases (verdict s.config now r)) [
      | inl v ↦ rw (e, visit, v) h
      | inr (reason, v) ↦
          rw (e, visit, v)
            (moved-Authorised k r _ r.last_heard_from e
              (still_in_ring (event_for reason) r.state (ground arith)))
    ]
  ]
