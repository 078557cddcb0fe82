-- ===== src/Membership/Reported.antt =====
-- The operations of MembershipService.swift that report on one node, against the lifecycle.
use share_compute.Prelude.{ℕ, some, refl, inl, inr, lookup, string_eq, Bool-cases, Option-cases}
use share_compute.Capability.{NodeId, CapabilityProfile}
use share_compute.Node.{NodeEvent, apply, entered_background, participates_in_planning}
use share_compute.Lease.{LeaseId}
use share_compute.Membership.{MembershipService, is_suspended}
use share_compute.Membership.History.{appears, answers, fails, announces, applies}
use share_compute.Membership.Reports.{
  node_appeared, heartbeat_succeeded, heartbeat_failed, node_announced_drain, apply_event,
}
use share_compute.Membership.Lifecycle.{
  answered, failed, discovered, known, unknown_drain, unknown_event, Follows, state_of,
  stored-Follows, kept-Follows, returned, withdrawn, not_withdrawn, moved-Follows, unmoved-Follows,
}

module _ (s : MembershipService) (k : NodeId) where
  pub node_appeared-Follows :
      (uuid : NodeId → LeaseId) (now : ℕ) (p : CapabilityProfile)
      → Follows k (appears p) (state_of k s) (state_of k (node_appeared s uuid now p).0)
  unfolding node_appeared
  node_appeared-Follows uuid now p = elim (Option-cases (lookup p.node_id s.storage)) [
    | inl e ↦
        rw (e, node_appeared)
          (stored-Follows s (appears p) k p.node_id _ refl (rw e (discovered p refl)))
    | inr (r, e) ↦ elim (Bool-cases (is_suspended r.state)) [
      | inl away ↦
          rw (e, node_appeared, away)
            (stored-Follows s (appears p) k p.node_id _ refl (rw e (returned p r.state away)))
      | inr present ↦
          rw (e, node_appeared, present)
            (stored-Follows s (appears p) k p.node_id _ refl (rw e (known p r.state refl present)))
    ]
  ]

  pub heartbeat_succeeded-Follows :
      (uuid : NodeId → LeaseId) (now : ℕ) (n : NodeId)
      → Follows k (answers n) (state_of k s) (state_of k (heartbeat_succeeded s uuid now n))
  unfolding heartbeat_succeeded
  heartbeat_succeeded-Follows uuid now n = elim (Option-cases (lookup n s.storage)) [
    | inl e ↦ rw (e, heartbeat_succeeded) (kept-Follows s (answers n) k n refl (answered _))
    | inr (r, e) ↦ elim (Bool-cases (participates_in_planning r.state)) [
      | inl p ↦
          rw (e, heartbeat_succeeded, p)
            (stored-Follows s (answers n) k n _ refl (rw e (answered (some r.state))))
      | inr p ↦
          rw (e, heartbeat_succeeded, p)
            (stored-Follows s (answers n) k n _ refl (rw e (answered (some r.state))))
    ]
  ]

  pub heartbeat_failed-Follows :
      (n : NodeId) → Follows k (fails n) (state_of k s) (state_of k (heartbeat_failed s n))
  unfolding heartbeat_failed
  heartbeat_failed-Follows n = elim (Option-cases (lookup n s.storage)) [
    | inl e ↦ rw (e, heartbeat_failed) (kept-Follows s (fails n) k n refl (failed _))
    | inr (r, e) ↦
        rw (e, heartbeat_failed)
          (stored-Follows s (fails n) k n _ refl (rw e (failed (some r.state))))
  ]

  pub node_announced_drain-Follows :
      (now : ℕ) (n : NodeId)
      → Follows k (announces n) (state_of k s) (state_of k (node_announced_drain s now n).0)
  unfolding node_announced_drain
  node_announced_drain-Follows now n = elim (Option-cases (lookup n s.storage)) [
    | inl e ↦
        rw (e, node_announced_drain) (kept-Follows s (announces n) k n refl (rw e unknown_drain))
    | inr (r, e) ↦ elim (Bool-cases (apply entered_background r.state).1) [
      | inl b ↦
          rw (e, node_announced_drain, b)
            (stored-Follows s (announces n) k n _ refl (rw e (withdrawn n r.state b)))
      | inr b ↦
          rw (e, node_announced_drain, b)
            (kept-Follows s (announces n) k n refl (rw e (not_withdrawn n r.state b)))
    ]
  ]

  pub apply_event-Follows :
      (event : NodeEvent) (n : NodeId)
      → Follows k (applies event n) (state_of k s) (state_of k (apply_event s event n).0)
  unfolding apply_event
  apply_event-Follows event n = elim (Option-cases (lookup n s.storage)) [
    | inl e ↦
        rw (e, apply_event) (kept-Follows s (applies event n) k n refl (rw e (unknown_event event)))
    | inr (r, e) ↦ elim (Bool-cases (apply event r.state).1) [
      | inl b ↦
          rw (e, apply_event, b)
            (stored-Follows s (applies event n) k n _ refl (rw e (moved-Follows n event r.state b)))
      | inr b ↦
          rw (e, apply_event, b)
            (kept-Follows s (applies event n) k n refl (rw e (unmoved-Follows n event r.state b)))
    ]
  ]
