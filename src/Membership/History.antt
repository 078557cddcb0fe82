-- ===== src/Membership/History.antt =====
-- The public operations of MembershipService.swift as the calls of a history.
use share_compute.Prelude.{ℕ, List, [], ◌∷◌}
use share_compute.Capability.{NodeId, CapabilityProfile}
use share_compute.Node.{NodeEvent}
use share_compute.Lease.{LeaseId}
use share_compute.Membership.{MembershipService}
use share_compute.Membership.Reports.{
  node_appeared, heartbeat_succeeded, heartbeat_failed, node_announced_drain, apply_event,
}
use share_compute.Membership.Tick.{tick}

pub data Call : Type 0 where
  appears : CapabilityProfile → Call
  answers fails announces : NodeId → Call
  applies : NodeEvent → NodeId → Call
  ticks : Call

-- A call, the time at which it is made, and what `UUID()` gives during it.
pub record Entry : Type 0 where
  pub at : ℕ
  pub uuid : NodeId → LeaseId
  pub call : Call

unfoldable pub dispatch : MembershipService → (NodeId → LeaseId) → ℕ → Call → MembershipService
dispatch s uuid now (appears profile) = (node_appeared s uuid now profile).0
dispatch s uuid now (answers id) = heartbeat_succeeded s uuid now id
dispatch s uuid now (fails id) = heartbeat_failed s id
dispatch s uuid now (announces id) = (node_announced_drain s now id).0
dispatch s uuid now (applies event id) = (apply_event s event id).0
dispatch s uuid now ticks = (tick s uuid now).0

unfoldable pub run : MembershipService → List Entry → MembershipService
run s [] = s
run s (e ∷ es) = run (dispatch s e.uuid e.at e.call) es
