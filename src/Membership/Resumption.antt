-- ===== src/Membership/Resumption.antt =====
-- What a member that goes away and comes back by `apply(_:to:)` keeps (MembershipService.swift): its
-- lease, even over a change of the epoch.
use mathlib.Core.Option as Option
use share_compute.Prelude.{
  ℕ, some, ◌≡◌, ◌≢◌, refl, sym, ap, ◌∙◌, inl, inr, arith, lookup, lookup-map_values, string_eq, [],
}
use share_compute.Capability.{NodeId}
use share_compute.Node.{
  NodeState, NodeEvent, next, apply, suspended, active_core, heartbeat_lost, joined_as_core,
  participates_in_planning,
}
use share_compute.Lease.{Lease, LeaseId}
use share_compute.Membership.{MembershipService, MemberRecord, MembershipConfig}
use share_compute.Membership.Reports.{apply_event}
use share_compute.Membership.Tick.{tick, reissued, reissue_leases, verdict}
use share_compute.Membership.Sweep.{settle, sweep_all-lookup}
use share_compute.Membership.Settled.{tick_cases, swept, in_new_epoch}
use share_compute.Membership.Heartbeats.{lookup-insert_self}

applied-lookup :
    (s : MembershipService) (k : NodeId) (event : NodeEvent) (r : MemberRecord) (t : NodeState)
    → lookup k s.storage ≡ some r
    → next r.state event ≡ some t
    → (lookup k (apply_event s event k).0.storage ≡ some (record r { state = t }))
      × ((apply_event s event k).0.current_epoch ≡ s.current_epoch)
unfolding apply_event apply
applied-lookup s k event r t e h =
    rw (e, apply_event, apply, h) (lookup-insert_self k _ s.storage, refl)

settle-suspended :
    (config : MembershipConfig) (now : ℕ) (r : MemberRecord)
    → r.state ≡ suspended
    → settle config now r ≡ r
unfolding settle verdict participates_in_planning
settle-suspended config now r h = ground arith

reissued-suspended :
    (s : MembershipService) (uuid : NodeId → LeaseId) (now : ℕ) (r : MemberRecord)
    → r.state ≡ suspended
    → reissued s uuid now r ≡ r
unfolding reissued participates_in_planning
reissued-suspended s uuid now r h = ground arith

-- A tick does not touch a suspended member.
pub tick-suspended :
    (s : MembershipService) (uuid : NodeId → LeaseId) (now : ℕ) (k : NodeId) (r : MemberRecord)
    → lookup k s.storage ≡ some r
    → r.state ≡ suspended
    → lookup k (tick s uuid now).0.storage ≡ some r
unfolding reissue_leases
tick-suspended s uuid now k r e h =
    let kept : lookup k (swept s now).storage ≡ some r =
      sweep_all-lookup now k s []
      ∙ ap (Option.map (settle s.config now)) e
      ∙ ap some (settle-suspended s.config now r h) in
    elim (tick_cases s uuid now) [
      | inl same ↦ ap (λ t. lookup k t.storage) same ∙ kept
      | inr (new, _, _) ↦
          let t = in_new_epoch (swept s now) now in
          ap (λ u. lookup k u.storage) new
          ∙ lookup-map_values (reissued t uuid now) k (swept s now).storage
          ∙ ap (Option.map (reissued t uuid now)) kept
          ∙ ap some (reissued-suspended t uuid now r h)
    ]

-- The member is lost, the ring ticks without it, and the host applies its join.
abbrev pub away_and_back : MembershipService → (NodeId → LeaseId) → ℕ → NodeId → MembershipService
away_and_back s uuid now k =
    (apply_event (tick (apply_event s heartbeat_lost k).0 uuid now).0 joined_as_core k).0

-- A core member that is lost by an applied event and brought back by an applied join, with a tick
-- between that changes the epoch, is an active core member again with the lease that it had before:
-- a lease of the old epoch, which is not the current one.
pub resumed_lease :
    (s : MembershipService) (uuid : NodeId → LeaseId) (now : ℕ) (k : NodeId) (r : MemberRecord)
    (l : Lease)
    → lookup k s.storage ≡ some r
    → r.state ≡ active_core
    → r.lease ≡ some l
    → l.epoch ≡ s.current_epoch
    → (tick (apply_event s heartbeat_lost k).0 uuid now).0.current_epoch ≢ s.current_epoch
    → (r' : MemberRecord) × (lookup k (away_and_back s uuid now k).storage ≡ some r')
      × (r'.state ≡ active_core)
      × (r'.lease ≡ some l)
      × (l.epoch ≢ (away_and_back s uuid now k).current_epoch)
unfolding next
resumed_lease s uuid now k r l e active held fresh renewed =
    let (gone, _) = applied-lookup s k heartbeat_lost r suspended e (rw active refl) in
    let s' = (apply_event s heartbeat_lost k).0 in
    let kept = tick-suspended s' uuid now k (record r { state = suspended }) gone refl in
    let (back, epoch) =
      applied-lookup (tick s' uuid now).0 k joined_as_core (record r { state = suspended })
        active_core kept refl in
    (_, back, refl, held, λ q. renewed (sym epoch ∙ sym q ∙ fresh))
