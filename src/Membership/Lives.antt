-- ===== src/Membership/Lives.antt =====
-- MembershipService.swift refines the lifecycle of a node: a tick, and whole histories.
use mathlib.Core.Option as Option
use share_compute.Prelude.{
  ℕ, true, none, some, Option, List, [], ◌∷◌, ◌≡◌, refl, ap, ◌∙◌, inl, inr, arith, lookup,
  lookup-map_values, Option-cases, string_eq,
}
use share_compute.Capability.{NodeId}
use share_compute.Node.{
  NodeState, draining, suspended, next, apply, participates_in_planning, drain_completed,
  heartbeat_lost, lease_expired,
}
use share_compute.Lease.{LeaseId}
use share_compute.Membership.{
  MembershipService, MemberRecord, MembershipConfig, drained, heartbeat_loss, lease_expiry,
}
use share_compute.Membership.Tick.{tick, reissued, reissue_leases, evicted, verdict}
use share_compute.Membership.Sweep.{settle, sweep_all-lookup}
use share_compute.Membership.Settled.{tick_cases, swept, in_new_epoch}
use share_compute.Membership.History.{
  Call, appears, answers, fails, announces, applies, ticks, Entry, dispatch, run,
}
use share_compute.Membership.Lifecycle.{
  Follows, unknown_tick, drains_out, evicts, keeps, Life, rests, follows, state_of,
}
use share_compute.Membership.Reported.{
  node_appeared-Follows, heartbeat_succeeded-Follows, heartbeat_failed-Follows,
  node_announced_drain-Follows, apply_event-Follows,
}

abbrev state_in : Option MemberRecord → Option NodeState
state_in = Option.map (λ (r : MemberRecord). r.state)

settle-Follows :
    (config : MembershipConfig) (now : ℕ) (k : NodeId) (r : MemberRecord)
    → Follows k ticks (some r.state) (some (settle config now r).state)
unfolding settle evicted
settle-Follows config now k r = elim (Option-cases (verdict config now r)) [
  | inl e ↦ rw (settle, e) (keeps r.state (unfold verdict in ground arith))
  | inr (drained, e) ↦
      let state : r.state ≡ draining = unfold verdict in ground arith in
      let out : (apply drain_completed r.state).0 ≡ suspended = unfold apply next in ground arith in
      rw (settle, e, evicted, out, state) drains_out
  | inr (heartbeat_loss, e) ↦
      let member : participates_in_planning r.state ≡ true =
        unfold verdict participates_in_planning in ground arith in
      let out : (apply heartbeat_lost r.state).0 ≡ suspended =
        unfold apply next participates_in_planning in ground arith in
      rw (settle, e, evicted, out) (evicts r.state member)
  | inr (lease_expiry, e) ↦
      let member : participates_in_planning r.state ≡ true =
        unfold verdict participates_in_planning in ground arith in
      let out : (apply lease_expired r.state).0 ≡ suspended =
        unfold apply next participates_in_planning in ground arith in
      rw (settle, e, evicted, out) (evicts r.state member)
]

settled-Follows :
    (config : MembershipConfig) (now : ℕ) (k : NodeId) (found : Option MemberRecord)
    → Follows k ticks (state_in found) (state_in (Option.map (settle config now) found))
settled-Follows config now k none = unknown_tick
settled-Follows config now k (some r) = settle-Follows config now k r

swept-Follows :
    (s : MembershipService) (now : ℕ) (k : NodeId)
    → Follows k ticks (state_of k s) (state_of k (swept s now))
swept-Follows s now k =
    rw (sweep_all-lookup now k s []) (settled-Follows s.config now k (lookup k s.storage))

-- New leases leave every state alone.
reissued-state :
    (s : MembershipService) (uuid : NodeId → LeaseId) (now : ℕ) (found : Option MemberRecord)
    → state_in (Option.map (reissued s uuid now) found) ≡ state_in found
unfolding reissued
reissued-state s uuid now none = refl
reissued-state s uuid now (some r) = ground arith

reissue_leases-state :
    (s : MembershipService) (uuid : NodeId → LeaseId) (now : ℕ) (k : NodeId)
    → state_of k (reissue_leases s uuid now) ≡ state_of k s
unfolding reissue_leases
reissue_leases-state s uuid now k =
    ap state_in (lookup-map_values (reissued s uuid now) k s.storage)
    ∙ reissued-state s uuid now (lookup k s.storage)

tick-Follows :
    (s : MembershipService) (uuid : NodeId → LeaseId) (now : ℕ) (k : NodeId)
    → Follows k ticks (state_of k s) (state_of k (tick s uuid now).0)
tick-Follows s uuid now k = elim (tick_cases s uuid now) [
  | inl e ↦ rw e (swept-Follows s now k)
  | inr (e, _, _) ↦
      rw (e, reissue_leases-state (in_new_epoch (swept s now) now) uuid now k)
        (swept-Follows s now k)
]

dispatch-Follows :
    (s : MembershipService) (uuid : NodeId → LeaseId) (now : ℕ) (c : Call) (k : NodeId)
    → Follows k c (state_of k s) (state_of k (dispatch s uuid now c))
unfolding dispatch
dispatch-Follows s uuid now (appears profile) k = node_appeared-Follows s k uuid now profile
dispatch-Follows s uuid now (answers id) k = heartbeat_succeeded-Follows s k uuid now id
dispatch-Follows s uuid now (fails id) k = heartbeat_failed-Follows s k id
dispatch-Follows s uuid now (announces id) k = node_announced_drain-Follows s k now id
dispatch-Follows s uuid now (applies event id) k = apply_event-Follows s k event id
dispatch-Follows s uuid now ticks k = tick-Follows s uuid now k

-- Whatever is called, with whatever times and identifiers, the membership refines the lifecycle of
-- each node, call by call. A call about another node and a heartbeat, answered or not, leave its
-- state alone. A discovery gives it the initial state of its profile if it was unknown or suspended,
-- and nothing else if not. An announced drain makes a member of the ring a draining one, and an
-- applied event moves it along its edge of the state machine, if it has one. A tick suspends it if it
-- drains, suspends or keeps it if it is in the ring, and else leaves it alone. No call forgets it.
pub run-Life :
    (s : MembershipService) (es : List Entry) (k : NodeId)
    → Life k es (state_of k s) (state_of k (run s es))
unfolding run
run-Life s [] k = rests (state_of k s)
run-Life s (e ∷ es) k =
    follows e es _ _ _ (dispatch-Follows s e.uuid e.at e.call k)
      (run-Life (dispatch s e.uuid e.at e.call) es k)
