-- ===== src/Monitor/Blame.antt =====
-- Whom RingHealthMonitor.swift blames when a round's events carry a loss: the events of a round are
-- those of the membership's tick, in which nobody announces a drain.
use share_compute.Prelude.{
  ℕ, Bool, true, false, List, [], ◌∷◌, ◌++◌, ◌+◌, ◌-◌, ◌≡◌, refl, arith, inl, inr, any,
  Option-cases, lookup, string_eq, keys, sort_by,
}
use share_compute.Capability.{NodeId, id_lt}
use share_compute.Lease.{LeaseId, next_epoch}
use share_compute.Membership.{
  MembershipService, MembershipEvent, node_joined, node_draining, node_evicted, epoch_changed,
  epoch_change_deferred, EvictionReason, drained, heartbeat_loss, lease_expiry,
}
use share_compute.Membership.Tick.{visit, sweep, renew_epoch, tick, verdict, planning_set}
use share_compute.Membership.Evictions.{evictions_of}
use share_compute.Watchdog.{RingLossReason, member_departed, member_unreachable}

-- The loss that an eviction is taken for.
abbrev pub Blames : NodeId → EvictionReason → RingLossReason → Type 0
Blames n drained why = why ≡ member_departed n
Blames n heartbeat_loss why = why ≡ member_unreachable n
Blames n lease_expiry why = why ≡ member_unreachable n

-- The loss is that of a node which the events evict.
abbrev pub IsBlamed : List MembershipEvent → RingLossReason → Type 0
IsBlamed events why =
    (n : NodeId) × (reason : EvictionReason) × (more : List EvictionReason) × (evictions_of n events
      ≡ reason ∷ more)
    × Blames n reason why

abbrev pub announces_drain : MembershipEvent → Bool
announces_drain (node_draining n) = true
announces_drain (node_joined n) = false
announces_drain (node_evicted n reason) = false
announces_drain (epoch_changed e members) = false
announces_drain (epoch_change_deferred d) = false

any-append :
    (xs ys : List MembershipEvent)
    → any announces_drain xs ≡ false
    → any announces_drain ys ≡ false
    → any announces_drain (xs ++ ys) ≡ false
any-append [] ys h h' = h'
any-append (x ∷ xs) ys h h' = ground (arith, any-append xs ys)

visit-quiet :
    (now : ℕ) (id : NodeId) (s : MembershipService) (events : List MembershipEvent)
    → any announces_drain events ≡ false
    → any announces_drain (visit now id (s, events)).1 ≡ false
unfolding visit
visit-quiet now id s events h = elim (Option-cases (lookup id s.storage)) [
  | inl e ↦ rw (e, visit) h
  | inr (r, e) ↦ elim (Option-cases (verdict s.config now r)) [
    | inl v ↦ rw (e, visit, v) h
    | inr (reason, v) ↦ rw (e, visit, v) (any-append events (node_evicted id reason ∷ []) h refl)
  ]
]

sweep-quiet :
    (now : ℕ) (ids : List NodeId) (s : MembershipService) (events : List MembershipEvent)
    → any announces_drain events ≡ false
    → any announces_drain (sweep now ids (s, events)).1 ≡ false
unfolding sweep
sweep-quiet now [] s events h = h
sweep-quiet now (id ∷ ids) s events h =
    sweep-quiet now ids (visit now id (s, events)).0 (visit now id (s, events)).1
      (visit-quiet now id s events h)

renew_epoch-quiet :
    (uuid : NodeId → LeaseId) (now : ℕ) (s : MembershipService) (events : List MembershipEvent)
    → any announces_drain events ≡ false
    → any announces_drain (renew_epoch uuid now (s, events)).1 ≡ false
unfolding renew_epoch
renew_epoch-quiet uuid now s events h = ground (
  arith,
  any-append events
      (epoch_changed (next_epoch s.current_epoch) (sort_by id_lt (planning_set s)) ∷ []) h refl,
  any-append events
      (epoch_change_deferred (s.last_epoch_changed_at + s.config.minimum_epoch_dwell_time - now)
        ∷ [])
      h refl,
)

-- A tick tells of no announced drain.
pub tick-quiet :
    (s : MembershipService) (uuid : NodeId → LeaseId) (now : ℕ)
    → any announces_drain (tick s uuid now).1 ≡ false
unfolding tick
tick-quiet s uuid now =
    let ids = sort_by id_lt (keys s.storage) in
    renew_epoch-quiet uuid now (sweep now ids (s, [])).0 (sweep now ids (s, [])).1
      (sweep-quiet now ids s [] refl)
