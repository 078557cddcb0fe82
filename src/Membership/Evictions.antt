-- ===== src/Membership/Evictions.antt =====
-- Whom `tick(at:)` evicts (MembershipService.swift), and why.
use mathlib.Core.Option as Option
use mathlib.Core.List.{append-nil}
use share_compute.Prelude.{
  ℕ, ◌+◌, ◌-◌, ◌<◌, ◌≤◌, true, Option, none, some, List, [], ◌∷◌, ◌++◌, ◌≡◌, ◌↔◌, refl, sym, inl,
  inr, arith, if◌then◌else◌, lookup, keys, contains, sort_by, string_eq, length, lookup-not_key,
  any-sort_by, Option-cases, ◌=?◌,
}
use share_compute.Capability.{NodeId, id_lt}
use share_compute.Node.{draining, participates_in_planning}
use share_compute.Lease.{next_epoch, Lease, LeaseId, is_valid}
use share_compute.Membership.{
  MembershipConfig, MembershipService, MembershipEvent, node_joined, node_draining, node_evicted,
  epoch_changed, epoch_change_deferred, EvictionReason, heartbeat_loss, lease_expiry, drained,
  MemberRecord,
}
use share_compute.Membership.Tick.{verdict, visit, sweep, renew_epoch, tick, planning_set}
use share_compute.Membership.Sweep.{settle, verdict-settle, visit-lookup, visit-config}

-- Why a list of events evicts a node, each time that it does.
abbrev pub evictions_of : NodeId → List MembershipEvent → List EvictionReason
evictions_of k [] = []
evictions_of k (node_evicted id reason ∷ events) =
    let rest = evictions_of k events in if id =? k then reason ∷ rest else rest
evictions_of k (node_joined id ∷ events) = evictions_of k events
evictions_of k (node_draining id ∷ events) = evictions_of k events
evictions_of k (epoch_changed e members ∷ events) = evictions_of k events
evictions_of k (epoch_change_deferred d ∷ events) = evictions_of k events

pub evictions_of-append :
    (k : NodeId) (xs ys : List MembershipEvent)
    → evictions_of k (xs ++ ys) ≡ evictions_of k xs ++ evictions_of k ys
evictions_of-append k [] ys = refl
evictions_of-append k (node_evicted id reason ∷ xs) ys = ground (arith, evictions_of-append k xs ys)
evictions_of-append k (node_joined id ∷ xs) ys = evictions_of-append k xs ys
evictions_of-append k (node_draining id ∷ xs) ys = evictions_of-append k xs ys
evictions_of-append k (epoch_changed e members ∷ xs) ys = evictions_of-append k xs ys
evictions_of-append k (epoch_change_deferred d ∷ xs) ys = evictions_of-append k xs ys

-- The evictions that the loop owes to a record.
unfoldable pub due : MembershipConfig → ℕ → Option MemberRecord → List EvictionReason
due config now none = []
due config now (some r) = elim (verdict config now r) [ none ↦ [] | some reason ↦ reason ∷ [] ]

due-settle :
    (config : MembershipConfig) (now : ℕ) (found : Option MemberRecord)
    → due config now (Option.map (settle config now) found) ≡ []
unfolding due
due-settle config now none = refl
due-settle config now (some r) = rw (due, verdict-settle config now r)

visit-evictions :
    (now : ℕ) (id k : NodeId) (s : MembershipService) (events : List MembershipEvent)
    → evictions_of k (visit now id (s, events)).1
      ≡ evictions_of k events ++ (if id =? k then due s.config now (lookup k s.storage) else [])
unfolding visit due
visit-evictions now id k s events = elim (Option-cases (lookup id s.storage)) [
  | inl e ↦ ground (arith, string_eq.beq_iff id k, append-nil (evictions_of k events))
  | inr (r, e) ↦ elim (Option-cases (verdict s.config now r)) [
    | inl v ↦ ground (arith, string_eq.beq_iff id k, append-nil (evictions_of k events))
    | inr (reason, v) ↦ ground (
      arith,
      string_eq.beq_iff id k,
      append-nil (evictions_of k events),
      evictions_of-append k events (node_evicted id reason ∷ []),
    )
  ]
]

sweep-evictions :
    (now : ℕ) (ids : List NodeId) (k : NodeId) (s : MembershipService)
    (events : List MembershipEvent)
    → evictions_of k (sweep now ids (s, events)).1
      ≡ evictions_of k events
        ++ (if contains ids k then due s.config now (lookup k s.storage) else [])
unfolding sweep
sweep-evictions now [] k s events = sym (append-nil (evictions_of k events))
sweep-evictions now (id ∷ ids) k s events =
    let (t, events') = visit now id (s, events) in
    let rest = rw (visit-config now id s events) at (sweep-evictions now ids k t events') in
    let owed = due s.config now (lookup k s.storage) in
    ground (
      arith,
      rest,
      visit-lookup now id k s events,
      visit-evictions now id k s events,
      due-settle s.config now (lookup k s.storage),
      append-nil (evictions_of k events),
      append-nil (evictions_of k events ++ owed),
    )

renew_epoch-evictions :
    (uuid : NodeId → LeaseId) (now : ℕ) (k : NodeId) (s : MembershipService)
    (events : List MembershipEvent)
    → evictions_of k (renew_epoch uuid now (s, events)).1 ≡ evictions_of k events
unfolding renew_epoch
renew_epoch-evictions uuid now k s events = ground (
  arith,
  append-nil (evictions_of k events),
  evictions_of-append k events
      (epoch_changed (next_epoch s.current_epoch) (sort_by id_lt (planning_set s)) ∷ []),
  evictions_of-append k events (
      epoch_change_deferred (s.last_epoch_changed_at + s.config.minimum_epoch_dwell_time - now)
      ∷ []),
)

pub tick-evictions :
    (s : MembershipService) (uuid : NodeId → LeaseId) (now : ℕ) (k : NodeId)
    → evictions_of k (tick s uuid now).1 ≡ due s.config now (lookup k s.storage)
unfolding tick due
tick-evictions s uuid now k = ground (
  arith,
  renew_epoch-evictions uuid now k (sweep now (sort_by id_lt (keys s.storage)) (s, [])).0
      (sweep now (sort_by id_lt (keys s.storage)) (s, [])).1,
  sweep-evictions now (sort_by id_lt (keys s.storage)) k s [],
  any-sort_by id_lt (λ x. x =? k) (keys s.storage),
  lookup-not_key k s.storage,
)

-- The grounds of an eviction, as the service documents them: a drain is completed at once; a member
-- of the ring goes for heartbeats missed in a row, or else for a lease that has run out.
pub data Due (config : MembershipConfig) (now : ℕ) (r : MemberRecord)
    : EvictionReason → Type 0 where
  drains : r.state ≡ draining → Due config now r drained
  silent :
      participates_in_planning r.state ≡ true
      → config.missed_heartbeats_before_eviction ≤ r.consecutive_missed_heartbeats
      → Due config now r heartbeat_loss
  lapsed :
      (l : Lease)
      → participates_in_planning r.state ≡ true
      → r.consecutive_missed_heartbeats < config.missed_heartbeats_before_eviction
      → r.lease ≡ some l
      → l.expires_at ≤ now
      → Due config now r lease_expiry

verdict-Due :
    (config : MembershipConfig) (now : ℕ) (r : MemberRecord) (reason : EvictionReason)
    → verdict config now r ≡ some reason
    → Due config now r reason
unfolding verdict is_valid participates_in_planning
verdict-Due config now r drained h = drains (ground arith)
verdict-Due config now r heartbeat_loss h = silent (ground arith) (ground arith)
verdict-Due config now r lease_expiry h = elim (Option-cases r.lease) [
  | inl e ↦ absurd (ground arith)
  | inr (l, e) ↦ lapsed l (ground arith) (ground arith) e (ground arith)
]

Due-verdict :
    (config : MembershipConfig) (now : ℕ) (r : MemberRecord) (reason : EvictionReason)
    → Due config now r reason
    → verdict config now r ≡ some reason
unfolding verdict is_valid participates_in_planning
Due-verdict config now r drained (drains h) = ground arith
Due-verdict config now r heartbeat_loss (silent p h) = ground arith
Due-verdict config now r lease_expiry (lapsed l p h e x) = ground arith

-- A tick reports a node as evicted at most once, and it reports it so for a reason exactly when the
-- node is a member that has this ground, the first that it has in the order drain, heartbeats, lease:
-- nobody else is reported as evicted.
pub tick-evicts_iff :
    (s : MembershipService) (uuid : NodeId → LeaseId) (now : ℕ) (k : NodeId)
    (reason : EvictionReason)
    → ((evictions_of k (tick s uuid now).1 ≡ reason ∷ [])
        ↔ ((r : MemberRecord) × (lookup k s.storage ≡ some r) × Due s.config now r reason))
      × (length (evictions_of k (tick s uuid now).1) ≤ 1)
unfolding due
tick-evicts_iff s uuid now k reason = ((to, from), ground (arith, tick-evictions s uuid now k))
  where
    to :
        evictions_of k (tick s uuid now).1 ≡ reason ∷ []
        → (r : MemberRecord) × (lookup k s.storage ≡ some r) × Due s.config now r reason
    to h = elim (Option-cases (lookup k s.storage)) [
      | inl e ↦ absurd (ground (arith, tick-evictions s uuid now k))
      | inr (r, e) ↦
          (r, e, verdict-Due s.config now r reason (ground (arith, tick-evictions s uuid now k)))
    ]

    from :
        (r : MemberRecord) × (lookup k s.storage ≡ some r) × Due s.config now r reason
        → evictions_of k (tick s uuid now).1 ≡ reason ∷ []
    from (r, e, d) =
        ground (arith, tick-evictions s uuid now k, Due-verdict s.config now r reason d)
