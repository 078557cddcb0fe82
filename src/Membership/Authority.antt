-- ===== src/Membership/Authority.antt =====
-- Leases and epochs (MembershipService.swift): whose work the leases of the ring authorise.
use share_compute.Prelude.{
  ℕ, false, List, [], ◌∷◌, ◌≡◌, refl, sym, subst, inl, inr, arith, All, AllBindings,
  AllBindings-map_values, keys, sort_by, string_eq, Bool-cases,
}
use share_compute.Capability.{NodeId, id_lt}
use share_compute.Node.{participates_in_planning}
use share_compute.Lease.{LeaseId, Epoch}
use share_compute.Membership.{MembershipService, MembershipEvent, issue_lease}
use share_compute.Membership.Tick.{visit, sweep, tick, reissued, reissue_leases}
use share_compute.Membership.Settled.{tick_cases, swept, in_new_epoch}
use share_compute.Membership.History.{
  Call, appears, answers, fails, announces, applies, ticks, Entry, dispatch, run,
}
use share_compute.Membership.Authorised.{
  Authorised, AllAuthorised, is_resuming, node_appeared-AllAuthorised,
  heartbeat_succeeded-AllAuthorised, heartbeat_failed-AllAuthorised,
  node_announced_drain-AllAuthorised, apply_event-AllAuthorised, visit-AllAuthorised,
}

sweep-AllAuthorised :
    (now : ℕ) (ids : List NodeId) (s : MembershipService) (events : List MembershipEvent)
    → AllAuthorised s
    → AllAuthorised (sweep now ids (s, events)).0
unfolding sweep
sweep-AllAuthorised now [] s events h = h
sweep-AllAuthorised now (id ∷ ids) s events h =
    let (t, events') = visit now id (s, events) in
    sweep-AllAuthorised now ids t events' (visit-AllAuthorised s h now id events)

-- `reissueLeases` gives every member of the ring a lease for the epoch, whatever it held.
reissue_leases-AllAuthorised :
    (s : MembershipService) (epoch : Epoch) (uuid : NodeId → LeaseId) (now : ℕ)
    → AllBindings (Authorised epoch) s.storage
    → AllAuthorised (reissue_leases s uuid now)
unfolding reissue_leases reissued issue_lease
reissue_leases-AllAuthorised s epoch uuid now h =
    AllBindings-map_values (Authorised epoch) (Authorised s.current_epoch) _ s.storage
      (λ k r a. elim (Bool-cases (participates_in_planning r.state)) [
        | inl p ↦ rw p (record { own = a.own; leased = λ _. (_, refl, refl, a.own) })
        | inr p ↦ rw p (record { own = a.own; leased = λ q. absurd (ground arith) })
      ])
      h

tick-AllAuthorised :
    (s : MembershipService) (uuid : NodeId → LeaseId) (now : ℕ)
    → AllAuthorised s
    → AllAuthorised (tick s uuid now).0
tick-AllAuthorised s uuid now h =
    let kept = sweep-AllAuthorised now (sort_by id_lt (keys s.storage)) s [] h in
    elim (tick_cases s uuid now) [
      | inl e ↦ subst AllAuthorised (sym e) kept
      | inr (e, _, _) ↦ subst AllAuthorised (sym e) (
          reissue_leases-AllAuthorised (in_new_epoch (swept s now) now) (swept s now).current_epoch
            uuid now kept)
    ]

-- The calls of the service itself: they bring a node back only by discovering it again.
abbrev pub Discovers : Call → Type 0
Discovers (applies event id) = is_resuming event ≡ false
Discovers _ = Unit {0}

dispatch-AllAuthorised :
    (s : MembershipService) (uuid : NodeId → LeaseId) (now : ℕ) (c : Call)
    → Discovers c
    → AllAuthorised s
    → AllAuthorised (dispatch s uuid now c)
unfolding dispatch
dispatch-AllAuthorised s uuid now (appears profile) d h =
    node_appeared-AllAuthorised s h uuid now profile
dispatch-AllAuthorised s uuid now (answers id) d h =
    heartbeat_succeeded-AllAuthorised s h uuid now id
dispatch-AllAuthorised s uuid now (fails id) d h = heartbeat_failed-AllAuthorised s h id
dispatch-AllAuthorised s uuid now (announces id) d h = node_announced_drain-AllAuthorised s h now id
dispatch-AllAuthorised s uuid now (applies event id) d h = apply_event-AllAuthorised s h event id d
dispatch-AllAuthorised s uuid now ticks d h = tick-AllAuthorised s uuid now h

-- In any history in which suspended nodes come back by being discovered, never by an event that
-- the host applies by hand, it stays true that every member is stored under its own identity and
-- that every member of the ring holds a lease of its own for the current epoch.
pub run-AllAuthorised :
    (s : MembershipService) (es : List Entry)
    → All (λ e. Discovers e.call) es
    → AllAuthorised s
    → AllAuthorised (run s es)
unfolding run
run-AllAuthorised s [] d h = h
run-AllAuthorised s (e ∷ es) d h =
    run-AllAuthorised (dispatch s e.uuid e.at e.call) es d.1
      (dispatch-AllAuthorised s e.uuid e.at e.call d.0 h)
