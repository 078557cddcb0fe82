-- ===== src/Membership/Orders.antt =====
-- Histories of MembershipService.swift do not see the order of its dictionary.
use share_compute.Prelude.{
  ℕ, List, [], ◌∷◌, ◌+◌, ◌≡◌, refl, sym, ap, subst, inl, inr, AllBindings, AllBindings-map_values,
  keys, sort_by, map, string_eq, Bool-cases, leb,
}
use share_compute.Prelude.Reorder.{SameDict, map_values-SameDict}
use share_compute.Capability.{NodeId, id_lt}
use share_compute.Node.{participates_in_planning}
use share_compute.Lease.{LeaseId, next_epoch}
use share_compute.Membership.{
  MembershipService, MembershipEvent, Storage, member_id, planning_members,
}
use share_compute.Membership.Tick.{
  visit, sweep, tick, reissued, reissue_leases, planning_set, same_set, to_set, renew_epoch,
}
use share_compute.Membership.Reports.{
  node_appeared, heartbeat_succeeded, heartbeat_failed, node_announced_drain, apply_event,
}
use share_compute.Membership.History.{
  Call, appears, answers, fails, announces, applies, ticks, Entry, dispatch, run,
}
use share_compute.Membership.Unordered.{
  Own, SameRing, Agrees, planning_members-SameDict, sorted_keys-SameDict, by_storage,
  node_appeared-Agrees, heartbeat_succeeded-SameRing, heartbeat_failed-SameRing,
  node_announced_drain-Agrees, apply_event-Agrees, visit-Agrees,
}

sweep-Agrees :
    (now : ℕ) (ids : List NodeId) (s t : MembershipService) (events : List MembershipEvent)
    → SameRing s t
    → Agrees (sweep now ids (s, events)) (sweep now ids (t, events))
unfolding sweep
sweep-Agrees now [] s t events h = (h, refl)
sweep-Agrees now (id ∷ ids) s t events h =
    let step =
      by_storage (λ u. Agrees (visit now id (s, events)) (visit now id (u, events))) s t h
        (visit-Agrees s t.storage h.members h.own now id events) in
    let (s', es) = visit now id (s, events) in
    let (t', fs) = visit now id (t, events) in
    subst (λ f. Agrees (sweep now ids (s', es)) (sweep now ids (t', f))) step.1
      (sweep-Agrees now ids s' t' es step.0)

reissue_leases-SameRing :
    (s : MembershipService) (m : Storage) (uuid : NodeId → LeaseId) (now : ℕ)
    → SameDict s.storage m
    → AllBindings Own s.storage
    → SameRing (reissue_leases s uuid now) (reissue_leases (record s { storage = m }) uuid now)
unfolding reissue_leases reissued
reissue_leases-SameRing s m uuid now r own = record {
  rest = refl;
  members = map_values-SameDict (reissued s uuid now) r;
  own =
      AllBindings-map_values Own Own (reissued s uuid now) s.storage
        (λ k v h. elim (Bool-cases (participates_in_planning v.state)) [
          | inl p ↦ rw (reissued, p) h
          | inr p ↦ rw (reissued, p) h
        ])
        own;
}

module _ (s : MembershipService) (m : Storage) (r : SameDict s.storage m)
    (own : AllBindings Own s.storage) where
  abbrev other : MembershipService
  other = record s { storage = m }

  planning_set-same : planning_set other ≡ planning_set s
  unfolding planning_set
  planning_set-same = ap (λ ms. to_set (map member_id ms)) (sym (planning_members-SameDict r own))

  renew_epoch-Agrees :
      (uuid : NodeId → LeaseId) (now : ℕ) (events : List MembershipEvent)
      → Agrees (renew_epoch uuid now (s, events)) (renew_epoch uuid now (other, events))
  unfolding renew_epoch
  renew_epoch-Agrees uuid now events =
      let kept : SameRing s other = record { rest = refl; members = r; own = own } in
      let begun : MembershipService = record s {
        current_epoch = next_epoch s.current_epoch;
        last_epoch_changed_at = now;
        last_epoch_members = planning_set s;
      } in
      elim (Bool-cases (same_set (planning_set s) s.last_epoch_members)) [
        | inl e ↦ rw (planning_set-same, renew_epoch, e) (kept, refl)
        | inr e ↦
            elim (Bool-cases
              (leb (s.last_epoch_changed_at + s.config.minimum_epoch_dwell_time) now)) [
                | inl old ↦
                    rw (planning_set-same, renew_epoch, e, old)
                      (reissue_leases-SameRing begun m uuid now r own, refl)
                | inr young ↦ rw (planning_set-same, renew_epoch, e, young) (kept, refl)
              ]
      ]

tick-Agrees :
    (uuid : NodeId → LeaseId) (now : ℕ) (s t : MembershipService)
    → SameRing s t
    → Agrees (tick s uuid now) (tick t uuid now)
unfolding tick
tick-Agrees uuid now s t h =
    let ids = sort_by id_lt (keys s.storage) in
    let step = sweep-Agrees now ids s t [] h in
    let (s', es) = sweep now ids (s, []) in
    let (t', fs) = sweep now ids (t, []) in
    let ends =
      by_storage (λ u. Agrees (renew_epoch uuid now (s', es)) (renew_epoch uuid now (u, es))) s' t'
        step.0 (renew_epoch-Agrees s' t'.storage step.0.members step.0.own uuid now es) in
    rw (← sorted_keys-SameDict h.members) (
      subst (λ f. Agrees (renew_epoch uuid now (s', es)) (renew_epoch uuid now (t', f))) step.1
        ends)

dispatch-SameRing :
    (s : MembershipService) (uuid : NodeId → LeaseId) (now : ℕ) (c : Call) (t : MembershipService)
    → SameRing s t
    → SameRing (dispatch s uuid now c) (dispatch t uuid now c)
unfolding dispatch
dispatch-SameRing s uuid now ticks t h = (tick-Agrees uuid now s t h).0
dispatch-SameRing s uuid now (appears p) t h =
    by_storage (λ u. SameRing (node_appeared s uuid now p).0 (node_appeared u uuid now p).0) s t h
      (node_appeared-Agrees s t.storage h.members h.own uuid now p).0
dispatch-SameRing s uuid now (answers k) t h =
    by_storage (λ u. SameRing (heartbeat_succeeded s uuid now k) (heartbeat_succeeded u uuid now k))
      s t h (heartbeat_succeeded-SameRing s t.storage h.members h.own uuid now k)
dispatch-SameRing s uuid now (fails k) t h =
    by_storage (λ u. SameRing (heartbeat_failed s k) (heartbeat_failed u k)) s t h
      (heartbeat_failed-SameRing s t.storage h.members h.own k)
dispatch-SameRing s uuid now (announces k) t h =
    by_storage (λ u. SameRing (node_announced_drain s now k).0 (node_announced_drain u now k).0) s t
      h (node_announced_drain-Agrees s t.storage h.members h.own now k).0
dispatch-SameRing s uuid now (applies event k) t h =
    by_storage (λ u. SameRing (apply_event s event k).0 (apply_event u event k).0) s t h
      (apply_event-Agrees s t.storage h.members h.own event k).0

run-SameRing :
    (s t : MembershipService) (es : List Entry) → SameRing s t → SameRing (run s es) (run t es)
unfolding run
run-SameRing s t [] h = h
run-SameRing s t (e ∷ es) h =
    run-SameRing (dispatch s e.uuid e.at e.call) (dispatch t e.uuid e.at e.call) es
      (dispatch-SameRing s e.uuid e.at e.call t h)

-- The order of the dictionary is never seen: two services that differ in nothing else, with each member
-- stored under its own identity, go through the same history to the same epoch, offer the planner the
-- same members in the same order, and report the same events at the next tick, in the same order.
pub run-unordered :
    (s t : MembershipService) (es : List Entry) (uuid : NodeId → LeaseId) (now : ℕ)
    → SameRing s t
    → SameRing (run s es) (run t es)
      × ((run s es).current_epoch ≡ (run t es).current_epoch)
      × (planning_members (run s es).storage ≡ planning_members (run t es).storage)
      × ((tick (run s es) uuid now).1 ≡ (tick (run t es) uuid now).1)
run-unordered s t es uuid now h =
    let k = run-SameRing s t es h in
    (
      k,
      sym (ap (λ (u : MembershipService). u.current_epoch) k.rest),
      planning_members-SameDict k.members k.own,
      (tick-Agrees uuid now (run s es) (run t es) k).1,
    )
