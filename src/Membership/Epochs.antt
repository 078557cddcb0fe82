-- ===== src/Membership/Epochs.antt =====
-- How often `MembershipService` starts an epoch (MembershipService.swift): the anti-flap dwell time.
use share_compute.Prelude.{
  ℕ, ◌+◌, ◌*◌, ◌≤◌, List, [], ◌∷◌, ◌≡◌, refl, ap, length, inl, inr, arith, All, subst, sym, keys,
  sort_by, string_eq,
}
use share_compute.Capability.{NodeId, id_lt}
use share_compute.Lease.{LeaseId, next_epoch}
use share_compute.Membership.{MembershipService, MembershipEvent}
use share_compute.Membership.Reports.{
  node_appeared, heartbeat_succeeded, heartbeat_failed, node_announced_drain, apply_event,
}
use share_compute.Membership.Tick.{visit, sweep, tick, reissue_leases}
use share_compute.Membership.Settled.{tick_cases, swept}
use share_compute.Membership.History.{
  Call, appears, answers, fails, announces, applies, ticks, Entry, dispatch, run,
}

-- What an operation leaves alone that starts no epoch.
pub record SameEpoch (s t : MembershipService) : Type 0 where
  pub config : t.config ≡ s.config
  pub epoch : t.current_epoch ≡ s.current_epoch
  pub changed_at : t.last_epoch_changed_at ≡ s.last_epoch_changed_at
  pub members : t.last_epoch_members ≡ s.last_epoch_members

visit-SameEpoch :
    (now : ℕ) (id : NodeId) (s : MembershipService) (events : List MembershipEvent)
    → SameEpoch s (visit now id (s, events)).0
unfolding visit
visit-SameEpoch now id s events = ground arith

sweep-SameEpoch :
    (now : ℕ) (ids : List NodeId) (s : MembershipService) (events : List MembershipEvent)
    → SameEpoch s (sweep now ids (s, events)).0
unfolding sweep
sweep-SameEpoch now [] s events = record {
  config = refl;
  epoch = refl;
  changed_at = refl;
  members = refl;
}
sweep-SameEpoch now (id ∷ ids) s events =
    let (t, events') = visit now id (s, events) in
    ground (arith, visit-SameEpoch now id s events, sweep-SameEpoch now ids t events')

pub swept-SameEpoch : (s : MembershipService) (now : ℕ) → SameEpoch s (swept s now)
swept-SameEpoch s now = sweep-SameEpoch now (sort_by id_lt (keys s.storage)) s []

-- The epochs of `t` since `s`: their number grows, and each has lasted the dwell time.
pub record Dwells (s t : MembershipService) : Type 0 where
  pub config : t.config ≡ s.config
  pub grows : s.current_epoch.value ≤ t.current_epoch.value
  pub dwells :
      t.current_epoch.value * s.config.minimum_epoch_dwell_time + s.last_epoch_changed_at
      ≤ s.current_epoch.value * s.config.minimum_epoch_dwell_time + t.last_epoch_changed_at

SameEpoch-Dwells : {s t : MembershipService} → SameEpoch s t → Dwells s t
SameEpoch-Dwells h = record { config = h.config; grows = ground arith; dwells = ground arith }

next-dwells :
    (s t : MembershipService) (now : ℕ)
    → SameEpoch s t
    → t.last_epoch_changed_at + t.config.minimum_epoch_dwell_time ≤ now
    → (t.current_epoch.value + 1) * s.config.minimum_epoch_dwell_time + s.last_epoch_changed_at
      ≤ s.current_epoch.value * s.config.minimum_epoch_dwell_time + now
next-dwells s t now same old = omega (
  arith,
  ap (λ e. e.value * s.config.minimum_epoch_dwell_time) same.epoch,
  ap (λ c. c.minimum_epoch_dwell_time) same.config,
  same.changed_at,
)

tick-Dwells :
    (s : MembershipService) (uuid : NodeId → LeaseId) (now : ℕ) → Dwells s (tick s uuid now).0
unfolding reissue_leases next_epoch
tick-Dwells s uuid now = elim (tick_cases s uuid now) [
  | inl e ↦ subst (Dwells s) (sym e) (SameEpoch-Dwells (swept-SameEpoch s now))
  | inr (e, old, _) ↦
      let same = swept-SameEpoch s now in
      subst (Dwells s) (sym e) (record {
        config = same.config;
        grows = ground arith;
        dwells = next-dwells s (swept s now) now same old;
      })
]

dispatch-Dwells :
    (s : MembershipService) (uuid : NodeId → LeaseId) (now : ℕ) (c : Call)
    → Dwells s (dispatch s uuid now c)
unfolding dispatch
dispatch-Dwells s uuid now (appears profile) =
    SameEpoch-Dwells (unfold node_appeared in ground arith)
dispatch-Dwells s uuid now (answers id) =
    SameEpoch-Dwells (unfold heartbeat_succeeded in ground arith)
dispatch-Dwells s uuid now (fails id) = SameEpoch-Dwells (unfold heartbeat_failed in ground arith)
dispatch-Dwells s uuid now (announces id) =
    SameEpoch-Dwells (unfold node_announced_drain in ground arith)
dispatch-Dwells s uuid now (applies event id) =
    SameEpoch-Dwells (unfold apply_event in ground arith)
dispatch-Dwells s uuid now ticks = tick-Dwells s uuid now

run-Dwells : (s : MembershipService) (es : List Entry) → Dwells s (run s es)
unfolding run
run-Dwells s [] = record { config = refl; grows = omega arith; dwells = omega arith }
run-Dwells s (e ∷ es) =
    let t = dispatch s e.uuid e.at e.call in
    ground (arith, dispatch-Dwells s e.uuid e.at e.call, run-Dwells t es)

-- An operation begins one epoch at most, and dates it by its own time.
dispatch-bounds :
    (s : MembershipService) (uuid : NodeId → LeaseId) (now : ℕ) (c : Call)
    → ((dispatch s uuid now c).current_epoch.value ≤ s.current_epoch.value + 1)
      × ((T : ℕ)
          → now ≤ T
          → s.last_epoch_changed_at ≤ T
          → (dispatch s uuid now c).last_epoch_changed_at ≤ T)
dispatch-bounds s uuid now (appears profile) =
    unfold dispatch node_appeared in (ground arith, λ T p q. ground arith)
dispatch-bounds s uuid now (answers id) =
    unfold dispatch heartbeat_succeeded in (ground arith, λ T p q. ground arith)
dispatch-bounds s uuid now (fails id) =
    unfold dispatch heartbeat_failed in (ground arith, λ T p q. ground arith)
dispatch-bounds s uuid now (announces id) =
    unfold dispatch node_announced_drain in (ground arith, λ T p q. ground arith)
dispatch-bounds s uuid now (applies event id) =
    unfold dispatch apply_event in (ground arith, λ T p q. ground arith)
dispatch-bounds s uuid now ticks =
    let same = swept-SameEpoch s now in
    elim (tick_cases s uuid now) [
      | inl e ↦ unfold dispatch in rw e (ground arith, λ T p q. ground arith)
      | inr (e, _, _) ↦
          unfold dispatch reissue_leases next_epoch in rw e (ground arith, λ T p q. ground arith)
    ]

run-bounds :
    (s : MembershipService) (es : List Entry) (T : ℕ)
    → All (λ e. e.at ≤ T) es
    → s.last_epoch_changed_at ≤ T
    → ((run s es).current_epoch.value ≤ s.current_epoch.value + length es)
      × ((run s es).last_epoch_changed_at ≤ T)
unfolding run
run-bounds s [] T h p = (omega arith, p)
run-bounds s (e ∷ es) T h p =
    let (one, later) = dispatch-bounds s e.uuid e.at e.call in
    let t = dispatch s e.uuid e.at e.call in
    let (more, end) = run-bounds t es T h.1 (later T h.0 p) in (omega (arith, one, more), end)

-- In any history up to the time `T` the epoch never falls, and the epochs begun since the last
-- change fit one after the other, each a dwell time long, between that change and `T`. Nor are
-- there more new epochs than calls.
pub run-epochs :
    (s : MembershipService) (es : List Entry) (T : ℕ)
    → All (λ e. e.at ≤ T) es
    → s.last_epoch_changed_at ≤ T
    → (s.current_epoch.value ≤ (run s es).current_epoch.value)
      × ((run s es).current_epoch.value * s.config.minimum_epoch_dwell_time
            + s.last_epoch_changed_at
          ≤ s.current_epoch.value * s.config.minimum_epoch_dwell_time + T)
      × ((run s es).current_epoch.value ≤ s.current_epoch.value + length es)
run-epochs s es T h p =
    let all_dwell = run-Dwells s es in
    let (count, end) = run-bounds s es T h p in
    (all_dwell.grows, omega (arith, all_dwell.dwells, end), count)
