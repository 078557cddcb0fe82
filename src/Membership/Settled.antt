-- ===== src/Membership/Settled.antt =====
-- The members after `tick(at:)` (MembershipService.swift).
use mathlib.Core.Option as Option
use share_compute.Prelude.{
  ℕ, ◌+◌, ◌<◌, ◌≤◌, true, false, Option, none, some, [], ◌≡◌, ◌≢◌, ◌⊎◌, refl, sym, subst, ap, ◌∙◌,
  inl, inr, arith, lookup, keys, sort_by, string_eq, lookup-map_values, Bool-cases, leb,
}
use share_compute.Capability.{NodeId, id_lt, maximum_supportable_lease_duration, CapabilityProfile}
use share_compute.Node.{draining, participates_in_planning}
use share_compute.Lease.{Lease, LeaseId, next_epoch, is_valid}
use share_compute.Membership.{MembershipConfig, MembershipService, MemberRecord, issue_lease}
use share_compute.Membership.Tick.{
  verdict, sweep, renew_epoch, tick, reissue_leases, reissued, planning_set, same_set,
}
use share_compute.Membership.Sweep.{settle, verdict-settle, sweep_all-lookup, sweep-config}

-- What a tick leaves of a member: it is not draining; if it is in the ring, it has not missed too
-- many heartbeats, and its lease, if it has one, still runs.
pub record IsSettled (config : MembershipConfig) (now : ℕ) (r : MemberRecord) : Type 0 where
  pub left : r.state ≢ draining
  pub answers :
      participates_in_planning r.state ≡ true
      → r.consecutive_missed_heartbeats < config.missed_heartbeats_before_eviction
  pub leased :
      (l : Lease) → participates_in_planning r.state ≡ true → r.lease ≡ some l → now < l.expires_at

none-IsSettled :
    (config : MembershipConfig) (now : ℕ) (r : MemberRecord)
    → verdict config now r ≡ none
    → IsSettled config now r
unfolding verdict is_valid
none-IsSettled config now r h = record {
  left = λ e. ground arith;
  answers = λ p. ground arith;
  leased = λ l p e. ground arith;
}

-- Every operating system grants a lease some time.
pub lease_duration-pos : (p : CapabilityProfile) → 0 < maximum_supportable_lease_duration p
unfolding maximum_supportable_lease_duration
lease_duration-pos p = ground arith

reissued-IsSettled :
    (s : MembershipService) (uuid : NodeId → LeaseId) (now : ℕ) (r : MemberRecord)
    → 0 < s.config.lease_duration
    → IsSettled s.config now r
    → IsSettled s.config now (reissued s uuid now r)
unfolding reissued issue_lease
reissued-IsSettled s uuid now r pos h = elim (Bool-cases (participates_in_planning r.state)) [
  | inl p ↦
      rw (reissued, p)
        (record {
          left = h.left;
          answers = h.answers;
          leased = λ l _ e. ground (arith, lease_duration-pos r.profile);
        })
  | inr p ↦ rw (reissued, p) h
]

-- The members that the loop leaves, in a new epoch.
abbrev pub in_new_epoch : MembershipService → ℕ → MembershipService
in_new_epoch s now = record s {
  current_epoch = next_epoch s.current_epoch;
  last_epoch_changed_at = now;
  last_epoch_members = planning_set s;
}

abbrev pub swept : MembershipService → ℕ → MembershipService
swept s now = (sweep now (sort_by id_lt (keys s.storage)) (s, [])).0

-- A tick either keeps the epoch or begins the next one, when the ring has changed and the last
-- change is old enough.
pub tick_cases :
    (s : MembershipService) (uuid : NodeId → LeaseId) (now : ℕ)
    → ((tick s uuid now).0 ≡ swept s now)
      ⊎ (((tick s uuid now).0 ≡ reissue_leases (in_new_epoch (swept s now) now) uuid now)
          × ((swept s now).last_epoch_changed_at + (swept s now).config.minimum_epoch_dwell_time
              ≤ now)
          × (same_set (planning_set (swept s now)) (swept s now).last_epoch_members ≡ false))
unfolding tick renew_epoch
tick_cases s uuid now =
    let t = swept s now in
    elim (Bool-cases (same_set (planning_set t) t.last_epoch_members)) [
      | inl same ↦ inl (ground arith)
      | inr changed ↦
          elim (Bool-cases
            (leb (t.last_epoch_changed_at + t.config.minimum_epoch_dwell_time) now)) [
              | inl old ↦ inr (ground arith, ground arith, changed)
              | inr young ↦ inl (ground arith)
            ]
    ]

map-some :
    (f : MemberRecord → MemberRecord) (found : Option MemberRecord) {r : MemberRecord}
    → Option.map f found ≡ some r
    → (r₀ : MemberRecord) × (found ≡ some r₀) × (f r₀ ≡ r)
map-some f none h = absurd (ground arith)
map-some f (some r₀) h = (r₀, refl, ground arith)

settle-IsSettled :
    (s : MembershipService) (now : ℕ) (k : NodeId) {r : MemberRecord}
    → lookup k (swept s now).storage ≡ some r
    → IsSettled s.config now r
settle-IsSettled s now k h =
    let (r₀, _, e) = map-some _ _ (sym (sweep_all-lookup now k s []) ∙ h) in
    subst (IsSettled s.config now) e
      (none-IsSettled s.config now (settle s.config now r₀) (verdict-settle s.config now r₀))

-- Where the configuration gives leases some time, a tick leaves every member settled: no drain is
-- left half done, and nobody stays in the ring who has missed too many heartbeats or whose lease
-- has run out.
pub tick-IsSettled :
    (s : MembershipService) (uuid : NodeId → LeaseId) (now : ℕ) (k : NodeId) (r : MemberRecord)
    → 0 < s.config.lease_duration
    → lookup k (tick s uuid now).0.storage ≡ some r
    → IsSettled s.config now r
unfolding reissue_leases
tick-IsSettled s uuid now k r pos h = elim (tick_cases s uuid now) [
  | inl e ↦ settle-IsSettled s now k (ap (λ t. lookup k t.storage) (sym e) ∙ h)
  | inr (e, _, _) ↦
      let t = in_new_epoch (swept s now) now in
      renewed t (sweep-config now (sort_by id_lt (keys s.storage)) s []) (
        sym (lookup-map_values (reissued t uuid now) k (swept s now).storage)
        ∙ ap (λ u. lookup k u.storage) (sym e)
        ∙ h)
]
  where
    renewed :
        (t : MembershipService)
        → t.config ≡ s.config
        → Option.map (reissued t uuid now) (lookup k (swept s now).storage) ≡ some r
        → IsSettled s.config now r
    renewed t same found =
        let (r₀, old, new) = map-some _ _ found in
        let kept : IsSettled t.config now r₀ =
          subst (λ c. IsSettled c now r₀) (sym same) (settle-IsSettled s now k old) in
        subst (λ c. IsSettled c now r) same
          (subst (IsSettled t.config now) new (
            reissued-IsSettled t uuid now r₀ (subst (λ c. 0 < c.lease_duration) (sym same) pos)
              kept))
