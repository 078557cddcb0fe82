-- ===== src/Monitor/Leases.antt =====
-- Whom a round of RingHealthMonitor.swift reports as lost.
use share_compute.Prelude.{
  ℕ, ◌+◌, ◌<◌, ◌≤◌, true, false, Option, some, List, [], ◌∷◌, length, ◌≡◌, ◌≢◌, refl, ap, ◌∙◌,
  arith, All, lookup, string_eq,
}
use share_compute.Capability.{NodeId, ThermalState}
use share_compute.Node.{participates_in_planning}
use share_compute.Lease.{Lease, LeaseId}
use share_compute.Membership.{
  MembershipService, MembershipConfig, MemberRecord, EvictionReason, lease_expiry, is_suspended,
}
use share_compute.Membership.Reports.{node_appeared}
use share_compute.Membership.Evictions.{Due, lapsed, evictions_of, tick-evicts_iff}
use share_compute.Membership.Tick.{tick}
use share_compute.Monitor.Blame.{Blames}
use share_compute.Membership.Heartbeats.{lookup-insert_self}
use share_compute.Watchdog.{RingLossReason, RingWatchdogConfig}
use share_compute.Watchdog.Diagnosis.{RunsWhole}
use share_compute.Monitor.{
  RingHealthMonitor, HardwareProfile, Answer, from_hardware, appeared, publish_local_profile,
  probed_all, end_round, probe_peers, refresh_health,
}
use share_compute.Monitor.Losses.{IsReported, end_round-Alarmed, refresh-IsReported}
use share_compute.Monitor.Rounds.{probed_all-Untouched}

-- The members when a round's last peer has answered, before the tick.
abbrev pub asked :
    Option HardwareProfile
    → List Answer
    → ThermalState
    → (NodeId → LeaseId)
    → ℕ
    → RingHealthMonitor
    → MembershipService
asked hardware answers thermal uuid begun m =
    probed_all answers thermal uuid (publish_local_profile hardware thermal uuid begun m).membership

-- A running ring with nothing to repair, which waits for a while before it believes in a loss.
pub record IsCalm (m : RingHealthMonitor) : Type 0 where
  pub whole : RunsWhole m.watchdog
  pub idle : m.reformation_runs ≡ false
  pub patient : 0 < m.watchdog.config.grace_after_loss

once :
    {rs more : List EvictionReason} {reason : EvictionReason}
    → rs ≡ reason ∷ more
    → length rs ≤ 1
    → rs ≡ reason ∷ []
once {more = []} h l = h
once {more = x ∷ xs} h l = absurd (omega (arith, ap length h))

-- The membership at the end of a round evicts a member that has grounds for it, and the ring is
-- found lost for the sake of that member.
abbrev pub IsBlamedOn :
    MembershipService → ℕ → NodeId → MemberRecord → EvictionReason → ℕ → RingHealthMonitor → Type 0
IsBlamedOn s now n r reason later after =
    (lookup n s.storage ≡ some r)
    × Due s.config now r reason
    × ((why : RingLossReason) × Blames n reason why × IsReported later why after)

-- Membership and watchdog together: when a member of a calm ring has grounds for eviction as a round
-- ends, the next look at the ring's health that comes a grace period after that round and after the
-- last progress finds the ring being rebuilt, or lost if the build cannot rebuild it. The reason given
-- is a member that has such grounds: departed if it was draining, else unreachable.
pub departure-IsReported :
    (m : RingHealthMonitor) (hardware : Option HardwareProfile) (answers : List Answer)
    (thermal : ThermalState) (uuid : NodeId → LeaseId) (begun now later : ℕ) (k : NodeId)
    (r : MemberRecord) (reason : EvictionReason)
    → IsCalm m
    → lookup k (asked hardware answers thermal uuid begun m).storage ≡ some r
    → Due (asked hardware answers thermal uuid begun m).config now r reason
    → m.watchdog.last_progress_at + m.watchdog.config.grace_after_loss ≤ later
    → now + m.watchdog.config.grace_after_loss ≤ later
    → (n : NodeId) × (gone : MemberRecord) × (ground_of : EvictionReason) × IsBlamedOn
        (asked hardware answers thermal uuid begun m)
        now
        n
        gone
        ground_of
        later
        (refresh_health later (probe_peers hardware answers thermal uuid begun now m))
unfolding probe_peers publish_local_profile
departure-IsReported m hardware answers thermal uuid begun now later k r reason calm e due h h' =
    let s = asked hardware answers thermal uuid begun m in
    let before : RingHealthMonitor = record m { membership = s } in
    let evicted = (tick-evicts_iff s uuid now k reason).0.1 (r, e, due) in
    let alarm =
      end_round-Alarmed uuid now before k reason evicted calm.whole.0 calm.whole.1 calm.patient in
    let after = end_round uuid now before in
    let grace = ap (λ (c : RingWatchdogConfig). c.grace_after_loss) alarm.lost.config in
    let (n, ground_of, more, gone, why) = alarm.lost.blamed in
    let (gone_record, found, owed) =
      (tick-evicts_iff s uuid now n ground_of).0.0
        (once gone (tick-evicts_iff s uuid now n ground_of).1) in
    (
      n,
      gone_record,
      ground_of,
      (
        found,
        owed,
        (
          alarm.lost.reason,
          why,
          refresh-IsReported after alarm.lost.reason now later alarm.lost.phase alarm.lost.loss
              (omega (arith, grace, alarm.lost.progress)) (omega (arith, grace))
              (alarm.runs ∙ calm.idle),
        ),
      ),
    )

-- A device that publishes its own profile while it is in the ring keeps its lease as it was.
published-lookup :
    (m : RingHealthMonitor) (hardware : HardwareProfile) (thermal : ThermalState)
    (uuid : NodeId → LeaseId) (now : ℕ) (r : MemberRecord)
    → lookup m.membership.local_node_id m.membership.storage ≡ some r
    → participates_in_planning r.state ≡ true
    → let s = (publish_local_profile (some hardware) thermal uuid now m).membership in
      (s.config ≡ m.membership.config)
      × ((r' : MemberRecord) × (lookup m.membership.local_node_id s.storage ≡ some r')
          × (r'.state ≡ r.state)
          × (r'.lease ≡ r.lease)
          × (r'.consecutive_missed_heartbeats ≡ 0))
unfolding publish_local_profile appeared from_hardware node_appeared
published-lookup m hardware thermal uuid now r e p =
    let present : is_suspended r.state ≡ false = unfold participates_in_planning in ground arith in
    rw (e, node_appeared, present)
      (
        refl,
        (_, lookup-insert_self m.membership.local_node_id _ m.membership.storage, refl, refl, refl),
      )

-- A device that is in its own calm ring loses it when its own lease runs out, however well the round
-- went: the round evicts the device itself for its lease, whichever peers answer and although it has
-- published its profile again. The next look at the ring's health a grace period later finds it being
-- rebuilt or lost, for a member that had grounds for eviction.
pub local_lease_lapses :
    (m : RingHealthMonitor) (hardware : HardwareProfile) (answers : List Answer)
    (thermal : ThermalState) (uuid : NodeId → LeaseId) (begun now later : ℕ) (r : MemberRecord)
    (l : Lease)
    → IsCalm m
    → lookup m.membership.local_node_id m.membership.storage ≡ some r
    → participates_in_planning r.state ≡ true
    → r.lease ≡ some l
    → l.expires_at ≤ now
    → 0 < m.membership.config.missed_heartbeats_before_eviction
    → All (λ a. a.peer ≢ m.membership.local_node_id) answers
    → m.watchdog.last_progress_at + m.watchdog.config.grace_after_loss ≤ later
    → now + m.watchdog.config.grace_after_loss ≤ later
    → let s = asked (some hardware) answers thermal uuid begun m in
      (evictions_of m.membership.local_node_id (tick s uuid now).1 ≡ lease_expiry ∷ [])
      × ((n : NodeId) × (gone : MemberRecord) × (ground_of : EvictionReason) × IsBlamedOn s now n
            gone ground_of later
            (refresh_health later (probe_peers (some hardware) answers thermal uuid begun now m)))
local_lease_lapses m hardware answers thermal uuid begun now later r l calm e p held over
      some_misses peers h h' =
    let k = m.membership.local_node_id in
    let s = (publish_local_profile (some hardware) thermal uuid begun m).membership in
    let (same, (r', found, state, lease, misses)) =
      published-lookup m hardware thermal uuid begun r e p in
    let kept = probed_all-Untouched answers thermal k uuid s peers in
    let config = kept.config ∙ same in
    let found' = kept.found ∙ found in
    let owed =
      lapsed l (ap participates_in_planning state ∙ p)
        (omega (
          arith,
          misses,
          some_misses,
          ap (λ (c : MembershipConfig). c.missed_heartbeats_before_eviction) config,
        ))
        (lease ∙ held) over in
    let iff =
      tick-evicts_iff (asked (some hardware) answers thermal uuid begun m) uuid now k
        lease_expiry in
    (
      iff.0.1 (r', found', owed),
      departure-IsReported m (some hardware) answers thermal uuid begun now later k r' lease_expiry
          calm found' owed h h',
    )
