-- ===== src/Examples/Monitoring.antt =====
-- Tests of Monitor.
use share_compute.Prelude.{
  ℕ, false, ◌≡◌, ◌≢◌, ◌⊎◌, true, none, some, List, [], ◌∷◌, refl, arith, lookup, string_eq,
}
use share_compute.Capability.{NodeId, nominal}
use share_compute.Node.{active_core, participates_in_planning}
use share_compute.Membership.{
  MembershipService, MemberRecord, smoothed, heartbeat_loss, EvictionReason, lease_expiry,
}
use share_compute.Lease.{one_score}
use share_compute.Membership.Evictions.{silent, evictions_of}
use share_compute.Membership.Tick.{tick as membership_tick}
use share_compute.Watchdog.{
  RingWatchdog, RingLossReason, default_config, running, rebuilding, healthy, is_terminal,
  member_unreachable,
}
use share_compute.Monitor.{
  RingHealthMonitor, HardwareProfile, Answer, begin_generation, refresh_health, probe_peers,
  is_rebuilding,
}
use share_compute.Monitor.Leases.{
  IsCalm, IsBlamedOn, asked, departure-IsReported, local_lease_lapses,
}
use share_compute.Monitor.Reforming.{refresh-rebuilding}
use share_compute.Examples.Devices.{uuid, member, ring_of, lease_of}

abbrev calm_watchdog : RingWatchdog
calm_watchdog = record {
  config = default_config;
  last_progress_at = 0;
  pending_loss = none;
  phase = running;
  reformation_attempts = 0;
}

-- The device "hub" and a peer, which has not answered twice.
abbrev pair : MembershipService
pair = record (ring_of active_core 0) {
  storage = ("hub", member "hub" active_core 0) ∷ ("a", member "a" active_core 2) ∷ [];
}

abbrev monitor : RingHealthMonitor
monitor = record {
  can_reform = true;
  membership = pair;
  watchdog = calm_watchdog;
  health = healthy;
  reformation_runs = false;
}

abbrev hardware : HardwareProfile
hardware = record { total_ram = 40; recommended_usage_ram = 40; is_mac = true }

abbrev silence : List Answer
silence = record { at = 60; peer = "a"; alive = false; hardware = none } ∷ []

abbrev answer : List Answer
answer = record { at = 59990; peer = "a"; alive = true; hardware = some hardware } ∷ []

monitor-IsCalm : IsCalm monitor
monitor-IsCalm = record { whole = (refl, refl); idle = refl; patient = omega arith }

abbrev missing_peer : MemberRecord
missing_peer = record (member "a" active_core 3) { stability_score = smoothed one_score 0 }

departure-IsReported_example :
    (n : NodeId) × (gone : MemberRecord) × (ground_of : EvictionReason) × IsBlamedOn
      (asked none silence nominal uuid 50 monitor)
      100
      n
      gone
      ground_of
      9000
      (refresh_health 9000 (probe_peers none silence nominal uuid 50 100 monitor))
unfolding lookup participates_in_planning share_compute.Monitor.probed_all
    share_compute.Monitor.probed share_compute.Monitor.publish_local_profile
    share_compute.Monitor.appeared share_compute.Membership.Reports.heartbeat_failed
    share_compute.Prelude.insert
departure-IsReported_example =
    departure-IsReported monitor none silence nominal uuid 50 100 9000 "a" missing_peer
      heartbeat_loss monitor-IsCalm refl (silent refl (omega arith)) (omega arith) (omega arith)

a_is_not_hub : ◌≢◌ {A = NodeId} "a" "hub"
a_is_not_hub e = let h : false ≡ true = (string_eq.beq_iff "a" "hub").1 e in ground arith

local_lease_lapses_example :
    let s = asked (some hardware) answer nominal uuid 59980 monitor in
    (evictions_of "hub" (membership_tick s uuid 60000).1 ≡ lease_expiry ∷ [])
    × ((n : NodeId) × (gone : MemberRecord) × (ground_of : EvictionReason) × IsBlamedOn s 60000 n
          gone ground_of 70000
          (refresh_health 70000
            (probe_peers (some hardware) answer nominal uuid 59980 60000 monitor)))
unfolding lookup participates_in_planning
local_lease_lapses_example =
    local_lease_lapses monitor hardware answer nominal uuid 59980 60000 70000
      (member "hub" active_core 0) (lease_of "hub" 60000) monitor-IsCalm refl refl refl
      (omega arith) (omega arith) (a_is_not_hub, tt) (omega arith) (omega arith)

abbrev broken : RingHealthMonitor
broken = record monitor {
  watchdog = record calm_watchdog { pending_loss = some (member_unreachable "a", 100) };
}

refresh-rebuilding_example :
    ((refresh_health 9000 broken).reformation_runs ≡ true)
    × ((broken.can_reform ≡ true) ⊎ (broken.reformation_runs ≡ true))
unfolding refresh_health share_compute.Monitor.evaluated share_compute.Watchdog.evaluate
    share_compute.Monitor.start_reformation_if_needed
refresh-rebuilding_example = refresh-rebuilding broken 9000 refl
