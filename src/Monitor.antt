-- ===== src/Monitor.antt =====
-- Apps/InferRing/InferRing/Services/RingHealthMonitor.swift: the membership service and the watchdog of
-- a device put together. `clock.now` and `UUID()` are arguments, one reading of the
-- clock for each stretch that does not wait. Where a round waits for a ping the main actor may run other
-- calls, so `probePeers` is given both as its pieces and as a whole. The coordinator's
-- `reformRing`, the pings and the devices' hardware are what the arguments say they gave; whether the
-- build can rebuild a ring at all (`MLXManager.canReform`) is a field. The timer, the notifications of
-- the operating system and the announcement to the peers are left out.
pub mod Blame
pub mod Losses
pub mod Rounds
pub mod Leases
pub mod Reforming
use share_compute.Prelude.{
  ℕ, String, Bool, true, false, Option, none, some, List, [], ◌∷◌, if◌then◌else◌,
}
use share_compute.Capability.{
  NodeId, CapabilityProfile, ThermalState, core_desktop, elastic_mobile, desktop_unrestricted,
  ios_suspended, apple_unified_memory_pressure, ios_jetsam, mlx_metal, trusted_core,
  current_dialect_version,
}
use share_compute.Lease.{LeaseId}
use share_compute.Membership.{MembershipService, MembershipEvent}
use share_compute.Membership.Reports.{
  node_appeared, heartbeat_succeeded, heartbeat_failed, node_announced_drain,
}
use share_compute.Membership.Tick.{tick as membership_tick}
use share_compute.Watchdog.{
  RingWatchdog, RingHealth, healthy, stalled, reforming, lost, evaluate,
  record_progress as watchdog_progress, begin_generation as watchdog_begins,
  reformation_unavailable, reformation_succeeded, reformation_failed, consume,
}

pub record RingHealthMonitor : Type 0 where
  pub can_reform : Bool
  pub membership : MembershipService
  pub watchdog : RingWatchdog
  pub health : RingHealth
  -- `reformationTask != nil`.
  pub reformation_runs : Bool

-- `health = watchdog.evaluate(at: clock.now)`.
unfoldable pub evaluated : ℕ → RingHealthMonitor → RingHealthMonitor
evaluated now m = let (w, h) = evaluate now m.watchdog in record m { watchdog = w; health = h }

unfoldable pub begin_generation : ℕ → RingHealthMonitor → RingHealthMonitor × Bool
unfolding evaluated
begin_generation now m =
    let (w, allowed) = watchdog_begins now m.watchdog in
    (evaluated now (record m { watchdog = w }), allowed)

unfoldable pub record_progress : ℕ → RingHealthMonitor → RingHealthMonitor
record_progress now m = record m { watchdog = watchdog_progress now m.watchdog }

-- The text of `RingError.finalizeUnavailable`.
abbrev pub unavailable : String
unavailable =
    "Ring Error: this build cannot rebuild the ring. DistributedGroup.finalize() is supplied by Patches/mlx-swift/0001, which is not in the MLX this app was compiled against; build with MLX_HAS_FINALIZE against the patched fork to enable it."

unfoldable pub start_reformation_if_needed : ℕ → RingHealthMonitor → RingHealthMonitor
unfolding evaluated
start_reformation_if_needed now m =
    if m.reformation_runs
    then m
    else if m.can_reform
    then record m { reformation_runs = true }
    else evaluated now (record m { watchdog = reformation_unavailable unavailable now m.watchdog })

-- `if case .reforming = health`.
abbrev pub is_rebuilding : RingHealth → Bool
is_rebuilding (reforming reason since) = true
is_rebuilding _ = false

unfoldable pub refresh_health : ℕ → RingHealthMonitor → RingHealthMonitor
unfolding start_reformation_if_needed evaluated
refresh_health now m =
    let m' = evaluated now m in
    if is_rebuilding m'.health then start_reformation_if_needed now m' else m'

-- The end of the rebuild's task: none where it succeeded, else the error's text.
unfoldable pub reformation_ended : Option String → ℕ → RingHealthMonitor → RingHealthMonitor
unfolding evaluated
reformation_ended none now m =
    evaluated now
      (record m { watchdog = reformation_succeeded now m.watchdog; reformation_runs = false })
reformation_ended (some detail) now m =
    evaluated now
      (record m { watchdog = reformation_failed detail now m.watchdog; reformation_runs = false })

-- The app's `HardwareProfile`, as far as the monitor reads it: `idiom == .mac` is a Boolean.
pub record HardwareProfile : Type 0 where
  pub total_ram : ℕ
  pub recommended_usage_ram : ℕ
  pub is_mac : Bool

-- `CapabilityProfile.from(_:nodeID:)`, at the device's thermal state.
unfoldable pub from_hardware : HardwareProfile → NodeId → ThermalState → CapabilityProfile
from_hardware hardware node thermal = record {
  node_id = node;
  connectivity = if hardware.is_mac then core_desktop else elastic_mobile;
  background_link = if hardware.is_mac then desktop_unrestricted else ios_suspended;
  memory = record {
    total_bytes = hardware.total_ram;
    usable_bytes = hardware.recommended_usage_ram;
    reclaim_model = if hardware.is_mac then apple_unified_memory_pressure else ios_jetsam;
  };
  runtime_backends = mlx_metal ∷ [];
  power = record {
    is_wall_powered = hardware.is_mac;
    battery_fraction = none;
    thermal_state = thermal;
  };
  trust = trusted_core;
  dialect_version = current_dialect_version;
  declares_can_host_required_stage = true;
}

-- `membership.nodeAppeared`, where the device's hardware is known.
unfoldable pub appeared :
    Option HardwareProfile
    → ThermalState
    → NodeId
    → (NodeId → LeaseId)
    → ℕ
    → MembershipService
    → MembershipService
unfolding from_hardware
appeared none thermal node uuid now s = s
appeared (some hardware) thermal node uuid now s =
    (node_appeared s uuid now (from_hardware hardware node thermal)).0

unfoldable pub publish_local_profile :
    Option HardwareProfile
    → ThermalState
    → (NodeId → LeaseId)
    → ℕ
    → RingHealthMonitor
    → RingHealthMonitor
unfolding appeared
publish_local_profile hardware thermal uuid now m = record m {
  membership = appeared hardware thermal m.membership.local_node_id uuid now m.membership;
}

-- What a round learns of a peer: when its ping ended, its name, whether it answered, and its
-- hardware, if known.
pub record Answer : Type 0 where
  pub at : ℕ
  pub peer : NodeId
  pub alive : Bool
  pub hardware : Option HardwareProfile

-- The loop's body in `probePeers`.
unfoldable pub probed :
    Answer → ThermalState → (NodeId → LeaseId) → MembershipService → MembershipService
unfolding appeared
probed a thermal uuid s =
    if a.alive
    then heartbeat_succeeded (appeared a.hardware thermal a.peer uuid a.at s) uuid a.at a.peer
    else heartbeat_failed s a.peer

unfoldable pub probed_all :
    List Answer → ThermalState → (NodeId → LeaseId) → MembershipService → MembershipService
unfolding probed
probed_all [] thermal uuid s = s
probed_all (a ∷ answers) thermal uuid s = probed_all answers thermal uuid (probed a thermal uuid s)

-- The watchdog reads events, and the health is refreshed: the end of a round and of a peer's farewell.
unfoldable pub informed : List MembershipEvent → ℕ → RingHealthMonitor → RingHealthMonitor
unfolding refresh_health
informed events now m = refresh_health now (record m { watchdog = consume events now m.watchdog })

-- The end of `probePeers`, after the loop.
unfoldable pub end_round : (NodeId → LeaseId) → ℕ → RingHealthMonitor → RingHealthMonitor
unfolding informed
end_round uuid now m =
    let (membership, events) = membership_tick m.membership uuid now in
    informed events now (record m { membership = membership })

-- A round that begins at one time and ends at another.
unfoldable pub probe_peers :
    Option HardwareProfile
    → List Answer
    → ThermalState
    → (NodeId → LeaseId)
    → ℕ
    → ℕ
    → RingHealthMonitor
    → RingHealthMonitor
unfolding end_round publish_local_profile
probe_peers hardware answers thermal uuid begun now m =
    let m' = publish_local_profile hardware thermal uuid begun m in
    end_round uuid now (record m' { membership = probed_all answers thermal uuid m'.membership })

unfoldable pub peer_announced_drain : ℕ → NodeId → RingHealthMonitor → RingHealthMonitor
unfolding informed
peer_announced_drain now name m =
    let (membership, events) = node_announced_drain m.membership now name in
    informed events now (record m { membership = membership })
