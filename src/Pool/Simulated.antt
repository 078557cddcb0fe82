-- ===== src/Pool/Simulated.antt =====
-- CrossPlatformPool.swift, `SimulatedPlatformPeer` and the two ways to connect simulated peers.
use share_compute.Prelude.{
  ℕ, ◌*◌, String, true, false, Option, none, some, List, [], ◌∷◌, ◌++◌, sort_by,
}
use share_compute.Capability.{
  NodeId, CapabilityProfile, ConnectivityClass, core_desktop, elastic_mobile, BackgroundLinkModel,
  desktop_unrestricted, ios_suspended, android_foreground_service, MemoryReclaimModel,
  windows_working_set_trim, apple_unified_memory_pressure, ios_jetsam, linux_cgroup_oom,
  RuntimeBackend, winml_direct_ml, onnx_runtime, llama_cpp_cpu, mlx_metal, llama_cpp_gpu,
  core_ml_ane, lite_rt, PowerProfile, wall_powered, nominal, trusted_core, current_dialect_version,
}
use share_compute.Lease.{LeaseId}
use share_compute.Platform.{
  PlatformKind, windows, macos, ios, android, raw_value, platform_lt, all_required,
}
use share_compute.Pool.{CrossPlatformPool, Result, connect}

abbrev gb : ℕ
gb = 1024 * 1024 * 1024

on_battery : ℕ → PowerProfile
on_battery fraction = record {
  is_wall_powered = false;
  battery_fraction = some fraction;
  thermal_state = nominal;
}

or_else {ℓ} : {A : Type ℓ} → Option A → A → A
or_else none d = d
or_else (some a) d = a

-- What the four branches share.
peer :
    NodeId
    → ConnectivityClass
    → BackgroundLinkModel
    → ℕ
    → MemoryReclaimModel
    → List RuntimeBackend
    → PowerProfile
    → CapabilityProfile
peer node connectivity link usable reclaim backends power = record {
  node_id = node;
  connectivity = connectivity;
  background_link = link;
  memory = record {
    total_bytes = usable * gb;
    usable_bytes = usable * gb;
    reclaim_model = reclaim;
  };
  runtime_backends = backends;
  power = power;
  trust = trusted_core;
  dialect_version = current_dialect_version;
  declares_can_host_required_stage = true;
}

-- `SimulatedPlatformPeer.profile(for:name:usableGB:)`; a missing name is "sim-" and the raw value.
unfoldable pub profile_for : PlatformKind → Option String → Option ℕ → CapabilityProfile
unfolding or_else peer on_battery raw_value
profile_for windows name usable_gb =
    peer (or_else name "sim-windows") core_desktop desktop_unrestricted (or_else usable_gb 16)
      windows_working_set_trim (winml_direct_ml ∷ onnx_runtime ∷ llama_cpp_cpu ∷ []) wall_powered
profile_for macos name usable_gb =
    peer (or_else name "sim-macos") core_desktop desktop_unrestricted (or_else usable_gb 32)
      apple_unified_memory_pressure (mlx_metal ∷ llama_cpp_gpu ∷ []) wall_powered
profile_for ios name usable_gb =
    peer (or_else name "sim-ios") elastic_mobile ios_suspended (or_else usable_gb 6) ios_jetsam
      (mlx_metal ∷ core_ml_ane ∷ []) (on_battery 800)
profile_for android name usable_gb =
    peer (or_else name "sim-android") elastic_mobile android_foreground_service
      (or_else usable_gb 8) linux_cgroup_oom (lite_rt ∷ llama_cpp_cpu ∷ onnx_runtime ∷ [])
      (on_battery 700)

-- `connectSimulated(_:usableGB:)`.
unfoldable pub connect_simulated :
    CrossPlatformPool → (NodeId → LeaseId) → ℕ → PlatformKind → Option ℕ → Result
connect_simulated pool uuid now platform usable_gb =
    connect pool uuid now platform (profile_for platform none usable_gb)

connect_each : (NodeId → LeaseId) → ℕ → List PlatformKind → Result → Result
connect_each uuid now [] acc = acc
connect_each uuid now (p ∷ ps) (pool, events, sent) =
    let (pool', more, also) = connect_simulated pool uuid now p none in
    connect_each uuid now ps (pool', events ++ more, sent ++ also)

-- `connectAllSimulatedPlatforms()`.
unfoldable pub connect_all_simulated_platforms : CrossPlatformPool → (NodeId → LeaseId) → ℕ → Result
unfolding connect_each
connect_all_simulated_platforms pool uuid now =
    connect_each uuid now (sort_by platform_lt all_required) (pool, [], [])
