-- ===== src/Capability.antt =====
-- Sources/ShareComputeCore/CapabilityProfile.swift: what a device publishes about itself.
-- A node's identity is the text that `NodeID` wraps; texts are compared by code points, which is the
-- order of Swift's strings on ASCII. Seconds are whole numbers of a unit, one `second` long; a
-- battery fraction is a number of thousandths.
pub mod Order
use Prim.Native.String.{compare}
use Prim.Native.Nat.{Ordering}
use text.Mathlib.Text.{◌==◌ as str_eq}
use share_compute.Prelude.{
  ℕ, ◌*◌, String, Bool, true, false, ◌&&◌, not, Option, none, some, List, ltb, leb, if◌then◌else◌,
}

abbrev pub NodeId : Type 0
NodeId = String

unfoldable pub id_eq : NodeId → NodeId → Bool
id_eq a b = str_eq a b

-- `<` on `rawValue`.
unfoldable pub id_lt : NodeId → NodeId → Bool
id_lt a b = elim (compare a b) [ Ordering.lt ↦ true | _ ↦ false ]

-- The unit of time: a `TimeInterval` of one second is this many units.
abbrev pub second : ℕ
second = 1000

pub data ConnectivityClass : Type 0 where
  core_desktop elastic_mobile opportunistic_mobile : ConnectivityClass

pub data BackgroundLinkModel : Type 0 where
  desktop_unrestricted android_foreground_service ios_suspended : BackgroundLinkModel

pub data MemoryReclaimModel : Type 0 where
  linux_cgroup_oom windows_working_set_trim : MemoryReclaimModel
  apple_unified_memory_pressure ios_jetsam : MemoryReclaimModel

pub data RuntimeBackend : Type 0 where
  mlx_metal core_ml_ane llama_cpp_cpu llama_cpp_gpu : RuntimeBackend
  onnx_runtime winml_direct_ml lite_rt web_gpu : RuntimeBackend

pub data TrustLevel : Type 0 where
  untrusted semi_trusted_edge trusted_core : TrustLevel

unfoldable pub trust_raw_value : TrustLevel → ℕ
trust_raw_value untrusted = 0
trust_raw_value semi_trusted_edge = 1
trust_raw_value trusted_core = 2

-- `>=`, which Swift derives from `<` on the raw values.
unfoldable pub trust_ge : TrustLevel → TrustLevel → Bool
unfolding trust_raw_value
trust_ge a b = leb (trust_raw_value b) (trust_raw_value a)

pub data StageType : Type 0 where
  prefill decode_authoritative decode_speculative kv_store edge_offload : StageType

unfoldable pub is_required : StageType → Bool
is_required prefill = true
is_required decode_authoritative = true
is_required kv_store = true
is_required decode_speculative = false
is_required edge_offload = false

pub data ThermalState : Type 0 where
  nominal fair serious critical : ThermalState

pub thermal_raw_value : ThermalState → ℕ
thermal_raw_value nominal = 0
thermal_raw_value fair = 1
thermal_raw_value serious = 2
thermal_raw_value critical = 3

pub record PowerProfile : Type 0 where
  pub is_wall_powered : Bool
  pub battery_fraction : Option ℕ
  pub thermal_state : ThermalState

abbrev pub wall_powered : PowerProfile
wall_powered = record { is_wall_powered = true; battery_fraction = none; thermal_state = nominal }

-- `batteryFraction < 0.2`, where there is a battery.
unfoldable pub is_low : Option ℕ → Bool
is_low none = false
is_low (some fraction) = ltb fraction 200

unfoldable pub is_under_duress : PowerProfile → Bool
unfolding thermal_raw_value is_low
is_under_duress p =
    if leb (thermal_raw_value serious) (thermal_raw_value p.thermal_state)
    then true
    else if not p.is_wall_powered && is_low p.battery_fraction
    then true
    else false

pub record MemoryProfile : Type 0 where
  pub total_bytes : ℕ
  pub usable_bytes : ℕ
  pub reclaim_model : MemoryReclaimModel

pub record CapabilityProfile : Type 0 where
  pub node_id : NodeId
  pub connectivity : ConnectivityClass
  pub background_link : BackgroundLinkModel
  pub memory : MemoryProfile
  pub runtime_backends : List RuntimeBackend
  pub power : PowerProfile
  pub trust : TrustLevel
  pub dialect_version : String
  pub declares_can_host_required_stage : Bool

abbrev pub current_dialect_version : String
current_dialect_version = "0.1.0"

pub max_lease_of : BackgroundLinkModel → ℕ
max_lease_of desktop_unrestricted = 300 * second
max_lease_of android_foreground_service = 120 * second
max_lease_of ios_suspended = 30 * second

-- `maximumSupportableLeaseDuration`.
unfoldable pub maximum_supportable_lease_duration : CapabilityProfile → ℕ
unfolding max_lease_of
maximum_supportable_lease_duration p = max_lease_of p.background_link
