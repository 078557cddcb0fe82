-- ===== src/Lease.antt =====
-- Sources/ShareComputeCore/Epoch.swift and Lease.swift. Dates and durations are whole numbers of the
-- unit of Capability, counted from one origin. `UInt64` is read without its limit: `Epoch.next` traps
-- at 2 ^ 64, and Membership/Epochs bounds how often it is called.
pub mod Headroom
use share_compute.Prelude.{
  ℕ, zero, suc, ◌+◌, ◌-◌, ◌*◌, ◌^◌, String, Bool, true, false, ◌&&◌, List, ltb, any, if◌then◌else◌,
}
use share_compute.Capability.{
  NodeId, StageType, prefill, decode_authoritative, decode_speculative, kv_store, edge_offload,
}

pub record Epoch : Type 0 where
  pub value : ℕ

abbrev pub initial_epoch : Epoch
initial_epoch = record { value = 0 }

-- `Epoch.next()`.
unfoldable pub next_epoch : Epoch → Epoch
next_epoch e = record { value = e.value + 1 }

abbrev pub LeaseId : Type 0
LeaseId = String

-- A stability score is a `Double` in the source. Every score is 1 put through `smoothed` some times,
-- so it is a decimal fraction: `digits / 10 ^ places`. The rounding of `Double` is left out.
pub record Score : Type 0 where
  pub digits : ℕ
  pub places : ℕ

-- The scores 1.0 and 0.0.
abbrev pub one_score : Score
one_score = record { digits = 1; places = 0 }

pub record Lease : Type 0 where
  pub id : LeaseId
  pub node_id : NodeId
  pub epoch : Epoch
  pub issued_at : ℕ
  pub expires_at : ℕ
  pub allowed_stage_types : List StageType
  pub stability_score : Score

-- `max(0, expiresAt - now)`.
unfoldable pub remaining_time : Lease → ℕ → ℕ
remaining_time l now = l.expires_at - now

unfoldable pub is_valid : Lease → ℕ → Bool
is_valid l now = ltb now l.expires_at

-- Equality of stages, and `allowedStageTypes.contains`.
abbrev pub stage_eq : StageType → StageType → Bool
stage_eq prefill prefill = true
stage_eq decode_authoritative decode_authoritative = true
stage_eq decode_speculative decode_speculative = true
stage_eq kv_store kv_store = true
stage_eq edge_offload edge_offload = true
stage_eq _ _ = false

unfoldable pub allows : Lease → StageType → Bool
allows l stage = any (λ s. stage_eq s stage) l.allowed_stage_types

unfoldable pub can_host : Lease → StageType → ℕ → ℕ → Bool
unfolding is_valid allows remaining_time
can_host l stage estimated_duration now =
    if is_valid l now
    then if allows l stage then ltb estimated_duration (remaining_time l now) else false
    else false

unfoldable pub renewed : Lease → ℕ → Score → Lease
renewed l new_expiry score = record l { expires_at = new_expiry; stability_score = score }
