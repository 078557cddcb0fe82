-- ===== src/Planner.antt =====
-- Sources/ShareComputeCore/StagePlanner.swift: what a model costs, who may hold it, and the plan.
-- Byte counts and layer counts are natural numbers (`Int` traps on overflow). A
-- precondition that fails is the result `trap`.
pub mod Apportion
pub mod Plan
pub mod Plans
pub mod Eligibility
pub mod Bytes
pub mod Divergence
pub mod Determinism
use share_compute.Prelude.{
  ℕ, ◌+◌, ◌-◌, ◌*◌, ◌/◌, Bool, true, false, not, ◌&&◌, Option, none, some, List, filter, ltb, leb,
  if◌then◌else◌, sort_by, String,
}
use share_compute.Capability.{
  NodeId, id_lt, TrustLevel, trusted_core, trust_ge, is_under_duress, decode_authoritative,
}
use share_compute.Node.{can_host_required_stage}
use share_compute.Lease.{Epoch, Lease, can_host}
use share_compute.Membership.{PlannedMember, member_id}

pub record ModelPlacementSpec : Type 0 where
  pub model_id : String
  pub layer_count : ℕ
  pub total_weight_bytes : ℕ
  pub per_node_overhead_bytes : ℕ

unfoldable pub bytes_per_layer : ModelPlacementSpec → ℕ
bytes_per_layer m =
    if ltb 0 m.layer_count then (m.total_weight_bytes + m.layer_count - 1) / m.layer_count else 0

unfoldable pub bytes_for : ModelPlacementSpec → ℕ → ℕ
bytes_for m layers = layers * bytes_per_layer m + m.per_node_overhead_bytes

-- `max(0, usableBytes - overhead)`.
unfoldable pub capacity_for_layers : ℕ → PlannedMember → ℕ
capacity_for_layers overhead m = m.profile.memory.usable_bytes - overhead

pub record EligibilityPolicy : Type 0 where
  pub minimum_trust_for_required_stage : TrustLevel
  pub require_lease_headroom : Bool
  pub exclude_nodes_under_power_duress : Bool

abbrev pub default_policy : EligibilityPolicy
default_policy = record {
  minimum_trust_for_required_stage = trusted_core;
  require_lease_headroom = true;
  exclude_nodes_under_power_duress = true;
}

pub record ShardAssignment : Type 0 where
  pub node_id : NodeId
  pub rank : ℕ
  pub start_layer : ℕ
  pub end_layer : ℕ
  pub estimated_bytes : ℕ

pub record ShardPlan : Type 0 where
  pub epoch : Epoch
  pub model_id : String
  pub layer_count : ℕ
  pub assignments : List ShardAssignment

pub data PlanningError : Type 0 where
  no_eligible_nodes : PlanningError
  more_nodes_than_layers : ℕ → ℕ → PlanningError
  insufficient_aggregate_memory : ℕ → ℕ → PlanningError
  node_cannot_fit_shard : NodeId → ℕ → ℕ → PlanningError

-- What `plan` gives: a value, an error that it throws, or a failed precondition.
pub data Outcome {ℓ} (A : Type ℓ) : Type ℓ where
  ok : A → Outcome A
  throws : PlanningError → Outcome A
  trap : Outcome A

infixl 5 ◌>>=◌
abbrev pub ◌>>=◌ {ℓ κ} : {A : Type ℓ} {B : Type κ} → Outcome A → (A → Outcome B) → Outcome B
ok a >>= f = f a
throws e >>= f = throws e
trap >>= f = trap

unfoldable pub has_headroom : Option Lease → ℕ → ℕ → Bool
has_headroom none duration now = false
has_headroom (some lease) duration now = can_host lease decode_authoritative duration now

-- The test of `eligibleMembers`, guard by guard.
unfoldable pub is_eligible : EligibilityPolicy → ℕ → ℕ → PlannedMember → Bool
unfolding has_headroom
is_eligible policy now duration m =
    if not (can_host_required_stage m.state)
    then false
    else if not m.profile.declares_can_host_required_stage
    then false
    else if not (trust_ge m.profile.trust policy.minimum_trust_for_required_stage)
    then false
    else if policy.exclude_nodes_under_power_duress && is_under_duress m.profile.power
    then false
    else if policy.require_lease_headroom
    then has_headroom m.lease duration now
    else true

unfoldable pub eligible_members :
    EligibilityPolicy → List PlannedMember → ℕ → ℕ → List PlannedMember
eligible_members policy members now duration =
    sort_by (λ a b. id_lt (member_id a) (member_id b))
      (filter (is_eligible policy now duration) members)
