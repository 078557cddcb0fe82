-- ===== src/Planner/Plan.antt =====
-- StagePlanner.swift, `plan`: from the members to contiguous ranges of layers.
use share_compute.Prelude.{
  ℕ, suc, ◌+◌, Bool, true, false, not, none, some, List, [], ◌∷◌, map, leb, ◌==◌, if◌then◌else◌,
  length, get_elem?, sum,
}
use share_compute.Lease.{Epoch}
use share_compute.Membership.{PlannedMember, member_id}
use share_compute.Planner.{
  ModelPlacementSpec, bytes_for, capacity_for_layers, EligibilityPolicy, eligible_members,
  ShardAssignment, ShardPlan, Outcome, ok, throws, trap, ◌>>=◌, no_eligible_nodes,
  more_nodes_than_layers, insufficient_aggregate_memory, node_cannot_fit_shard,
}
use share_compute.Planner.Apportion.{Double, apportion}

-- One round of the loop's body gives the assignment of a member; the rounds after it are `rest`.
abbrev pub extend :
    ShardAssignment → Outcome (List ShardAssignment × ℕ) → Outcome (List ShardAssignment × ℕ)
extend a rest = rest >>= λ (done, cursor). ok (a ∷ done, cursor)

-- The loop over `eligible.enumerated()`: its assignments and the last value of `cursor`.
unfoldable pub assign :
    ModelPlacementSpec → List ℕ → ℕ → ℕ → List PlannedMember → Outcome (List ShardAssignment × ℕ)
assign model counts rank cursor [] = ok ([], cursor)
assign model counts rank cursor (m ∷ ms) = elim (get_elem? counts rank) [
  | none ↦ trap
  | some layers ↦
      let bytes = bytes_for model layers in
      let rest = assign model counts (suc rank) (cursor + layers) ms in
      let a : ShardAssignment = record {
        node_id = member_id m;
        rank = rank;
        start_layer = cursor;
        end_layer = cursor + layers;
        estimated_bytes = bytes;
      } in
      if leb bytes m.profile.memory.usable_bytes
      then extend a rest
      else throws (node_cannot_fit_shard (member_id m) bytes m.profile.memory.usable_bytes)
]

-- The precondition at the end, and the plan.
unfoldable pub finish : ModelPlacementSpec → Epoch → List ShardAssignment × ℕ → Outcome ShardPlan
finish model epoch (assignments, cursor) =
    if cursor == model.layer_count
    then ok (record {
      epoch = epoch;
      model_id = model.model_id;
      layer_count = model.layer_count;
      assignments = assignments;
    })
    else trap

abbrev pub capacities : ModelPlacementSpec → List PlannedMember → List ℕ
capacities model ms = map (capacity_for_layers model.per_node_overhead_bytes) ms

abbrev pub is_empty {ℓ} : {A : Type ℓ} → List A → Bool
is_empty [] = true
is_empty (x ∷ xs) = false

-- `layerCounts`, the loop and the precondition.
unfoldable pub place : Double → ModelPlacementSpec → Epoch → List PlannedMember → Outcome ShardPlan
unfolding finish
place F model epoch eligible = elim (apportion F model.layer_count (capacities model eligible)) [
  | none ↦ trap
  | some counts ↦ assign model counts 0 0 eligible >>= finish model epoch
]

-- `plan`, after the members that may take part have been found.
unfoldable pub plan_eligible :
    Double → ModelPlacementSpec → Epoch → List PlannedMember → Outcome ShardPlan
unfolding place
plan_eligible F model epoch eligible =
    if is_empty eligible
    then throws no_eligible_nodes
    else if not (leb (length eligible) model.layer_count)
    then throws (more_nodes_than_layers model.layer_count (length eligible))
    else if not (leb model.total_weight_bytes (sum (capacities model eligible)))
    then throws
        (insufficient_aggregate_memory model.total_weight_bytes (sum (capacities model eligible)))
    else place F model epoch eligible

unfoldable pub plan :
    Double
    → EligibilityPolicy
    → ModelPlacementSpec
    → List PlannedMember
    → Epoch
    → ℕ
    → ℕ
    → Outcome ShardPlan
unfolding plan_eligible
plan F policy model members epoch now duration =
    plan_eligible F model epoch (eligible_members policy members now duration)
