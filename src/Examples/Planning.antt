-- ===== src/Examples/Planning.antt =====
-- Tests of Planner.
use share_compute.Prelude.{
  ℕ, ◌+◌, ◌*◌, ◌/◌, ◌<◌, ◌≤◌, some, List, [], ◌∷◌, ◌≡◌, ◌⊎◌, refl, arith, get_elem?, sum, All,
  sort_by, string_eq, insert_by,
}
use share_compute.Capability.{id_lt, trust_ge}
use share_compute.Lease.{can_host, allows, is_valid}
use share_compute.Membership.{PlannedMember, member_id}
use share_compute.Planner.{
  ModelPlacementSpec, bytes_per_layer, bytes_for, default_policy, ShardAssignment, ShardPlan, ok,
  throws, no_eligible_nodes, more_nodes_than_layers, insufficient_aggregate_memory,
  eligible_members, is_eligible, has_headroom, capacity_for_layers,
}
use share_compute.Planner.Apportion.{apportion, entitlements}
use share_compute.Planner.Apportion.Totals.{apportion_total}
use share_compute.Planner.Apportion.Rounds.{HandsOut}
use share_compute.Planner.Apportion.Quota.{entitlements_quota}
use share_compute.Planner.Plan.{plan, plan_eligible, capacities}
use share_compute.Planner.Plans.{Covers, Ends, plan_eligible_cases}
use share_compute.Planner.Eligibility.{IsFit, is_eligible_iff, plan_sound}
use share_compute.Planner.Divergence.{apportion-below_quota}
use share_compute.Examples.Rational.{rational, rational-IsExact}
use share_compute.Examples.Devices.{first_epoch, offered, model}

abbrev ring : List PlannedMember
ring = offered "b" 40 ∷ offered "a" 20 ∷ []

abbrev halves : List ShardAssignment
halves =
    record { node_id = "a"; rank = 0; start_layer = 0; end_layer = 3; estimated_bytes = 17 }
    ∷ record { node_id = "b"; rank = 1; start_layer = 3; end_layer = 10; estimated_bytes = 37 }
    ∷ []

abbrev shards : ShardPlan
shards = record { epoch = first_epoch; model_id = "model"; layer_count = 10; assignments = halves }

plan_sound_example :
    (shards.epoch ≡ first_epoch)
    × (shards.layer_count ≡ model.layer_count)
    × Covers model 0 0 model.layer_count (eligible_members default_policy ring 10 40) halves
    × All (IsFit default_policy 10 40) (eligible_members default_policy ring 10 40)
unfolding plan eligible_members sort_by insert_by is_eligible has_headroom trust_ge can_host id_lt
    capacity_for_layers apportion bytes_for bytes_per_layer
    share_compute.Node.can_host_required_stage share_compute.Capability.is_under_duress
    share_compute.Membership.member_id share_compute.Planner.Plan.place entitlements
    share_compute.Planner.Apportion.largest_remainder share_compute.Planner.Apportion.hand_out
    share_compute.Planner.Apportion.enumerated share_compute.Planner.Apportion.feed
    share_compute.Planner.Apportion.first_starved share_compute.Planner.Apportion.bump
    share_compute.Capability.is_low share_compute.Capability.trust_raw_value allows is_valid
    share_compute.Lease.remaining_time share_compute.Planner.Apportion.exact
    share_compute.Planner.Apportion.fraction share_compute.Planner.Apportion.precedes
    share_compute.Planner.Plan.assign share_compute.Planner.Plan.finish plan_eligible
    share_compute.Planner.Apportion.largest share_compute.Planner.Apportion.largest_from
    share_compute.Planner.Apportion.drop_one
plan_sound_example =
    plan_sound rational default_policy model ring first_epoch 10 40 shards rational-IsExact
      (omega arith) refl

-- The weights fit the two together, and the shared overhead of the second does not fit it.
abbrev tight : List PlannedMember
tight = offered "b" 60 ∷ offered "a" 3 ∷ []

plan_eligible_cases_example :
    ((tight ≡ []) × (plan_eligible rational model first_epoch tight ≡ throws no_eligible_nodes))
    ⊎ ((10 < 2)
        × (plan_eligible rational model first_epoch tight ≡ throws (more_nodes_than_layers 10 2)))
    ⊎ ((0 < 2)
        × (2 ≤ 10)
        × (sum (capacities model tight) < 50)
        × (plan_eligible rational model first_epoch tight
            ≡ throws (insufficient_aggregate_memory 50 (sum (capacities model tight)))))
    ⊎ ((0 < 2)
        × (2 ≤ 10)
        × (50 ≤ sum (capacities model tight))
        × Ends rational model first_epoch tight (plan_eligible rational model first_epoch tight))
unfolding capacity_for_layers
plan_eligible_cases_example =
    plan_eligible_cases rational rational-IsExact model first_epoch tight (omega arith)

apportion_total_example :
    (r : List ℕ) × (apportion rational 10 (18 ∷ 38 ∷ 0 ∷ []) ≡ some r)
    × HandsOut 10 3 r
    × All (λ layers. 0 < layers) r
apportion_total_example =
    apportion_total rational rational-IsExact 10 (18 ∷ 38 ∷ 0 ∷ []) (omega arith) (omega arith)
      (omega arith)

entitlements_quota_example :
    (x : ℕ) × (get_elem? (3 ∷ 7 ∷ []) 0 ≡ some x) × (10 * 18 / 56 ≤ x) × (x ≤ 10 * 18 / 56 + 1)
unfolding entitlements share_compute.Planner.Apportion.largest_remainder
    share_compute.Planner.Apportion.hand_out share_compute.Planner.Apportion.enumerated
    share_compute.Planner.Apportion.bump share_compute.Planner.Apportion.exact
    share_compute.Planner.Apportion.fraction share_compute.Planner.Apportion.precedes sort_by
    insert_by
entitlements_quota_example =
    entitlements_quota rational rational-IsExact 10 0 (18 ∷ 38 ∷ []) (3 ∷ 7 ∷ []) 18 (omega arith)
      (omega arith) refl refl

a_IsFit : IsFit default_policy 10 40 (offered "a" 20)
unfolding is_eligible has_headroom trust_ge can_host share_compute.Node.can_host_required_stage
    share_compute.Capability.is_under_duress share_compute.Capability.is_low
    share_compute.Capability.trust_raw_value allows is_valid share_compute.Lease.remaining_time
a_IsFit = (is_eligible_iff default_policy 10 40 (offered "a" 20)).0 refl

apportion-below_quota_example :
    (r : List ℕ) × (x : ℕ) × (apportion rational 3 (1 ∷ 1 ∷ 8 ∷ []) ≡ some r)
    × (get_elem? r 2 ≡ some x)
    × (x < 3 * 8 / 10)
apportion-below_quota_example =
    apportion-below_quota rational (1 ∷ 1 ∷ 8 ∷ []) 2 8 rational-IsExact (omega arith) (omega arith)
      refl (omega arith)
