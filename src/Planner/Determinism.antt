-- ===== src/Planner/Determinism.antt =====
-- Every node derives the same plan (StagePlanner.swift, the sort in `eligibleMembers`).
use share_compute.Prelude.{ℕ, List, ◌≡◌, ◌≢◌, ap}
use share_compute.Prelude.Reorder.{Reorders, filter-Reorders, sort_by-Reorders}
use share_compute.Capability.Order.{id_lt_trans, id_lt_total}
use share_compute.Lease.{Epoch}
use share_compute.Membership.{PlannedMember, member_id}
use share_compute.Planner.{EligibilityPolicy, ModelPlacementSpec, eligible_members, is_eligible}
use share_compute.Planner.Apportion.{Double}
use share_compute.Planner.Plan.{plan, plan_eligible}

-- Two members with different identities.
abbrev pub Apart : PlannedMember → PlannedMember → Type 0
Apart a b = member_id a ≢ member_id b

pub eligible_members-Reorders :
    (policy : EligibilityPolicy) (members members' : List PlannedMember) (now duration : ℕ)
    → Reorders Apart members members'
    → eligible_members policy members now duration ≡ eligible_members policy members' now duration
unfolding eligible_members
eligible_members-Reorders policy members members' now duration r =
    sort_by-Reorders _ (λ x y z. id_lt_trans (member_id x) (member_id y) (member_id z)) Apart
      (λ x y. id_lt_total (member_id x) (member_id y))
      (filter-Reorders Apart (is_eligible policy now duration) r)

-- Nodes that know the same members in any order, each identity once, derive the same plan, or throw
-- the same error.
pub plan-Reorders :
    (F : Double) (policy : EligibilityPolicy) (model : ModelPlacementSpec)
    (members members' : List PlannedMember) (epoch : Epoch) (now duration : ℕ)
    → Reorders Apart members members'
    → plan F policy model members epoch now duration
      ≡ plan F policy model members' epoch now duration
unfolding plan
plan-Reorders F policy model members members' epoch now duration r =
    ap (plan_eligible F model epoch)
      (eligible_members-Reorders policy members members' now duration r)
