-- ===== src/Examples/Orders.antt =====
-- Tests of what does not depend on an order, and of the life of a node.
use share_compute.Prelude.{true, false, List, [], ◌∷◌, ◌≡◌, ◌≢◌, refl, arith, string_eq}
use share_compute.Prelude.Reorder.{Reorders}
use share_compute.Capability.{NodeId}
use share_compute.Node.{active_core, suspended}
use share_compute.Membership.{MembershipService, PlannedMember, planning_members}
use share_compute.Membership.Tick.{tick}
use share_compute.Membership.History.{Entry, appears, answers, fails, announces, ticks, run}
use share_compute.Membership.Unordered.{SameRing}
use share_compute.Membership.Orders.{run-unordered}
use share_compute.Membership.Lifecycle.{Life, state_of}
use share_compute.Membership.Lives.{run-Life}
use share_compute.Planner.{default_policy}
use share_compute.Planner.Plan.{plan}
use share_compute.Planner.Determinism.{plan-Reorders}
use share_compute.Examples.Rational.{rational}
use share_compute.Examples.Devices.{
  uuid, first_epoch, mac, member, ring_of, empty_ring, offered, model,
}

abbrev ring : List PlannedMember
ring = offered "b" 40 ∷ offered "a" 20 ∷ []

abbrev reversed : List PlannedMember
reversed = offered "a" 20 ∷ offered "b" 40 ∷ []

b_is_not_a : ◌≢◌ {A = NodeId} "b" "a"
b_is_not_a e = let h : false ≡ true = (string_eq.beq_iff "b" "a").1 e in ground arith

plan-Reorders_example :
    plan rational default_policy model ring first_epoch 10 40
    ≡ plan rational default_policy model reversed first_epoch 10 40
unfolding share_compute.Membership.member_id
plan-Reorders_example =
    plan-Reorders rational default_policy model ring reversed first_epoch 10 40
      (Reorders.swap (offered "b" 40) (offered "a" 20) [] b_is_not_a)

abbrev two_ring : MembershipService
two_ring = record (ring_of active_core 0) {
  storage = ("b", member "b" active_core 0) ∷ ("a", member "a" suspended 0) ∷ [];
}

abbrev two_ring_reversed : MembershipService
two_ring_reversed = record (ring_of active_core 0) {
  storage = ("a", member "a" suspended 0) ∷ ("b", member "b" active_core 0) ∷ [];
}

abbrev two_history : List Entry
two_history =
    record { at = 10; uuid = uuid; call = appears (mac "a" 40) }
    ∷ record { at = 20; uuid = uuid; call = answers "b" }
    ∷ record { at = 6000; uuid = uuid; call = ticks }
    ∷ record { at = 7000; uuid = uuid; call = fails "a" }
    ∷ record { at = 8000; uuid = uuid; call = announces "b" }
    ∷ []

run-unordered_example :
    SameRing (run two_ring two_history) (run two_ring_reversed two_history)
    × ((run two_ring two_history).current_epoch ≡ (run two_ring_reversed two_history).current_epoch)
    × (planning_members (run two_ring two_history).storage
        ≡ planning_members (run two_ring_reversed two_history).storage)
    × ((tick (run two_ring two_history) uuid 9000).1
        ≡ (tick (run two_ring_reversed two_history) uuid 9000).1)
run-unordered_example = run-unordered two_ring two_ring_reversed two_history uuid 9000 (record {
  rest = refl;
  members =
      Reorders.swap ("b", member "b" active_core 0) ("a", member "a" suspended 0) [] b_is_not_a;
  own = (refl, (refl, tt));
})

run-Life_example :
    Life "a" two_history (state_of "a" empty_ring) (state_of "a" (run empty_ring two_history))
run-Life_example = run-Life empty_ring two_history "a"
