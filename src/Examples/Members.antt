-- ===== src/Examples/Members.antt =====
-- Tests of Membership.
use share_compute.Prelude.{
  sym, ℕ, ◌+◌, ◌*◌, ◌<◌, ◌≤◌, Bool, true, false, none, some, List, [], ◌∷◌, ◌≡◌, ◌≢◌, ◌↔◌, refl,
  inl, inr, arith, length, All, lookup, insert, string_eq,
}
use share_compute.Node.{active_core, suspended, joined_as_core, participates_in_planning}
use share_compute.Lease.{Lease, can_host, allows, is_valid, remaining_time}
use share_compute.Membership.{
  MembershipService, MemberRecord, EvictionReason, heartbeat_loss, node_joined, smoothed,
}
use share_compute.Membership.Reports.{apply_event}
use share_compute.Membership.Tick.{tick}
use share_compute.Membership.History.{Entry, appears, fails, announces, ticks, run}
use share_compute.Membership.Evictions.{evictions_of, Due, tick-evicts_iff}
use share_compute.Membership.Settled.{IsSettled, tick-IsSettled}
use share_compute.Membership.Epochs.{run-epochs}
use share_compute.Membership.Authorised.{AllAuthorised}
use share_compute.Membership.Authority.{run-AllAuthorised}
use share_compute.Membership.Heartbeats.{fail_times, silence_evicts}
use share_compute.Membership.Resumption.{away_and_back, resumed_lease}
use share_compute.Examples.Devices.{
  config, uuid, first_epoch, mac, lease_of, member, ring_of, empty_ring,
}

tick-evicts_iff_example :
    ((evictions_of "a" (tick (ring_of active_core 3) uuid 100).1 ≡ heartbeat_loss ∷ []) ↔ (
      (r : MemberRecord) × (lookup "a" (ring_of active_core 3).storage ≡ some r)
      × Due config 100 r heartbeat_loss))
    × (length (evictions_of "a" (tick (ring_of active_core 3) uuid 100).1) ≤ 1)
tick-evicts_iff_example = tick-evicts_iff (ring_of active_core 3) uuid 100 "a" heartbeat_loss

abbrev history : List Entry
history =
    record { at = 10; uuid = uuid; call = appears (mac "a" 40) }
    ∷ record { at = 6000; uuid = uuid; call = ticks }
    ∷ record { at = 7000; uuid = uuid; call = fails "a" }
    ∷ record { at = 8000; uuid = uuid; call = announces "a" }
    ∷ []

run-epochs_example :
    (1 ≤ (run empty_ring history).current_epoch.value)
    × ((run empty_ring history).current_epoch.value * 5000 + 0 ≤ 1 * 5000 + 8000)
    × ((run empty_ring history).current_epoch.value ≤ 1 + 4)
run-epochs_example =
    run-epochs empty_ring history 8000
      (omega arith, (omega arith, (omega arith, (omega arith, tt)))) (omega arith)

run-AllAuthorised_example : AllAuthorised (run empty_ring history)
run-AllAuthorised_example = run-AllAuthorised empty_ring history (tt, (tt, (tt, (tt, tt)))) tt

silence_evicts_example :
    evictions_of "a" (tick (fail_times 3 "a" (ring_of active_core 0)) uuid 100).1
    ≡ heartbeat_loss ∷ []
unfolding lookup participates_in_planning
silence_evicts_example =
    silence_evicts (ring_of active_core 0) uuid 100 3 "a" (member "a" active_core 0) refl refl
      (omega arith)

-- A ring whose only member has been counted in its epoch.
abbrev settled_ring : MembershipService
settled_ring = record (ring_of active_core 0) { last_epoch_members = "a" ∷ [] }

one_two : first_epoch ≢ record { value = 2 }
one_two e = ground arith

resumed_lease_example :
    (r' : MemberRecord) × (lookup "a" (away_and_back settled_ring uuid 6000 "a").storage ≡ some r')
    × (r'.state ≡ active_core)
    × (r'.lease ≡ some (lease_of "a" 60000))
    × ((lease_of "a" 60000).epoch ≢ (away_and_back settled_ring uuid 6000 "a").current_epoch)
unfolding lookup apply_event share_compute.Node.apply share_compute.Node.next tick
    share_compute.Membership.Tick.renew_epoch share_compute.Membership.Tick.same_set
    share_compute.Membership.Tick.planning_set share_compute.Membership.Tick.to_set
    share_compute.Membership.planning_members share_compute.Prelude.sort_by
    share_compute.Membership.Tick.sweep share_compute.Membership.Tick.visit
    share_compute.Membership.Tick.verdict participates_in_planning
    share_compute.Membership.Tick.reissue_leases share_compute.Lease.next_epoch
    share_compute.Prelude.insert
resumed_lease_example =
    resumed_lease settled_ring uuid 6000 "a" (member "a" active_core 0) (lease_of "a" 60000) refl
      refl refl refl (λ e. one_two (sym e))

tick-IsSettled_example : IsSettled config 100 (member "a" active_core 0)
unfolding tick lookup share_compute.Membership.Tick.renew_epoch
    share_compute.Membership.Tick.same_set share_compute.Membership.Tick.planning_set
    share_compute.Membership.Tick.to_set share_compute.Membership.planning_members
    share_compute.Prelude.sort_by share_compute.Membership.Tick.sweep
    share_compute.Membership.Tick.verdict participates_in_planning is_valid
tick-IsSettled_example =
    tick-IsSettled (ring_of active_core 0) uuid 100 "a" (member "a" active_core 0) (omega arith)
      refl
