-- ===== src/Examples/Pooled.antt =====
-- Tests of Pool.
use share_compute.Prelude.{
  ℕ, true, false, none, some, List, [], ◌∷◌, ◌≡◌, ◌⊎◌, refl, inl, inr, ap, arith, any, lookup,
  string_eq, Bool-cases, ◌=?◌, subst,
}
use share_compute.Capability.{NodeId}
use share_compute.Node.{active_core, draining, participates_in_planning}
use share_compute.Membership.{MembershipService, MemberRecord}
use share_compute.Membership.Evictions.{evictions_of}
use share_compute.Membership.Tick.{tick as membership_tick}
use share_compute.Planner.Plan.{is_empty}
use share_compute.Planner.{default_policy, ShardAssignment, ok}
use share_compute.Platform.{windows, macos, ios, android, platform_eq, PlatformKind}
use share_compute.Pool.{
  CrossPlatformPool, PoolConnectionEvent, peer_connected, has_all_required_platforms, connect,
}
use share_compute.Pool.Drive.{tick, plan_ram_pool, is_deferral}
use share_compute.Pool.Seats.{Seated, connect-Seated}
use share_compute.Pool.Ticks.{tick-Seated}
use share_compute.Pool.Pooling.{Answers, plan_ram_pool-Answers}
use share_compute.Pool.Conflicts.{connect_two_seats, connect_draining}
use share_compute.Examples.Rational.{rational}
use share_compute.Examples.Devices.{uuid, mac, lease_of, member, ring_of, empty_ring, model}

abbrev vacant : CrossPlatformPool
vacant = record {
  membership = empty_ring;
  policy = default_policy;
  platform_by_node = [];
  node_by_platform = [];
}

-- One node, which holds the seat of macOS.
abbrev one_seat : CrossPlatformPool
one_seat = record vacant {
  membership = ring_of active_core 0;
  platform_by_node = ("a", macos) ∷ [];
  node_by_platform = (macos, "a") ∷ [];
}

one_seat-Seated : Seated one_seat
unfolding lookup
one_seat-Seated = (taken, listed)
  where
    taken :
        (p : PlatformKind) (n : NodeId)
        → lookup p one_seat.node_by_platform ≡ some n
        → lookup n one_seat.platform_by_node ≡ some p
    taken windows n e = absurd (ground arith)
    taken macos n e =
        let who : "a" ≡ n = ground arith in
        subst (λ m. lookup m one_seat.platform_by_node ≡ some macos) who refl
    taken ios n e = absurd (ground arith)
    taken android n e = absurd (ground arith)

    listed :
        (p : PlatformKind) (n : NodeId)
        → lookup n one_seat.platform_by_node ≡ some p
        → lookup p one_seat.node_by_platform ≡ some n
    listed p n e = elim (Bool-cases ("a" =? n)) [
      | inl here ↦
          let who : "a" ≡ n = (string_eq.beq_iff "a" n).0 here in
          let at : macos ≡ p = ground arith in
          subst (λ q. lookup q one_seat.node_by_platform ≡ some n) at (ap some who)
      | inr other ↦ absurd (ground arith)
    ]

connect-Seated_example : Seated (connect one_seat uuid 10 macos (mac "b" 17)).0
unfolding lookup
connect-Seated_example =
    connect-Seated one_seat uuid 10 macos (mac "b" 17) (λ q e. absurd (untaken q e)) one_seat-Seated
  where
    untaken : (q : PlatformKind) → lookup q one_seat.node_by_platform ≡ some "b" → ⊥
    untaken windows e = ground arith
    untaken macos e = ground (arith, string_eq.beq_iff "a" "b")
    untaken ios e = ground arith
    untaken android e = ground arith

-- The only node was silent three times: the tick evicts it.
abbrev silent : CrossPlatformPool
silent = record one_seat { membership = ring_of active_core 3 }

tick-Seated_example :
    Seated (tick silent uuid 10).0
    × (((is_empty (evictions_of "a" (membership_tick silent.membership uuid 10).1) ≡ true)
          × (lookup "a" (tick silent uuid 10).0.platform_by_node
              ≡ lookup "a" silent.platform_by_node))
        ⊎ ((is_empty (evictions_of "a" (membership_tick silent.membership uuid 10).1) ≡ false)
            × (lookup "a" (tick silent uuid 10).0.platform_by_node ≡ none)))
tick-Seated_example = tick-Seated silent uuid 10 "a" one_seat-Seated

connect_two_seats_example :
    let after = (connect one_seat uuid 10 ios (mac "a" 17)).0 in
    (lookup macos after.node_by_platform ≡ some "a")
    × (lookup ios after.node_by_platform ≡ some "a")
    × (lookup "a" after.platform_by_node ≡ some ios)
unfolding lookup
connect_two_seats_example = connect_two_seats one_seat uuid 10 macos ios (mac "a" 17) refl refl

abbrev leaving : CrossPlatformPool
leaving = record vacant { membership = ring_of draining 0 }

connect_draining_example :
    ((rest : List PoolConnectionEvent) × ((connect leaving uuid 10 macos (mac "a" 17)).1
        ≡ peer_connected macos "a" ∷ rest))
    × ((r : MemberRecord) × (lookup "a"
            (connect leaving uuid 10 macos (mac "a" 17)).0.membership.storage
          ≡ some r)
        × (participates_in_planning r.state ≡ false))
unfolding lookup
connect_draining_example =
    connect_draining leaving uuid 10 macos (mac "a" 17) (member "a" draining 0) refl refl refl

abbrev small : NodeId → MemberRecord
small node = record {
  profile = mac node 17;
  state = active_core;
  lease = some (lease_of node 60000);
  consecutive_missed_heartbeats = 0;
  last_heard_from = 0;
  stability_score = (member node active_core 0).stability_score;
}

abbrev four_ring : MembershipService
four_ring = record empty_ring {
  storage = ("a", small "a") ∷ ("b", small "b") ∷ ("c", small "c") ∷ ("d", small "d") ∷ [];
  last_epoch_members = "a" ∷ "b" ∷ "c" ∷ "d" ∷ [];
}

abbrev four : CrossPlatformPool
four = record vacant {
  membership = four_ring;
  platform_by_node = ("a", windows) ∷ ("b", macos) ∷ ("c", ios) ∷ ("d", android) ∷ [];
  node_by_platform = (windows, "a") ∷ (macos, "b") ∷ (ios, "c") ∷ (android, "d") ∷ [];
}

abbrev shard : NodeId → ℕ → ℕ → ℕ → ℕ → ShardAssignment
shard node rank from upto bytes = record {
  node_id = node;
  rank = rank;
  start_layer = from;
  end_layer = upto;
  estimated_bytes = bytes;
}

four-Seated : Seated four
unfolding lookup
four-Seated = (taken, listed)
  where
    taken :
        (p : PlatformKind) (n : NodeId)
        → lookup p four.node_by_platform ≡ some n
        → lookup n four.platform_by_node ≡ some p
    taken windows n e =
        let who : "a" ≡ n = ground arith in
        subst (λ m. lookup m four.platform_by_node ≡ some windows) who refl
    taken macos n e =
        let who : "b" ≡ n = ground arith in
        subst (λ m. lookup m four.platform_by_node ≡ some macos) who refl
    taken ios n e =
        let who : "c" ≡ n = ground arith in
        subst (λ m. lookup m four.platform_by_node ≡ some ios) who refl
    taken android n e =
        let who : "d" ≡ n = ground arith in
        subst (λ m. lookup m four.platform_by_node ≡ some android) who refl

    listed :
        (p : PlatformKind) (n : NodeId)
        → lookup n four.platform_by_node ≡ some p
        → lookup p four.node_by_platform ≡ some n
    listed p n e = elim (Bool-cases ("a" =? n)) [
      | inl here ↦
          let who : "a" ≡ n = (string_eq.beq_iff "a" n).0 here in
          let at : windows ≡ p = ground arith in
          subst (λ q. lookup q four.node_by_platform ≡ some n) at (ap some who)
      | inr other_a ↦ elim (Bool-cases ("b" =? n)) [
        | inl here ↦
            let who : "b" ≡ n = (string_eq.beq_iff "b" n).0 here in
            let at : macos ≡ p = ground arith in
            subst (λ q. lookup q four.node_by_platform ≡ some n) at (ap some who)
        | inr other_b ↦ elim (Bool-cases ("c" =? n)) [
          | inl here ↦
              let who : "c" ≡ n = (string_eq.beq_iff "c" n).0 here in
              let at : ios ≡ p = ground arith in
              subst (λ q. lookup q four.node_by_platform ≡ some n) at (ap some who)
          | inr other_c ↦ elim (Bool-cases ("d" =? n)) [
            | inl here ↦
                let who : "d" ≡ n = (string_eq.beq_iff "d" n).0 here in
                let at : android ≡ p = ground arith in
                subst (λ q. lookup q four.node_by_platform ≡ some n) at (ap some who)
            | inr other_d ↦ absurd (ground arith)
          ]
        ]
      ]
    ]

plan_ram_pool-Answers_example :
    Answers rational
      (tick four uuid 100).0
      model
      40
      100
      (plan_ram_pool rational four uuid model 40 100).2
    × (((plan_ram_pool rational four uuid model 40 100).2 ≡ ok none)
        ⊎ ((has_all_required_platforms four ≡ true)
            × ((plan_ram_pool rational four uuid model 40 100).0 ≡ (tick four uuid 100).0)
            × (any is_deferral (tick four uuid 100).1 ≡ false)))
plan_ram_pool-Answers_example = plan_ram_pool-Answers rational four uuid model 40 100 four-Seated
