-- ===== src/Pool/Pooling.antt =====
-- What `planRAMPool` of CrossPlatformPool.swift promises.
use share_compute.Prelude.{
  ℕ, Bool, true, false, Option, none, some, List, [], ◌∷◌, ◌≡◌, ◌⊎◌, refl, sym, ap, ◌∙◌, inl, inr,
  arith, any, all, map, lookup, contains, string_eq, ◌=?◌, sort_by, any-sort_by, Bool-cases,
  Option-cases,
}
use share_compute.Capability.{NodeId}
use share_compute.Lease.{LeaseId}
use share_compute.Membership.{PlannedMember, member_id, planning_members}
use share_compute.Planner.{
  ModelPlacementSpec, ShardPlan, Outcome, PlanningError, ok, throws, trap, ◌>>=◌,
}
use share_compute.Planner.Apportion.{Double}
use share_compute.Planner.Plan.{plan, is_empty}
use share_compute.Platform.{
  PlatformKind, platform_eq, platform_lt, all_required, windows, macos, ios, android,
}
use share_compute.Pool.Seats.{Seated}
use share_compute.Pool.Ticks.{ticked-Seated}
use share_compute.Pool.{CrossPlatformPool, has_all_required_platforms}
use share_compute.Pool.Drive.{
  PoolPlanResult, seats_of, assigned, report, plan_ticked, plan_ram_pool, tick, is_deferral,
}

-- The platform's seat is held, and its holder has a shard of the plan.
abbrev pub HasShard : CrossPlatformPool → ShardPlan → PlatformKind → Type 0
HasShard pool p platform =
    (holder : NodeId) × (lookup platform pool.node_by_platform ≡ some holder)
    × (contains (map (λ a. a.node_id) p.assignments) holder ≡ true)

seats_of-HasShard :
    (pool : CrossPlatformPool) (p : ShardPlan) (platform : PlatformKind)
    (members : List PlannedMember)
    → Seated pool
    → contains (seats_of pool (assigned p members)) platform ≡ true
    → HasShard pool p platform
unfolding seats_of assigned
seats_of-HasShard pool p platform [] seated h = absurd (ground arith)
seats_of-HasShard pool p platform (m ∷ members) seated h =
    elim (Bool-cases (contains (map (λ a. a.node_id) p.assignments) (member_id m))) [
      | inr none_here ↦
          seats_of-HasShard pool p platform members seated (rw (none_here, assigned) at h)
      | inl shard ↦ elim (Option-cases (lookup (member_id m) pool.platform_by_node)) [
        | inl e ↦ seats_of-HasShard pool p platform members seated (ground arith)
        | inr (seat, e) ↦ elim (Bool-cases (seat =? platform)) [
          | inl here ↦
              let listed = e ∙ ap some ((platform_eq.beq_iff seat platform).0 here) in
              (member_id m, seated.1 platform (member_id m) listed, shard)
          | inr other ↦ seats_of-HasShard pool p platform members seated (ground arith)
        ]
      ]
    ]

every_platform :
    (p : PlatformKind → Bool) (platform : PlatformKind)
    → all p all_required ≡ true
    → p platform ≡ true
every_platform p windows h = ground arith
every_platform p macos h = ground arith
every_platform p ios h = ground arith
every_platform p android h = ground arith

report-HasShard :
    (pool : CrossPlatformPool) (members : List PlannedMember) (p : ShardPlan) (r : PoolPlanResult)
    → Seated pool
    → report pool members p ≡ some r
    → (r.plan ≡ p) × ((platform : PlatformKind) → HasShard pool p platform)
unfolding report
report-HasShard pool members p r seated h =
    let seats = seats_of pool (assigned p members) in
    elim (Bool-cases (all (contains (sort_by platform_lt seats)) all_required)) [
      | inr short ↦ absurd (ground arith)
      | inl full ↦ (
        ground arith,
        λ platform. seats_of-HasShard pool p platform members seated (
            sym (any-sort_by platform_lt (λ x. x =? platform) seats)
            ∙ every_platform (contains (sort_by platform_lt seats)) platform full),
      )
    ]

-- What a pooled plan promises: it is the planner's plan for the ring at the pool's epoch, and the
-- holder of every platform's seat has a shard in it.
abbrev pub IsPooled : Double → CrossPlatformPool → ModelPlacementSpec → ℕ → ℕ → ShardPlan → Type 0
IsPooled F pool model duration now p =
    (plan F pool.policy model (planning_members pool.membership.storage)
        pool.membership.current_epoch now duration
      ≡ ok p)
    × ((platform : PlatformKind) → HasShard pool p platform)

-- What a ring that was ticked may be answered with: nothing, or, with every seat taken, what the
-- planner says of that ring.
pub data Answers (F : Double) (pool : CrossPlatformPool) (model : ModelPlacementSpec)
    (duration now : ℕ) : Outcome (Option PoolPlanResult) → Type 0 where
  nothing : Answers F pool model duration now (ok none)
  pooled :
      (r : PoolPlanResult)
      → has_all_required_platforms pool ≡ true
      → IsPooled F pool model duration now r.plan
      → Answers F pool model duration now (ok (some r))
  refused :
      (e : PlanningError)
      → has_all_required_platforms pool ≡ true
      → plan F pool.policy model
          (planning_members pool.membership.storage)
          pool.membership.current_epoch
          now
          duration
        ≡ throws e
      → Answers F pool model duration now (throws e)
  trapped :
      has_all_required_platforms pool ≡ true
      → plan F pool.policy model
          (planning_members pool.membership.storage)
          pool.membership.current_epoch
          now
          duration
        ≡ trap
      → Answers F pool model duration now trap

reported-Answers :
    (F : Double) (model : ModelPlacementSpec) (duration now : ℕ) (pool : CrossPlatformPool)
    → Seated pool
    → has_all_required_platforms pool ≡ true
    → (o : Outcome ShardPlan)
    → plan F pool.policy model
        (planning_members pool.membership.storage)
        pool.membership.current_epoch
        now
        duration
      ≡ o
    → Answers F pool model duration now
        (o >>= λ p. ok (report pool (planning_members pool.membership.storage) p))
reported-Answers F model duration now pool seated present (throws e) h = refused e present h
reported-Answers F model duration now pool seated present trap h = trapped present h
reported-Answers F model duration now pool seated present (ok p) h =
    let members = planning_members pool.membership.storage in
    elim (Option-cases (report pool members p)) [
      | inl e ↦ rw e nothing
      | inr (r, e) ↦
          let (same, shards) = report-HasShard pool members p r seated e in
          rw e (pooled r present (rw same (h, shards)))
    ]

plan_ticked-Answers :
    (F : Double) (model : ModelPlacementSpec) (duration now : ℕ) (pool : CrossPlatformPool)
    → Seated pool
    → Answers F pool model duration now (plan_ticked F model duration now pool)
unfolding plan_ticked
plan_ticked-Answers F model duration now pool seated =
    let members = planning_members pool.membership.storage in
    elim (Bool-cases (has_all_required_platforms pool)) [
      | inr missing ↦ rw (missing, plan_ticked) nothing
      | inl present ↦ elim (Bool-cases (is_empty members)) [
        | inl nobody ↦ rw (present, nobody, plan_ticked) nothing
        | inr somebody ↦
            rw (present, somebody, plan_ticked)
              (reported-Answers F model duration now pool seated present _ refl)
      ]
    ]

-- With the seats in order, `planRAMPool` answers nothing, or all four platforms were connected before
-- the tick and are after it, the tick deferred no epoch, and the answer is the planner's for the ring
-- after the tick at that ring's epoch: its error, or its plan, in which the holder of each of the four
-- seats has a shard.
pub plan_ram_pool-Answers :
    (F : Double) (pool : CrossPlatformPool) (uuid : NodeId → LeaseId) (model : ModelPlacementSpec)
    (duration now : ℕ)
    → Seated pool
    → Answers F
        (tick pool uuid now).0
        model
        duration
        now
        (plan_ram_pool F pool uuid model duration now).2
      × (((plan_ram_pool F pool uuid model duration now).2 ≡ ok none)
          ⊎ ((has_all_required_platforms pool ≡ true)
              × ((plan_ram_pool F pool uuid model duration now).0 ≡ (tick pool uuid now).0)
              × (any is_deferral (tick pool uuid now).1 ≡ false)))
unfolding plan_ram_pool
plan_ram_pool-Answers F pool uuid model duration now h =
    elim (Bool-cases (has_all_required_platforms pool)) [
      | inr missing ↦ rw (missing, plan_ram_pool) (nothing, inl refl)
      | inl present ↦ elim (Bool-cases (any is_deferral (tick pool uuid now).1)) [
        | inl late ↦ rw (present, late, plan_ram_pool) (nothing, inl refl)
        | inr settled ↦
            rw (present, settled, plan_ram_pool)
              (
                plan_ticked-Answers F model duration now (tick pool uuid now).0
                    (ticked-Seated pool uuid now h),
                inr (refl, refl, refl),
              )
      ]
    ]
