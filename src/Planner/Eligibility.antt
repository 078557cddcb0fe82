-- ===== src/Planner/Eligibility.antt =====
-- Who may hold a required stage (StagePlanner.swift, `eligibleMembers`), and who is in a plan.
use share_compute.Prelude.{
  ℕ, ◌+◌, ◌*◌, ◌<◌, ◌≤◌, Bool, true, false, Option, none, some, List, [], ◌∷◌, map, filter, sum,
  All, ◌≡◌, ◌↔◌, ◌∙◌, ◌++◌, ◌||◌, ◌=?◌, =?-refl, ap, refl, arith, Bool-cases, inl, inr, All-sort_by,
  sort_by, any, contains, any-sort_by, string_eq,
}
use share_compute.Capability.{
  NodeId, id_lt, trust_raw_value, trust_ge, is_under_duress, decode_authoritative,
}
use share_compute.Node.{can_host_required_stage}
use share_compute.Lease.{Epoch, Lease, allows}
use share_compute.Lease.Headroom.{can_host_iff}
use share_compute.Membership.{PlannedMember, member_id}
use share_compute.Planner.{
  EligibilityPolicy, is_eligible, has_headroom, eligible_members, ModelPlacementSpec, ShardPlan, ok,
}
use share_compute.Planner.Apportion.{Double}
use share_compute.Planner.Apportion.Totals.{exact_limit, IsExact}
use share_compute.Planner.Plan.{plan, capacities}
use share_compute.Planner.Plans.{Covers, plan_eligible-Covers}

-- What a policy asks of a member: its state and its own word, enough trust, power to spare where the
-- policy says so, and, where the policy says so, a lease for the authoritative decode that outlasts
-- the stage.
pub record IsFit (policy : EligibilityPolicy) (now duration : ℕ) (m : PlannedMember) : Type 0 where
  pub state : can_host_required_stage m.state ≡ true
  pub declares : m.profile.declares_can_host_required_stage ≡ true
  pub trusted :
      trust_raw_value policy.minimum_trust_for_required_stage ≤ trust_raw_value m.profile.trust
  pub rested :
      policy.exclude_nodes_under_power_duress ≡ true → is_under_duress m.profile.power ≡ false
  pub leased :
      policy.require_lease_headroom ≡ true
      → (l : Lease) × (m.lease ≡ some l)
        × (allows l decode_authoritative ≡ true)
        × (now + duration < l.expires_at)

headroom-lease :
    (o : Option Lease) (now duration : ℕ)
    → has_headroom o duration now ≡ true
    → (l : Lease) × (o ≡ some l)
      × (allows l decode_authoritative ≡ true)
      × (now + duration < l.expires_at)
unfolding has_headroom
headroom-lease none now duration h = absurd (ground arith)
headroom-lease (some l) now duration h =
    let (allowed, room) = (can_host_iff l decode_authoritative duration now).0 h in
    (l, refl, allowed, room)

lease-headroom :
    (o : Option Lease) (now duration : ℕ) (l : Lease)
    → o ≡ some l
    → allows l decode_authoritative ≡ true
    → now + duration < l.expires_at
    → has_headroom o duration now ≡ true
unfolding has_headroom
lease-headroom o now duration l e a r =
    rw e ((can_host_iff l decode_authoritative duration now).1 (a, r))

-- The planner's test passes exactly the members that are fit under the policy.
pub is_eligible_iff :
    (policy : EligibilityPolicy) (now duration : ℕ) (m : PlannedMember)
    → (is_eligible policy now duration m ≡ true) ↔ IsFit policy now duration m
unfolding is_eligible trust_ge
is_eligible_iff policy now duration m = (
  λ h. record {
    state = ground arith;
    declares = ground arith;
    trusted = ground arith;
    rested = λ p. ground arith;
    leased = λ p. headroom-lease m.lease now duration (ground arith);
  },
  λ fit. elim (Bool-cases policy.require_lease_headroom) [
    | inr e ↦ ground (arith, fit.state, fit.declares, fit.trusted)
    | inl e ↦
        let (l, held, allowed, room) = fit.leased e in
        let has = lease-headroom m.lease now duration l held allowed room in
        ground (arith, fit.state, fit.declares, fit.trusted, has)
  ],
)

All-eligible :
    (policy : EligibilityPolicy) (now duration : ℕ) (members : List PlannedMember)
    → All (IsFit policy now duration) (filter (is_eligible policy now duration) members)
All-eligible policy now duration [] = tt
All-eligible policy now duration (m ∷ members) =
    let rest = All-eligible policy now duration members in
    elim (Bool-cases (is_eligible policy now duration m)) [
      | inl e ↦ rw e ((is_eligible_iff policy now duration m).0 e, rest)
      | inr e ↦ rw e rest
    ]

any-fit :
    (policy : EligibilityPolicy) (now duration : ℕ) (p : PlannedMember → Bool) (m : PlannedMember)
    (members : List PlannedMember)
    → p m ≡ true
    → IsFit policy now duration m
    → any p (filter (is_eligible policy now duration) (m ∷ members)) ≡ true
any-fit policy now duration p m members h fit =
    rw ((is_eligible_iff policy now duration m).1 fit, h)

any-eligible :
    (policy : EligibilityPolicy) (now duration : ℕ) (p : PlannedMember → Bool) (m : PlannedMember)
    (before after : List PlannedMember)
    → p m ≡ true
    → IsFit policy now duration m
    → any p (filter (is_eligible policy now duration) (before ++ m ∷ after)) ≡ true
any-eligible policy now duration p m [] after h fit = any-fit policy now duration p m after h fit
any-eligible policy now duration p m (x ∷ before) after h fit =
    let rest = any-eligible policy now duration p m before after h fit in ground (arith, rest)

any-ids :
    (k : NodeId) (ms : List PlannedMember)
    → contains (map member_id ms) k ≡ any (λ x. member_id x =? k) ms
any-ids k [] = refl
any-ids k (m ∷ ms) = ap (λ b. (member_id m =? k) || b) (any-ids k ms)

-- Where a member is fit, it is among the eligible members, wherever it stands in the list; and these
-- are all fit.
pub eligible_members-IsFit :
    (policy : EligibilityPolicy) (now duration : ℕ) (before after : List PlannedMember)
    (m : PlannedMember)
    → IsFit policy now duration m
    → let found = eligible_members policy (before ++ m ∷ after) now duration in
      All (IsFit policy now duration) found × (contains (map member_id found) (member_id m) ≡ true)
unfolding eligible_members
eligible_members-IsFit policy now duration before after m fit =
    let passed = filter (is_eligible policy now duration) (before ++ m ∷ after) in
    let is_m = λ (x : PlannedMember). member_id x =? member_id m in
    let precedes = λ (a b : PlannedMember). id_lt (member_id a) (member_id b) in
    (
      All-sort_by precedes (IsFit policy now duration) passed
          (All-eligible policy now duration (before ++ m ∷ after)),
      any-ids (member_id m) (sort_by precedes passed)
          ∙ any-sort_by precedes is_m passed
          ∙ any-eligible policy now duration is_m m before after (=?-refl (member_id m)) fit,
    )

-- Where `Double` is exact and the numbers are small enough for it, a plan for the ring is complete
-- and safe: it has the epoch and the number of layers asked for, it covers every layer of the
-- model exactly once, in one run of ranges that fit their nodes, and every node that holds one is
-- fit under the policy.
pub plan_sound :
    (F : Double) (policy : EligibilityPolicy) (model : ModelPlacementSpec)
    (members : List PlannedMember) (epoch : Epoch) (now duration : ℕ) (p : ShardPlan)
    → IsExact F
    → model.layer_count * sum (capacities model (eligible_members policy members now duration))
      < exact_limit
    → plan F policy model members epoch now duration ≡ ok p
    → (p.epoch ≡ epoch)
      × (p.layer_count ≡ model.layer_count)
      × Covers model 0 0 model.layer_count
          (eligible_members policy members now duration)
          p.assignments
      × All (IsFit policy now duration) (eligible_members policy members now duration)
unfolding plan eligible_members
plan_sound F policy model members epoch now duration p exact_F small h =
    let chosen = eligible_members policy members now duration in
    let (e, l, covers) = plan_eligible-Covers F exact_F model epoch chosen small p h in
    let precedes = λ (a b : PlannedMember). id_lt (member_id a) (member_id b) in
    (
      e,
      l,
      covers,
      All-sort_by precedes (IsFit policy now duration)
          (filter (is_eligible policy now duration) members)
          (All-eligible policy now duration members),
    )
