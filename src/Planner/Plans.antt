-- ===== src/Planner/Plans.antt =====
-- What a plan promises (StagePlanner.swift, `plan`).
use share_compute.Prelude.{
  ℕ, suc, ◌+◌, ◌-◌, ◌*◌, ◌≤◌, ◌<◌, true, false, some, List, [], ◌∷◌, ◌≡◌, ◌⊎◌, refl, sym, ap, subst,
  ◌∙◌, inl, inr, arith, leb, leb→le, ◌==◌, length, length-map, get_elem?, sum, All, Bool-cases,
}
use share_compute.Lease.{Epoch}
use share_compute.Membership.{PlannedMember, member_id}
use share_compute.Planner.{
  ModelPlacementSpec, bytes_for, ShardAssignment, ShardPlan, Outcome, ok, throws, no_eligible_nodes,
  more_nodes_than_layers, insufficient_aggregate_memory, node_cannot_fit_shard,
}
use share_compute.Planner.Apportion.{Double, apportion}
use share_compute.Planner.Apportion.Totals.{exact_limit, IsExact, apportion_total}
use share_compute.Planner.Plan.{assign, finish, capacities, is_empty, place, plan_eligible}

-- The assignments follow the members in order, with ranks from `rank` on; each begins where the one
-- before it ends, holds a layer at least, and fits its node; the last ends at `end`.
abbrev pub Covers :
    ModelPlacementSpec → ℕ → ℕ → ℕ → List PlannedMember → List ShardAssignment → Type 0
Covers model rank start end [] [] = start ≡ end
Covers model rank start end [] (a ∷ rest) = ⊥
Covers model rank start end (m ∷ ms) [] = ⊥
Covers model rank start end (m ∷ ms) (a ∷ rest) =
    (a.node_id ≡ member_id m)
    × (a.rank ≡ rank)
    × (a.start_layer ≡ start)
    × (start < a.end_layer)
    × (a.estimated_bytes ≡ bytes_for model (a.end_layer - start))
    × (a.estimated_bytes ≤ m.profile.memory.usable_bytes)
    × Covers model (suc rank) a.end_layer end ms rest

-- The error names a member, and the bytes of that member's count of layers, which do not fit it.
abbrev pub Overfull :
    {A : Type 0} → ModelPlacementSpec → List ℕ → List PlannedMember → Outcome A → Type 0
Overfull model counts ms out =
    (i : ℕ) × (m : PlannedMember) × (layers : ℕ) × (get_elem? ms i ≡ some m)
    × (get_elem? counts i ≡ some layers)
    × (m.profile.memory.usable_bytes < bytes_for model layers)
    × (out
        ≡ throws (
            node_cannot_fit_shard (member_id m) (bytes_for model layers)
              m.profile.memory.usable_bytes))

-- The loop either gives assignments that cover the layers from `start` on, or throws that a node
-- cannot fit its shard.
abbrev pub Places :
    ModelPlacementSpec
    → List ℕ
    → ℕ
    → ℕ
    → ℕ
    → List PlannedMember
    → Outcome (List ShardAssignment × ℕ)
    → Type 0
Places model counts rank start end ms out =
    ((done : List ShardAssignment) × (out ≡ ok (done, end)) × Covers model rank start end ms done)
    ⊎ Overfull model counts ms out

later_tails :
    (counts : List ℕ) (rank c : ℕ) (cs : List ℕ)
    → ((k : ℕ) → get_elem? counts (rank + k) ≡ get_elem? (c ∷ cs) k)
    → (k : ℕ) → get_elem? counts (suc rank + k) ≡ get_elem? cs k
later_tails counts rank c cs tails k =
    let e : suc rank + k ≡ rank + suc k = omega arith in ap (get_elem? counts) e ∙ tails (suc k)

assign-Places :
    (model : ModelPlacementSpec) (counts : List ℕ) (rank start : ℕ) (cs : List ℕ)
    (ms : List PlannedMember)
    → length cs ≡ length ms
    → All (λ layers. 0 < layers) cs
    → ((k : ℕ) → get_elem? counts (rank + k) ≡ get_elem? cs k)
    → Places model cs rank start (start + sum cs) ms (assign model counts rank start ms)
unfolding assign
assign-Places model counts rank start [] [] l pos tails = inl ([], ground arith, omega arith)
assign-Places model counts rank start [] (m ∷ ms) l pos tails = absurd (omega arith)
assign-Places model counts rank start (c ∷ cs) [] l pos tails = absurd (omega arith)
assign-Places model counts rank start (c ∷ cs) (m ∷ ms) l pos tails =
    let zeroth : rank + 0 ≡ rank = omega arith in
    let here : get_elem? counts rank ≡ some c = ap (get_elem? counts) (sym zeroth) ∙ tails 0 in
    let next =
      assign-Places model counts (suc rank) (start + c) cs ms (omega arith) pos.1
        (later_tails counts rank c cs tails) in
    let whole : start + c + sum cs ≡ start + (c + sum cs) = omega arith in
    elim (Bool-cases (leb (bytes_for model c) m.profile.memory.usable_bytes)) [
      | inr full ↦ rw (here, assign, full) (inr (0, m, c, refl, refl, ground arith, refl))
      | inl fits ↦ elim next [
        | inr (i, m', layers, at, share, over, e) ↦
            rw (here, assign, fits, e) (inr (suc i, m', layers, at, share, over, refl))
        | inl (done, e, good) ↦
            rw (here, assign, fits, e, whole)
              (inl (
                _,
                refl,
                (
                  refl,
                  refl,
                  refl,
                  ground (arith, pos.0),
                  let e : start + c - start ≡ c = omega arith in ap (bytes_for model) (sym e),
                  ground arith,
                  rw (← whole) good,
                ),
              ))
      ]
    ]

is_empty-nil : (ms : List PlannedMember) → is_empty ms ≡ true → ms ≡ []
is_empty-nil [] h = refl
is_empty-nil (m ∷ ms) h = absurd (ground arith)

is_empty-length : (ms : List PlannedMember) → is_empty ms ≡ false → 0 < length ms
is_empty-length [] h = absurd (ground arith)
is_empty-length (m ∷ ms) h = omega arith

from_zero : (xs : List ℕ) (k : ℕ) → get_elem? xs (0 + k) ≡ get_elem? xs k
from_zero xs k = let e : 0 + k ≡ k = omega arith in ap (get_elem? xs) e

-- The plan that the code builds from its assignments.
abbrev pub plan_of : ModelPlacementSpec → Epoch → List ShardAssignment → ShardPlan
plan_of model epoch done = record {
  epoch = epoch;
  model_id = model.model_id;
  layer_count = model.layer_count;
  assignments = done;
}

-- The two ends of a plan for members that are enough and not too many.
abbrev pub Ends :
    Double → ModelPlacementSpec → Epoch → List PlannedMember → Outcome ShardPlan → Type 0
Ends F model epoch ms out =
    ((done : List ShardAssignment) × (out ≡ ok (plan_of model epoch done))
      × Covers model 0 0 model.layer_count ms done)
    ⊎ ((counts : List ℕ) × (apportion F model.layer_count (capacities model ms) ≡ some counts)
        × Overfull model counts ms out)

module _ (F : Double) (exact_F : IsExact F) (model : ModelPlacementSpec) (epoch : Epoch)
    (ms : List PlannedMember)
    (small : model.layer_count * sum (capacities model ms) < exact_limit) where
  place-Ends :
      0 < length ms → length ms ≤ model.layer_count → Ends F model epoch ms (place F model epoch ms)
  unfolding place finish
  place-Ends n h =
      let l : length (capacities model ms) ≡ length ms = length-map _ ms in
      let (counts, e, (t, c), pos) =
        apportion_total F exact_F model.layer_count (capacities model ms) (omega (arith, l))
          (omega (arith, l)) small in
      let start : 0 + sum counts ≡ model.layer_count = omega (arith, t) in
      let whole : (model.layer_count == model.layer_count) ≡ true = ground arith in
      elim (assign-Places model counts 0 0 counts ms (c ∙ l) pos (from_zero counts)) [
        | inr (i, m, layers, at, share, over, q) ↦
            rw (e, place, q) (inr (counts, refl, (i, m, layers, at, share, over, refl)))
        | inl (done, q, good) ↦
            rw (e, place, q, start, finish, whole) (inl (done, refl, rw start at good))
      ]

  -- Where `Double` is exact and the numbers are small enough for it, the planner returns a plan or
  -- throws an error, and never fails a precondition: without members it says so, likewise if they
  -- outnumber the layers or if their memory together is less than the weights; otherwise it gives
  -- a plan that covers every layer, or names a member of the ring whose number of layers in the
  -- apportionment does not fit its memory, with the bytes of those layers.
  pub plan_eligible_cases :
      ((ms ≡ []) × (plan_eligible F model epoch ms ≡ throws no_eligible_nodes))
      ⊎ ((model.layer_count < length ms)
          × (plan_eligible F model epoch ms
              ≡ throws (more_nodes_than_layers model.layer_count (length ms))))
      ⊎ ((0 < length ms)
          × (length ms ≤ model.layer_count)
          × (sum (capacities model ms) < model.total_weight_bytes)
          × (plan_eligible F model epoch ms
              ≡ throws (
                  insufficient_aggregate_memory model.total_weight_bytes
                    (sum (capacities model ms)))))
      ⊎ ((0 < length ms)
          × (length ms ≤ model.layer_count)
          × (model.total_weight_bytes ≤ sum (capacities model ms))
          × Ends F model epoch ms (plan_eligible F model epoch ms))
  unfolding plan_eligible
  plan_eligible_cases = elim (Bool-cases (is_empty ms)) [
    | inl e ↦ inl (is_empty-nil ms e, rw (e, plan_eligible))
    | inr e ↦ elim (Bool-cases (leb (length ms) model.layer_count)) [
      | inr many ↦ inr (inl (ground arith, rw (e, plan_eligible, many)))
      | inl few ↦ elim (Bool-cases (leb model.total_weight_bytes (sum (capacities model ms)))) [
        | inr short ↦
            let some_member = is_empty-length ms e in
            inr (
              inr (
                inl (some_member, leb→le _ _ few, ground arith, rw (e, plan_eligible, few, short))))
        | inl enough ↦
            let some_member = is_empty-length ms e in
            let result = place-Ends some_member (leb→le _ _ few) in
            rw (e, plan_eligible, few, enough)
              (inr (inr (inr (some_member, leb→le _ _ few, leb→le _ _ enough, result))))
      ]
    ]
  ]

  -- A plan covers the model: its assignments follow the eligible members in order, rank by rank, each
  -- range of layers begins where the one before ends, from 0 to the number of layers, none is empty,
  -- and the bytes that each needs fit the node that is to hold it.
  pub plan_eligible-Covers :
      (p : ShardPlan)
      → plan_eligible F model epoch ms ≡ ok p
      → (p.epoch ≡ epoch)
        × (p.layer_count ≡ model.layer_count)
        × Covers model 0 0 model.layer_count ms p.assignments
  plan_eligible-Covers p h = elim plan_eligible_cases [
    | inl (_, e) ↦ absurd (ground arith)
    | inr (inl (_, e)) ↦ absurd (ground arith)
    | inr (inr (inl (_, _, _, e))) ↦ absurd (ground arith)
    | inr (inr (inr (_, _, _, inr (_, _, (_, _, _, _, _, _, e))))) ↦ absurd (ground arith)
    | inr (inr (inr (_, _, _, inl (done, e, good)))) ↦
        let same : plan_of model epoch done ≡ p = ground arith in
        subst
          (λ (q : ShardPlan).
            (q.epoch ≡ epoch)
            × (q.layer_count ≡ model.layer_count)
            × Covers model 0 0 model.layer_count ms q.assignments)
          same (refl, refl, good)
  ]
