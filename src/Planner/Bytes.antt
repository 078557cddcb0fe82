-- ===== src/Planner/Bytes.antt =====
-- The bytes of a plan (StagePlanner.swift, `bytesPerLayer`, `bytesFor`).
use native.Mathlib.Nat.{lt-mul-div-succ, mul-div-le}
use share_compute.Prelude.{
  ℕ, suc, ◌+◌, ◌-◌, ◌*◌, ◌≤◌, ◌<◌, List, [], ◌∷◌, map, sum, length, lt→ltb, ◌≡◌, arith,
}
use share_compute.Membership.{PlannedMember}
use share_compute.Planner.{ModelPlacementSpec, bytes_per_layer, bytes_for, ShardAssignment}
use share_compute.Planner.Plans.{Covers}

-- In a model with layers the cost of a layer is rounded up, by less than a byte: all the layers
-- together cost at least the weights, and less than a byte a layer more.
pub bytes_per_layer_bounds :
    (m : ModelPlacementSpec)
    → 0 < m.layer_count
    → (m.total_weight_bytes ≤ m.layer_count * bytes_per_layer m)
      × (m.layer_count * bytes_per_layer m < m.total_weight_bytes + m.layer_count)
unfolding bytes_per_layer
bytes_per_layer_bounds m h =
    let n = m.total_weight_bytes + m.layer_count - 1 in
    let high = lt-mul-div-succ n h in
    let low = mul-div-le n m.layer_count in
    rw (lt→ltb 0 m.layer_count h) (omega (arith, high), omega (arith, low))

end_after :
    (model : ModelPlacementSpec) (rank start end : ℕ) (ms : List PlannedMember)
    (done : List ShardAssignment)
    → Covers model rank start end ms done
    → start ≤ end
end_after model rank start end [] [] h = omega arith
end_after model rank start end [] (a ∷ done) h = absurd h
end_after model rank start end (m ∷ ms) [] h = absurd h
end_after model rank start end (m ∷ ms) (a ∷ done) h =
    let rest = end_after model (suc rank) a.end_layer end ms done h.6 in omega (arith, rest, h.3)

-- The estimates of assignments that cover a range of layers add up to the cost of these layers,
-- and one overhead for each node.
pub Covers-bytes :
    (model : ModelPlacementSpec) (rank start end : ℕ) (ms : List PlannedMember)
    (done : List ShardAssignment)
    → Covers model rank start end ms done
    → sum (map (λ a. a.estimated_bytes) done)
      ≡ (end - start) * bytes_per_layer model + length ms * model.per_node_overhead_bytes
unfolding bytes_for
Covers-bytes model rank start end [] [] h =
    let e : end - start ≡ 0 = omega arith in rw e (omega arith)
Covers-bytes model rank start end [] (a ∷ done) h = absurd h
Covers-bytes model rank start end (m ∷ ms) [] h = absurd h
Covers-bytes model rank start end (m ∷ ms) (a ∷ done) h =
    let rest = Covers-bytes model (suc rank) a.end_layer end ms done h.6 in
    let last = end_after model (suc rank) a.end_layer end ms done h.6 in
    let split : end - start ≡ (a.end_layer - start) + (end - a.end_layer) =
      omega (arith, last, h.3) in
    rw split (omega (arith, rest, h.4))
