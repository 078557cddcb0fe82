-- ===== src/Script/Shards/Pooling.antt =====
-- What `plan_infer_shards` of scripts/inference_pipeline_lib.py gives.
use share_compute.Prelude.{
  ℕ, suc, subst, ◌+◌, ap, sym, ◌∙◌, sum-sort_by, true, some, get_elem?, ◌*◌, ◌<◌, ◌≤◌, false, List,
  [], ◌∷◌, map, filter, ◌≡◌, ◌⊎◌, inl, inr, refl, arith, length, length-map, length-sort_by, sum,
  Bool-cases,
}
use share_compute.Planner.Apportion.Totals.{IsExact, exact_limit}
use share_compute.Script.Agreement.{IsFloat}
use share_compute.Script.Shards.{Gigabytes, Shard, weight}
use share_compute.Script.Shards.Sorted.{IsArranged, by_platform-IsArranged}
use share_compute.Script.Shards.Tiling.{Tiles, ends, tile, plan_shards-Tiles}
use share_compute.Script.Shards.Pipeline.{
  InferPeer, InferShard, InferPlan, planned, raises, insufficient_capacity, insufficient_memory,
  shard_exceeds_peer, has_role, by_platform, base, infer_shard, lacks_capacity, lacks_memory,
  fitted, plan_ordered, plan_infer_shards,
}

-- One shard for each peer, as in `Tiles`, and none larger than its peer's memory.
pub data Stages (G : Gigabytes)
    : ℕ → ℕ → ℕ → List (InferPeer G) → List (InferShard G) → Type 0 where
  ends_at : (rank layer : ℕ) → Stages G rank layer layer [] []
  stage :
      (p : InferPeer G) (s : InferShard G) (finish : ℕ) {peers : List (InferPeer G)}
      {shards : List (InferShard G)}
      → s.node_id ≡ p.node_id
      → s.role ≡ p.role
      → s.start_layer < s.end_layer
      → G.float.double.greater s.estimated_gb (G.plus p.usable_gb G.tiny) ≡ false
      → Stages G (suc s.rank) s.end_layer finish peers shards
      → Stages G s.rank s.start_layer finish (p ∷ peers) (s ∷ shards)

-- The shard of that rank is larger than the peer at its place.
abbrev pub Exceeds : (G : Gigabytes) → ℕ → List (InferPeer G) → List (Shard G) → Type 0
Exceeds G rank peers raw =
    (i : ℕ) × (p : InferPeer G) × (s : Shard G) × (get_elem? peers i ≡ some p)
    × (get_elem? raw i ≡ some s)
    × (s.rank ≡ rank)
    × (G.float.double.greater s.estimated_gb (G.plus p.usable_gb G.tiny) ≡ true)

-- A plan stages the peers, or an error says what does not fit: the capacities together, the memories
-- together, or, where neither is the case, the shard of a rank its peer. There is no third outcome.
pub data IsStaged (G : Gigabytes) (layer_count : ℕ) (total_weight overhead : G.float.double.Value)
    (peers : List (InferPeer G)) : InferPlan G → Type 0 where
  covers :
      (shards : List (InferShard G))
      → lacks_capacity G peers total_weight overhead ≡ false
      → lacks_memory G peers total_weight overhead ≡ false
      → Stages G 0 0 layer_count peers shards
      → IsStaged G layer_count total_weight overhead peers (planned shards)
  no_capacity :
      lacks_capacity G peers total_weight overhead ≡ true
      → IsStaged G layer_count total_weight overhead peers (raises insufficient_capacity)
  no_memory :
      lacks_capacity G peers total_weight overhead ≡ false
      → lacks_memory G peers total_weight overhead ≡ true
      → IsStaged G layer_count total_weight overhead peers (raises insufficient_memory)
  too_large :
      (raw : List (Shard G)) (rank : ℕ)
      → lacks_capacity G peers total_weight overhead ≡ false
      → lacks_memory G peers total_weight overhead ≡ false
      → Tiles G 0 0 layer_count (map (base G) peers) raw
      → Exceeds G rank peers raw
      → IsStaged G layer_count total_weight overhead peers (raises (shard_exceeds_peer rank))

module _ (G : Gigabytes) where
  fitted-Stages :
      (rank from finish : ℕ) (peers : List (InferPeer G)) (raw : List (Shard G))
      → Tiles G rank from finish (map (base G) peers) raw
      → ((k : ℕ) × (fitted G raw peers ≡ raises (shard_exceeds_peer k)) × Exceeds G k peers raw)
        ⊎ ((shards : List (InferShard G)) × (fitted G raw peers ≡ planned shards)
            × Stages G rank from finish peers shards)
  unfolding fitted infer_shard
  fitted-Stages rank from finish [] [] (ends r l) = inr ([], refl, ends_at r l)
  fitted-Stages rank from finish [] (s ∷ raw) t = elim t [ ]
  fitted-Stages rank from finish (p ∷ peers) [] t = elim t [ ]
  fitted-Stages rank from finish (p ∷ peers) (s ∷ raw) (tile q t e platform node layers rest) =
      elim (Bool-cases (G.float.double.greater s.estimated_gb (G.plus p.usable_gb G.tiny))) [
        | inl large ↦ inl (s.rank, rw (fitted, large) refl, (0, p, s, refl, refl, refl, large))
        | inr fits ↦ elim (fitted-Stages (suc s.rank) s.end_layer finish peers raw rest) [
          | inl (k, bad, (i, q', s', at, shard, ranked, large)) ↦
              inl (k, rw (fitted, fits, bad) refl, (suc i, q', s', at, shard, ranked, large))
          | inr (shards, good, stages) ↦ inr (
            _,
            rw (fitted, fits, good) refl,
            stage p (infer_shard G s p) finish refl refl layers fits stages,
          )
        ]
      ]

  weighed :
      (overhead : G.float.double.Value) (peers : List (InferPeer G))
      → map (weight G overhead) (map (base G) peers) ≡ map (λ p. weight G overhead (base G p)) peers
  weighed overhead [] = refl
  weighed overhead (p ∷ peers) = ground (arith, weighed overhead peers)

  -- The order does not change the sum of the weights.
  by_platform-weights :
      (overhead : G.float.double.Value) (peers : List (InferPeer G))
      → sum (map (weight G overhead) (map (base G) (by_platform G peers)))
        ≡ sum (map (weight G overhead) (map (base G) peers))
  by_platform-weights overhead peers =
      ap sum (weighed overhead (by_platform G peers))
      ∙ sum-sort_by _ (λ p. weight G overhead (base G p)) peers
      ∙ ap sum (sym (weighed overhead peers))

  module _ (good : IsFloat G.float) (exactly : IsExact G.float.double) where
    plan_ordered-IsStaged :
        (ordered : List (InferPeer G)) (layer_count : ℕ)
        (total_weight overhead : G.float.double.Value)
        → 0 < length ordered
        → length ordered ≤ layer_count
        → layer_count * sum (map (weight G overhead) (map (base G) ordered)) < exact_limit
        → IsStaged G layer_count total_weight overhead ordered
            (plan_ordered G ordered layer_count total_weight overhead)
    unfolding plan_ordered
    plan_ordered-IsStaged ordered layer_count total_weight overhead n h p =
        let count : length (map (base G) ordered) ≡ length ordered = length-map (base G) ordered in
        let (raw, e, tiles) =
          plan_shards-Tiles G good exactly (map (base G) ordered) layer_count total_weight overhead
            (omega (arith, count)) (omega (arith, count)) p in
        elim (Bool-cases (lacks_capacity G ordered total_weight overhead)) [
          | inl small ↦ rw (plan_ordered, small) (no_capacity small)
          | inr room ↦ elim (Bool-cases (lacks_memory G ordered total_weight overhead)) [
            | inl small ↦ rw (plan_ordered, room, small) (no_memory room small)
            | inr more ↦ elim (fitted-Stages 0 0 layer_count ordered raw tiles) [
              | inl (k, bad, large) ↦
                  rw (plan_ordered, room, more, e, bad) (too_large raw k room more tiles large)
              | inr (shards, fine, stages) ↦
                  rw (plan_ordered, room, more, e, fine) (covers shards room more stages)
            ]
          ]
        ]

    pub plan_infer_shards-IsStaged :
        (peers : List (InferPeer G)) (frontend : InferPeer G) (layer_count : ℕ)
        (total_weight overhead : G.float.double.Value)
        → filter (has_role G "frontend") peers ≡ frontend ∷ []
        → suc (length (filter (has_role G "worker") peers)) ≤ layer_count
        → layer_count
            * sum (
                map
                  (weight G overhead)
                  (map (base G) (frontend ∷ filter (has_role G "worker") peers)))
          < exact_limit
        → (workers : List (InferPeer G)) × IsArranged G (filter (has_role G "worker") peers) workers
          × IsStaged G layer_count total_weight overhead
              (frontend ∷ workers)
              (plan_infer_shards G peers layer_count total_weight overhead)
    unfolding plan_infer_shards
    plan_infer_shards-IsStaged peers frontend layer_count total_weight overhead one room small =
        let workers = filter (has_role G "worker") peers in
        let count : length (by_platform G workers) ≡ length workers = length-sort_by _ workers in
        let same = by_platform-weights overhead workers in
        (
          by_platform G workers,
          by_platform-IsArranged G workers,
          rw (plan_infer_shards, one)
              (plan_ordered-IsStaged (frontend ∷ by_platform G workers) layer_count total_weight
                overhead (omega arith) (omega (arith, count))
                (subst (λ n. layer_count * (weight G overhead (base G frontend) + n) < exact_limit)
                  (sym same) small)),
        )
