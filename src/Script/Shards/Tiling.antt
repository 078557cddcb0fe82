-- ===== src/Script/Shards/Tiling.antt =====
-- The shards of scripts/four_platform_pool_lib.py cover the model.
use share_compute.Prelude.{
  ℕ, suc, ◌+◌, ◌*◌, ◌<◌, ◌≤◌, ◌==◌, ==_iff, true, some, List, [], ◌∷◌, map, ◌≡◌, refl, ◌∙◌, subst,
  arith, length, length-map, sum, All,
}
use share_compute.Planner.Apportion.Totals.{IsExact, exact_limit, apportion_total}
use share_compute.Script.Apportion.{apportion}
use share_compute.Script.Agreement.{IsFloat, apportion-same}
use share_compute.Script.Shards.{Gigabytes, Peer, Shard, weight, shard_of, place, plan_shards}

-- One shard for each peer, in order, ranks counted up, each shard with at least one layer and beginning
-- where the one before it ends.
pub data Tiles (G : Gigabytes) : ℕ → ℕ → ℕ → List (Peer G) → List (Shard G) → Type 0 where
  ends : (rank layer : ℕ) → Tiles G rank layer layer [] []
  tile :
      (p : Peer G) (s : Shard G) (finish : ℕ) {peers : List (Peer G)} {shards : List (Shard G)}
      → s.platform ≡ p.platform
      → s.node_id ≡ p.node_id
      → s.start_layer < s.end_layer
      → Tiles G (suc s.rank) s.end_layer finish peers shards
      → Tiles G s.rank s.start_layer finish (p ∷ peers) (s ∷ shards)

module _ (G : Gigabytes) (good : IsFloat G.float) (exactly : IsExact G.float.double) where
  place-Tiles :
      (per_layer overhead : G.float.double.Value) (rank cursor : ℕ) (peers : List (Peer G))
      (layers : List ℕ)
      → length layers ≡ length peers
      → All (λ n. 0 < n) layers
      → Tiles G rank cursor
          (cursor + sum layers)
          peers
          (place G per_layer overhead rank cursor peers layers).0
  unfolding place shard_of
  place-Tiles per_layer overhead rank cursor [] [] e h =
      let same : cursor ≡ cursor + 0 = omega arith in
      subst (λ k. Tiles G rank cursor k [] []) same (ends rank cursor)
  place-Tiles per_layer overhead rank cursor (p ∷ peers) [] e h = absurd (omega arith)
  place-Tiles per_layer overhead rank cursor [] (n ∷ layers) e h = absurd (omega arith)
  place-Tiles per_layer overhead rank cursor (p ∷ peers) (n ∷ layers) e h =
      let rest =
        place-Tiles per_layer overhead (suc rank) (cursor + n) peers layers (omega arith) h.1 in
      let reach : (cursor + n) + sum layers ≡ cursor + (n + sum layers) = omega arith in
      tile p (shard_of G per_layer overhead rank cursor p n) (cursor + (n + sum layers)) refl refl
        (omega (arith, h.0))
        (subst
          (λ k.
            Tiles G (suc rank) (cursor + n) k peers
              (place G per_layer overhead (suc rank) (cursor + n) peers layers).0)
          reach rest)

  place-cursor :
      (per_layer overhead : G.float.double.Value) (rank cursor : ℕ) (peers : List (Peer G))
      (layers : List ℕ)
      → length layers ≡ length peers
      → (place G per_layer overhead rank cursor peers layers).1 ≡ cursor + sum layers
  unfolding place
  place-cursor per_layer overhead rank cursor [] [] e = omega arith
  place-cursor per_layer overhead rank cursor (p ∷ peers) [] e = absurd (omega arith)
  place-cursor per_layer overhead rank cursor [] (n ∷ layers) e = absurd (omega arith)
  place-cursor per_layer overhead rank cursor (p ∷ peers) (n ∷ layers) e =
      let rest =
        place-cursor per_layer overhead (suc rank) (cursor + n) peers layers (omega arith) in
      omega (arith, rest)

  plan_shards-laid :
      (peers : List (Peer G)) (layers : List ℕ) (layer_count : ℕ)
      (total_weight overhead : G.float.double.Value)
      → apportion G.float layer_count (map (weight G overhead) peers) ≡ some layers
      → sum layers ≡ layer_count
      → length layers ≡ length peers
      → All (λ n. 0 < n) layers
      → (shards : List (Shard G)) × (plan_shards G peers layer_count total_weight overhead
          ≡ some shards)
        × Tiles G 0 0 layer_count peers shards
  unfolding plan_shards
  plan_shards-laid peers layers layer_count total_weight overhead e total l all =
      let per_layer = G.float.double.over total_weight (G.float.double.of_int layer_count) in
      let placed = place G per_layer overhead 0 0 peers layers in
      let cursor = place-cursor per_layer overhead 0 0 peers layers l in
      let whole : 0 + sum layers ≡ layer_count = omega (arith, total) in
      let finish : (placed.1 == layer_count) ≡ true = (==_iff _ layer_count).1 (cursor ∙ whole) in
      (
        placed.0,
        rw (plan_shards, e, finish) refl,
        subst (λ k. Tiles G 0 0 k peers placed.0) whole
            (place-Tiles per_layer overhead 0 0 peers layers l all),
      )

  -- Where there is a peer, and a layer for each, and the numbers are small enough for a `float` to be
  -- exact, no assertion of `plan_shards` fails: it returns shards that cover the model.
  pub plan_shards-Tiles :
      (peers : List (Peer G)) (layer_count : ℕ) (total_weight overhead : G.float.double.Value)
      → 0 < length peers
      → length peers ≤ layer_count
      → layer_count * sum (map (weight G overhead) peers) < exact_limit
      → (shards : List (Shard G)) × (plan_shards G peers layer_count total_weight overhead
          ≡ some shards)
        × Tiles G 0 0 layer_count peers shards
  plan_shards-Tiles peers layer_count total_weight overhead n h p =
      let ws = map (weight G overhead) peers in
      let count : length ws ≡ length peers = length-map (weight G overhead) peers in
      let (layers, e, (total, l), all) =
        apportion_total G.float.double exactly layer_count ws (omega (arith, count))
          (omega (arith, count)) p in
      plan_shards-laid peers layers layer_count total_weight overhead
        (apportion-same G.float good layer_count ws p ∙ e) total (l ∙ count) all
