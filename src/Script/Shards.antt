-- ===== src/Script/Shards.antt =====
-- `plan_shards` of scripts/four_platform_pool_lib.py and `plan_infer_shards` of
-- scripts/inference_pipeline_lib.py. Memory is counted in Python's `float`s of gigabytes, a parameter.
pub mod Tiling
pub mod Pipeline
pub mod Sorted
pub mod Pooling
use share_compute.Prelude.{
  ℕ, suc, ◌+◌, ◌*◌, max, String, Bool, true, false, not, ◌&&◌, Option, none, some, List, [], ◌∷◌,
  map, filter, ◌==◌, if◌then◌else◌, sort_by, length,
}
use share_compute.Script.Apportion.{Float, apportion}

-- What the planning uses of `float` beyond `apportion`: a sum, and the constant 1e-9.
pub record Gigabytes : Type 1 where
  pub float : Float
  pub plus : float.double.Value → float.double.Value → float.double.Value
  pub tiny : float.double.Value

module _ (G : Gigabytes) where
  open G.float.double use {Value, of_int, times, over, minus, floor, greater}

  pub record Peer : Type 0 where
    pub platform : String
    pub node_id : String
    pub usable_gb : Value

  pub record Shard : Type 0 where
    pub rank : ℕ
    pub platform : String
    pub node_id : String
    pub start_layer : ℕ
    pub end_layer : ℕ
    pub estimated_gb : Value

  -- `max(0.0, usable - overhead)`.
  unfoldable pub capacity : Value → Value → Value
  capacity usable overhead =
      let spare = minus usable overhead in if greater spare (of_int 0) then spare else of_int 0

  -- `max(1, int(c * 1024))`.
  unfoldable pub weight : Value → Peer → ℕ
  unfolding capacity
  weight overhead p = max 1 (floor (times (capacity p.usable_gb overhead) (of_int 1024)))

  unfoldable pub shard_of : Value → Value → ℕ → ℕ → Peer → ℕ → Shard
  shard_of bytes_per_layer overhead rank cursor p layers = record {
    rank = rank;
    platform = p.platform;
    node_id = p.node_id;
    start_layer = cursor;
    end_layer = cursor + layers;
    estimated_gb = G.plus (times (of_int layers) bytes_per_layer) overhead;
  }

  -- The loop over `zip(peers, layers)`, with the shards and the cursor that it leaves.
  unfoldable pub place : Value → Value → ℕ → ℕ → List Peer → List ℕ → List Shard × ℕ
  unfolding shard_of
  place bytes_per_layer overhead rank cursor (p ∷ peers) (n ∷ layers) =
      let (shards, finish) = place bytes_per_layer overhead (suc rank) (cursor + n) peers layers in
      (shard_of bytes_per_layer overhead rank cursor p n ∷ shards, finish)
  place bytes_per_layer overhead rank cursor _ _ = ([], cursor)

  -- None is a failed `assert`.
  unfoldable pub plan_shards : List Peer → ℕ → Value → Value → Option (List Shard)
  unfolding weight place
  plan_shards peers layer_count total_weight overhead =
      elim (apportion G.float layer_count (map (weight overhead) peers)) [
        | none ↦ none
        | some layers ↦
            let (shards, cursor) =
              place (over total_weight (of_int layer_count)) overhead 0 0 peers layers in
            if cursor == layer_count then some shards else none
      ]
