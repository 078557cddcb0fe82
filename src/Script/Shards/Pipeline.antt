-- ===== src/Script/Shards/Pipeline.antt =====
-- `plan_infer_shards` of scripts/inference_pipeline_lib.py.
use share_compute.Prelude.{
  ℕ, suc, String, ◌=?◌, string_eq, Bool, not, none, some, List, [], ◌∷◌, map, filter, if◌then◌else◌,
  sort_by, length,
}
use share_compute.Capability.{id_lt}
use share_compute.Script.Shards as Shards
use share_compute.Script.Shards.{Gigabytes, Peer, capacity, plan_shards}

pub data InferError : Type 0 where
  wrong_frontends : ℕ → InferError
  insufficient_capacity insufficient_memory : InferError
  shard_exceeds_peer : ℕ → InferError

module _ (G : Gigabytes) where
  open G.float.double use {Value, of_int, greater}

  pub record InferPeer : Type 0 where
    pub platform : String
    pub node_id : String
    pub usable_gb : Value
    pub role : String
    pub data_host : String
    pub data_port : ℕ

  pub record InferShard : Type 0 where
    pub rank : ℕ
    pub platform : String
    pub node_id : String
    pub role : String
    pub start_layer : ℕ
    pub end_layer : ℕ
    pub estimated_gb : Value
    pub data_host : String
    pub data_port : ℕ

  -- Shards, an error, or a failed `assert`.
  pub data InferPlan : Type 0 where
    planned : List InferShard → InferPlan
    raises : InferError → InferPlan
    fails : InferPlan

  abbrev pub has_role : String → InferPeer → Bool
  has_role role p = p.role =? role

  -- `sorted` by platform, which keeps the order of equals.
  abbrev pub by_platform : List InferPeer → List InferPeer
  by_platform peers = sort_by (λ a b. not (id_lt b.platform a.platform)) peers

  abbrev pub base : InferPeer → Peer G
  base p = record { platform = p.platform; node_id = p.node_id; usable_gb = p.usable_gb }

  -- `sum`, which begins at 0.
  unfoldable pub total_from : Value → List Value → Value
  total_from total [] = total
  total_from total (x ∷ xs) = total_from (G.plus total x) xs

  unfoldable pub infer_shard : Shards.Shard G → InferPeer → InferShard
  infer_shard s p = record {
    rank = s.rank;
    platform = p.platform;
    node_id = p.node_id;
    role = p.role;
    start_layer = s.start_layer;
    end_layer = s.end_layer;
    estimated_gb = s.estimated_gb;
    data_host = p.data_host;
    data_port = p.data_port;
  }

  abbrev pub followed : InferShard → InferPlan → InferPlan
  followed s (planned shards) = planned (s ∷ shards)
  followed s (raises e) = raises e
  followed s fails = fails

  -- The loop over `zip(raw, ordered)`: the first shard that its peer cannot hold ends it.
  unfoldable pub fitted : List (Shards.Shard G) → List InferPeer → InferPlan
  unfolding infer_shard
  fitted (s ∷ shards) (p ∷ peers) =
      let rest = fitted shards peers in
      if greater s.estimated_gb (G.plus p.usable_gb G.tiny)
      then raises (shard_exceeds_peer s.rank)
      else followed (infer_shard s p) rest
  fitted _ _ = planned []

  -- `aggregate_capacity + 1e-9 < total_weight_gb`.
  unfoldable pub lacks_capacity : List InferPeer → Value → Value → Bool
  unfolding total_from
  lacks_capacity ordered total_weight overhead =
      let spare = total_from (of_int 0) (map (λ p. capacity G p.usable_gb overhead) ordered) in
      G.float.less (G.plus spare G.tiny) total_weight

  -- `aggregate_usable + 1e-9 < total_weight_gb + overhead_gb`.
  unfoldable pub lacks_memory : List InferPeer → Value → Value → Bool
  unfolding total_from
  lacks_memory ordered total_weight overhead =
      let usable = total_from (of_int 0) (map (λ p. p.usable_gb) ordered) in
      G.float.less (G.plus usable G.tiny) (G.plus total_weight overhead)

  -- The rest of the function, with the peers in order.
  unfoldable pub plan_ordered : List InferPeer → ℕ → Value → Value → InferPlan
  unfolding fitted lacks_capacity lacks_memory
  plan_ordered ordered layer_count total_weight overhead =
      if lacks_capacity ordered total_weight overhead
      then raises insufficient_capacity
      else if lacks_memory ordered total_weight overhead
      then raises insufficient_memory
      else elim (plan_shards G (map base ordered) layer_count total_weight overhead) [
        | none ↦ fails
        | some raw ↦ fitted raw ordered
      ]

  unfoldable pub plan_infer_shards : List InferPeer → ℕ → Value → Value → InferPlan
  unfolding plan_ordered
  plan_infer_shards peers layer_count total_weight overhead =
      elim (filter (has_role "frontend") peers) [
        | [] ↦ raises (wrong_frontends 0)
        | frontend ∷ [] ↦
            plan_ordered (frontend ∷ by_platform (filter (has_role "worker") peers)) layer_count
              total_weight overhead
        | frontend ∷ more ∷ others ↦ raises (wrong_frontends (suc (suc (length others))))
      ]
