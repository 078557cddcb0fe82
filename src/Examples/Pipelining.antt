-- ===== src/Examples/Pipelining.antt =====
-- Tests of Script.
use share_compute.Prelude.{
  ℕ, ◌<◌, ◌≤◌, String, true, false, some, List, [], ◌∷◌, ◌++◌, ◌≡◌, ◌⊎◌, refl, arith, string_eq,
  filter, sort_by,
}
use share_compute.Script.Shards.{Gigabytes, Peer, Shard, weight, plan_shards}
use share_compute.Script.Shards.Tiling.{Tiles, plan_shards-Tiles}
use share_compute.Script.Shards.Pipeline.{InferPeer, plan_infer_shards, has_role}
use share_compute.Script.Shards.Sorted.{IsArranged}
use share_compute.Script.Shards.Pooling.{IsStaged, plan_infer_shards-IsStaged}
use share_compute.Script.Activation.{
  Codec, ActivationMsg, most_bytes, exceeds, encode_activation, recv_activation, nothing, raises,
  message, unreasonable_size, over_budget,
}
use share_compute.Script.Activation.Arrival.{IsCodec, activation_arrives}
use share_compute.Script.Activation.Cut.{activation_cut}
use share_compute.Examples.Floats.{natural, python-IsFloat, signed-IsExact, gigabytes}

-- Texts of small letters, given by their codes.
abbrev codec : Codec
codec = record {
  Text = List ℕ;
  sha256 = λ bytes. 1 ∷ 2 ∷ 3 ∷ 4 ∷ 5 ∷ [];
  utf8 = λ s. s;
  decode = some;
}

codec-IsCodec : IsCodec codec
codec-IsCodec = record {
  digests = λ bytes. (omega arith, (omega arith, (omega arith, (omega arith, (omega arith, tt)))));
  decodes = λ s. refl;
}

abbrev activation : ActivationMsg codec
activation = record {
  epoch = 101 ∷ 49 ∷ [];
  token_id = 7;
  rank_from = 0;
  rank_to = 1;
  payload = 9 ∷ 8 ∷ 7 ∷ [];
}

abbrev head_of_wire : List ℕ
head_of_wire =
    83 ∷ 67 ∷ 73 ∷ 78 ∷ 1 ∷ 2 ∷ 3 ∷ 4 ∷ 0 ∷ 0 ∷ 0 ∷ 7 ∷ 0 ∷ 0 ∷ 0 ∷ 0 ∷ 0 ∷ 0 ∷ 0 ∷ 1 ∷ 0 ∷ 0 ∷ 0
    ∷ 3 ∷ 0 ∷ 0 ∷ 0 ∷ 0 ∷ 0 ∷ 2 ∷ 101 ∷ 49 ∷ 9 ∷ []

abbrev whole_wire : List ℕ
whole_wire = head_of_wire ++ 8 ∷ 7 ∷ []

activation_arrives_example :
    ((most_bytes < 3)
      × (recv_activation codec (some 4096) (whole_wire ++ 83 ∷ []) ≡ raises unreasonable_size))
    ⊎ ((3 ≤ most_bytes)
        × (exceeds 3 (some 4096) ≡ true)
        × (recv_activation codec (some 4096) (whole_wire ++ 83 ∷ []) ≡ raises over_budget))
    ⊎ ((3 ≤ most_bytes)
        × (exceeds 3 (some 4096) ≡ false)
        × (recv_activation codec (some 4096) (whole_wire ++ 83 ∷ [])
            ≡ message activation (83 ∷ [])))
unfolding encode_activation
activation_arrives_example =
    activation_arrives codec codec-IsCodec activation (some 4096) whole_wire (83 ∷ []) refl

activation_cut_example : recv_activation codec (some 4096) head_of_wire ≡ nothing
unfolding encode_activation
activation_cut_example =
    activation_cut codec codec-IsCodec activation 8 (7 ∷ []) (some 4096) whole_wire head_of_wire
      refl (omega arith) refl refl

abbrev mac_peer : Peer gigabytes
mac_peer = record { platform = "macos"; node_id = "m"; usable_gb = natural 32 1 }

abbrev windows_peer : Peer gigabytes
windows_peer = record { platform = "windows"; node_id = "w"; usable_gb = natural 16 1 }

abbrev peers : List (Peer gigabytes)
peers = mac_peer ∷ windows_peer ∷ []

plan_shards-Tiles_example :
    (shards : List (Shard gigabytes)) × (plan_shards gigabytes peers 48 (natural 24 1) (natural 1 2)
      ≡ some shards)
    × Tiles gigabytes 0 0 48 peers shards
unfolding weight share_compute.Script.Shards.capacity
plan_shards-Tiles_example =
    plan_shards-Tiles gigabytes python-IsFloat signed-IsExact peers 48 (natural 24 1) (natural 1 2)
      (omega arith) (omega arith) (omega arith)

abbrev infer_peer : String → String → ℕ → String → InferPeer gigabytes
infer_peer platform node gb role = record {
  platform = platform;
  node_id = node;
  usable_gb = natural gb 1;
  role = role;
  data_host = "127.0.0.1";
  data_port = 4000;
}

abbrev frontend : InferPeer gigabytes
frontend = infer_peer "macos" "m" 32 "frontend"

abbrev infer_peers : List (InferPeer gigabytes)
infer_peers =
    infer_peer "windows" "w" 16 "worker" ∷ frontend ∷ infer_peer "android" "a" 8 "worker" ∷ []

plan_infer_shards-IsStaged_example :
    (workers : List (InferPeer gigabytes)) × IsArranged gigabytes
      (filter (has_role gigabytes "worker") infer_peers)
      workers
    × IsStaged gigabytes 48
        (natural 24 1)
        (natural 1 2)
        (frontend ∷ workers)
        (plan_infer_shards gigabytes infer_peers 48 (natural 24 1) (natural 1 2))
unfolding weight share_compute.Script.Shards.capacity sort_by share_compute.Capability.id_lt
plan_infer_shards-IsStaged_example =
    plan_infer_shards-IsStaged gigabytes python-IsFloat signed-IsExact infer_peers frontend 48
      (natural 24 1) (natural 1 2) refl (omega arith) (omega arith)
