-- ===== src/Examples/Devices.antt =====
-- The devices of the tests.
use share_compute.Prelude.{ℕ, true, some, [], ◌∷◌}
use share_compute.Capability.{
  NodeId, CapabilityProfile, core_desktop, desktop_unrestricted, apple_unified_memory_pressure,
  wall_powered, trusted_core, mlx_metal, current_dialect_version,
}
use share_compute.Node.{NodeState, active_core}
use share_compute.Lease.{Lease, LeaseId, Epoch, one_score}
use share_compute.Membership.{
  MembershipConfig, MembershipService, MemberRecord, PlannedMember, all_stages,
}
use share_compute.Planner.{ModelPlacementSpec}

abbrev pub config : MembershipConfig
config = record {
  lease_duration = 60000;
  heartbeat_interval = 2000;
  missed_heartbeats_before_eviction = 3;
  minimum_epoch_dwell_time = 5000;
}

abbrev pub uuid : NodeId → LeaseId
uuid node = "lease"

abbrev pub first_epoch : Epoch
first_epoch = record { value = 1 }

abbrev pub mac : NodeId → ℕ → CapabilityProfile
mac node usable = record {
  node_id = node;
  connectivity = core_desktop;
  background_link = desktop_unrestricted;
  memory = record {
    total_bytes = usable;
    usable_bytes = usable;
    reclaim_model = apple_unified_memory_pressure;
  };
  runtime_backends = mlx_metal ∷ [];
  power = wall_powered;
  trust = trusted_core;
  dialect_version = current_dialect_version;
  declares_can_host_required_stage = true;
}

abbrev pub lease_of : NodeId → ℕ → Lease
lease_of node expiry = record {
  id = "lease";
  node_id = node;
  epoch = first_epoch;
  issued_at = 0;
  expires_at = expiry;
  allowed_stage_types = all_stages;
  stability_score = one_score;
}

abbrev pub member : NodeId → NodeState → ℕ → MemberRecord
member node state misses = record {
  profile = mac node 40;
  state = state;
  lease = some (lease_of node 60000);
  consecutive_missed_heartbeats = misses;
  last_heard_from = 0;
  stability_score = one_score;
}

-- A ring of one node in some state.
abbrev pub ring_of : NodeState → ℕ → MembershipService
ring_of state misses = record {
  local_node_id = "hub";
  config = config;
  storage = ("a", member "a" state misses) ∷ [];
  current_epoch = first_epoch;
  last_epoch_changed_at = 0;
  last_epoch_members = [];
}

abbrev pub empty_ring : MembershipService
empty_ring = record (ring_of active_core 0) { storage = [] }

abbrev pub offered : NodeId → ℕ → PlannedMember
offered node usable = record {
  profile = mac node usable;
  state = active_core;
  lease = some (lease_of node 60000);
}

abbrev pub model : ModelPlacementSpec
model = record {
  model_id = "model";
  layer_count = 10;
  total_weight_bytes = 50;
  per_node_overhead_bytes = 2;
}
