-- ===== src/Watchdog.antt =====
-- Sources/ShareComputeCore/RingWatchdog.swift: when an in-flight generation is lost. Dates and
-- durations are those of Capability; `a - b >= c` on dates is `b + c <= a`. A method that mutates the
-- watchdog returns the new one. The messages for the user (`description`, `userFacingMessage`) are
-- left out.
pub mod History
pub mod Bounds
pub mod Rebuilding
pub mod Diagnosis
use share_compute.Prelude.{
  ℕ, ◌+◌, ◌*◌, max, String, Bool, true, false, Option, none, some, List, [], ◌∷◌, leb,
  if◌then◌else◌,
}
use share_compute.Capability.{NodeId, second}
use share_compute.Membership.{
  MembershipEvent, node_joined, node_draining, node_evicted, epoch_changed, epoch_change_deferred,
  EvictionReason, heartbeat_loss, lease_expiry, drained,
}

pub data RingLossReason : Type 0 where
  member_departed member_unreachable : NodeId → RingLossReason

unfoldable pub departed_node : RingLossReason → NodeId
departed_node (member_departed node) = node
departed_node (member_unreachable node) = node

pub data RingFailureCause : Type 0 where
  reformation_failure : String → RingFailureCause
  reformation_timeout : RingFailureCause
  reformation_exhausted : ℕ → String → RingFailureCause

pub data RingHealth : Type 0 where
  healthy : RingHealth
  stalled : ℕ → RingHealth
  reforming : RingLossReason → ℕ → RingHealth
  lost : RingLossReason → Option RingFailureCause → RingHealth

pub record RingWatchdogConfig : Type 0 where
  pub stall_threshold : ℕ
  pub grace_after_loss : ℕ
  pub reformation_time_limit : ℕ
  pub max_reformation_attempts : ℕ

abbrev pub default_config : RingWatchdogConfig
default_config = record {
  stall_threshold = 10 * second;
  grace_after_loss = 2 * second;
  reformation_time_limit = 30 * second;
  max_reformation_attempts = 3;
}

pub data Phase : Type 0 where
  running : Phase
  rebuilding : RingLossReason → ℕ → Phase
  terminal : RingLossReason → Option RingFailureCause → Phase

pub record RingWatchdog : Type 0 where
  pub config : RingWatchdogConfig
  pub last_progress_at : ℕ
  pub pending_loss : Option (RingLossReason × ℕ)
  pub phase : Phase
  pub reformation_attempts : ℕ

unfoldable pub new : RingWatchdogConfig → ℕ → RingWatchdog
new config started_at = record {
  config = config;
  last_progress_at = started_at;
  pending_loss = none;
  phase = running;
  reformation_attempts = 0;
}

abbrev terminal_phase : Phase → Bool
terminal_phase (terminal reason cause) = true
terminal_phase _ = false

unfoldable pub is_terminal : RingWatchdog → Bool
is_terminal w = terminal_phase w.phase

abbrev rebuilding_phase : Phase → Bool
rebuilding_phase (rebuilding reason since) = true
rebuilding_phase _ = false

unfoldable pub is_reforming : RingWatchdog → Bool
is_reforming w = rebuilding_phase w.phase

unfoldable pub loss_reason : RingWatchdog → Option RingLossReason
loss_reason w = elim w.phase [
  | running ↦ none
  | rebuilding reason since ↦ some reason
  | terminal reason cause ↦ some reason
]

unfoldable pub failure_cause : RingWatchdog → Option RingFailureCause
failure_cause w = elim w.phase [ terminal reason cause ↦ cause | _ ↦ none ]

unfoldable pub record_progress : ℕ → RingWatchdog → RingWatchdog
record_progress now w = elim w.phase [ running ↦ record w { last_progress_at = now } | _ ↦ w ]

unfoldable pub record_loss : RingLossReason → ℕ → RingWatchdog → RingWatchdog
record_loss reason now w = elim w.phase [
  | running ↦ elim w.pending_loss [
    | none ↦ record w { pending_loss = some (reason, now) }
    | some p ↦ w
  ]
  | _ ↦ w
]

unfoldable pub reformation_succeeded : ℕ → RingWatchdog → RingWatchdog
reformation_succeeded now w = elim w.phase [
  | rebuilding reason since ↦ record w {
    phase = running;
    pending_loss = none;
    reformation_attempts = 0;
    last_progress_at = now;
  }
  | _ ↦ w
]

unfoldable pub reformation_unavailable : String → ℕ → RingWatchdog → RingWatchdog
reformation_unavailable detail now w = elim w.phase [
  | rebuilding reason since ↦ record w {
    phase = terminal reason (some (reformation_failure detail));
  }
  | _ ↦ w
]

unfoldable pub reformation_failed : String → ℕ → RingWatchdog → RingWatchdog
reformation_failed detail now w = elim w.phase [
  | rebuilding reason since ↦
      let attempts = w.reformation_attempts + 1 in
      if leb w.config.max_reformation_attempts attempts
      then record w {
        reformation_attempts = attempts;
        phase = terminal reason (some (reformation_exhausted attempts detail));
      }
      else record w { reformation_attempts = attempts; phase = rebuilding reason now }
  | _ ↦ w
]

-- The loop's body in `consume(_:at:)`.
unfoldable pub consume_one : ℕ → MembershipEvent → RingWatchdog → RingWatchdog
unfolding record_loss
consume_one now (node_draining node) w = record_loss (member_departed node) now w
consume_one now (node_evicted node drained) w = record_loss (member_departed node) now w
consume_one now (node_evicted node heartbeat_loss) w = record_loss (member_unreachable node) now w
consume_one now (node_evicted node lease_expiry) w = record_loss (member_unreachable node) now w
consume_one now (node_joined node) w = w
consume_one now (epoch_changed epoch members) w = w
consume_one now (epoch_change_deferred interval) w = w

unfoldable pub consume : List MembershipEvent → ℕ → RingWatchdog → RingWatchdog
unfolding consume_one
consume [] now w = w
consume (e ∷ events) now w = consume events now (consume_one now e w)

-- `evaluate(at:)` in the phase `running`, without and with a loss on record.
evaluate_running : ℕ → RingWatchdog → RingWatchdog × RingHealth
evaluate_running now w = elim w.pending_loss [
  | none ↦ (
    w,
    if leb (w.last_progress_at + w.config.stall_threshold) now
        then stalled w.last_progress_at
        else healthy,
  )
  | some (reason, recorded_at) ↦
      if leb (max w.last_progress_at recorded_at + w.config.grace_after_loss) now
      then (record w { phase = rebuilding reason now }, reforming reason now)
      else (w, stalled w.last_progress_at)
]

unfoldable pub evaluate : ℕ → RingWatchdog → RingWatchdog × RingHealth
unfolding evaluate_running
evaluate now w = elim w.phase [
  | terminal reason cause ↦ (w, lost reason cause)
  | rebuilding reason since ↦
      if leb (since + w.config.reformation_time_limit) now
      then (
        record w { phase = terminal reason (some reformation_timeout) },
        lost reason (some reformation_timeout),
      )
      else (w, reforming reason since)
  | running ↦ evaluate_running now w
]

-- `beginGeneration(at:)` once the overdue loss is confirmed.
admit : ℕ → RingWatchdog → RingWatchdog × Bool
admit now w = elim w.phase [
  | running ↦ (record w { last_progress_at = now; pending_loss = none }, true)
  | _ ↦ (w, false)
]

unfoldable pub begin_generation : ℕ → RingWatchdog → RingWatchdog × Bool
unfolding admit evaluate
begin_generation now w = admit now (evaluate now w).0

unfoldable pub is_recoverable : RingHealth → Bool
is_recoverable (lost reason cause) = false
is_recoverable _ = true
