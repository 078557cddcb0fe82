-- ===== src/Watchdog/History.antt =====
-- Histories of RingWatchdog.swift: its public methods as calls.
use share_compute.Prelude.{ℕ, String, List, [], ◌∷◌}
use share_compute.Membership.{MembershipEvent}
use share_compute.Watchdog.{
  RingWatchdog, RingLossReason, record_progress, record_loss, reformation_succeeded,
  reformation_unavailable, reformation_failed, consume, evaluate, begin_generation,
}

pub data Call : Type 0 where
  progresses succeeds evaluates begins : Call
  loses : RingLossReason → Call
  cannot fails : String → Call
  consumes : List MembershipEvent → Call

unfoldable pub dispatch : ℕ → Call → RingWatchdog → RingWatchdog
dispatch now progresses w = record_progress now w
dispatch now succeeds w = reformation_succeeded now w
dispatch now evaluates w = (evaluate now w).0
dispatch now begins w = (begin_generation now w).0
dispatch now (loses reason) w = record_loss reason now w
dispatch now (cannot detail) w = reformation_unavailable detail now w
dispatch now (fails detail) w = reformation_failed detail now w
dispatch now (consumes events) w = consume events now w

unfoldable pub run : RingWatchdog → List (ℕ × Call) → RingWatchdog
run w [] = w
run w ((now, c) ∷ cs) = run (dispatch now c w) cs
