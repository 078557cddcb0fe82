-- ===== src/Monitor/Reforming.antt =====
-- What the calls of RingHealthMonitor.swift leave in `health`, and when a rebuild runs.
use share_compute.Prelude.{ℕ, ◌<◌, true, false, ◌≡◌, ◌⊎◌, inl, inr, arith, Bool-cases, String}
use share_compute.Watchdog.{
  RingWatchdog, healthy, evaluate, begin_generation as watchdog_begins, reformation_unavailable,
  is_terminal,
}
use share_compute.Monitor.{
  RingHealthMonitor, evaluated, begin_generation, refresh_health, start_reformation_if_needed,
  is_rebuilding, unavailable,
}

-- A generation is admitted exactly when the health is good afterwards; where it is refused, the
-- ring is being rebuilt or it is lost.
pub begin_generation-healthy :
    (m : RingHealthMonitor) (now : ℕ)
    → 0 < m.watchdog.config.stall_threshold
    → (((begin_generation now m).1 ≡ true) × ((begin_generation now m).0.health ≡ healthy))
      ⊎ (((begin_generation now m).1 ≡ false)
          × ((is_rebuilding (begin_generation now m).0.health ≡ true)
              ⊎ (is_terminal (begin_generation now m).0.watchdog ≡ true)))
unfolding begin_generation evaluated evaluate watchdog_begins is_terminal
begin_generation-healthy m now h = ground arith

given_up :
    (w : RingWatchdog) (detail : String) (now : ℕ)
    → is_rebuilding (evaluate now w).1 ≡ true
    → is_rebuilding (evaluate now (reformation_unavailable detail now (evaluate now w).0)).1 ≡ false
unfolding evaluate reformation_unavailable
given_up w detail now h = ground arith

-- A ring that is found being rebuilt has a rebuild running: no call of `refreshHealth` leaves it to wait
-- for one. In a build that cannot rebuild a ring, and so runs no rebuild, it is never found so.
pub refresh-rebuilding :
    (m : RingHealthMonitor) (now : ℕ)
    → is_rebuilding (refresh_health now m).health ≡ true
    → ((refresh_health now m).reformation_runs ≡ true)
      × ((m.can_reform ≡ true) ⊎ (m.reformation_runs ≡ true))
unfolding refresh_health evaluated start_reformation_if_needed
refresh-rebuilding m now h = elim (Bool-cases (is_rebuilding (evaluate now m.watchdog).1)) [
  | inr calm ↦ absurd (ground arith)
  | inl rebuilds ↦ elim (Bool-cases m.reformation_runs) [
    | inl runs ↦ (ground arith, inr runs)
    | inr idle ↦ elim (Bool-cases m.can_reform) [
      | inl can ↦ (ground arith, inl can)
      | inr cannot ↦
          let over = given_up m.watchdog unavailable now rebuilds in absurd (ground (arith, over))
    ]
  ]
]
