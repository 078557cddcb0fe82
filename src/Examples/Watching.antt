-- ===== src/Examples/Watching.antt =====
-- Tests of Watchdog.
use share_compute.Prelude.{
  ℕ, ◌+◌, ◌<◌, ◌≤◌, true, false, none, some, List, [], ◌∷◌, ◌≡◌, ◌⊎◌, refl, arith,
}
use share_compute.Membership.{node_joined}
use share_compute.Watchdog.{
  RingWatchdog, RingLossReason, member_departed, member_unreachable, reformation_timeout, healthy,
  stalled, lost, default_config, running, rebuilding, terminal, is_terminal, loss_reason,
  record_loss, evaluate, begin_generation,
}
use share_compute.Watchdog.History.{Call, progresses, evaluates, consumes, loses, fails, run}
use share_compute.Watchdog.Bounds.{IsSound, run-IsSound}
use share_compute.Watchdog.Rebuilding.{silent_host, failures_end}
use share_compute.Watchdog.Diagnosis.{stall_is_no_loss, first_diagnosis, Blames}

abbrev gone : RingLossReason
gone = member_unreachable "b"

abbrev fresh : RingWatchdog
fresh = record {
  config = default_config;
  last_progress_at = 0;
  pending_loss = none;
  phase = running;
  reformation_attempts = 0;
}

abbrev repairing : RingWatchdog
repairing = record fresh { pending_loss = some (gone, 100); phase = rebuilding gone 3000 }

abbrev over : RingWatchdog
over = record fresh { phase = terminal gone (some reformation_timeout) }

silent_host_example :
    ((evaluate 33000 (run repairing ((4000, progresses) ∷ (5000, evaluates) ∷ []))).1
      ≡ lost gone (some reformation_timeout))
    × ((begin_generation 33000 (run repairing ((4000, progresses) ∷ (5000, evaluates) ∷ []))).1
        ≡ false)
silent_host_example =
    silent_host gone 3000 33000 repairing ((4000, progresses) ∷ (5000, evaluates) ∷ []) refl
      (refl, (refl, tt)) (omega arith)

abbrev three_failures : List (ℕ × Call)
three_failures = (4000, fails "x") ∷ (5000, fails "y") ∷ (6000, fails "z") ∷ []

failures_end_example : is_terminal (run repairing three_failures) ≡ true
failures_end_example =
    failures_end gone 3000 repairing three_failures (omega arith) (omega arith) refl
      (refl, (refl, (refl, tt))) (omega arith)

abbrev harmless : List (ℕ × Call)
harmless = (100, consumes (node_joined "c" ∷ [])) ∷ (200, evaluates) ∷ []

stall_is_no_loss_example :
    (((50000 < (run fresh harmless).last_progress_at + (run fresh harmless).config.stall_threshold)
        × ((evaluate 50000 (run fresh harmless)).1 ≡ healthy))
      ⊎ (((run fresh harmless).last_progress_at + (run fresh harmless).config.stall_threshold
            ≤ 50000)
          × ((evaluate 50000 (run fresh harmless)).1
              ≡ stalled (run fresh harmless).last_progress_at)))
    × ((begin_generation 50000 (run fresh harmless)).1 ≡ true)
stall_is_no_loss_example = stall_is_no_loss fresh harmless 50000 (refl, (refl, tt)) (refl, refl)

run-IsSound_example : IsSound (run repairing three_failures)
run-IsSound_example = run-IsSound repairing three_failures (omega arith) (omega arith)

abbrev later_losses : List (ℕ × Call)
later_losses = (4000, loses (member_departed "c")) ∷ (9000, evaluates) ∷ []

first_diagnosis_example :
    let v = run (record_loss gone 100 fresh) later_losses in
    Blames gone v.pending_loss v.phase × ((v.phase ≡ running) ⊎ (loss_reason v ≡ some gone))
first_diagnosis_example =
    first_diagnosis gone 100 fresh later_losses (refl, refl) (refl, (refl, tt))
