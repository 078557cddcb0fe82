-- ===== src/Watchdog/Rebuilding.antt =====
-- Re-formation ends (RingWatchdog.swift): by the host's report, by time, or by attempts.
use share_compute.Prelude.{
  ℕ, suc, ◌+◌, ◌≤◌, ◌<◌, Bool, true, false, some, List, [], ◌∷◌, ◌≡◌, ◌⊎◌, refl, subst, inl, arith,
  All,
}
use share_compute.Watchdog.{
  RingWatchdog, RingWatchdogConfig, RingLossReason, Phase, running, rebuilding, terminal,
  is_terminal, lost, record_progress, record_loss, reformation_unavailable, reformation_failed,
  evaluate, begin_generation, reformation_timeout,
}
use share_compute.Watchdog.History.{
  Call, progresses, succeeds, evaluates, begins, loses, cannot, fails, consumes, dispatch, run,
}
use share_compute.Watchdog.Bounds.{PhaseSound, IsSound, consume-frame, run-IsSound}

-- The calls that are no report of the host about the re-formation.
abbrev pub is_silent : Call → Bool
is_silent succeeds = false
is_silent (cannot detail) = false
is_silent (fails detail) = false
is_silent _ = true

-- The re-formation begun at `since` goes on, or it timed out.
abbrev pub Waits : RingLossReason → ℕ → ℕ → RingWatchdog → Type 0
Waits reason since limit w =
    (w.config.reformation_time_limit ≡ limit)
    × ((w.phase ≡ rebuilding reason since) ⊎ (w.phase ≡ terminal reason (some reformation_timeout)))

dispatch-Waits :
    (reason : RingLossReason) (since limit now : ℕ) (c : Call) (w : RingWatchdog)
    → is_silent c ≡ true
    → Waits reason since limit w
    → Waits reason since limit (dispatch now c w)
unfolding dispatch
dispatch-Waits reason since limit now progresses w q h = unfold record_progress in ground arith
dispatch-Waits reason since limit now evaluates w q h = unfold evaluate in ground arith
dispatch-Waits reason since limit now begins w q h = unfold begin_generation in ground arith
dispatch-Waits reason since limit now (loses r) w q h = unfold record_loss in ground arith
dispatch-Waits reason since limit now (consumes events) w q h =
    let (c, p, _) = consume-frame events now w in rw (c, p) h
dispatch-Waits reason since limit now succeeds w q h = absurd (ground arith)
dispatch-Waits reason since limit now (cannot detail) w q h = absurd (ground arith)
dispatch-Waits reason since limit now (fails detail) w q h = absurd (ground arith)

run-Waits :
    (reason : RingLossReason) (since limit : ℕ) (w : RingWatchdog) (cs : List (ℕ × Call))
    → All (λ c. is_silent c.1 ≡ true) cs
    → Waits reason since limit w
    → Waits reason since limit (run w cs)
unfolding run
run-Waits reason since limit w [] q h = h
run-Waits reason since limit w ((now, c) ∷ cs) q h =
    run-Waits reason since limit (dispatch now c w) cs q.1
      (dispatch-Waits reason since limit now c w q.0 h)

-- A ring that is being rebuilt does not wait for a host that never reports back: whatever else
-- happens meanwhile, from the time limit on the ring is reported lost, for the member that broke
-- it and by the timeout, and no generation is admitted.
pub silent_host :
    (reason : RingLossReason) (since now : ℕ) (w : RingWatchdog) (cs : List (ℕ × Call))
    → w.phase ≡ rebuilding reason since
    → All (λ c. is_silent c.1 ≡ true) cs
    → since + w.config.reformation_time_limit ≤ now
    → ((evaluate now (run w cs)).1 ≡ lost reason (some reformation_timeout))
      × ((begin_generation now (run w cs)).1 ≡ false)
unfolding evaluate begin_generation
silent_host reason since now w cs p q late =
    let waits = run-Waits reason since w.config.reformation_time_limit w cs q (refl, inl p) in
    (ground arith, ground arith)

-- How many failures of the host a history reports.
abbrev pub failures : List (ℕ × Call) → ℕ
failures [] = 0
failures ((now, fails detail) ∷ cs) = suc (failures cs)
failures ((now, c) ∷ cs) = failures cs

abbrev pub reports_success : Call → Bool
reports_success succeeds = true
reports_success _ = false

abbrev counts : Call → ℕ
counts (fails detail) = 1
counts _ = 0

-- The ring is not running, and if it is being rebuilt, `left` failures exceed its attempts.
abbrev Exhausts : RingWatchdogConfig → ℕ → ℕ → Phase → Type 0
Exhausts config attempts left running = ⊥
Exhausts config attempts left (rebuilding reason since) =
    config.max_reformation_attempts ≤ attempts + left
Exhausts config attempts left (terminal reason cause) = Unit {0}

failures-cons :
    (now : ℕ) (c : Call) (cs : List (ℕ × Call)) → failures ((now, c) ∷ cs) ≡ counts c + failures cs
failures-cons now (fails detail) cs = omega arith
failures-cons now progresses cs = omega arith
failures-cons now _ cs = omega arith

dispatch-Exhausts :
    (left now : ℕ) (c : Call) (w : RingWatchdog)
    → reports_success c ≡ false
    → Exhausts w.config w.reformation_attempts (counts c + left) w.phase
    → let v = dispatch now c w in Exhausts v.config v.reformation_attempts left v.phase
unfolding dispatch
dispatch-Exhausts left now progresses w q h = unfold record_progress in ground arith
dispatch-Exhausts left now evaluates w q h = unfold evaluate in ground arith
dispatch-Exhausts left now begins w q h = unfold begin_generation in ground arith
dispatch-Exhausts left now (loses r) w q h = unfold record_loss in ground arith
dispatch-Exhausts left now (consumes events) w q h =
    let (c, p, a) = consume-frame events now w in
    let zeroth : 0 + left ≡ left = omega arith in rw (c, p, a) (rw zeroth at h)
dispatch-Exhausts left now succeeds w q h = absurd (ground arith)
dispatch-Exhausts left now (cannot detail) w q h = unfold reformation_unavailable in ground arith
dispatch-Exhausts left now (fails detail) w q h = unfold reformation_failed in ground arith

run-Exhausts :
    (w : RingWatchdog) (cs : List (ℕ × Call))
    → All (λ c. reports_success c.1 ≡ false) cs
    → Exhausts w.config w.reformation_attempts (failures cs) w.phase
    → let v = run w cs in Exhausts v.config v.reformation_attempts 0 v.phase
unfolding run
run-Exhausts w [] q h = h
run-Exhausts w ((now, c) ∷ cs) q h = run-Exhausts (dispatch now c w) cs q.1 (
    dispatch-Exhausts (failures cs) now c w q.0
      (subst (λ n. Exhausts w.config w.reformation_attempts n w.phase) (failures-cons now c cs) h))

sound_exhausted :
    (v : RingWatchdog) (phase : Phase)
    → v.phase ≡ phase
    → PhaseSound v.config v.reformation_attempts phase
    → Exhausts v.config v.reformation_attempts 0 phase
    → is_terminal v ≡ true
unfolding is_terminal
sound_exhausted v running e s h = absurd h
sound_exhausted v (rebuilding reason since) e s h = absurd (omega arith)
sound_exhausted v (terminal reason cause) e s h = rw e

-- Re-formation cannot fail for ever: in a history without a success, of a sound watchdog that is
-- being rebuilt and allows an attempt, once the failures reported reach the number of attempts
-- allowed, the ring is lost, whatever else was called in between.
pub failures_end :
    (reason : RingLossReason) (since : ℕ) (w : RingWatchdog) (cs : List (ℕ × Call))
    → 0 < w.config.max_reformation_attempts
    → IsSound w
    → w.phase ≡ rebuilding reason since
    → All (λ c. reports_success c.1 ≡ false) cs
    → w.config.max_reformation_attempts ≤ w.reformation_attempts + failures cs
    → is_terminal (run w cs) ≡ true
failures_end reason since w cs pos s p q h =
    sound_exhausted (run w cs) (run w cs).phase refl (run-IsSound w cs pos s)
      (run-Exhausts w cs q (rw p h))
