-- ===== src/Watchdog/Bounds.antt =====
-- The bounds on re-formation (RingWatchdog.swift): it ends, by time or by attempts, with a cause.
use share_compute.Prelude.{ℕ, ◌<◌, true, false, some, List, [], ◌∷◌, ◌≡◌, refl, ◌∙◌, arith}
use share_compute.Membership.{MembershipEvent}
use share_compute.Watchdog.{
  RingWatchdog, RingWatchdogConfig, RingFailureCause, Phase, running, rebuilding, terminal, new,
  is_terminal, record_progress, record_loss, reformation_succeeded, reformation_unavailable,
  reformation_failed, consume, consume_one, evaluate, begin_generation,
}
use share_compute.Watchdog.History.{
  Call, progresses, succeeds, evaluates, begins, loses, cannot, fails, consumes, dispatch, run,
}

-- Between two calls: no attempt is on record while the ring runs, attempts are left while it is being
-- rebuilt, and once it is lost there is a cause.
abbrev pub PhaseSound : RingWatchdogConfig → ℕ → Phase → Type 0
PhaseSound config attempts running = attempts ≡ 0
PhaseSound config attempts (rebuilding reason since) = attempts < config.max_reformation_attempts
PhaseSound config attempts (terminal reason cause) = (x : RingFailureCause) × (cause ≡ some x)

abbrev pub IsSound : RingWatchdog → Type 0
IsSound w = PhaseSound w.config w.reformation_attempts w.phase

-- Events of the membership leave all but the pending loss alone.
pub consume-frame :
    (events : List MembershipEvent) (now : ℕ) (w : RingWatchdog)
    → ((consume events now w).config ≡ w.config)
      × ((consume events now w).phase ≡ w.phase)
      × ((consume events now w).reformation_attempts ≡ w.reformation_attempts)
unfolding consume
consume-frame [] now w = (refl, refl, refl)
consume-frame (e ∷ events) now w =
    let (c, p, a) = consume-frame events now (consume_one now e w) in
    let one : ((consume_one now e w).config ≡ w.config)
        × ((consume_one now e w).phase ≡ w.phase)
        × ((consume_one now e w).reformation_attempts ≡ w.reformation_attempts) =
      unfold consume_one in ground arith in
    (c ∙ one.0, p ∙ one.1, a ∙ one.2)

pub dispatch-IsSound :
    (now : ℕ) (c : Call) (w : RingWatchdog)
    → 0 < w.config.max_reformation_attempts
    → IsSound w
    → IsSound (dispatch now c w)
unfolding dispatch
dispatch-IsSound now progresses w pos h = unfold record_progress in ground arith
dispatch-IsSound now succeeds w pos h = unfold reformation_succeeded in ground arith
dispatch-IsSound now evaluates w pos h = unfold evaluate in ground arith
dispatch-IsSound now begins w pos h = unfold begin_generation in ground arith
dispatch-IsSound now (loses reason) w pos h = unfold record_loss in ground arith
dispatch-IsSound now (cannot detail) w pos h = unfold reformation_unavailable in ground arith
dispatch-IsSound now (fails detail) w pos h = unfold reformation_failed in ground arith
dispatch-IsSound now (consumes events) w pos h =
    let (c, p, a) = consume-frame events now w in rw (c, p, a) h

pub dispatch-config : (now : ℕ) (c : Call) (w : RingWatchdog) → (dispatch now c w).config ≡ w.config
unfolding dispatch
dispatch-config now progresses w = unfold record_progress in ground arith
dispatch-config now succeeds w = unfold reformation_succeeded in ground arith
dispatch-config now evaluates w = unfold evaluate in ground arith
dispatch-config now begins w = unfold begin_generation in ground arith
dispatch-config now (loses reason) w = unfold record_loss in ground arith
dispatch-config now (cannot detail) w = unfold reformation_unavailable in ground arith
dispatch-config now (fails detail) w = unfold reformation_failed in ground arith
dispatch-config now (consumes events) w = (consume-frame events now w).0

-- In every history of a watchdog that allows an attempt it stays true that an attempt is left as
-- long as the ring is being rebuilt, that a running ring has none on record, and that a ring that
-- is lost has a cause.
pub run-IsSound :
    (w : RingWatchdog) (cs : List (ℕ × Call))
    → 0 < w.config.max_reformation_attempts
    → IsSound w
    → IsSound (run w cs)
unfolding run
run-IsSound w [] pos h = h
run-IsSound w ((now, c) ∷ cs) pos h =
    let same = dispatch-config now c w in
    run-IsSound (dispatch now c w) cs (rw same pos) (dispatch-IsSound now c w pos h)

pub new-IsSound : (config : RingWatchdogConfig) (now : ℕ) → IsSound (new config now)
unfolding new
new-IsSound config now = refl

consume-terminal :
    (events : List MembershipEvent) (now : ℕ) (w : RingWatchdog)
    → is_terminal w ≡ true
    → consume events now w ≡ w
unfolding consume
consume-terminal [] now w h = refl
consume-terminal (e ∷ events) now w h =
    let one : consume_one now e w ≡ w = unfold consume_one is_terminal in ground arith in
    rw one (consume-terminal events now w h)

dispatch-terminal :
    (now : ℕ) (c : Call) (w : RingWatchdog) → is_terminal w ≡ true → dispatch now c w ≡ w
unfolding dispatch
dispatch-terminal now progresses w h = unfold record_progress is_terminal in ground arith
dispatch-terminal now succeeds w h = unfold reformation_succeeded is_terminal in ground arith
dispatch-terminal now evaluates w h = unfold evaluate is_terminal in ground arith
dispatch-terminal now begins w h = unfold begin_generation is_terminal in ground arith
dispatch-terminal now (loses reason) w h = unfold record_loss is_terminal in ground arith
dispatch-terminal now (cannot detail) w h =
    unfold reformation_unavailable is_terminal in ground arith
dispatch-terminal now (fails detail) w h = unfold reformation_failed is_terminal in ground arith
dispatch-terminal now (consumes events) w h = consume-terminal events now w h

-- A lost ring stays lost: nothing that is reported or asked changes the watchdog any more, and no
-- generation is admitted.
pub run-terminal :
    (w : RingWatchdog) (cs : List (ℕ × Call)) (now : ℕ)
    → is_terminal w ≡ true
    → (run w cs ≡ w) × ((begin_generation now w).1 ≡ false)
unfolding run
run-terminal w [] now h = (refl, unfold begin_generation is_terminal in ground arith)
run-terminal w ((t, c) ∷ cs) now h = rw (dispatch-terminal t c w h) (run-terminal w cs now h)
