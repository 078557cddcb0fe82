-- ===== src/Watchdog/Diagnosis.antt =====
-- What the watchdog calls a loss, and whom it blames (RingWatchdog.swift).
use share_compute.Prelude.{
  ℕ, ◌+◌, ◌≤◌, ◌<◌, max, Bool, true, false, Option, none, some, List, [], ◌∷◌, ◌≡◌, ◌↔◌, ◌⊎◌, refl,
  inl, inr, arith, All, all, leb, Bool-cases, Option-cases,
}
use share_compute.Membership.{
  MembershipEvent, node_joined, node_draining, node_evicted, epoch_changed, epoch_change_deferred,
}
use share_compute.Watchdog.{
  RingWatchdog, RingLossReason, Phase, running, rebuilding, terminal, healthy, stalled, reforming,
  record_progress, record_loss, reformation_succeeded, reformation_unavailable, reformation_failed,
  consume, consume_one, evaluate, begin_generation, loss_reason,
}
use share_compute.Watchdog.History.{
  Call, progresses, succeeds, evaluates, begins, loses, cannot, fails, consumes, dispatch, run,
}

-- The events and the calls that report no loss of a member.
abbrev pub is_calm : MembershipEvent → Bool
is_calm (node_joined n) = true
is_calm (epoch_changed epoch members) = true
is_calm (epoch_change_deferred time) = true
is_calm _ = false

abbrev pub is_harmless : Call → Bool
is_harmless (loses reason) = false
is_harmless (consumes events) = all is_calm events
is_harmless _ = true

abbrev pub RunsWhole : RingWatchdog → Type 0
RunsWhole w = (w.phase ≡ running) × (w.pending_loss ≡ none)

consume-RunsWhole :
    (events : List MembershipEvent) (now : ℕ) (w : RingWatchdog)
    → all is_calm events ≡ true
    → RunsWhole w
    → RunsWhole (consume events now w)
unfolding consume consume_one
consume-RunsWhole [] now w q h = h
consume-RunsWhole (node_joined n ∷ events) now w q h = consume-RunsWhole events now w q h
consume-RunsWhole (epoch_changed epoch members ∷ events) now w q h =
    consume-RunsWhole events now w q h
consume-RunsWhole (epoch_change_deferred time ∷ events) now w q h =
    consume-RunsWhole events now w q h
consume-RunsWhole (node_draining n ∷ events) now w q h = absurd (ground arith)
consume-RunsWhole (node_evicted n reason ∷ events) now w q h = absurd (ground arith)

dispatch-RunsWhole :
    (now : ℕ) (c : Call) (w : RingWatchdog)
    → is_harmless c ≡ true
    → RunsWhole w
    → RunsWhole (dispatch now c w)
unfolding dispatch
dispatch-RunsWhole now progresses w q h = unfold record_progress in ground arith
dispatch-RunsWhole now succeeds w q h = unfold reformation_succeeded in ground arith
dispatch-RunsWhole now evaluates w q h = unfold evaluate in ground arith
dispatch-RunsWhole now begins w q h = unfold begin_generation in ground arith
dispatch-RunsWhole now (cannot detail) w q h = unfold reformation_unavailable in ground arith
dispatch-RunsWhole now (fails detail) w q h = unfold reformation_failed in ground arith
dispatch-RunsWhole now (loses r) w q h = absurd (ground arith)
dispatch-RunsWhole now (consumes events) w q h = consume-RunsWhole events now w q h

run-RunsWhole :
    (w : RingWatchdog) (cs : List (ℕ × Call))
    → All (λ c. is_harmless c.1 ≡ true) cs
    → RunsWhole w
    → RunsWhole (run w cs)
unfolding run
run-RunsWhole w [] q h = h
run-RunsWhole w ((now, c) ∷ cs) q h =
    run-RunsWhole (dispatch now c w) cs q.1 (dispatch-RunsWhole now c w q.0 h)

-- Slow is not dead: as long as no member is reported lost, whatever else happens, joins and epoch
-- changes that it consumes included, a running ring is reported healthy or
-- stalled, stalled exactly when the threshold has passed since the last progress, never lost nor in
-- need of a rebuild, however long that is; and every generation is admitted.
pub stall_is_no_loss :
    (w : RingWatchdog) (cs : List (ℕ × Call)) (now : ℕ)
    → All (λ c. is_harmless c.1 ≡ true) cs
    → RunsWhole w
    → (((now < (run w cs).last_progress_at + (run w cs).config.stall_threshold)
          × ((evaluate now (run w cs)).1 ≡ healthy))
        ⊎ (((run w cs).last_progress_at + (run w cs).config.stall_threshold ≤ now)
            × ((evaluate now (run w cs)).1 ≡ stalled (run w cs).last_progress_at)))
      × ((begin_generation now (run w cs)).1 ≡ true)
unfolding evaluate begin_generation
stall_is_no_loss w cs now q h =
    let whole = run-RunsWhole w cs q h in
    let v = run w cs in
    (
      elim (Bool-cases (leb (v.last_progress_at + v.config.stall_threshold) now)) [
        | inl late ↦ inr (ground arith, ground arith)
        | inr soon ↦ inl (ground arith, ground arith)
      ],
      ground arith,
    )

-- A running ring with a loss on record goes to be rebuilt exactly when the loss is confirmed: the
-- grace period has passed since the loss was recorded, and since the last progress.
pub evaluate-confirms :
    (w : RingWatchdog) (reason : RingLossReason) (recorded_at now : ℕ)
    → w.phase ≡ running
    → w.pending_loss ≡ some (reason, recorded_at)
    → ((evaluate now w).1 ≡ reforming reason now) ↔ (
        (w.last_progress_at + w.config.grace_after_loss ≤ now)
        × (recorded_at + w.config.grace_after_loss ≤ now))
unfolding evaluate
evaluate-confirms w reason recorded_at now p q =
    ((λ h. (ground arith, ground arith)), (λ h. ground arith))

-- A generation is admitted exactly when the ring runs and no loss on record is overdue.
pub begin_generation_iff :
    (w : RingWatchdog) (now : ℕ)
    → ((begin_generation now w).1 ≡ true) ↔ (
        (w.phase ≡ running)
        × ((reason : RingLossReason) (recorded_at : ℕ)
            → w.pending_loss ≡ some (reason, recorded_at)
            → now < max w.last_progress_at recorded_at + w.config.grace_after_loss))
unfolding begin_generation evaluate
begin_generation_iff w now =
    ((λ h. (ground arith, λ reason recorded_at e. ground arith)), (λ h. admitted h.0 h.1))
  where
    admitted :
        w.phase ≡ running
        → ((reason : RingLossReason) (recorded_at : ℕ)
            → w.pending_loss ≡ some (reason, recorded_at)
            → now < max w.last_progress_at recorded_at + w.config.grace_after_loss)
        → (begin_generation now w).1 ≡ true
    admitted p q = elim (Option-cases w.pending_loss) [
      | inl e ↦ ground arith
      | inr ((reason, recorded_at), e) ↦ ground (arith, q reason recorded_at e)
    ]

-- The diagnosis stands: the loss on record, or the ring being rebuilt or lost, is for `reason`.
abbrev pub Blames : RingLossReason → Option (RingLossReason × ℕ) → Phase → Type 0
Blames reason none running = ⊥
Blames reason (some (r, at)) running = r ≡ reason
Blames reason pending (rebuilding r since) = r ≡ reason
Blames reason pending (terminal r cause) = r ≡ reason

-- The calls that begin anew: the host has rebuilt the ring, or a generation begins.
abbrev pub begins_anew : Call → Bool
begins_anew succeeds = true
begins_anew begins = true
begins_anew _ = false

consume-Blames :
    (reason : RingLossReason) (events : List MembershipEvent) (now : ℕ) (w : RingWatchdog)
    → Blames reason w.pending_loss w.phase
    → let v = consume events now w in Blames reason v.pending_loss v.phase
unfolding consume
consume-Blames reason [] now w h = h
consume-Blames reason (e ∷ events) now w h =
    consume-Blames reason events now (consume_one now e w) (unfold consume_one in ground arith)

dispatch-Blames :
    (reason : RingLossReason) (now : ℕ) (c : Call) (w : RingWatchdog)
    → begins_anew c ≡ false
    → Blames reason w.pending_loss w.phase
    → let v = dispatch now c w in Blames reason v.pending_loss v.phase
unfolding dispatch
dispatch-Blames reason now progresses w q h = unfold record_progress in ground arith
dispatch-Blames reason now succeeds w q h = absurd (ground arith)
dispatch-Blames reason now begins w q h = absurd (ground arith)
dispatch-Blames reason now evaluates w q h = unfold evaluate in ground arith
dispatch-Blames reason now (loses r) w q h = unfold record_loss in ground arith
dispatch-Blames reason now (cannot detail) w q h = unfold reformation_unavailable in ground arith
dispatch-Blames reason now (fails detail) w q h = unfold reformation_failed in ground arith
dispatch-Blames reason now (consumes events) w q h = consume-Blames reason events now w h

run-Blames :
    (reason : RingLossReason) (w : RingWatchdog) (cs : List (ℕ × Call))
    → All (λ c. begins_anew c.1 ≡ false) cs
    → Blames reason w.pending_loss w.phase
    → Blames reason (run w cs).pending_loss (run w cs).phase
unfolding run
run-Blames reason w [] q h = h
run-Blames reason w ((now, c) ∷ cs) q h =
    run-Blames reason (dispatch now c w) cs q.1 (dispatch-Blames reason now c w q.0 h)

Blames-reason :
    (reason : RingLossReason) (w : RingWatchdog) (phase : Phase)
    → w.phase ≡ phase
    → Blames reason w.pending_loss phase
    → (w.phase ≡ running) ⊎ (loss_reason w ≡ some reason)
unfolding loss_reason
Blames-reason reason w running e h = inl e
Blames-reason reason w (rebuilding r since) e h = inr (ground arith)
Blames-reason reason w (terminal r cause) e h = inr (ground arith)

-- The first diagnosis is kept: once a running ring without a loss on record is told of one, then,
-- until the ring is rebuilt or a generation begins, the member that it names stays the one to blame,
-- whatever other losses are reported; the ring keeps running, or its loss is for that reason.
pub first_diagnosis :
    (reason : RingLossReason) (at : ℕ) (w : RingWatchdog) (cs : List (ℕ × Call))
    → RunsWhole w
    → All (λ c. begins_anew c.1 ≡ false) cs
    → let v = run (record_loss reason at w) cs in
      Blames reason v.pending_loss v.phase × ((v.phase ≡ running) ⊎ (loss_reason v ≡ some reason))
first_diagnosis reason at w cs h q =
    let v = run (record_loss reason at w) cs in
    let start : Blames reason (record_loss reason at w).pending_loss
        (record_loss reason at w).phase =
      unfold record_loss in ground arith in
    let end = run-Blames reason (record_loss reason at w) cs q start in
    (end, Blames-reason reason v v.phase refl end)
