-- ===== src/Monitor/Losses.antt =====
-- From a member's eviction to the ring's loss (RingHealthMonitor.swift).
use share_compute.Prelude.{
  ℕ, ◌+◌, ◌<◌, ◌≤◌, max, true, false, none, some, List, [], ◌∷◌, ◌≡◌, refl, sym, ap, subst, ◌∙◌,
  inl, inr, arith, any, string_eq, Bool-cases,
}
use share_compute.Capability.{NodeId}
use share_compute.Lease.{LeaseId}
use share_compute.Membership.{
  MembershipEvent, node_joined, node_draining, node_evicted, epoch_changed, epoch_change_deferred,
  EvictionReason, drained, heartbeat_loss, lease_expiry,
}
use share_compute.Membership.Tick.{tick as membership_tick}
use share_compute.Membership.Evictions.{evictions_of}
use share_compute.Watchdog.{
  RingWatchdog, RingWatchdogConfig, RingLossReason, member_departed, member_unreachable,
  reformation_failure, running, rebuilding, lost, reforming, stalled, evaluate, consume,
  consume_one, record_loss, reformation_unavailable,
}
use share_compute.Monitor.Blame.{IsBlamed, announces_drain, tick-quiet}
use share_compute.Monitor.{
  RingHealthMonitor, evaluated, refresh_health, start_reformation_if_needed, informed, end_round,
  unavailable,
}

-- A running ring with a loss on record, of a node that the events evict: the watchdog has learnt of
-- it.
pub record HasLost (events : List MembershipEvent) (at : ℕ) (w w' : RingWatchdog) : Type 0 where
  pub phase : w'.phase ≡ running
  pub config : w'.config ≡ w.config
  pub progress : w'.last_progress_at ≡ w.last_progress_at
  pub reason : RingLossReason
  pub loss : w'.pending_loss ≡ some (reason, at)
  pub blamed : IsBlamed events reason

consume_one-kept :
    (e : MembershipEvent) (now : ℕ) (w : RingWatchdog) (p : RingLossReason × ℕ)
    → w.pending_loss ≡ some p
    → consume_one now e w ≡ w
unfolding consume_one record_loss
consume_one-kept e now w p h = ground arith

-- Once a loss is on record, no event changes the watchdog.
consume-kept :
    (events : List MembershipEvent) (now : ℕ) (w : RingWatchdog) (p : RingLossReason × ℕ)
    → w.pending_loss ≡ some p
    → consume events now w ≡ w
unfolding consume
consume-kept [] now w p h = refl
consume-kept (e ∷ events) now w p h =
    ap (consume events now) (consume_one-kept e now w p h) ∙ consume-kept events now w p h

recorded :
    (all_events : List MembershipEvent) (reason : RingLossReason) (events : List MembershipEvent)
    (now : ℕ) (w : RingWatchdog)
    → w.phase ≡ running
    → w.pending_loss ≡ none
    → IsBlamed all_events reason
    → HasLost all_events now w (consume events now (record_loss reason now w))
unfolding record_loss
recorded all_events reason events now w h q blamed =
    let w' : RingWatchdog = record w { pending_loss = some (reason, now) } in
    let one : record_loss reason now w ≡ w' = ground arith in
    subst (λ v. HasLost all_events now w v)
      (sym (ap (consume events now) one ∙ consume-kept events now w' (reason, now) refl))
      (record {
        phase = h;
        config = refl;
        progress = refl;
        reason = reason;
        loss = refl;
        blamed = blamed;
      })

-- An event that evicts nobody changes nothing of the blame.
later-HasLost :
    (e : MembershipEvent) (es : List MembershipEvent) (now : ℕ) (w : RingWatchdog)
    {w' : RingWatchdog}
    → ((n : NodeId) → evictions_of n (e ∷ es) ≡ evictions_of n es)
    → HasLost es now w w'
    → HasLost (e ∷ es) now w w'
later-HasLost e es now w same known =
    let (n, reason, more, evicted, why) = known.blamed in
    record {
      phase = known.phase;
      config = known.config;
      progress = known.progress;
      reason = known.reason;
      loss = known.loss;
      blamed = (n, reason, more, same n ∙ evicted, why);
    }

-- An eviction among the events leaves a loss on record, if no drain is announced among them.
pub consume-HasLost :
    (events : List MembershipEvent) (now : ℕ) (w : RingWatchdog) (k : NodeId)
    (reason : EvictionReason) (more : List EvictionReason)
    → evictions_of k events ≡ reason ∷ more
    → any announces_drain events ≡ false
    → w.phase ≡ running
    → w.pending_loss ≡ none
    → HasLost events now w (consume events now w)
unfolding consume consume_one
consume-HasLost [] now w k reason more e quiet h q = absurd (ground arith)
consume-HasLost (node_joined n ∷ es) now w k reason more e quiet h q =
    later-HasLost (node_joined n) es now w (λ n. refl)
      (consume-HasLost es now w k reason more e quiet h q)
consume-HasLost (epoch_changed ep ms ∷ es) now w k reason more e quiet h q =
    later-HasLost (epoch_changed ep ms) es now w (λ n. refl)
      (consume-HasLost es now w k reason more e quiet h q)
consume-HasLost (epoch_change_deferred d ∷ es) now w k reason more e quiet h q =
    later-HasLost (epoch_change_deferred d) es now w (λ n. refl)
      (consume-HasLost es now w k reason more e quiet h q)
consume-HasLost (node_draining n ∷ es) now w k reason more e quiet h q = absurd (ground arith)
consume-HasLost (node_evicted n drained ∷ es) now w k reason more e quiet h q =
    recorded (node_evicted n drained ∷ es) (member_departed n) es now w h q
      (n, drained, evictions_of n es, rw ((string_eq.beq_iff n n).1 refl) refl, refl)
consume-HasLost (node_evicted n heartbeat_loss ∷ es) now w k reason more e quiet h q =
    recorded (node_evicted n heartbeat_loss ∷ es) (member_unreachable n) es now w h q
      (n, heartbeat_loss, evictions_of n es, rw ((string_eq.beq_iff n n).1 refl) refl, refl)
consume-HasLost (node_evicted n lease_expiry ∷ es) now w k reason more e quiet h q =
    recorded (node_evicted n lease_expiry ∷ es) (member_unreachable n) es now w h q
      (n, lease_expiry, evictions_of n es, rw ((string_eq.beq_iff n n).1 refl) refl, refl)

-- In the grace period nothing happens.
waits :
    (w : RingWatchdog) (reason : RingLossReason) (at now : ℕ)
    → w.phase ≡ running
    → w.pending_loss ≡ some (reason, at)
    → now < max w.last_progress_at at + w.config.grace_after_loss
    → evaluate now w ≡ (w, stalled w.last_progress_at)
unfolding evaluate
waits w reason at now h q grace = ground arith

refresh_waits :
    (m : RingHealthMonitor) (reason : RingLossReason) (at now : ℕ)
    → m.watchdog.phase ≡ running
    → m.watchdog.pending_loss ≡ some (reason, at)
    → now < max m.watchdog.last_progress_at at + m.watchdog.config.grace_after_loss
    → refresh_health now m ≡ record m { health = stalled m.watchdog.last_progress_at }
unfolding refresh_health evaluated
refresh_waits m reason at now h q grace = rw (waits m.watchdog reason at now h q grace) refl

-- The round in which a member is evicted leaves the ring running, with a loss on record.
pub record Alarmed (events : List MembershipEvent) (now : ℕ) (m m' : RingHealthMonitor)
    : Type 0 where
  pub lost : HasLost events now m.watchdog m'.watchdog
  pub can_reform : m'.can_reform ≡ m.can_reform
  pub runs : m'.reformation_runs ≡ m.reformation_runs

pub end_round-Alarmed :
    (uuid : NodeId → LeaseId) (now : ℕ) (m : RingHealthMonitor) (k : NodeId)
    (reason : EvictionReason)
    → evictions_of k (membership_tick m.membership uuid now).1 ≡ reason ∷ []
    → m.watchdog.phase ≡ running
    → m.watchdog.pending_loss ≡ none
    → 0 < m.watchdog.config.grace_after_loss
    → Alarmed (membership_tick m.membership uuid now).1 now m (end_round uuid now m)
unfolding end_round informed
end_round-Alarmed uuid now m k reason e h q grace =
    let (s, events) = membership_tick m.membership uuid now in
    let lost =
      consume-HasLost events now m.watchdog k reason [] e (tick-quiet m.membership uuid now) h q in
    let told : RingHealthMonitor = record m {
      membership = s;
      watchdog = consume events now m.watchdog;
    } in
    let later : now
        < max (consume events now m.watchdog).last_progress_at now
          + (consume events now m.watchdog).config.grace_after_loss =
      omega (arith, ap (λ (c : RingWatchdogConfig). c.grace_after_loss) lost.config) in
    subst (Alarmed events now m)
      (sym (refresh_waits told lost.reason now now lost.phase lost.loss later))
      (record { lost = lost; can_reform = refl; runs = refl })

-- What the next look at an alarmed ring gives, once the grace period is over: a rebuild where the
-- build can do it, else the end.
pub data IsReported (now : ℕ) (reason : RingLossReason) (m : RingHealthMonitor) : Type 0 where
  rebuilds :
      m.can_reform ≡ true
      → m.health ≡ reforming reason now
      → m.reformation_runs ≡ true
      → IsReported now reason m
  ends :
      m.can_reform ≡ false
      → m.health ≡ lost reason (some (reformation_failure unavailable))
      → IsReported now reason m

pub refresh-IsReported :
    (m : RingHealthMonitor) (reason : RingLossReason) (at now : ℕ)
    → m.watchdog.phase ≡ running
    → m.watchdog.pending_loss ≡ some (reason, at)
    → m.watchdog.last_progress_at + m.watchdog.config.grace_after_loss ≤ now
    → at + m.watchdog.config.grace_after_loss ≤ now
    → m.reformation_runs ≡ false
    → IsReported now reason (refresh_health now m)
unfolding refresh_health start_reformation_if_needed evaluated evaluate reformation_unavailable
refresh-IsReported m reason at now h q late late' idle =
    let confirmed : evaluate now m.watchdog
        ≡ (record m.watchdog { phase = rebuilding reason now }, reforming reason now) =
      ground arith in
    elim (Bool-cases m.can_reform) [
      | inl can ↦ rw (confirmed, refresh_health, idle, can) (rebuilds refl refl refl)
      | inr cannot ↦ rw (confirmed, refresh_health, idle, cannot) (ends refl refl)
    ]
