-- ===== src/Relay/Failures.antt =====
-- The reason for which a run ends (scripts/split_cluster.py).
use share_compute.Prelude.{
  String, Bool, true, false, none, some, List, [], ◌∷◌, ◌≡◌, arith, string_eq, ◌=?◌,
}
use share_compute.Relay.{
  key_eq, Relay, Hello, accept, accept_kind, accept_control, accept_data, fail, match_channel,
  resolve,
}
use share_compute.Relay.History.{
  heartbeat, open_channel, close_channel, Event, says_hello, matches, beats, drops, opens, closes,
  stops, step, run,
}

-- The relay has failed for a reason.
pub record HasFailed (text : String) (r : Relay) : Type 0 where
  pub failure : r.failure ≡ true
  pub reason : r.reason ≡ text

fail-HasFailed :
    (text more : String) (r : Relay)
    → (text =? "") ≡ false
    → HasFailed text r
    → HasFailed text (fail more r)
unfolding fail
fail-HasFailed text more r given h = record {
  failure = ground (arith, h.failure);
  reason = ground (arith, h.reason);
}

accept-HasFailed :
    (rev : String) (plain : Bool) (g : Hello) (text : String) (r : Relay)
    → HasFailed text r
    → HasFailed text (accept rev plain g r).0
unfolding accept accept_kind accept_control accept_data
accept-HasFailed rev plain g text r h = record {
  failure = ground (arith, h.failure);
  reason = ground (arith, h.reason);
}

step-HasFailed :
    (rev : String) (e : Event) (text : String) (r : Relay)
    → (text =? "") ≡ false
    → HasFailed text r
    → HasFailed text (step rev e r)
unfolding step match_channel resolve heartbeat open_channel close_channel
step-HasFailed rev (says_hello plain g) text r given h = accept-HasFailed rev plain g text r h
step-HasFailed rev (matches key) text r given h = record {
  failure = ground (arith, h.failure);
  reason = ground (arith, h.reason);
}
step-HasFailed rev (beats k message now more) text r given h =
    let failed = fail-HasFailed text more r given h in
    record {
      failure = ground (arith, h.failure, failed.failure);
      reason = ground (arith, h.reason, failed.reason);
    }
step-HasFailed rev (drops more) text r given h = fail-HasFailed text more r given h
step-HasFailed rev (opens k channel more) text r given h =
    let failed = fail-HasFailed text more r given h in
    record {
      failure = ground (arith, h.failure, failed.failure);
      reason = ground (arith, h.reason, failed.reason);
    }
step-HasFailed rev (closes key none) text r given h = record {
  failure = h.failure;
  reason = h.reason;
}
step-HasFailed rev (closes key (some more)) text r given h =
    let failed = fail-HasFailed text more r given h in
    record { failure = failed.failure; reason = failed.reason }
step-HasFailed rev stops text r given h = record { failure = h.failure; reason = h.reason }

run-HasFailed :
    (rev : String) (es : List Event) (text : String) (r : Relay)
    → (text =? "") ≡ false
    → HasFailed text r
    → HasFailed text (run rev es r)
unfolding run
run-HasFailed rev [] text r given h = h
run-HasFailed rev (e ∷ es) text r given h =
    run-HasFailed rev es text (step rev e r) given (step-HasFailed rev e text r given h)

-- The first failure is the one that is reported: when a control connection ends in a relay that has no
-- failure and is not being stopped, the relay fails for the reason given, if that is a text, and keeps
-- it, whatever happens next.
pub first_failure-HasFailed :
    (rev : String) (es : List Event) (text : String) (r : Relay)
    → (text =? "") ≡ false
    → r.closing ≡ false
    → r.reason ≡ ""
    → HasFailed text (run rev (drops text ∷ es) r)
unfolding run step fail
first_failure-HasFailed rev es text r given open_still fresh =
    let blank : (r.reason =? "") ≡ true = (string_eq.beq_iff r.reason "").1 fresh in
    run-HasFailed rev es text (fail text r) given
      (record { failure = ground arith; reason = ground arith })
