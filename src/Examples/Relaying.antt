-- ===== src/Examples/Relaying.antt =====
-- Tests of Relay.
use share_compute.Prelude.{
  ℕ, ◌≤◌, String, Bool, true, false, not, none, some, List, [], ◌∷◌, filter, ◌≡◌, refl, arith,
  lookup, insert, Dict, string_eq,
}
use share_compute.Relay.{Relay, Pair, Hello, no_stats}
use share_compute.Relay.History.{Event, says_hello, matches, drops, opens, closes, channels, run}
use share_compute.Relay.Strangers.{is_strange, run-strangers}
use share_compute.Relay.Joining.{WasAdmitted, run-WasAdmitted}
use share_compute.Relay.Channels.{run-channels}
use share_compute.Relay.Failures.{HasFailed, first_failure-HasFailed}

abbrev nodes : Dict String Pair
nodes =
    ("laptop", record { token = "t1"; budget_mib = 768 })
    ∷ ("android", record { token = "t2"; budget_mib = 2048 })
    ∷ []

abbrev relay : Relay
relay = record {
  config = nodes;
  nodes = [];
  pending = [];
  greeted = [];
  failure = false;
  reason = "";
  closing = false;
}

abbrev hello : Hello
hello = record {
  node = some "android";
  token = some "t2";
  kind = some "control";
  runtime = some "b1";
  budget_mib = some 2048;
  channel = none;
}

abbrev stranger : Hello
stranger = record hello { token = some "t1" }

abbrev events : List Event
events =
    says_hello false stranger
    ∷ says_hello false hello
    ∷ opens "android" "c1" "limit"
    ∷ matches ("android", "c1")
    ∷ says_hello false stranger
    ∷ closes ("android", "c1") none
    ∷ []

run-strangers_example :
    run "b1" events relay ≡ run "b1" (filter (λ e. not (is_strange nodes e)) events) relay
run-strangers_example = run-strangers "b1" events relay

run-WasAdmitted_example : WasAdmitted "b1" nodes "android" events
unfolding run lookup share_compute.Relay.History.step share_compute.Relay.accept
    share_compute.Relay.accept_kind share_compute.Relay.accept_control share_compute.Prelude.insert
run-WasAdmitted_example =
    run-WasAdmitted "b1" events "android" relay refl
      (record { hello = hello; stats = no_stats; stats_at = none }, refl)

run-channels_example : channels "android" (run "b1" events relay).pending ≤ 4
run-channels_example = run-channels "b1" events relay "android" refl

first_failure-HasFailed_example : HasFailed "silent" (run "b1" (drops "silent" ∷ events) relay)
first_failure-HasFailed_example = first_failure-HasFailed "b1" events "silent" relay refl refl refl
