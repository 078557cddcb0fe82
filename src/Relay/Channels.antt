-- ===== src/Relay/Channels.antt =====
-- The channels of a node, and the reason of a failure (scripts/split_cluster.py).
use share_compute.Prelude.{
  ◌+◌, ◌≤◌, String, Bool, true, false, none, some, List, [], ◌∷◌, ◌≡◌, sym, ap, inl, inr, arith,
  lookup, insert, remove, leb, string_eq, ◌=?◌, Dict, Bool-cases, Option-cases, if◌then◌else◌,
}
use share_compute.Relay.{
  key_eq, Relay, Hello, accept, accept_kind, accept_control, accept_data, fail, match_channel,
  resolve, told,
}
use share_compute.Relay.History.{
  heartbeat, channels, open_channel, close_channel, Event, says_hello, matches, beats, drops, opens,
  closes, stops, step, run,
}

channels-insert :
    (node : String) (key : String × String) (v : Bool) (m : Dict (String × String) Bool)
    → channels node (insert key v m) ≤ channels node m + (if key.0 =? node then 1 else 0)
unfolding channels insert
channels-insert node key v [] = ground arith
channels-insert node key v ((j, w) ∷ m) =
    ground (
      arith,
      channels-insert node key v m,
      string_eq.beq_iff j.0 key.0,
      string_eq.beq_iff j.1 key.1,
    )

-- A key that is bound is counted already.
channels-insert_bound :
    (node : String) (key : String × String) (v w : Bool) (m : Dict (String × String) Bool)
    → lookup key m ≡ some w
    → channels node (insert key v m) ≡ channels node m
unfolding channels insert lookup
channels-insert_bound node key v w [] h = absurd (ground arith)
channels-insert_bound node key v w ((j, u) ∷ m) h = elim (Bool-cases (j =? key)) [
  | inl hit ↦
      let same : j ≡ key = (key_eq.beq_iff j key).0 hit in
      rw hit (
        ap (λ (i : String × String). if i.0 =? node then channels node m + 1 else channels node m)
          (sym same))
  | inr miss ↦
      let found : lookup key m ≡ some w = ground arith in
      rw miss
        (ap (λ n. if j.0 =? node then n + 1 else n) (channels-insert_bound node key v w m found))
]

channels-remove :
    (node : String) (key : String × String) (m : Dict (String × String) Bool)
    → channels node (remove key m) ≤ channels node m
unfolding channels remove
channels-remove node key [] = ground arith
channels-remove node key ((j, w) ∷ m) = ground (arith, channels-remove node key m)

fail-pending : (text : String) (r : Relay) → (fail text r).pending ≡ r.pending
unfolding fail
fail-pending text r = ground arith

accept-pending :
    (rev : String) (plain : Bool) (h : Hello) (r : Relay)
    → (accept rev plain h r).0.pending ≡ r.pending
unfolding accept accept_kind accept_control accept_data
accept-pending rev plain h r = ground arith

resolve-channels :
    (key : String × String) (r : Relay) (node : String)
    → channels node r.pending ≤ 4
    → channels node (resolve key r).pending ≤ 4
unfolding resolve
resolve-channels key r node few = elim (Option-cases (lookup key r.pending)) [
  | inl e ↦ rw (resolve, e) few
  | inr (true, e) ↦ rw (resolve, e) few
  | inr (false, e) ↦ rw (resolve, e, channels-insert_bound node key true false r.pending e) few
]

step-channels :
    (rev : String) (e : Event) (r : Relay) (node : String)
    → ((k : String) → channels k r.pending ≤ 4)
    → channels node (step rev e r).pending ≤ 4
unfolding step match_channel heartbeat open_channel close_channel
step-channels rev (says_hello plain h) r node few =
    omega (arith, few node, ap (channels node) (accept-pending rev plain h r))
step-channels rev (matches key) r node few =
    let done = resolve-channels key (record r { greeted = told key r.greeted }) node (few node) in
    ground (arith, done, few node)
step-channels rev (beats k message now text) r node few =
    ground (arith, few node, fail-pending text r)
step-channels rev (drops text) r node few =
    omega (arith, few node, ap (channels node) (fail-pending text r))
step-channels rev (opens k channel text) r node few =
    elim (Bool-cases (leb 4 (channels k r.pending))) [
      | inl full ↦
          rw (open_channel, full)
            (omega (arith, few node, channels-remove node (k, channel) r.pending))
      | inr room ↦
          let more = channels-insert node (k, channel) false r.pending in
          rw (open_channel, room) (ground (arith, more, few node, string_eq.beq_iff k node))
    ]
step-channels rev (closes key none) r node few =
    omega (arith, few node, channels-remove node key r.pending)
step-channels rev (closes key (some text)) r node few = omega (
  arith,
  few node,
  channels-remove node key (fail text r).pending,
  ap (channels node) (fail-pending text r),
)
step-channels rev stops r node few = few node

run-few :
    (rev : String) (es : List Event) (r : Relay) (node : String)
    → ((k : String) → channels k r.pending ≤ 4)
    → channels node (run rev es r).pending ≤ 4
unfolding run
run-few rev [] r node few = few node
run-few rev (e ∷ es) r node few =
    run-few rev es (step rev e r) node (λ k. step-channels rev e r k few)

-- Whatever happens to a relay that starts without channels, no node ever has more than four.
pub run-channels :
    (rev : String) (es : List Event) (r : Relay) (node : String)
    → r.pending ≡ []
    → channels node (run rev es r).pending ≤ 4
unfolding channels
run-channels rev es r node fresh = run-few rev es r node (λ k. rw fresh (omega arith))
