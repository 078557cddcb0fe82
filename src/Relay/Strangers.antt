-- ===== src/Relay/Strangers.antt =====
-- Connections that do not authenticate (scripts/split_cluster.py).
use share_compute.Prelude.{
  String, Bool, true, false, not, Option, none, some, List, [], ◌∷◌, filter, ◌≡◌, refl, ap, ◌∙◌,
  inl, inr, arith, lookup, string_eq, Dict, Bool-cases, Option-cases,
}
use share_compute.Relay.{
  Relay, Pair, Hello, is_text, accept, accept_kind, accept_control, accept_data, fail,
  match_channel, resolve,
}
use share_compute.Relay.History.{
  heartbeat, open_channel, close_channel, Event, says_hello, matches, beats, drops, opens, closes,
  stops, step, run,
}

-- A hello that names no node of the ring, or not with its token.
abbrev lacks_token : Option String → Option Pair → Bool
lacks_token token none = true
lacks_token token (some pair) = not (is_text token pair.token)

abbrev named : Option String → Dict String Pair → Option Pair
named none config = none
named (some node) config = lookup node config

unfoldable pub is_stranger : Dict String Pair → Hello → Bool
is_stranger config h = lacks_token h.token (named h.node config)

abbrev pub is_strange : Dict String Pair → Event → Bool
is_strange config (says_hello plain h) = is_stranger config h
is_strange config _ = false

accept-stranger :
    (rev : String) (plain : Bool) (h : Hello) (r : Relay)
    → is_stranger r.config h ≡ true
    → (accept rev plain h r).0 ≡ r
unfolding accept is_stranger
accept-stranger rev plain h r e = elim (Option-cases h.node) [
  | inl n ↦ rw (n, accept) refl
  | inr (node, n) ↦ elim (Option-cases (lookup node r.config)) [
    | inl q ↦ rw (n, accept, q) refl
    | inr (pair, q) ↦
        let unequal : not (is_text h.token pair.token) ≡ true = rw (n, q) at e in
        let wrong : is_text h.token pair.token ≡ false = ground arith in
        rw (n, accept, q, wrong) refl
  ]
]

fail-config : (text : String) (r : Relay) → (fail text r).config ≡ r.config
unfolding fail
fail-config text r = ground arith

accept-config :
    (rev : String) (plain : Bool) (h : Hello) (r : Relay)
    → (accept rev plain h r).0.config ≡ r.config
unfolding accept accept_kind accept_control accept_data
accept-config rev plain h r = ground arith

pub step-config : (rev : String) (e : Event) (r : Relay) → (step rev e r).config ≡ r.config
unfolding step match_channel resolve heartbeat open_channel close_channel fail
step-config rev (says_hello plain h) r = accept-config rev plain h r
step-config rev (matches key) r = ground arith
step-config rev (beats node message now text) r = ground arith
step-config rev (drops text) r = fail-config text r
step-config rev (opens node channel text) r = ground arith
step-config rev (closes key none) r = refl
step-config rev (closes key (some text)) r = fail-config text r
step-config rev stops r = refl

step-strange :
    (rev : String) (e : Event) (r : Relay) → is_strange r.config e ≡ true → step rev e r ≡ r
unfolding step
step-strange rev (says_hello plain h) r e = accept-stranger rev plain h r e
step-strange rev (matches key) r e = absurd (ground arith)
step-strange rev (beats node message now text) r e = absurd (ground arith)
step-strange rev (drops text) r e = absurd (ground arith)
step-strange rev (opens node channel text) r e = absurd (ground arith)
step-strange rev (closes key text) r e = absurd (ground arith)
step-strange rev stops r e = absurd (ground arith)

-- Connections that do not authenticate leave no trace: with their hellos taken out of it, any history
-- leads to the same relay, with the same nodes, the same channels, pending and taken, and the same
-- failure. They neither join, nor take a channel, nor end the run.
pub run-strangers :
    (rev : String) (es : List Event) (r : Relay)
    → run rev es r ≡ run rev (filter (λ e. not (is_strange r.config e)) es) r
unfolding run
run-strangers rev [] r = refl
run-strangers rev (e ∷ es) r = elim (Bool-cases (is_strange r.config e)) [
  | inl strange ↦
      rw strange (ap (run rev es) (step-strange rev e r strange) ∙ run-strangers rev es r)
  | inr known ↦
      let rest = run-strangers rev es (step rev e r) in
      let same = step-config rev e r in rw known (rw same at rest)
]
