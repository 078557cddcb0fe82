-- ===== src/Relay/Joining.antt =====
-- Who joins a relay (scripts/split_cluster.py).
use share_compute.Prelude.{
  ℕ, String, Bool, true, false, ◌&&◌, none, some, List, [], ◌∷◌, ◌≡◌, ◌⊎◌, sym, ap, ◌∙◌, subst, inl,
  inr, arith, lookup, insert, lookup-insert, string_eq, ◌=?◌, Dict, Bool-cases, Option-cases,
}
use share_compute.Relay.{
  Relay, Pair, Hello, NodeRecord, is_text, is_number, accept, accept_kind, accept_control,
  accept_data, fail, match_channel, resolve, no_stats,
}
use share_compute.Relay.History.{
  Heartbeat, heartbeat, stats_of, open_channel, close_channel, Event, says_hello, matches, beats,
  drops, opens, closes, stops, step, run,
}
use share_compute.Relay.Strangers.{step-config}

-- A hello by which a node may join: a control connection over TLS, with the node's token, the runtime
-- and the budget that the ring asks for.
pub record Admits (rev : String) (config : Dict String Pair) (node : String) (plain : Bool)
    (h : Hello) : Type 0 where
  pub pair : Pair
  pub known : lookup node config ≡ some pair
  pub named : h.node ≡ some node
  pub secure : plain ≡ false
  pub token : is_text h.token pair.token ≡ true
  pub control : is_text h.kind "control" ≡ true
  pub runtime : is_text h.runtime rev ≡ true
  pub budget : is_number h.budget_mib pair.budget_mib ≡ true

-- Some hello of a history is one by which the node may join.
pub data WasAdmitted (rev : String) (config : Dict String Pair) (node : String)
    : List Event → Type 0 where
  now :
      (plain : Bool) (h : Hello) (es : List Event)
      → Admits rev config node plain h
      → WasAdmitted rev config node (says_hello plain h ∷ es)
  later :
      (e : Event) {es : List Event}
      → WasAdmitted rev config node es
      → WasAdmitted rev config node (e ∷ es)

abbrev pub Joined : String → Relay → Type 0
Joined node r = (found : NodeRecord) × (lookup node r.nodes ≡ some found)

accept_data-same :
    (node : String) (h : Hello) (r : Relay) → (accept_data node h r).0.nodes ≡ r.nodes
unfolding accept_data
accept_data-same node h r = ground arith

accept_control-Joined :
    (rev node k : String) (plain : Bool) (pair : Pair) (h : Hello) (r : Relay)
    → Joined k (accept_control rev plain node pair h r).0
    → Joined k r
      ⊎ ((node ≡ k)
          × (plain ≡ false)
          × (is_text h.runtime rev ≡ true)
          × (is_number h.budget_mib pair.budget_mib ≡ true))
unfolding accept_control
accept_control-Joined rev node k plain pair h r j = elim (Bool-cases plain) [
  | inl loopback ↦ inl (rw (accept_control, loopback) at j)
  | inr secure ↦ elim (Option-cases (lookup node r.nodes)) [
    | inr (present, e) ↦ inl (rw (accept_control, secure, e) at j)
    | inl e ↦ elim (Bool-cases (is_text h.runtime rev && is_number h.budget_mib pair.budget_mib)) [
      | inr other ↦ inl (rw (accept_control, secure, e, other) at j)
      | inl right ↦
          let new_record : NodeRecord = record { hello = h; stats = no_stats; stats_at = none } in
          let (found, at) : Joined k (record r { nodes = insert node new_record r.nodes }) =
            rw (accept_control, secure, e, right) at j in
          elim (Bool-cases (node =? k)) [
            | inl hit ↦ inr ((string_eq.beq_iff node k).0 hit, secure, ground arith, ground arith)
            | inr miss ↦
                inl (found, sym (rw miss at (lookup-insert node k new_record r.nodes)) ∙ at)
          ]
    ]
  ]
]

-- What a connection can do to the nodes: nothing, or it lets one node join that may.
accept-Joined :
    (rev : String) (plain : Bool) (h : Hello) (k : String) (r : Relay)
    → Joined k (accept rev plain h r).0
    → Joined k r ⊎ Admits rev r.config k plain h
unfolding accept accept_kind
accept-Joined rev plain h k r j = elim (Option-cases h.node) [
  | inl n ↦ inl (rw (n, accept) at j)
  | inr (node, n) ↦ elim (Option-cases (lookup node r.config)) [
    | inl q ↦ inl (rw (n, accept, q) at j)
    | inr (pair, q) ↦ elim (Bool-cases (is_text h.token pair.token)) [
      | inr t ↦ inl (rw (n, accept, q, t) at j)
      | inl t ↦ elim (Bool-cases (is_text h.kind "control")) [
        | inr c ↦
            let by_data : (accept rev plain h r).0.nodes ≡ r.nodes =
              rw (n, accept, q, t, c) (ground (arith, accept_data-same node h r)) in
            inl (j.0, ap (lookup k) (sym by_data) ∙ j.1)
        | inl c ↦
            let by_control : Joined k (accept_control rev plain node pair h r).0 =
              rw (n, accept, q, t, c) at j in
            elim (accept_control-Joined rev node k plain pair h r by_control) [
              | inl kept ↦ inl kept
              | inr (same, secure, runtime, budget) ↦ inr (record {
                pair = pair;
                known = ap (λ i. lookup i r.config) (sym same) ∙ q;
                named = n ∙ ap some same;
                secure = secure;
                token = t;
                control = c;
                runtime = runtime;
                budget = budget;
              })
            ]
      ]
    ]
  ]
]

fail-nodes : (text : String) (r : Relay) → (fail text r).nodes ≡ r.nodes
unfolding fail
fail-nodes text r = ground arith

fail-Joined : (k text : String) (r : Relay) → Joined k (fail text r) → Joined k r
fail-Joined k text r (found, e) = (found, ap (lookup k) (sym (fail-nodes text r)) ∙ e)

-- A heartbeat lets nobody join.
heartbeat-Joined :
    (k node : String) (message : Heartbeat) (time : ℕ) (text : String) (r : Relay)
    → Joined k (heartbeat node message time text r)
    → Joined k r
unfolding heartbeat
heartbeat-Joined k node message time text r j = elim (Bool-cases (is_text message.op "stats")) [
  | inr op ↦ fail-Joined k text r (rw (heartbeat, op) at j)
  | inl op ↦ elim (Option-cases (stats_of message)) [
    | inl v ↦ fail-Joined k text r (rw (heartbeat, op, v) at j)
    | inr (stats, v) ↦ elim (Option-cases (lookup node r.nodes)) [
      | inl e ↦ rw (heartbeat, op, v, e) at j
      | inr (here, e) ↦
          let updated : NodeRecord = record here { stats = stats; stats_at = some time } in
          let (found, at) : Joined k (record r { nodes = insert node updated r.nodes }) =
            rw (heartbeat, op, v, e) at j in
          elim (Bool-cases (node =? k)) [
            | inl hit ↦
                (here, ap (λ i. lookup i r.nodes) (sym ((string_eq.beq_iff node k).0 hit)) ∙ e)
            | inr miss ↦ (found, sym (rw miss at (lookup-insert node k updated r.nodes)) ∙ at)
          ]
    ]
  ]
]

step-Joined :
    (rev : String) (e : Event) (es : List Event) (k : String) (r : Relay)
    → Joined k (step rev e r)
    → Joined k r ⊎ WasAdmitted rev r.config k (e ∷ es)
unfolding step match_channel resolve open_channel close_channel fail
step-Joined rev (says_hello plain h) es k r j = elim (accept-Joined rev plain h k r j) [
  | inl kept ↦ inl kept
  | inr admits ↦ inr (now plain h es admits)
]
step-Joined rev (matches key) es k r j = inl (ground arith)
step-Joined rev (beats node message time text) es k r j =
    inl (heartbeat-Joined k node message time text r j)
step-Joined rev (drops text) es k r j = inl (ground arith)
step-Joined rev (opens node channel text) es k r j = inl (ground arith)
step-Joined rev (closes key none) es k r j = inl j
step-Joined rev (closes key (some text)) es k r j = inl (ground arith)
step-Joined rev stops es k r j = inl j

run-Joined :
    (rev : String) (es : List Event) (k : String) (r : Relay)
    → Joined k (run rev es r)
    → Joined k r ⊎ WasAdmitted rev r.config k es
unfolding run
run-Joined rev [] k r j = inl j
run-Joined rev (e ∷ es) k r j = elim (run-Joined rev es k (step rev e r) j) [
  | inl earlier ↦ step-Joined rev e es k r earlier
  | inr admitted ↦
      inr (later e (subst (λ c. WasAdmitted rev c k es) (step-config rev e r) admitted))
]

-- A node that has joined by the end of a history has been admitted in it: it is a node of the ring, and
-- in a control connection over TLS it presented its own token, the runtime that the relay runs and the
-- budget that the ring gives it.
pub run-WasAdmitted :
    (rev : String) (es : List Event) (k : String) (r : Relay)
    → r.nodes ≡ []
    → Joined k (run rev es r)
    → WasAdmitted rev r.config k es
unfolding lookup
run-WasAdmitted rev es k r fresh j = elim (run-Joined rev es k r j) [
  | inr admitted ↦ admitted
  | inl (found, e) ↦ let nobody : none ≡ some found = rw fresh at e in absurd (ground arith)
]
