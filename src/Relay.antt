-- ===== src/Relay.antt =====
-- scripts/split_cluster.py, the class `Relay`: which connections the relay of a split run takes, and what
-- ends the run. A hello is what the first line of a connection says, a field that is missing or of
-- another type being none; `REV` is the argument `rev`. Between two `await`s a handler is one step. The
-- texts of failures are arguments. The listeners, the copying of bytes, the measured stalls, the log and
-- the closing of sockets are left out.
pub mod History
pub mod Strangers
pub mod Joining
pub mod Channels
pub mod Failures
use share_compute.Prelude.{
  ℕ, ◌+◌, String, Bool, true, false, not, ◌&&◌, Option, none, some, List, [], ◌∷◌, ◌++◌, ap₂, map,
  all, filter, length, ◌==◌, ◌≡◌, ◌↔◌, arith, leb, if◌then◌else◌, Dict, Eq, lookup, insert,
  contains, remove, string_eq, ◌=?◌,
}

pub same_key : (a b : String × String) → (((a.0 =? b.0) && (a.1 =? b.1)) ≡ true) ↔ (a ≡ b)
same_key a b = (
  λ h.
      ap₂ (λ x y. (x, y)) ((string_eq.beq_iff a.0 b.0).0 (ground arith))
        ((string_eq.beq_iff a.1 b.1).0 (ground arith)),
  λ e. ground (arith, string_eq.beq_iff a.0 b.0, string_eq.beq_iff a.1 b.1),
)

-- A channel of a node: the keys of `pending`.
instance abbrev pub key_eq : Eq (String × String)
key_eq = record { beq = λ a b. (a.0 =? b.0) && (a.1 =? b.1); beq_iff = same_key }

-- An entry of `config['nodes']`.
pub record Pair : Type 0 where
  pub token : String
  pub budget_mib : ℕ

pub record Hello : Type 0 where
  pub node : Option String
  pub token : Option String
  pub kind : Option String
  pub runtime : Option String
  pub budget_mib : Option ℕ
  pub channel : Option String

-- A field of a heartbeat: an `int` that is not negative, or anything else.
pub data Statistic : Type 0 where
  invalid : Statistic
  count : ℕ → Statistic

pub record NodeRecord : Type 0 where
  pub hello : Hello
  pub stats : Dict String ℕ
  pub stats_at : Option ℕ

-- `pending` says of each channel whether its future is done, and `greeted` lists the channels of the data
-- connections that `accept` has taken and is telling so. `failure` is whether the event is set.
pub record Relay : Type 0 where
  pub config : Dict String Pair
  pub nodes : Dict String NodeRecord
  pub pending : Dict (String × String) Bool
  pub greeted : List (String × String)
  pub failure : Bool
  pub reason : String
  pub closing : Bool

abbrev pub core_stats : List String
core_stats = "allocated_bytes" ∷ "peak_bytes" ∷ "graph_calls" ∷ []

abbrev pub cache_stats : List String
cache_stats = "cache_hit_bytes" ∷ "cache_stored_bytes" ∷ "cache_rejected" ∷ []

unfoldable pub fail : String → Relay → Relay
fail text r =
    if r.closing
    then r
    else record r { failure = true; reason = if r.reason =? "" then text else r.reason }

pub data Rejection : Type 0 where
  unknown_node authentication_failed control_requires_tls duplicate_worker mismatch : Rejection
  invalid_channel unsolicited unknown_kind : Rejection

-- What becomes of a connection: a worker joins, a channel is told that it is taken, or it is closed.
pub data Reply : Type 0 where
  joined : String → Reply
  taken : String × String → Reply
  rejected : Rejection → Reply

-- `field == text`.
abbrev pub is_text : Option String → String → Bool
is_text none text = false
is_text (some s) text = s =? text

abbrev pub is_number : Option ℕ → ℕ → Bool
is_number none n = false
is_number (some m) n = m == n

-- `dict.fromkeys(CORE_STATS + CACHE_STATS, 0)`.
abbrev pub no_stats : Dict String ℕ
no_stats = map (λ k. (k, 0)) (core_stats ++ cache_stats)

unfoldable pub accept_control : String → Bool → String → Pair → Hello → Relay → Relay × Reply
accept_control rev plain node pair h r =
    if plain then (r, rejected control_requires_tls) else elim (lookup node r.nodes) [
      | some present ↦ (r, rejected duplicate_worker)
      | none ↦
          let joins : Relay = record r {
            nodes = insert node (record { hello = h; stats = no_stats; stats_at = none }) r.nodes;
          } in
          if is_text h.runtime rev && is_number h.budget_mib pair.budget_mib
          then (joins, joined node)
          else (r, rejected mismatch)
    ]

unfoldable pub accept_data : String → Hello → Relay → Relay × Reply
accept_data node h r = elim h.channel [
  | none ↦ (r, rejected invalid_channel)
  | some channel ↦ elim (lookup (node, channel) r.pending) [
    | none ↦ (r, rejected unsolicited)
    | some is_done ↦
        let takes : Relay = record r { greeted = (node, channel) ∷ r.greeted } in
        if is_done then (r, rejected unsolicited) else (takes, taken (node, channel))
  ]
]

unfoldable pub accept_kind : String → Bool → String → Pair → Hello → Relay → Relay × Reply
unfolding accept_control accept_data
accept_kind rev plain node pair h r =
    if is_text h.kind "control"
    then accept_control rev plain node pair h r
    else if is_text h.kind "data"
    then accept_data node h r
    else (r, rejected unknown_kind)

-- `accept`, up to its first `await` after the hello. `plain` is true on the loopback listener.
unfoldable pub accept : String → Bool → Hello → Relay → Relay × Reply
unfolding accept_kind
accept rev plain h r = elim h.node [
  | none ↦ (r, rejected unknown_node)
  | some node ↦ elim (lookup node r.config) [
    | none ↦ (r, rejected unknown_node)
    | some pair ↦
        if is_text h.token pair.token
        then accept_kind rev plain node pair h r
        else (r, rejected authentication_failed)
  ]
]

-- One connection of a channel has been told.
unfoldable pub told : String × String → List (String × String) → List (String × String)
told key [] = []
told key (k ∷ greeted) = let rest = told key greeted in if k =? key then greeted else k ∷ rest

unfoldable pub resolve : String × String → Relay → Relay
resolve key r = elim (lookup key r.pending) [
  | none ↦ r
  | some is_done ↦
      let matched : Relay = record r { pending = insert key true r.pending } in
      if is_done then r else matched
]

-- `pending.set_result`, when a data connection that was taken has been told so: a future that is done by
-- then refuses, and the connection is closed.
unfoldable pub match_channel : String × String → Relay → Relay
unfolding told resolve
match_channel key r =
    let next = resolve key (record r { greeted = told key r.greeted }) in
    if contains r.greeted key then next else r
