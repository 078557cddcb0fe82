-- ===== src/Relay/History.antt =====
-- The rest of `Relay` in scripts/split_cluster.py, heartbeats and channels, and what happens to a relay.
use share_compute.Prelude.{
  ℕ, ◌+◌, String, Bool, true, false, not, Option, none, some, List, [], ◌∷◌, ◌++◌, leb,
  if◌then◌else◌, Dict, lookup, insert, remove, string_eq, ◌=?◌,
}
use share_compute.Relay.{
  key_eq, Hello, Statistic, invalid, count, Relay, core_stats, cache_stats, fail, is_text, accept,
  match_channel,
}

abbrev pub required : Option Statistic → Option ℕ
required (some (count n)) = some n
required _ = none

-- `message.get(k, 0)`.
abbrev pub optional : Option Statistic → Option ℕ
optional none = some 0
optional (some (count n)) = some n
optional (some invalid) = none

abbrev pub also : String → Option ℕ → Option (Dict String ℕ) → Option (Dict String ℕ)
also k (some n) (some stats) = some ((k, n) ∷ stats)
also k _ _ = none

-- The statistics of a heartbeat, or none if one of them is not valid.
unfoldable pub read_stats :
    (Option Statistic → Option ℕ) → List String → Dict String Statistic → Option (Dict String ℕ)
read_stats field [] message = some []
read_stats field (k ∷ ks) message = also k (field (lookup k message)) (read_stats field ks message)

pub record Heartbeat : Type 0 where
  pub op : Option String
  pub fields : Dict String Statistic

unfoldable pub stats_of : Heartbeat → Option (Dict String ℕ)
unfolding read_stats
stats_of message = elim (read_stats required core_stats message.fields) [
  | none ↦ none
  | some core ↦ elim (read_stats optional cache_stats message.fields) [
    | none ↦ none
    | some cache ↦ some (core ++ cache)
  ]
]

-- One turn of the loop of a control connection. A line that is no valid heartbeat ends the connection
-- with a failure, whose text is given.
unfoldable pub heartbeat : String → Heartbeat → ℕ → String → Relay → Relay
unfolding stats_of fail
heartbeat node message now text r =
    if not (is_text message.op "stats") then fail text r else elim (stats_of message) [
      | none ↦ fail text r
      | some stats ↦ elim (lookup node r.nodes) [
        | none ↦ r
        | some found ↦ record r {
          nodes = insert node (record found { stats = stats; stats_at = some now }) r.nodes;
        }
      ]
    ]

-- `sum(n == node for n, _ in self.pending)`.
unfoldable pub channels : String → Dict (String × String) Bool → ℕ
channels node [] = 0
channels node ((key, is_done) ∷ pending) =
    let rest = channels node pending in if key.0 =? node then rest + 1 else rest

-- `forward`, up to its first `await`, with the channel that `uuid4()` gives: past the limit the tunnel
-- fails, and the channel is not pending.
unfoldable pub open_channel : String → String → String → Relay → Relay
unfolding channels fail
open_channel node channel text r =
    let refused = fail text r in
    if leb 4 (channels node r.pending)
    then record refused { pending = remove (node, channel) r.pending }
    else record r { pending = insert (node, channel) false r.pending }

-- The end of `forward`, with the text of the exception, if there was one.
unfoldable pub close_channel : String × String → Option String → Relay → Relay
unfolding fail
close_channel key none r = record r { pending = remove key r.pending }
close_channel key (some text) r =
    let failed = fail text r in record failed { pending = remove key failed.pending }

-- What happens to a relay. `drops` is the end of a control connection: it was closed, fell silent, or
-- was broken.
pub data Event : Type 0 where
  says_hello : Bool → Hello → Event
  matches : String × String → Event
  beats : String → Heartbeat → ℕ → String → Event
  drops : String → Event
  opens : String → String → String → Event
  closes : String × String → Option String → Event
  stops : Event

unfoldable pub step : String → Event → Relay → Relay
unfolding accept match_channel heartbeat fail open_channel close_channel
step rev (says_hello plain h) r = (accept rev plain h r).0
step rev (matches key) r = match_channel key r
step rev (beats node message now text) r = heartbeat node message now text r
step rev (drops text) r = fail text r
step rev (opens node channel text) r = open_channel node channel text r
step rev (closes key text) r = close_channel key text r
step rev stops r = record r { closing = true }

unfoldable pub run : String → List Event → Relay → Relay
unfolding step
run rev [] r = r
run rev (e ∷ es) r = run rev es (step rev e r)
