-- ===== src/Transport/Wire/Hub.antt =====
-- scripts/four_platform_pool_hub.py, `handle_client`: what the hub makes of one connection. Python's
-- json.loads and its values, with `str`, `float`, truth and equality with a text, are a parameter. The
-- line that is printed, the wait for the end of the demo, the last message and the closing of the socket
-- are left out; the epoch of the reply is the hub's own.
use share_compute.Prelude.{
  ℕ, String, Bool, false, ◌||◌, Option, none, some, List, [], ◌∷◌, all, if◌then◌else◌, lookup,
  insert, keys, contains, string_eq, ◌=?◌, Dict,
}
use share_compute.Transport.Wire.{waits, raises, message, recv_line}

pub record Python : Type 1 where
  pub Value : Type 0
  pub Document : Type 0
  pub Float : Type 0
  pub loads : List ℕ → Option Document
  pub fields : Document → Option (Dict String Value)
  pub is_text : Value → String → Bool
  pub str : Value → String
  pub is_true : Value → Bool
  pub to_float : Value → Option Float
  pub of_nat : ℕ → Float

-- `PLATFORMS`.
abbrev pub platforms : List String
platforms = "windows" ∷ "macos" ∷ "ios" ∷ "android" ∷ []

-- `DEFAULT_USABLE_GB`, of a platform that is one of the four.
unfoldable pub default_usable_gb : String → ℕ
default_usable_gb platform =
    if platform =? "windows"
    then 16
    else if platform =? "macos"
    then 32
    else if platform =? "ios"
    then 6
    else 8

-- `f"sim-{platform}"`, of a platform that is one of the four.
unfoldable pub sim_name : String → String
sim_name platform =
    if platform =? "windows"
    then "sim-windows"
    else if platform =? "macos"
    then "sim-macos"
    else if platform =? "ios"
    then "sim-ios"
    else "sim-android"

module _ (P : Python) where
  open P use {Value, Document, Float, loads, fields, is_text, str, is_true, to_float, of_nat}

  pub record Peer : Type 0 where
    pub platform : String
    pub node_id : String
    pub usable_gb : Float

  pub record Hub : Type 0 where
    pub expected : List String
    pub connected : Dict String Peer
    pub done : Bool

  -- What the client gets: nothing, since its message is no join of a known platform or an exception is
  -- caught, or the acknowledgement of its node and platform.
  pub data Reply : Type 0 where
    ignored failed : Reply
    ack : String → String → Reply

  unfoldable pub is_join : Option Value → Bool
  is_join none = false
  is_join (some v) = is_text v "join"

  -- `str(msg.get("platform", ""))`.
  unfoldable pub join_platform : Option Value → String
  join_platform none = ""
  join_platform (some v) = str v

  -- `str(msg.get("node_id") or f"sim-{platform}")`.
  unfoldable pub join_node : Option Value → String → String
  join_node none platform = sim_name platform
  join_node (some v) platform = if is_true v then str v else sim_name platform

  -- `float(msg.get("usable_gb", DEFAULT_USABLE_GB[platform]))`.
  unfoldable pub join_usable : Option Value → String → Option Float
  join_usable none platform = some (of_nat (default_usable_gb platform))
  join_usable (some v) platform = to_float v

  -- The body of `with lock`.
  unfoldable pub register : Hub → Peer → Hub × Reply
  register hub peer =
      let connected = insert peer.platform peer hub.connected in
      (
        record hub {
          connected = connected;
          done = all (contains (keys connected)) hub.expected || hub.done;
        },
        ack peer.node_id peer.platform,
      )

  unfoldable pub join : Hub → Dict String Value → Hub × Reply
  join hub msg =
      let platform = join_platform (lookup "platform" msg) in
      if is_join (lookup "type" msg)
      then if contains platforms platform
        then elim (join_usable (lookup "usable_gb" msg) platform) [
          | none ↦ (hub, failed)
          | some gb ↦ register hub (record {
            platform = platform;
            node_id = join_node (lookup "node_id" msg) platform;
            usable_gb = gb;
          })
        ]
        else (hub, ignored)
      else (hub, ignored)

  -- A message that is no object has no `get`.
  join_fields : Hub → Option (Dict String Value) → Hub × Reply
  unfolding join
  join_fields hub none = (hub, failed)
  join_fields hub (some msg) = join hub msg

  unfoldable pub handle_client : Hub → List ℕ → Hub × Reply
  unfolding join_fields
  handle_client hub received = elim (recv_line loads [] received) [
    | waits ↦ (hub, ignored)
    | raises ↦ (hub, failed)
    | message d rest ↦ join_fields hub (fields d)
  ]
