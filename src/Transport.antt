-- ===== src/Transport.antt =====
-- Sources/ShareComputeCore/RingTransport.swift, and the `TcpRingTransport` of TcpRingProtocol.swift.
-- A method that mutates the transport returns the new one; `Option` stands for a throw.
pub mod Inboxes
pub mod Wire
use share_compute.Prelude.{
  Bool, true, false, Option, none, some, List, [], ◌∷◌, ◌++◌, Dict, lookup, insert, map_values,
  string_eq, if◌then◌else◌,
}
use share_compute.Capability.{NodeId, CapabilityProfile}
use share_compute.Lease.{Epoch}
use share_compute.Platform.{PlatformKind}

pub data PoolWireMessage : Type 0 where
  join : PlatformKind → CapabilityProfile → PoolWireMessage
  heartbeat drain acknowledged : NodeId → PoolWireMessage
  epoch_changed : Epoch → List NodeId → PoolWireMessage

-- A message handed to a transport: to one peer, or to all that are connected.
pub data Delivery : Type 0 where
  sends : NodeId → PoolWireMessage → Delivery
  broadcasts : PoolWireMessage → Delivery

pub record InProcessRingTransport : Type 0 where
  pub inbox : Dict NodeId (List PoolWireMessage)
  pub broadcast_log : List PoolWireMessage

-- `inbox[node] ?? []`.
abbrev pub or_empty : Option (List PoolWireMessage) → List PoolWireMessage
or_empty none = []
or_empty (some messages) = messages

unfoldable pub messages_of : NodeId → InProcessRingTransport → List PoolWireMessage
messages_of node t = or_empty (lookup node t.inbox)

unfoldable pub send : NodeId → PoolWireMessage → InProcessRingTransport → InProcessRingTransport
unfolding messages_of
send node message t = record t { inbox = insert node (messages_of node t ++ message ∷ []) t.inbox }

unfoldable pub broadcast : PoolWireMessage → InProcessRingTransport → InProcessRingTransport
broadcast message t = record t {
  broadcast_log = t.broadcast_log ++ message ∷ [];
  inbox = map_values (λ messages. messages ++ message ∷ []) t.inbox;
}

unfoldable pub take_inbox :
    NodeId → InProcessRingTransport → InProcessRingTransport × List PoolWireMessage
unfolding messages_of
take_inbox node t = (record t { inbox = insert node [] t.inbox }, messages_of node t)

pub record TcpRingTransport : Type 0 where
  pub sent : List (NodeId × PoolWireMessage)
  pub broadcast_messages : List PoolWireMessage
  pub is_connected : Bool

unfoldable pub tcp_send : NodeId → PoolWireMessage → TcpRingTransport → Option TcpRingTransport
tcp_send node message t =
    if t.is_connected then some (record t { sent = t.sent ++ (node, message) ∷ [] }) else none

unfoldable pub tcp_broadcast : PoolWireMessage → TcpRingTransport → Option TcpRingTransport
tcp_broadcast message t =
    if t.is_connected
    then some (record t { broadcast_messages = t.broadcast_messages ++ message ∷ [] })
    else none
