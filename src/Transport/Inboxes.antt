-- ===== src/Transport/Inboxes.antt =====
-- What the in-process transport delivers (RingTransport.swift).
use mathlib.Core.List.{append_assoc, append-nil}
use share_compute.Prelude.{
  some, List, [], ◌∷◌, ◌++◌, ◌≡◌, ap, ◌∙◌, arith, lookup, string_eq, lookup-insert,
  lookup-map_values, ◌=?◌, =?-refl, if◌then◌else◌,
}
use share_compute.Capability.{NodeId}
use share_compute.Transport.{
  PoolWireMessage, Delivery, sends, broadcasts, InProcessRingTransport, send, broadcast, take_inbox,
  messages_of, or_empty,
}

abbrev pub deliver : Delivery → InProcessRingTransport → InProcessRingTransport
deliver (sends node message) t = send node message t
deliver (broadcasts message) t = broadcast message t

unfoldable pub deliver_all : List Delivery → InProcessRingTransport → InProcessRingTransport
deliver_all [] t = t
deliver_all (d ∷ ds) t = deliver_all ds (deliver d t)

-- What a delivery holds for a node that has an inbox.
abbrev pub addressed : NodeId → Delivery → List PoolWireMessage
addressed node (sends to message) = if to =? node then message ∷ [] else []
addressed node (broadcasts message) = message ∷ []

abbrev pub all_addressed : NodeId → List Delivery → List PoolWireMessage
all_addressed node [] = []
all_addressed node (d ∷ ds) = addressed node d ++ all_addressed node ds

deliver-inbox :
    (node : NodeId) (d : Delivery) (t : InProcessRingTransport) (held : List PoolWireMessage)
    → lookup node t.inbox ≡ some held
    → lookup node (deliver d t).inbox ≡ some (held ++ addressed node d)
unfolding send broadcast messages_of
deliver-inbox node (sends to message) t held e = ground (
  arith,
  lookup-insert to node (or_empty (lookup to t.inbox) ++ message ∷ []) t.inbox,
  string_eq.beq_iff to node,
  append-nil held,
)
deliver-inbox node (broadcasts message) t held e =
    lookup-map_values (λ messages. messages ++ message ∷ []) node t.inbox ∙ rw e

deliver_all-inbox :
    (node : NodeId) (ds : List Delivery) (t : InProcessRingTransport) (held : List PoolWireMessage)
    → lookup node t.inbox ≡ some held
    → lookup node (deliver_all ds t).inbox ≡ some (held ++ all_addressed node ds)
unfolding deliver_all
deliver_all-inbox node [] t held e = rw append-nil e
deliver_all-inbox node (d ∷ ds) t held e =
    deliver_all-inbox node ds (deliver d t) _ (deliver-inbox node d t held e)
    ∙ ap some (append_assoc held (addressed node d) (all_addressed node ds))

-- A peer with an inbox takes exactly what was sent to it and what was broadcast, in order, and
-- nothing else; taking empties the inbox.
pub take_inbox-deliver_all :
    (node : NodeId) (ds : List Delivery) (t : InProcessRingTransport) (held : List PoolWireMessage)
    → lookup node t.inbox ≡ some held
    → let (t', taken) = take_inbox node (deliver_all ds t) in
      (taken ≡ held ++ all_addressed node ds) × (messages_of node t' ≡ [])
unfolding take_inbox messages_of
take_inbox-deliver_all node ds t held e = (
  rw (deliver_all-inbox node ds t held e),
  rw (lookup-insert node node [] (deliver_all ds t).inbox, =?-refl node),
)
