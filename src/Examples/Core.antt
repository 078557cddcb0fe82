-- ===== src/Examples/Core.antt =====
-- Tests of Node, Lease and Transport.
use share_compute.Prelude.{List, [], ◌∷◌, ◌++◌, ◌≡◌, refl, lookup, string_eq}
use share_compute.Transport.{
  InProcessRingTransport, heartbeat, drain, Delivery, sends, broadcasts, take_inbox, messages_of,
}
use share_compute.Transport.Inboxes.{deliver_all, all_addressed, take_inbox-deliver_all}

abbrev inboxes : InProcessRingTransport
inboxes = record { inbox = ("a", heartbeat "a" ∷ []) ∷ []; broadcast_log = [] }

abbrev sent : List Delivery
sent = sends "b" (heartbeat "b") ∷ broadcasts (drain "c") ∷ sends "a" (heartbeat "a") ∷ []

take_inbox-deliver_all_example :
    let (t', taken) = take_inbox "a" (deliver_all sent inboxes) in
    (taken ≡ (heartbeat "a" ∷ []) ++ all_addressed "a" sent) × (messages_of "a" t' ≡ [])
unfolding lookup
take_inbox-deliver_all_example = take_inbox-deliver_all "a" sent inboxes (heartbeat "a" ∷ []) refl
