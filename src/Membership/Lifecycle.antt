-- ===== src/Membership/Lifecycle.antt =====
-- MembershipService.swift against what it promises of one node: the node is unknown, or it lives its
-- lifecycle (NodeState.swift). All the rest, leases, epochs and scores, is forgotten.
use mathlib.Core.Option as Option
use share_compute.Prelude.{
  Option, none, some, true, false, ◌≡◌, ◌≢◌, refl, subst, inl, inr, arith, lookup, insert,
  lookup-insert, string_eq, ◌=?◌, Bool-cases, Option-cases, List, [], ◌∷◌,
}
use share_compute.Capability.{NodeId, CapabilityProfile}
use share_compute.Node.{
  NodeState, NodeEvent, suspended, draining, next, apply, initial_state, entered_background,
  participates_in_planning,
}
use share_compute.Membership.{
  MembershipService, MemberRecord, store, is_suspended, is_draining, join_event,
}
use share_compute.Membership.History.{
  Call, appears, answers, fails, announces, applies, ticks, Entry,
}

-- The node that a call speaks of.
abbrev pub about : Call → Option NodeId
about (appears p) = some p.node_id
about (answers n) = some n
about (fails n) = some n
about (announces n) = some n
about (applies event n) = some n
about ticks = none

-- The specification: what one call does to one node.
--   * A call that speaks of another node leaves it alone, and so do a heartbeat that succeeds and one
--     that fails.
--   * A discovery gives an unknown or suspended node the initial state of its profile, and leaves any
--     other state alone.
--   * An announced drain and an applied event leave an unknown node unknown. The drain makes a
--     member of the ring a draining one, and leaves any other state alone; the event moves the node
--     along its edge of the state machine, if there is one.
--   * A tick suspends a draining node, suspends or keeps a member of the ring, and leaves a suspended
--     or unknown node alone.
pub data Follows (k : NodeId) : Call → Option NodeState → Option NodeState → Type 0 where
  of_another :
      (c : Call) (n : NodeId) (o : Option NodeState) → about c ≡ some n → n ≢ k → Follows k c o o
  answered : (o : Option NodeState) → Follows k (answers k) o o
  failed : (o : Option NodeState) → Follows k (fails k) o o
  discovered :
      (p : CapabilityProfile) → p.node_id ≡ k → Follows k (appears p) none (some (initial_state p))
  returns :
      (p : CapabilityProfile)
      → p.node_id ≡ k
      → Follows k (appears p) (some suspended) (some (initial_state p))
  known :
      (p : CapabilityProfile) (s : NodeState)
      → p.node_id ≡ k
      → is_suspended s ≡ false
      → Follows k (appears p) (some s) (some s)
  unknown_drain : Follows k (announces k) none none
  withdraws :
      (s : NodeState)
      → participates_in_planning s ≡ true
      → Follows k (announces k) (some s) (some draining)
  has_left :
      (s : NodeState)
      → participates_in_planning s ≡ false
      → Follows k (announces k) (some s) (some s)
  unknown_event : (e : NodeEvent) → Follows k (applies e k) none none
  moves :
      (e : NodeEvent) (s t : NodeState)
      → next s e ≡ some t
      → Follows k (applies e k) (some s) (some t)
  refuses :
      (e : NodeEvent) (s : NodeState) → next s e ≡ none → Follows k (applies e k) (some s) (some s)
  unknown_tick : Follows k ticks none none
  drains_out : Follows k ticks (some draining) (some suspended)
  evicts :
      (s : NodeState)
      → participates_in_planning s ≡ true
      → Follows k ticks (some s) (some suspended)
  keeps : (s : NodeState) → is_draining s ≡ false → Follows k ticks (some s) (some s)

-- A whole history, call by call.
pub data Life (k : NodeId) : List Entry → Option NodeState → Option NodeState → Type 0 where
  rests : (o : Option NodeState) → Life k [] o o
  follows :
      (e : Entry) (es : List Entry) (a b c : Option NodeState)
      → Follows k e.call a b
      → Life k es b c
      → Life k (e ∷ es) a c

abbrev pub state_of : NodeId → MembershipService → Option NodeState
state_of k s = Option.map (λ (r : MemberRecord). r.state) (lookup k s.storage)

-- A stored record changes its own node's state and no other's.
pub stored-Follows :
    (s : MembershipService) (c : Call) (k n : NodeId) (v : MemberRecord)
    → about c ≡ some n
    → Follows n c (state_of n s) (some v.state)
    → Follows k c (state_of k s) (state_of k (store s n v))
stored-Follows s c k n v speaks m = elim (Bool-cases (n =? k)) [
  | inr miss ↦
      let same : lookup k (insert n v s.storage) ≡ lookup k s.storage =
        rw miss at (lookup-insert n k v s.storage) in
      rw same (of_another c n (state_of k s) speaks (λ q. ground (arith, string_eq.beq_iff n k)))
  | inl hit ↦
      let here : n ≡ k = (string_eq.beq_iff n k).0 hit in
      let found : lookup k (insert n v s.storage) ≡ some v =
        rw hit at (lookup-insert n k v s.storage) in
      rw found (subst (λ j. Follows j c (state_of j s) (some v.state)) here m)
]

-- A call that stores nothing.
pub kept-Follows :
    (s : MembershipService) (c : Call) (k n : NodeId)
    → about c ≡ some n
    → Follows n c (state_of n s) (state_of n s)
    → Follows k c (state_of k s) (state_of k s)
kept-Follows s c k n speaks m = elim (Bool-cases (n =? k)) [
  | inr miss ↦ of_another c n (state_of k s) speaks (λ q. ground (arith, string_eq.beq_iff n k))
  | inl hit ↦
      subst (λ j. Follows j c (state_of j s) (state_of j s)) ((string_eq.beq_iff n k).0 hit) m
]

pub returned :
    (p : CapabilityProfile) (s : NodeState)
    → is_suspended s ≡ true
    → Follows p.node_id (appears p) (some s) (some (apply (join_event p) s).0)
unfolding apply next join_event initial_state
returned p suspended h =
    let back : (apply (join_event p) suspended).0 ≡ initial_state p = ground arith in
    rw back (returns p refl)
returned p s h = absurd (ground arith)

pub withdrawn :
    (k : NodeId) (s : NodeState)
    → (apply entered_background s).1 ≡ true
    → Follows k (announces k) (some s) (some (apply entered_background s).0)
unfolding apply next participates_in_planning
withdrawn k s h =
    let gone : (apply entered_background s).0 ≡ draining = ground arith in
    rw gone (withdraws s (ground arith))

pub not_withdrawn :
    (k : NodeId) (s : NodeState)
    → (apply entered_background s).1 ≡ false
    → Follows k (announces k) (some s) (some s)
unfolding apply next participates_in_planning
not_withdrawn k s h = has_left s (ground arith)

pub moved-Follows :
    (k : NodeId) (e : NodeEvent) (s : NodeState)
    → (apply e s).1 ≡ true
    → Follows k (applies e k) (some s) (some (apply e s).0)
unfolding apply
moved-Follows k e s h = elim (Option-cases (next s e)) [
  | inl q ↦ absurd (ground arith)
  | inr (t, q) ↦ rw (q, apply) (moves e s t q)
]

pub unmoved-Follows :
    (k : NodeId) (e : NodeEvent) (s : NodeState)
    → (apply e s).1 ≡ false
    → Follows k (applies e k) (some s) (some s)
unfolding apply
unmoved-Follows k e s h = elim (Option-cases (next s e)) [
  | inl q ↦ refuses e s q
  | inr (t, q) ↦ absurd (ground arith)
]
