-- ===== src/Membership/Unordered.antt =====
-- MembershipService.swift keeps its members in a dictionary, whose order is not specified. No operation
-- sees that order.
use share_compute.Prelude.{
  ℕ, Option, some, List, ◌≡◌, ◌≢◌, refl, sym, subst, ◌∙◌, inl, inr, AllBindings, AllBindings-insert,
  AllBindings-lookup, lookup, keys, values, sort_by, map, string_eq, Bool-cases, Option-cases,
}
use share_compute.Prelude.Reorder.{
  Reorders, filter-Reorders, sort_by-Reorders, SameDict, lookup-SameDict, insert-SameDict,
  keys-SameDict, AllBindings-SameDict,
}
use share_compute.Capability.{NodeId, id_lt, CapabilityProfile}
use share_compute.Capability.Order.{id_lt_trans, id_lt_total}
use share_compute.Node.{NodeEvent, entered_background, apply, participates_in_planning}
use share_compute.Lease.{LeaseId}
use share_compute.Membership.{
  MembershipService, MembershipEvent, MemberRecord, Storage, PlannedMember, member_id,
  planning_members, planned, store, is_suspended,
}
use share_compute.Membership.Reports.{
  node_appeared, heartbeat_succeeded, heartbeat_failed, node_announced_drain, apply_event,
}
use share_compute.Membership.Tick.{visit, evicted, verdict}

-- The members are stored under their own identities.
abbrev pub Own : NodeId → MemberRecord → Type 0
Own k r = r.profile.node_id ≡ k

-- One service with its dictionary in two orders.
pub record SameRing (s t : MembershipService) : Type 0 where
  pub rest : t ≡ record s { storage = t.storage }
  pub members : SameDict s.storage t.storage
  pub own : AllBindings Own s.storage

planned-Reorders :
    {m n : Storage}
    → SameDict m n
    → AllBindings Own m
    → Reorders (λ (a b : MemberRecord). a.profile.node_id ≢ b.profile.node_id) (values m) (values n)
planned-Reorders Reorders.nil h = Reorders.nil
planned-Reorders (Reorders.cons b r) h = Reorders.cons b.1 (planned-Reorders r h.1)
planned-Reorders (Reorders.swap a b m q) h =
    Reorders.swap a.1 b.1 (values m) (λ e. q (sym h.0 ∙ e ∙ h.1.0))
planned-Reorders (Reorders.trans r s) h =
    Reorders.trans (planned-Reorders r h) (planned-Reorders s (AllBindings-SameDict Own r h))

map-Reorders :
    {l r : List MemberRecord}
    → Reorders (λ (a b : MemberRecord). a.profile.node_id ≢ b.profile.node_id) l r
    → Reorders (λ (a b : PlannedMember). member_id a ≢ member_id b) (map planned l) (map planned r)
unfolding member_id planned
map-Reorders Reorders.nil = Reorders.nil
map-Reorders (Reorders.cons b r) = Reorders.cons (planned b) (map-Reorders r)
map-Reorders (Reorders.swap a b m q) = Reorders.swap (planned a) (planned b) (map planned m) q
map-Reorders (Reorders.trans r s) = Reorders.trans (map-Reorders r) (map-Reorders s)

-- What the planner is offered does not depend on the dictionary's order.
pub planning_members-SameDict :
    {m n : Storage} → SameDict m n → AllBindings Own m → planning_members m ≡ planning_members n
unfolding planning_members
planning_members-SameDict r h =
    sort_by-Reorders _ (λ x y z. id_lt_trans (member_id x) (member_id y) (member_id z))
      (λ (a b : PlannedMember). member_id a ≢ member_id b)
      (λ x y. id_lt_total (member_id x) (member_id y))
      (map-Reorders
        (filter-Reorders _ (λ q. participates_in_planning q.state) (planned-Reorders r h)))

pub sorted_keys-SameDict :
    {m n : Storage} → SameDict m n → sort_by id_lt (keys m) ≡ sort_by id_lt (keys n)
sorted_keys-SameDict r =
    sort_by-Reorders id_lt id_lt_trans (λ a b. a ≢ b) id_lt_total (keys-SameDict r)

-- To show something of a service in another order it is enough to change the storage.
pub by_storage :
    (P : MembershipService → Type 0) (s t : MembershipService)
    → SameRing s t
    → P (record s { storage = t.storage })
    → P t
by_storage P s t h = subst P (sym h.rest)

-- An operation gives the same answer, and services that agree again.
abbrev pub Agrees {ℓ} : {A : Type ℓ} → MembershipService × A → MembershipService × A → Type ℓ
Agrees p q = SameRing p.0 q.0 × (p.1 ≡ q.1)

module _ (s : MembershipService) (m : Storage) (r : SameDict s.storage m)
    (own : AllBindings Own s.storage) where
  abbrev t : MembershipService
  t = record s { storage = m }

  unchanged : SameRing s t
  unchanged = record { rest = refl; members = r; own = own }

  stored : (k : NodeId) (v : MemberRecord) → Own k v → SameRing (store s k v) (store t k v)
  stored k v h = record {
    rest = refl;
    members = insert-SameDict k v r;
    own = AllBindings-insert Own k v s.storage h own;
  }

  there : (k : NodeId) {o : Option MemberRecord} → lookup k s.storage ≡ o → lookup k m ≡ o
  there k e = sym (lookup-SameDict k r) ∙ e

  found-Own : (k : NodeId) {v : MemberRecord} → lookup k s.storage ≡ some v → Own k v
  found-Own k e = AllBindings-lookup Own k s.storage own e

  pub node_appeared-Agrees :
      (uuid : NodeId → LeaseId) (now : ℕ) (profile : CapabilityProfile)
      → Agrees (node_appeared s uuid now profile) (node_appeared t uuid now profile)
  unfolding node_appeared
  node_appeared-Agrees uuid now profile = elim (Option-cases (lookup profile.node_id s.storage)) [
    | inl e ↦ rw (e, there _ e, node_appeared) (stored _ _ refl, refl)
    | inr (v, e) ↦ elim (Bool-cases (is_suspended v.state)) [
      | inl away ↦ rw (e, there _ e, node_appeared, away) (stored _ _ refl, refl)
      | inr present ↦ rw (e, there _ e, node_appeared, present) (stored _ _ refl, refl)
    ]
  ]

  pub heartbeat_succeeded-SameRing :
      (uuid : NodeId → LeaseId) (now : ℕ) (k : NodeId)
      → SameRing (heartbeat_succeeded s uuid now k) (heartbeat_succeeded t uuid now k)
  unfolding heartbeat_succeeded
  heartbeat_succeeded-SameRing uuid now k = elim (Option-cases (lookup k s.storage)) [
    | inl e ↦ rw (e, there _ e, heartbeat_succeeded) unchanged
    | inr (v, e) ↦ elim (Bool-cases (participates_in_planning v.state)) [
      | inl p ↦ rw (e, there _ e, heartbeat_succeeded, p) (stored _ _ (found-Own k e))
      | inr p ↦ rw (e, there _ e, heartbeat_succeeded, p) (stored _ _ (found-Own k e))
    ]
  ]

  pub heartbeat_failed-SameRing :
      (k : NodeId) → SameRing (heartbeat_failed s k) (heartbeat_failed t k)
  unfolding heartbeat_failed
  heartbeat_failed-SameRing k = elim (Option-cases (lookup k s.storage)) [
    | inl e ↦ rw (e, there _ e, heartbeat_failed) unchanged
    | inr (v, e) ↦ rw (e, there _ e, heartbeat_failed) (stored _ _ (found-Own k e))
  ]

  pub node_announced_drain-Agrees :
      (now : ℕ) (k : NodeId) → Agrees (node_announced_drain s now k) (node_announced_drain t now k)
  unfolding node_announced_drain
  node_announced_drain-Agrees now k = elim (Option-cases (lookup k s.storage)) [
    | inl e ↦ rw (e, there _ e, node_announced_drain) (unchanged, refl)
    | inr (v, e) ↦ elim (Bool-cases (apply entered_background v.state).1) [
      | inl b ↦ rw (e, there _ e, node_announced_drain, b) (stored _ _ (found-Own k e), refl)
      | inr b ↦ rw (e, there _ e, node_announced_drain, b) (unchanged, refl)
    ]
  ]

  pub apply_event-Agrees :
      (event : NodeEvent) (k : NodeId) → Agrees (apply_event s event k) (apply_event t event k)
  unfolding apply_event
  apply_event-Agrees event k = elim (Option-cases (lookup k s.storage)) [
    | inl e ↦ rw (e, there _ e, apply_event) (unchanged, refl)
    | inr (v, e) ↦ elim (Bool-cases (apply event v.state).1) [
      | inl b ↦ rw (e, there _ e, apply_event, b) (stored _ _ (found-Own k e), refl)
      | inr b ↦ rw (e, there _ e, apply_event, b) (unchanged, refl)
    ]
  ]

  pub visit-Agrees :
      (now : ℕ) (k : NodeId) (events : List MembershipEvent)
      → Agrees (visit now k (s, events)) (visit now k (t, events))
  unfolding visit evicted
  visit-Agrees now k events = elim (Option-cases (lookup k s.storage)) [
    | inl e ↦ rw (e, there _ e, visit) (unchanged, refl)
    | inr (v, e) ↦ elim (Option-cases (verdict s.config now v)) [
      | inl q ↦ rw (e, there _ e, visit, q) (unchanged, refl)
      | inr (reason, q) ↦ rw (e, there _ e, visit, q) (stored _ _ (found-Own k e), refl)
    ]
  ]
