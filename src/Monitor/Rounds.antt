-- ===== src/Monitor/Rounds.antt =====
-- The loop over the peers in a round of RingHealthMonitor.swift, seen from another node.
use share_compute.Prelude.{
  ℕ, false, Option, none, some, List, [], ◌∷◌, ◌≡◌, ◌≢◌, refl, ◌∙◌, inl, inr, arith, All, lookup,
  lookup-insert, string_eq, ◌=?◌, Bool-cases, Option-cases,
}
use share_compute.Capability.{NodeId, CapabilityProfile, ThermalState}
use share_compute.Lease.{LeaseId}
use share_compute.Membership.{MembershipService, MemberRecord, store, is_suspended}
use share_compute.Membership.Reports.{node_appeared, heartbeat_succeeded, heartbeat_failed}
use share_compute.Monitor.{HardwareProfile, Answer, from_hardware, appeared, probed, probed_all}

-- Another node's answer leaves a member alone.
pub record Untouched (k : NodeId) (s t : MembershipService) : Type 0 where
  pub found : lookup k t.storage ≡ lookup k s.storage
  pub config : t.config ≡ s.config

stored-Untouched :
    (k n : NodeId) (v : MemberRecord) (s : MembershipService) → n ≢ k → Untouched k s (store s n v)
stored-Untouched k n v s h =
    let miss : (n =? k) ≡ false = ground (arith, string_eq.beq_iff n k) in
    record { found = rw miss at (lookup-insert n k v s.storage); config = refl }

Untouched-refl : (k : NodeId) (s : MembershipService) → Untouched k s s
Untouched-refl k s = record { found = refl; config = refl }

Untouched-trans :
    (k : NodeId) {s t u : MembershipService} → Untouched k s t → Untouched k t u → Untouched k s u
Untouched-trans k p q = record { found = q.found ∙ p.found; config = q.config ∙ p.config }

node_appeared-Untouched :
    (k : NodeId) (s : MembershipService) (uuid : NodeId → LeaseId) (now : ℕ)
    (profile : CapabilityProfile)
    → profile.node_id ≢ k
    → Untouched k s (node_appeared s uuid now profile).0
unfolding node_appeared
node_appeared-Untouched k s uuid now profile h =
    elim (Option-cases (lookup profile.node_id s.storage)) [
      | inl e ↦ rw (e, node_appeared) (stored-Untouched k profile.node_id _ s h)
      | inr (v, e) ↦ elim (Bool-cases (is_suspended v.state)) [
        | inl b ↦ rw (e, node_appeared, b) (stored-Untouched k profile.node_id _ s h)
        | inr b ↦ rw (e, node_appeared, b) (stored-Untouched k profile.node_id _ s h)
      ]
    ]

heartbeat_succeeded-Untouched :
    (k n : NodeId) (s : MembershipService) (uuid : NodeId → LeaseId) (now : ℕ)
    → n ≢ k
    → Untouched k s (heartbeat_succeeded s uuid now n)
unfolding heartbeat_succeeded
heartbeat_succeeded-Untouched k n s uuid now h = elim (Option-cases (lookup n s.storage)) [
  | inl e ↦ rw (e, heartbeat_succeeded) (Untouched-refl k s)
  | inr (v, e) ↦ rw (e, heartbeat_succeeded) (stored-Untouched k n _ s h)
]

heartbeat_failed-Untouched :
    (k n : NodeId) (s : MembershipService) → n ≢ k → Untouched k s (heartbeat_failed s n)
unfolding heartbeat_failed
heartbeat_failed-Untouched k n s h = elim (Option-cases (lookup n s.storage)) [
  | inl e ↦ rw (e, heartbeat_failed) (Untouched-refl k s)
  | inr (v, e) ↦ rw (e, heartbeat_failed) (stored-Untouched k n _ s h)
]

appeared-Untouched :
    (hardware : Option HardwareProfile) (thermal : ThermalState) (k n : NodeId)
    (uuid : NodeId → LeaseId) (now : ℕ) (s : MembershipService)
    → n ≢ k
    → Untouched k s (appeared hardware thermal n uuid now s)
unfolding appeared from_hardware
appeared-Untouched none thermal k n uuid now s h = Untouched-refl k s
appeared-Untouched (some hardware) thermal k n uuid now s h =
    node_appeared-Untouched k s uuid now (from_hardware hardware n thermal) h

probed-Untouched :
    (a : Answer) (thermal : ThermalState) (k : NodeId) (uuid : NodeId → LeaseId)
    (s : MembershipService)
    → a.peer ≢ k
    → Untouched k s (probed a thermal uuid s)
unfolding probed
probed-Untouched a thermal k uuid s h = elim (Bool-cases a.alive) [
  | inl yes_alive ↦
      rw (probed, yes_alive)
        (Untouched-trans k (appeared-Untouched a.hardware thermal k a.peer uuid a.at s h) (
          heartbeat_succeeded-Untouched k a.peer (appeared a.hardware thermal a.peer uuid a.at s)
            uuid a.at h))
  | inr silent ↦ rw (probed, silent) (heartbeat_failed-Untouched k a.peer s h)
]

pub probed_all-Untouched :
    (answers : List Answer) (thermal : ThermalState) (k : NodeId) (uuid : NodeId → LeaseId)
    (s : MembershipService)
    → All (λ a. a.peer ≢ k) answers
    → Untouched k s (probed_all answers thermal uuid s)
unfolding probed_all
probed_all-Untouched [] thermal k uuid s h = Untouched-refl k s
probed_all-Untouched (a ∷ answers) thermal k uuid s h =
    Untouched-trans k (probed-Untouched a thermal k uuid s h.0)
      (probed_all-Untouched answers thermal k uuid (probed a thermal uuid s) h.1)
