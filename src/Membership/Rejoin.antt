-- ===== src/Membership/Rejoin.antt =====
-- Discovery (MembershipService.swift, `nodeAppeared`): who is in the ring after it.
use share_compute.Prelude.{
  ℕ, ◌+◌, min, none, some, [], ◌∷◌, ◌≡◌, ◌⊎◌, refl, inl, inr, arith, lookup, string_eq,
}
use share_compute.Capability.{NodeId, CapabilityProfile, maximum_supportable_lease_duration}
use share_compute.Node.{suspended, draining, initial_state, apply}
use share_compute.Lease.{Lease, LeaseId}
use share_compute.Membership.{MembershipService, node_joined, MemberRecord, join_event, issue_lease}
use share_compute.Membership.Reports.{node_appeared}
use share_compute.Membership.Heartbeats.{lookup-insert_self}

-- The event by which a node joins again takes it from suspension to the state of a newcomer.
join_event-initial_state :
    (p : CapabilityProfile) → (apply (join_event p) suspended).0 ≡ initial_state p
unfolding apply join_event initial_state
join_event-initial_state p = ground arith

-- What a node that joins is given.
pub record HasJoined (s : MembershipService) (now : ℕ) (p : CapabilityProfile) (r : MemberRecord)
    : Type 0 where
  pub profile : r.profile ≡ p
  pub state : r.state ≡ initial_state p
  pub heard : r.consecutive_missed_heartbeats ≡ 0
  pub leased :
      (l : Lease) × (r.lease ≡ some l)
      × (l.epoch ≡ s.current_epoch)
      × (l.expires_at ≡ now + min s.config.lease_duration (maximum_supportable_lease_duration p))

-- A node that is unknown, or was suspended, joins by being discovered: it is announced, and has the
-- state of its profile, no missed heartbeats and a lease for the current epoch that lasts as long as
-- both the configuration and its operating system allow.
pub node_appeared-joins :
    (s : MembershipService) (uuid : NodeId → LeaseId) (now : ℕ) (p : CapabilityProfile)
    → (lookup p.node_id s.storage ≡ none)
      ⊎ ((old : MemberRecord) × (lookup p.node_id s.storage ≡ some old) × (old.state ≡ suspended))
    → ((node_appeared s uuid now p).1 ≡ node_joined p.node_id ∷ [])
      × ((r : MemberRecord) × (lookup p.node_id (node_appeared s uuid now p).0.storage ≡ some r)
          × HasJoined s now p r)
unfolding node_appeared issue_lease
node_appeared-joins s uuid now p (inl e) =
    rw (e, node_appeared)
      (
        refl,
        (
          _,
          lookup-insert_self p.node_id _ s.storage,
          record { profile = refl; state = refl; heard = refl; leased = (_, refl, refl, refl) },
        ),
      )
node_appeared-joins s uuid now p (inr (old, e, away)) =
    rw (e, node_appeared, away)
      (
        refl,
        (
          _,
          lookup-insert_self p.node_id _ s.storage,
          record {
            profile = refl;
            state = join_event-initial_state p;
            heard = refl;
            leased = (_, refl, refl, refl);
          },
        ),
      )

-- A node on its way out is not called back by being discovered: it keeps draining, and nothing is
-- announced.
pub node_appeared-draining :
    (s : MembershipService) (uuid : NodeId → LeaseId) (now : ℕ) (p : CapabilityProfile)
    (old : MemberRecord)
    → lookup p.node_id s.storage ≡ some old
    → old.state ≡ draining
    → ((node_appeared s uuid now p).1 ≡ [])
      × ((r : MemberRecord) × (lookup p.node_id (node_appeared s uuid now p).0.storage ≡ some r)
          × (r.state ≡ draining))
unfolding node_appeared
node_appeared-draining s uuid now p old e out =
    rw (e, node_appeared, out) (refl, (_, lookup-insert_self p.node_id _ s.storage, refl))
