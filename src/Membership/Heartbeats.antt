-- ===== src/Membership/Heartbeats.antt =====
-- Heartbeats, discovery and drains (MembershipService.swift): what each report does to its node.
use share_compute.Prelude.{
  ℕ, zero, suc, ◌+◌, ◌<◌, ◌≤◌, true, some, List, [], ◌∷◌, ◌≡◌, refl, ◌∙◌, arith, lookup, string_eq,
  lookup-insert, =?-refl, insert,
}
use share_compute.Capability.{NodeId}
use share_compute.Node.{participates_in_planning}
use share_compute.Lease.{Lease, LeaseId, is_valid}
use share_compute.Membership.{MembershipService, heartbeat_loss, MemberRecord, store, smoothed}
use share_compute.Membership.Reports.{heartbeat_failed}
use share_compute.Membership.Tick.{tick, verdict}
use share_compute.Membership.Evictions.{evictions_of, tick-evictions, due, silent, tick-evicts_iff}

pub lookup-insert_self :
    (k : NodeId) (r : MemberRecord) (m : List (NodeId × MemberRecord))
    → lookup k (insert k r m) ≡ some r
lookup-insert_self k r m = rw (lookup-insert k k r m, =?-refl k)

-- `count` failed heartbeats in a row.
unfoldable pub fail_times : ℕ → NodeId → MembershipService → MembershipService
fail_times zero k s = s
fail_times (suc count) k s = fail_times count k (heartbeat_failed s k)

-- What the failures make of the node's record.
record HasFailed (count : ℕ) (r r' : MemberRecord) : Type 0 where
  profile : r'.profile ≡ r.profile
  state : r'.state ≡ r.state
  lease : r'.lease ≡ r.lease
  misses : r'.consecutive_missed_heartbeats ≡ r.consecutive_missed_heartbeats + count

heartbeat_failed-store :
    (k : NodeId) (s : MembershipService) (r : MemberRecord)
    → lookup k s.storage ≡ some r
    → heartbeat_failed s k
      ≡ store s k (record r {
        consecutive_missed_heartbeats = r.consecutive_missed_heartbeats + 1;
        stability_score = smoothed r.stability_score 0;
      })
unfolding heartbeat_failed
heartbeat_failed-store k s r e = rw (e, heartbeat_failed)

fail_times-lookup :
    (count : ℕ) (k : NodeId) (s : MembershipService) (r : MemberRecord)
    → lookup k s.storage ≡ some r
    → (r' : MemberRecord) × (lookup k (fail_times count k s).storage ≡ some r')
      × HasFailed count r r'
      × ((fail_times count k s).config ≡ s.config)
unfolding fail_times
fail_times-lookup zero k s r e =
    (r, e, record { profile = refl; state = refl; lease = refl; misses = omega arith }, refl)
fail_times-lookup (suc count) k s r e =
    let again : MemberRecord = record r {
      consecutive_missed_heartbeats = r.consecutive_missed_heartbeats + 1;
      stability_score = smoothed r.stability_score 0;
    } in
    let (r', found, h, config) =
      fail_times-lookup count k (store s k again) again (lookup-insert_self k again s.storage) in
    rw (heartbeat_failed-store k s r e, fail_times)
      (
        r',
        found,
        record {
          profile = h.profile;
          state = h.state;
          lease = h.lease;
          misses = omega (arith, h.misses);
        },
        config,
      )

-- Silence is noticed: once a member of the ring has missed as many heartbeats in a row as the
-- configuration allows, the next tick evicts it, and for that reason.
pub silence_evicts :
    (s : MembershipService) (uuid : NodeId → LeaseId) (now count : ℕ) (k : NodeId)
    (r : MemberRecord)
    → lookup k s.storage ≡ some r
    → participates_in_planning r.state ≡ true
    → s.config.missed_heartbeats_before_eviction ≤ r.consecutive_missed_heartbeats + count
    → evictions_of k (tick (fail_times count k s) uuid now).1 ≡ heartbeat_loss ∷ []
silence_evicts s uuid now count k r e p h =
    let (r', found, f, config) = fail_times-lookup count k s r e in
    (tick-evicts_iff (fail_times count k s) uuid now k heartbeat_loss).0.1
      (r', found, silent (ground arith) (rw config (omega (arith, f.misses))))

-- Hysteresis: a member of the ring whose missed heartbeats in a row are still fewer than the
-- configuration allows, and whose lease runs, is not evicted by the next tick.
pub patience :
    (s : MembershipService) (uuid : NodeId → LeaseId) (now count : ℕ) (k : NodeId)
    (r : MemberRecord) (l : Lease)
    → lookup k s.storage ≡ some r
    → participates_in_planning r.state ≡ true
    → r.lease ≡ some l
    → now < l.expires_at
    → r.consecutive_missed_heartbeats + count < s.config.missed_heartbeats_before_eviction
    → evictions_of k (tick (fail_times count k s) uuid now).1 ≡ []
unfolding due verdict is_valid participates_in_planning
patience s uuid now count k r l e p q x h =
    let (r', found, f, config) = fail_times-lookup count k s r e in
    tick-evictions (fail_times count k s) uuid now k ∙ rw (found, due, config) (ground arith)
