-- ===== src/Lease/Headroom.antt =====
-- When a lease authorises a stage (Sources/ShareComputeCore/Lease.swift).
use share_compute.Prelude.{ℕ, ◌+◌, ◌-◌, ◌<◌, ◌≤◌, true, ◌≡◌, ◌↔◌, arith}
use share_compute.Capability.{StageType}
use share_compute.Lease.{Lease, Score, is_valid, allows, can_host, renewed}

-- A lease authorises a stage exactly when it names the stage's type and the stage, started now, ends
-- strictly before the lease does.
pub can_host_iff :
    (l : Lease) (stage : StageType) (duration now : ℕ)
    → (can_host l stage duration now ≡ true)
      ↔ ((allows l stage ≡ true) × (now + duration < l.expires_at))
unfolding can_host
can_host_iff l stage duration now = ((λ h. (ground arith, ground arith)), (λ h. ground arith))

-- A stage that a lease authorises still has room at every moment of its run: after `t` of its
-- duration the lease is valid, authorises the rest, and would do so after a renewal that does not
-- shorten it.
pub can_host-renewed :
    (l : Lease) (stage : StageType) (duration now t expiry : ℕ) (score : Score)
    → can_host l stage duration now ≡ true
    → t ≤ duration
    → l.expires_at ≤ expiry
    → (is_valid l (now + t) ≡ true)
      × (can_host (renewed l expiry score) stage (duration - t) (now + t) ≡ true)
unfolding can_host renewed
can_host-renewed l stage duration now t expiry score h p q = ground arith
