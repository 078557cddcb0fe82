-- ===== src/Membership/Stability.antt =====
-- The stability score (MembershipService.swift, `smoothed`).
use native.Mathlib.Nat.{pow-suc}
use share_compute.Prelude.{ℕ, suc, ◌*◌, ◌^◌, ◌≤◌, ◌≡◌, arith}
use share_compute.Lease.{Score}
use share_compute.Membership.{smoothed}

-- A score lies between 0 and 1.
abbrev pub IsScore : Score → Type 0
IsScore c = c.digits ≤ 10 ^ c.places

-- Order of scores, by cross multiplication.
abbrev pub ScoreLe : Score → Score → Type 0
ScoreLe c d = c.digits * 10 ^ d.places ≤ d.digits * 10 ^ c.places

square_mono : (a b : ℕ) → a ≤ b → a * b ≤ b * b
square_mono a b h = grind arith

-- A heartbeat answered keeps the score between 0 and 1 and does not lower it; a missed one keeps it
-- there and does not raise it.
pub smoothed-IsScore :
    (c : Score)
    → IsScore c
    → IsScore (smoothed c 1)
      × ScoreLe c (smoothed c 1)
      × IsScore (smoothed c 0)
      × ScoreLe (smoothed c 0) c
unfolding smoothed
smoothed-IsScore c h =
    let q : 10 ^ suc c.places ≡ 10 ^ c.places * 10 = pow-suc 10 c.places in
    let square = square_mono c.digits (10 ^ c.places) h in
    (omega (arith, q), rw q (omega (arith, square)), omega (arith, q), rw q (omega arith))
