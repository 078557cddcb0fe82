-- ===== src/Planner/Divergence.antt =====
-- Where StagePlanner.swift departs from its comments.
use share_compute.Prelude.{
  ℕ, zero, suc, ◌*◌, ◌/◌, ◌<◌, ◌≤◌, some, List, [], ◌∷◌, ◌≡◌, ap, arith, length, get_elem?, sum,
  All, string_eq,
}
use share_compute.Planner.Apportion.{Double, apportion}
use share_compute.Planner.Apportion.Steps.{get_elem?-lt}
use share_compute.Planner.Apportion.Totals.{IsExact, exact_limit, apportion_total}

sum-ge-length : (r : List ℕ) → All (λ x. 0 < x) r → length r ≤ sum r
sum-ge-length [] pos = omega arith
sum-ge-length (x ∷ r) pos = omega (arith, pos.0, sum-ge-length r pos.1)

each_one :
    (i : ℕ) (r : List ℕ)
    → All (λ x. 0 < x) r
    → sum r ≤ length r
    → i < length r
    → get_elem? r i ≡ some 1
each_one i [] pos h l = absurd (omega arith)
each_one zero (x ∷ r) pos h l =
    let e : x ≡ 1 = omega (arith, sum-ge-length r pos.1, pos.0) in ap some e
each_one (suc i) (x ∷ r) pos h l = each_one i r pos.1 (omega (arith, pos.0)) (omega arith)

-- Where the numbers are small enough for an exact `Double`, in a ring with as many nodes as layers
-- a node whose exact share is two layers or more gets less than the floor of its share.
pub apportion-below_quota :
    (F : Double) (ws : List ℕ) (i w : ℕ)
    → IsExact F
    → 0 < length ws
    → length ws * sum ws < exact_limit
    → get_elem? ws i ≡ some w
    → 2 ≤ length ws * w / sum ws
    → (r : List ℕ) × (x : ℕ) × (apportion F (length ws) ws ≡ some r)
      × (get_elem? r i ≡ some x)
      × (x < length ws * w / sum ws)
apportion-below_quota F ws i w exact_F n small e share =
    let (r, made, (total, count), pos) =
      apportion_total F exact_F (length ws) ws n (omega arith) small in
    (
      r,
      1,
      made,
      each_one i r pos (omega (arith, total, count)) (omega (arith, count, get_elem?-lt i ws e)),
      share,
    )
