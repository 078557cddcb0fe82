-- ===== src/Planner/Apportion/Rounds.antt =====
-- The loops of `apportion` (StagePlanner.swift): their ends and totals.
use native.Mathlib.Nat.{mod-lt, div-add-mod}
use share_compute.Prelude.{
  ℕ, zero, suc, ◌+◌, ◌*◌, ◌/◌, ◌%◌, ◌≤◌, ◌<◌, Option, some, List, [], ◌∷◌, ◌≡◌, refl, ◌∙◌, inl, inr,
  arith, lt→ltb, length, sum, All, replicate, length-replicate, Option-cases,
}
use share_compute.Planner.Apportion.{
  bump, drop_one, bump_first, spread_evenly, first_starved, largest, feed, feed_all,
}
use share_compute.Planner.Apportion.Steps.{
  zeros, length-bump, sum-bump, first_starved-none, first_starved-some, get_elem?-lt, round,
  largest-none,
}

-- A result hands out `total` layers over `count` nodes.
abbrev pub HandsOut : ℕ → ℕ → List ℕ → Type 0
HandsOut total count r = (sum r ≡ total) × (length r ≡ count)

-- With a layer for each node, and fuel for each starved node, the loop ends, keeps the total, and
-- leaves nobody starved.
feed_total :
    (fuel : ℕ) (r : List ℕ)
    → zeros r < fuel
    → length r ≤ sum r
    → (r' : List ℕ) × (feed fuel r ≡ some r') × HandsOut (sum r) (length r) r' × All (λ x. 0 < x) r'
unfolding feed
feed_total zero r h p = absurd (omega arith)
feed_total (suc fuel) r h p = elim (Option-cases (first_starved r)) [
  | inl e ↦ rw (e, feed) (r, refl, (refl, refl), first_starved-none r e)
  | inr (i, e) ↦ elim (Option-cases (largest r)) [
    | inl f ↦ absurd (omega (arith, largest-none r f, get_elem?-lt i r (first_starved-some r i e)))
    | inr ((j, m), f) ↦
        let (two, total, count, fewer) = round r i j m e f p in
        let next = bump i (drop_one j r) in
        let (r', ends, (t, c), fed) =
          feed_total fuel next (omega (arith, fewer)) (omega (arith, total, count)) in
        rw (e, feed, f, lt→ltb 1 m two) (r', ends, (t ∙ total, c ∙ count), fed)
  ]
]

zeros-le : (r : List ℕ) → zeros r ≤ length r
unfolding zeros
zeros-le [] = omega arith
zeros-le (x ∷ r) = ground (arith, zeros-le r)

pub feed_all_total :
    (total count : ℕ) (o : Option (List ℕ)) (r : List ℕ)
    → o ≡ some r
    → HandsOut total count r
    → count ≤ total
    → (r' : List ℕ) × (feed_all o ≡ some r') × HandsOut total count r' × All (λ x. 0 < x) r'
feed_all_total total count o r e (t, c) h =
    let (r', ends, (t', c'), fed) =
      feed_total (suc (length r)) r (omega (arith, zeros-le r)) (omega arith) in
    rw e (r', ends, (t' ∙ t, c' ∙ c), fed)

-- Without weights the layers are spread as evenly as they can be.
bump_first_total :
    (count first : ℕ) (r : List ℕ)
    → first + count ≤ length r
    → HandsOut (sum r + count) (length r) (bump_first count first r)
unfolding bump_first
bump_first_total zero first r h = (omega arith, refl)
bump_first_total (suc count) first r h =
    let c = length-bump first r in
    let (t, l) = bump_first_total count (suc first) (bump first r) (omega (arith, c)) in
    (omega (arith, t, sum-bump first r (omega arith)), l ∙ c)

sum-replicate : (n q : ℕ) → sum (replicate n q) ≡ n * q
sum-replicate zero q = omega arith
sum-replicate (suc n) q = omega (arith, sum-replicate n q)

pub spread_evenly_total :
    (total count : ℕ) → 0 < count → HandsOut total count (spread_evenly total count)
unfolding spread_evenly
spread_evenly_total total count h =
    let l = length-replicate count (total / count) in
    let small : total % count < count = mod-lt total h in
    let split : count * (total / count) + total % count ≡ total = div-add-mod total count in
    let (t, c) =
      bump_first_total (total % count) 0 (replicate count (total / count))
        (omega (arith, l, small)) in
    (omega (arith, t, sum-replicate count (total / count), split), c ∙ l)
