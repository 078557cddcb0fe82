-- ===== src/Script/Agreement.antt =====
-- `apportion` of scripts/four_platform_pool_lib.py and of StagePlanner.swift agree.
use native.Mathlib.Nat.{div-add-mod, mod-lt}
use mathlib.Core.Path.{fun_ext}
use share_compute.Prelude.{
  ℕ, zero, suc, ◌+◌, ◌*◌, ◌/◌, ◌%◌, ◌<◌, ◌≤◌, Option, none, some, List, [], ◌∷◌, map, ◌≡◌, refl,
  sym, ap₂, inl, inr, arith, ltb, leb, ltb→lt, leb→le, ◌==◌, length, replicate, sum, All,
  Bool-cases, Option-cases,
}
use share_compute.Planner.Apportion as Swift
use share_compute.Planner.Apportion.{
  Double, bump, bump_first, drop_one, feed, feed_all, first_starved, hand_out, largest,
  largest_from, enumerated, spread_evenly, precedes, entitlements, largest_remainder,
}
use share_compute.Planner.Apportion.Totals.{exact_limit}
use share_compute.Script.Apportion.{
  Float, relieve, relieve_all, exact, key_lt, fraction, by_weight, apportion,
}

-- What IEEE 754 gives: negation turns the order round, and the quotient of two integers is the quotient
-- of their values where all the integers are below 2 ^ 53, so that these are exact, and the divisor is
-- not zero.
pub record IsFloat (F : Float) : Type 0 where
  pub negated_equal :
      (a b : F.double.Value) → F.double.equal (F.negate a) (F.negate b) ≡ F.double.equal a b
  pub negated_less :
      (a b : F.double.Value) → F.less (F.negate a) (F.negate b) ≡ F.double.greater a b
  pub divides :
      (a b c : ℕ)
      → a < exact_limit
      → b < exact_limit
      → a * b < exact_limit
      → 0 < c
      → c < exact_limit
      → F.quotient (a * b) c
        ≡ F.double.over (F.double.times (F.double.of_int a) (F.double.of_int b)) (F.double.of_int c)

-- Both loops take the same steps: a list with a starved node has a largest holder.
relieve-feed : (fuel : ℕ) (r : List ℕ) → relieve fuel r ≡ feed fuel r
unfolding relieve feed first_starved largest
relieve-feed zero r = refl
relieve-feed (suc fuel) [] = refl
relieve-feed (suc fuel) (x ∷ xs) = elim (Option-cases (first_starved (x ∷ xs))) [
  | inl e ↦ rw (e, relieve, feed) refl
  | inr (i, e) ↦
      let (most, layers) = largest_from (0, x) 1 xs in
      let next = relieve-feed fuel (bump i (drop_one most (x ∷ xs))) in
      rw (e, relieve, feed) (ground (arith, next))
]

All-bump : (i : ℕ) (r : List ℕ) → All (λ x. 0 < x) r → All (λ x. 0 < x) (bump i r)
unfolding bump
All-bump i [] h = tt
All-bump zero (x ∷ r) h = (omega arith, h.1)
All-bump (suc i) (x ∷ r) h = (h.0, All-bump i r h.1)

All-bump_first :
    (count first : ℕ) (r : List ℕ)
    → All (λ x. 0 < x) r
    → All (λ x. 0 < x) (bump_first count first r)
unfolding bump_first
All-bump_first zero first r h = h
All-bump_first (suc count) first r h =
    All-bump_first count (suc first) (bump first r) (All-bump first r h)

All-replicate : (n q : ℕ) → 0 < q → All (λ x. 0 < x) (replicate n q)
All-replicate zero q h = tt
All-replicate (suc n) q h = (h, All-replicate n q h)

not_starved : (r : List ℕ) → All (λ x. 0 < x) r → first_starved r ≡ none
unfolding first_starved
not_starved [] h = refl
not_starved (x ∷ r) h = ground (arith, not_starved r h.1)

-- With a layer for each node nobody is starved by an even spread.
spread-fed :
    (total count : ℕ)
    → 0 < count
    → count ≤ total
    → feed_all (some (spread_evenly total count)) ≡ some (spread_evenly total count)
unfolding feed spread_evenly
spread-fed total count pos h =
    let share = div-pos total count pos h in
    let fed =
      All-bump_first (total % count) 0 (replicate count (total / count))
        (All-replicate count (total / count) share) in
    rw (feed, not_starved _ fed) refl
  where
    div-pos : (t c : ℕ) → 0 < c → c ≤ t → 0 < t / c
    div-pos t c p q = grind (arith, div-add-mod t c, mod-lt t p)

relieve_all-feed_all : (o : Option (List ℕ)) → relieve_all o ≡ feed_all o
relieve_all-feed_all none = refl
relieve_all-feed_all (some r) = relieve-feed (suc (length r)) r

-- Numbers that a `float` holds exactly, as it holds their product.
abbrev Small : ℕ → ℕ → Type 0
Small total w = (total < exact_limit) × (w < exact_limit) × (total * w < exact_limit)

-- A total weight that divides, and that a `float` holds exactly.
abbrev Divides : ℕ → Type 0
Divides tw = (0 < tw) × (tw < exact_limit)

module _ (F : Float) (good : IsFloat F) where
  same_exact :
      (total w tw : ℕ)
      → Small total w
      → Divides tw
      → exact F total tw w ≡ Swift.exact F.double total tw w
  unfolding exact Swift.exact
  same_exact total w tw (t, v, h) (pos, d) = good.divides total w tw t v h pos d

  same_key : (a b : ℕ × F.double.Value) → key_lt F a b ≡ precedes F.double a b
  unfolding key_lt precedes
  same_key a b = rw (good.negated_equal a.1 b.1, good.negated_less a.1 b.1) refl

  same_floors :
      (total tw : ℕ) (ws : List ℕ)
      → Divides tw
      → All (Small total) ws
      → map (λ w. F.double.floor (exact F total tw w)) ws
        ≡ map (λ w. F.double.floor (Swift.exact F.double total tw w)) ws
  same_floors total tw [] d h = refl
  same_floors total tw (w ∷ ws) d h =
      ap₂ (λ x (xs : List ℕ). F.double.floor x ∷ xs) (same_exact total w tw h.0 d)
        (same_floors total tw ws d h.1)

  same_fractions :
      (total tw : ℕ) (ws : List ℕ)
      → Divides tw
      → All (Small total) ws
      → map (fraction F total tw) ws ≡ map (Swift.fraction F.double total tw) ws
  unfolding fraction Swift.fraction
  same_fractions total tw [] d h = refl
  same_fractions total tw (w ∷ ws) d h =
      ap₂
        (λ x (xs : List F.double.Value). F.double.minus x (F.double.of_int (F.double.floor x)) ∷ xs)
        (same_exact total w tw h.0 d) (same_fractions total tw ws d h.1)

  Small-parts :
      (total : ℕ) (ws : List ℕ)
      → total < exact_limit
      → sum ws < exact_limit
      → total * sum ws < exact_limit
      → All (Small total) ws
  Small-parts total [] t b h = tt
  Small-parts total (w ∷ ws) t b h =
      let part : total * w + total * sum ws ≡ total * (w + sum ws) = grind arith in
      (
        (t, omega arith, omega (arith, part)),
        Small-parts total ws t (omega arith) (omega (arith, part)),
      )

  -- A product bounds its factors that are not zero.
  below_limit :
      (a b : ℕ) → 0 < a → 0 < b → a * b < exact_limit → (a < exact_limit) × (b < exact_limit)
  below_limit a b p q h =
      let left : a ≤ a * b = grind arith in
      let right : b ≤ a * b = grind arith in (omega (arith, left), omega (arith, right))

  same_order : key_lt F ≡ precedes F.double
  same_order = fun_ext (λ a. fun_ext (λ b. same_key a b))

  by_weight-largest_remainder :
      (total : ℕ) (ws : List ℕ)
      → 0 < total
      → 0 < sum ws
      → total * sum ws < exact_limit
      → by_weight F total ws ≡ feed_all (largest_remainder F.double total ws)
  unfolding by_weight largest_remainder
  by_weight-largest_remainder total ws t d h =
      let (small_total, small_sum) = below_limit total (sum ws) t d h in
      let parts = Small-parts total ws small_total small_sum h in
      let tw : Divides (sum ws) = (d, small_sum) in
      rw
        (
          same_order,
          same_floors total (sum ws) ws tw parts,
          same_fractions total (sum ws) ws tw parts,
        )
        (relieve_all-feed_all _)

  -- The Python demo apportions layers exactly as the Swift planner does, where the numbers are small
  -- enough for a `float` to be exact: it skips the pass for starved nodes when no node has a weight, but
  -- an even spread starves nobody.
  pub apportion-same :
      (total : ℕ) (ws : List ℕ)
      → total * sum ws < exact_limit
      → apportion F total ws ≡ Swift.apportion F.double total ws
  unfolding apportion Swift.apportion entitlements bump_first spread_evenly
  apportion-same total ws h = elim (Bool-cases (ltb 0 (length ws))) [
    | inr e ↦ rw (e, apportion, Swift.apportion) refl
    | inl pos ↦ elim (Bool-cases (leb (length ws) total)) [
      | inr e ↦ rw (pos, e, apportion, Swift.apportion) refl
      | inl room ↦ elim (Bool-cases (sum ws == 0)) [
        | inl e ↦
            rw (pos, room, e, apportion, Swift.apportion)
              (sym (spread-fed total (length ws) (ltb→lt _ _ pos) (leb→le _ _ room)))
        | inr e ↦
            let layers : 0 < total = omega (arith, ltb→lt _ _ pos, leb→le _ _ room) in
            let weight : 0 < sum ws = ground arith in
            rw (pos, room, e, apportion, Swift.apportion)
              (by_weight-largest_remainder total ws layers weight h)
      ]
    ]
  ]
