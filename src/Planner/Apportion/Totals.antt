-- ===== src/Planner/Apportion/Totals.antt =====
-- What `apportion` (StagePlanner.swift) hands out: every layer, and a layer to everybody.
use native.Mathlib.Nat.{mod-lt, div-add-mod, le_of_mul-le-mul_left, lt_of_mul-lt-mul_left}
use share_compute.Prelude.{
  ℕ, zero, suc, ◌+◌, ◌-◌, ◌*◌, ◌/◌, ◌%◌, ◌^◌, ◌≤◌, ◌<◌, some, List, [], ◌∷◌, map, ◌≡◌, refl, sym,
  ap, ap₂, subst, ◌∙◌, inl, inr, arith, lt→ltb, le→leb, ◌==◌, length, sum, All, length-map, sort_by,
  Bool-cases, All-sort_by, length-sort_by,
}
use share_compute.Planner.Apportion.{
  Double, bump, spread_evenly, hand_out, enumerated, exact, precedes, fraction, largest_remainder,
  entitlements, apportion,
}
use share_compute.Planner.Apportion.Rounds.{HandsOut, feed_all_total, spread_evenly_total}
use share_compute.Planner.Apportion.Steps.{length-bump, sum-bump}

-- The largest integers below which `Double` is exact: 2 ^ 53.
abbrev pub exact_limit : ℕ
exact_limit = 2 ^ 53

-- What IEEE 754 gives for a quotient: integers below 2 ^ 53 and their product are exact, and a
-- correctly rounded quotient of such numbers, rounded down, is the quotient of the integers.
abbrev pub IsExact : Double → Type 0
IsExact F =
    (a b c : ℕ)
    → 0 < c
    → b ≤ c
    → a * c < exact_limit
    → F.floor (F.over (F.times (F.of_int a) (F.of_int b)) (F.of_int c)) ≡ a * b / c

-- The whole parts of the entitlements.
abbrev pub whole_parts : ℕ → ℕ → List ℕ → List ℕ
whole_parts total total_weight weights = map (λ w. total * w / total_weight) weights

sum-whole_parts :
    (total tw : ℕ) (ws : List ℕ)
    → tw * sum (whole_parts total tw ws) + sum (map (λ w. total * w % tw) ws) ≡ total * sum ws
sum-whole_parts total tw [] = omega arith
sum-whole_parts total tw (w ∷ ws) =
    omega (arith, div-add-mod (total * w) tw, sum-whole_parts total tw ws)

sum_mod-le :
    (total tw : ℕ) (ws : List ℕ)
    → 0 < tw
    → sum (map (λ w. total * w % tw) ws) + length ws ≤ tw * length ws
sum_mod-le total tw [] h = omega arith
sum_mod-le total tw (w ∷ ws) h = omega (arith, mod-lt (total * w) h, sum_mod-le total tw ws h)

length-pos : (ws : List ℕ) → 0 < sum ws → 0 < length ws
length-pos [] h = h
length-pos (w ∷ ws) h = omega arith

-- The layers left over are fewer than the nodes.
pub leftover-lt :
    (total : ℕ) (ws : List ℕ)
    → 0 < sum ws
    → (sum (whole_parts total (sum ws) ws) ≤ total)
      × (total - sum (whole_parts total (sum ws) ws) < length ws)
leftover-lt total ws h =
    let tw = sum ws in
    let whole = sum (whole_parts total tw ws) in
    let split = sum-whole_parts total tw ws in
    let small = sum_mod-le total tw ws h in
    let below : whole ≤ total = le_of_mul-le-mul_left {k = tw} (omega (arith, split)) h in
    let whole_again : total - whole + whole ≡ total = omega arith in
    let rest : tw * (total - whole) < tw * length ws =
      omega (arith, split, small, length-pos ws h, ap (λ t. tw * t) whole_again) in
    (below, lt_of_mul-lt-mul_left tw rest)

-- Handing out `count` layers by valid indices never runs out of them.
pub hand_out_total :
    (count : ℕ) (ordered r : List ℕ)
    → count ≤ length ordered
    → All (λ i. i < length r) ordered
    → (r' : List ℕ) × (hand_out count ordered r ≡ some r') × HandsOut (sum r + count) (length r) r'
unfolding hand_out
hand_out_total zero ordered r h a = (r, refl, (omega arith, refl))
hand_out_total (suc count) [] r h a = absurd (omega arith)
hand_out_total (suc count) (i ∷ ordered) r h a =
    let c = length-bump i r in
    let (r', e, (t, l)) =
      hand_out_total count ordered (bump i r) (omega arith)
        (subst (λ n. All (λ j. j < n) ordered) (sym c) a.1) in
    (r', e, (omega (arith, t, sum-bump i r a.0), l ∙ c))

-- The indices of an enumeration are those of the list.
pub enumerated_indices {ℓ} :
    {A : Type ℓ} (i n : ℕ) (xs : List A) → i + length xs ≤ n → All (λ p. p.0 < n) (enumerated i xs)
unfolding enumerated
enumerated_indices i n [] h = tt
enumerated_indices i n (x ∷ xs) h = (omega arith, enumerated_indices (suc i) n xs (omega arith))

length-enumerated {ℓ} : {A : Type ℓ} (i : ℕ) (xs : List A) → length (enumerated i xs) ≡ length xs
unfolding enumerated
length-enumerated i [] = refl
length-enumerated i (x ∷ xs) = ap suc (length-enumerated (suc i) xs)

All-firsts {ℓ} :
    {A : Type ℓ} (n : ℕ) (ps : List (ℕ × A))
    → All (λ p. p.0 < n) ps
    → All (λ i. i < n) (map (λ p. p.0) ps)
All-firsts n [] h = tt
All-firsts n (p ∷ ps) h = (h.0, All-firsts n ps h.1)

All-le-sum : (extra : ℕ) (ws : List ℕ) → All (λ w. w ≤ extra + sum ws) ws
All-le-sum extra [] = tt
All-le-sum extra (w ∷ ws) =
    (omega arith, subst (λ n. All (λ v. v ≤ n) ws) (omega arith) (All-le-sum (extra + w) ws))

-- No weight is above the total weight.
pub All-le_sum : (ws : List ℕ) → All (λ w. w ≤ sum ws) ws
All-le_sum ws =
    let e : 0 + sum ws ≡ sum ws = omega arith in
    subst (λ n. All (λ w. w ≤ n) ws) e (All-le-sum 0 ws)

module _ (F : Double) (exact_F : IsExact F) where
  pub whole-exact :
      (total tw : ℕ) (ws : List ℕ)
      → 0 < tw
      → total * tw < exact_limit
      → All (λ w. w ≤ tw) ws
      → map (λ w. F.floor (exact F total tw w)) ws ≡ whole_parts total tw ws
  unfolding exact
  whole-exact total tw [] h p a = refl
  whole-exact total tw (w ∷ ws) h p a =
      ap₂ (λ x xs. x ∷ xs) (exact_F total w tw h a.0 p) (whole-exact total tw ws h p a.1)

  unfoldable pub ordered : ℕ → List ℕ → List ℕ
  ordered total ws =
      map (λ p. p.0) (sort_by (precedes F) (enumerated 0 (map (fraction F total (sum ws)) ws)))

  ordered-length : (total : ℕ) (ws : List ℕ) → length (ordered total ws) ≡ length ws
  unfolding ordered
  ordered-length total ws =
      let fractions = map (fraction F total (sum ws)) ws in
      length-map (λ p. p.0) (sort_by (precedes F) (enumerated 0 fractions))
      ∙ length-sort_by (precedes F) (enumerated 0 fractions)
      ∙ length-enumerated 0 fractions
      ∙ length-map (fraction F total (sum ws)) ws

  ordered-indices : (total : ℕ) (ws : List ℕ) → All (λ i. i < length ws) (ordered total ws)
  unfolding ordered
  ordered-indices total ws =
      let fractions = map (fraction F total (sum ws)) ws in
      All-firsts (length ws) (sort_by (precedes F) (enumerated 0 fractions)) (
        All-sort_by (precedes F) (λ p. p.0 < length ws) (enumerated 0 fractions)
          (enumerated_indices 0 (length ws) fractions
            (omega (arith, length-map (fraction F total (sum ws)) ws))))

  -- The entitlements, before starved nodes are fed, add up to the layers.
  pub entitlements_total :
      (total : ℕ) (ws : List ℕ)
      → 0 < length ws
      → total * sum ws < exact_limit
      → (r : List ℕ) × (entitlements F total ws ≡ some r) × HandsOut total (length ws) r
  unfolding entitlements largest_remainder ordered
  entitlements_total total ws n p = elim (Bool-cases (sum ws == 0)) [
    | inl z ↦
        rw (entitlements, z)
          (spread_evenly total (length ws), refl, spread_evenly_total total (length ws) n)
    | inr z ↦
        let pos : 0 < sum ws = ground arith in
        let (below, few) = leftover-lt total ws pos in
        let count : length (whole_parts total (sum ws) ws) ≡ length ws = length-map _ ws in
        let (r, e, (t, l)) =
          hand_out_total (total - sum (whole_parts total (sum ws) ws)) (ordered total ws)
            (whole_parts total (sum ws) ws) (omega (arith, few, ordered-length total ws))
            (subst (λ k. All (λ i. i < k) (ordered total ws)) (sym count)
              (ordered-indices total ws)) in
        rw (entitlements, z, whole-exact total (sum ws) ws pos p (All-le_sum ws))
          (r, e, (omega (arith, t, below), l ∙ count))
  ]

  -- Where there is a node, and a layer for each, and the numbers are small enough for an exact
  -- `Double`, `apportion` returns: it hands out every layer, to all the nodes, and no node is left
  -- without a layer.
  pub apportion_total :
      (total : ℕ) (ws : List ℕ)
      → 0 < length ws
      → length ws ≤ total
      → total * sum ws < exact_limit
      → (r : List ℕ) × (apportion F total ws ≡ some r)
        × HandsOut total (length ws) r
        × All (λ layers. 0 < layers) r
  unfolding apportion
  apportion_total total ws n h p =
      let (r, e, good) = entitlements_total total ws n p in
      let result = feed_all_total total (length ws) (entitlements F total ws) r e good h in
      rw (apportion, lt→ltb 0 (length ws) n, le→leb (length ws) total h) result
