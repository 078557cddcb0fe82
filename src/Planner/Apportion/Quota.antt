-- ===== src/Planner/Apportion/Quota.antt =====
-- The quota rule of `apportion` (StagePlanner.swift): floor or ceiling of the exact entitlement.
use share_compute.Prelude.{
  ℕ, zero, suc, ◌+◌, ◌-◌, ◌*◌, ◌/◌, ◌≤◌, ◌<◌, false, none, some, List, [], ◌∷◌, map, ◌≡◌, refl, ap,
  inl, inr, arith, ◌==◌, if◌then◌else◌, get_elem?, sum, sort_by, sum-sort_by, Bool-cases,
}
use share_compute.Planner.Apportion.{
  Double, bump, hand_out, feed, enumerated, precedes, fraction, largest_remainder, entitlements,
  first_starved, feed_all,
}
use share_compute.Planner.Apportion.Totals.{
  exact_limit, IsExact, whole_parts, whole-exact, ordered, All-le_sum,
}

-- How often an index occurs.
abbrev marks : ℕ → ℕ → ℕ
marks i j = if j == i then 1 else 0

occurrences : ℕ → List ℕ → ℕ
occurrences i js = sum (map (marks i) js)

get_elem?-bump :
    (i j : ℕ) (r : List ℕ) {x : ℕ}
    → get_elem? r i ≡ some x
    → get_elem? (bump j r) i ≡ some (x + marks i j)
unfolding bump
get_elem?-bump i j [] e = absurd (ground arith)
get_elem?-bump zero zero (y ∷ r) e = ground arith
get_elem?-bump zero (suc j) (y ∷ r) e = ground arith
get_elem?-bump (suc i) zero (y ∷ r) e = ground arith
get_elem?-bump (suc i) (suc j) (y ∷ r) e = ground (arith, get_elem?-bump i j r e)

-- Each node gains at most as many layers as the order names it.
hand_out-get :
    (count i : ℕ) (js r r' : List ℕ) (x : ℕ)
    → hand_out count js r ≡ some r'
    → get_elem? r i ≡ some x
    → (x' : ℕ) × (get_elem? r' i ≡ some x') × (x ≤ x') × (x' ≤ x + occurrences i js)
unfolding hand_out occurrences
hand_out-get zero i js r r' x e h = (x, ground arith, omega arith, omega arith)
hand_out-get (suc count) i [] r r' x e h = absurd (ground arith)
hand_out-get (suc count) i (j ∷ js) r r' x e h =
    let (x', f, low, high) =
      hand_out-get count i js (bump j r) r' (x + marks i j) e (get_elem?-bump i j r h) in
    (x', f, omega (arith, low), omega (arith, high))

enumerated-once {ℓ} :
    {A : Type ℓ} (i k : ℕ) (xs : List A)
    → (sum (map (λ p. marks i p.0) (enumerated k xs)) ≤ 1)
      × (i < k → sum (map (λ p. marks i p.0) (enumerated k xs)) ≡ 0)
unfolding enumerated
enumerated-once i k [] = (omega arith, λ h. refl)
enumerated-once i k (x ∷ xs) =
    let (once, before) = enumerated-once i (suc k) xs in
    elim (Bool-cases (k == i)) [
      | inl e ↦ rw e (omega (arith, before (ground arith)), λ h. absurd (ground arith))
      | inr e ↦ rw e (omega (arith, once), λ h. omega (arith, before (omega arith)))
    ]

map-firsts {ℓ} :
    {A : Type ℓ} (f : ℕ → ℕ) (ps : List (ℕ × A))
    → sum (map f (map (λ p. p.0) ps)) ≡ sum (map (λ p. f p.0) ps)
map-firsts f [] = refl
map-firsts f (p ∷ ps) = ap (λ n. f p.0 + n) (map-firsts f ps)

get_elem?-map :
    (f : ℕ → ℕ) (i : ℕ) (ws : List ℕ) {w : ℕ}
    → get_elem? ws i ≡ some w
    → get_elem? (map f ws) i ≡ some (f w)
get_elem?-map f i [] e = absurd (ground arith)
get_elem?-map f zero (v ∷ ws) e = ground arith
get_elem?-map f (suc i) (v ∷ ws) e = get_elem?-map f i ws e

feed-unstarved : (r : List ℕ) → first_starved r ≡ none → feed_all (some r) ≡ some r
unfolding feed
feed-unstarved r e = rw (e, feed)

module _ (F : Double) (exact_F : IsExact F) where
  occurrences-ordered : (i total : ℕ) (ws : List ℕ) → occurrences i (ordered F exact_F total ws) ≤ 1
  unfolding occurrences ordered
  occurrences-ordered i total ws =
      let fractions = enumerated 0 (map (fraction F total (sum ws)) ws) in
      omega (
        arith,
        map-firsts (marks i) (sort_by (precedes F) fractions),
        sum-sort_by (precedes F) (λ p. marks i p.0) fractions,
        (enumerated-once i 0 (map (fraction F total (sum ws)) ws)).0,
      )

  -- Where the weights are not all zero and the numbers are small enough for an exact `Double`,
  -- every entitlement is the floor of the exact proportional share, or one more.
  pub entitlements_quota :
      (total i : ℕ) (ws r : List ℕ) (w : ℕ)
      → 0 < sum ws
      → total * sum ws < exact_limit
      → entitlements F total ws ≡ some r
      → get_elem? ws i ≡ some w
      → (x : ℕ) × (get_elem? r i ≡ some x) × (total * w / sum ws ≤ x) × (x ≤ total * w / sum ws + 1)
  unfolding entitlements largest_remainder ordered
  entitlements_quota total i ws r w pos p e h =
      let some_weight : (sum ws == 0) ≡ false = ground arith in
      let handed : hand_out (total - sum (whole_parts total (sum ws) ws))
            (ordered F exact_F total ws) (whole_parts total (sum ws) ws)
          ≡ some r =
        rw
          (some_weight, entitlements, whole-exact F exact_F total (sum ws) ws pos p (All-le_sum ws))
          at e in
      let (x, f, low, high) =
        hand_out-get _ i _ _ r (total * w / sum ws) handed
          (get_elem?-map (λ v. total * v / sum ws) i ws h) in
      (x, f, low, omega (arith, high, occurrences-ordered i total ws))
