-- ===== src/Planner/Apportion.antt =====
-- StagePlanner.swift, `apportion`: largest-remainder apportionment of layers. `Double` is a parameter:
-- its values and the operations that the function uses. `none` is a failed precondition or an index
-- out of range.
pub mod Steps
pub mod Rounds
pub mod Totals
pub mod Quota
use mathlib.Core.Option as Option
use share_compute.Prelude.{
  ℕ, zero, suc, ◌+◌, ◌-◌, ◌*◌, ◌/◌, ◌%◌, ◌<◌, Bool, true, false, ◌&&◌, Option, none, some, List, [],
  ◌∷◌, map, ltb, leb, ◌==◌, if◌then◌else◌, length, get_elem?, set, replicate, sum, sort_by,
}

pub record Double : Type 1 where
  pub Value : Type 0
  pub of_int : ℕ → Value
  pub times : Value → Value → Value
  pub over : Value → Value → Value
  pub minus : Value → Value → Value
  -- `Int(_.rounded(.down))`, of a value that is not negative.
  pub floor : Value → ℕ
  pub equal : Value → Value → Bool
  pub greater : Value → Value → Bool

-- `result[index] += 1`.
unfoldable pub bump : ℕ → List ℕ → List ℕ
bump i [] = []
bump zero (x ∷ xs) = (x + 1) ∷ xs
bump (suc i) (x ∷ xs) = x ∷ bump i xs

-- `result[index] -= 1`.
unfoldable pub drop_one : ℕ → List ℕ → List ℕ
drop_one i [] = []
drop_one zero (x ∷ xs) = (x - 1) ∷ xs
drop_one (suc i) (x ∷ xs) = x ∷ drop_one i xs

-- `for index in 0..<count { result[index] += 1 }`; here `first` is the index of the next round.
unfoldable pub bump_first : ℕ → ℕ → List ℕ → List ℕ
bump_first zero first result = result
bump_first (suc count) first result = bump_first count (suc first) (bump first result)

unfoldable pub spread_evenly : ℕ → ℕ → List ℕ
unfolding bump_first
spread_evenly total count = bump_first (total % count) 0 (replicate count (total / count))

-- `for offset in 0..<leftover { result[ordered[offset].index] += 1 }`.
unfoldable pub hand_out : ℕ → List ℕ → List ℕ → Option (List ℕ)
hand_out zero ordered result = some result
hand_out (suc leftover) [] result = none
hand_out (suc leftover) (i ∷ ordered) result = hand_out leftover ordered (bump i result)

-- `result.indices.first(where: { result[$0] == 0 })`.
unfoldable pub first_starved : List ℕ → Option ℕ
first_starved [] = none
first_starved (x ∷ xs) = if x == 0 then some 0 else Option.map suc (first_starved xs)

-- `result.indices.max(by:)`: the first index of the greatest count, and that count. `best` is the
-- greatest before `i`.
unfoldable pub largest_from : ℕ × ℕ → ℕ → List ℕ → ℕ × ℕ
largest_from best i [] = best
largest_from best i (x ∷ xs) = largest_from (if ltb best.1 x then (i, x) else best) (suc i) xs

unfoldable pub largest : List ℕ → Option (ℕ × ℕ)
largest [] = none
largest (x ∷ xs) = some (largest_from (0, x) 1 xs)

-- The loop that gives each starved node a layer of the largest holder. It takes fuel, and is `none`
-- where the fuel runs out; Planner/Apportion/Totals shows that one round for each node is enough.
unfoldable pub feed : ℕ → List ℕ → Option (List ℕ)
feed zero result = none
feed (suc fuel) result = elim (first_starved result) [
  | none ↦ some result
  | some starved ↦ elim (largest result) [
    | none ↦ some result
    | some (most, layers) ↦
        let rest = feed fuel (bump starved (drop_one most result)) in
        if ltb 1 layers then rest else some result
  ]
]

-- The loop with fuel for every node.
abbrev pub feed_all : Option (List ℕ) → Option (List ℕ)
feed_all none = none
feed_all (some result) = feed (suc (length result)) result

-- `weights.enumerated()`, from the index `i` on.
unfoldable pub enumerated {ℓ} : {A : Type ℓ} → ℕ → List A → List (ℕ × A)
enumerated i [] = []
enumerated i (x ∷ xs) = (i, x) ∷ enumerated (suc i) xs

module _ (F : Double) where
  open F use {Value, of_int, times, over, minus, floor, equal, greater}

  -- `Double(total) * Double(weight) / Double(totalWeight)`.
  unfoldable pub exact : ℕ → ℕ → ℕ → Value
  exact total total_weight weight =
      over (times (of_int total) (of_int weight)) (of_int total_weight)

  -- The order in which the left-over layers go round: by fraction, and by index where they tie.
  unfoldable pub precedes : ℕ × Value → ℕ × Value → Bool
  precedes a b = if equal a.1 b.1 then ltb a.0 b.0 else greater a.1 b.1

  unfoldable pub fraction : ℕ → ℕ → ℕ → Value
  unfolding exact
  fraction total total_weight weight =
      minus (exact total total_weight weight) (of_int (floor (exact total total_weight weight)))

  -- The branch for a positive total weight: the whole parts, and the left-over layers.
  unfoldable pub largest_remainder : ℕ → List ℕ → Option (List ℕ)
  unfolding exact fraction precedes
  largest_remainder total weights =
      let total_weight = sum weights in
      let whole = map (λ w. floor (exact total total_weight w)) weights in
      let fractions = enumerated 0 (map (fraction total total_weight) weights) in
      hand_out (total - sum whole) (map (λ p. p.0) (sort_by precedes fractions)) whole

  -- The counts before starved nodes are fed.
  unfoldable pub entitlements : ℕ → List ℕ → Option (List ℕ)
  entitlements total weights =
      if sum weights == 0
      then some (spread_evenly total (length weights))
      else largest_remainder total weights

  unfoldable pub apportion : ℕ → List ℕ → Option (List ℕ)
  apportion total weights =
      if ltb 0 (length weights) && leb (length weights) total
      then feed_all (entitlements total weights)
      else none
