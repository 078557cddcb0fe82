-- ===== src/Script/Apportion.antt =====
-- `apportion` of scripts/four_platform_pool_lib.py. Python's `float` is `Double` with what the function
-- uses beyond it, a parameter. The loops step lists as those of StagePlanner.swift do, so they share
-- their steps (`bump`, `first_starved`, `largest`); `none` is a failed `assert`.
use share_compute.Prelude.{
  ℕ, zero, suc, ◌-◌, ◌*◌, ◌/◌, ◌%◌, Bool, ◌&&◌, Option, none, some, List, map, ltb, leb, ◌==◌,
  if◌then◌else◌, length, replicate, sum, sort_by,
}
use share_compute.Planner.Apportion.{
  Double, drop_one, bump, bump_first, hand_out, first_starved, largest, enumerated,
}

-- `a / b` of two integers, `-x` and `x < y`.
pub record Float : Type 1 where
  pub double : Double
  pub quotient : ℕ → ℕ → double.Value
  pub negate : double.Value → double.Value
  pub less : double.Value → double.Value → Bool

-- The `while True` loop: the first starved node is given a layer of the largest holder, with a layer
-- to spare. It takes fuel, as the loop of StagePlanner.swift does.
unfoldable pub relieve : ℕ → List ℕ → Option (List ℕ)
relieve zero result = none
relieve (suc fuel) result = elim (first_starved result) [
  | none ↦ some result
  | some starved ↦ elim (largest result) [
    | none ↦ none
    | some (most, layers) ↦
        let rest = relieve fuel (bump starved (drop_one most result)) in
        if leb layers 1 then some result else rest
  ]
]

abbrev pub relieve_all : Option (List ℕ) → Option (List ℕ)
relieve_all none = none
relieve_all (some result) = relieve (suc (length result)) result

module _ (F : Float) where
  -- `total * weight / total_weight`.
  unfoldable pub exact : ℕ → ℕ → ℕ → F.double.Value
  exact total total_weight weight = F.quotient (total * weight) total_weight

  -- `<` of the keys `(-item[1], item[0])`.
  unfoldable pub key_lt : ℕ × F.double.Value → ℕ × F.double.Value → Bool
  key_lt a b =
      if F.double.equal (F.negate a.1) (F.negate b.1)
      then ltb a.0 b.0
      else F.less (F.negate a.1) (F.negate b.1)

  unfoldable pub fraction : ℕ → ℕ → ℕ → F.double.Value
  unfolding exact
  fraction total total_weight weight =
      let whole = F.double.floor (exact total total_weight weight) in
      F.double.minus (exact total total_weight weight) (F.double.of_int whole)

  -- The rest of the function, for a total weight that is positive.
  unfoldable pub by_weight : ℕ → List ℕ → Option (List ℕ)
  unfolding exact fraction key_lt
  by_weight total weights =
      let total_weight = sum weights in
      let whole = map (λ w. F.double.floor (exact total total_weight w)) weights in
      let fractions = enumerated 0 (map (fraction total total_weight) weights) in
      relieve_all (hand_out (total - sum whole) (map (λ p. p.0) (sort_by key_lt fractions)) whole)

  unfoldable pub apportion : ℕ → List ℕ → Option (List ℕ)
  unfolding by_weight
  apportion total weights =
      let count = length weights in
      if ltb 0 count && leb count total
      then if sum weights == 0
        then some (bump_first (total % count) 0 (replicate count (total / count)))
        else by_weight total weights
      else none
