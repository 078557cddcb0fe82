-- ===== src/Examples/Rational.antt =====
-- A `Double` for the tests: fractions of natural numbers, which are exact.
use share_compute.Prelude.{ℕ, ◌*◌, ◌-◌, ◌/◌, ◌≡◌, arith, ltb, ◌==◌}
use share_compute.Planner.Apportion.{Double}
use share_compute.Planner.Apportion.Totals.{IsExact}

abbrev pub rational : Double
rational = record {
  Value = ℕ × ℕ;
  of_int = λ n. (n, 1);
  times = λ a b. (a.0 * b.0, a.1 * b.1);
  over = λ a b. (a.0 * b.1, a.1 * b.0);
  minus = λ a b. (a.0 * b.1 - b.0 * a.1, a.1 * b.1);
  floor = λ a. a.0 / a.1;
  equal = λ a b. a.0 * b.1 == b.0 * a.1;
  greater = λ a b. ltb (b.0 * a.1) (a.0 * b.1);
}

pub rational-IsExact : IsExact rational
rational-IsExact a b c pos le small =
    let top : a * b * 1 ≡ a * b = omega arith in
    let bottom : 1 * c ≡ c = omega arith in rw (top, bottom)
