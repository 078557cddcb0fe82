-- ===== src/Examples/Floats.antt =====
-- A `float` for the tests: signed fractions of natural numbers, which are exact.
use share_compute.Prelude.{
  ℕ, ◌+◌, ◌*◌, ◌-◌, ◌/◌, ◌==◌, ltb, Bool, true, false, ◌&&◌, not, ◌≡◌, refl, ap, ap₂, arith,
}
use share_compute.Planner.Apportion.{Double}
use share_compute.Planner.Apportion.Totals.{IsExact}
use share_compute.Script.Apportion.{Float}
use share_compute.Script.Agreement.{IsFloat}
use share_compute.Script.Shards.{Gigabytes}

-- Signed fractions.
pub record Signed : Type 0 where
  pub is_negative : Bool
  pub top : ℕ
  pub bottom : ℕ

abbrev pub natural : ℕ → ℕ → Signed
natural a b = record { is_negative = false; top = a; bottom = b }

abbrev same_sign : Bool → Bool → Bool
same_sign true true = true
same_sign false false = true
same_sign _ _ = false

abbrev above : Bool → Bool → ℕ → ℕ → Bool
above false false a b = ltb b a
above false true a b = true
above true false a b = false
above true true a b = ltb a b

abbrev signed_greater : Signed → Signed → Bool
signed_greater a b = above a.is_negative b.is_negative (a.top * b.bottom) (b.top * a.bottom)

abbrev pub signed : Double
signed = record {
  Value = Signed;
  of_int = λ n. natural n 1;
  times = λ a b. record {
    is_negative = not (same_sign a.is_negative b.is_negative);
    top = a.top * b.top;
    bottom = a.bottom * b.bottom;
  };
  over = λ a b. record {
    is_negative = not (same_sign a.is_negative b.is_negative);
    top = a.top * b.bottom;
    bottom = a.bottom * b.top;
  };
  minus = λ a b. natural (a.top * b.bottom - b.top * a.bottom) (a.bottom * b.bottom);
  floor = λ a. a.top / a.bottom;
  equal = λ a b. same_sign a.is_negative b.is_negative && (a.top * b.bottom == b.top * a.bottom);
  greater = signed_greater;
}

abbrev pub python : Float
python = record {
  double = signed;
  quotient = natural;
  negate = λ a. record a { is_negative = not a.is_negative };
  less = λ a b. signed_greater b a;
}

same_sign-not : (s t : Bool) → same_sign (not s) (not t) ≡ same_sign s t
same_sign-not true true = refl
same_sign-not true false = refl
same_sign-not false true = refl
same_sign-not false false = refl

above-not : (s t : Bool) (a b : ℕ) → above (not t) (not s) b a ≡ above s t a b
above-not true true a b = refl
above-not true false a b = refl
above-not false true a b = refl
above-not false false a b = refl

pub python-IsFloat : IsFloat python
python-IsFloat = record {
  negated_equal = λ a b.
      ap (λ s. s && (a.top * b.bottom == b.top * a.bottom))
        (same_sign-not a.is_negative b.is_negative);
  negated_less = λ a b. above-not a.is_negative b.is_negative (a.top * b.bottom) (b.top * a.bottom);
  divides = λ a b c _ _ _ _ _.
      let top : a * b ≡ a * b * 1 = omega arith in
      let bottom : c ≡ 1 * c = omega arith in ap₂ natural top bottom;
}

pub signed-IsExact : IsExact signed
signed-IsExact a b c pos le small =
    let top : a * b * 1 ≡ a * b = omega arith in
    let bottom : 1 * 1 * c ≡ c = omega arith in rw (top, bottom)

-- The sum of two values that are not negative, which is all that the tests add, and 1e-9.
abbrev pub gigabytes : Gigabytes
gigabytes = record {
  float = python;
  plus = λ a b. natural (a.top * b.bottom + b.top * a.bottom) (a.bottom * b.bottom);
  tiny = natural 1 1000000000;
}
