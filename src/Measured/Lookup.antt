-- ===== src/Measured/Lookup.antt =====
-- The row that `at` finds (analyze_decode_window.py).
use share_compute.Prelude.{
  ℕ, ◌≤◌, ◌<◌, false, some, List, [], ◌∷◌, ◌++◌, leb, All, Bool-cases, ◌≡◌, refl, ap, inl, inr,
  arith,
}
use share_compute.Measured.{Row, latest, at}
use share_compute.Measured.Windows.{Grows}

later_rows :
    (t : ℕ) (a : Row) (rows : List Row) → t < a.time → Grows a rows → All (λ r. t < r.time) rows
later_rows t a [] h g = tt
later_rows t a (r ∷ rows) h g =
    let late : t < r.time = omega (arith, h, g.0.time) in (late, later_rows t r rows late g.1)

latest-later :
    (t : ℕ) (a : Row) (rows : List Row) → All (λ r. t < r.time) rows → latest t a rows ≡ a
unfolding latest
latest-later t a [] h = refl
latest-later t a (r ∷ rows) h =
    let late : leb r.time t ≡ false = ground (arith, h.0) in
    rw (late, latest) (latest-later t a rows h.1)

-- The best row splits the log in what is before it and what is later than `t`.
pub record Splits (t : ℕ) (rows : List Row) (b : Row) : Type 0 where
  pub before : List Row
  pub after : List Row
  pub whole : rows ≡ before ++ b ∷ after
  pub early : b.time ≤ t
  pub late : All (λ r. t < r.time) after

latest-Splits :
    (t : ℕ) (a : Row) (rows : List Row)
    → Grows a rows
    → a.time ≤ t
    → Splits t (a ∷ rows) (latest t a rows)
unfolding latest
latest-Splits t a [] g h = record { before = []; after = []; whole = refl; early = h; late = tt }
latest-Splits t a (r ∷ rows) g h = elim (Bool-cases (leb r.time t)) [
  | inl in_time ↦
      let rest = latest-Splits t r rows g.1 (ground arith) in
      rw (in_time, latest)
        (record {
          before = a ∷ rest.before;
          after = rest.after;
          whole = ap (λ xs. a ∷ xs) rest.whole;
          early = rest.early;
          late = rest.late;
        })
  | inr too_late ↦
      let late : t < r.time = ground arith in
      let rows_late = later_rows t r rows late g.1 in
      rw (too_late, latest, latest-later t a rows rows_late)
        (record {
          before = [];
          after = r ∷ rows;
          whole = refl;
          early = h;
          late = (late, rows_late);
        })
]

-- In a log whose rows are in order and whose counters never fall, the row found for a time that is
-- not before the first row is the last one that is not later than that time: every row after it
-- is.
pub at-Splits :
    (first : Row) (rows : List Row) (t : ℕ)
    → Grows first rows
    → first.time ≤ t
    → (b : Row) × (at t (first ∷ rows) ≡ some b) × Splits t (first ∷ rows) b
unfolding at latest
at-Splits first rows t g h =
    let same : latest t first (first ∷ rows) ≡ latest t first rows = ground arith in
    (latest t first rows, ap some same, latest-Splits t first rows g h)
