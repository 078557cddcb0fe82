-- ===== src/Measured.antt =====
-- docs/evidence/f49-endpoints-and-tensor/tools/analyze_decode_window.py: the traffic of a link in a
-- window of time, from the byte counters that a proxy recorded ten times a second. Times are
-- milliseconds and counters natural numbers (the script reads floats). Reading of files, the markers
-- of the window, the division by the number of tokens and the printing are left out.
pub mod Windows
pub mod Lookup
pub mod Measures
pub mod Logs
pub mod Proxy
use share_compute.Prelude.{
  ℕ, ◌-◌, Bool, true, false, Option, none, some, List, [], ◌∷◌, leb, if◌then◌else◌,
}

-- A line of a log: `turns_global` is there in the logs of the fixed proxy.
pub record Row : Type 0 where
  pub time : ℕ
  pub to_server : ℕ
  pub to_client : ℕ
  pub turns : ℕ
  pub turns_global : Option ℕ

abbrev pub row : ℕ → ℕ → ℕ → ℕ → Row
row time to_server to_client turns = record {
  time = time;
  to_server = to_server;
  to_client = to_client;
  turns = turns;
  turns_global = none;
}

abbrev pub full_row : ℕ → ℕ → ℕ → ℕ → ℕ → Row
full_row time to_server to_client turns global = record (row time to_server to_client turns) {
  turns_global = some global;
}

-- The loop in `at(t)`: the last row that is not later than `t` takes the place of the best.
unfoldable pub latest : ℕ → Row → List Row → Row
latest t best [] = best
latest t best (r ∷ rows) = latest t (if leb r.time t then r else best) rows

-- `at(t)`; an empty log has no `rows[0]`.
unfoldable pub at : ℕ → List Row → Option Row
unfolding latest
at t [] = none
at t (r ∷ rows) = some (latest t r (r ∷ rows))

pub data ℤ : Type 0 where
  pos negsuc : ℕ → ℤ

-- The difference of two counters.
unfoldable pub difference : ℕ → ℕ → ℤ
difference b a = if leb a b then pos (b - a) else negsuc (a - b - 1)

unfoldable pub global_difference : Option ℕ → Option ℕ → Option ℤ
unfolding difference
global_difference (some b) (some a) = some (difference b a)
global_difference _ _ = none

-- What the script divides by the number of tokens.
pub record Traffic : Type 0 where
  pub to_server : ℤ
  pub to_client : ℤ
  pub turns : ℤ
  pub turns_global : Option ℤ

unfoldable pub traffic_between : Row → Row → Traffic
unfolding difference global_difference
traffic_between a b = record {
  to_server = difference b.to_server a.to_server;
  to_client = difference b.to_client a.to_client;
  turns = difference b.turns a.turns;
  turns_global = global_difference b.turns_global a.turns_global;
}

-- The body of the loop over links.
unfoldable pub window : List Row → ℕ → ℕ → Option Traffic
window rows t0 t1 = elim (at t0 rows) [
  | none ↦ none
  | some a ↦ elim (at t1 rows) [ none ↦ none | some b ↦ some (traffic_between a b) ]
]
