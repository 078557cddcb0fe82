-- ===== src/Measured/Measures.antt =====
-- What the analysis of a window measures (analyze_decode_window.py).
use share_compute.Prelude.{ℕ, ◌+◌, ◌-◌, ◌≤◌, Option, none, some, List, ◌∷◌, ◌≡◌, refl, subst, arith}
use share_compute.Measured.{
  Row, ℤ, latest, at, pos, global_difference, Traffic, traffic_between, window,
}
use share_compute.Measured.Windows.{
  Precedes, Precedes-refl, Grows, NotMore, latest_mono, difference-grows,
}
use share_compute.Measured.Lookup.{Splits, at-Splits}

-- A count of turns over all connections went up from one row to the other by a number, or the rows
-- have none.
pub data Rises : Option ℕ → Option ℕ → Option ℤ → Type 0 where
  absent : Rises none none none
  counted : (a g : ℕ) → Rises (some a) (some (a + g)) (some (pos g))

-- The traffic is what each counter of the first row lacks of the same counter of the second.
pub record Measures (w : Option Traffic) (a b : Row) : Type 0 where
  pub traffic : Traffic
  pub made : w ≡ some traffic
  pub up : ℕ
  pub down : ℕ
  pub switches : ℕ
  pub to_server : (traffic.to_server ≡ pos up) × (a.to_server + up ≡ b.to_server)
  pub to_client : (traffic.to_client ≡ pos down) × (a.to_client + down ≡ b.to_client)
  pub turns : (traffic.turns ≡ pos switches) × (a.turns + switches ≡ b.turns)
  pub turns_global : Rises a.turns_global b.turns_global traffic.turns_global

global-Rises : (a b : Option ℕ) → NotMore a b → Rises a b (global_difference b a)
unfolding global_difference
global-Rises none none h = absent
global-Rises (some a) (some b) h =
    let whole : a + (b - a) ≡ b = omega arith in
    rw (difference-grows a b h)
      (subst (λ c. Rises (some a) (some c) (some (pos (b - a)))) whole (counted a (b - a)))
global-Rises none (some b) h = absurd h
global-Rises (some a) none h = absurd h

between-Measures : (a b : Row) → Precedes a b → Measures (some (traffic_between a b)) a b
unfolding traffic_between
between-Measures a b p = record {
  traffic = traffic_between a b;
  made = refl;
  up = b.to_server - a.to_server;
  down = b.to_client - a.to_client;
  switches = b.turns - a.turns;
  to_server = (difference-grows a.to_server b.to_server p.to_server, omega (arith, p.to_server));
  to_client = (difference-grows a.to_client b.to_client p.to_client, omega (arith, p.to_client));
  turns = (difference-grows a.turns b.turns p.turns, omega (arith, p.turns));
  turns_global = global-Rises a.turns_global b.turns_global p.turns_global;
}

-- In a log whose rows are in order and whose counters never fall, the traffic of a window that begins
-- in the log is what every counter goes up by, from the last row that is not later than the window's
-- beginning to the last one that is not later than its end.
pub window-Measures :
    (first : Row) (rows : List Row) (t0 t1 : ℕ)
    → Grows first rows
    → first.time ≤ t0
    → t0 ≤ t1
    → (a b : Row) × Splits t0 (first ∷ rows) a
      × Splits t1 (first ∷ rows) b
      × Measures (window (first ∷ rows) t0 t1) a b
unfolding window at
window-Measures first rows t0 t1 g h h' =
    let (a, found_a, splits_a) = at-Splits first rows t0 g h in
    let (b, found_b, splits_b) = at-Splits first rows t1 g (omega arith) in
    let whole : Grows first (first ∷ rows) = (Precedes-refl first, g) in
    let p = latest_mono t0 t1 first first (first ∷ rows) h' (Precedes-refl first) whole in
    let a_latest : latest t0 first (first ∷ rows) ≡ a = cc in
    let b_latest : latest t1 first (first ∷ rows) ≡ b = cc in
    (
      a,
      b,
      splits_a,
      splits_b,
      rw (a_latest, b_latest) (between-Measures a b (rw (a_latest, b_latest) at p)),
    )
