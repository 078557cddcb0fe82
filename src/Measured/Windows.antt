-- ===== src/Measured/Windows.antt =====
-- The windows of a log (analyze_decode_window.py).
use share_compute.Prelude.{
  ℕ, ◌+◌, ◌-◌, ◌≤◌, Bool, true, false, ◌&&◌, Option, none, some, List, [], ◌∷◌, leb, Bool-cases,
  ◌≡◌, refl, inl, inr, arith,
}
use share_compute.Measured.{Row, latest, at, pos, difference, Traffic, traffic_between, window}

-- The older count of turns, which all rows of a log have or none has.
abbrev pub NotMore : Option ℕ → Option ℕ → Type 0
NotMore none none = Unit {0}
NotMore (some a) (some b) = a ≤ b
NotMore _ _ = ⊥

abbrev not_more : Option ℕ → Option ℕ → Bool
not_more none none = true
not_more (some a) (some b) = leb a b
not_more _ _ = false

not_more-NotMore : (a b : Option ℕ) → not_more a b ≡ true → NotMore a b
not_more-NotMore none none h = tt
not_more-NotMore (some a) (some b) h = ground arith
not_more-NotMore none (some b) h = absurd (ground arith)
not_more-NotMore (some a) none h = absurd (ground arith)

NotMore-refl : (a : Option ℕ) → NotMore a a
NotMore-refl none = tt
NotMore-refl (some a) = omega arith

pub NotMore-trans : (a b c : Option ℕ) → NotMore a b → NotMore b c → NotMore a c
NotMore-trans none none none p q = tt
NotMore-trans (some a) (some b) (some c) p q = omega arith
NotMore-trans none none (some c) p q = q
NotMore-trans none (some b) c p q = absurd p
NotMore-trans (some a) none c p q = absurd p
NotMore-trans (some a) (some b) none p q = q

-- One row is not later than another, nor has any of its counters counted more.
pub record Precedes (a b : Row) : Type 0 where
  pub time : a.time ≤ b.time
  pub to_server : a.to_server ≤ b.to_server
  pub to_client : a.to_client ≤ b.to_client
  pub turns : a.turns ≤ b.turns
  pub turns_global : NotMore a.turns_global b.turns_global

-- The rows of a log after `a` go on from it in order, and its counters never fall.
abbrev pub Grows : Row → List Row → Type 0
Grows a [] = Unit {0}
Grows a (b ∷ rows) = Precedes a b × Grows b rows

abbrev follows : Row → Row → Bool
follows a b =
    leb a.time b.time
    && leb a.to_server b.to_server
    && leb a.to_client b.to_client
    && leb a.turns b.turns
    && not_more a.turns_global b.turns_global

abbrev pub grows : Row → List Row → Bool
grows a [] = true
grows a (b ∷ rows) = follows a b && grows b rows

pub grows-Grows : (a : Row) (rows : List Row) → grows a rows ≡ true → Grows a rows
grows-Grows a [] h = tt
grows-Grows a (b ∷ rows) h = (
  record {
    time = ground arith;
    to_server = ground arith;
    to_client = ground arith;
    turns = ground arith;
    turns_global = not_more-NotMore a.turns_global b.turns_global (ground arith);
  },
  grows-Grows b rows (ground arith),
)

pub Precedes-refl : (a : Row) → Precedes a a
Precedes-refl a = record {
  time = omega arith;
  to_server = omega arith;
  to_client = omega arith;
  turns = omega arith;
  turns_global = NotMore-refl a.turns_global;
}

Precedes-trans : (a b c : Row) → Precedes a b → Precedes b c → Precedes a c
Precedes-trans a b c p q = record {
  time = omega (arith, p.time, q.time);
  to_server = omega (arith, p.to_server, q.to_server);
  to_client = omega (arith, p.to_client, q.to_client);
  turns = omega (arith, p.turns, q.turns);
  turns_global =
      NotMore-trans a.turns_global b.turns_global c.turns_global p.turns_global q.turns_global;
}

Grows-before : (a b : Row) (rows : List Row) → Precedes a b → Grows b rows → Grows a rows
Grows-before a b [] p g = tt
Grows-before a b (c ∷ rows) p g = (Precedes-trans a b c p g.0, g.1)

pub latest_mono :
    (t t' : ℕ) (a b : Row) (rows : List Row)
    → t ≤ t'
    → Precedes a b
    → Grows b rows
    → Precedes (latest t a rows) (latest t' b rows)
unfolding latest
latest_mono t t' a b [] h p g = p
latest_mono t t' a b (r ∷ rows) h p g = elim (Bool-cases (leb r.time t)) [
  | inl early ↦
      let late : leb r.time t' ≡ true = ground arith in
      rw (early, late, latest) (latest_mono t t' r r rows h (Precedes-refl r) g.1)
  | inr later ↦ elim (Bool-cases (leb r.time t')) [
    | inl late ↦
        rw (later, late, latest) (latest_mono t t' a r rows h (Precedes-trans a b r p g.0) g.1)
    | inr latest_yet ↦
        rw (later, latest_yet, latest)
          (latest_mono t t' a b rows h p (Grows-before b r rows g.0 g.1))
  ]
]

pub difference-grows : (a b : ℕ) → a ≤ b → difference b a ≡ pos (b - a)
unfolding difference
difference-grows a b h = ground arith

-- The traffic of a window in a log that grows: each counter went up by a number of its own.
pub record Carries (w : Option Traffic) (up down turns : ℕ) : Type 0 where
  pub traffic : Traffic
  pub made : w ≡ some traffic
  pub to_server : traffic.to_server ≡ pos up
  pub to_client : traffic.to_client ≡ pos down
  pub switches : traffic.turns ≡ pos turns

between-Carries :
    (a b : Row)
    → Precedes a b
    → Carries
        (some (traffic_between a b))
        (b.to_server - a.to_server)
        (b.to_client - a.to_client)
        (b.turns - a.turns)
unfolding traffic_between
between-Carries a b p = record {
  traffic = _;
  made = refl;
  to_server = difference-grows a.to_server b.to_server p.to_server;
  to_client = difference-grows a.to_client b.to_client p.to_client;
  switches = difference-grows a.turns b.turns p.turns;
}

-- In a log whose rows are in order and whose counters never fall, for three times in order, no
-- window has negative traffic, and the traffic of the two adjoining windows adds up to that of the
-- window which they make.
pub window-adjoining :
    (first : Row) (rows : List Row) (t0 t1 t2 : ℕ)
    → Grows first rows
    → t0 ≤ t1
    → t1 ≤ t2
    → (up up' down down' turns turns' : ℕ) × Carries (window (first ∷ rows) t0 t1) up down turns
      × Carries (window (first ∷ rows) t1 t2) up' down' turns'
      × Carries (window (first ∷ rows) t0 t2) (up + up') (down + down') (turns + turns')
unfolding window at
window-adjoining first rows t0 t1 t2 g h h' =
    let whole : Grows first (first ∷ rows) = (Precedes-refl first, g) in
    let p = latest_mono t0 t1 first first (first ∷ rows) h (Precedes-refl first) whole in
    let q = latest_mono t1 t2 first first (first ∷ rows) h' (Precedes-refl first) whole in
    let a = latest t0 first (first ∷ rows) in
    let b = latest t1 first (first ∷ rows) in
    let c = latest t2 first (first ∷ rows) in
    let up : (b.to_server - a.to_server) + (c.to_server - b.to_server) ≡ c.to_server - a.to_server =
      omega (arith, p.to_server, q.to_server) in
    let down : (b.to_client - a.to_client) + (c.to_client - b.to_client)
        ≡ c.to_client - a.to_client =
      omega (arith, p.to_client, q.to_client) in
    let turns : (b.turns - a.turns) + (c.turns - b.turns) ≡ c.turns - a.turns =
      omega (arith, p.turns, q.turns) in
    (
      _,
      _,
      _,
      _,
      _,
      _,
      between-Carries a b p,
      between-Carries b c q,
      rw (up, down, turns) (between-Carries a c (Precedes-trans a b c p q)),
    )
