-- ===== src/Measured/Proxy.antt =====
-- docs/evidence/f49-endpoints-and-tensor/tools/proxy.py: the counters of the proxy that writes the logs.
-- A connection is a number; what its two directions read interleaves in any order, one chunk at a time,
-- since the proxy runs on one thread. `last` binds the connections that have read something. The delay
-- of chunks, the totals file and the sockets are left out.
use share_compute.Prelude.{
  ℕ, ◌+◌, ◌≤◌, Bool, true, false, not, Option, none, some, List, [], ◌∷◌, ◌≡◌, refl, sym, ap, ◌∙◌,
  arith, ◌==◌, ==_iff, if◌then◌else◌, Dict, lookup, insert, lookup-insert, =?-refl, Eq,
}
use share_compute.Measured.{Row, full_row}
use share_compute.Measured.Windows.{Grows, NotMore, NotMore-trans}

instance abbrev pub number_eq : Eq ℕ
number_eq = record { beq = λ a b. a == b; beq_iff = ==_iff }

pub data Direction : Type 0 where
  to_server to_client : Direction

abbrev pub same_direction : Direction → Direction → Bool
same_direction to_server to_server = true
same_direction to_client to_client = true
same_direction _ _ = false

-- `st`, and `conn["last"]` of every connection.
pub record Proxy : Type 0 where
  pub c2s : ℕ
  pub s2c : ℕ
  pub turns : ℕ
  pub turns_global : ℕ
  pub connections : ℕ
  pub last_direction : Option Direction
  pub messages_c2s : ℕ
  pub messages_s2c : ℕ
  pub last : Dict ℕ Direction

abbrev pub started : Proxy
started = record {
  c2s = 0;
  s2c = 0;
  turns = 0;
  turns_global = 0;
  connections = 0;
  last_direction = none;
  messages_c2s = 0;
  messages_s2c = 0;
  last = [];
}

pub data Event : Type 0 where
  accepts : Event
  -- Connection, direction, and length of the chunk.
  reads : ℕ → Direction → ℕ → Event
  -- The clock's milliseconds.
  samples : ℕ → Event

-- `st[direction] += len(data); st["msgs_" + direction] += 1`.
unfoldable pub counted : Direction → ℕ → Proxy → Proxy
counted to_server length p = record p { c2s = p.c2s + length; messages_c2s = p.messages_c2s + 1 }
counted to_client length p = record p { s2c = p.s2c + length; messages_s2c = p.messages_s2c + 1 }

-- `last is not None and last != direction`.
abbrev pub switches : Option Direction → Direction → Bool
switches none d = false
switches (some e) d = not (same_direction e d)

-- `last_dir != direction`.
abbrev pub differs : Option Direction → Direction → Bool
differs none d = true
differs (some e) d = not (same_direction e d)

unfoldable pub read : ℕ → Direction → ℕ → Proxy → Proxy
unfolding counted
read c d length p =
    let q = counted d length p in
    record q {
      turns = if switches (lookup c p.last) d then p.turns + 1 else p.turns;
      last = insert c d p.last;
      turns_global = if differs p.last_direction d then p.turns_global + 1 else p.turns_global;
      last_direction = some d;
    }

unfoldable pub step : Event → Proxy → Proxy
unfolding read
step accepts p = record p { connections = p.connections + 1 }
step (reads c d length) p = read c d length p
step (samples time) p = p

-- The line that `periodic` writes.
abbrev pub sampled : ℕ → Proxy → Row
sampled time p = full_row time p.c2s p.s2c p.turns p.turns_global

-- The lines of the history.
unfoldable pub log : List Event → Proxy → List Row
unfolding step
log [] p = []
log (samples time ∷ events) p = sampled time p ∷ log events p
log (accepts ∷ events) p = log events (step accepts p)
log (reads c d length ∷ events) p = log events (step (reads c d length) p)

unfoldable pub run : List Event → Proxy → Proxy
run [] p = p
run (e ∷ events) p = run events (step e p)

-- The clock does not run back between two samples, from `t` on.
abbrev pub Forward : ℕ → List Event → Type 0
Forward t [] = Unit {0}
Forward t (samples time ∷ events) = (t ≤ time) × Forward time events
Forward t (accepts ∷ events) = Forward t events
Forward t (reads c d length ∷ events) = Forward t events

-- A row may only have counted less than the proxy has.
record Below (r : Row) (p : Proxy) : Type 0 where
  to_server : r.to_server ≤ p.c2s
  to_client : r.to_client ≤ p.s2c
  turns : r.turns ≤ p.turns
  turns_global : NotMore r.turns_global (some p.turns_global)

read-Below :
    (r : Row) (c : ℕ) (d : Direction) (length : ℕ) (p : Proxy)
    → Below r p
    → Below r (read c d length p)
unfolding read counted
read-Below r c to_server length p h = record {
  to_server = omega (arith, h.to_server);
  to_client = h.to_client;
  turns = ground (arith, h.turns);
  turns_global = NotMore-trans r.turns_global (some p.turns_global) _ h.turns_global (ground arith);
}
read-Below r c to_client length p h = record {
  to_server = h.to_server;
  to_client = omega (arith, h.to_client);
  turns = ground (arith, h.turns);
  turns_global = NotMore-trans r.turns_global (some p.turns_global) _ h.turns_global (ground arith);
}

log-Grows_after :
    (r : Row) (events : List Event) (p : Proxy)
    → Forward r.time events
    → Below r p
    → Grows r (log events p)
unfolding log step
log-Grows_after r [] p f h = tt
log-Grows_after r (accepts ∷ events) p f h = log-Grows_after r events (step accepts p) f (record {
  to_server = h.to_server;
  to_client = h.to_client;
  turns = h.turns;
  turns_global = h.turns_global;
})
log-Grows_after r (reads c d length ∷ events) p f h =
    log-Grows_after r events (read c d length p) f (read-Below r c d length p h)
log-Grows_after r (samples time ∷ events) p f h = (
  record {
    time = f.0;
    to_server = h.to_server;
    to_client = h.to_client;
    turns = h.turns;
    turns_global = h.turns_global;
  },
  log-Grows_after (sampled time p) events p f.1 (record {
    to_server = omega arith;
    to_client = omega arith;
    turns = omega arith;
    turns_global = omega arith;
  }),
)

-- Whatever the connections do, the history of a proxy whose clock does not run back is in order, and
-- its counters never fall: from any of its lines on it grows.
pub log-Grows :
    (time : ℕ) (events : List Event) (p : Proxy)
    → Forward time events
    → Grows (sampled time p) (log (events) p)
log-Grows time events p f = log-Grows_after (sampled time p) events p f (record {
  to_server = omega arith;
  to_client = omega arith;
  turns = omega arith;
  turns_global = omega arith;
})

-- Only one connection reads.
abbrev pub OnlyReads : ℕ → List Event → Type 0
OnlyReads c [] = Unit {0}
OnlyReads c (reads k d length ∷ events) = (k ≡ c) × OnlyReads c events
OnlyReads c (accepts ∷ events) = OnlyReads c events
OnlyReads c (samples time ∷ events) = OnlyReads c events

read_once :
    (k : ℕ) (d d' : Direction) (length : ℕ) (p : Proxy)
    → p.last_direction ≡ some d
    → lookup k p.last ≡ some d
    → ((read k d' length p).turns + p.turns_global ≡ (read k d' length p).turns_global + p.turns)
      × ((read k d' length p).last_direction ≡ some d')
      × (lookup k (read k d' length p).last ≡ some d')
unfolding read counted
read_once k d to_server length p e f =
    (ground arith, refl, lookup-insert k k to_server p.last ∙ ground (arith, =?-refl k))
read_once k d to_client length p e f =
    (ground arith, refl, lookup-insert k k to_client p.last ∙ ground (arith, =?-refl k))

-- While one connection alone reads, the one that read last, both counts of turns go up alike.
pub same_turns :
    (c : ℕ) (d : Direction) (events : List Event) (p : Proxy)
    → p.last_direction ≡ some d
    → lookup c p.last ≡ some d
    → OnlyReads c events
    → (run events p).turns + p.turns_global ≡ (run events p).turns_global + p.turns
unfolding run step
same_turns c d [] p e f h = omega arith
same_turns c d (accepts ∷ events) p e f h = same_turns c d events (step accepts p) e f h
same_turns c d (samples time ∷ events) p e f h = same_turns c d events p e f h
same_turns c d (reads k d' length ∷ events) p e f h =
    let q = read k d' length p in
    let (once, e', f') = read_once k d d' length p e (ap (λ j. lookup j p.last) h.0 ∙ f) in
    let rest = same_turns c d' events q e' (ap (λ j. lookup j q.last) (sym h.0) ∙ f') h.1 in
    omega (arith, once, rest)
