-- ===== src/Membership/Sweep.antt =====
-- The loop of `tick(at:)` (MembershipService.swift), seen from one node.
use mathlib.Core.Option as Option
use share_compute.Prelude.{
  ℕ, Option, none, some, List, [], ◌∷◌, ◌≡◌, refl, ap, ◌∙◌, inl, inr, arith, if◌then◌else◌, lookup,
  keys, contains, sort_by, string_eq, lookup-insert, lookup-not_key, any-sort_by, Option-cases,
  ◌=?◌,
}
use share_compute.Capability.{NodeId, id_lt}
use share_compute.Membership.{MembershipConfig, MembershipService, MembershipEvent, MemberRecord}
use share_compute.Membership.Tick.{verdict, evicted, visit, sweep}
use share_compute.Node.{participates_in_planning, apply}

-- What the loop makes of a record.
unfoldable pub settle : MembershipConfig → ℕ → MemberRecord → MemberRecord
settle config now r = elim (verdict config now r) [ none ↦ r | some reason ↦ evicted reason r ]

-- The loop leaves nothing to evict.
pub verdict-settle :
    (config : MembershipConfig) (now : ℕ) (r : MemberRecord)
    → verdict config now (settle config now r) ≡ none
unfolding settle verdict evicted apply participates_in_planning
verdict-settle config now r = ground arith

settle-settle :
    (config : MembershipConfig) (now : ℕ) (r : MemberRecord)
    → settle config now (settle config now r) ≡ settle config now r
unfolding settle
settle-settle config now r = rw (settle, verdict-settle config now r)

pub visit-config :
    (now : ℕ) (id : NodeId) (s : MembershipService) (events : List MembershipEvent)
    → (visit now id (s, events)).0.config ≡ s.config
unfolding visit
visit-config now id s events = ground arith

pub visit-lookup :
    (now : ℕ) (id k : NodeId) (s : MembershipService) (events : List MembershipEvent)
    → lookup k (visit now id (s, events)).0.storage ≡ (
        if id =? k
        then Option.map (settle s.config now) (lookup k s.storage)
        else lookup k s.storage)
unfolding visit settle
visit-lookup now id k s events = elim (Option-cases (lookup id s.storage)) [
  | inl e ↦ ground (arith, string_eq.beq_iff id k)
  | inr (r, e) ↦ elim (Option-cases (verdict s.config now r)) [
    | inl v ↦ ground (arith, string_eq.beq_iff id k)
    | inr (reason, v) ↦
        ground (arith, string_eq.beq_iff id k, lookup-insert id k (evicted reason r) s.storage)
  ]
]

map-settle_twice :
    (config : MembershipConfig) (now : ℕ) (found : Option MemberRecord)
    → Option.map (settle config now) (Option.map (settle config now) found)
      ≡ Option.map (settle config now) found
map-settle_twice config now none = refl
map-settle_twice config now (some r) = ap some (settle-settle config now r)

pub sweep-config :
    (now : ℕ) (ids : List NodeId) (s : MembershipService) (events : List MembershipEvent)
    → (sweep now ids (s, events)).0.config ≡ s.config
unfolding sweep
sweep-config now [] s events = refl
sweep-config now (id ∷ ids) s events =
    let (t, events') = visit now id (s, events) in
    sweep-config now ids t events' ∙ visit-config now id s events

sweep-lookup :
    (now : ℕ) (ids : List NodeId) (k : NodeId) (s : MembershipService)
    (events : List MembershipEvent)
    → lookup k (sweep now ids (s, events)).0.storage ≡ (
        if contains ids k
        then Option.map (settle s.config now) (lookup k s.storage)
        else lookup k s.storage)
unfolding sweep
sweep-lookup now [] k s events = refl
sweep-lookup now (id ∷ ids) k s events =
    let (t, events') = visit now id (s, events) in
    let rest = rw (visit-config now id s events) at (sweep-lookup now ids k t events') in
    ground (
      arith,
      rest,
      visit-lookup now id k s events,
      map-settle_twice s.config now (lookup k s.storage),
    )

-- After the loop over all members each record is the settled one, and no node is new or gone.
pub sweep_all-lookup :
    (now : ℕ) (k : NodeId) (s : MembershipService) (events : List MembershipEvent)
    → lookup k (sweep now (sort_by id_lt (keys s.storage)) (s, events)).0.storage
      ≡ Option.map (settle s.config now) (lookup k s.storage)
sweep_all-lookup now k s events = ground (
  arith,
  sweep-lookup now (sort_by id_lt (keys s.storage)) k s events,
  any-sort_by id_lt (λ x. x =? k) (keys s.storage),
  lookup-not_key k s.storage,
)
