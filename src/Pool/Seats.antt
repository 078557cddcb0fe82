-- ===== src/Pool/Seats.antt =====
-- The seats of CrossPlatformPool.swift: its two dictionaries agree.
use share_compute.Prelude.{
  true, false, none, some, ◌≡◌, ◌≢◌, refl, sym, subst, ap, ◌∙◌, inl, inr, arith, lookup, insert,
  remove, lookup-insert, lookup-remove, string_eq, ◌=?◌, Bool-cases, Option-cases, ℕ,
}
use share_compute.Capability.{NodeId, CapabilityProfile}
use share_compute.Lease.{LeaseId}
use share_compute.Membership.Reports.{node_announced_drain}
use share_compute.Platform.{PlatformKind, platform_eq}
use share_compute.Pool.{
  CrossPlatformPool, Result, vacate, occupy, announce_all, connect, holds_seat,
}

-- Every seat is held by a node that is listed under the seat's platform.
abbrev pub Listed : CrossPlatformPool → Type 0
Listed pool =
    (p : PlatformKind) (n : NodeId)
    → lookup p pool.node_by_platform ≡ some n
    → lookup n pool.platform_by_node ≡ some p

-- Every node that is listed under a platform holds that platform's seat.
abbrev pub Held : CrossPlatformPool → Type 0
Held pool =
    (p : PlatformKind) (n : NodeId)
    → lookup n pool.platform_by_node ≡ some p
    → lookup p pool.node_by_platform ≡ some n

-- The two dictionaries are each other's inverse.
abbrev pub Seated : CrossPlatformPool → Type 0
Seated pool = Listed pool × Held pool

-- So no node holds two seats.
pub Listed-one :
    (pool : CrossPlatformPool) (p q : PlatformKind) (n : NodeId)
    → Listed pool
    → lookup p pool.node_by_platform ≡ some n
    → lookup q pool.node_by_platform ≡ some n
    → p ≡ q
Listed-one pool p q n h e f = let at_p = h p n e in let at_q = h q n f in ground arith

seat-Listed :
    (pool : CrossPlatformPool) (platform : PlatformKind) (node : NodeId) (left : CrossPlatformPool)
    → left.node_by_platform ≡ pool.node_by_platform
    → ((p : PlatformKind) (n : NodeId)
        → p ≢ platform
        → lookup p pool.node_by_platform ≡ some n
        → lookup n left.platform_by_node ≡ some p)
    → ((q : PlatformKind) → lookup q pool.node_by_platform ≡ some node → q ≡ platform)
    → (p : PlatformKind) (n : NodeId)
    → lookup p (insert platform node left.node_by_platform) ≡ some n
    → lookup n (insert node platform left.platform_by_node) ≡ some p
seat-Listed pool platform node left same kept fresh p n e =
    let at_p : lookup p (insert platform node pool.node_by_platform) ≡ some n = rw same at e in
    let bound = sym (lookup-insert platform p node pool.node_by_platform) ∙ at_p in
    elim (Bool-cases (platform =? p)) [
      | inl hit ↦
          let here : platform ≡ p = (platform_eq.beq_iff platform p).0 hit in
          let mine : node ≡ n = ground arith in
          rw
            (lookup-insert node n platform left.platform_by_node, (string_eq.beq_iff node n).1 mine)
            (ap some here)
      | inr miss ↦
          let other : lookup p pool.node_by_platform ≡ some n = ground arith in
          let apart : p ≢ platform = λ q. ground (arith, platform_eq.beq_iff platform p) in
          elim (Bool-cases (node =? n)) [
            | inl same_node ↦
                let mine : node ≡ n = (string_eq.beq_iff node n).0 same_node in
                absurd (apart (fresh p (rw mine other)))
            | inr other_node ↦
                rw (lookup-insert node n platform left.platform_by_node, other_node)
                  (kept p n apart other)
          ]
    ]

pub announce_all-pool : (r : Result) → (announce_all r).0 ≡ r.0
unfolding announce_all
announce_all-pool (pool, events, sent) = ground arith

seat-Held :
    (pool : CrossPlatformPool) (platform : PlatformKind) (node : NodeId) (left : CrossPlatformPool)
    → left.node_by_platform ≡ pool.node_by_platform
    → ((p : PlatformKind) (n : NodeId)
        → lookup n left.platform_by_node ≡ some p
        → (p ≢ platform) × (lookup p pool.node_by_platform ≡ some n))
    → (p : PlatformKind) (n : NodeId)
    → lookup n (insert node platform left.platform_by_node) ≡ some p
    → lookup p (insert platform node left.node_by_platform) ≡ some n
seat-Held pool platform node left same kept p n e =
    let bound = sym (lookup-insert node n platform left.platform_by_node) ∙ e in
    elim (Bool-cases (node =? n)) [
      | inl hit ↦
          let mine : node ≡ n = (string_eq.beq_iff node n).0 hit in
          let here : platform ≡ p = ground arith in
          rw
            (
              lookup-insert platform p node left.node_by_platform,
              (platform_eq.beq_iff platform p).1 here,
            )
            (ap some mine)
      | inr miss ↦
          let (apart, held) = kept p n (ground arith) in
          elim (Bool-cases (platform =? p)) [
            | inl hit ↦ absurd (apart (sym ((platform_eq.beq_iff platform p).0 hit)))
            | inr other ↦ rw (lookup-insert platform p node left.node_by_platform, other, same) held
          ]
    ]

occupy-Seated :
    (pool left : CrossPlatformPool) (uuid : NodeId → LeaseId) (now : ℕ) (platform : PlatformKind)
    (profile : CapabilityProfile)
    → left.node_by_platform ≡ pool.node_by_platform
    → ((p : PlatformKind) (n : NodeId)
        → p ≢ platform
        → lookup p pool.node_by_platform ≡ some n
        → lookup n left.platform_by_node ≡ some p)
    → ((q : PlatformKind) → lookup q pool.node_by_platform ≡ some profile.node_id → q ≡ platform)
    → (holds_seat (lookup platform left.node_by_platform) profile.node_id ≡ true → Seated left)
    → (holds_seat (lookup platform left.node_by_platform) profile.node_id ≡ false
        → (p : PlatformKind) (n : NodeId) → lookup n left.platform_by_node ≡ some p
        → (p ≢ platform) × (lookup p pool.node_by_platform ≡ some n))
    → Seated (occupy left uuid now platform profile).0
unfolding occupy
occupy-Seated pool left uuid now platform profile same kept fresh old held =
    elim (Bool-cases (holds_seat (lookup platform left.node_by_platform) profile.node_id)) [
      | inl b ↦ rw (b, occupy) (old b)
      | inr b ↦
          rw (b, occupy)
            (
              seat-Listed pool platform profile.node_id left same kept fresh,
              seat-Held pool platform profile.node_id left same (held b),
            )
    ]

-- While the seat is vacant nobody is listed under its platform.
vacant-apart :
    (pool : CrossPlatformPool) (platform : PlatformKind)
    → Seated pool
    → lookup platform pool.node_by_platform ≡ none
    → (p : PlatformKind) (n : NodeId) → lookup n pool.platform_by_node ≡ some p
    → (p ≢ platform) × (lookup p pool.node_by_platform ≡ some n)
vacant-apart pool platform h e p n f =
    let held = h.1 p n f in
    (
      λ q.
          let here : lookup platform pool.node_by_platform ≡ some n = rw (← q) held in ground arith,
      held,
    )

-- The occupant that has to leave is the only one that loses its place.
vacated-kept :
    (pool : CrossPlatformPool) (platform : PlatformKind) (existing : NodeId)
    → Listed pool
    → lookup platform pool.node_by_platform ≡ some existing
    → (p : PlatformKind) (n : NodeId) → p ≢ platform
    → lookup p pool.node_by_platform ≡ some n
    → lookup n (remove existing pool.platform_by_node) ≡ some p
vacated-kept pool platform existing h e p n apart f = elim (Bool-cases (existing =? n)) [
  | inl same ↦
      let who : existing ≡ n = (string_eq.beq_iff existing n).0 same in
      absurd (apart (Listed-one pool p platform n h f (rw (← who) e)))
  | inr other ↦ rw (lookup-remove existing n pool.platform_by_node, other) (h p n f)
]

-- Then nobody is listed under the seat's platform.
vacated-apart :
    (pool : CrossPlatformPool) (platform : PlatformKind) (existing : NodeId)
    → Held pool
    → lookup platform pool.node_by_platform ≡ some existing
    → (p : PlatformKind) (n : NodeId) → lookup n (remove existing pool.platform_by_node) ≡ some p
    → (p ≢ platform) × (lookup p pool.node_by_platform ≡ some n)
vacated-apart pool platform existing h e p n f =
    let left = sym (lookup-remove existing n pool.platform_by_node) ∙ f in
    elim (Bool-cases (existing =? n)) [
      | inl same ↦ absurd (ground arith)
      | inr other ↦
          let held = h p n (ground arith) in
          (
            λ q.
                let here : lookup platform pool.node_by_platform ≡ some n = rw (← q) held in
                ground (arith, string_eq.beq_iff existing n),
            held,
          )
    ]

abbrev vacated : CrossPlatformPool → ℕ → NodeId → CrossPlatformPool
vacated pool now existing = record pool {
  membership = (node_announced_drain pool.membership now existing).0;
  platform_by_node = remove existing pool.platform_by_node;
}

pub connect-Seated :
    (pool : CrossPlatformPool) (uuid : NodeId → LeaseId) (now : ℕ) (platform : PlatformKind)
    (profile : CapabilityProfile)
    → ((q : PlatformKind) → lookup q pool.node_by_platform ≡ some profile.node_id → q ≡ platform)
    → Seated pool
    → Seated (connect pool uuid now platform profile).0
unfolding connect vacate
connect-Seated pool uuid now platform profile fresh h =
    let node = profile.node_id in
    let left = vacate pool now platform node in
    subst Seated (sym (announce_all-pool (occupy left uuid now platform profile)))
      (elim (Option-cases (lookup platform pool.node_by_platform)) [
        | inl e ↦
            let v : left ≡ pool = rw (e, vacate) in
            rw v (
              occupy-Seated pool pool uuid now platform profile refl (λ p n _ f. h.0 p n f) fresh
                (λ _. h) (λ _. vacant-apart pool platform h e))
        | inr (existing, e) ↦ elim (Bool-cases (existing =? node)) [
          | inl held ↦
              let v : left ≡ pool = rw (e, vacate, held) in
              rw v (
                occupy-Seated pool pool uuid now platform profile refl (λ p n _ f. h.0 p n f) fresh
                  (λ _. h) (λ b. absurd (ground arith)))
          | inr other ↦
              let v : left ≡ vacated pool now existing = rw (e, vacate, other) in
              rw v (
                occupy-Seated pool (vacated pool now existing) uuid now platform profile refl
                  (vacated-kept pool platform existing h.0 e) fresh (λ b. absurd (ground arith))
                  (λ _. vacated-apart pool platform existing h.1 e))
        ]
      ])
