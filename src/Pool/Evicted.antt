-- ===== src/Pool/Evicted.antt =====
-- The seats when a node is evicted (CrossPlatformPool.swift, the end of `tick(at:)`): its two entries go.
use share_compute.Prelude.{
  some, ◌≡◌, ◌≢◌, sym, ◌∙◌, inl, inr, arith, lookup, remove, lookup-remove, string_eq, ◌=?◌,
  Bool-cases, Option-cases,
}
use share_compute.Capability.{NodeId}
use share_compute.Platform.{PlatformKind, platform_eq}
use share_compute.Pool.{CrossPlatformPool}
use share_compute.Pool.Drive.{unseat}
use share_compute.Pool.Seats.{Listed, Held, Seated}

unseat-Listed :
    (node : NodeId) (platform : PlatformKind) (pool : CrossPlatformPool)
    → lookup node pool.platform_by_node ≡ some platform
    → Listed pool
    → Listed (unseat node platform pool)
unfolding unseat
unseat-Listed node platform pool e h = elim (Option-cases (lookup platform pool.node_by_platform)) [
  | inl vacant ↦ rw (vacant, unseat) (λ p n f. gone p n (λ who q. ground arith) f)
  | inr (holder, held) ↦ elim (Bool-cases (holder =? node)) [
    | inl mine ↦
        rw (held, unseat, mine)
          (λ p n f.
            let left = sym (lookup-remove platform p pool.node_by_platform) ∙ f in
            let kept : lookup p pool.node_by_platform ≡ some n =
              ground (arith, platform_eq.beq_iff platform p) in
            gone p n (λ who q. ground (arith, platform_eq.beq_iff platform p)) kept)
    | inr other ↦
        rw (held, unseat, other)
          (λ p n f. gone p n (λ who q. ground (arith, string_eq.beq_iff holder node)) f)
  ]
]
  where
    gone :
        (p : PlatformKind) (n : NodeId)
        → (node ≡ n → p ≢ platform)
        → lookup p pool.node_by_platform ≡ some n
        → lookup n (remove node pool.platform_by_node) ≡ some p
    gone p n apart f = elim (Bool-cases (node =? n)) [
      | inl same ↦
          let who : node ≡ n = (string_eq.beq_iff node n).0 same in
          let here : lookup n pool.platform_by_node ≡ some platform = rw who at e in
          let there = h p n f in absurd (apart who (ground arith))
      | inr other ↦ rw (lookup-remove node n pool.platform_by_node, other) (h p n f)
    ]

unseat-Held :
    (node : NodeId) (platform : PlatformKind) (pool : CrossPlatformPool)
    → lookup node pool.platform_by_node ≡ some platform
    → Held pool
    → Held (unseat node platform pool)
unfolding unseat
unseat-Held node platform pool e h p n f =
    let left = sym (lookup-remove node n pool.platform_by_node) ∙ listed in
    elim (Bool-cases (node =? n)) [
      | inl same ↦ absurd (ground arith)
      | inr other ↦
          let held = h p n (ground arith) in
          let mine = h platform node e in
          rw (mine, unseat)
            (elim (Bool-cases (platform =? p)) [
              | inl here ↦
                  let at : platform ≡ p = (platform_eq.beq_iff platform p).0 here in
                  let there : lookup platform pool.node_by_platform ≡ some n = rw at held in
                  absurd (ground (arith, string_eq.beq_iff node n))
              | inr away ↦ let kept = lookup-remove platform p pool.node_by_platform in ground arith
            ])
    ]
  where
    listed : lookup n (remove node pool.platform_by_node) ≡ some p
    listed = elim (Option-cases (lookup platform pool.node_by_platform)) [
      | inl vacant ↦ ground arith
      | inr (holder, held) ↦ elim (Bool-cases (holder =? node)) [
        | inl mine ↦ rw (held, unseat, mine) at f
        | inr other ↦ rw (held, unseat, other) at f
      ]
    ]

pub unseat-Seated :
    (node : NodeId) (platform : PlatformKind) (pool : CrossPlatformPool)
    → lookup node pool.platform_by_node ≡ some platform
    → Seated pool
    → Seated (unseat node platform pool)
unseat-Seated node platform pool e h =
    (unseat-Listed node platform pool e h.0, unseat-Held node platform pool e h.1)
