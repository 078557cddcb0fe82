-- ===== src/Script/Shards/Sorted.antt =====
-- The order of the workers in `plan_infer_shards` of scripts/inference_pipeline_lib.py.
use share_compute.Prelude.{
  String, Bool, true, false, not, List, [], ◌∷◌, filter, ◌≡◌, refl, ◌∙◌, inl, inr, arith, All,
  All-insert_by, insert_by, sort_by, string_eq, ◌=?◌, Bool-cases,
}
use share_compute.Capability.{id_lt}
use share_compute.Capability.Order.{id_lt_asym, id_lt_irrefl, id_le_trans}
use share_compute.Script.Shards.{Gigabytes}
use share_compute.Script.Shards.Pipeline.{InferPeer, by_platform}

module _ (G : Gigabytes) where
  -- No peer's platform precedes that of a peer before it.
  abbrev pub InOrder : List (InferPeer G) → Type 0
  InOrder [] = Unit
  InOrder (p ∷ peers) = All (λ q. id_lt q.platform p.platform ≡ false) peers × InOrder peers

  abbrev pub has_platform : String → InferPeer G → Bool
  has_platform t p = p.platform =? t

  -- The peers in the order of their platforms, where those of one platform stand in the order in which
  -- they were given.
  pub record IsArranged (peers sorted : List (InferPeer G)) : Type 0 where
    pub ordered : InOrder sorted
    pub kept : (t : String) → filter (has_platform t) sorted ≡ filter (has_platform t) peers

  abbrev not_after : InferPeer G → InferPeer G → Bool
  not_after a b = not (id_lt b.platform a.platform)

  below :
      (x y : InferPeer G) (zs : List (InferPeer G))
      → id_lt y.platform x.platform ≡ false
      → All (λ z. id_lt z.platform y.platform ≡ false) zs
      → All (λ z. id_lt z.platform x.platform ≡ false) zs
  below x y [] h a = tt
  below x y (z ∷ zs) h a = (id_le_trans x.platform y.platform z.platform h a.0, below x y zs h a.1)

  insert_by-InOrder :
      (x : InferPeer G) (ys : List (InferPeer G)) → InOrder ys → InOrder (insert_by not_after x ys)
  unfolding insert_by
  insert_by-InOrder x [] h = (tt, tt)
  insert_by-InOrder x (y ∷ ys) h = elim (Bool-cases (id_lt y.platform x.platform)) [
    | inl after ↦ rw after (
      All-insert_by not_after (λ q. id_lt q.platform y.platform ≡ false) x ys
          (id_lt_asym y.platform x.platform after) h.0,
      insert_by-InOrder x ys h.1,
    )
    | inr before ↦ rw before ((before, below x y ys before h.0), h)
  ]

  insert_by-kept :
      (t : String) (x : InferPeer G) (ys : List (InferPeer G))
      → filter (has_platform t) (insert_by not_after x ys) ≡ filter (has_platform t) (x ∷ ys)
  unfolding insert_by
  insert_by-kept t x [] = refl
  insert_by-kept t x (y ∷ ys) = elim (Bool-cases (id_lt y.platform x.platform)) [
    | inl after ↦
        let apart : has_platform t x ≡ true → has_platform t y ≡ false = λ here.
          elim (Bool-cases (has_platform t y)) [
            | inr other ↦ other
            | inl there ↦
                let e : x.platform ≡ t = (string_eq.beq_iff x.platform t).0 here in
                let f : y.platform ≡ t = (string_eq.beq_iff y.platform t).0 there in
                absurd (ground (arith, id_lt_irrefl t))
          ] in
        rw after (elim (Bool-cases (has_platform t x)) [
          | inl here ↦
              let there = apart here in rw (there, here) (insert_by-kept t x ys ∙ rw here refl)
          | inr away ↦
              let rest : filter (has_platform t) (insert_by not_after x ys)
                  ≡ filter (has_platform t) ys =
                insert_by-kept t x ys ∙ rw away refl in
              rw (away, rest) refl
        ])
    | inr before ↦ rw before refl
  ]

  -- Sorting by platform arranges.
  pub by_platform-IsArranged : (peers : List (InferPeer G)) → IsArranged peers (by_platform G peers)
  unfolding sort_by
  by_platform-IsArranged [] = record { ordered = tt; kept = λ t. refl }
  by_platform-IsArranged (p ∷ peers) =
      let rest = by_platform-IsArranged peers in
      record {
        ordered = insert_by-InOrder p (by_platform G peers) rest.ordered;
        kept = λ t. insert_by-kept t p (by_platform G peers) ∙ ground (arith, rest.kept t);
      }
