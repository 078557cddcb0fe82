-- ===== src/Capability/Order.antt =====
-- The order of node identities (CapabilityProfile.swift, `NodeID.<`) is a strict total order.
use Prim.Native.Nat.{Ordering, compare as compare_ℕ}
use Prim.Native.Char.{code}
use Prim.Native.String.{String, [], ◌∷◌, then, compare}
use Prim.Native.String.compare
use text.Mathlib.TextEquality.{path_by_compare}
use share_compute.Prelude.{
  ℕ, true, false, Bool-cases, inl, inr, ◌=?◌, string_eq, not, ◌≡◌, ◌≢◌, refl, sym, ap, ap₂, arith,
  ◌∙◌,
}
use share_compute.Capability.{NodeId, id_lt}

compare-flip : (m n : ℕ) → compare_ℕ m n ≡ Ordering.lt → compare_ℕ n m ≡ Ordering.gt
compare-flip m n h = ground arith

compare_trans :
    (l m n : ℕ)
    → compare_ℕ l m ≡ Ordering.lt
    → compare_ℕ m n ≡ Ordering.lt
    → compare_ℕ l n ≡ Ordering.lt
compare_trans l m n h k = ground arith

text_trans :
    (s t u : String)
    → compare s t ≡ Ordering.lt
    → compare t u ≡ Ordering.lt
    → compare s u ≡ Ordering.lt
text_trans [] [] u h k = absurd (ground (arith, compare.nil-nil))
text_trans [] (d ∷ t) [] h k = absurd (ground (arith, compare.cons-nil d t))
text_trans [] (d ∷ t) (e ∷ u) h k = compare.nil-cons e u
text_trans (c ∷ s) [] u h k = absurd (ground (arith, compare.cons-nil c s))
text_trans (c ∷ s) (d ∷ t) [] h k = absurd (ground (arith, compare.cons-nil d t))
text_trans (c ∷ s) (d ∷ t) (e ∷ u) h k =
    let st = compare.cons-cons c d s t in
    let tu = compare.cons-cons d e t u in
    let su = compare.cons-cons c e s u in ground (arith, text_trans s t u, st, tu, su)

-- How the comparison turns round.
abbrev reverse : Ordering → Ordering
reverse Ordering.lt = Ordering.gt
reverse Ordering.eq = Ordering.eq
reverse Ordering.gt = Ordering.lt

number_reverse : (m n : ℕ) → compare_ℕ n m ≡ reverse (compare_ℕ m n)
number_reverse m n = ground arith

reverse_after : (o r : Ordering) → then (reverse o) (reverse r) ≡ reverse (then o r)
reverse_after Ordering.lt r = refl
reverse_after Ordering.eq r = refl
reverse_after Ordering.gt r = refl

text_reverse : (s t : String) → compare t s ≡ reverse (compare s t)
text_reverse [] [] = compare.nil-nil ∙ ap reverse (sym compare.nil-nil)
text_reverse [] (d ∷ t) = compare.cons-nil d t ∙ ap reverse (sym (compare.nil-cons d t))
text_reverse (c ∷ s) [] = compare.nil-cons c s ∙ ap reverse (sym (compare.cons-nil c s))
text_reverse (c ∷ s) (d ∷ t) =
    compare.cons-cons d c t s
    ∙ ap₂ then (number_reverse (code c) (code d)) (text_reverse s t)
    ∙ reverse_after (compare_ℕ (code c) (code d)) (compare s t)
    ∙ ap reverse (sym (compare.cons-cons c d s t))

pub id_lt_trans : (a b c : NodeId) → id_lt a b ≡ true → id_lt b c ≡ true → id_lt a c ≡ true
unfolding id_lt
id_lt_trans a b c h k = ground (arith, text_trans a b c)

-- Of two different identities exactly one precedes the other.
pub id_lt_total : (a b : NodeId) → a ≢ b → id_lt a b ≡ not (id_lt b a)
unfolding id_lt
id_lt_total a b h = ground (arith, text_reverse a b, path_by_compare a b)

pub id_lt_irrefl : (a : NodeId) → id_lt a a ≡ false
unfolding id_lt
id_lt_irrefl a = ground (arith, text_reverse a a)

pub id_lt_asym : (a b : NodeId) → id_lt a b ≡ true → id_lt b a ≡ false
id_lt_asym a b h = elim (Bool-cases (id_lt b a)) [
  | inl back ↦ absurd (ground (arith, id_lt_trans a b a h back, id_lt_irrefl a))
  | inr fine ↦ fine
]

-- What does not precede an identity that does not precede a third one does not precede that one.
pub id_le_trans : (a b c : NodeId) → id_lt b a ≡ false → id_lt c b ≡ false → id_lt c a ≡ false
id_le_trans a b c h k = elim (Bool-cases (id_lt c a)) [
  | inr fine ↦ fine
  | inl first ↦ elim (Bool-cases (c =? b)) [
    | inl same ↦ let e : c ≡ b = (string_eq.beq_iff c b).0 same in absurd (ground arith)
    | inr other ↦
        let apart : c ≢ b = λ e. ground (arith, string_eq.beq_iff c b) in
        absurd (ground (arith, id_lt_total c b apart, id_lt_trans b c a))
  ]
]
