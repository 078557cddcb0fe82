-- ===== src/Script/Activation/Cut.antt =====
-- Messages that are cut short (scripts/inference_pipeline_lib.py).
use share_compute.Prelude.{
  ℕ, ◌/◌, ◌%◌, ◌≤◌, false, Option, none, some, List, [], ◌∷◌, ◌++◌, length, ltb, ◌≡◌, refl, sym, ap,
  ◌∙◌, ◌⊎◌, inl, inr, arith, ==_iff,
}
use share_compute.Script.Activation.{
  Codec, ActivationMsg, most_bytes, exceeds, pack_short, pack_word, recv_exact, prepend,
  epoch_hash32, wire, encode_activation, recv_payload, recv_epoch, recv_length, checked,
  recv_activation, nothing,
}
use share_compute.Script.Activation.Bytes.{short-pack_short}
use share_compute.Script.Activation.Arrival.{
  IsCodec, sent, Fits, header_bytes, unpack-sent, encode_activation-Fits,
}

-- Whole, or not at all.
recv_exact-cut :
    (xs ys pre suf : List ℕ)
    → pre ++ suf ≡ xs ++ ys
    → (recv_exact (length xs) pre ≡ none)
      ⊎ ((more : List ℕ) × (recv_exact (length xs) pre ≡ some (xs, more)) × (more ++ suf ≡ ys))
unfolding recv_exact
recv_exact-cut [] ys pre suf e = inr (pre, refl, e)
recv_exact-cut (x ∷ xs) ys [] suf e = inl refl
recv_exact-cut (x ∷ xs) ys (p ∷ pre) suf e =
    let head : p ≡ x = ground arith in
    let rest : pre ++ suf ≡ xs ++ ys = ground arith in
    elim (recv_exact-cut xs ys pre suf rest) [
      | inl short_of ↦ inl (ap (prepend p) short_of)
      | inr (more, got, behind) ↦
          inr (more, ap (prepend p) got ∙ ap (λ h. some (h ∷ xs, more)) head, behind)
    ]

recv_exact-short :
    (pre suf xs : List ℕ) (b : ℕ) → pre ++ b ∷ suf ≡ xs → recv_exact (length xs) pre ≡ none
unfolding recv_exact
recv_exact-short [] suf [] b e = absurd (ground arith)
recv_exact-short (p ∷ pre) suf [] b e = absurd (ground arith)
recv_exact-short [] suf (x ∷ xs) b e = refl
recv_exact-short (p ∷ pre) suf (x ∷ xs) b e =
    let rest : pre ++ b ∷ suf ≡ xs = ground arith in
    ap (prepend p) (recv_exact-short pre suf xs b rest)

module _ (C : Codec) (good : IsCodec C) (m : ActivationMsg C) (b : ℕ) (suf : List ℕ) where
  recv_payload-cut :
      (pre : List ℕ)
      → pre ++ b ∷ suf ≡ m.payload
      → recv_payload C (sent C good m) m.epoch pre ≡ nothing
  unfolding recv_payload
  recv_payload-cut pre e = rw (recv_payload, recv_exact-short pre suf m.payload b e) refl

  recv_epoch-cut :
      (pre : List ℕ)
      → pre ++ b ∷ suf ≡ C.utf8 m.epoch ++ m.payload
      → recv_epoch C (sent C good m) (length (C.utf8 m.epoch)) pre ≡ nothing
  unfolding recv_epoch
  recv_epoch-cut pre e = elim (recv_exact-cut (C.utf8 m.epoch) m.payload pre (b ∷ suf) e) [
    | inl cut ↦ rw (recv_epoch, cut) refl
    | inr (more, got, behind) ↦
        rw (recv_epoch, got, good.decodes m.epoch)
          (ground (
            arith,
            recv_payload-cut more behind,
            (==_iff (epoch_hash32 C m.epoch) (epoch_hash32 C m.epoch)).1 refl,
          ))
  ]

  recv_length-cut :
      (pre : List ℕ)
      → Fits C good m
      → pre ++ b ∷ suf ≡ pack_short (length (C.utf8 m.epoch)) ++ (C.utf8 m.epoch ++ m.payload)
      → recv_length C (sent C good m) pre ≡ nothing
  unfolding recv_length pack_short
  recv_length-cut [] f e = refl
  recv_length-cut (x ∷ []) f e = refl
  recv_length-cut (x ∷ y ∷ pre) f e =
      let high : x ≡ length (C.utf8 m.epoch) / 256 % 256 = ground arith in
      let low : y ≡ length (C.utf8 m.epoch) % 256 = ground arith in
      let rest : pre ++ b ∷ suf ≡ C.utf8 m.epoch ++ m.payload = ground arith in
      rw (high, low, short-pack_short (length (C.utf8 m.epoch)) f.epoch) (recv_epoch-cut pre rest)

  -- A message that is cut short anywhere is waited for: what came of it gives neither a message nor an
  -- error, where its payload is one that the receiver takes.
  pub activation_cut :
      (budget : Option ℕ) (bytes pre : List ℕ)
      → encode_activation C m ≡ some bytes
      → length m.payload ≤ most_bytes
      → exceeds (length m.payload) budget ≡ false
      → pre ++ b ∷ suf ≡ bytes
      → recv_activation C budget pre ≡ nothing
  unfolding recv_activation checked wire pack_word
  activation_cut budget bytes pre h small within e =
      let (f, whole) = encode_activation-Fits C good m bytes h in
      elim (recv_exact-cut (header_bytes C good m)
        (pack_short (length (C.utf8 m.epoch)) ++ (C.utf8 m.epoch ++ m.payload)) pre (b ∷ suf)
        (e ∙ sym whole)) [
          | inl cut ↦ rw cut refl
          | inr (more, got, behind) ↦
              let big : ltb most_bytes (length m.payload) ≡ false = ground arith in
              rw got (
                ap (λ h. checked C budget h more) (unpack-sent C good m f)
                ∙ rw (checked, big, within) (recv_length-cut more f behind))
        ]
