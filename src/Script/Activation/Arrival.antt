-- ===== src/Script/Activation/Arrival.antt =====
-- Messages arrive as they were sent (scripts/inference_pipeline_lib.py).
use mathlib.Core.List.{append_assoc}
use share_compute.Prelude.{
  ℕ, ◌<◌, ◌≤◌, ==_iff, true, false, Option, some, List, [], ◌∷◌, ◌++◌, length, ltb, ltb→lt, ◌≡◌,
  refl, sym, ap, ◌∙◌, ◌⊎◌, inl, inr, arith, All, Bool-cases,
}
use share_compute.Script.Activation.{
  Codec, ActivationMsg, Header, magic, most_bytes, exceeds, pack_short, pack_word, word, words,
  unpack, recv_exact, same_bytes, first_word, epoch_hash32, wire, encode_activation, recv_payload,
  recv_epoch, recv_length, checked, recv_activation, raises, message, unreasonable_size,
  over_budget,
}
use share_compute.Script.Activation.Bytes.{short-pack_short, word-pack_word, recv_exact-append}

-- A digest is made of bytes, and what UTF-8 encodes it decodes to the same text.
pub record IsCodec (C : Codec) : Type 0 where
  pub digests : (bytes : List ℕ) → All (λ b. b < 256) (C.sha256 bytes)
  pub decodes : (s : C.Text) → C.decode (C.utf8 s) ≡ some s

first_word-less : (bytes : List ℕ) → All (λ b. b < 256) bytes → first_word bytes < 4294967296
unfolding first_word word
first_word-less [] h = omega arith
first_word-less (a ∷ []) h = omega arith
first_word-less (a ∷ b ∷ []) h = omega arith
first_word-less (a ∷ b ∷ c ∷ []) h = omega arith
first_word-less (a ∷ b ∷ c ∷ d ∷ bytes) h = omega (arith, h.0, h.1.0, h.1.1.0, h.1.1.1.0)

same_magic : same_bytes magic magic ≡ true
same_magic = refl

module _ (C : Codec) (good : IsCodec C) where
  -- The header that is sent with a message.
  abbrev pub sent : ActivationMsg C → Header
  sent m = record {
    tag = magic;
    epoch_hash = epoch_hash32 C m.epoch;
    token_id = m.token_id;
    rank_from = m.rank_from;
    rank_to = m.rank_to;
    nbytes = length m.payload;
    reserved = 0;
  }

  -- The numbers of a message fit their fields.
  pub record Fits (m : ActivationMsg C) : Type 0 where
    pub token_id : m.token_id < 4294967296
    pub rank_from : m.rank_from < 4294967296
    pub rank_to : m.rank_to < 4294967296
    pub payload : length m.payload < 4294967296
    pub epoch : length (C.utf8 m.epoch) < 65536

  pub encode_activation-Fits :
      (m : ActivationMsg C) (bytes : List ℕ)
      → encode_activation C m ≡ some bytes
      → Fits m × (wire C m ≡ bytes)
  unfolding encode_activation
  encode_activation-Fits m bytes h = (
    record {
      token_id = ground arith;
      rank_from = ground arith;
      rank_to = ground arith;
      payload = ground arith;
      epoch = ground arith;
    },
    ground arith,
  )

  -- What comes in behind the header.
  abbrev pub behind : ActivationMsg C → List ℕ → List ℕ
  behind m rest = pack_short (length (C.utf8 m.epoch)) ++ ((C.utf8 m.epoch ++ m.payload) ++ rest)

  -- The bytes of the header.
  abbrev pub header_bytes : ActivationMsg C → List ℕ
  header_bytes m =
      magic
      ++ pack_word (epoch_hash32 C m.epoch)
      ++ pack_word m.token_id
      ++ pack_word m.rank_from
      ++ pack_word m.rank_to
      ++ pack_word (length m.payload)
      ++ pack_word 0

  pub unpack-sent : (m : ActivationMsg C) → Fits m → unpack (header_bytes m) ≡ some (sent m)
  unfolding unpack words pack_word epoch_hash32
  unpack-sent m f =
      let hash =
        word-pack_word (epoch_hash32 C m.epoch)
          (first_word-less (C.sha256 (C.utf8 m.epoch)) (good.digests (C.utf8 m.epoch))) in
      rw
        (
          hash,
          word-pack_word m.token_id f.token_id,
          word-pack_word m.rank_from f.rank_from,
          word-pack_word m.rank_to f.rank_to,
          word-pack_word (length m.payload) f.payload,
        )
        refl

  recv-sent :
      (m : ActivationMsg C) (budget : Option ℕ) (rest : List ℕ)
      → Fits m
      → recv_activation C budget (wire C m ++ rest)
        ≡ checked C budget (some (sent m)) (behind m rest)
  unfolding recv_activation wire pack_word pack_short recv_exact
  recv-sent m budget rest f = ap (λ h. checked C budget h (behind m rest)) (unpack-sent m f)

  -- Behind the header comes the message.
  pub recv_length-sent :
      (m : ActivationMsg C) (rest : List ℕ)
      → Fits m
      → recv_length C (sent m) (behind m rest) ≡ message m rest
  unfolding recv_length recv_epoch recv_payload pack_short
  recv_length-sent m rest f =
      rw
        (
          short-pack_short (length (C.utf8 m.epoch)) f.epoch,
          append_assoc (C.utf8 m.epoch) m.payload rest,
          recv_epoch,
          recv_exact-append (C.utf8 m.epoch) (m.payload ++ rest),
          good.decodes m.epoch,
          recv_payload,
          recv_exact-append m.payload rest,
        )
        (ground (arith, (==_iff (epoch_hash32 C m.epoch) (epoch_hash32 C m.epoch)).1 refl))

  -- A message that is sent arrives as it was, and what follows it stays in the stream, unless its
  -- payload is refused for its size: first for more than 64 MiB, then for more than the budget.
  pub activation_arrives :
      (m : ActivationMsg C) (budget : Option ℕ) (bytes rest : List ℕ)
      → encode_activation C m ≡ some bytes
      → ((most_bytes < length m.payload)
          × (recv_activation C budget (bytes ++ rest) ≡ raises unreasonable_size))
        ⊎ ((length m.payload ≤ most_bytes)
            × (exceeds (length m.payload) budget ≡ true)
            × (recv_activation C budget (bytes ++ rest) ≡ raises over_budget))
        ⊎ ((length m.payload ≤ most_bytes)
            × (exceeds (length m.payload) budget ≡ false)
            × (recv_activation C budget (bytes ++ rest) ≡ message m rest))
  unfolding checked
  activation_arrives m budget bytes rest h =
      let (f, whole) = encode_activation-Fits m bytes h in
      let got =
        ap (λ l. recv_activation C budget (l ++ rest)) (sym whole) ∙ recv-sent m budget rest f in
      let more = recv_length-sent m rest f in
      elim (Bool-cases (ltb most_bytes (length m.payload))) [
        | inl big ↦ inl (ltb→lt _ _ big, got ∙ rw (checked, big) refl)
        | inr small ↦ elim (Bool-cases (exceeds (length m.payload) budget)) [
          | inl over ↦ inr (inl (ground arith, over, got ∙ rw (checked, small, over) refl))
          | inr within ↦ inr (inr (ground arith, within, got ∙ rw (checked, small, within) more))
        ]
      ]
