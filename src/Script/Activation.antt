-- ===== src/Script/Activation.antt =====
-- The data plane of scripts/inference_pipeline_lib.py: `encode_activation` and `recv_activation`. Bytes
-- are natural numbers, and so are the numbers of a message: `struct.pack` fails on one that does not fit.
-- SHA-256, UTF-8 and the texts
-- that it encodes are parameters. A socket is the bytes that come in before its deadline.
pub mod Bytes
pub mod Arrival
pub mod Cut
use share_compute.Prelude.{
  ℕ, zero, suc, ◌+◌, ◌*◌, ◌^◌, ◌/◌, ◌%◌, ◌==◌, String, Bool, true, false, ◌&&◌, Option, none, some,
  List, [], ◌∷◌, ◌++◌, ltb, leb, if◌then◌else◌, length, not,
}

-- Texts, `hashlib.sha256(_).digest()`, `str.encode("utf-8")` and `bytes.decode("utf-8")`, which may fail.
pub record Codec : Type 1 where
  pub Text : Type 0
  pub sha256 : List ℕ → List ℕ
  pub utf8 : Text → List ℕ
  pub decode : List ℕ → Option Text

-- `DATA_HEADER_MAGIC`.
abbrev pub magic : List ℕ
magic = 83 ∷ 67 ∷ 73 ∷ 78 ∷ []

abbrev pub header_size : ℕ
header_size = 28

-- 64 * 1024 * 1024.
abbrev pub most_bytes : ℕ
most_bytes = 67108864

-- The big-endian formats `H` and `I`.
unfoldable pub pack_short : ℕ → List ℕ
pack_short n = n / 256 % 256 ∷ n % 256 ∷ []

unfoldable pub pack_word : ℕ → List ℕ
pack_word n = n / 16777216 % 256 ∷ n / 65536 % 256 ∷ n / 256 % 256 ∷ n % 256 ∷ []

unfoldable pub short : ℕ → ℕ → ℕ
short a b = a * 256 + b

unfoldable pub word : ℕ → ℕ → ℕ → ℕ → ℕ
word a b c d = a * 16777216 + b * 65536 + c * 256 + d

-- `struct.unpack("!I", digest[:4])`, of a digest that has four bytes.
unfoldable pub first_word : List ℕ → ℕ
unfolding word
first_word (a ∷ b ∷ c ∷ d ∷ rest) = word a b c d
first_word _ = 0

-- The fields of a header.
pub record Header : Type 0 where
  pub tag : List ℕ
  pub epoch_hash : ℕ
  pub token_id : ℕ
  pub rank_from : ℕ
  pub rank_to : ℕ
  pub nbytes : ℕ
  pub reserved : ℕ

unfoldable pub words : List ℕ → List ℕ
unfolding word
words (a ∷ b ∷ c ∷ d ∷ rest) = word a b c d ∷ words rest
words _ = []

abbrev pub header_of : List ℕ → List ℕ → Option Header
header_of tag (hash ∷ token ∷ from ∷ to ∷ nbytes ∷ reserved ∷ []) = some (record {
  tag = tag;
  epoch_hash = hash;
  token_id = token;
  rank_from = from;
  rank_to = to;
  nbytes = nbytes;
  reserved = reserved;
})
header_of tag _ = none

-- `struct.unpack(DATA_HEADER_FMT, header)`.
unfoldable pub unpack : List ℕ → Option Header
unfolding words
unpack (a ∷ b ∷ c ∷ d ∷ rest) = header_of (a ∷ b ∷ c ∷ d ∷ []) (words rest)
unpack _ = none

abbrev pub same_bytes : List ℕ → List ℕ → Bool
same_bytes [] [] = true
same_bytes (a ∷ xs) (b ∷ ys) = (a == b) && same_bytes xs ys
same_bytes _ _ = false

abbrev pub prepend : ℕ → Option (List ℕ × List ℕ) → Option (List ℕ × List ℕ)
prepend b none = none
prepend b (some (front, rest)) = some (b ∷ front, rest)

-- `_recv_exact`: the first `n` bytes and what follows them, or none where fewer come in.
unfoldable pub recv_exact : ℕ → List ℕ → Option (List ℕ × List ℕ)
recv_exact zero bytes = some ([], bytes)
recv_exact (suc n) [] = none
recv_exact (suc n) (b ∷ bytes) = prepend b (recv_exact n bytes)

-- What `recv_activation` raises: its own errors, and those of `struct` and of the decoder.
pub data ReceiveError : Type 0 where
  bad_magic unreasonable_size over_budget hash_mismatch bad_header bad_text : ReceiveError

-- `max_payload_bytes is not None and nbytes > max_payload_bytes`.
abbrev pub exceeds : ℕ → Option ℕ → Bool
exceeds n none = false
exceeds n (some budget) = ltb budget n

abbrev fits : ℕ → Bool
fits n = ltb n 4294967296

module _ (C : Codec) where
  open C use {Text, sha256, utf8, decode}

  pub record ActivationMsg : Type 0 where
    pub epoch : Text
    pub token_id : ℕ
    pub rank_from : ℕ
    pub rank_to : ℕ
    pub payload : List ℕ

  -- `None`, an error, or a message with the bytes behind it.
  pub data Received : Type 0 where
    nothing : Received
    raises : ReceiveError → Received
    message : ActivationMsg → List ℕ → Received

  unfoldable pub epoch_hash32 : Text → ℕ
  unfolding first_word
  epoch_hash32 epoch = first_word (sha256 (utf8 epoch))

  -- The bytes of a message whose numbers fit.
  unfoldable pub wire : ActivationMsg → List ℕ
  unfolding pack_word pack_short epoch_hash32
  wire m =
      magic
      ++ pack_word (epoch_hash32 m.epoch)
      ++ pack_word m.token_id
      ++ pack_word m.rank_from
      ++ pack_word m.rank_to
      ++ pack_word (length m.payload)
      ++ pack_word 0
      ++ pack_short (length (utf8 m.epoch))
      ++ utf8 m.epoch
      ++ m.payload

  unfoldable pub encode_activation : ActivationMsg → Option (List ℕ)
  unfolding wire
  encode_activation m =
      if fits m.token_id
        && (fits m.rank_from
            && (fits m.rank_to && (fits (length m.payload) && ltb (length (utf8 m.epoch)) 65536)))
      then some (wire m)
      else none

  -- `recv_activation` when the payload is next.
  unfoldable pub recv_payload : Header → Text → List ℕ → Received
  unfolding recv_exact
  recv_payload h epoch bytes = elim (recv_exact h.nbytes bytes) [
    | none ↦ nothing
    | some (payload, rest) ↦
        message
          (record {
            epoch = epoch;
            token_id = h.token_id;
            rank_from = h.rank_from;
            rank_to = h.rank_to;
            payload = payload;
          })
          rest
  ]

  -- When the epoch is next.
  unfoldable pub recv_epoch : Header → ℕ → List ℕ → Received
  unfolding recv_exact recv_payload epoch_hash32
  recv_epoch h size bytes = elim (recv_exact size bytes) [
    | none ↦ nothing
    | some (text, rest) ↦ elim (decode text) [
      | none ↦ raises bad_text
      | some epoch ↦
          let payload = recv_payload h epoch rest in
          if epoch_hash32 epoch == h.epoch_hash then payload else raises hash_mismatch
    ]
  ]

  -- When the length of the epoch is next.
  unfoldable pub recv_length : Header → List ℕ → Received
  unfolding recv_epoch short
  recv_length h (a ∷ b ∷ bytes) = recv_epoch h (short a b) bytes
  recv_length h _ = nothing

  unfoldable pub checked : Option ℕ → Option Header → List ℕ → Received
  unfolding recv_length
  checked budget none bytes = raises bad_header
  checked budget (some h) bytes =
      let more = recv_length h bytes in
      if not (same_bytes h.tag magic)
      then raises bad_magic
      else if ltb most_bytes h.nbytes
      then raises unreasonable_size
      else if exceeds h.nbytes budget
      then raises over_budget
      else more

  unfoldable pub recv_activation : Option ℕ → List ℕ → Received
  unfolding recv_exact unpack checked
  recv_activation budget bytes = elim (recv_exact header_size bytes) [
    | none ↦ nothing
    | some (header, rest) ↦ checked budget (unpack header) rest
  ]
