-- ===== src/Transport/Wire.antt =====
-- Sources/ShareComputeCore/TcpRingProtocol.swift, `encodeJoinLine` and `decodeJoinLine`, and the end that
-- reads the line, `recv_line` of scripts/four_platform_pool_lib.py. Foundation's JSON coders are a
-- parameter: `print` fails on numbers that JSON does not have. Python's json.loads is an argument of
-- `recv_line`. Bytes are natural numbers.
pub mod Hub
pub mod Lines
use share_compute.Prelude.{
  ℕ, String, Bool, true, false, ◌&&◌, ◌||◌, Option, none, some, List, [], ◌∷◌, ◌++◌, ◌==◌, leb, ◌≡◌,
  if◌then◌else◌, lookup, string_eq, ◌=?◌, Dict,
}
use share_compute.Platform.{PlatformKind, windows, macos, ios, android, raw_value}

pub data Field (N : Type 0) : Type 0 where
  number : N → Field N
  text : String → Field N

pub record Json : Type 1 where
  pub Number : Type 0
  pub of_int : ℕ → Number
  pub to_int : Number → Option ℕ
  pub print : Dict String (Field Number) → Option (List ℕ)
  pub parse : List ℕ → Option (Dict String (Field Number))

-- `TcpRingProtocol.version`.
abbrev pub version : ℕ
version = 1

-- `PlatformKind(rawValue:)`.
unfoldable pub platform_of : String → Option PlatformKind
platform_of s =
    if s =? "windows"
    then some windows
    else if s =? "macos"
    then some macos
    else if s =? "ios"
    then some ios
    else if s =? "android"
    then some android
    else none

-- `data.append(contentsOf: [0x0A])`.
abbrev pub with_newline : Option (List ℕ) → Option (List ℕ)
with_newline none = none
with_newline (some bytes) = some (bytes ++ 10 ∷ [])

abbrev pub bind {ℓ κ} : {A : Type ℓ} {B : Type κ} → Option A → (A → Option B) → Option B
bind none f = none
bind (some a) f = f a

module _ (J : Json) where
  open J use {Number, of_int, to_int, print, parse}

  pub record JoinRequest : Type 0 where
    pub v : ℕ
    pub type_name : String
    pub platform : PlatformKind
    pub node_id : String
    pub usable_gb : Number

  -- `JoinRequest.init`.
  unfoldable pub new : PlatformKind → String → Number → JoinRequest
  new platform node_id usable_gb = record {
    v = version;
    type_name = "join";
    platform = platform;
    node_id = node_id;
    usable_gb = usable_gb;
  }

  -- What the synthesised `encode(to:)` writes, under the names of `CodingKeys`.
  unfoldable pub encoded : JoinRequest → Dict String (Field Number)
  encoded r =
      ("v", number (of_int r.v))
      ∷ ("type", text r.type_name)
      ∷ ("platform", text (raw_value r.platform))
      ∷ ("node_id", text r.node_id)
      ∷ ("usable_gb", number r.usable_gb)
      ∷ []

  unfoldable pub encode_join_line : PlatformKind → String → Number → Option (List ℕ)
  unfolding encoded new
  encode_join_line platform node_id usable_gb =
      with_newline (print (encoded (new platform node_id usable_gb)))

  -- `decode(_:forKey:)` of a number, a text, an integer and a platform: none where it throws.
  abbrev pub as_number : Option (Field Number) → Option Number
  as_number (some (number x)) = some x
  as_number (some (text s)) = none
  as_number none = none

  abbrev pub as_text : Option (Field Number) → Option String
  as_text (some (text s)) = some s
  as_text (some (number x)) = none
  as_text none = none

  -- What the synthesised `init(from:)` reads.
  unfoldable pub decoded : Dict String (Field Number) → Option JoinRequest
  unfolding platform_of
  decoded o = bind (bind (as_number (lookup "v" o)) to_int) λ v.
      bind (as_text (lookup "type" o)) λ type_name.
        bind (bind (as_text (lookup "platform" o)) platform_of) λ platform.
          bind (as_text (lookup "node_id" o)) λ node_id.
            bind (as_number (lookup "usable_gb" o)) λ usable_gb. some (record {
              v = v;
              type_name = type_name;
              platform = platform;
              node_id = node_id;
              usable_gb = usable_gb;
            })

  unfoldable pub decode_join_line : List ℕ → Option JoinRequest
  unfolding decoded
  decode_join_line line = bind (parse line) decoded

-- The white space that `bytes.strip()` takes off.
abbrev pub is_space : ℕ → Bool
is_space b = (b == 32) || (leb 9 b && leb b 13)

abbrev is_nil : List ℕ → Bool
is_nil [] = true
is_nil (b ∷ bytes) = false

unfoldable pub strip_left : List ℕ → List ℕ
strip_left [] = []
strip_left (b ∷ bytes) = let rest = strip_left bytes in if is_space b then rest else b ∷ bytes

unfoldable pub strip_right : List ℕ → List ℕ
strip_right [] = []
strip_right (b ∷ bytes) =
    let rest = strip_right bytes in if is_space b && is_nil rest then [] else b ∷ rest

-- `bytes.strip()`.
abbrev pub strip : List ℕ → List ℕ
strip bytes = strip_right (strip_left bytes)

-- What `recv_line` ends in with what it has received: it waits for more, it raises, or it returns a
-- message and leaves the rest in its buffer.
pub data Received (D : Type 0) : Type 0 where
  waits raises : Received D
  message : D → List ℕ → Received D

-- What `json.loads(raw.decode("utf-8"))` gives, none where it raises.
abbrev pub loaded : {D : Type 0} → Option D → List ℕ → Received D
loaded none rest = raises
loaded (some d) rest = message d rest

-- The loop of `recv_line` over what it has received: `line` is what it has passed of the line that it
-- looks for the end of. Blank lines are skipped.
unfoldable pub recv_line : {D : Type 0} → (List ℕ → Option D) → List ℕ → List ℕ → Received D
unfolding strip_left strip_right
recv_line loads line [] = waits
recv_line loads line (b ∷ bytes) =
    let more = recv_line loads [] bytes in
    let longer = recv_line loads (line ++ b ∷ []) bytes in
    elim (b == 10) [
      | true ↦ elim (is_nil (strip line)) [
        | true ↦ more
        | false ↦ loaded (loads (strip line)) bytes
      ]
      | false ↦ longer
    ]
