-- ===== src/Transport/Wire/Lines.antt =====
-- The join line's way from Swift's encoder to the hub in Python.
use mathlib.Core.Option as Option
use mathlib.Core.List.{append_assoc, append-nil}
use share_compute.Prelude.{
  ℕ, String, Option, true, false, not, ◌||◌, some, all, contains, keys, if◌then◌else◌, ◌=?◌,
  lookup-insert, List, [], ◌∷◌, ◌++◌, ◌==◌, ◌≡◌, refl, sym, ap, ◌∙◌, inl, inr, arith, All, lookup,
  string_eq, Dict, Option-cases,
}
use share_compute.Platform.{PlatformKind, windows, macos, ios, android, raw_value}
use share_compute.Transport.Wire.Hub.{
  Python, Hub, ack, platforms, is_join, join_platform, join_node, join_usable, register, join,
  handle_client,
}
use share_compute.Transport.Wire.{
  loaded, message, number, text, Json, Field, new, encoded, encode_join_line, decoded,
  decode_join_line, platform_of, is_nil, strip, strip_left, strip_right, recv_line,
}

-- What Foundation documents of its coders: an object is printed in one line between braces, and what is
-- printed reads as an object with the same fields; an integer is a number that reads as itself.
pub record IsJson (J : Json) : Type 0 where
  pub to_int-of_int : (n : ℕ) → J.to_int (J.of_int n) ≡ some n
  pub braces :
      (o : Dict String (Field J.Number)) (bytes : List ℕ)
      → J.print o ≡ some bytes
      → (inner : List ℕ) × (bytes ≡ 123 ∷ (inner ++ 125 ∷ []))
  pub one_line :
      (o : Dict String (Field J.Number)) (bytes : List ℕ)
      → J.print o ≡ some bytes
      → All (λ b. (b == 10) ≡ false) bytes
  pub reads :
      (o : Dict String (Field J.Number)) (bytes : List ℕ)
      → J.print o ≡ some bytes
      → (o' : Dict String (Field J.Number)) × (J.parse bytes ≡ some o')
        × ((k : String) → lookup k o' ≡ lookup k o)

platform_of-raw_value : (p : PlatformKind) → platform_of (raw_value p) ≡ some p
unfolding platform_of raw_value
platform_of-raw_value windows = refl
platform_of-raw_value macos = refl
platform_of-raw_value ios = refl
platform_of-raw_value android = refl

not_nil : (inner : List ℕ) → is_nil (inner ++ 125 ∷ []) ≡ false
not_nil [] = refl
not_nil (b ∷ inner) = refl

strip_right-brace : (inner : List ℕ) → strip_right (inner ++ 125 ∷ []) ≡ inner ++ 125 ∷ []
unfolding strip_right
strip_right-brace [] = refl
strip_right-brace (b ∷ inner) = rw (strip_right-brace inner) (ground (arith, not_nil inner))

-- A text between braces has no white space at its ends.
strip-braces : (inner : List ℕ) → strip (123 ∷ (inner ++ 125 ∷ [])) ≡ 123 ∷ (inner ++ 125 ∷ [])
unfolding strip_left strip_right
strip-braces inner = rw (strip_right-brace inner) refl

recv_line-other :
    {D : Type 0} (loads : List ℕ → Option D) (b : ℕ) (line bytes : List ℕ)
    → (b == 10) ≡ false
    → recv_line loads line (b ∷ bytes) ≡ recv_line loads (line ++ b ∷ []) bytes
unfolding recv_line
recv_line-other loads b line bytes h = ground arith

-- Up to a newline the buffer is passed over.
recv_line-passes :
    {D : Type 0} (loads : List ℕ → Option D) (line body rest : List ℕ)
    → All (λ b. (b == 10) ≡ false) body
    → recv_line loads line (body ++ 10 ∷ rest) ≡ recv_line loads (line ++ body) (10 ∷ rest)
recv_line-passes loads line [] rest h =
    ap (λ l. recv_line loads l (10 ∷ rest)) (sym (append-nil line))
recv_line-passes loads line (b ∷ body) rest h =
    recv_line-other loads b line (body ++ 10 ∷ rest) h.0
    ∙ recv_line-passes loads (line ++ b ∷ []) body rest h.1
    ∙ ap (λ l. recv_line loads l (10 ∷ rest)) (append_assoc line (b ∷ []) body)

recv_line-body :
    {D : Type 0} (loads : List ℕ → Option D) (body inner rest : List ℕ)
    → body ≡ 123 ∷ (inner ++ 125 ∷ [])
    → All (λ b. (b == 10) ≡ false) body
    → recv_line loads [] ((body ++ 10 ∷ []) ++ rest) ≡ loaded (loads body) rest
unfolding recv_line
recv_line-body loads body inner rest e h =
    ap (recv_line loads []) (append_assoc body (10 ∷ []) rest)
    ∙ recv_line-passes loads [] body rest h
    ∙ ends
  where
    ends : recv_line loads body (10 ∷ rest) ≡ loaded (loads body) rest
    ends = rw e (rw (strip-braces inner) refl)

module _ (J : Json) (good : IsJson J) where
  decoded-encoded :
      (o' : Dict String (Field J.Number)) (platform : PlatformKind) (node : String) (gb : J.Number)
      → ((k : String) → lookup k o' ≡ lookup k (encoded J (new J platform node gb)))
      → decoded J o' ≡ some (new J platform node gb)
  unfolding decoded encoded new lookup
  decoded-encoded o' platform node gb h =
      rw
        (
          h "v",
          h "type",
          h "platform",
          h "node_id",
          h "usable_gb",
          good.to_int-of_int 1,
          platform_of-raw_value platform,
        )
        refl

  -- What Swift prints it reads as it was.
  decode-encode :
      (platform : PlatformKind) (node : String) (gb : J.Number) (bytes : List ℕ)
      → J.print (encoded J (new J platform node gb)) ≡ some bytes
      → decode_join_line J bytes ≡ some (new J platform node gb)
  unfolding decode_join_line
  decode-encode platform node gb bytes e =
      let (o', parsed, fields) = good.reads (encoded J (new J platform node gb)) bytes e in
      rw parsed (decoded-encoded o' platform node gb fields)

-- What both sides document of a text in JSON, and of an object that Swift prints and Python loads: it
-- has the same fields, whose values stand for Swift's.
pub record IsPython (J : Json) (P : Python) (value : Field J.Number → P.Value) : Type 0 where
  pub loads :
      (o : Dict String (Field J.Number)) (bytes : List ℕ)
      → J.print o ≡ some bytes
      → (d : P.Document) × (msg : Dict String P.Value) × (P.loads bytes ≡ some d)
        × (P.fields d ≡ some msg)
        × ((k : String) → lookup k msg ≡ Option.map value (lookup k o))
  pub texts : (s t : String) → P.is_text (value (text s)) t ≡ (s =? t)
  pub strs : (s : String) → P.str (value (text s)) ≡ s
  pub truths : (s : String) → P.is_true (value (text s)) ≡ not (s =? "")

platforms-raw_value : (p : PlatformKind) → contains platforms (raw_value p) ≡ true
unfolding raw_value
platforms-raw_value windows = refl
platforms-raw_value macos = refl
platforms-raw_value ios = refl
platforms-raw_value android = refl

module _ (J : Json) (P : Python) (value : Field J.Number → P.Value) (good : IsJson J)
    (python : IsPython J P value) where
  join-encoded :
      (hub : Hub P) (platform : PlatformKind) (node : String) (gb : J.Number) (gigabytes : P.Float)
      (msg : Dict String P.Value)
      → ((k : String)
          → lookup k msg ≡ Option.map value (lookup k (encoded J (new J platform node gb))))
      → (node =? "") ≡ false
      → P.to_float (value (number gb)) ≡ some gigabytes
      → join P hub msg
        ≡ register P hub
            (record { platform = raw_value platform; node_id = node; usable_gb = gigabytes })
  unfolding join is_join join_platform join_node join_usable encoded new lookup
  join-encoded hub platform node gb gigabytes msg h named float =
      let kind : is_join P (lookup "type" msg) ≡ true =
        rw (h "type") (rw (python.texts "join" "join") refl) in
      let seat : join_platform P (lookup "platform" msg) ≡ raw_value platform =
        rw (h "platform") (python.strs (raw_value platform)) in
      let who : join_node P (lookup "node_id" msg) (raw_value platform) ≡ node =
        rw (h "node_id") (rw (python.truths node, named) (python.strs node)) in
      let much : join_usable P (lookup "usable_gb" msg) (raw_value platform) ≡ some gigabytes =
        rw (h "usable_gb") float in
      rw (join, kind, seat, platforms-raw_value platform, much, seat, who) refl

  -- A join request arrives as it was sent: from the line that the Swift side writes for a node with a
  -- name, whatever follows the line, the hub registers a peer of that platform, with that name and
  -- with the float of those gigabytes, acknowledges it, and forgets no peer of another platform; it is
  -- done if it was or if no expected platform is missing any more. The Swift side reads its own line
  -- as the request, too.
  pub join_line_arrives :
      (hub : Hub P) (platform : PlatformKind) (node : String) (gb : J.Number) (gigabytes : P.Float)
      (line rest : List ℕ)
      → encode_join_line J platform node gb ≡ some line
      → (node =? "") ≡ false
      → P.to_float (value (number gb)) ≡ some gigabytes
      → let (after, reply) = handle_client P hub (line ++ rest) in
        (reply ≡ ack node (raw_value platform))
        × ((q : String)
            → lookup q after.connected ≡ (
                if raw_value platform =? q
                then some (record {
                  platform = raw_value platform;
                  node_id = node;
                  usable_gb = gigabytes;
                })
                else lookup q hub.connected))
        × (after.done ≡ (all (contains (keys after.connected)) hub.expected || hub.done))
        × ((bytes : List ℕ) × (line ≡ bytes ++ 10 ∷ [])
            × (decode_join_line J bytes ≡ some (new J platform node gb)))
  unfolding encode_join_line handle_client register
  join_line_arrives hub platform node gb gigabytes line rest h named float =
      elim (Option-cases (J.print (encoded J (new J platform node gb)))) [
        | inl e ↦ absurd (ground arith)
        | inr (bytes, e) ↦
            let o = encoded J (new J platform node gb) in
            let whole : bytes ++ 10 ∷ [] ≡ line = ground arith in
            let (inner, shape) = good.braces o bytes e in
            let (d, msg, parsed, object, values) = python.loads o bytes e in
            let taken : recv_line P.loads [] (line ++ rest) ≡ message d rest =
              ap (λ l. recv_line P.loads [] (l ++ rest)) (sym whole)
              ∙ recv_line-body P.loads bytes inner rest shape (good.one_line o bytes e)
              ∙ ap (λ x. loaded x rest) parsed in
            let joined = join-encoded hub platform node gb gigabytes msg values named float in
            rw (handle_client, taken, object, joined)
              (
                refl,
                λ q. lookup-insert (raw_value platform) q _ hub.connected,
                refl,
                (bytes, sym whole, decode-encode J good platform node gb bytes e),
              )
      ]
