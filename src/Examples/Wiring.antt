-- ===== src/Examples/Wiring.antt =====
-- Tests of Transport.Wire, Script and Measured.Proxy.
use mathlib.Core.Option as Option
use share_compute.Prelude.{
  ℕ, ◌==◌, ==_iff, ◌∙◌, Option, not, ◌||◌, all, contains, keys, String, Bool, true, false, ◌&&◌,
  none, some, List, [], ◌∷◌, ◌++◌, ◌≡◌, refl, sym, ap, ap₂, inl, inr, arith, Dict, lookup,
  string_eq, ◌=?◌, if◌then◌else◌, Bool-cases,
}
use share_compute.Platform.{macos}
use share_compute.Planner.Apportion as Swift
use share_compute.Script.Apportion.{apportion}
use share_compute.Script.Agreement.{apportion-same}
use share_compute.Examples.Floats.{signed, python, python-IsFloat}
use share_compute.Transport.Wire.{
  Field, number, text, Json, encoded, encode_join_line, decode_join_line, new,
}
use share_compute.Transport.Wire.Lines.{IsJson, IsPython, join_line_arrives}
use share_compute.Transport.Wire.Hub.{Python, Hub, ack, handle_client}
use share_compute.Measured.Windows.{Grows}
use share_compute.Measured.Proxy.{
  started, Event, accepts, reads, samples, to_server, to_client, sampled, log, log-Grows,
}

apportion-same_example :
    apportion python 10 (18 ∷ 38 ∷ 0 ∷ []) ≡ Swift.apportion signed 10 (18 ∷ 38 ∷ 0 ∷ [])
apportion-same_example = apportion-same python python-IsFloat 10 (18 ∷ 38 ∷ 0 ∷ []) (omega arith)

-- A coder that knows one object, the request of a Mac with 16 GB.
abbrev request : Dict String (Field ℕ)
request =
    ("v", number 1)
    ∷ ("type", text "join")
    ∷ ("platform", text "macos")
    ∷ ("node_id", text "a")
    ∷ ("usable_gb", number 16)
    ∷ []

abbrev same_field : Field ℕ → Field ℕ → Bool
same_field (number a) (number b) = a == b
same_field (text s) (text t) = s =? t
same_field _ _ = false

abbrev same_object : Dict String (Field ℕ) → Dict String (Field ℕ) → Bool
same_object [] [] = true
same_object ((k, v) ∷ o) ((j, w) ∷ p) = (k =? j) && same_field v w && same_object o p
same_object _ _ = false

same_field-equal : (v w : Field ℕ) → same_field v w ≡ true → v ≡ w
same_field-equal (number a) (number b) h = ap number ((==_iff a b).0 h)
same_field-equal (text s) (text t) h = ap text ((string_eq.beq_iff s t).0 h)
same_field-equal (number a) (text t) h = absurd (ground arith)
same_field-equal (text s) (number b) h = absurd (ground arith)

same_object-equal : (o p : Dict String (Field ℕ)) → same_object o p ≡ true → o ≡ p
same_object-equal [] [] h = refl
same_object-equal (b ∷ o) [] h = absurd (ground arith)
same_object-equal [] (b ∷ p) h = absurd (ground arith)
same_object-equal ((k, v) ∷ o) ((j, w) ∷ p) h =
    let field : same_field v w ≡ true = ground arith in
    let key : (k =? j) ≡ true = ground arith in
    let rest : same_object o p ≡ true = ground arith in
    ap₂ (λ b m. b ∷ m)
      (ap₂ (λ x y. (x, y)) ((string_eq.beq_iff k j).0 key) (same_field-equal v w field))
      (same_object-equal o p rest)

abbrev printed : List ℕ
printed = 123 ∷ (34 ∷ 118 ∷ 34 ∷ 58 ∷ 49 ∷ []) ++ 125 ∷ []

abbrev coder : Json
coder = record {
  Number = ℕ;
  of_int = λ n. n;
  to_int = some;
  print = λ o. if same_object o request then some printed else none;
  parse = λ bytes. some request;
}

abbrev text_is : Field ℕ → String → Bool
text_is (number a) t = false
text_is (text s) t = s =? t

abbrev text_of : Field ℕ → String
text_of (number a) = ""
text_of (text s) = s

abbrev truth : Field ℕ → Bool
truth (number a) = not (a == 0)
truth (text s) = not (s =? "")

abbrev number_of : Field ℕ → Option ℕ
number_of (number a) = some a
number_of (text s) = none

map_id : (o : Option (Field ℕ)) → Option.map (λ v. v) o ≡ o
map_id none = refl
map_id (some v) = refl

prints :
    (o : Dict String (Field ℕ)) (bytes : List ℕ)
    → (if same_object o request then some printed else none) ≡ some bytes
    → (o ≡ request) × (bytes ≡ printed)
prints o bytes h = elim (Bool-cases (same_object o request)) [
  | inl e ↦ (same_object-equal o request e, ground arith)
  | inr e ↦ absurd (ground arith)
]

coder-IsJson : IsJson coder
coder-IsJson = record {
  to_int-of_int = λ n. refl;
  braces = λ o bytes h. (34 ∷ 118 ∷ 34 ∷ 58 ∷ 49 ∷ [], (prints o bytes h).1);
  one_line = λ o bytes h.
      rw (prints o bytes h).1 (refl, (refl, (refl, (refl, (refl, (refl, (refl, tt)))))));
  reads = λ o bytes h. (request, refl, λ k. ap (lookup k) (sym (prints o bytes h).0));
}

-- Python's side of that coder.
abbrev python_coder : Python
python_coder = record {
  Value = Field ℕ;
  Document = Dict String (Field ℕ);
  Float = ℕ;
  loads = λ bytes. some request;
  fields = some;
  is_text = text_is;
  str = text_of;
  is_true = truth;
  to_float = number_of;
  of_nat = λ n. n;
}

python_coder-IsPython : IsPython coder python_coder (λ v. v)
python_coder-IsPython = record {
  loads = λ o bytes h. (
    request,
    request,
    refl,
    refl,
    λ k. ap (lookup k) (sym (prints o bytes h).0) ∙ sym (map_id (lookup k o)),
  );
  texts = λ s t. refl;
  strs = λ s. refl;
  truths = λ s. refl;
}

-- The hub has a phone and waits for a Mac.
abbrev hub : Hub python_coder
hub = record {
  expected = "macos" ∷ "ios" ∷ [];
  connected = ("ios", record { platform = "ios"; node_id = "b"; usable_gb = 6 }) ∷ [];
  done = false;
}

join_line_arrives_example :
    let (after, reply) = handle_client python_coder hub ((printed ++ 10 ∷ []) ++ 7 ∷ []) in
    (reply ≡ ack "a" "macos")
    × ((q : String)
        → lookup q after.connected ≡ (
            if "macos" =? q
            then some (record { platform = "macos"; node_id = "a"; usable_gb = 16 })
            else lookup q hub.connected))
    × (after.done ≡ (all (contains (keys after.connected)) hub.expected || hub.done))
    × ((bytes : List ℕ) × (printed ++ 10 ∷ [] ≡ bytes ++ 10 ∷ [])
        × (decode_join_line coder bytes ≡ some (new coder macos "a" 16)))
unfolding encode_join_line encoded new share_compute.Platform.raw_value
join_line_arrives_example =
    join_line_arrives coder python_coder (λ v. v) coder-IsJson python_coder-IsPython hub macos "a"
      16 16 (printed ++ 10 ∷ []) (7 ∷ []) refl refl refl

abbrev traffic : List Event
traffic = accepts ∷ reads 1 to_server 100 ∷ samples 5 ∷ reads 1 to_client 40 ∷ samples 9 ∷ []

log-Grows_example : Grows (sampled 3 started) (log traffic started)
log-Grows_example = log-Grows 3 traffic started (omega arith, (omega arith, tt))
