-- ===== src/Script/Activation/Bytes.antt =====
-- Big-endian numbers and exact reads (scripts/inference_pipeline_lib.py).
use share_compute.Prelude.{
  ℕ, ◌/◌, ◌%◌, ◌<◌, some, List, [], ◌∷◌, ◌++◌, length, ◌≡◌, refl, ap, arith,
}
use share_compute.Script.Activation.{short, word, recv_exact, prepend}

pub short-pack_short : (n : ℕ) → n < 65536 → short (n / 256 % 256) (n % 256) ≡ n
unfolding short
short-pack_short n h = omega arith

pub word-pack_word :
    (n : ℕ)
    → n < 4294967296
    → word (n / 16777216 % 256) (n / 65536 % 256) (n / 256 % 256) (n % 256) ≡ n
unfolding word
word-pack_word n h = omega arith

pub recv_exact-append : (xs ys : List ℕ) → recv_exact (length xs) (xs ++ ys) ≡ some (xs, ys)
unfolding recv_exact
recv_exact-append [] ys = refl
recv_exact-append (x ∷ xs) ys = ap (prepend x) (recv_exact-append xs ys)
