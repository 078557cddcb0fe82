-- ===== src/Prelude/Sort.antt =====
-- `sorted(by:)`: insertion sort by a Boolean test. Any sort gives the same list where the test is
-- a strict total order on the elements, which it is wherever the components sort.
use Prim.Native.Nat.{ℕ, suc, ◌+◌}
use share_compute.Prelude.Tests.{if◌then◌else◌}
use share_compute.Prelude.Lists.{any, All, length, sum}
use mathlib.Core.Path.{◌≡◌, refl, ◌∙◌, ap}
use mathlib.Core.Bool.{Bool, ◌||◌}
use mathlib.Core.List.{List, [], ◌∷◌, map}
use native.Mathlib.Omega.{arith}

module _ {ℓ} {A : Type ℓ} where
  -- Puts `x` before the first element that it precedes.
  unfoldable pub insert_by : (A → A → Bool) → A → List A → List A
  insert_by lt x [] = x ∷ []
  insert_by lt x (y ∷ ys) = if lt x y then x ∷ y ∷ ys else y ∷ insert_by lt x ys

  unfoldable pub sort_by : (A → A → Bool) → List A → List A
  unfolding insert_by
  sort_by lt [] = []
  sort_by lt (x ∷ xs) = insert_by lt x (sort_by lt xs)

  any-insert_by :
      (lt : A → A → Bool) (p : A → Bool) (x : A) (ys : List A)
      → any p (insert_by lt x ys) ≡ (p x || any p ys)
  unfolding insert_by
  any-insert_by lt p x [] = refl
  any-insert_by lt p x (y ∷ ys) = ground (arith, any-insert_by lt p x ys)

  -- Sorting keeps what is in the list.
  pub any-sort_by :
      (lt : A → A → Bool) (p : A → Bool) (xs : List A) → any p (sort_by lt xs) ≡ any p xs
  unfolding sort_by
  any-sort_by lt p [] = refl
  any-sort_by lt p (x ∷ xs) =
      any-insert_by lt p x (sort_by lt xs) ∙ ap (λ b. p x || b) (any-sort_by lt p xs)

  pub All-insert_by {κ} :
      (lt : A → A → Bool) (P : A → Type κ) (x : A) (ys : List A)
      → P x
      → All P ys
      → All P (insert_by lt x ys)
  unfolding insert_by
  All-insert_by lt P x [] p h = (p, tt)
  All-insert_by lt P x (y ∷ ys) p h = ground (arith, All-insert_by lt P x ys p h.1)

  pub All-sort_by {κ} :
      (lt : A → A → Bool) (P : A → Type κ) (xs : List A) → All P xs → All P (sort_by lt xs)
  unfolding sort_by
  All-sort_by lt P [] h = tt
  All-sort_by lt P (x ∷ xs) h = All-insert_by lt P x (sort_by lt xs) h.0 (All-sort_by lt P xs h.1)

  length-insert_by :
      (lt : A → A → Bool) (x : A) (ys : List A) → length (insert_by lt x ys) ≡ suc (length ys)
  unfolding insert_by
  length-insert_by lt x [] = refl
  length-insert_by lt x (y ∷ ys) = ground (arith, length-insert_by lt x ys)

  pub length-sort_by : (lt : A → A → Bool) (xs : List A) → length (sort_by lt xs) ≡ length xs
  unfolding sort_by
  length-sort_by lt [] = refl
  length-sort_by lt (x ∷ xs) = length-insert_by lt x (sort_by lt xs) ∙ ap suc (length-sort_by lt xs)

  sum-insert_by :
      (lt : A → A → Bool) (f : A → ℕ) (x : A) (ys : List A)
      → sum (map f (insert_by lt x ys)) ≡ f x + sum (map f ys)
  unfolding insert_by
  sum-insert_by lt f x [] = refl
  sum-insert_by lt f x (y ∷ ys) = ground (arith, sum-insert_by lt f x ys)

  -- Sorting keeps the sum of any measure.
  pub sum-sort_by :
      (lt : A → A → Bool) (f : A → ℕ) (xs : List A) → sum (map f (sort_by lt xs)) ≡ sum (map f xs)
  unfolding sort_by
  sum-sort_by lt f [] = refl
  sum-sort_by lt f (x ∷ xs) =
      sum-insert_by lt f x (sort_by lt xs) ∙ ap (λ n. f x + n) (sum-sort_by lt f xs)
