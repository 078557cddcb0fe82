-- ===== src/Prelude/Reorder.antt =====
-- Rearrangements of a list, and sorting that does not see them.
use mathlib.Core.Path.{◌≡◌, refl, sym, ◌∙◌, ap}
use mathlib.Core.Logic.{◌≢◌, inl, inr}
use share_compute.Prelude.Dictionary.{Eq, ◌=?◌, Dict, keys, lookup, insert, map_values, AllBindings}
use mathlib.Core.Bool.{Bool, true, false, not}
use mathlib.Core.List.{List, [], ◌∷◌}
use native.Mathlib.Omega.{arith}
use share_compute.Prelude.Tests.{if◌then◌else◌, Bool-cases}
use share_compute.Prelude.Lists.{filter}
use share_compute.Prelude.Sort.{insert_by, sort_by}

-- One list is the other one rearranged by swaps of neighbours that `Apart` tells apart. Where all
-- elements are apart these are the permutations.
pub data Reorders {ℓ} {A : Type ℓ} (Apart : A → A → Type 0) : List A → List A → Type ℓ where
  nil : Reorders Apart [] []
  cons : (x : A) {xs ys : List A} → Reorders Apart xs ys → Reorders Apart (x ∷ xs) (x ∷ ys)
  swap : (x y : A) (xs : List A) → Apart x y → Reorders Apart (x ∷ y ∷ xs) (y ∷ x ∷ xs)
  trans : {xs ys zs : List A} → Reorders Apart xs ys → Reorders Apart ys zs → Reorders Apart xs zs

module _ {ℓ} {A : Type ℓ} (Apart : A → A → Type 0) where
  pub Reorders-refl : (xs : List A) → Reorders Apart xs xs
  Reorders-refl [] = nil
  Reorders-refl (x ∷ xs) = cons x (Reorders-refl xs)

  pub filter-Reorders :
      (p : A → Bool) {xs ys : List A}
      → Reorders Apart xs ys
      → Reorders Apart (filter p xs) (filter p ys)
  filter-Reorders p nil = nil
  filter-Reorders p (cons x r) = keep (filter-Reorders p r) (p x)
    where
      keep :
          {l r : List A}
          → Reorders Apart l r
          → (b : Bool) → Reorders Apart (if b then x ∷ l else l) (if b then x ∷ r else r)
      keep h true = cons x h
      keep h false = h
  filter-Reorders p (swap x y xs a) = swapped (p x) (p y)
    where
      swapped :
          (b c : Bool)
          → Reorders Apart
              (if b
                then x ∷ (if c then y ∷ filter p xs else filter p xs)
                else if c
                then y ∷ filter p xs
                else filter p xs)
              (if c
                then y ∷ (if b then x ∷ filter p xs else filter p xs)
                else if b
                then x ∷ filter p xs
                else filter p xs)
      swapped true true = swap x y (filter p xs) a
      swapped true false = Reorders-refl (x ∷ filter p xs)
      swapped false true = Reorders-refl (y ∷ filter p xs)
      swapped false false = Reorders-refl (filter p xs)
  filter-Reorders p (trans r s) = trans (filter-Reorders p r) (filter-Reorders p s)

module _ {ℓ} {A : Type ℓ} (lt : A → A → Bool)
    (lt_trans : (x y z : A) → lt x y ≡ true → lt y z ≡ true → lt x z ≡ true) where
  -- Of two elements that are apart, exactly one precedes the other.
  abbrev pub Compared : A → A → Type 0
  Compared x y = lt x y ≡ not (lt y x)

  insert_by_comm :
      (x y : A) (l : List A)
      → Compared x y
      → insert_by lt x (insert_by lt y l) ≡ insert_by lt y (insert_by lt x l)
  unfolding insert_by
  insert_by_comm x y [] h = ground arith
  insert_by_comm x y (z ∷ l) h =
      ground (arith, lt_trans x y z, lt_trans y x z, insert_by_comm x y l h)

  -- Sorting does not see how its input was arranged.
  pub sort_by-Reorders :
      (Apart : A → A → Type 0)
      → ((x y : A) → Apart x y → Compared x y)
      → {xs ys : List A} → Reorders Apart xs ys
      → sort_by lt xs ≡ sort_by lt ys
  unfolding sort_by
  sort_by-Reorders Apart total nil = refl
  sort_by-Reorders Apart total (cons x r) = ap (insert_by lt x) (sort_by-Reorders Apart total r)
  sort_by-Reorders Apart total (swap x y l a) = insert_by_comm x y (sort_by lt l) (total x y a)
  sort_by-Reorders Apart total (trans r s) =
      sort_by-Reorders Apart total r ∙ sort_by-Reorders Apart total s

-- Two bindings of different keys.
abbrev pub KeysApart {ℓ κ} : {K : Type ℓ} {V : Type κ} → K × V → K × V → Type ℓ
KeysApart a b = a.0 ≢ b.0

module _ {K : Type 0} {V : Type 0} ⦃e : Eq K⦄ where
  -- A dictionary's bindings in another order.
  abbrev pub SameDict : Dict K V → Dict K V → Type 0
  SameDict = Reorders KeysApart

  pub lookup-SameDict : (k : K) {m n : Dict K V} → SameDict m n → lookup k m ≡ lookup k n
  unfolding lookup
  lookup-SameDict k nil = refl
  lookup-SameDict k (cons b r) = ground (arith, lookup-SameDict k r)
  lookup-SameDict k (swap a b m h) = ground (arith, e.beq_iff a.0 k, e.beq_iff b.0 k)
  lookup-SameDict k (trans r s) = lookup-SameDict k r ∙ lookup-SameDict k s

  pub insert-SameDict :
      (k : K) (v : V) {m n : Dict K V} → SameDict m n → SameDict (insert k v m) (insert k v n)
  unfolding insert
  insert-SameDict k v nil = Reorders-refl KeysApart ((k, v) ∷ [])
  insert-SameDict k v (cons (j, w) r) = elim (Bool-cases (j =? k)) [
    | inl hit ↦ rw hit (cons (k, v) r)
    | inr miss ↦ rw miss (cons (j, w) (insert-SameDict k v r))
  ]
  insert-SameDict k v (swap (i, v') (j, w) m h) = elim (Bool-cases (i =? k)) [
    | inl hit ↦
        let here : i ≡ k = (e.beq_iff i k).0 hit in
        let there : (j =? k) ≡ false = ground (arith, e.beq_iff j k) in
        rw (hit, there) (swap (k, v) (j, w) m (λ q. h (here ∙ q)))
    | inr miss ↦ elim (Bool-cases (j =? k)) [
      | inl hit ↦
          let here : j ≡ k = (e.beq_iff j k).0 hit in
          rw (hit, miss) (swap (i, v') (k, v) m (λ q. h (q ∙ sym here)))
      | inr other ↦ rw (miss, other) (swap (i, v') (j, w) (insert k v m) h)
    ]
  ]
  insert-SameDict k v (trans r s) = trans (insert-SameDict k v r) (insert-SameDict k v s)

  pub keys-SameDict : {m n : Dict K V} → SameDict m n → Reorders (λ a b. a ≢ b) (keys m) (keys n)
  keys-SameDict nil = nil
  keys-SameDict (cons b r) = cons b.0 (keys-SameDict r)
  keys-SameDict (swap a b m h) = swap a.0 b.0 (keys m) h
  keys-SameDict (trans r s) = trans (keys-SameDict r) (keys-SameDict s)

  pub map_values-SameDict :
      (f : V → V) {m n : Dict K V} → SameDict m n → SameDict (map_values f m) (map_values f n)
  map_values-SameDict f nil = nil
  map_values-SameDict f (cons (j, w) r) = cons (j, f w) (map_values-SameDict f r)
  map_values-SameDict f (swap (i, v) (j, w) m h) = swap (i, f v) (j, f w) (map_values f m) h
  map_values-SameDict f (trans r s) = trans (map_values-SameDict f r) (map_values-SameDict f s)

  pub AllBindings-SameDict {μ} :
      (P : K → V → Type μ) {m n : Dict K V} → SameDict m n → AllBindings P m → AllBindings P n
  AllBindings-SameDict P nil h = tt
  AllBindings-SameDict P (cons b r) h = (h.0, AllBindings-SameDict P r h.1)
  AllBindings-SameDict P (swap a b m q) h = (h.1.0, (h.0, h.1.1))
  AllBindings-SameDict P (trans r s) h = AllBindings-SameDict P s (AllBindings-SameDict P r h)
