-- ===== src/Prelude/Dictionary.antt =====
-- Dictionaries as association lists, over keys that a Boolean test compares: what the components
-- use of Swift's `Dictionary`.
use mathlib.Core.Option as Option
use share_compute.Prelude.Tests.{if◌then◌else◌, Bool-cases}
use share_compute.Prelude.Lists.{any, All}
use mathlib.Core.Path.{◌≡◌, refl, ap, subst}
use mathlib.Core.Logic.{◌↔◌, inl, inr}
use mathlib.Core.Bool.{Bool, true, false}
use mathlib.Core.List.{List, [], ◌∷◌, map}
use mathlib.Core.Option.{Option, none, some}
use native.Mathlib.Omega.{arith}
use text.Mathlib.Text.{◌==◌ as str_eq}
use text.Mathlib.TextEquality.{eq_iff}
use Prim.Native.String.{String}

-- A type whose equality a Boolean test decides.
pub record Eq {ℓ} (A : Type ℓ) : Type ℓ where
  pub beq : A → A → Bool
  pub beq_iff : (a b : A) → (beq a b ≡ true) ↔ (a ≡ b)

infix 50 ◌=?◌
abbrev pub ◌=?◌ {ℓ} : {A : Type ℓ} ⦃e : Eq A⦄ → A → A → Bool
◌=?◌ ⦃e⦄ = e.beq

instance abbrev pub string_eq : Eq String
string_eq = record { beq = str_eq; beq_iff = eq_iff }

abbrev pub Dict {ℓ κ} : Type ℓ → Type κ → Type (ℓ ⊔ κ)
Dict K V = List (K × V)

module _ {ℓ} {K : Type ℓ} ⦃e : Eq K⦄ where
  pub =?-refl : (k : K) → (k =? k) ≡ true
  =?-refl k = (e.beq_iff k k).1 refl

  pub =?-sym : (j k : K) → (j =? k) ≡ (k =? j)
  =?-sym j k = ground (arith, e.beq_iff j k, e.beq_iff k j)

  -- `contains` of an array or a set.
  abbrev pub contains : List K → K → Bool
  contains xs k = any (λ x. x =? k) xs

module _ {ℓ κ} {K : Type ℓ} {V : Type κ} where
  abbrev pub keys : Dict K V → List K
  keys m = map (λ b. b.0) m

  abbrev pub values : Dict K V → List V
  values m = map (λ b. b.1) m

module _ {ℓ κ} {K : Type ℓ} {V : Type κ} ⦃e : Eq K⦄ where
  -- `dict[k]`.
  unfoldable pub lookup : K → Dict K V → Option V
  lookup k [] = none
  lookup k ((j, v) ∷ m) = if j =? k then some v else lookup k m

  -- `dict[k] = v`.
  unfoldable pub insert : K → V → Dict K V → Dict K V
  insert k v [] = (k, v) ∷ []
  insert k v ((j, w) ∷ m) = if j =? k then (k, v) ∷ m else (j, w) ∷ insert k v m

  -- `dict.removeValue(forKey: k)`.
  unfoldable pub remove : K → Dict K V → Dict K V
  remove k [] = []
  remove k ((j, w) ∷ m) = let rest = remove k m in if j =? k then rest else (j, w) ∷ rest

  pub lookup-insert :
      (k j : K) (v : V) (m : Dict K V)
      → lookup j (insert k v m) ≡ (if k =? j then some v else lookup j m)
  unfolding lookup insert
  lookup-insert k j v [] = refl
  lookup-insert k j v ((i, w) ∷ m) =
      ground (arith, e.beq_iff k j, e.beq_iff i k, e.beq_iff i j, lookup-insert k j v m)

  pub lookup-remove :
      (k j : K) (m : Dict K V) → lookup j (remove k m) ≡ (if k =? j then none else lookup j m)
  unfolding lookup remove
  lookup-remove k j [] = ground arith
  lookup-remove k j ((i, w) ∷ m) =
      ground (arith, e.beq_iff k j, e.beq_iff i k, e.beq_iff i j, lookup-remove k j m)

  -- A key that is not listed is not bound.
  pub lookup-not_key : (k : K) (m : Dict K V) → contains (keys m) k ≡ false → lookup k m ≡ none
  unfolding lookup
  lookup-not_key k [] h = refl
  lookup-not_key k ((j, v) ∷ m) h = ground (arith, lookup-not_key k m)

  -- Every binding has the property.
  abbrev pub AllBindings {μ} : (K → V → Type μ) → Dict K V → Type μ
  AllBindings P m = All (λ b. P b.0 b.1) m

  pub AllBindings-insert {μ} :
      (P : K → V → Type μ) (k : K) (v : V) (m : Dict K V)
      → P k v
      → AllBindings P m
      → AllBindings P (insert k v m)
  unfolding insert
  AllBindings-insert P k v [] p h = (p, tt)
  AllBindings-insert P k v ((j, w) ∷ m) p h = ground (arith, AllBindings-insert P k v m p h.1)

  pub AllBindings-lookup {μ} :
      (P : K → V → Type μ) (k : K) (m : Dict K V) {v : V}
      → AllBindings P m
      → lookup k m ≡ some v
      → P k v
  unfolding lookup
  AllBindings-lookup P k [] h q = absurd (ground arith)
  AllBindings-lookup P k ((j, w) ∷ m) {v} h q = elim (Bool-cases (j =? k)) [
    | inl hit ↦
        let same : j ≡ k = (e.beq_iff j k).0 hit in
        let found : w ≡ v = ground arith in subst (λ t. P k t) found (subst (λ t. P t w) same h.0)
    | inr miss ↦ AllBindings-lookup P k m h.1 (ground arith)
  ]

-- Every value is replaced by its image.
abbrev pub map_values {ℓ κ μ} :
    {K : Type ℓ} {V : Type κ} {W : Type μ} → (V → W) → Dict K V → Dict K W
map_values f [] = []
map_values f ((k, v) ∷ m) = (k, f v) ∷ map_values f m

pub lookup-map_values {ℓ κ μ} :
    {K : Type ℓ} {V : Type κ} {W : Type μ} ⦃e : Eq K⦄ (f : V → W) (k : K) (m : Dict K V)
    → lookup k (map_values f m) ≡ Option.map f (lookup k m)
unfolding lookup
lookup-map_values f k [] = refl
lookup-map_values f k ((j, v) ∷ m) = ground (arith, lookup-map_values f k m)

pub keys-map_values {ℓ κ μ} :
    {K : Type ℓ} {V : Type κ} {W : Type μ} (f : V → W) (m : Dict K V)
    → map (λ b. b.0) (map_values f m) ≡ map (λ b. b.0) m
keys-map_values f [] = refl
keys-map_values f ((k, v) ∷ m) = ap (λ t. k ∷ t) (keys-map_values f m)

pub AllBindings-map_values {ℓ κ μ ν} :
    {K : Type ℓ} {V : Type κ} (P : K → V → Type μ) (Q : K → V → Type ν) (f : V → V) (m : Dict K V)
    → ((k : K) (v : V) → P k v → Q k (f v))
    → All (λ b. P b.0 b.1) m
    → All (λ b. Q b.0 b.1) (map_values f m)
AllBindings-map_values P Q f [] h p = tt
AllBindings-map_values P Q f ((k, v) ∷ m) h p = (h k v p.0, AllBindings-map_values P Q f m h p.1)
