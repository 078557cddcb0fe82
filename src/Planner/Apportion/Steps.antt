-- ===== src/Planner/Apportion/Steps.antt =====
-- The single steps of `apportion` (StagePlanner.swift): indices, sums and starved nodes.
use share_compute.Prelude.{
  ℕ, zero, suc, ◌+◌, ◌*◌, ◌≤◌, ◌<◌, none, some, List, [], ◌∷◌, ◌≡◌, refl, ap, ◌∙◌, inl, inr, arith,
  ltb, ◌==◌, if◌then◌else◌, length, get_elem?, sum, All, Bool-cases,
}
use share_compute.Planner.Apportion.{bump, drop_one, first_starved, largest_from, largest}

-- How many nodes have no layer.
unfoldable pub zeros : List ℕ → ℕ
zeros [] = 0
zeros (x ∷ xs) = (if x == 0 then 1 else 0) + zeros xs

pub length-bump : (i : ℕ) (r : List ℕ) → length (bump i r) ≡ length r
unfolding bump
length-bump i [] = refl
length-bump zero (x ∷ r) = refl
length-bump (suc i) (x ∷ r) = ap suc (length-bump i r)

pub sum-bump : (i : ℕ) (r : List ℕ) → i < length r → sum (bump i r) ≡ sum r + 1
unfolding bump
sum-bump i [] h = absurd (omega arith)
sum-bump zero (x ∷ r) h = omega arith
sum-bump (suc i) (x ∷ r) h = omega (arith, sum-bump i r)

length-drop_one : (i : ℕ) (r : List ℕ) → length (drop_one i r) ≡ length r
unfolding drop_one
length-drop_one i [] = refl
length-drop_one zero (x ∷ r) = refl
length-drop_one (suc i) (x ∷ r) = ap suc (length-drop_one i r)

sum-drop_one :
    (j m : ℕ) (r : List ℕ) → get_elem? r j ≡ some m → 1 < m → sum (drop_one j r) + 1 ≡ sum r
unfolding drop_one
sum-drop_one j m [] e h = absurd (ground arith)
sum-drop_one zero m (x ∷ r) e h = ground arith
sum-drop_one (suc j) m (x ∷ r) e h = omega (arith, sum-drop_one j m r e h)

zeros-drop_one :
    (j m : ℕ) (r : List ℕ) → get_elem? r j ≡ some m → 1 < m → zeros (drop_one j r) ≡ zeros r
unfolding drop_one zeros
zeros-drop_one j m [] e h = absurd (ground arith)
zeros-drop_one zero m (x ∷ r) e h = ground arith
zeros-drop_one (suc j) m (x ∷ r) e h =
    ap (λ n. (if x == 0 then 1 else 0) + n) (zeros-drop_one j m r e h)

zeros-bump : (i : ℕ) (r : List ℕ) → get_elem? r i ≡ some 0 → zeros (bump i r) + 1 ≡ zeros r
unfolding bump zeros
zeros-bump i [] e = absurd (ground arith)
zeros-bump zero (x ∷ r) e = ground arith
zeros-bump (suc i) (x ∷ r) e = omega (arith, zeros-bump i r e)

-- Taking a layer from a node with more than one leaves a starved node starved.
drop_one-starved :
    (i j m : ℕ) (r : List ℕ)
    → get_elem? r i ≡ some 0
    → get_elem? r j ≡ some m
    → 1 < m
    → get_elem? (drop_one j r) i ≡ some 0
unfolding drop_one
drop_one-starved i j m [] e f h = absurd (ground arith)
drop_one-starved zero zero m (x ∷ r) e f h = absurd (ground arith)
drop_one-starved zero (suc j) m (x ∷ r) e f h = e
drop_one-starved (suc i) zero m (x ∷ r) e f h = e
drop_one-starved (suc i) (suc j) m (x ∷ r) e f h = drop_one-starved i j m r e f h

pub get_elem?-lt : (i : ℕ) (r : List ℕ) {x : ℕ} → get_elem? r i ≡ some x → i < length r
get_elem?-lt i [] e = absurd (ground arith)
get_elem?-lt zero (x ∷ r) e = omega arith
get_elem?-lt (suc i) (x ∷ r) e = omega (arith, get_elem?-lt i r e)

pub first_starved-some : (r : List ℕ) (i : ℕ) → first_starved r ≡ some i → get_elem? r i ≡ some 0
unfolding first_starved
first_starved-some [] i e = absurd (ground arith)
first_starved-some (x ∷ r) zero e = ground arith
first_starved-some (x ∷ r) (suc i) e = ground (arith, first_starved-some r i)

pub first_starved-none : (r : List ℕ) → first_starved r ≡ none → All (λ x. 0 < x) r
unfolding first_starved
first_starved-none [] e = tt
first_starved-none (x ∷ r) e = ground (arith, first_starved-none r)

largest_from-get :
    (r : List ℕ) (best : ℕ × ℕ) (i : ℕ) (xs : List ℕ)
    → ((k : ℕ) → get_elem? r (i + k) ≡ get_elem? xs k)
    → get_elem? r best.0 ≡ some best.1
    → get_elem? r (largest_from best i xs).0 ≡ some (largest_from best i xs).1
unfolding largest_from
largest_from-get r best i [] tails h = h
largest_from-get r best i (x ∷ xs) tails h =
    largest_from-get r (if ltb best.1 x then (i, x) else best) (suc i) xs
      (λ k. ap (get_elem? r) (omega arith) ∙ tails (suc k))
      (elim (Bool-cases (ltb best.1 x)) [
        | inl more ↦ rw more (ap (get_elem? r) (omega arith) ∙ tails 0)
        | inr less ↦ rw less h
      ])

zero_gap : (x m : ℕ) → x ≤ m → x + m * (if x == 0 then 1 else 0) ≤ m
zero_gap x m h = elim (Bool-cases (x == 0)) [
  | inl z ↦ rw z (ground arith)
  | inr z ↦ rw z (omega arith)
]

largest_from-max :
    (best : ℕ × ℕ) (i : ℕ) (xs : List ℕ)
    → (best.1 ≤ (largest_from best i xs).1)
      × (sum xs + (largest_from best i xs).1 * zeros xs ≤ length xs * (largest_from best i xs).1)
unfolding largest_from zeros
largest_from-max best i [] = (omega arith, omega arith)
largest_from-max best i (x ∷ xs) =
    let next : ℕ × ℕ = if ltb best.1 x then (i, x) else best in
    let (above, rest) = largest_from-max next (suc i) xs in
    let bounds : (best.1 ≤ next.1) × (x ≤ next.1) = ground arith in
    (
      omega (arith, above, bounds.0),
      omega (
        arith,
        rest,
        zero_gap x (largest_from next (suc i) xs).1 (omega (arith, above, bounds.1)),
      ),
    )

get_elem?-tail : (x : ℕ) (xs : List ℕ) (k : ℕ) → get_elem? (x ∷ xs) (1 + k) ≡ get_elem? xs k
get_elem?-tail x xs k = let e : 1 + k ≡ suc k = omega arith in ap (get_elem? (x ∷ xs)) e

largest-some :
    (r : List ℕ) (j m : ℕ)
    → largest r ≡ some (j, m)
    → (get_elem? r j ≡ some m) × (sum r + m * zeros r ≤ length r * m)
unfolding largest zeros
largest-some [] j m e = absurd (ground arith)
largest-some (x ∷ xs) j m e =
    let held = largest_from-get (x ∷ xs) (0, x) 1 xs (get_elem?-tail x xs) refl in
    let top = largest_from-max (0, x) 1 xs in
    let gap = zero_gap x (largest_from (0, x) 1 xs).1 top.0 in
    let most : sum (x ∷ xs) + (largest_from (0, x) 1 xs).1 * zeros (x ∷ xs)
        ≤ length (x ∷ xs) * (largest_from (0, x) 1 xs).1 =
      omega (arith, top.1, gap) in
    (ground (arith, held), ground (arith, most))

-- A ring with a starved node and a layer for each node has a node with two: the loop never breaks
-- off.
feed_step :
    (r : List ℕ) (i j m : ℕ)
    → get_elem? r i ≡ some 0
    → largest r ≡ some (j, m)
    → length r ≤ sum r
    → 1 < m
feed_step r i j zero e f h = absurd (omega (arith, (largest-some r j 0 f).1, get_elem?-lt i r e))
feed_step r i j (suc zero) e f h =
    absurd (omega (arith, (largest-some r j 1 f).1, zeros-bump i r e))
feed_step r i j (suc (suc m)) e f h = omega arith

-- One round of the loop: the total and the number of nodes stay, and a starved node fewer is left.
pub round :
    (r : List ℕ) (i j m : ℕ)
    → first_starved r ≡ some i
    → largest r ≡ some (j, m)
    → length r ≤ sum r
    → (1 < m)
      × (sum (bump i (drop_one j r)) ≡ sum r)
      × (length (bump i (drop_one j r)) ≡ length r)
      × (zeros (bump i (drop_one j r)) + 1 ≡ zeros r)
round r i j m e f h =
    let at_i = first_starved-some r i e in
    let at_j = (largest-some r j m f).0 in
    let two = feed_step r i j m at_i f h in
    let still = drop_one-starved i j m r at_i at_j two in
    let here = get_elem?-lt i (drop_one j r) still in
    (
      two,
      omega (arith, sum-bump i (drop_one j r) here, sum-drop_one j m r at_j two),
      length-bump i (drop_one j r) ∙ length-drop_one j r,
      omega (arith, zeros-bump i (drop_one j r) still, zeros-drop_one j m r at_j two),
    )

pub largest-none : (r : List ℕ) → largest r ≡ none → sum r ≡ 0
unfolding largest
largest-none [] e = omega arith
largest-none (x ∷ r) e = absurd (ground arith)
