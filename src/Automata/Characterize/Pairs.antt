-- ===== src/Automata/Characterize/Pairs.antt =====
-- Lists of pairs: what holds of each of them, and what erasing some leaves.
use mathlib.Core.Path.{subst}
use tcp_probe.Prelude.{
  ℕ, zero, suc, ◌+◌, ◌≤◌, ◌<◌, ◌≡◌, ◌⊎◌, inl, inr, ap₂, arith, true, List, [], ◌∷◌, ◌++◌, length,
  if_cases,
}
use tcp_probe.Automata.Characterize.{pairs_of, pairs_from, is_pair, erase_pair, erase_pairs}

-- All the pairs.
abbrev pub Each : (ℕ × ℕ → Type 0) → List (ℕ × ℕ) → Type 0
Each P [] = Unit
Each P (x ∷ xs) = P x × Each P xs

pub Each-map :
    (P Q : ℕ × ℕ → Type 0) → ((x : ℕ × ℕ) → P x → Q x) → (xs : List (ℕ × ℕ)) → Each P xs → Each Q xs
Each-map P Q f [] h = tt
Each-map P Q f (x ∷ xs) h = (f x h.0, Each-map P Q f xs h.1)

pub Each-all : (P : ℕ × ℕ → Type 0) → ((x : ℕ × ℕ) → P x) → (xs : List (ℕ × ℕ)) → Each P xs
Each-all P f [] = tt
Each-all P f (x ∷ xs) = (f x, Each-all P f xs)

pub Each-both :
    (P Q : ℕ × ℕ → Type 0) (xs : List (ℕ × ℕ)) → Each P xs → Each Q xs → Each (λ x. P x × Q x) xs
Each-both P Q [] h k = tt
Each-both P Q (x ∷ xs) h k = ((h.0, k.0), Each-both P Q xs h.1 k.1)

Each-append :
    (P : ℕ × ℕ → Type 0) (xs ys : List (ℕ × ℕ)) → Each P (xs ++ ys) → Each P xs × Each P ys
Each-append P [] ys h = (tt, h)
Each-append P (x ∷ xs) ys h = let (a, b) = Each-append P xs ys h.1 in ((h.0, a), b)

Each-pairs_of :
    (P : ℕ × ℕ → Type 0) (p q left q' : ℕ)
    → Each P (pairs_of p q left)
    → q ≤ q'
    → q' < q + left
    → P (p, q')
Each-pairs_of P p q zero q' h x y = absurd (omega (arith, x, y))
Each-pairs_of P p q (suc left) q' h x y = elim (here_or_later q q' x) [
  | inl here ↦ subst (λ z. P (p, z)) here h.0
  | inr later ↦ Each-pairs_of P p (q + 1) left q' h.1 later (omega (arith, y))
]
  where
    here_or_later : (q q' : ℕ) → q ≤ q' → (q ≡ q') ⊎ (q + 1 ≤ q')
    here_or_later q q' x = ground (arith, x)

-- The two loops meet every pair.
pub Each-pairs_from :
    (P : ℕ × ℕ → Type 0) (p left p' q' : ℕ)
    → Each P (pairs_from p left)
    → p ≤ p'
    → p' < q'
    → q' < p + left
    → P (p', q')
Each-pairs_from P p zero p' q' h x y z = absurd (omega (arith, x, y, z))
Each-pairs_from P p (suc left) p' q' h x y z =
    let (now, later) = Each-append P (pairs_of p (p + 1) left) (pairs_from (p + 1) left) h in
    elim (here_or_on p p' x) [
      | inl here ↦
          subst (λ z. P (z, q')) here
            (Each-pairs_of P p (p + 1) left q' now (omega (arith, here, y)) (omega (arith, z)))
      | inr on ↦ Each-pairs_from P (p + 1) left p' q' later on y (omega (arith, z))
    ]
  where
    here_or_on : (p p' : ℕ) → p ≤ p' → (p ≡ p') ⊎ (p + 1 ≤ p')
    here_or_on p p' x = ground (arith, x)

Each-concat :
    (P : ℕ × ℕ → Type 0) (xs ys : List (ℕ × ℕ)) → Each P xs → Each P ys → Each P (xs ++ ys)
Each-concat P [] ys h k = k
Each-concat P (x ∷ xs) ys h k = (h.0, Each-concat P xs ys h.1 k)

abbrev pub Inside : ℕ → ℕ × ℕ → Type 0
Inside n (p, q) = (p < n) × (q < n)

pairs_of-Inside : (n p q left : ℕ) → p < n → q + left ≤ n → Each (Inside n) (pairs_of p q left)
pairs_of-Inside n p q zero x h = tt
pairs_of-Inside n p q (suc left) x h =
    ((x, omega (arith, h)), pairs_of-Inside n p (q + 1) left x (omega (arith, h)))

pub pairs_from-Inside : (n p left : ℕ) → p + left ≤ n → Each (Inside n) (pairs_from p left)
pairs_from-Inside n p zero h = tt
pairs_from-Inside n p (suc left) h =
    Each-concat (Inside n) (pairs_of p (p + 1) left) (pairs_from (p + 1) left)
      (pairs_of-Inside n p (p + 1) left (omega (arith, h)) (omega (arith, h)))
      (pairs_from-Inside n (p + 1) left (omega (arith, h)))

pub is_pair_eq : (x y : ℕ × ℕ) → is_pair x y ≡ true → x ≡ y
is_pair_eq (p, q) (p', q') e = ap₂ (λ a b. (a, b)) (ground (arith, e)) (ground (arith, e))

pub is_pair_self : (x : ℕ × ℕ) → is_pair x x ≡ true
is_pair_self (p, q) = ground arith

abbrev pub first_pair : ℕ × ℕ → List (ℕ × ℕ) → ℕ × ℕ
first_pair x [] = x
first_pair x (y ∷ ys) = y

-- What holds of the erased pair and of what is left holds of all.
pub erase_pair-Each :
    (P : ℕ × ℕ → Type 0) (x : ℕ × ℕ) (need : List (ℕ × ℕ))
    → P x
    → Each P (erase_pair x need)
    → Each P need
unfolding erase_pair
erase_pair-Each P x [] p left = tt
erase_pair-Each P x (y ∷ need) p all =
    if_cases (λ rest. Each P rest → Each P (y ∷ need)) (is_pair x y) _ _
      (λ same left. (subst P (is_pair_eq x y same) p, erase_pair-Each P x need p left))
      (λ other left. (left.0, erase_pair-Each P x need p left.1)) all

pub erase_pairs-Each :
    (P : ℕ × ℕ → Type 0) (cov need : List (ℕ × ℕ))
    → Each P cov
    → Each P (erase_pairs cov need)
    → Each P need
unfolding erase_pairs
erase_pairs-Each P [] need c left = left
erase_pairs-Each P (x ∷ cov) need c left =
    erase_pair-Each P x need c.0 (erase_pairs-Each P cov (erase_pair x need) c.1 left)

pub length-erase_pair : (x : ℕ × ℕ) (need : List (ℕ × ℕ)) → length (erase_pair x need) ≤ length need
unfolding erase_pair
length-erase_pair x [] = omega arith
length-erase_pair x (y ∷ need) =
    let rest = length-erase_pair x need in
    if_cases (λ (r : List (ℕ × ℕ)). length r ≤ suc (length need)) (is_pair x y) _ _
      (λ same. omega (arith, rest)) (λ other. omega (arith, rest))

pub length-erase_pairs : (cov need : List (ℕ × ℕ)) → length (erase_pairs cov need) ≤ length need
unfolding erase_pairs
length-erase_pairs [] need = omega arith
length-erase_pairs (x ∷ cov) need =
    omega (arith, length-erase_pair x need, length-erase_pairs cov (erase_pair x need))
