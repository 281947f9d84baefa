-- ===== src/Automata/Product/Unseen.antt =====
-- A grid of flags: how many of them are not set.
use tcp_probe.Prelude.{
  ℕ, zero, suc, ◌+◌, ◌*◌, ◌<◌, ◌≡◌, ◌≢◌, refl, sym, ap, ap₂, ◌∙◌, arith, Bool, true, false, ◌⊎◌,
  inl, inr,
}
use tcp_probe.Automata.Mealy.{assign}

-- The sum of the first `n` values.
abbrev pub total : (ℕ → ℕ) → ℕ → ℕ
total c zero = 0
total c (suc n) = c n + total c n

eq_or_not : (a b : ℕ) → (a ≡ b) ⊎ (a ≢ b)
eq_or_not a b = ground arith

pub total-congr : (c c' : ℕ → ℕ) (n : ℕ) → ((j : ℕ) → j < n → c' j ≡ c j) → total c' n ≡ total c n
total-congr c c' zero h = refl
total-congr c c' (suc n) h =
    ap₂ (λ x y. x + y) (h n (omega arith)) (total-congr c c' n λ j p. h j (omega (arith, p)))

pub total-drop :
    (c c' : ℕ → ℕ) (i n : ℕ)
    → i < n
    → suc (c' i) ≡ c i
    → ((j : ℕ) → j ≢ i → c' j ≡ c j)
    → suc (total c' n) ≡ total c n
total-drop c c' i zero p e h = absurd (omega (arith, p))
total-drop c c' i (suc n) p e h = elim (eq_or_not n i) [
  | inl same ↦
      let rest = total-congr c c' n λ j q. h j λ eq. omega (arith, q, eq, same) in
      omega (arith, ap c same, ap c' same, rest, e)
  | inr other ↦ omega (arith, h n other, total-drop c c' i n (omega (arith, p, other)) e h)
]

total-const : (x n : ℕ) → total (λ j. x) n ≡ n * x
total-const x zero = omega arith
total-const x (suc n) = grind (arith, total-const x n)

-- Which cells `assign` changes.
module _ (f : ℕ → ℕ → Bool) (i j : ℕ) where
  pub assign-here : (x : Bool) → assign f i j x i j ≡ x
  assign-here x = ground arith

  pub assign-elsewhere : (x : Bool) (a b : ℕ) → (a ≢ i) ⊎ (b ≢ j) → assign f i j x a b ≡ f a b
  assign-elsewhere x a b h = ground arith

  pub assign-cell : (a b : ℕ) → assign f i j true a b ≡ true → (f a b ≡ true) ⊎ ((i ≡ a) × (j ≡ b))
  assign-cell a b h = ground (arith, h)

abbrev pub flag_unset : Bool → ℕ
flag_unset true = 0
flag_unset false = 1

-- The pairs below the two bounds that are not seen.
abbrev pub unseen : (ℕ → ℕ → Bool) → ℕ → ℕ → ℕ
unseen f n m = total (λ i. total (λ j. flag_unset (f i j)) m) n

pub unseen-blank : (n m : ℕ) → unseen (λ s t. false) n m ≡ n * m
unseen-blank n m = total-congr _ _ n (λ j p. total-const 1 m) ∙ grind (arith, total-const (m * 1) n)

pub unseen-assign :
    (f : ℕ → ℕ → Bool) (n m i j : ℕ)
    → i < n
    → j < m
    → f i j ≡ false
    → suc (unseen (assign f i j true) n m) ≡ unseen f n m
unseen-assign f n m i j p q e =
    total-drop (λ a. total (λ b. flag_unset (f a b)) m)
      (λ a. total (λ b. flag_unset (assign f i j true a b)) m) i n p
      (total-drop (λ b. flag_unset (f i b)) (λ b. flag_unset (assign f i j true i b)) j m q
        (ap (λ x. suc (flag_unset x)) (assign-here f i j true) ∙ sym (ap flag_unset e))
        λ b other. ap flag_unset (assign-elsewhere f i j true i b (inr other)))
      λ a other.
        total-congr _ _ m λ b q. ap flag_unset (assign-elsewhere f i j true a b (inl other))
