-- ===== src/Prelude/Bits.antt =====
-- `&` and `|` at variables: masks and disjoint fields as arithmetic. The native operations are
-- specified by a recursion on binary digits with fuel; the first lemmas drop the fuel.
use Prim.Native.Nat.{min, max, digits, bit_and-bitwise, bit_or-bitwise}
use native.Mathlib.Nat.{pow-suc, one-le-pow}
use tcp_probe.Prelude.{
  ℕ, zero, suc, ◌+◌, ◌-◌, ◌*◌, ◌/◌, ◌%◌, ◌^◌, ◌≤◌, ◌<◌, bit_and, bit_or, ◌≡◌, refl, ap, arith,
}

module _ (rest : ℕ → ℕ) (bit : ℕ → ℕ → ℕ) where
  fuel_irrelevant : (n m a b : ℕ) → a ≤ n → a ≤ m → digits rest bit n a b ≡ digits rest bit m a b
  fuel_irrelevant zero zero a b p q = refl
  fuel_irrelevant zero (suc m) zero b p q = refl
  fuel_irrelevant zero (suc m) (suc a) b p q = absurd (omega arith)
  fuel_irrelevant (suc n) zero zero b p q = refl
  fuel_irrelevant (suc n) zero (suc a) b p q = absurd (omega arith)
  fuel_irrelevant (suc n) (suc m) zero b p q = refl
  fuel_irrelevant (suc n) (suc m) (suc a) b p q =
      omega (arith, fuel_irrelevant n m (suc a / 2) (b / 2) (omega arith) (omega arith))

-- The lowest digit of a conjunction.
pub bit_and-halves : (a b : ℕ) → bit_and a b ≡ bit_and (a / 2) (b / 2) * 2 + min (a % 2) (b % 2)
bit_and-halves zero b = omega (arith, bit_and-bitwise 0 b, bit_and-bitwise 0 (b / 2))
bit_and-halves (suc a) b = omega (
  arith,
  bit_and-bitwise (suc a) b,
  bit_and-bitwise (suc a / 2) (b / 2),
  fuel_irrelevant (λ y. 0) min a (suc a / 2) (suc a / 2) (b / 2) (omega arith) (omega arith),
)

-- The lowest digit of a disjunction.
pub bit_or-halves : (a b : ℕ) → bit_or a b ≡ bit_or (a / 2) (b / 2) * 2 + max (a % 2) (b % 2)
bit_or-halves zero b = omega (arith, bit_or-bitwise 0 b, bit_or-bitwise 0 (b / 2))
bit_or-halves (suc a) b = omega (
  arith,
  bit_or-bitwise (suc a) b,
  bit_or-bitwise (suc a / 2) (b / 2),
  fuel_irrelevant (λ y. y) max a (suc a / 2) (suc a / 2) (b / 2) (omega arith) (omega arith),
)

below_zero : (n a : ℕ) → a ≤ n → bit_and a 0 ≡ 0
below_zero n zero h = refl
below_zero zero (suc a) h = absurd (omega arith)
below_zero (suc n) (suc a) h =
    omega (arith, bit_and-halves (suc a) 0, below_zero n (suc a / 2) (omega arith))

pub bit_and-zero : (a : ℕ) → bit_and a 0 ≡ 0
bit_and-zero a = below_zero a a (omega arith)

or_below_zero : (n a : ℕ) → a ≤ n → bit_or a 0 ≡ a
or_below_zero n zero h = refl
or_below_zero zero (suc a) h = absurd (omega arith)
or_below_zero (suc n) (suc a) h =
    omega (arith, bit_or-halves (suc a) 0, or_below_zero n (suc a / 2) (omega arith))

pub bit_or-zero : (a : ℕ) → bit_or a 0 ≡ a
bit_or-zero a = or_below_zero a a (omega arith)

two_pow-suc : (k : ℕ) → 2 ^ suc k ≡ 2 * 2 ^ k
two_pow-suc k = omega (arith, pow-suc 2 k)

mod-double : (a m : ℕ) → 0 < m → a % (2 * m) ≡ a / 2 % m * 2 + a % 2
mod-double a m pos = grind arith

-- `a & (2^k - 1)` is the remainder by `2^k`.
pub bit_and_mask : (k a : ℕ) → bit_and a (2 ^ k - 1) ≡ a % 2 ^ k
bit_and_mask zero a = omega (arith, bit_and-zero a)
bit_and_mask (suc k) a = ground (
  arith,
  two_pow-suc k,
  one-le-pow k 2,
  mod-double a (2 ^ k),
  bit_and-halves a (2 ^ suc k - 1),
  bit_and_mask k (a / 2),
)

doubled : (k q : ℕ) → q * 2 ^ suc k ≡ 2 * (q * 2 ^ k)
doubled k q = omega (arith, ap (λ (t : ℕ). q * t) (pow-suc 2 k))

-- `(q << k) | r` is a sum when `r` fits `k` bits.
pub bit_or_disjoint : (k q r : ℕ) → r < 2 ^ k → bit_or (q * 2 ^ k) r ≡ q * 2 ^ k + r
bit_or_disjoint zero q r fits = ground (arith, bit_or-zero q)
bit_or_disjoint (suc k) q r fits =
    ground (
      arith,
      pow-suc 2 k,
      doubled k q,
      bit_or-halves (q * 2 ^ suc k) r,
      bit_or_disjoint k q (r / 2),
    )

-- A disjunction is not below either side.
left_below : (n a b : ℕ) → a ≤ n → a ≤ bit_or a b
left_below n zero b h = omega arith
left_below zero (suc a) b h = absurd (omega arith)
left_below (suc n) (suc a) b h =
    omega (arith, bit_or-halves (suc a) b, left_below n (suc a / 2) (b / 2) (omega arith))

right_below : (n a b : ℕ) → b ≤ n → b ≤ bit_or a b
right_below n a zero h = omega arith
right_below zero a (suc b) h = absurd (omega arith)
right_below (suc n) a (suc b) h =
    omega (arith, bit_or-halves a (suc b), right_below n (a / 2) (suc b / 2) (omega arith))

pub le-bit_or_left : (a b : ℕ) → a ≤ bit_or a b
le-bit_or_left a b = left_below a a b (omega arith)

pub le-bit_or_right : (a b : ℕ) → b ≤ bit_or a b
le-bit_or_right a b = right_below b a b (omega arith)
