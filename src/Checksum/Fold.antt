-- ===== src/Checksum/Fold.antt =====
-- `fold`: the carries are folded in at most two rounds, and the result is the one's complement sum.
use tcp_probe.Prelude.{
  ℕ, zero, suc, ◌+◌, ◌-◌, ◌/◌, ◌%◌, ◌^◌, ◌≤◌, ◌<◌, ◌≡◌, ◌↔◌, refl, ap, ◌∙◌, arith, ◌==◌,
  if◌then◌else◌, bit_and,
}
use tcp_probe.Prelude.Bits.{bit_and_mask}
use tcp_probe.Word.{shr}
use tcp_probe.Checksum.{carry_round, fold_carries, complement16, fold}

low16 : (a : ℕ) → bit_and a 0xffff ≡ a % 2 ^ 16
low16 a = bit_and_mask 16 a

carry_round_lem : (sum : ℕ) → sum < 2 ^ 32 → carry_round sum ≡ sum % 2 ^ 16 + sum / 2 ^ 16
unfolding carry_round
carry_round_lem sum h = omega (arith, low16 sum)

fold_carries_done : (fuel sum : ℕ) → shr sum 16 ≡ 0 → fold_carries fuel sum ≡ sum
unfolding fold_carries
fold_carries_done zero sum h = refl
fold_carries_done (suc fuel) sum h = ground arith

-- For any 32-bit sum the loop of `fold` has ended by its own test after at most two rounds, so more
-- fuel changes nothing.
pub fold_carries-ends :
    (sum fuel : ℕ)
    → sum < 2 ^ 32
    → 2 ≤ fuel
    → (shr (fold_carries fuel sum) 16 ≡ 0) × (fold_carries fuel sum ≡ fold_carries 2 sum)
unfolding fold_carries
fold_carries-ends sum zero h k = absurd (omega arith)
fold_carries-ends sum (suc zero) h k = absurd (omega arith)
fold_carries-ends sum (suc (suc fuel)) h k =
    let r1 = carry_round_lem sum h in
    let r2 = carry_round_lem (carry_round sum) (omega (arith, r1)) in
    ground (arith, r1, r2, fold_carries_done fuel (carry_round (carry_round sum)))

-- The sum modulo 65535, in 1 to 65535 unless the sum is 0.
abbrev pub residue : ℕ → ℕ
residue sum = if sum == 0 then 0 else (sum - 1) % 65535 + 1

fold_carries-residue : (sum : ℕ) → sum < 2 ^ 32 → fold_carries 2 sum ≡ residue sum
unfolding fold_carries
fold_carries-residue sum h =
    let r1 = carry_round_lem sum h in
    let r2 = carry_round_lem (carry_round sum) (omega (arith, r1)) in ground (arith, r1, r2)

complement16_lem : (sum : ℕ) → sum < 2 ^ 16 → complement16 sum ≡ 65535 - sum
unfolding complement16
complement16_lem sum h = omega (arith, low16 (2 ^ 32 - 1 - sum))

-- `fold` of a 32-bit sum is the complement of the sum's residue modulo 65535.
pub fold_lem : (sum : ℕ) → sum < 2 ^ 32 → fold sum ≡ 65535 - residue sum
unfolding fold
fold_lem sum h =
    let e = fold_carries-residue sum h in
    ap complement16 e ∙ complement16_lem (residue sum) (ground arith)

-- Two 32-bit sums have the same checksum exactly if they agree modulo 65535 and are both zero or
-- both not.
pub fold-eq_iff :
    (a b : ℕ)
    → a < 2 ^ 32
    → b < 2 ^ 32
    → (fold a ≡ fold b) ↔ ((a % 65535 ≡ b % 65535) × ((a ≡ 0) ↔ (b ≡ 0)))
fold-eq_iff a b ha hb = ground (arith, fold_lem a ha, fold_lem b hb)

-- If a sum and its checksum together stay below 2^32, adding the checksum to the sum makes the
-- checksum of the result zero: what a receiver tests.
pub fold-verifies : (sum : ℕ) → sum + fold sum < 2 ^ 32 → fold (sum + fold sum) ≡ 0
fold-verifies sum h =
    let inner = fold_lem sum (omega arith) in
    let outer = fold_lem (sum + fold sum) h in ground (arith, inner, outer)
