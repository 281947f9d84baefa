-- ===== src/Checksum.antt =====
-- include/tp/checksum.hpp: the Internet checksum of RFC 1071.
pub mod Fold
pub mod Sum
use tcp_probe.Prelude.{
  ℕ, zero, suc, ◌+◌, ◌-◌, ◌^◌, List, [], ◌∷◌, ◌==◌, if◌then◌else◌, bit_and, bit_or,
}
use tcp_probe.Word.{u16, u32, shl, shr}

-- The loop over the 16-bit words, and the odd tail behind it.
unfoldable pub sum_words : ℕ → List ℕ → ℕ
sum_words sum [] = sum
sum_words sum (a ∷ []) = u32 (sum + shl a 8)
sum_words sum (a ∷ b ∷ rest) = sum_words (u32 (sum + bit_or (shl a 8) b)) rest

unfoldable pub sum_be16 : List ℕ → ℕ
sum_be16 bytes = sum_words 0 bytes

-- One round of the loop of `fold`.
unfoldable pub carry_round : ℕ → ℕ
carry_round sum = u32 (bit_and sum 0xffff + shr sum 16)

-- `while (sum >> 16)`, on fuel.
unfoldable pub fold_carries : ℕ → ℕ → ℕ
fold_carries zero sum = sum
fold_carries (suc fuel) sum =
    let more = fold_carries fuel (carry_round sum) in if shr sum 16 == 0 then sum else more

-- Two rounds end the loop for any 32-bit sum (`Fold.fold_carries-ends`).
abbrev pub fold_fuel : ℕ
fold_fuel = 2

-- `uint16_t(~sum & 0xffff)`; on `uint32_t` the complement is `2^32 - 1 - sum`.
unfoldable pub complement16 : ℕ → ℕ
complement16 sum = u16 (bit_and (2 ^ 32 - 1 - sum) 0xffff)

unfoldable pub fold : ℕ → ℕ
fold sum = complement16 (fold_carries fold_fuel sum)
