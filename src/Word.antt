-- ===== src/Word.antt =====
-- The machine integers of the program: a `uint8_t`, `uint16_t` or `uint32_t` is its value, and an
-- operation on it wraps. An `int32_t` is the integer that a bit pattern stands for.
use tcp_probe.Prelude.{
  ℕ, ◌+◌, ◌-◌, ◌*◌, ◌/◌, ◌%◌, ◌^◌, bit_and, Bool, not, ltb, ◌==◌, if◌then◌else◌,
}
use tcp_probe.Prelude.Int.{ℤ, pos, negsuc}

abbrev pub u8 : ℕ → ℕ
u8 n = n % 2 ^ 8

abbrev pub u16 : ℕ → ℕ
u16 n = n % 2 ^ 16

abbrev pub u32 : ℕ → ℕ
u32 n = n % 2 ^ 32

-- `a - b` on `uint32_t`; the modulus is added first since `-` stops at 0.
abbrev pub sub32 : ℕ → ℕ → ℕ
sub32 a b = u32 (a + 2 ^ 32 - b)

abbrev pub shl : ℕ → ℕ → ℕ
shl x k = x * 2 ^ k

abbrev pub shr : ℕ → ℕ → ℕ
shr x k = x / 2 ^ k

-- `int32_t(w)`.
abbrev pub int32 : ℕ → ℤ
int32 w = if ltb w (2 ^ 31) then pos w else negsuc (2 ^ 32 - w - 1)

-- `f & mask` as a truth value.
abbrev pub has_bits : ℕ → ℕ → Bool
has_bits f mask = not (bit_and f mask == 0)
