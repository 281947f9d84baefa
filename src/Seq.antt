-- ===== src/Seq.antt =====
-- include/tp/seq.hpp: comparisons in the 32-bit cyclic sequence space, by the sign of the
-- difference.
pub mod Order
use tcp_probe.Prelude.{ℕ, Bool}
use tcp_probe.Prelude.Int.{pos, ltb_ℤ, leb_ℤ}
use tcp_probe.Word.{sub32, int32}

unfoldable pub seq_lt : ℕ → ℕ → Bool
seq_lt a b = ltb_ℤ (int32 (sub32 a b)) (pos 0)

unfoldable pub seq_leq : ℕ → ℕ → Bool
seq_leq a b = leb_ℤ (int32 (sub32 a b)) (pos 0)

unfoldable pub seq_gt : ℕ → ℕ → Bool
seq_gt a b = ltb_ℤ (pos 0) (int32 (sub32 a b))

unfoldable pub seq_geq : ℕ → ℕ → Bool
seq_geq a b = leb_ℤ (pos 0) (int32 (sub32 a b))
