-- ===== src/Seq/Order.antt =====
-- What the cyclic comparisons of seq.hpp mean for positions of an unbounded stream.
use tcp_probe.Prelude.{ℕ, ◌+◌, ◌^◌, ◌<◌, ◌≡◌, arith, not, ◌&&◌, ◌||◌, ltb, leb, ◌==◌}
use tcp_probe.Word.{u32, sub32}
use tcp_probe.Seq.{seq_lt, seq_leq, seq_gt, seq_geq}

-- Two positions of a stream are near when they are less than half the sequence space apart.
abbrev pub Near : ℕ → ℕ → Type 0
Near x y = (x < y + 2 ^ 31) × (y < x + 2 ^ 31)

pub seq_lt-u32 : (x y : ℕ) → Near x y → seq_lt (u32 x) (u32 y) ≡ ltb x y
unfolding seq_lt
seq_lt-u32 x y h = ground arith

pub seq_gt-u32 : (x y : ℕ) → Near x y → seq_gt (u32 x) (u32 y) ≡ ltb y x
unfolding seq_gt
seq_gt-u32 x y h = ground arith

pub seq_leq-u32 : (x y : ℕ) → Near x y → seq_leq (u32 x) (u32 y) ≡ leb x y
unfolding seq_leq
seq_leq-u32 x y h = ground arith

pub seq_geq-u32 : (x y : ℕ) → Near x y → seq_geq (u32 x) (u32 y) ≡ leb y x
unfolding seq_geq
seq_geq-u32 x y h = ground arith

-- For any two positions of a stream that are less than 2^31 apart, however often the 32-bit
-- numbers have wrapped, the four comparisons of their sequence numbers are those of the positions.
pub seq_compare-positions :
    (x y : ℕ)
    → Near x y
    → (seq_lt (u32 x) (u32 y) ≡ ltb x y)
      × (seq_leq (u32 x) (u32 y) ≡ leb x y)
      × (seq_gt (u32 x) (u32 y) ≡ ltb y x)
      × (seq_geq (u32 x) (u32 y) ≡ leb y x)
seq_compare-positions x y h =
    (seq_lt-u32 x y h, seq_leq-u32 x y h, seq_gt-u32 x y h, seq_geq-u32 x y h)

-- On all 32-bit numbers `seq_leq` is the negation of `seq_gt` and `seq_geq` that of `seq_lt`, and
-- `seq_gt` is `seq_lt` with its arguments exchanged except at the antipode, where a and b are 2^31
-- apart: there `seq_lt` holds both ways round and `seq_gt` neither way.
pub seq_lt-seq_gt :
    (a b : ℕ)
    → a < 2 ^ 32
    → b < 2 ^ 32
    → (seq_leq a b ≡ not (seq_gt a b))
      × (seq_geq a b ≡ not (seq_lt a b))
      × (seq_lt a b ≡ (seq_gt b a || (sub32 a b == 2 ^ 31)))
      × ((seq_lt a b && seq_lt b a) ≡ (sub32 a b == 2 ^ 31))
unfolding seq_lt seq_leq seq_gt seq_geq
seq_lt-seq_gt a b ha hb = (ground arith, ground arith, ground arith, ground arith)
