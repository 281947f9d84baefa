-- ===== src/Checksum/Sum.antt =====
-- `sum_be16`: the sum of the big-endian 16-bit words, and how sums are chained.
use native.Mathlib.Nat.{zero-add}
use tcp_probe.Prelude.{
  ℕ, ◌+◌, ◌*◌, ◌%◌, ◌^◌, ◌≤◌, ◌<◌, ◌≡◌, ap, ◌∙◌, arith, List, [], ◌∷◌, ◌++◌, length,
}
use tcp_probe.Prelude.Bits.{bit_or_disjoint}
use tcp_probe.Word.{u32}
use tcp_probe.Checksum.{sum_words, sum_be16}

-- A buffer holds bytes.
abbrev pub Bytes : List ℕ → Type 0
Bytes [] = Unit
Bytes (b ∷ bs) = (b < 256) × Bytes bs

-- The sum with no bound on it.
abbrev pub word_total : List ℕ → ℕ
word_total [] = 0
word_total (a ∷ []) = a * 256
word_total (a ∷ b ∷ rest) = a * 256 + b + word_total rest

sum_words-total :
    (sum : ℕ) (bytes : List ℕ)
    → sum < 2 ^ 32
    → Bytes bytes
    → sum_words sum bytes ≡ u32 (sum + word_total bytes)
unfolding sum_words
sum_words-total sum [] s h = omega arith
sum_words-total sum (a ∷ []) s h = omega arith
sum_words-total sum (a ∷ b ∷ rest) s h =
    ground (arith, bit_or_disjoint 8 a b, sum_words-total (u32 (sum + (a * 256 + b))) rest)

-- Each word adds at most 65535.
pub word_total-le :
    (bytes : List ℕ) → Bytes bytes → 2 * word_total bytes ≤ 65535 * (length bytes + 1)
word_total-le [] h = omega arith
word_total-le (a ∷ []) h = omega arith
word_total-le (a ∷ b ∷ rest) h = omega (arith, word_total-le rest h.1.1)

-- `sum_be16` of a buffer of bytes is the sum of its words, an odd last byte being the high half of
-- one, modulo 2^32.
pub sum_be16_lem : (bytes : List ℕ) → Bytes bytes → sum_be16 bytes ≡ u32 (word_total bytes)
unfolding sum_be16
sum_be16_lem bytes h =
    sum_words-total 0 bytes (omega arith) h ∙ ap u32 (zero-add (word_total bytes))

-- Up to 131072 bytes nothing is lost.
pub sum_be16_exact :
    (bytes : List ℕ) → Bytes bytes → length bytes ≤ 131072 → sum_be16 bytes ≡ word_total bytes
sum_be16_exact bytes h k = omega (arith, sum_be16_lem bytes h, word_total-le bytes h)

-- A buffer of even length chains: its sum adds to that of what follows.
pub word_total-append :
    (xs ys : List ℕ) → length xs % 2 ≡ 0 → word_total (xs ++ ys) ≡ word_total xs + word_total ys
word_total-append [] ys e = omega arith
word_total-append (a ∷ []) ys e = absurd (omega arith)
word_total-append (a ∷ b ∷ xs) ys e = omega (arith, word_total-append xs ys (omega arith))

pub Bytes-append : (xs ys : List ℕ) → Bytes xs → Bytes ys → Bytes (xs ++ ys)
Bytes-append [] ys h k = k
Bytes-append (x ∷ xs) ys h k = (h.0, Bytes-append xs ys h.1 k)

-- For buffers of bytes, the first of even length, the sums of the two add up, modulo 2^32, to the
-- sum over both in one buffer.
pub sum_be16-append :
    (xs ys : List ℕ)
    → Bytes xs
    → Bytes ys
    → length xs % 2 ≡ 0
    → sum_be16 (xs ++ ys) ≡ u32 (sum_be16 xs + sum_be16 ys)
sum_be16-append xs ys h k e = omega (
  arith,
  sum_be16_lem xs h,
  sum_be16_lem ys k,
  sum_be16_lem (xs ++ ys) (Bytes-append xs ys h k),
  word_total-append xs ys e,
)
