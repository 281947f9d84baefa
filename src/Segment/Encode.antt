-- ===== src/Segment/Encode.antt =====
-- `Options::encode` and `Options::wire_len` agree.
use mathlib.Core.List.{append-nil, append_assoc}
use tcp_probe.Prelude.{
  ℕ, zero, suc, ◌+◌, ◌-◌, ◌*◌, ◌/◌, ◌%◌, ◌^◌, ◌≤◌, ◌<◌, ◌≡◌, refl, sym, ap, arith, List, [], ◌∷◌,
  ◌++◌, if◌then◌else◌, length, length-append, bit_and, replicate, length-replicate,
}
use tcp_probe.Prelude.Bits.{bit_and_mask, bit_and-halves}
use tcp_probe.Segment.{
  SeqRange, Options, wire_len, pad, encode, encode_mss, encode_sack_permitted, encode_wscale,
  encode_blocks, encode_sack, encode_fields, is_empty, is_some, opt_eol,
}

round_up : (n : ℕ) → n < 2 ^ 64 → bit_and n (2 ^ 64 - 4) ≡ n / 4 * 4
round_up n h = omega (
  arith,
  bit_and-halves n (2 ^ 64 - 4),
  bit_and-halves (n / 2) (2 ^ 63 - 2),
  bit_and_mask 62 (n / 2 / 2),
)

pub length-encode_blocks : (bs : List SeqRange) → length (encode_blocks bs) ≡ 8 * length bs
length-encode_blocks [] = refl
length-encode_blocks (b ∷ bs) = omega (arith, length-encode_blocks bs)

pub length-encode_fields :
    (o : Options)
    → length (encode_fields o)
      ≡ length (encode_mss o.mss)
        + length (encode_sack_permitted o.sack_permitted)
        + length (encode_wscale o.wscale)
        + length (encode_sack o.sack_blocks)
length-encode_fields o = omega (
  arith,
  length-append (encode_mss o.mss) (
      encode_sack_permitted o.sack_permitted
      ++ (encode_wscale o.wscale ++ encode_sack o.sack_blocks)),
  length-append (encode_sack_permitted o.sack_permitted)
      (encode_wscale o.wscale ++ encode_sack o.sack_blocks),
  length-append (encode_wscale o.wscale) (encode_sack o.sack_blocks),
)

pub length-encode_sack :
    (bs : List SeqRange) → length (encode_sack bs) ≡ (if is_empty bs then 0 else 4 + 8 * length bs)
length-encode_sack [] = refl
length-encode_sack (b ∷ bs) = omega (arith, length-encode_blocks bs)

pad_count :
    (fuel k : ℕ) (out : List ℕ)
    → k ≤ fuel
    → (k < 4) × ((length out + k) % 4 ≡ 0)
    → pad fuel out ≡ out ++ replicate k opt_eol
unfolding pad
pad_count zero zero out h e = sym (append-nil out)
pad_count zero (suc k) out h e = absurd (omega arith)
pad_count (suc fuel) zero out h e = ground (arith, append-nil out)
pad_count (suc fuel) (suc k) out h e = ground (
  arith,
  length-append out (opt_eol ∷ []),
  append_assoc out (opt_eol ∷ []) (replicate k opt_eol),
  pad_count fuel k (out ++ opt_eol ∷ []),
)

-- The padding is the zeros that bring the length up to the next multiple of four.
pub pad_lem :
    (out : List ℕ)
    → (k : ℕ) × (pad 3 out ≡ out ++ replicate k opt_eol)
      × (length out + k ≡ (length out + 3) / 4 * 4)
pad_lem out =
    let k = (4 - length out % 4) % 4 in
    (k, pad_count 3 k out (omega arith) (omega arith), omega arith)

-- `wire_len` in arithmetic, for any options that fit the memory.
pub wire_len_lem :
    (o : Options)
    → length o.sack_blocks < 2 ^ 32
    → wire_len o ≡ (length (encode_fields o) + 3) / 4 * 4
unfolding wire_len
wire_len_lem o h =
    let a : ℕ = if is_some o.mss then 4 else 0 in
    let b = a + (if is_some o.wscale then 3 else 0) in
    let c = b + (if o.sack_permitted then 2 else 0) in
    let n = c + (if is_empty o.sack_blocks then 0 else 4 + 8 * length o.sack_blocks) in
    ground (arith, round_up (n + 3), length-encode_fields o, length-encode_sack o.sack_blocks)

-- For any options with fewer than 2^32 blocks `encode` writes exactly `wire_len` bytes, a multiple
-- of four.
pub length-encode :
    (o : Options)
    → length o.sack_blocks < 2 ^ 32
    → (length (encode o) ≡ wire_len o) × (wire_len o % 4 ≡ 0)
unfolding encode
length-encode o h =
    let (k, e, n) = pad_lem (encode_fields o) in
    ground (
      arith,
      ap length e,
      length-append (encode_fields o) (replicate k opt_eol),
      length-replicate k opt_eol,
      wire_len_lem o h,
    )

pub blocks-le-wire_len :
    (o : Options) → length o.sack_blocks < 2 ^ 32 → 8 * length o.sack_blocks ≤ wire_len o
blocks-le-wire_len o h =
    ground (arith, wire_len_lem o h, length-encode_fields o, length-encode_sack o.sack_blocks)
