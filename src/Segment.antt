-- ===== src/Segment.antt =====
-- include/tp/segment.hpp and the first half of src/segment.cpp: segments, their options and how the
-- options are encoded. A buffer is a list of bytes; a value in host order is a number.
pub mod Flags
pub mod Encode
use tcp_probe.Prelude.{
  ℕ, zero, suc, ◌+◌, ◌-◌, ◌*◌, ◌%◌, ◌^◌, Bool, true, false, ◌&&◌, not, Option, none, some, List, [],
  ◌∷◌, ◌++◌, ltb, ◌==◌, if◌then◌else◌, length, bit_and, bit_or,
}
use tcp_probe.Word.{u8, u32, sub32, shr, has_bits}

-- `SeqRange`, a half-open range of sequence numbers.
pub record SeqRange : Type 0 where
  pub start : ℕ
  pub end : ℕ

-- `SeqRange::len`.
unfoldable pub range_len : SeqRange → ℕ
range_len r = sub32 r.end r.start

-- The option kinds.
abbrev pub opt_eol : ℕ
opt_eol = 0

abbrev pub opt_nop : ℕ
opt_nop = 1

abbrev pub opt_mss : ℕ
opt_mss = 2

abbrev pub opt_wscale : ℕ
opt_wscale = 3

abbrev pub opt_sack_permitted : ℕ
opt_sack_permitted = 4

abbrev pub opt_sack : ℕ
opt_sack = 5

pub record Options : Type 0 where
  pub mss : Option ℕ
  pub sack_permitted : Bool
  pub sack_blocks : List SeqRange
  pub wscale : Option ℕ

-- `Options{}`.
abbrev pub no_options : Options
no_options = record { mss = none; sack_permitted = false; sack_blocks = []; wscale = none }

abbrev pub is_some {ℓ} : {A : Type ℓ} → Option A → Bool
is_some none = false
is_some (some a) = true

abbrev pub is_empty {ℓ} : {A : Type ℓ} → List A → Bool
is_empty [] = true
is_empty (x ∷ xs) = false

-- `Options::empty`.
unfoldable pub empty : Options → Bool
empty o =
    not (is_some o.mss) && not o.sack_permitted && is_empty o.sack_blocks && not (is_some o.wscale)

-- `Options::wire_len`; `~size_t(3)` is `2^64 - 4`.
unfoldable pub wire_len : Options → ℕ
wire_len o =
    let a : ℕ = if is_some o.mss then 4 else 0 in
    let b = a + (if is_some o.wscale then 3 else 0) in
    let c = b + (if o.sack_permitted then 2 else 0) in
    let n = c + (if is_empty o.sack_blocks then 0 else 4 + 8 * length o.sack_blocks) in
    bit_and (n + 3) (2 ^ 64 - 4)

abbrev pub put16 : ℕ → List ℕ
put16 v = u8 (shr v 8) ∷ u8 v ∷ []

abbrev pub put32 : ℕ → List ℕ
put32 v = u8 (shr v 24) ∷ u8 (shr v 16) ∷ u8 (shr v 8) ∷ u8 v ∷ []

-- The parts of `Options::encode`, in the order in which they are written.
abbrev pub encode_mss : Option ℕ → List ℕ
encode_mss none = []
encode_mss (some mss) = opt_mss ∷ 4 ∷ put16 mss

abbrev pub encode_sack_permitted : Bool → List ℕ
encode_sack_permitted false = []
encode_sack_permitted true = opt_sack_permitted ∷ 2 ∷ []

abbrev pub encode_wscale : Option ℕ → List ℕ
encode_wscale none = []
encode_wscale (some wscale) = opt_wscale ∷ 3 ∷ wscale ∷ []

abbrev pub encode_blocks : List SeqRange → List ℕ
encode_blocks [] = []
encode_blocks (b ∷ bs) = put32 b.start ++ (put32 b.end ++ encode_blocks bs)

abbrev pub encode_sack : List SeqRange → List ℕ
encode_sack [] = []
encode_sack (b ∷ bs) =
    opt_nop ∷ opt_nop ∷ opt_sack ∷ u8 (2 + 8 * length (b ∷ bs)) ∷ encode_blocks (b ∷ bs)

-- `while (i % 4) out[i++] = kOptEol`: at most three rounds.
unfoldable pub pad : ℕ → List ℕ → List ℕ
pad zero out = out
pad (suc fuel) out =
    let more = pad fuel (out ++ opt_eol ∷ []) in if length out % 4 == 0 then out else more

-- The bytes written before the padding.
abbrev pub encode_fields : Options → List ℕ
encode_fields o =
    encode_mss o.mss
    ++ (encode_sack_permitted o.sack_permitted
        ++ (encode_wscale o.wscale ++ encode_sack o.sack_blocks))

-- `Options::encode`: the bytes written, whose number it returns.
unfoldable pub encode : Options → List ℕ
encode o = pad 3 (encode_fields o)

-- The flag bits of a TCP header.
abbrev pub th_fin : ℕ
th_fin = 0x01

abbrev pub th_syn : ℕ
th_syn = 0x02

abbrev pub th_rst : ℕ
th_rst = 0x04

abbrev pub th_push : ℕ
th_push = 0x08

abbrev pub th_ack : ℕ
th_ack = 0x10

abbrev pub th_urg : ℕ
th_urg = 0x20

pub record Seg (T : Type 0) : Type 0 where
  pub seq : ℕ
  pub ack : ℕ
  pub flags : ℕ
  pub win : ℕ
  pub sport : ℕ
  pub dport : ℕ
  pub payload : List ℕ
  pub opt : Options
  pub t_ms : T

-- `Seg::len`.
unfoldable pub len : {T : Type 0} → Seg T → ℕ
len s = length s.payload

-- `Seg::seq_span`.
unfoldable pub seq_span : {T : Type 0} → Seg T → ℕ
seq_span s = u32 (
    u32 (length s.payload)
    + (if has_bits s.flags th_syn then 1 else 0)
    + (if has_bits s.flags th_fin then 1 else 0))

-- One letter of `flagstr`.
abbrev pub letter : ℕ → ℕ → ℕ → List ℕ
letter f mask c = if has_bits f mask then c ∷ [] else []

unfoldable pub flagstr : ℕ → List ℕ
flagstr f =
    let s =
      letter f th_fin b'F'
      ++ (letter f th_syn b'S'
          ++ (letter f th_rst b'R'
              ++ (letter f th_push b'P' ++ (letter f th_ack b'A' ++ letter f th_urg b'U')))) in
    if is_empty s then b'-' ∷ [] else s
