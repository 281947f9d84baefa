-- ===== src/Packet/Wire.antt =====
-- Numbers in network order: what is put is got again.
use native.Mathlib.Nat.{add_assoc}
use tcp_probe.Prelude.{
  ℕ, ◌+◌, ◌*◌, ◌^◌, ◌<◌, ◌≡◌, sym, ap, arith, List, ◌++◌, drop, get_elem?-drop, bit_or,
}
use tcp_probe.Prelude.Bits.{bit_or_disjoint}
use tcp_probe.Word.{u8, shl, shr}
use tcp_probe.Segment.{put16, put32}
use tcp_probe.Packet.{ok, read_of, byte, get16, get32}

pub join16 : (v : ℕ) → v < 2 ^ 16 → bit_or (shl (u8 (shr v 8)) 8) (u8 v) ≡ v
join16 v h = omega (arith, bit_or_disjoint 8 (u8 (shr v 8)) (u8 v) (omega arith))

pub join32 :
    (v : ℕ)
    → v < 2 ^ 32
    → bit_or
        (bit_or (bit_or (shl (u8 (shr v 24)) 24) (shl (u8 (shr v 16)) 16)) (shl (u8 (shr v 8)) 8))
        (u8 v)
      ≡ v
join32 v h =
    let a = u8 (shr v 24) in
    let b = u8 (shr v 16) in
    let c = u8 (shr v 8) in
    let e1 = bit_or_disjoint 24 a (shl b 16) (omega arith) in
    let e2 = bit_or_disjoint 16 (a * 256 + b) (shl c 8) (omega arith) in
    let e3 = bit_or_disjoint 8 (a * 65536 + b * 256 + c) (u8 v) (omega arith) in
    let s1 : a * 2 ^ 24 + shl b 16 ≡ (a * 256 + b) * 2 ^ 16 = omega arith in
    let s2 : (a * 256 + b) * 2 ^ 16 + shl c 8 ≡ (a * 65536 + b * 256 + c) * 2 ^ 8 = omega arith in
    rw (e1, s1, e2, s2, e3) (omega arith)

-- Reading behind a prefix is reading what follows it.
pub byte-drop : (o : List ℕ) (i k : ℕ) → byte o (i + k) ≡ byte (drop i o) k
byte-drop o i k = ap read_of (sym (get_elem?-drop i k o))

pub get16-drop : (o : List ℕ) (i k : ℕ) → get16 o (i + k) ≡ get16 (drop i o) k
unfolding get16
get16-drop o i k = rw (byte-drop, add_assoc, byte-drop)

pub get32-drop : (o : List ℕ) (i k : ℕ) → get32 o (i + k) ≡ get32 (drop i o) k
unfolding get32
get32-drop o i k = simp (add_assoc, byte-drop)

-- What `put16` and `put32` write at the front of a buffer is read back.
pub get16-put16 : (v : ℕ) (rest : List ℕ) → v < 2 ^ 16 → get16 (put16 v ++ rest) 0 ≡ ok v
unfolding get16
get16-put16 v rest h = ap ok (join16 v h)

pub get32-put32 : (v : ℕ) (rest : List ℕ) → v < 2 ^ 32 → get32 (put32 v ++ rest) 0 ≡ ok v
unfolding get32
get32-put32 v rest h = ap ok (join32 v h)
