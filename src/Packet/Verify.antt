-- ===== src/Packet/Verify.antt =====
-- The checksums that `build` stores are those that a receiver accepts.
use tcp_probe.Prelude.{
  ℕ, zero, suc, ◌+◌, ◌-◌, ◌/◌, ◌%◌, ◌^◌, ◌≤◌, ◌<◌, ◌≡◌, sym, ap, ◌∙◌, arith, Bool, true, false,
  Option, none, some, List, [], ◌∷◌, ◌++◌, replicate, take, drop, length, length-append,
}
use tcp_probe.Word.{u16, u32}
use tcp_probe.Checksum.{sum_be16, fold}
use tcp_probe.Checksum.Fold.{fold_lem, fold-verifies}
use tcp_probe.Checksum.Sum.{Bytes, Bytes-append, word_total, word_total-le, sum_be16_exact}
use tcp_probe.Segment.{
  SeqRange, Options, Seg, wire_len, encode, put16, put32, encode_mss, encode_sack_permitted,
  encode_wscale, encode_blocks, encode_sack, encode_fields, opt_eol,
}
use tcp_probe.Segment.Encode.{pad_lem, length-encode}
use tcp_probe.Packet.OptionFields.{ValidOptions, Below}
use tcp_probe.Packet.{
  InAddr, ip_header, tcp_header, tcp_segment, pseudo_header, option_bytes, ip_sum, tcp_sum, build,
}
use tcp_probe.Packet.Build.{option_bytes-encode, packet, build-packet}

abbrev pub ByteAddr : InAddr → Type 0
ByteAddr a = (a.b0 < 256) × (a.b1 < 256) × (a.b2 < 256) × (a.b3 < 256)

ip_header-Bytes :
    (total ip_id : ℕ) (src dst : InAddr) (sum : ℕ)
    → ByteAddr src
    → ByteAddr dst
    → Bytes (ip_header total ip_id src dst sum)
ip_header-Bytes total ip_id src dst sum hs hd = omega arith

-- The sum of the IP header is its sum with a zero checksum, and the checksum.
ip_header-total :
    (total ip_id : ℕ) (src dst : InAddr) (sum : ℕ)
    → sum < 2 ^ 16
    → word_total (ip_header total ip_id src dst sum)
      ≡ word_total (ip_header total ip_id src dst 0) + sum
ip_header-total total ip_id src dst sum h = omega arith

fold-lt : (sum : ℕ) → sum < 2 ^ 32 → fold sum < 2 ^ 16
fold-lt sum h = omega (arith, fold_lem sum h)

-- The IPv4 header passes the receiver's test.
ip_sum-verifies :
    (total ip_id : ℕ) (src dst : InAddr)
    → ByteAddr src
    → ByteAddr dst
    → fold (sum_be16 (ip_header total ip_id src dst (ip_sum total ip_id src dst))) ≡ 0
ip_sum-verifies total ip_id src dst hs hd =
    let bare = ip_header total ip_id src dst 0 in
    let sum = ip_sum total ip_id src dst in
    let exact = sum_be16_exact bare (ip_header-Bytes total ip_id src dst 0 hs hd) (omega arith) in
    let bound = word_total-le bare (ip_header-Bytes total ip_id src dst 0 hs hd) in
    let small = fold-lt (sum_be16 bare) (omega (arith, exact, bound)) in
    let whole =
      sum_be16_exact (ip_header total ip_id src dst sum)
        (ip_header-Bytes total ip_id src dst sum hs hd) (omega arith) in
    ap fold (whole ∙ ip_header-total total ip_id src dst sum small ∙ ap (λ k. k + sum) (sym exact))
    ∙ fold-verifies (sum_be16 bare) (omega (arith, exact, bound, small))

encode_blocks-Bytes : (bs : List SeqRange) → Bytes (encode_blocks bs)
encode_blocks-Bytes [] = tt
encode_blocks-Bytes (b ∷ bs) =
    Bytes-append (put32 b.start) (put32 b.end ++ encode_blocks bs) (omega arith)
      (Bytes-append (put32 b.end) (encode_blocks bs) (omega arith) (encode_blocks-Bytes bs))

encode_sack-Bytes : (bs : List SeqRange) → Bytes (encode_sack bs)
encode_sack-Bytes [] = tt
encode_sack-Bytes (b ∷ bs) =
    (omega arith, (omega arith, (omega arith, (omega arith, encode_blocks-Bytes (b ∷ bs)))))

encode_mss-Bytes : (mss : Option ℕ) → Bytes (encode_mss mss)
encode_mss-Bytes none = tt
encode_mss-Bytes (some mss) = omega arith

encode_sack_permitted-Bytes : (b : Bool) → Bytes (encode_sack_permitted b)
encode_sack_permitted-Bytes false = tt
encode_sack_permitted-Bytes true = omega arith

encode_wscale-Bytes : (wscale : Option ℕ) → Below 256 wscale → Bytes (encode_wscale wscale)
encode_wscale-Bytes none h = tt
encode_wscale-Bytes (some wscale) h = omega arith

zeros-Bytes : (k : ℕ) → Bytes (replicate k opt_eol)
zeros-Bytes zero = tt
zeros-Bytes (suc k) = (omega arith, zeros-Bytes k)

encode-Bytes : (o : Options) → ValidOptions o → Bytes (encode o)
unfolding encode
encode-Bytes o v =
    let (k, e, n) = pad_lem (encode_fields o) in
    let fields = Bytes-append (encode_mss o.mss) _ (encode_mss-Bytes o.mss) (
      Bytes-append (encode_sack_permitted o.sack_permitted) _
        (encode_sack_permitted-Bytes o.sack_permitted)
        (Bytes-append (encode_wscale o.wscale) _ (encode_wscale-Bytes o.wscale v.wscale)
          (encode_sack-Bytes o.sack_blocks))) in
    rw e (Bytes-append (encode_fields o) (replicate k opt_eol) fields (zeros-Bytes k))

module _ {T : Type 0} (s : Seg T) (tcplen : ℕ) (src dst : InAddr) (hs : ByteAddr src)
    (hd : ByteAddr dst) (flags : s.flags < 256) (payload : Bytes s.payload)
    (options : Bytes (option_bytes s.opt))
    (small : length (option_bytes s.opt) + length s.payload ≤ 70000) where
  tcp_segment-Bytes : (sum : ℕ) → Bytes (tcp_segment s tcplen sum)
  tcp_segment-Bytes sum =
      Bytes-append (tcp_header s tcplen sum) (option_bytes s.opt ++ s.payload) (omega arith)
        (Bytes-append (option_bytes s.opt) s.payload options payload)

  tcp_segment-total :
      (sum : ℕ)
      → sum < 2 ^ 16
      → word_total (tcp_segment s tcplen sum) ≡ word_total (tcp_segment s tcplen 0) + sum
  tcp_segment-total sum h = omega arith

  tcp_sum-verifies :
      fold (
        u32 (
          sum_be16 (pseudo_header src dst (tcplen + length s.payload))
          + sum_be16 (tcp_segment s tcplen (tcp_sum src dst s tcplen))))
      ≡ 0
  tcp_sum-verifies =
      let pseudo = pseudo_header src dst (tcplen + length s.payload) in
      let bare = tcp_segment s tcplen 0 in
      let sum = tcp_sum src dst s tcplen in
      let pseudo_bytes : Bytes pseudo = omega arith in
      let rest = length-append (option_bytes s.opt) s.payload in
      let p = sum_be16_exact pseudo pseudo_bytes (omega arith) in
      let b = sum_be16_exact bare (tcp_segment-Bytes 0) (omega (arith, rest)) in
      let p_le = word_total-le pseudo pseudo_bytes in
      let b_le = word_total-le bare (tcp_segment-Bytes 0) in
      let fits : word_total pseudo + word_total bare + 2 ^ 16 < 2 ^ 32 =
        omega (arith, p_le, b_le, rest) in
      let small_sum : sum < 2 ^ 16 =
        fold-lt (u32 (sum_be16 pseudo + sum_be16 bare)) (omega arith) in
      let w =
        sum_be16_exact (tcp_segment s tcplen sum) (tcp_segment-Bytes sum) (omega (arith, rest)) in
      let whole : u32 (sum_be16 pseudo + sum_be16 (tcp_segment s tcplen sum))
          ≡ u32 (sum_be16 pseudo + sum_be16 bare) + sum =
        omega (arith, p, b, w, tcp_segment-total sum small_sum, fits, small_sum) in
      ap fold whole
      ∙ fold-verifies (u32 (sum_be16 pseudo + sum_be16 bare)) (omega (arith, p, b, fits, small_sum))

-- The pseudo-header of RFC 793, as a receiver takes it from a packet behind four bytes of address
-- family: the header's two addresses, a zero, the protocol's number, which is 6, and the length of
-- what follows the 20 bytes of the IP header.
abbrev pub received_pseudo : List ℕ → List ℕ
received_pseudo bytes =
    let size = length bytes - 24 in
    take 4 (drop 16 bytes) ++ (take 4 (drop 20 bytes) ++ 0 ∷ 6 ∷ size / 256 ∷ size % 256 ∷ [])

length-tcp_segment :
    {T : Type 0} (s : Seg T) (tcplen sum : ℕ)
    → length (tcp_segment s tcplen sum) ≡ 20 + (length (option_bytes s.opt) + length s.payload)
length-tcp_segment s tcplen sum = omega (arith, length-append (option_bytes s.opt) s.payload)

two_bytes : (n m : ℕ) → n ≡ m → m < 65536 → n / 256 ∷ n % 256 ∷ [] ≡ put16 (u16 m)
two_bytes n m e h = ap (λ k. k / 256 ∷ k % 256 ∷ []) e ∙ put16-small
  where
    put16-small : m / 256 ∷ m % 256 ∷ [] ≡ put16 (u16 m)
    put16-small = ground (arith, h)

-- What the receiver takes from the packet is the pseudo-header that the sender has summed over.
received_pseudo-packet :
    {T : Type 0} (s : Seg T) (ip_id : ℕ) (src dst : InAddr)
    → length (option_bytes s.opt) ≡ wire_len s.opt
    → 20 + wire_len s.opt + length s.payload < 65536
    → received_pseudo (packet src dst s ip_id)
      ≡ pseudo_header src dst (20 + wire_len s.opt + length s.payload)
received_pseudo-packet s ip_id src dst size small =
    let tcplen = 20 + wire_len s.opt in
    ap (λ l. src.b0 ∷ src.b1 ∷ src.b2 ∷ src.b3 ∷ dst.b0 ∷ dst.b1 ∷ dst.b2 ∷ dst.b3 ∷ 0 ∷ 6 ∷ l)
      (two_bytes _ (tcplen + length s.payload)
        (omega (arith, length-tcp_segment s tcplen (tcp_sum src dst s tcplen), size)) small)

-- Both checksums of a packet that `build` returns, in a buffer of at most 65539 bytes, from a
-- segment with fewer than 2^32 blocks pass a receiver's test, if the addresses, the flags and the
-- payload are made of bytes and the option values fit their fields: the folded sum over the IPv4
-- header, and that over the pseudo-header which the receiver takes from the packet and the whole
-- TCP segment, are zero.
pub build-verifies :
    {T : Type 0} (out_cap : ℕ) (src dst : InAddr) (s : Seg T) (ip_id : ℕ) (bytes : List ℕ)
    → length s.opt.sack_blocks < 2 ^ 32
    → out_cap ≤ 65539
    → ByteAddr src
    → ByteAddr dst
    → s.flags < 256
    → Bytes s.payload
    → ValidOptions s.opt
    → build out_cap src dst s ip_id ≡ some bytes
    → (fold (sum_be16 (take 20 (drop 4 bytes))) ≡ 0)
      × (fold (u32 (sum_be16 (received_pseudo bytes) + sum_be16 (drop 24 bytes))) ≡ 0)
build-verifies out_cap src dst s ip_id bytes few room hs hd flags payload v e =
    let (is_packet, small, within) = build-packet out_cap src dst s ip_id bytes e in
    let tcplen = 20 + wire_len s.opt in
    let same = option_bytes-encode s.opt few in
    let size = ap length same ∙ (length-encode s.opt few).0 in
    let seen = received_pseudo-packet s ip_id src dst size (omega (arith, within, room)) in
    rw (is_packet, seen)
      (
        ip_sum-verifies (20 + tcplen + length s.payload) ip_id src dst hs hd,
        tcp_sum-verifies s tcplen src dst hs hd flags payload (rw same (encode-Bytes s.opt v))
            (omega (arith, size, within, room)),
      )
