-- ===== src/Packet.antt =====
-- `build` and `parse` of src/segment.cpp. The layouts of `struct ip` and `struct tcphdr` are those
-- of RFC 791 and RFC 793, written out byte by byte; a header field in network order is two or four
-- bytes, the high one first.
pub mod Wire
pub mod OptionLoop
pub mod OptionFields
pub mod Safe
pub mod Build
pub mod RoundTrip
pub mod Verify
use tcp_probe.Prelude.{
  ℕ, zero, suc, ◌+◌, ◌-◌, ◌*◌, ◌/◌, ◌%◌, Bool, true, false, not, ◌||◌, Option, none, some, List, [],
  ◌∷◌, ◌++◌, ltb, leb, ◌==◌, if◌then◌else◌, length, take, drop, get_elem?, replicate, bit_or,
}
use tcp_probe.Word.{u8, u16, u32, shl, shr}
use tcp_probe.Checksum.{sum_be16, fold}
use tcp_probe.Segment.{
  SeqRange, Options, no_options, Seg, wire_len, encode, put16, put32, opt_eol, opt_nop, opt_mss,
  opt_wscale, opt_sack_permitted, opt_sack,
}

-- `struct in_addr`: the four bytes as they lie in memory.
pub record InAddr : Type 0 where
  pub b0 : ℕ
  pub b1 : ℕ
  pub b2 : ℕ
  pub b3 : ℕ

abbrev pub addr_bytes : InAddr → List ℕ
addr_bytes a = a.b0 ∷ a.b1 ∷ a.b2 ∷ a.b3 ∷ []

abbrev pub af_inet : ℕ
af_inet = 2

abbrev pub ipproto_tcp : ℕ
ipproto_tcp = 6

-- `sizeof(struct ip)` and `sizeof(struct tcphdr)`.
abbrev pub iplen : ℕ
iplen = 20

abbrev pub tcphdr_len : ℕ
tcphdr_len = 20

-- The IPv4 header that `build` writes, with `sum` in its checksum field.
abbrev pub ip_header : ℕ → ℕ → InAddr → InAddr → ℕ → List ℕ
ip_header total ip_id src dst sum =
    u8 (4 * 16 + iplen / 4)
    ∷ 0
    ∷ (put16 (u16 total)
        ++ (put16 ip_id
            ++ 0 ∷ 0 ∷ 64 ∷ ipproto_tcp ∷ (put16 sum ++ (addr_bytes src ++ addr_bytes dst))))

-- The TCP header, with `sum` in its checksum field. The four bits of `th_off` stand above `th_x2`.
abbrev pub tcp_header : {T : Type 0} → Seg T → ℕ → ℕ → List ℕ
tcp_header s tcplen sum =
    put16 s.sport
    ++ (put16 s.dport
        ++ (put32 s.seq
            ++ (put32 s.ack
                ++ u8 (tcplen / 4) % 16 * 16
                  ∷ s.flags
                  ∷ (put16 s.win ++ (put16 sum ++ 0 ∷ 0 ∷ [])))))

-- `PseudoHeader`.
abbrev pub pseudo_header : InAddr → InAddr → ℕ → List ℕ
pseudo_header src dst len = addr_bytes src ++ (addr_bytes dst ++ 0 ∷ ipproto_tcp ∷ put16 (u16 len))

-- The first `optlen` bytes of `optbuf`, zeroed and then written by `encode`.
abbrev pub option_bytes : Options → List ℕ
option_bytes o = take (wire_len o) (encode o ++ replicate (40 - length (encode o)) 0)

-- The checksums that `build` stores.
abbrev pub ip_sum : ℕ → ℕ → InAddr → InAddr → ℕ
ip_sum total ip_id src dst = fold (sum_be16 (ip_header total ip_id src dst 0))

abbrev pub tcp_segment : {T : Type 0} → Seg T → ℕ → ℕ → List ℕ
tcp_segment s tcplen sum = tcp_header s tcplen sum ++ (option_bytes s.opt ++ s.payload)

abbrev pub tcp_sum : {T : Type 0} → InAddr → InAddr → Seg T → ℕ → ℕ
tcp_sum src dst s tcplen = fold (
    u32 (
      sum_be16 (pseudo_header src dst (tcplen + length s.payload))
      + sum_be16 (tcp_segment s tcplen 0)))

-- `build`: the packet, whose length is the return value, or `none` where it returns 0. `out_cap` is
-- the room in the output buffer.
unfoldable pub build : {T : Type 0} → ℕ → InAddr → InAddr → Seg T → ℕ → Option (List ℕ)
build out_cap src dst s ip_id =
    let optlen = wire_len s.opt in
    let tcplen = tcphdr_len + optlen in
    let total = iplen + tcplen + length s.payload in
    let packet =
      put32 af_inet
      ++ (ip_header total ip_id src dst (ip_sum total ip_id src dst)
          ++ tcp_segment s tcplen (tcp_sum src dst s tcplen)) in
    if ltb 40 optlen then none else if ltb out_cap (4 + total) then none else some packet

-- What a parser step does: a value, `return false`, or a read outside the buffer.
pub data Read {ℓ} (A : Type ℓ) : Type ℓ where
  ok : A → Read A
  reject fault : Read A

infixl 5 ◌>>=◌ ◌>>◌
abbrev pub ◌>>=◌ {ℓ κ} : {A : Type ℓ} {B : Type κ} → Read A → (A → Read B) → Read B
ok a >>= f = f a
reject >>= f = reject
fault >>= f = fault

abbrev pub ◌>>◌ {ℓ} : {B : Type ℓ} → Read (Unit {0}) → Read B → Read B
m >> k = m >>= λ _. k

abbrev pub reject_if : Bool → Read (Unit {0})
reject_if true = reject
reject_if false = ok tt

abbrev pub read_of : Option ℕ → Read ℕ
read_of none = fault
read_of (some b) = ok b

abbrev pub byte : List ℕ → ℕ → Read ℕ
byte p i = read_of (get_elem? p i)

unfoldable pub get16 : List ℕ → ℕ → Read ℕ
get16 p i = do a ← byte p i; b ← byte p (i + 1); ok (bit_or (shl a 8) b)

unfoldable pub get32 : List ℕ → ℕ → Read ℕ
get32 p i = do
  a ← byte p i
  b ← byte p (i + 1)
  c ← byte p (i + 2)
  d ← byte p (i + 3)
  ok (bit_or (bit_or (bit_or (shl a 24) (shl b 16)) (shl c 8)) d)

-- `b + 8 <= limit; b += 8`: the blocks of one SACK option, on fuel.
unfoldable pub read_blocks : ℕ → List ℕ → ℕ → ℕ → List SeqRange → Read (List SeqRange)
read_blocks zero o b limit blocks = ok blocks
read_blocks (suc fuel) o b limit blocks =
    let next = get32 o b >>= λ start. get32 o (b + 4) >>= λ end.
    read_blocks fuel o (b + 8) limit (blocks ++ record { start = start; end = end } ∷ []) in
    if leb (b + 8) limit then next else ok blocks

-- The switch on the kind of the option at `o + i`, of length `len`.
unfoldable pub read_option : ℕ → ℕ → List ℕ → ℕ → Options → Read Options
read_option kind len o i opt =
    if kind == opt_mss
    then (if len == 4
        then (do mss ← get16 o (i + 2); ok (record opt { mss = some mss }))
        else ok opt)
    else if kind == opt_sack_permitted
    then ok (if len == 2 then record opt { sack_permitted = true } else opt)
    else if kind == opt_wscale
    then (if len == 3
        then (do wscale ← byte o (i + 2); ok (record opt { wscale = some wscale }))
        else ok opt)
    else if kind == opt_sack
    then (do
      blocks ← read_blocks len o (i + 2) (i + len) opt.sack_blocks
      ok (record opt { sack_blocks = blocks }))
    else ok opt

-- What one round of the loop over the option field does: it leaves the loop, or goes on at an index.
pub data Next : Type 0 where
  stop : Options → Next
  move : ℕ → Options → Next

-- The part of a round behind the length byte.
unfoldable pub option_of_length : ℕ → ℕ → List ℕ → ℕ → ℕ → Options → Read Next
option_of_length kind len o olen i opt =
    if ltb len 2 || ltb olen (i + len)
    then ok (stop opt)
    else (read_option kind len o i opt >>= λ opt'. ok (move (i + len) opt'))

-- The part behind the kind byte.
unfoldable pub option_of_kind : ℕ → List ℕ → ℕ → ℕ → Options → Read Next
option_of_kind kind o olen i opt =
    if kind == opt_eol
    then ok (stop opt)
    else if kind == opt_nop
    then ok (move (i + 1) opt)
    else if leb olen (i + 1)
    then ok (stop opt)
    else (byte o (i + 1) >>= λ len. option_of_length kind len o olen i opt)

unfoldable pub option_round : List ℕ → ℕ → ℕ → Options → Read Next
option_round o olen i opt =
    if leb olen i then ok (stop opt) else (byte o i >>= λ kind. option_of_kind kind o olen i opt)

-- The loop. Each round moves `i` on, so `olen` rounds are enough (`OptionLoop.read_options-ends`).
unfoldable pub read_options : ℕ → List ℕ → ℕ → ℕ → Options → Read Options
read_options zero o olen i opt = ok opt
read_options (suc fuel) o olen i opt = do
  next ← option_round o olen i opt
  elim next [ stop opt' ↦ ok opt' | move i' opt' ↦ read_options fuel o olen i' opt' ]

-- The bytes of `payload.assign`.
unfoldable pub read_bytes : List ℕ → ℕ → ℕ → Read (List ℕ)
read_bytes p i n = if leb (i + n) (length p) then ok (take n (drop i p)) else fault

-- `parse` of a frame of `n` bytes; `out` is left as it was where the result is `reject`.
unfoldable pub parse : {T : Type 0} → List ℕ → Seg T → Read (Seg T)
parse frame out = do
  let n = length frame
  reject_if (ltb n 4)
  af ← get32 frame 0
  reject_if (not (af == af_inet))
  reject_if (ltb n (4 + iplen))
  version ← byte frame 4
  reject_if (not (version / 16 == 4))
  let ihl = version % 16 * 4
  reject_if (ltb ihl iplen)
  protocol ← byte frame (4 + 9)
  reject_if (not (protocol == ipproto_tcp))
  iptot ← get16 frame (4 + 2)
  reject_if (ltb (n - 4) iptot)
  reject_if (ltb iptot (ihl + tcphdr_len))
  let th = 4 + ihl
  off ← byte frame (th + 12)
  let doff = off / 16 * 4
  reject_if (ltb doff tcphdr_len || ltb iptot (ihl + doff))
  sport ← get16 frame th
  dport ← get16 frame (th + 2)
  seq ← get32 frame (th + 4)
  ack ← get32 frame (th + 8)
  flags ← byte frame (th + 13)
  win ← get16 frame (th + 14)
  let olen = doff - tcphdr_len
  opt ← read_options olen (drop (th + tcphdr_len) frame) olen 0 no_options
  let paylen = iptot - ihl - doff
  payload ← read_bytes frame (th + doff) paylen
  ok (record out {
    sport = sport;
    dport = dport;
    seq = seq;
    ack = ack;
    flags = flags;
    win = win;
    opt = opt;
    payload = payload;
  })
