-- ===== src/Packet/Build.antt =====
-- What `build` returns: when there is a packet, how long it is, and its parts.
use tcp_probe.Prelude.{
  ℕ, ◌+◌, ◌-◌, ◌^◌, ◌≤◌, ◌<◌, ◌≡◌, ◌↔◌, ◌⊎◌, ap, arith, none, some, List, ◌++◌, take-append, length,
  length-append, replicate,
}
use tcp_probe.Segment.{Options, Seg, wire_len, encode, put32}
use tcp_probe.Segment.Encode.{length-encode}
use tcp_probe.Packet.{
  InAddr, af_inet, iplen, tcphdr_len, ip_header, tcp_segment, option_bytes, ip_sum, tcp_sum, build,
}

-- The bytes taken from `optbuf` are those that `encode` wrote, no more and no fewer.
pub option_bytes-encode : (o : Options) → length o.sack_blocks < 2 ^ 32 → option_bytes o ≡ encode o
option_bytes-encode o h =
    take-append (wire_len o) (encode o) (replicate (40 - length (encode o)) 0) (length-encode o h).0

-- The length of the whole packet, address family included.
abbrev pub packet_len : {T : Type 0} → Seg T → ℕ
packet_len s = 4 + (iplen + (tcphdr_len + wire_len s.opt) + length s.payload)

-- The bytes of a packet.
abbrev pub packet : {T : Type 0} → InAddr → InAddr → Seg T → ℕ → List ℕ
packet src dst s ip_id =
    let tcplen = tcphdr_len + wire_len s.opt in
    let total = iplen + tcplen + length s.payload in
    put32 af_inet
    ++ (ip_header total ip_id src dst (ip_sum total ip_id src dst)
        ++ tcp_segment s tcplen (tcp_sum src dst s tcplen))

module _ {T : Type 0} where
  pub length-packet :
      (src dst : InAddr) (s : Seg T) (ip_id : ℕ)
      → length s.opt.sack_blocks < 2 ^ 32
      → length (packet src dst s ip_id) ≡ packet_len s
  length-packet src dst s ip_id h = omega (
    arith,
    length-append (option_bytes s.opt) s.payload,
    ap length (option_bytes-encode s.opt h),
    length-encode s.opt h,
  )

  -- For options with fewer than 2^32 blocks `build` returns 0 exactly if the options need more
  -- than 40 bytes or the packet more than the room there is, and it returns the packet exactly if
  -- the options need at most 40 bytes and the packet's length is within the room.
  pub build-fits :
      (out_cap : ℕ) (src dst : InAddr) (s : Seg T) (ip_id : ℕ)
      → length s.opt.sack_blocks < 2 ^ 32
      → ((build out_cap src dst s ip_id ≡ none)
          ↔ ((40 < wire_len s.opt) ⊎ (out_cap < packet_len s)))
        × ((build out_cap src dst s ip_id ≡ some (packet src dst s ip_id))
            ↔ ((wire_len s.opt ≤ 40) × (length (packet src dst s ip_id) ≤ out_cap)))
  unfolding build
  build-fits out_cap src dst s ip_id h = ground (arith, length-packet src dst s ip_id h)

  pub build-packet :
      (out_cap : ℕ) (src dst : InAddr) (s : Seg T) (ip_id : ℕ) (bytes : List ℕ)
      → build out_cap src dst s ip_id ≡ some bytes
      → (bytes ≡ packet src dst s ip_id) × (wire_len s.opt ≤ 40) × (packet_len s ≤ out_cap)
  unfolding build
  build-packet out_cap src dst s ip_id bytes e = ground arith
