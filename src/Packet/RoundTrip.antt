-- ===== src/Packet/RoundTrip.antt =====
-- `parse` reads back what `build` writes.
use tcp_probe.Prelude.{
  ℕ, ◌+◌, ◌*◌, ◌/◌, ◌%◌, ◌^◌, ◌≤◌, ◌<◌, ◌≡◌, refl, ap, ◌∙◌, arith, some, List, ◌++◌, drop-append,
  take-length, length, length-append,
}
use tcp_probe.Word.{u8, u16}
use tcp_probe.Segment.{no_options, Seg, wire_len, put32}
use tcp_probe.Segment.Encode.{length-encode, blocks-le-wire_len}
use tcp_probe.Packet.{
  InAddr, af_inet, iplen, tcphdr_len, ip_sum, tcp_sum, ip_header, tcp_header, option_bytes, build,
  ok, get16, get32, read_options, read_bytes, parse,
}
use tcp_probe.Packet.Wire.{get16-put16, get32-put32, get16-drop, get32-drop}
use tcp_probe.Packet.OptionFields.{ValidOptions, read_options-encode}
use tcp_probe.Packet.Build.{option_bytes-encode, build-packet}

-- The fields of a segment fit the places that the headers have for them.
pub record ValidSeg {T : Type 0} (s : Seg T) : Type 0 where
  pub seq : s.seq < 2 ^ 32
  pub ack : s.ack < 2 ^ 32
  pub win : s.win < 2 ^ 16
  pub sport : s.sport < 2 ^ 16
  pub dport : s.dport < 2 ^ 16
  pub opt : ValidOptions s.opt

read_bytes-end :
    (pre payload : List ℕ) (i n : ℕ)
    → length pre ≡ i
    → length payload ≡ n
    → read_bytes (pre ++ payload) i n ≡ ok payload
unfolding read_bytes
read_bytes-end pre payload i n hi hn =
    ground
      (arith, length-append pre payload, drop-append i pre payload hi, take-length n payload hn)

module _ {T : Type 0} (s out : Seg T) (src dst : InAddr) (ip_id c1 c2 total : ℕ) (ob : List ℕ)
    (optlen : ℕ) (size : length ob ≡ optlen) (aligned : optlen % 4 ≡ 0) (small : optlen ≤ 40)
    (whole : total ≡ 40 + optlen + length s.payload) (fits : total < 2 ^ 16) (v : ValidSeg s)
    (options : read_options optlen (ob ++ s.payload) optlen 0 no_options ≡ ok s.opt) where
  abbrev headers : List ℕ
  headers = put32 af_inet ++ (ip_header total ip_id src dst c1 ++ tcp_header s (20 + optlen) c2)

  abbrev frame : List ℕ
  frame = headers ++ (ob ++ s.payload)

  frame_fields :
      (get32 frame 0 ≡ ok 2)
      × (get16 frame 6 ≡ ok total)
      × (get16 frame 24 ≡ ok s.sport)
      × (get16 frame 26 ≡ ok s.dport)
      × (get32 frame 28 ≡ ok s.seq)
      × (get32 frame 32 ≡ ok s.ack)
      × (get16 frame 38 ≡ ok s.win)
  frame_fields = (
    get32-put32 2 _ (omega arith),
    get16-drop frame 6 0 ∙ get16-put16 (u16 total) _ (omega arith) ∙ ap ok (omega arith),
    get16-drop frame 24 0 ∙ get16-put16 s.sport _ v.sport,
    get16-drop frame 26 0 ∙ get16-put16 s.dport _ v.dport,
    get32-drop frame 28 0 ∙ get32-put32 s.seq _ v.seq,
    get32-drop frame 32 0 ∙ get32-put32 s.ack _ v.ack,
    get16-drop frame 38 0 ∙ get16-put16 s.win _ v.win,
  )

  parse-frame : parse frame out ≡ ok (record s { t_ms = out.t_ms })
  unfolding parse
  parse-frame =
      let doff : u8 ((20 + optlen) / 4) % 16 * 16 / 16 * 4 ≡ 20 + optlen = omega arith in
      let payload : read_bytes frame (24 + (20 + optlen)) (length s.payload) ≡ ok s.payload =
        read_bytes-end (headers ++ ob) s.payload (24 + (20 + optlen)) (length s.payload)
          (omega (arith, length-append headers ob)) refl in
      let n = length-append ob s.payload in ground (arith, frame_fields, doff, payload, n)

-- A packet that `build` returns, in a buffer of at most 65539 bytes, from a segment with fewer
-- than 2^32 blocks whose fields fit their places, is parsed back to that segment: ports, numbers,
-- flags, window, options and payload all agree, and the observation time is that of the object
-- parsed into.
pub parse-build :
    {T : Type 0} (out_cap : ℕ) (src dst : InAddr) (s out : Seg T) (ip_id : ℕ) (bytes : List ℕ)
    → length s.opt.sack_blocks < 2 ^ 32
    → out_cap ≤ 65539
    → ValidSeg s
    → build out_cap src dst s ip_id ≡ some bytes
    → parse bytes out ≡ ok (record s { t_ms = out.t_ms })
parse-build out_cap src dst s out ip_id bytes few room v e =
    let (is_packet, small, within_room) = build-packet out_cap src dst s ip_id bytes e in
    let tcplen = tcphdr_len + wire_len s.opt in
    let total = iplen + tcplen + length s.payload in
    let ob = option_bytes s.opt in
    let same = option_bytes-encode s.opt few in
    let size : length ob ≡ wire_len s.opt = ap length same ∙ (length-encode s.opt few).0 in
    let options : read_options (wire_len s.opt) (ob ++ s.payload) (wire_len s.opt) 0 no_options
        ≡ ok s.opt =
      rw same (
        read_options-encode s.opt s.payload (omega (arith, small, blocks-le-wire_len s.opt few))
          v.opt) in
    ap (λ l. parse l out) is_packet
    ∙ parse-frame s out src dst ip_id (ip_sum total ip_id src dst) (tcp_sum src dst s tcplen) total
        ob (wire_len s.opt) size (length-encode s.opt few).1 small (omega arith)
        (omega (arith, within_room)) v options
