-- ===== src/Tests/Packets.antt =====
-- Packets: one with every option, built and parsed back.
use tcp_probe.Prelude.{
  ℕ, ◌+◌, ◌≤◌, ◌<◌, ◌≡◌, refl, arith, true, none, some, [], ◌∷◌, length, take, drop, ◌↔◌, ◌⊎◌,
}
use tcp_probe.Word.{u32}
use tcp_probe.Checksum.{sum_be16, fold}
use tcp_probe.Segment.{Options, no_options, Seg, wire_len}
use tcp_probe.Packet.{InAddr, build, parse, ok, reject, read_options}
use tcp_probe.Packet.OptionLoop.{EndsWithin, read_options-ends}
use tcp_probe.Packet.OptionFields.{ValidOptions}
use tcp_probe.Packet.Safe.{IsSafe, parse-IsSafe}
use tcp_probe.Packet.Build.{packet, packet_len, build-fits}
use tcp_probe.Packet.RoundTrip.{ValidSeg, parse-build}
use tcp_probe.Packet.Verify.{received_pseudo, build-verifies}

abbrev every_option : Options
every_option = record {
  mss = some 1460;
  sack_permitted = true;
  sack_blocks = record { start = 1000; end = 2448 } ∷ [];
  wscale = some 6;
}

abbrev kernel_side : InAddr
kernel_side = record { b0 = 10; b1 = 77; b2 = 0; b3 = 1 }

abbrev peer_side : InAddr
peer_side = record { b0 = 10; b1 = 77; b2 = 0; b3 = 2 }

abbrev sent : Seg ℕ
sent = record {
  seq = 0xfffffffe;
  ack = 7;
  flags = 0x12;
  win = 65535;
  sport = 9000;
  dport = 51000;
  payload = 104 ∷ 105 ∷ 33 ∷ [];
  opt = every_option;
  t_ms = 3;
}

-- An object with an observation time of its own.
abbrev fresh : Seg ℕ
fresh = record {
  seq = 0;
  ack = 0;
  flags = 0;
  win = 0;
  sport = 0;
  dport = 0;
  payload = [];
  opt = no_options;
  t_ms = 12;
}

every_option_len : wire_len every_option ≡ 24
unfolding wire_len
every_option_len = refl

every_option-ValidOptions : ValidOptions every_option
every_option-ValidOptions = record { mss = omega arith; wscale = omega arith; blocks = omega arith }

sent-ValidSeg : ValidSeg sent
sent-ValidSeg = record {
  seq = omega arith;
  ack = omega arith;
  win = omega arith;
  sport = omega arith;
  dport = omega arith;
  opt = every_option-ValidOptions;
}

sent_builds : build 2048 kernel_side peer_side sent 1 ≡ some (packet kernel_side peer_side sent 1)
unfolding build wire_len
sent_builds = refl

-- A frame of three bytes is rejected.
parse_short : parse (0 ∷ 0 ∷ 0 ∷ []) fresh ≡ reject
unfolding parse
parse_short = refl

parse-build_example :
    parse (packet kernel_side peer_side sent 1) fresh ≡ ok (record sent { t_ms = 12 })
parse-build_example =
    parse-build 2048 kernel_side peer_side sent fresh 1 (packet kernel_side peer_side sent 1)
      (omega arith) (omega arith) sent-ValidSeg sent_builds

-- A frame whose header length points beyond its end.
parse-IsSafe_example :
    IsSafe (
      parse
        (0 ∷ 0 ∷ 0 ∷ 2 ∷ 0x4f ∷ 0 ∷ 0 ∷ 24 ∷ drop 8 (packet kernel_side peer_side sent 1))
        fresh)
parse-IsSafe_example =
    parse-IsSafe (0 ∷ 0 ∷ 0 ∷ 2 ∷ 0x4f ∷ 0 ∷ 0 ∷ 24 ∷ drop 8 (packet kernel_side peer_side sent 1))
      fresh

build-verifies_example :
    (fold (sum_be16 (take 20 (drop 4 (packet kernel_side peer_side sent 1)))) ≡ 0)
    × (fold (
          u32 (
            sum_be16 (received_pseudo (packet kernel_side peer_side sent 1))
            + sum_be16 (drop 24 (packet kernel_side peer_side sent 1))))
        ≡ 0)
build-verifies_example =
    build-verifies 2048 kernel_side peer_side sent 1 (packet kernel_side peer_side sent 1)
      (omega arith) (omega arith) (omega arith) (omega arith) (omega arith) (omega arith)
      every_option-ValidOptions sent_builds

build-fits_example :
    ((build 60 kernel_side peer_side sent 1 ≡ none)
      ↔ ((40 < wire_len every_option) ⊎ (60 < packet_len sent)))
    × ((build 60 kernel_side peer_side sent 1 ≡ some (packet kernel_side peer_side sent 1))
        ↔ ((wire_len every_option ≤ 40) × (length (packet kernel_side peer_side sent 1) ≤ 60)))
build-fits_example = build-fits 60 kernel_side peer_side sent 1 (omega arith)

-- Two NOPs and an end of the list.
read_options-ends_example :
    EndsWithin (1 ∷ 1 ∷ 0 ∷ []) 3 4 0 no_options (read_options 3 (1 ∷ 1 ∷ 0 ∷ []) 3 0 no_options)
read_options-ends_example = read_options-ends 3 (1 ∷ 1 ∷ 0 ∷ []) 3 0 no_options (omega arith)
