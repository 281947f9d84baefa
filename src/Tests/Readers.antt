-- ===== src/Tests/Readers.antt =====
-- The device reads a burst of frames.
use tcp_probe.Prelude.{ℕ, ◌+◌, ◌-◌, ◌≡◌, refl, false, List, [], ◌∷◌, ◌++◌, length, leb}
use tcp_probe.Clock.{Times}
use tcp_probe.Utun.{Utun}
use tcp_probe.Utun.Drain.{
  Reading, frame, again, readable, idle, Round, Draining, drain_loop, turn, take_frame, classify,
  record_peaks, drain,
}
use tcp_probe.Packet.{get16, get32, parse, read_options, read_bytes}
use tcp_probe.Utun.Taken.{taken, segments, foreigns, bads, total_bytes, drain-Takes}

-- Milliseconds as numbers; 0 stands for the negative times as well.
abbrev clock : Times ℕ
clock = record {
  add = λ a b. a + b;
  sub = λ a b. a - b;
  leb_T = leb;
  is_negative = λ a. leb a 0;
  to_int = λ a. a;
  of_ℕ = λ n. n;
  zero_T = 0;
  minus_one = 0;
}

abbrev quiet : Utun ℕ
quiet = record {
  fd = 0;
  local = record { b0 = 10; b1 = 77; b2 = 0; b3 = 1 };
  peer = record { b0 = 10; b1 = 77; b2 = 0; b3 = 2 };
  ip_id = 1;
  frames_written = 0;
  segments_read = 0;
  non_ipv4_frames = 0;
  unparseable = 0;
  peak_burst_frames = 1;
  peak_burst_bytes = 9;
}

-- A pure ACK from 10.77.0.1 to 10.77.0.2 behind the address family.
abbrev ack_frame : List ℕ
ack_frame =
    0 ∷ 0 ∷ 0 ∷ 2 ∷ 0x45 ∷ 0 ∷ 0 ∷ 40 ∷ 0 ∷ 1 ∷ 0 ∷ 0 ∷ 64 ∷ 6 ∷ 0 ∷ 0 ∷ 10 ∷ 77 ∷ 0 ∷ 1 ∷ 10 ∷ 77
    ∷ 0 ∷ 2 ∷ 0x27 ∷ 0x0f ∷ 0x9c ∷ 0x41 ∷ 0 ∷ 0 ∷ 0 ∷ 7 ∷ 0 ∷ 0 ∷ 3 ∷ 0xe9 ∷ 0x50 ∷ 0x10 ∷ 0xff
    ∷ 0xff ∷ 0 ∷ 0 ∷ 0 ∷ 0 ∷ []

abbrev ipv6_frame : List ℕ
ipv6_frame = 0 ∷ 0 ∷ 0 ∷ 30 ∷ 0x60 ∷ []

abbrev reads : ℕ → Reading ℕ → Round ℕ
reads now r = record { now = now; poll = λ wait. readable r }

abbrev nothing : Round ℕ
nothing = record { now = 4; poll = λ wait. idle }

abbrev burst_rounds : List (Round ℕ)
burst_rounds =
    reads 1 (frame ipv6_frame 1)
    ∷ reads 2 again
    ∷ reads 2 (frame ack_frame 2)
    ∷ reads 3 (frame (0 ∷ 0 ∷ 0 ∷ 2 ∷ []) 3)
    ∷ reads 3 (frame ack_frame 3)
    ∷ []

abbrev whole : List (Round ℕ)
whole = burst_rounds ++ nothing ∷ []

abbrev seen : List (List ℕ × ℕ)
seen = taken clock (clock.add 0 20) false whole

abbrev drained : Draining ℕ ℕ
drained = (drain clock 0 20 quiet [] whole).0

drain-Takes_example :
    (drained.out ≡ [] ++ segments seen)
    × (drained.frames ≡ length seen)
    × (drained.bytes ≡ total_bytes seen)
    × (drained.device.segments_read ≡ 0 + length (segments seen))
    × (drained.device.non_ipv4_frames ≡ 0 + foreigns seen)
    × (drained.device.unparseable ≡ 0 + bads seen)
drain-Takes_example = drain-Takes clock 0 20 quiet [] whole

two_segments : length drained.out ≡ 2
unfolding drain drain_loop turn take_frame classify get32 parse get16 read_options read_bytes
    record_peaks
two_segments = refl
