-- ===== src/Tests/Scenarios.antt =====
-- A whole scenario over a device that is a counter of its drains.
use tcp_probe.Prelude.{
  ℕ, ◌+◌, ◌-◌, ◌≡◌, ◌≢◌, refl, true, false, Option, none, some, List, [], ◌∷◌, length, leb, ◌==◌,
  if◌then◌else◌,
}
use tcp_probe.Prelude.Int.{pos}
use tcp_probe.Clock.{Times}
use tcp_probe.Segment.{Seg, no_options}
use tcp_probe.Policy.{LossPolicy, add, empty, drop, fire, matches, unfired, unfired_from}
use tcp_probe.Trace.{Trace}
use tcp_probe.Utun.{wrote}
use tcp_probe.Reassembly.{create, delivered}
use tcp_probe.Peer.{PeerConfig, receive_batch, receive_segment, on_data, on_dropped, note_sequence}
use tcp_probe.Seq.{seq_lt, seq_gt}
use tcp_probe.Peer.Outbox.{send_now, flush_acks}
use tcp_probe.Peer.Connect.{
  DrainOp, new_peer, connected, Meeting, accepted, establish, await, scan, greet, take_socket,
}
use tcp_probe.Peer.Receive.{Lap, running, receive, receive_loop, take_batch, finish, flush_run}
use tcp_probe.Experiments.Scenario.{Scenario, Session, exceeds, send_data, transfer, run_scenario}
use tcp_probe.Experiments.HeadOfLine.{Arm, no_loss, measured, classify, judge, run_arm}
use tcp_probe.Experiments.OneLoss.{run_arm-measured}
use tcp_probe.Experiments.Settled.{Settled, run_scenario-Settled}

-- Milliseconds as numbers; 0 stands for the negative times as well.
abbrev millis : Times ℕ
millis = record {
  add = λ a b. a + b;
  sub = λ a b. a - b;
  leb_T = leb;
  is_negative = λ a. leb a 0;
  to_int = λ a. a;
  of_ℕ = λ n. n;
  zero_T = 0;
  minus_one = 0;
}

abbrev probe_config : PeerConfig ℕ
probe_config = record {
  sport = 42000;
  dport = 9999;
  isn = 914000;
  mss = 1024;
  win = 65535;
  offer_sack = true;
  send_sack_blocks = true;
  ack_delay_ms = 0;
}

abbrev from_kernel : ℕ → ℕ → ℕ → List ℕ → Seg ℕ
from_kernel seq flags t payload = record {
  seq = seq;
  ack = 914001;
  flags = flags;
  win = 65535;
  sport = 9999;
  dport = 42000;
  payload = payload;
  opt = record no_options { mss = some 1024; sack_permitted = true };
  t_ms = t;
}

-- The first drain brings the SYN-ACK, the second one two segments.
abbrev kernel_says : DrainOp ℕ ℕ
kernel_says timeout n =
    if n == 0
    then (1, from_kernel 6 0x12 3 [] ∷ [])
    else if n == 1
    then (2, from_kernel 7 0x10 9 (7 ∷ 38 ∷ []) ∷ from_kernel 9 0x10 10 (69 ∷ []) ∷ [])
    else (n, [])

abbrev always : ℕ → Seg ℕ → ℕ × Option (List ℕ)
always n s = (n, none)

abbrev in_decimal : ℕ → List ℕ
in_decimal n = (48 + n) ∷ []

abbrev handshake : Meeting ℕ
handshake = record {
  t0 = 1;
  wait_start = 2;
  readings = 2 ∷ 3 ∷ [];
  ack_time = 4;
  outcome = accepted 8 42000;
}

abbrev round_at : ℕ → Lap ℕ
round_at t = record { test = t; slice = t; queued = λ n. t; flush = t + 1 }

-- The kernel takes the whole write, of three bytes; the clock ends the reception.
abbrev session : Session ℕ
session = record {
  write = λ fd buf. wrote (length buf);
  start = 5;
  laps = round_at 10 ∷ round_at 205 ∷ [];
  last = 206;
}

abbrev no_rules : LossPolicy
no_rules = record { rules = []; dropped = 0 }

abbrev no_trace : Trace ℕ
no_trace = record { events = []; t0 = 0; data_isn = 0; our_isn = 0 }

abbrev full_run : Scenario ℕ ℕ
full_run =
    run_scenario millis probe_config always in_decimal kernel_says (pos 131072) 4 200 no_rules
      handshake (record session { write = λ fd buf. wrote 4 }) 0 no_trace

-- The kernel takes two bytes of four.
abbrev cut_session : Session ℕ
cut_session = record session { write = λ fd buf. wrote 2 }

abbrev cut_run : Scenario ℕ ℕ
cut_run =
    run_scenario millis probe_config always in_decimal kernel_says (pos 131072) 4 200 no_rules
      handshake cut_session 0 no_trace

meets :
    (establish millis probe_config always in_decimal kernel_says
      (new_peer millis)
      handshake
      0
      no_trace).result
    ≡ connected
unfolding establish await scan greet take_socket
meets = refl

cut_run_over : cut_run.receipt ≢ some running
unfolding run_scenario send_data exceeds establish await scan greet take_socket
cut_run_over e = cc

run_scenario-Settled_example : Settled cut_run
run_scenario-Settled_example =
    run_scenario-Settled millis probe_config always in_decimal kernel_says (pos 131072) 4 200
      no_rules handshake cut_session 0 no_trace meets cut_run_over

-- The byte in the middle is sent once, and lost.
abbrev one_byte : DrainOp ℕ ℕ
one_byte timeout n =
    if n == 0
    then (1, from_kernel 6 0x12 3 [] ∷ [])
    else if n == 1
    then (2, from_kernel 49159 0x10 9 (7 ∷ []) ∷ [])
    else (n, [])

abbrev mid_stream : Arm
mid_stream = record { sack = true; tail = false }

abbrev arm_session : Session ℕ
arm_session = record {
  write = λ fd buf. wrote 98304;
  start = 5;
  laps = round_at 10 ∷ round_at 20000 ∷ [];
  last = 20001;
}

abbrev arm_run : Scenario ℕ ℕ
arm_run =
    run_arm millis probe_config always in_decimal one_byte mid_stream 42000 (pos 131072) handshake
      arm_session 0 no_trace

row_counts : judge millis mid_stream 3 300 arm_run ≡ measured arm_run.outcome.sum no_loss
unfolding judge classify run_arm add empty drop fire matches unfired unfired_from run_scenario
    send_data transfer exceeds establish await scan greet take_socket receive receive_loop delivered
    create take_batch receive_batch receive_segment send_now on_data on_dropped note_sequence seq_lt
    seq_gt finish flush_run flush_acks
row_counts = refl

run_arm-measured_example :
    (arm_run.outcome.ok ≡ true)
    × (arm_run.outcome.sack_negotiated ≡ true)
    × (arm_run.loss.dropped ≡ 1)
    × (arm_run.outcome.sum ≡ arm_run.outcome.sum)
    × (no_loss ≡ classify millis arm_run.outcome.sum 3 300)
run_arm-measured_example =
    run_arm-measured millis probe_config always in_decimal one_byte mid_stream 42000 (pos 131072)
      handshake arm_session 0 no_trace 3 300 arm_run.outcome.sum no_loss row_counts
