-- ===== src/Tests/Peers.antt =====
-- The peer at work on a batch with a loss, and on its queue of acknowledgements.
use tcp_probe.Prelude.{
  ℕ, ◌+◌, ◌-◌, ◌≡◌, ◌≢◌, refl, ◌==◌, Bool, true, false, Option, none, some, List, [], ◌∷◌, ◌++◌,
  length, leb, replicate,
}
use tcp_probe.Segment.{Seg, no_options}
use tcp_probe.Trace.{Trace}
use tcp_probe.Utun.{Utun, Written, failed, wrote, send}
use tcp_probe.Clock.{Times}
use tcp_probe.Peer.{PeerConfig, RunSummary, PendingAck, Run, receive_batch, receive_segment}
use tcp_probe.Peer.Burst.{burst, complete, resets, challenges, probe, Bursting, burst-counts}
use tcp_probe.Peer.Outbox.{Outbox, flush_acks}
use tcp_probe.Peer.Sends.{sends, sends_taken, sends_refused}
use tcp_probe.Peer.Owed.{Handles, data_count, receive_batch-Handles}
use tcp_probe.Peer.Connect.{
  Peer, new_peer, DrainOp, Connecting, connected, Meeting, accepted, await, scan, greet,
  take_socket, establish,
}
use tcp_probe.Peer.Receive.{
  Lap, Receiving, Ending, loop_ended, running, receive, receive_loop, take_batch,
}
use tcp_probe.Reassembly.{create, delivered}
use tcp_probe.Peer.Handshake.{Meets, establish-Learns}
use tcp_probe.Peer.Balance.{Reports, receive-Reports}
use tcp_probe.Peer.Returns.{receive-returns}
use tcp_probe.Peer.Flush.{IsFlushed, flush_acks-IsFlushed}

-- Milliseconds as numbers; 0 stands for the negative times as well.
abbrev times : Times ℕ
times = record {
  add = λ a b. a + b;
  sub = λ a b. a - b;
  leb_T = leb;
  is_negative = λ a. leb a 0;
  to_int = λ a. a;
  of_ℕ = λ n. n;
  zero_T = 0;
  minus_one = 0;
}

abbrev config : PeerConfig ℕ
config = record {
  sport = 40001;
  dport = 9999;
  isn = 1000;
  mss = 1024;
  win = 65535;
  offer_sack = true;
  send_sack_blocks = true;
  ack_delay_ms = 5;
}

abbrev summary : RunSummary ℕ
summary = record {
  bytes_delivered = 0;
  bytes_wanted = 4;
  completed = false;
  t_first_data = 0;
  t_last_original = 0;
  t_hole_created = 0;
  t_hole_filled = 0;
  hol_delay_ms = 0;
  dup_acks_sent = 0;
  acks_sent = 0;
  segments_dropped = 0;
  ack_send_failures = 0;
  retransmits = [];
  saw_rst = false;
  saw_fin = false;
}

abbrev log : Trace ℕ
log = record { events = []; t0 = 1; data_isn = 7; our_isn = 1000 }

-- The run drops the bytes at offsets 2 and 3 once.
abbrev start : Run ℕ
start = record {
  rsm = record { rcv_nxt = 7; isn = 7; held = []; advances = []; dups = 0; ooo = 0 };
  pending = [];
  max_seq_end_seen = 7;
  tr = log;
  loss = record { rules = record { lo = 2; hi = 4; times = 1; fired = 0 } ∷ []; dropped = 0 };
  sum = summary;
  hole_open = false;
  hole_end_seq = 0;
}

abbrev data_at : ℕ → ℕ → Seg ℕ
data_at k t = record {
  seq = 7 + k;
  ack = 1001;
  flags = 0x10;
  win = 65535;
  sport = 9999;
  dport = 40001;
  payload = 104 ∷ 105 ∷ [];
  opt = no_options;
  t_ms = t;
}

-- The second segment is lost, the third out of order, the last a retransmission.
abbrev batch : List (ℕ × Seg ℕ)
batch = (10, data_at 0 9) ∷ (11, data_at 2 10) ∷ (12, data_at 4 11) ∷ (13, data_at 2 12) ∷ []

receive_batch-Handles_example :
    Handles (data_count times config batch) start (receive_batch times config 7 start batch).0
receive_batch-Handles_example = receive_batch-Handles times config 7 start batch

-- A device whose descriptor takes one packet and then fails with error 55.
abbrev write_once : ℕ → List ℕ → ℕ × Written
write_once fd bytes = if_first (leb fd 0)
  where
    if_first : Bool → ℕ × Written
    if_first true = (1, wrote (length bytes))
    if_first false = (fd, failed 55)

abbrev device : Utun ℕ
device = record {
  fd = 0;
  local = record { b0 = 10; b1 = 77; b2 = 0; b3 = 1 };
  peer = record { b0 = 10; b1 = 77; b2 = 0; b3 = 2 };
  ip_id = 1;
  frames_written = 0;
  segments_read = 0;
  non_ipv4_frames = 0;
  unparseable = 0;
  peak_burst_frames = 0;
  peak_burst_bytes = 0;
}

abbrev outbox : Outbox (Utun ℕ) ℕ
outbox = record { device = device; tr = log; sum = summary }

abbrev queued : ℕ → Bool → PendingAck ℕ
queued due is_dup = record { due_ms = due; ack = 9; sacks = []; is_dup = is_dup }

-- Two are due at 15, the third is not.
abbrev queue : List (PendingAck ℕ)
queue = queued 14 false ∷ queued 15 true ∷ queued 20 true ∷ []

flush_acks-IsFlushed_example :
    IsFlushed times config
      (send write_once λ e. [])
      1001
      outbox
      queue
      15
      false
      (flush_acks times config (send write_once λ e. []) 1001 outbox queue 15 false)
flush_acks-IsFlushed_example =
    flush_acks-IsFlushed times config (send write_once λ e. []) 1001 outbox queue 15 false

-- The kernel answers with an acknowledgement and a RST.
abbrev answers : Utun ℕ → Utun ℕ × List (Seg ℕ)
answers u = (u, data_at 0 20 ∷ record (data_at 0 21) { flags = 0x14 } ∷ [])

-- A SYN inside the window, fired three times at a device that takes one.
abbrev syn : Seg ℕ
syn = probe times config 1001 7 2 10 0

abbrev digits : ℕ → List ℕ
digits n = (48 + n) ∷ []

abbrev fired_burst : Bursting (Utun ℕ) ℕ
fired_burst =
    burst times (send write_once λ e. []) digits answers config 15 30 1001 7 2 10 0 3 device log

abbrev answered : List (Seg ℕ)
answered = (answers (sends (send write_once λ e. []) (replicate 3 syn) device)).1

burst-counts_example :
    (fired_burst.result.sent ≡ sends_taken (send write_once λ e. []) (replicate 3 syn) device)
    × (fired_burst.result.send_failures
        ≡ sends_refused (send write_once λ e. []) (replicate 3 syn) device)
    × (fired_burst.result.sent + fired_burst.result.send_failures ≡ 3)
    × (complete fired_burst.result 3
        ≡ (sends_refused (send write_once λ e. []) (replicate 3 syn) device == 0))
    × (fired_burst.device ≡ (answers (sends (send write_once λ e. []) (replicate 3 syn) device)).0)
    × (fired_burst.result.rsts ≡ resets times config answered)
    × (fired_burst.result.acks ≡ challenges times config answered)
burst-counts_example =
    burst-counts times (send write_once λ e. []) digits answers config 15 30 1001 7 2 10 0 3 device
      log

-- The kernel's answer to the SYN, and a device whose first answer is an old ACK.
abbrev kernel_syn_ack : Seg ℕ
kernel_syn_ack = record (data_at 0 3) {
  seq = 6;
  flags = 0x12;
  payload = [];
  opt = record no_options { mss = some 1024; sack_permitted = true };
}

abbrev hears_syn_ack : DrainOp (Utun ℕ) ℕ
hears_syn_ack timeout u = (
  u,
  record (data_at 0 2) { payload = [] } ∷ record (data_at 0 2) { dport = 5 } ∷ kernel_syn_ack ∷ [],
)

abbrev meeting : Meeting ℕ
meeting = record {
  t0 = 1;
  wait_start = 2;
  readings = 2 ∷ 3 ∷ [];
  ack_time = 4;
  outcome = accepted 8 40001;
}

abbrev sends_all : Utun ℕ → Seg ℕ → Utun ℕ × Option (List ℕ)
sends_all u s = (u, none)

abbrev met : Connecting (Utun ℕ) ℕ
met = establish times config sends_all digits hears_syn_ack (new_peer times) meeting device log

met_connected : met.result ≡ connected
unfolding establish await scan greet take_socket
met_connected = refl

establish-Learns_example :
    Meets times config sends_all digits hears_syn_ack meeting device met.peer met.tr
establish-Learns_example =
    establish-Learns times config sends_all digits hears_syn_ack (new_peer times) meeting device log
      met_connected

-- A call for nine bytes over such a peer; four arrive in the first round, and the clock ends it.
abbrev met_peer : Peer ℕ
met_peer = record (new_peer times) { afd = some 8; snd = 1001; data_isn = 7; max_seq_end_seen = 7 }

abbrev hears_data : DrainOp (Utun ℕ) ℕ
hears_data timeout u = (u, data_at 0 9 ∷ data_at 2 10 ∷ [])

abbrev lap_at : ℕ → Lap ℕ
lap_at t = record { test = t; slice = t; queued = λ n. t; flush = t + 1 }

abbrev two_laps : List (Lap ℕ)
two_laps = lap_at 10 ∷ lap_at 114 ∷ []

abbrev received : Peer ℕ × Receiving (Utun ℕ) ℕ × Ending
received =
    receive times config sends_all hears_data met_peer 9 100 (record { rules = []; dropped = 0 })
      log device 10 two_laps 20

received_ended : received.2 ≡ loop_ended
unfolding receive receive_loop delivered create take_batch receive_batch receive_segment
received_ended = refl

receive-Reports_example :
    Reports times config sends_all hears_data met_peer 9
      (record { rules = []; dropped = 0 })
      received.0
      received.1.run
receive-Reports_example =
    receive-Reports times config sends_all hears_data met_peer 9 100
      (record { rules = []; dropped = 0 }) log device 10 two_laps 20 received_ended

-- Nothing arrives; the clock passes the end in the second round.
abbrev hears_nothing : DrainOp (Utun ℕ) ℕ
hears_nothing timeout u = (u, [])

receive-returns_example :
    (receive times config sends_all hears_nothing met_peer 9 100
      (record { rules = []; dropped = 0 })
      log
      device
      10
      (lap_at 10 ∷ [] ++ lap_at 110 ∷ lap_at 120 ∷ [])
      130).2
    ≢ running
receive-returns_example =
    receive-returns times config sends_all hears_nothing met_peer 9 100
      (record { rules = []; dropped = 0 }) log device 10 (lap_at 10 ∷ []) (lap_at 110)
      (lap_at 120 ∷ []) 130 refl
