-- ===== src/Experiments/Scenario.antt =====
-- experiments/harness.hpp: `run_scenario`, which stands up one connection, has the kernel send data and
-- receives it under a loss policy. The error texts are constructors.
use tcp_probe.Prelude.{
  ℕ, zero, suc, ◌+◌, ◌*◌, Bool, true, false, ◌&&◌, Option, none, some, List, [], ◌∷◌, ltb, ◌==◌,
  if◌then◌else◌,
}
use tcp_probe.Prelude.Int.{ℤ, pos, negsuc}
use tcp_probe.Word.{u8, u32}
use tcp_probe.Clock.{Times}
use tcp_probe.Policy.{LossPolicy}
use tcp_probe.Trace.{Trace}
use tcp_probe.Utun.{Written, failed, wrote}
use tcp_probe.Peer.{PeerConfig, RunSummary}
use tcp_probe.Peer.Outbox.{Send}
use tcp_probe.Peer.Connect.{
  DrainOp, Peer, new_peer, Failure, Established, connected, Connecting, Meeting, establish, reset,
}
use tcp_probe.Peer.Connect as Connect
use tcp_probe.Peer.Receive.{Lap, Ending, running, receive}

pub data ScenarioError : Type 0 where
  not_established : Failure → ScenarioError
  would_block : ℕ → ℤ → ScenarioError
  write_error : ℕ → ScenarioError
  short_write : ℕ → ℕ → ScenarioError

-- `Outcome`.
pub record Outcome (T : Type 0) : Type 0 where
  pub ok : Bool
  pub err : Option ScenarioError
  pub sum : RunSummary T
  pub trace : Trace T
  pub handshake_rtt_ms : T
  pub sack_negotiated : Bool
  pub peer_mss : ℕ
  pub bytes_written : ℕ

-- What a scenario leaves behind: its outcome, the device, the peer, the policy, and how `receive`
-- stands, if it was called.
pub record Scenario (D T : Type 0) : Type 0 where
  pub outcome : Outcome T
  pub device : D
  pub peer : Peer T
  pub loss : LossPolicy
  pub receipt : Option Ending

-- What the environment gives to the calls behind the handshake: the answer of `write` on the
-- accepted socket, and the clock readings of `receive`.
pub record Session (T : Type 0) : Type 0 where
  pub write : Option ℕ → List ℕ → Written
  pub start : T
  pub laps : List (Lap T)
  pub last : T

-- `n` bytes of the pattern from the `i`-th on.
unfoldable pub pattern_from : ℕ → ℕ → List ℕ
pattern_from i zero = []
pattern_from i (suc n) = u8 (i * 31 + 7) ∷ pattern_from (i + 1) n

-- Would the write block?
unfoldable pub exceeds : ℕ → ℤ → Bool
exceeds bytes (pos n) = ltb 0 n && ltb (u32 n) bytes
exceeds bytes (negsuc n) = false

-- `RunSummary{}`.
abbrev pub blank_summary : {T : Type 0} → Times T → RunSummary T
blank_summary tm = record {
  bytes_delivered = 0;
  bytes_wanted = 0;
  completed = false;
  t_first_data = tm.minus_one;
  t_last_original = tm.minus_one;
  t_hole_created = tm.minus_one;
  t_hole_filled = tm.minus_one;
  hol_delay_ms = tm.minus_one;
  dup_acks_sent = 0;
  acks_sent = 0;
  segments_dropped = 0;
  ack_send_failures = 0;
  retransmits = [];
  saw_rst = false;
  saw_fin = false;
}

-- `Outcome o`, over the trace of the connection.
abbrev pub new_outcome : {T : Type 0} → Times T → Trace T → Outcome T
new_outcome tm tr = record {
  ok = false;
  err = none;
  sum = blank_summary tm;
  trace = tr;
  handshake_rtt_ms = tm.minus_one;
  sack_negotiated = false;
  peer_mss = 0;
  bytes_written = 0;
}

module _ {D T : Type 0} (tm : Times T) (cfg : PeerConfig T) (send : Send D T) (decimal : ℕ → List ℕ)
    (drain : DrainOp D T) where
  -- An error behind the handshake, after which the connection is torn down.
  abbrev pub give_up : Connecting D T → LossPolicy → Outcome T → ScenarioError → Scenario D T
  give_up c loss o e =
      let (p, device) = reset tm cfg send decimal c.peer c.device in
      record {
        outcome = record o { err = some e };
        device = device;
        peer = p;
        loss = loss;
        receipt = none;
      }

  -- The part behind a complete write.
  unfoldable pub transfer :
      ℕ → T → LossPolicy → Session T → Connecting D T → Outcome T → Scenario D T
  transfer bytes timeout_ms loss s c o =
      let (p, r, ending) =
        receive tm cfg send drain c.peer bytes timeout_ms loss c.tr c.device s.start s.laps
          s.last in
      let (p', device) = reset tm cfg send decimal p r.device in
      let o' : Outcome T = record o { ok = true; sum = r.run.sum; trace = r.run.tr } in
      elim ending [
        | running ↦ record {
          outcome = o;
          device = r.device;
          peer = p;
          loss = r.run.loss;
          receipt = some running;
        }
        | x ↦ record {
          outcome = o';
          device = device;
          peer = p';
          loss = r.run.loss;
          receipt = some x;
        }
      ]

  -- What the result of `write` leads to.
  abbrev pub after_write :
      ℕ → T → LossPolicy → Session T → Connecting D T → Outcome T → Written → Scenario D T
  after_write bytes timeout_ms loss s c o (failed errno) = give_up c loss o (write_error errno)
  after_write bytes timeout_ms loss s c o (wrote w) =
      let o' : Outcome T = record o { bytes_written = u32 w } in
      if u32 w == bytes
      then transfer bytes timeout_ms loss s c o'
      else give_up c loss o' (short_write (u32 w) bytes)

  -- The part behind the handshake.
  unfoldable pub send_data : ℤ → ℕ → T → LossPolicy → Session T → Connecting D T → Scenario D T
  send_data sendspace bytes timeout_ms loss s c =
      let o : Outcome T = record (new_outcome tm c.tr) {
        handshake_rtt_ms = c.peer.handshake_rtt_ms;
        sack_negotiated = c.peer.peer_sack_ok;
        peer_mss = c.peer.peer_mss;
      } in
      let w = s.write c.peer.afd (pattern_from 0 bytes) in
      if exceeds bytes sendspace
      then give_up c loss o (would_block bytes sendspace)
      else after_write bytes timeout_ms loss s c o w

  unfoldable pub run_scenario :
      ℤ → ℕ → T → LossPolicy → Meeting T → Session T → D → Trace T → Scenario D T
  run_scenario sendspace bytes timeout_ms loss m s device tr =
      let c = establish tm cfg send decimal drain (new_peer tm) m device tr in
      let stopped : Outcome T → Scenario D T = λ o. record {
        outcome = o;
        device = c.device;
        peer = c.peer;
        loss = loss;
        receipt = none;
      } in
      elim c.result [
        | connected ↦ send_data sendspace bytes timeout_ms loss s c
        | Connect.unfinished ↦ stopped (new_outcome tm c.tr)
        | Connect.failed e ↦
            stopped (record (new_outcome tm c.tr) { err = some (not_established e) })
      ]
