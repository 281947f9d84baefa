-- ===== src/Peer/Receive.antt =====
-- src/peer.cpp: `Peer::receive`, the loop that drains the device, handles the batch and sends what it
-- owes. The environment gives the clock readings of each round; a run whose rounds end before the
-- loop does is still running.
use tcp_probe.Prelude.{
  ℕ, ◌+◌, Bool, true, false, ◌&&◌, not, none, some, List, [], ◌∷◌, leb, ltb, if◌then◌else◌,
}
use tcp_probe.Clock.{Times}
use tcp_probe.Segment.{Seg}
use tcp_probe.Policy.{LossPolicy}
use tcp_probe.Reassembly.{Reassembly, create, delivered}
use tcp_probe.Trace.{Trace}
use tcp_probe.Peer.{PeerConfig, PendingAck, RunSummary, Run, receive_batch}
use tcp_probe.Peer.Outbox.{Send, Outbox, flush_acks}
use tcp_probe.Peer.Connect.{Peer, DrainOp}

-- The clock in one round: at the loop's test, at the choice of the slice, at the n-th acknowledgement
-- queued from a position of the batch, and at the flush.
pub record Lap (T : Type 0) : Type 0 where
  pub test : T
  pub slice : T
  pub queued : ℕ → T
  pub flush : T

-- How a call stands after its rounds: it returned at a RST, its loop ended, or it is still running.
pub data Ending : Type 0 where
  by_reset loop_ended running : Ending

-- The device and what `receive` works on.
pub record Receiving (D T : Type 0) : Type 0 where
  pub device : D
  pub run : Run T

-- Each segment of a batch with the clock at its acknowledgement.
abbrev pub at_clock : {T : Type 0} → (ℕ → T) → ℕ → List (Seg T) → List (T × Seg T)
at_clock queued n [] = []
at_clock queued n (s ∷ rest) = (queued n, s) ∷ at_clock queued (n + 1) rest

-- `rsm_`, created by the first `receive` of a connection.
abbrev pub frontier_of : {T : Type 0} → Peer T → Reassembly T
frontier_of p = elim p.rsm [ none ↦ create p.data_isn | some r ↦ r ]

module _ {D T : Type 0} (tm : Times T) (cfg : PeerConfig T) (send : Send D T)
    (drain : DrainOp D T) where
  -- How long the round waits: 20 ms, but no longer than to the first queued acknowledgement.
  unfoldable pub slice_of : List (PendingAck T) → T → T
  slice_of [] now = tm.of_ℕ 20
  slice_of (p ∷ rest) now =
      let left = tm.sub p.due_ms now in
      let slice = if tm.leb_T (tm.of_ℕ 20) left then tm.of_ℕ 20 else left in
      if tm.is_negative slice then tm.zero_T else slice

  -- A flush of the run's queue; `snd` is the peer's `snd_`.
  unfoldable pub flush_run : ℕ → Receiving D T → T → Bool → Receiving D T
  flush_run snd r now force =
      let box : Outbox D T = record { device = r.device; tr = r.run.tr; sum = r.run.sum } in
      let (left, box') = flush_acks tm cfg send snd box r.run.pending now force in
      record {
        device = box'.device;
        run = record (r.run) { pending = left; tr = box'.tr; sum = box'.sum };
      }

  -- The part of a round up to the flush, and whether the call returns at a RST.
  unfoldable pub take_batch : Peer T → Receiving D T → Lap T → Receiving D T × Bool
  take_batch p r lap =
      let (device, batch) = drain (slice_of r.run.pending lap.slice) r.device in
      let (run, stop) = receive_batch tm cfg p.data_isn r.run (at_clock lap.queued 0 batch) in
      (record { device = device; run = run }, stop)

  unfoldable pub receive_loop :
      T → ℕ → Peer T → Receiving D T → List (Lap T) → Receiving D T × Ending
  receive_loop t_end target p r [] = (r, running)
  receive_loop t_end target p r (lap ∷ rest) =
      let (r', stop) = take_batch p r lap in
      let more = receive_loop t_end target p (flush_run p.snd r' lap.flush false) rest in
      if not (tm.leb_T t_end lap.test) && ltb (delivered r.run.rsm) target
      then (if stop then (r', by_reset) else more)
      else (r, loop_ended)

  -- `RunSummary sum` with its target.
  abbrev pub new_summary : ℕ → RunSummary T
  new_summary target = record {
    bytes_delivered = 0;
    bytes_wanted = target;
    completed = false;
    t_first_data = tm.minus_one;
    t_last_original = tm.minus_one;
    t_hole_created = tm.minus_one;
    t_hole_filled = tm.minus_one;
    hol_delay_ms = tm.minus_one;
    dup_acks_sent = 0;
    acks_sent = 0;
    segments_dropped = 0;
    ack_send_failures = 0;
    retransmits = [];
    saw_rst = false;
    saw_fin = false;
  }

  abbrev pub new_run : Peer T → ℕ → LossPolicy → Trace T → Run T
  new_run p target loss tr = record {
    rsm = frontier_of p;
    pending = p.pending;
    max_seq_end_seen = p.max_seq_end_seen;
    tr = tr;
    loss = loss;
    sum = new_summary target;
    hole_open = false;
    hole_end_seq = 0;
  }

  -- The part behind the loop; `now` is the clock at the last flush.
  unfoldable pub finish : Peer T → ℕ → T → Receiving D T → Receiving D T
  finish p target now r =
      let r' = flush_run p.snd r now true in
      record r' {
        run = record (r'.run) {
          sum = record (r'.run.sum) {
            bytes_delivered = delivered r.run.rsm;
            completed = leb target (delivered r.run.rsm);
          };
        };
      }

  -- The members of the peer after the call.
  abbrev pub keep_run : Peer T → Run T → Peer T
  keep_run p run = record p {
    pending = run.pending;
    max_seq_end_seen = run.max_seq_end_seen;
    rsm = some run.rsm;
  }

  -- `receive`, started at the clock `start`; `last` is the clock at its last flush.
  unfoldable pub receive :
      Peer T
      → ℕ
      → T
      → LossPolicy
      → Trace T
      → D
      → T
      → List (Lap T)
      → T
      → Peer T × Receiving D T × Ending
  receive p target timeout_ms loss tr device start laps last =
      let fresh : Receiving D T = record { device = device; run = new_run p target loss tr } in
      let (r, ending) = receive_loop (tm.add start timeout_ms) target p fresh laps in
      let done = finish p target last r in
      elim ending [
        | by_reset ↦ (keep_run p r.run, r, by_reset)
        | running ↦ (keep_run p r.run, r, running)
        | loop_ended ↦ (keep_run p done.run, done, loop_ended)
      ]
