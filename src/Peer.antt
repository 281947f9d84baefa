-- ===== src/Peer.antt =====
-- include/tp/peer.hpp and src/peer.cpp: what the synthetic peer does with a segment from the kernel
-- and with the acknowledgements that it owes. A time is a value of any type with the operations
-- that the source uses on `double`; the device is a state with a send operation.
pub mod Outbox
pub mod Owed
pub mod Sends
pub mod Flush
pub mod Burst
pub mod Connect
pub mod Receive
pub mod Handshake
pub mod Counted
pub mod Balance
pub mod Returns
use tcp_probe.Prelude.{
  ℕ, ◌+◌, ◌-◌, Bool, true, false, ◌&&◌, ◌||◌, not, Option, none, some, List, [], ◌∷◌, ◌++◌, length,
  ltb, ◌==◌, if◌then◌else◌,
}
use tcp_probe.Prelude.Int.{ℤ, pos, negsuc, leb_ℤ}
use tcp_probe.Clock.{Times}
use tcp_probe.Word.{u32, sub32, has_bits}
use tcp_probe.Seq.{seq_lt, seq_gt, seq_geq}
use tcp_probe.Segment.{SeqRange, Options, no_options, Seg, th_fin, th_rst, th_ack, is_empty}
use tcp_probe.Policy as Policy
use tcp_probe.Policy.{LossPolicy}
use tcp_probe.Reassembly.{Reassembly, accept, sack_blocks}
use tcp_probe.Trace.{Trace, record_rx, record_tx, note, relative}

pub record PeerConfig (T : Type 0) : Type 0 where
  pub sport : ℕ
  pub dport : ℕ
  pub isn : ℕ
  pub mss : ℕ
  pub win : ℕ
  pub offer_sack : Bool
  pub send_sack_blocks : Bool
  pub ack_delay_ms : T

pub record Retransmit (T : Type 0) : Type 0 where
  pub t_ms : T
  pub rel_seq : ℤ
  pub len : ℕ

pub record RunSummary (T : Type 0) : Type 0 where
  pub bytes_delivered : ℕ
  pub bytes_wanted : ℕ
  pub completed : Bool
  pub t_first_data : T
  pub t_last_original : T
  pub t_hole_created : T
  pub t_hole_filled : T
  pub hol_delay_ms : T
  pub dup_acks_sent : ℕ
  pub acks_sent : ℕ
  pub segments_dropped : ℕ
  pub ack_send_failures : ℕ
  pub retransmits : List (Retransmit T)
  pub saw_rst : Bool
  pub saw_fin : Bool

pub record PendingAck (T : Type 0) : Type 0 where
  pub due_ms : T
  pub ack : ℕ
  pub sacks : List SeqRange
  pub is_dup : Bool

-- What one call of `receive` works on: the peer's `rsm_`, `pending_` and `max_seq_end_seen_`, the
-- trace, the loss policy, and the local variables `sum`, `hole_open` and `hole_end_seq`.
pub record Run (T : Type 0) : Type 0 where
  pub rsm : Reassembly T
  pub pending : List (PendingAck T)
  pub max_seq_end_seen : ℕ
  pub tr : Trace T
  pub loss : LossPolicy
  pub sum : RunSummary T
  pub hole_open : Bool
  pub hole_end_seq : ℕ

-- `uint32_t` of an `int64_t`.
abbrev pub u32_of : ℤ → ℕ
u32_of (pos n) = u32 n
u32_of (negsuc n) = sub32 0 (u32 (n + 1))

abbrev retransmit_text : List ℕ
retransmit_text = b'r' ∷ b'e' ∷ b't' ∷ b'r' ∷ b'a' ∷ b'n' ∷ b's' ∷ b'm' ∷ b'i' ∷ b't' ∷ []

module _ {T : Type 0} (tm : Times T) (cfg : PeerConfig T) where
  unfoldable pub queue_ack :
      List (PendingAck T) → T → ℕ → List SeqRange → Bool → List (PendingAck T)
  queue_ack pending now ack sacks is_dup =
      pending
      ++ record { due_ms = tm.add now cfg.ack_delay_ms; ack = ack; sacks = sacks; is_dup = is_dup }
        ∷ []

  -- The part of `receive` for a segment that the policy drops. The time of the event just recorded
  -- is `s.t_ms` less the trace's origin.
  unfoldable pub on_dropped : Run T → Seg T → Run T
  on_dropped run s =
      let len = u32 (length s.payload) in
      let at = tm.sub s.t_ms run.tr.t0 in
      let sum : RunSummary T = record (run.sum) {
        segments_dropped = run.sum.segments_dropped + 1;
      } in
      let tr = record_rx tm.sub run.tr s.t_ms s.seq s.ack s.flags len true [] in
      let run' : Run T = record run { sum = sum; tr = tr } in
      if run.hole_open then run' else record run' {
        hole_open = true;
        hole_end_seq = u32 (s.seq + len);
        sum = record sum { t_hole_created = at };
      }

  -- The part for a segment with data that is not dropped; `now` is the clock at `queue_ack`.
  unfoldable pub on_accepted : Run T → T → Seg T → Bool → Run T
  on_accepted run now s is_rexmt =
      let len = u32 (length s.payload) in
      let (rsm, moved) = accept run.rsm s.seq len s.t_ms in
      let text : List ℕ = if is_rexmt then retransmit_text else [] in
      let tr = record_rx tm.sub run.tr s.t_ms s.seq s.ack s.flags len false text in
      let at = tm.sub s.t_ms run.tr.t0 in
      let sum1 : RunSummary T =
        if tm.is_negative run.sum.t_first_data
        then record (run.sum) { t_first_data = at }
        else run.sum in
      let sum2 : RunSummary T = if is_rexmt then sum1 else record sum1 { t_last_original = at } in
      let run' : Run T = record run {
        rsm = rsm;
        tr = tr;
        sum = sum2;
        pending = queue_ack run.pending now rsm.rcv_nxt (sack_blocks rsm 4) (not moved);
      } in
      if run.hole_open && seq_geq rsm.rcv_nxt run.hole_end_seq
      then record run' {
        hole_open = false;
        sum = record sum2 { t_hole_filled = at; hol_delay_ms = tm.sub at sum2.t_hole_created };
      }
      else run'

  -- The part for any segment with data that finds retransmissions.
  unfoldable pub note_sequence : ℕ → Run T → Seg T → Run T
  note_sequence data_isn run s =
      let len = u32 (length s.payload) in
      let end = u32 (s.seq + len) in
      let resent : Retransmit T = record {
        t_ms = tm.sub s.t_ms run.tr.t0;
        rel_seq = relative s.seq data_isn;
        len = len;
      } in
      let run' : Run T =
        if seq_gt end run.max_seq_end_seen then record run { max_seq_end_seen = end } else run in
      if seq_lt s.seq run.max_seq_end_seen
      then record run' {
        sum = record (run.sum) { retransmits = run.sum.retransmits ++ resent ∷ [] };
      }
      else run'

  -- The branch of `receive` for a segment with data. `data_isn` is the peer's `data_isn_`.
  unfoldable pub on_data : ℕ → Run T → T → Seg T → Run T
  on_data data_isn run now s =
      let rel = relative s.seq data_isn in
      let is_rexmt = seq_lt s.seq run.max_seq_end_seen in
      let run1 = note_sequence data_isn run s in
      let (loss, hit) = Policy.drop run1.loss (u32_of rel) (u32 (length s.payload)) in
      let run2 : Run T = record run1 { loss = loss } in
      if leb_ℤ (pos 0) rel
      then (if hit then on_dropped run2 s else on_accepted run2 now s is_rexmt)
      else on_accepted run1 now s is_rexmt

  -- Is the segment of this connection?
  abbrev pub is_ours : Seg T → Bool
  is_ours s = s.dport == cfg.sport && s.sport == cfg.dport

  -- One round of the loop of `receive` over a batch, and whether it is the round that returns.
  unfoldable pub receive_segment : ℕ → Run T → T → Seg T → Run T × Bool
  receive_segment data_isn run now s =
      let plain = record_rx tm.sub run.tr s.t_ms s.seq s.ack s.flags 0 false in
      if not (is_ours s)
      then (run, false)
      else if has_bits s.flags th_rst
      then (
        record run {
          sum = record (run.sum) { saw_rst = true };
          tr = plain (b'R' ∷ b'S' ∷ b'T' ∷ []);
        },
        true,
      )
      else if ltb 0 (u32 (length s.payload))
      then (on_data data_isn run now s, false)
      else if has_bits s.flags th_fin
      then (
        record run {
          sum = record (run.sum) { saw_fin = true };
          tr = plain (b'F' ∷ b'I' ∷ b'N' ∷ []);
        },
        false,
      )
      else (record run { tr = plain [] }, false)

  -- The loop over a batch; each segment with the clock at its `queue_ack`. It ends with a RST.
  unfoldable pub receive_batch : ℕ → Run T → List (T × Seg T) → Run T × Bool
  receive_batch data_isn run [] = (run, false)
  receive_batch data_isn run ((now, s) ∷ rest) =
      let (run', stop) = receive_segment data_isn run now s in
      let more = receive_batch data_isn run' rest in if stop then (run', true) else more
