-- ===== src/Peer/Counted.antt =====
-- A batch leaves the counts of acknowledgements as they are.
use tcp_probe.Prelude.{ℕ, ◌≡◌, refl, arith, Bool, List, [], ◌∷◌, length}
use tcp_probe.Clock.{Times}
use tcp_probe.Word.{u32}
use tcp_probe.Seq.{seq_lt}
use tcp_probe.Policy as Policy
use tcp_probe.Trace.{relative}
use tcp_probe.Segment.{Seg}
use tcp_probe.Policy.{LossPolicy}
use tcp_probe.Peer.{
  PeerConfig, RunSummary, Run, u32_of, on_dropped, on_accepted, note_sequence, on_data,
  receive_segment, receive_batch,
}

-- Two summaries that count the same acknowledgements.
abbrev pub Agrees : {T : Type 0} → RunSummary T → RunSummary T → Type 0
Agrees a b =
    (b.acks_sent ≡ a.acks_sent)
    × (b.ack_send_failures ≡ a.ack_send_failures)
    × (b.dup_acks_sent ≡ a.dup_acks_sent)

module _ {T : Type 0} (tm : Times T) (cfg : PeerConfig T) where
  on_dropped-Agrees : (run : Run T) (s : Seg T) → Agrees run.sum (on_dropped tm cfg run s).sum
  unfolding on_dropped
  on_dropped-Agrees run s = ground arith

  on_accepted-Agrees :
      (run : Run T) (now : T) (s : Seg T) (r : Bool)
      → Agrees run.sum (on_accepted tm cfg run now s r).sum
  unfolding on_accepted
  on_accepted-Agrees run now s r = ground arith

  note_sequence-Agrees :
      (isn : ℕ) (run : Run T) (s : Seg T) → Agrees run.sum (note_sequence tm cfg isn run s).sum
  unfolding note_sequence
  note_sequence-Agrees isn run s = ground arith

  on_data-Agrees :
      (isn : ℕ) (run : Run T) (now : T) (s : Seg T)
      → Agrees run.sum (on_data tm cfg isn run now s).sum
  unfolding on_data
  on_data-Agrees isn run now s =
      let run1 = note_sequence tm cfg isn run s in
      let again = seq_lt s.seq run.max_seq_end_seen in
      let (loss, hit) =
        Policy.drop run1.loss (u32_of (relative s.seq isn)) (u32 (length s.payload)) in
      let run2 : Run T = record run1 { loss = loss } in
      ground (
        arith,
        note_sequence-Agrees isn run s,
        on_dropped-Agrees run2 s,
        on_accepted-Agrees run2 now s again,
        on_accepted-Agrees run1 now s again,
      )

  receive_segment-Agrees :
      (isn : ℕ) (run : Run T) (now : T) (s : Seg T)
      → Agrees run.sum (receive_segment tm cfg isn run now s).0.sum
  unfolding receive_segment
  receive_segment-Agrees isn run now s = ground (arith, on_data-Agrees isn run now s)

  pub receive_batch-Agrees :
      (isn : ℕ) (run : Run T) (batch : List (T × Seg T))
      → Agrees run.sum (receive_batch tm cfg isn run batch).0.sum
  unfolding receive_batch
  receive_batch-Agrees isn run [] = (refl, refl, refl)
  receive_batch-Agrees isn run ((now, s) ∷ rest) =
      let step = receive_segment tm cfg isn run now s in
      ground (arith, receive_segment-Agrees isn run now s, receive_batch-Agrees isn step.0 rest)
