-- ===== src/Peer/Owed.antt =====
-- What the peer owes the kernel: each segment with data is answered by one acknowledgement, or dropped.
use tcp_probe.Prelude.{
  ℕ, ◌+◌, ◌<◌, ◌≡◌, ap, refl, arith, Bool, true, false, ◌&&◌, not, List, [], ◌∷◌, ◌++◌, length, ltb,
  if◌then◌else◌,
}
use tcp_probe.Prelude.Int.{pos, leb_ℤ}
use tcp_probe.Seq.{seq_lt}
use tcp_probe.Trace.{relative}
use tcp_probe.Word.{u32, has_bits}
use tcp_probe.Segment.{Seg, th_rst}
use tcp_probe.Policy as Policy
use tcp_probe.Policy.{LossPolicy}
use tcp_probe.Reassembly.{accept, sack_blocks}
use tcp_probe.Reassembly.Refine.{accept-counts}
use tcp_probe.Clock.{Times}
use tcp_probe.Peer.{
  PeerConfig, PendingAck, Run, u32_of, queue_ack, on_dropped, on_accepted, note_sequence, on_data,
  is_ours, receive_segment, receive_batch,
}

abbrev pub dup_count : {T : Type 0} → List (PendingAck T) → ℕ
dup_count [] = 0
dup_count (p ∷ ps) = (if p.is_dup then 1 else 0) + dup_count ps

-- Queued acknowledgements of progress.
abbrev pub new_count : {T : Type 0} → List (PendingAck T) → ℕ
new_count [] = 0
new_count (p ∷ ps) = (if p.is_dup then 0 else 1) + new_count ps

-- From `run` to `run'`, `n` segments with data have been handled: each was dropped or is answered by
-- one acknowledgement, which is a duplicate exactly if the frontier did not move.
pub record Handles {T : Type 0} (n : ℕ) (run run' : Run T) : Type 0 where
  pub answered :
      length run'.pending + run'.sum.segments_dropped
      ≡ length run.pending + run.sum.segments_dropped + n
  pub progress :
      new_count run'.pending + length run.rsm.advances
      ≡ new_count run.pending + length run'.rsm.advances
  pub duplicates :
      dup_count run'.pending + (run.rsm.dups + run.rsm.ooo)
      ≡ dup_count run.pending + (run'.rsm.dups + run'.rsm.ooo)
  pub dropped :
      run'.sum.segments_dropped + run.loss.dropped ≡ run.sum.segments_dropped + run'.loss.dropped

Handles-none : {T : Type 0} (run : Run T) → Handles 0 run run
Handles-none run = record {
  answered = omega arith;
  progress = refl;
  duplicates = refl;
  dropped = refl;
}

Handles-then :
    {T : Type 0} (m n : ℕ) (a b c : Run T) → Handles m a b → Handles n b c → Handles (m + n) a c
Handles-then m n a b c h k = record {
  answered = omega (arith, h.answered, k.answered);
  progress = omega (arith, h.progress, k.progress);
  duplicates = omega (arith, h.duplicates, k.duplicates);
  dropped = omega (arith, h.dropped, k.dropped);
}

Handles-if :
    {T : Type 0} {n : ℕ} {run : Run T} (b : Bool) (x y : Run T)
    → (b ≡ true → Handles n run x)
    → (b ≡ false → Handles n run y)
    → Handles n run (if b then x else y)
Handles-if true x y h k = h refl
Handles-if false x y h k = k refl

-- A run that differs from `run` in nothing that is counted.
Handles-from :
    {T : Type 0} (n : ℕ) (run run1 run' : Run T)
    → (run1.pending ≡ run.pending)
      × (run1.rsm ≡ run.rsm)
      × (run1.loss ≡ run.loss)
      × (run1.sum.segments_dropped ≡ run.sum.segments_dropped)
    → Handles n run1 run'
    → Handles n run run'
Handles-from n run run1 run' f h = record {
  answered = omega (arith, h.answered, ap length f.0, f.3);
  progress = omega (arith, h.progress, ap new_count f.0, ap (λ r. length r.advances) f.1);
  duplicates =
      omega (arith, h.duplicates, ap dup_count f.0, ap (λ r. r.dups) f.1, ap (λ r. r.ooo) f.1);
  dropped = omega (arith, h.dropped, ap (λ l. l.dropped) f.2, f.3);
}

counts-append :
    {T : Type 0} (ps : List (PendingAck T)) (p : PendingAck T)
    → (length (ps ++ p ∷ []) ≡ length ps + 1)
      × (new_count (ps ++ p ∷ []) ≡ new_count ps + (if p.is_dup then 0 else 1))
      × (dup_count (ps ++ p ∷ []) ≡ dup_count ps + (if p.is_dup then 1 else 0))
counts-append [] p = (refl, omega arith, omega arith)
counts-append (q ∷ ps) p =
    let h = counts-append ps p in (omega (arith, h), omega (arith, h), omega (arith, h))

dropped-drop :
    (p : LossPolicy) (rel_seq len : ℕ)
    → (Policy.drop p rel_seq len).0.dropped
      ≡ p.dropped + (if (Policy.drop p rel_seq len).1 then 1 else 0)
unfolding Policy.drop
dropped-drop p rel_seq len = ground arith

module _ {T : Type 0} (tm : Times T) (cfg : PeerConfig T) where
  on_dropped-counts :
      (run : Run T) (s : Seg T)
      → let run' = on_dropped tm cfg run s in
        (run'.pending ≡ run.pending)
        × (run'.rsm ≡ run.rsm)
        × (run'.loss ≡ run.loss)
        × (run'.sum.segments_dropped ≡ run.sum.segments_dropped + 1)
  unfolding on_dropped
  on_dropped-counts run s = ground arith

  on_accepted-fields :
      (run : Run T) (now : T) (s : Seg T) (is_rexmt : Bool)
      → let run' = on_accepted tm cfg run now s is_rexmt in
        let rsm' = accept run.rsm s.seq (u32 (length s.payload)) s.t_ms in
        (run'.pending
          ≡ queue_ack tm cfg run.pending now (rsm'.0).rcv_nxt (sack_blocks rsm'.0 4) (not rsm'.1))
        × (run'.rsm ≡ rsm'.0)
        × (run'.loss ≡ run.loss)
        × (run'.sum.segments_dropped ≡ run.sum.segments_dropped)
  unfolding on_accepted
  on_accepted-fields run now s is_rexmt = ground arith

  on_accepted-Handles :
      (run : Run T) (now : T) (s : Seg T) (is_rexmt : Bool)
      → 0 < u32 (length s.payload)
      → Handles 1 run (on_accepted tm cfg run now s is_rexmt)
  unfolding queue_ack
  on_accepted-Handles run now s is_rexmt some_data =
      let f = on_accepted-fields run now s is_rexmt in
      let rsm' = accept run.rsm s.seq (u32 (length s.payload)) s.t_ms in
      let c = accept-counts run.rsm s.seq (u32 (length s.payload)) s.t_ms in
      let p : PendingAck T = record {
        due_ms = tm.add now cfg.ack_delay_ms;
        ack = (rsm'.0).rcv_nxt;
        sacks = sack_blocks rsm'.0 4;
        is_dup = not rsm'.1;
      } in
      let n = counts-append run.pending p in
      record {
        answered = ground (arith, ap length f.0, f, n);
        progress = ground (arith, ap new_count f.0, f, n, c);
        duplicates = ground (arith, ap dup_count f.0, f, n, c);
        dropped = ground (arith, f);
      }

  note_sequence-fields :
      (data_isn : ℕ) (run : Run T) (s : Seg T)
      → let run' = note_sequence tm cfg data_isn run s in
        (run'.pending ≡ run.pending)
        × (run'.rsm ≡ run.rsm)
        × (run'.loss ≡ run.loss)
        × (run'.sum.segments_dropped ≡ run.sum.segments_dropped)
  unfolding note_sequence
  note_sequence-fields data_isn run s = ground arith

  -- The handling goes on from a run whose policy has decided.
  drop_or_accept-Handles :
      (run1 : Run T) (now : T) (s : Seg T) (is_rexmt : Bool) (rel : ℕ)
      → 0 < u32 (length s.payload)
      → let d = Policy.drop run1.loss rel (u32 (length s.payload)) in
        let run2 : Run T = record run1 { loss = d.0 } in
        Handles 1 run1
          (if d.1 then on_dropped tm cfg run2 s else on_accepted tm cfg run2 now s is_rexmt)
  drop_or_accept-Handles run1 now s is_rexmt rel some_data =
      let d = Policy.drop run1.loss rel (u32 (length s.payload)) in
      let run2 : Run T = record run1 { loss = d.0 } in
      let n = dropped-drop run1.loss rel (u32 (length s.payload)) in
      let f = on_dropped-counts run2 s in
      let h = on_accepted-Handles run2 now s is_rexmt some_data in
      Handles-if d.1 _ _
        (λ e. record {
          answered = ground (arith, e, ap length f.0, f);
          progress = ground (arith, e, ap new_count f.0, ap (λ r. length r.advances) f.1);
          duplicates = ground (arith, e, ap dup_count f.0, ap (λ r. r.dups + r.ooo) f.1);
          dropped = ground (arith, e, n, ap (λ l. l.dropped) f.2, f.3);
        })
        λ e. record {
          answered = h.answered;
          progress = h.progress;
          duplicates = h.duplicates;
          dropped = ground (arith, e, n, h.dropped);
        }

  on_data-Handles :
      (data_isn : ℕ) (run : Run T) (now : T) (s : Seg T)
      → 0 < u32 (length s.payload)
      → Handles 1 run (on_data tm cfg data_isn run now s)
  unfolding on_data
  on_data-Handles data_isn run now s some_data =
      let run1 = note_sequence tm cfg data_isn run s in
      let rel = relative s.seq data_isn in
      let again = seq_lt s.seq run.max_seq_end_seen in
      Handles-from 1 run run1 _ (note_sequence-fields data_isn run s) (
        Handles-if (leb_ℤ (pos 0) rel) _ _
          (λ e. drop_or_accept-Handles run1 now s again (u32_of rel) some_data)
          λ e. on_accepted-Handles run1 now s again some_data)

  -- Is the segment one that the peer must answer?
  abbrev pub has_data : Seg T → Bool
  has_data s = is_ours tm cfg s && not (has_bits s.flags th_rst) && ltb 0 (u32 (length s.payload))

  receive_segment-Handles :
      (data_isn : ℕ) (run : Run T) (now : T) (s : Seg T)
      → Handles (if has_data s then 1 else 0) run (receive_segment tm cfg data_isn run now s).0
  unfolding receive_segment
  receive_segment-Handles data_isn run now s =
      ground (arith, on_data-Handles data_isn run now s, Handles-none run)

  -- How many segments of a batch the peer must answer: those with data up to a RST.
  abbrev pub data_count : List (T × Seg T) → ℕ
  data_count [] = 0
  data_count ((now, s) ∷ rest) =
      if is_ours tm cfg s && has_bits s.flags th_rst
      then 0
      else (if has_data s then 1 else 0) + data_count rest

  stops_lem :
      (data_isn : ℕ) (run : Run T) (now : T) (s : Seg T)
      → (receive_segment tm cfg data_isn run now s).1
        ≡ (is_ours tm cfg s && has_bits s.flags th_rst)
  unfolding receive_segment
  stops_lem data_isn run now s = ground arith

  -- Of any batch that `receive` works through, each segment with data of this connection, up to a
  -- RST, is either counted as dropped or answered by exactly one acknowledgement in the queue, and
  -- nothing else is. Of the acknowledgements queued, as many are no duplicates as the frontier has
  -- advances, and as many are duplicates as segments were counted as duplicates or out of order.
  -- The drops counted are those of the policy.
  pub receive_batch-Handles :
      (data_isn : ℕ) (run : Run T) (batch : List (T × Seg T))
      → Handles (data_count batch) run (receive_batch tm cfg data_isn run batch).0
  unfolding receive_batch
  receive_batch-Handles data_isn run [] = Handles-none run
  receive_batch-Handles data_isn run ((now, s) ∷ rest) =
      let step = receive_segment tm cfg data_isn run now s in
      ground (
        arith,
        stops_lem data_isn run now s,
        receive_segment-Handles data_isn run now s,
        receive_batch-Handles data_isn step.0 rest,
        Handles-then (if has_data s then 1 else 0) (data_count rest) run step.0
            (receive_batch tm cfg data_isn step.0 rest).0,
      )
