-- ===== src/Peer/Balance.antt =====
-- The balance of acknowledgements over a whole `receive`, from its batches and its flushes.
use tcp_probe.Prelude.{
  ℕ, ◌+◌, ◌≤◌, ◌≡◌, refl, ap, sym, arith, Bool, true, false, some, List, [], ◌∷◌, ◌++◌, length,
  length-append, leb, ltb, ◌&&◌, not, if◌then◌else◌,
}
use tcp_probe.Clock.{Times}
use tcp_probe.Policy.{LossPolicy}
use tcp_probe.Reassembly.{Reassembly, delivered}
use tcp_probe.Trace.{Trace}
use tcp_probe.Peer.{PeerConfig, PendingAck, Run, receive_batch}
use tcp_probe.Peer.Outbox.{Send, Outbox, flush_acks}
use tcp_probe.Peer.Owed.{dup_count, new_count, Handles, receive_batch-Handles}
use tcp_probe.Peer.Flush.{flush_acks-IsFlushed, waits}
use tcp_probe.Peer.Connect.{Peer, DrainOp}
use tcp_probe.Peer.Receive.{
  Lap, Ending, by_reset, loop_ended, running, Receiving, at_clock, frontier_of, flush_run,
  take_batch, receive_loop, new_run, finish, keep_run, receive, slice_of,
}
use tcp_probe.Peer.Counted.{Agrees, receive_batch-Agrees}

length-counts : {T : Type 0} (ps : List (PendingAck T)) → length ps ≡ new_count ps + dup_count ps
length-counts [] = refl
length-counts (p ∷ ps) = ground (arith, length-counts ps)

counts-append :
    {T : Type 0} (ps qs : List (PendingAck T)) → dup_count (ps ++ qs) ≡ dup_count ps + dup_count qs
counts-append [] qs = omega arith
counts-append (p ∷ ps) qs = omega (arith, counts-append ps qs)

-- Segments that the reassembly has counted, and those that did not move its frontier.
abbrev pub useless : {T : Type 0} → Reassembly T → ℕ
useless r = r.dups + r.ooo

abbrev pub counted : {T : Type 0} → Reassembly T → ℕ
counted r = length r.advances + useless r

-- From a queue, a reassembly and a policy to a run: all acknowledgements are queued, sent or failed,
-- one for each segment that the reassembly has counted since, and the drops are the policy's.
pub record Balances {T : Type 0} (queue : List (PendingAck T)) (rsm : Reassembly T)
    (loss : LossPolicy) (run : Run T) : Type 0 where
  pub sent :
      run.sum.acks_sent + run.sum.ack_send_failures + length run.pending + counted rsm
      ≡ length queue + counted run.rsm
  pub duplicates :
      run.sum.dup_acks_sent + dup_count run.pending + useless rsm
      ≤ dup_count queue + useless run.rsm
  pub all_duplicates :
      dup_count queue + useless run.rsm
      ≤ run.sum.dup_acks_sent + run.sum.ack_send_failures + dup_count run.pending + useless rsm
  pub dropped : run.sum.segments_dropped + loss.dropped ≡ run.loss.dropped

Balances-Handles :
    {T : Type 0} {queue : List (PendingAck T)} {rsm : Reassembly T} {loss : LossPolicy} {n : ℕ}
    (run run' : Run T)
    → Balances queue rsm loss run
    → Handles n run run'
    → Agrees run.sum run'.sum
    → Balances queue rsm loss run'
Balances-Handles run run' b h a =
    let l = length-counts run.pending in
    let l' = length-counts run'.pending in
    record {
      sent = omega (arith, b.sent, h.progress, h.duplicates, l, l', a);
      duplicates = omega (arith, b.duplicates, h.duplicates, a);
      all_duplicates = omega (arith, b.all_duplicates, h.duplicates, a);
      dropped = omega (arith, b.dropped, h.dropped);
    }

Balances-if :
    {D T : Type 0} {queue : List (PendingAck T)} {rsm : Reassembly T} {loss : LossPolicy} (b : Bool)
    (x y : Receiving D T × Ending)
    → Balances queue rsm loss x.0.run
    → Balances queue rsm loss y.0.run
    → Balances queue rsm loss (if b then x else y).0.run
Balances-if true x y h k = h
Balances-if false x y h k = k

-- A flush moves acknowledgements from the queue to the counters.
module _ {D T : Type 0} (tm : Times T) (cfg : PeerConfig T) (send : Send D T)
    (drain : DrainOp D T) where
  flush_run-Balances :
      {queue : List (PendingAck T)} {rsm : Reassembly T} {loss : LossPolicy} (snd : ℕ)
      (r : Receiving D T) (now : T) (force : Bool)
      → Balances queue rsm loss r.run
      → Balances queue rsm loss (flush_run tm cfg send drain snd r now force).run
  unfolding flush_run
  flush_run-Balances snd r now force b =
      let box : Outbox D T = record { device = r.device; tr = r.run.tr; sum = r.run.sum } in
      let f = flush_acks-IsFlushed tm cfg send snd box r.run.pending now force in
      let left = (flush_acks tm cfg send snd box r.run.pending now force).0 in
      let l = length-append f.sent left in
      let d = counts-append f.sent left in
      record {
        sent = omega (arith, b.sent, f.counts.tried, ap length f.split, l);
        duplicates = omega (arith, b.duplicates, f.counts.duplicates, ap dup_count f.split, d);
        all_duplicates =
            omega (arith, b.all_duplicates, f.counts.all_duplicates, ap dup_count f.split, d);
        dropped = omega (arith, b.dropped, f.counts.dropped);
      }

  flush_run-rsm :
      (snd : ℕ) (r : Receiving D T) (now : T) (force : Bool)
      → (flush_run tm cfg send drain snd r now force).run.rsm ≡ r.run.rsm
  unfolding flush_run
  flush_run-rsm snd r now force = refl

  flush_run-clears :
      (snd : ℕ) (r : Receiving D T) (now : T)
      → (flush_run tm cfg send drain snd r now true).run.pending ≡ []
  unfolding flush_run
  flush_run-clears snd r now =
      let box : Outbox D T = record { device = r.device; tr = r.run.tr; sum = r.run.sum } in
      nothing_waits (flush_acks tm cfg send snd box r.run.pending now true).0
        (flush_acks-IsFlushed tm cfg send snd box r.run.pending now true).stays
    where
      nothing_waits : (left : List (PendingAck T)) → waits tm now true left ≡ true → left ≡ []
      nothing_waits [] h = refl
      nothing_waits (p ∷ ps) h = cc

  take_batch-Balances :
      {queue : List (PendingAck T)} {rsm : Reassembly T} {loss : LossPolicy} (p : Peer T)
      (r : Receiving D T) (lap : Lap T)
      → Balances queue rsm loss r.run
      → Balances queue rsm loss (take_batch tm cfg send drain p r lap).0.run
  unfolding take_batch
  take_batch-Balances p r lap b =
      let batch =
        at_clock lap.queued 0
          (drain (slice_of tm cfg send drain r.run.pending lap.slice) r.device).1 in
      Balances-Handles r.run (receive_batch tm cfg p.data_isn r.run batch).0 b
        (receive_batch-Handles tm cfg p.data_isn r.run batch)
        (receive_batch-Agrees tm cfg p.data_isn r.run batch)

  receive_loop-Balances :
      {queue : List (PendingAck T)} {rsm : Reassembly T} {loss : LossPolicy} (t_end : T)
      (target : ℕ) (p : Peer T) (r : Receiving D T) (laps : List (Lap T))
      → Balances queue rsm loss r.run
      → Balances queue rsm loss (receive_loop tm cfg send drain t_end target p r laps).0.run
  unfolding receive_loop
  receive_loop-Balances t_end target p r [] b = b
  receive_loop-Balances {queue} {rsm} {loss} t_end target p r (lap ∷ rest) b =
      let batch = take_batch tm cfg send drain p r lap in
      let h = take_batch-Balances p r lap b in
      let flushed = flush_run tm cfg send drain p.snd batch.0 lap.flush false in
      let more =
        receive_loop-Balances t_end target p flushed rest
          (flush_run-Balances p.snd batch.0 lap.flush false h) in
      Balances-if (not (tm.leb_T t_end lap.test) && ltb (delivered r.run.rsm) target) _ _
        (Balances-if batch.1 _ _ h more) b

  new_run-Balances :
      (p : Peer T) (target : ℕ) (loss : LossPolicy) (tr : Trace T)
      → Balances p.pending (frontier_of p) loss (new_run tm cfg send drain p target loss tr)
  new_run-Balances p target loss tr = record {
    sent = omega arith;
    duplicates = omega arith;
    all_duplicates = omega arith;
    dropped = omega arith;
  }

  -- What a call reports once its loop has ended.
  pub record Reports (p : Peer T) (target : ℕ) (loss : LossPolicy) (p' : Peer T) (run : Run T)
      : Type 0 where
    pub sent :
        run.sum.acks_sent + run.sum.ack_send_failures + counted (frontier_of p)
        ≡ length p.pending + counted run.rsm
    pub duplicates :
        run.sum.dup_acks_sent + useless (frontier_of p) ≤ dup_count p.pending + useless run.rsm
    pub all_duplicates :
        dup_count p.pending + useless run.rsm
        ≤ run.sum.dup_acks_sent + run.sum.ack_send_failures + useless (frontier_of p)
    pub dropped : run.sum.segments_dropped + loss.dropped ≡ run.loss.dropped
    pub delivers : run.sum.bytes_delivered ≡ delivered run.rsm
    pub completes : run.sum.completed ≡ leb target (delivered run.rsm)
    pub keeps : p'.rsm ≡ some run.rsm
    pub empties : p'.pending ≡ []

  finish-Reports :
      (p : Peer T) (target : ℕ) (loss : LossPolicy) (now : T) (r : Receiving D T)
      → Balances p.pending (frontier_of p) loss r.run
      → let done = finish tm cfg send drain p target now r in
        Reports p target loss (keep_run tm cfg send drain p done.run) done.run
  unfolding finish
  finish-Reports p target loss now r b =
      let h = flush_run-Balances p.snd r now true b in
      let e = flush_run-clears p.snd r now in
      let rsm = flush_run-rsm p.snd r now true in
      record {
        sent = omega (arith, h.sent, ap length e);
        duplicates = omega (arith, h.duplicates, ap dup_count e);
        all_duplicates = omega (arith, h.all_duplicates, ap dup_count e);
        dropped = h.dropped;
        delivers = ap delivered (sym rsm);
        completes = ap (λ s. leb target (delivered s)) (sym rsm);
        keeps = refl;
        empties = e;
      }

  -- When the loop of `receive` has ended, no acknowledgement is left in the queue. Those written and
  -- those that failed to be written are together the ones queued before the call and one for each
  -- segment with data that the reassembly has counted in it; of the duplicates, those queued before
  -- and those for segments that did not move the frontier, none is counted twice and all but the
  -- failures are counted. The drops reported are those of the policy, the bytes those delivered, and
  -- the call is complete exactly if they reach its target.
  pub receive-Reports :
      (p : Peer T) (target : ℕ) (timeout_ms : T) (loss : LossPolicy) (tr : Trace T) (device : D)
      (start : T) (laps : List (Lap T)) (last : T)
      → (receive tm cfg send drain p target timeout_ms loss tr device start laps last).2
        ≡ loop_ended
      → let (p', r, ending) =
          receive tm cfg send drain p target timeout_ms loss tr device start laps last in
        Reports p target loss p' r.run
  unfolding receive
  receive-Reports p target timeout_ms loss tr device start laps last e =
      let fresh : Receiving D T = record {
        device = device;
        run = new_run tm cfg send drain p target loss tr;
      } in
      let t_end = tm.add start timeout_ms in
      let b = receive_loop-Balances t_end target p fresh laps (new_run-Balances p target loss tr) in
      ended p target loss last (receive_loop tm cfg send drain t_end target p fresh laps) b e
    where
      ended :
          (p : Peer T) (target : ℕ) (loss : LossPolicy) (last : T) (l : Receiving D T × Ending)
          → Balances p.pending (frontier_of p) loss l.0.run
          → let done = finish tm cfg send drain p target last l.0 in
            let res : Peer T × Receiving D T × Ending = elim l.1 [
              | by_reset ↦ (keep_run tm cfg send drain p l.0.run, l.0, by_reset)
              | running ↦ (keep_run tm cfg send drain p l.0.run, l.0, running)
              | loop_ended ↦ (keep_run tm cfg send drain p done.run, done, loop_ended)
            ] in
            res.2 ≡ loop_ended → Reports p target loss res.0 res.1.run
      ended p target loss last (r, loop_ended) b e = finish-Reports p target loss last r b
      ended p target loss last (r, by_reset) b e = cc
      ended p target loss last (r, running) b e = cc
