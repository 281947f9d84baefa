-- ===== src/Experiments/Losses.antt =====
-- A property of the loss policy that every decision keeps is kept by a whole scenario.
use tcp_probe.Prelude.{
  ℕ, ◌+◌, Bool, true, false, ◌&&◌, not, none, some, List, [], ◌∷◌, length, ltb, ◌==◌, if_cases,
}
use tcp_probe.Prelude.Int.{ℤ, pos, leb_ℤ}
use tcp_probe.Word.{u32, has_bits}
use tcp_probe.Clock.{Times}
use tcp_probe.Seq.{seq_lt, seq_gt}
use tcp_probe.Segment.{Seg, th_rst, th_fin}
use tcp_probe.Policy.{LossPolicy}
use tcp_probe.Policy as Policy
use tcp_probe.Trace.{Trace, relative}
use tcp_probe.Utun.{Written, failed, wrote}
use tcp_probe.Reassembly.{delivered}
use tcp_probe.Peer.{
  PeerConfig, Run, u32_of, is_ours, on_dropped, on_accepted, note_sequence, on_data,
  receive_segment, receive_batch,
}
use tcp_probe.Peer.Outbox.{Send}
use tcp_probe.Peer.Connect as Connect
use tcp_probe.Peer.Connect.{
  DrainOp, Peer, new_peer, Established, connected, Connecting, Meeting, establish, reset,
}
use tcp_probe.Peer.Receive.{
  Lap, Ending, by_reset, loop_ended, running, Receiving, flush_run, take_batch, receive_loop,
  finish, receive, new_run, keep_run,
}
use tcp_probe.Experiments.Scenario.{
  Outcome, Scenario, Session, pattern_from, exceeds, new_outcome, not_established, transfer,
  after_write, send_data, run_scenario,
}

module _ {T : Type 0} (tm : Times T) (cfg : PeerConfig T) (K : LossPolicy → Type 0)
    (keep : (p : LossPolicy) (rel len : ℕ) → K p → K (Policy.drop p rel len).0) where
  on_dropped-keeps : (run : Run T) (s : Seg T) → K run.loss → K (on_dropped tm cfg run s).loss
  unfolding on_dropped
  on_dropped-keeps run s k =
      if_cases (λ (r : Run T). K r.loss) run.hole_open _ _ (λ open_. k) (λ closed. k)

  on_accepted-keeps :
      (run : Run T) (now : T) (s : Seg T) (again : Bool)
      → K run.loss
      → K (on_accepted tm cfg run now s again).loss
  unfolding on_accepted
  on_accepted-keeps run now s again k =
      if_cases (λ (r : Run T). K r.loss) _ _ _ (λ fills. k) (λ goes_on. k)

  note_sequence-keeps :
      (n : ℕ) (run : Run T) (s : Seg T) → K run.loss → K (note_sequence tm cfg n run s).loss
  unfolding note_sequence
  note_sequence-keeps n run s k =
      let end = u32 (s.seq + u32 (length s.payload)) in
      let noted =
        if_cases (λ (r : Run T). K r.loss) (seq_gt end run.max_seq_end_seen)
          (record run { max_seq_end_seen = end }) run (λ newer. k) (λ older. k) in
      if_cases (λ (r : Run T). K r.loss) _ _ _ (λ resent. noted) (λ fresh. noted)

  on_data-keeps :
      (n : ℕ) (run : Run T) (now : T) (s : Seg T) → K run.loss → K (on_data tm cfg n run now s).loss
  unfolding on_data
  on_data-keeps n run now s k =
      let run1 = note_sequence tm cfg n run s in
      let k1 = note_sequence-keeps n run s k in
      let rel = relative s.seq n in
      let is_rexmt = seq_lt s.seq run.max_seq_end_seen in
      let dropped = Policy.drop run1.loss (u32_of rel) (u32 (length s.payload)) in
      let run2 : Run T = record run1 { loss = dropped.0 } in
      let k2 = keep run1.loss (u32_of rel) (u32 (length s.payload)) k1 in
      if_cases (λ (r : Run T). K r.loss) (leb_ℤ (pos 0) rel) _ _
        (λ inside.
          if_cases (λ (r : Run T). K r.loss) dropped.1 _ _ (λ hit. on_dropped-keeps run2 s k2)
            (λ miss. on_accepted-keeps run2 now s is_rexmt k2))
        λ before. on_accepted-keeps run1 now s is_rexmt k1

  receive_segment-keeps :
      (n : ℕ) (run : Run T) (now : T) (s : Seg T)
      → K run.loss
      → K (receive_segment tm cfg n run now s).0.loss
  unfolding receive_segment
  receive_segment-keeps n run now s k =
      if_cases (λ (r : Run T × Bool). K r.0.loss) (not (is_ours tm cfg s)) _ _ (λ other. k)
        λ ours.
          if_cases (λ (r : Run T × Bool). K r.0.loss) (has_bits s.flags th_rst) _ _ (λ rst. k)
            λ no_rst.
              if_cases (λ (r : Run T × Bool). K r.0.loss) (ltb 0 (u32 (length s.payload))) _ _
                (λ some_data. on_data-keeps n run now s k)
                λ no_data.
                  if_cases (λ (r : Run T × Bool). K r.0.loss) (has_bits s.flags th_fin) _ _
                    (λ fin. k) (λ bare. k)

  receive_batch-keeps :
      (n : ℕ) (run : Run T) (batch : List (T × Seg T))
      → K run.loss
      → K (receive_batch tm cfg n run batch).0.loss
  unfolding receive_batch
  receive_batch-keeps n run [] k = k
  receive_batch-keeps n run ((now, s) ∷ rest) k =
      let (run', stop) = receive_segment tm cfg n run now s in
      let k' = receive_segment-keeps n run now s k in
      if_cases (λ (r : Run T × Bool). K r.0.loss) stop _ _ (λ stops. k')
        (λ goes_on. receive_batch-keeps n run' rest k')

  module _ {D : Type 0} (send : Send D T) (decimal : ℕ → List ℕ) (drain : DrainOp D T) where
    take_batch-keeps :
        (p : Peer T) (r : Receiving D T) (lap : Lap T)
        → K r.run.loss
        → K (take_batch tm cfg send drain p r lap).0.run.loss
    unfolding take_batch
    take_batch-keeps p r lap k = receive_batch-keeps p.data_isn r.run _ k

    receive_loop-keeps :
        (t_end : T) (target : ℕ) (p : Peer T) (r : Receiving D T) (laps : List (Lap T))
        → K r.run.loss
        → K (receive_loop tm cfg send drain t_end target p r laps).0.run.loss
    unfolding receive_loop flush_run
    receive_loop-keeps t_end target p r [] k = k
    receive_loop-keeps t_end target p r (lap ∷ rest) k =
        let (r', stop) = take_batch tm cfg send drain p r lap in
        let k' = take_batch-keeps p r lap k in
        if_cases (λ (r : Receiving D T × Ending). K r.0.run.loss)
          (not (tm.leb_T t_end lap.test) && ltb (delivered r.run.rsm) target) _ _
          (λ runs.
            if_cases (λ (r : Receiving D T × Ending). K r.0.run.loss) stop _ _ (λ stops. k')
              λ goes_on.
                receive_loop-keeps t_end target p
                  (flush_run tm cfg send drain p.snd r' lap.flush false) rest k')
          (λ ends. k)

    receive-keeps :
        (p : Peer T) (target : ℕ) (timeout_ms : T) (loss : LossPolicy) (tr : Trace T) (device : D)
        (start : T) (laps : List (Lap T)) (last : T)
        → K loss
        → K
            (receive tm cfg send drain p target timeout_ms loss tr device start laps
              last).1.run.loss
    unfolding receive finish flush_run
    receive-keeps p target timeout_ms loss tr device start laps last k =
        let fresh : Receiving D T = record {
          device = device;
          run = new_run tm cfg send drain p target loss tr;
        } in
        by_ending (receive_loop tm cfg send drain (tm.add start timeout_ms) target p fresh laps)
          (receive_loop-keeps (tm.add start timeout_ms) target p fresh laps k)
      where
        by_ending :
            (res : Receiving D T × Ending)
            → K res.0.run.loss
            → let done = finish tm cfg send drain p target last res.0 in
              let out : Peer T × Receiving D T × Ending = elim res.1 [
                | by_reset ↦ (keep_run tm cfg send drain p res.0.run, res.0, by_reset)
                | running ↦ (keep_run tm cfg send drain p res.0.run, res.0, running)
                | loop_ended ↦ (keep_run tm cfg send drain p done.run, done, loop_ended)
              ] in
              K out.1.run.loss
        by_ending (r, by_reset) k' = k'
        by_ending (r, running) k' = k'
        by_ending (r, loop_ended) k' = k'

    transfer-keeps :
        (bytes : ℕ) (timeout_ms : T) (loss : LossPolicy) (s : Session T) (c : Connecting D T)
        (o : Outcome T)
        → K loss
        → K (transfer tm cfg send decimal drain bytes timeout_ms loss s c o).loss
    unfolding transfer
    transfer-keeps bytes timeout_ms loss s c o k =
        by_ending
          (receive tm cfg send drain c.peer bytes timeout_ms loss c.tr c.device s.start s.laps
            s.last)
          (receive-keeps c.peer bytes timeout_ms loss c.tr c.device s.start s.laps s.last k)
      where
        by_ending :
            (res : Peer T × Receiving D T × Ending)
            → K res.1.run.loss
            → let (p, r, ending) = res in
              let (p', device) = reset tm cfg send decimal p r.device in
              let o' : Outcome T = record o { ok = true; sum = r.run.sum; trace = r.run.tr } in
              let out : Scenario D T = elim ending [
                | running ↦ record {
                  outcome = o;
                  device = r.device;
                  peer = p;
                  loss = r.run.loss;
                  receipt = some running;
                }
                | x ↦ record {
                  outcome = o';
                  device = device;
                  peer = p';
                  loss = r.run.loss;
                  receipt = some x;
                }
              ] in
              K out.loss
        by_ending (p, r, by_reset) k' = k'
        by_ending (p, r, running) k' = k'
        by_ending (p, r, loop_ended) k' = k'

    send_data-keeps :
        (sendspace : ℤ) (bytes : ℕ) (timeout_ms : T) (loss : LossPolicy) (s : Session T)
        (c : Connecting D T)
        → K loss
        → K (send_data tm cfg send decimal drain sendspace bytes timeout_ms loss s c).loss
    unfolding send_data
    send_data-keeps sendspace bytes timeout_ms loss s c k =
        let o : Outcome T = record (new_outcome tm c.tr) {
          handshake_rtt_ms = c.peer.handshake_rtt_ms;
          sack_negotiated = c.peer.peer_sack_ok;
          peer_mss = c.peer.peer_mss;
        } in
        if_cases (λ (sc : Scenario D T). K sc.loss) (exceeds bytes sendspace) _ _ (λ too_much. k)
          λ fits. by_write o (s.write c.peer.afd (pattern_from 0 bytes))
      where
        by_write :
            (o : Outcome T) (w : Written)
            → K (after_write tm cfg send decimal drain bytes timeout_ms loss s c o w).loss
        by_write o (failed errno) = k
        by_write o (wrote n) =
            let o' : Outcome T = record o { bytes_written = u32 n } in
            if_cases (λ (sc : Scenario D T). K sc.loss) (u32 n == bytes) _ _
              (λ all. transfer-keeps bytes timeout_ms loss s c o' k) (λ short. k)

    pub run_scenario-keeps :
        (sendspace : ℤ) (bytes : ℕ) (timeout_ms : T) (loss : LossPolicy) (m : Meeting T)
        (s : Session T) (device : D) (tr : Trace T)
        → K loss
        → K
            (run_scenario tm cfg send decimal drain sendspace bytes timeout_ms loss m s device
              tr).loss
    unfolding run_scenario
    run_scenario-keeps sendspace bytes timeout_ms loss m s device tr k =
        by_result (establish tm cfg send decimal drain (new_peer tm) m device tr).result
      where
        by_result :
            (result : Established)
            → let c = establish tm cfg send decimal drain (new_peer tm) m device tr in
              let stopped : Outcome T → Scenario D T = λ o. record {
                outcome = o;
                device = c.device;
                peer = c.peer;
                loss = loss;
                receipt = none;
              } in
              let out : Scenario D T = elim result [
                | connected ↦
                    send_data tm cfg send decimal drain sendspace bytes timeout_ms loss s c
                | Connect.unfinished ↦ stopped (new_outcome tm c.tr)
                | Connect.failed e ↦
                    stopped (record (new_outcome tm c.tr) { err = some (not_established e) })
              ] in
              K out.loss
        by_result connected =
            send_data-keeps sendspace bytes timeout_ms loss s
              (establish tm cfg send decimal drain (new_peer tm) m device tr) k
        by_result Connect.unfinished = k
        by_result (Connect.failed e) = k
