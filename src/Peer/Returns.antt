-- ===== src/Peer/Returns.antt =====
-- `receive` returns once its time is over.
use tcp_probe.Prelude.{
  ℕ, ◌≡◌, ◌≢◌, refl, sym, ◌∙◌, Bool, true, false, List, [], ◌∷◌, ◌++◌, ltb, ◌&&◌, not,
  if◌then◌else◌,
}
use tcp_probe.Clock.{Times}
use tcp_probe.Policy.{LossPolicy}
use tcp_probe.Reassembly.{delivered}
use tcp_probe.Trace.{Trace}
use tcp_probe.Peer.{PeerConfig}
use tcp_probe.Peer.Outbox.{Send}
use tcp_probe.Peer.Connect.{Peer, DrainOp}
use tcp_probe.Peer.Receive.{
  Lap, Ending, by_reset, loop_ended, running, Receiving, flush_run, take_batch, receive_loop,
  new_run, finish, keep_run, receive,
}

module _ {D T : Type 0} (tm : Times T) (cfg : PeerConfig T) (send : Send D T)
    (drain : DrainOp D T) where
  ending-receive :
      (p : Peer T) (target : ℕ) (timeout_ms : T) (loss : LossPolicy) (tr : Trace T) (device : D)
      (start : T) (laps : List (Lap T)) (last : T)
      → let fresh : Receiving D T = record {
        device = device;
        run = new_run tm cfg send drain p target loss tr;
      } in
        (receive tm cfg send drain p target timeout_ms loss tr device start laps last).2
        ≡ (receive_loop tm cfg send drain (tm.add start timeout_ms) target p fresh laps).1
  unfolding receive
  ending-receive p target timeout_ms loss tr device start laps last =
      let fresh : Receiving D T = record {
        device = device;
        run = new_run tm cfg send drain p target loss tr;
      } in
      same p target loss last
        (receive_loop tm cfg send drain (tm.add start timeout_ms) target p fresh laps)
    where
      same :
          (p : Peer T) (target : ℕ) (loss : LossPolicy) (last : T) (l : Receiving D T × Ending)
          → let done = finish tm cfg send drain p target last l.0 in
            let res : Peer T × Receiving D T × Ending = elim l.1 [
              | by_reset ↦ (keep_run tm cfg send drain p l.0.run, l.0, by_reset)
              | running ↦ (keep_run tm cfg send drain p l.0.run, l.0, running)
              | loop_ended ↦ (keep_run tm cfg send drain p done.run, done, loop_ended)
            ] in
            res.2 ≡ l.1
      same p target loss last (r, loop_ended) = refl
      same p target loss last (r, by_reset) = refl
      same p target loss last (r, running) = refl

  if_ends :
      (b c : Bool) (r r' : Receiving D T) (more : Receiving D T × Ending)
      → more.1 ≢ running
      → (if b then (if c then (r', by_reset) else more) else (r, loop_ended)).1 ≢ running
  if_ends true true r r' more h = λ e. cc
  if_ends true false r r' more h = h
  if_ends false c r r' more h = λ e. cc

  receive_loop-returns :
      (t_end : T) (target : ℕ) (p : Peer T) (r : Receiving D T) (before : List (Lap T))
      (lap : Lap T) (after : List (Lap T))
      → tm.leb_T t_end lap.test ≡ true
      → (receive_loop tm cfg send drain t_end target p r (before ++ lap ∷ after)).1 ≢ running
  unfolding receive_loop
  receive_loop-returns t_end target p r [] lap after e = rw e (λ f. cc)
  receive_loop-returns t_end target p r (b ∷ before) lap after e =
      let batch = take_batch tm cfg send drain p r b in
      let flushed = flush_run tm cfg send drain p.snd batch.0 b.flush false in
      if_ends (not (tm.leb_T t_end b.test) && ltb (delivered r.run.rsm) target) batch.1 r batch.0 _
        (receive_loop-returns t_end target p flushed before lap after e)

  -- `receive` does not outlast its timeout: if the clock at the test of some round is not before the
  -- end, the call has returned.
  pub receive-returns :
      (p : Peer T) (target : ℕ) (timeout_ms : T) (loss : LossPolicy) (tr : Trace T) (device : D)
      (start : T) (before : List (Lap T)) (lap : Lap T) (after : List (Lap T)) (last : T)
      → tm.leb_T (tm.add start timeout_ms) lap.test ≡ true
      → (receive tm cfg send drain p target timeout_ms loss tr device start
          (before ++ lap ∷ after)
          last).2
        ≢ running
  receive-returns p target timeout_ms loss tr device start before lap after last e f =
      let fresh : Receiving D T = record {
        device = device;
        run = new_run tm cfg send drain p target loss tr;
      } in
      receive_loop-returns (tm.add start timeout_ms) target p fresh before lap after e (
        sym (ending-receive p target timeout_ms loss tr device start (before ++ lap ∷ after) last)
        ∙ f)
