-- ===== src/Utun/Returns.antt =====
-- `drain` returns, and what the peaks then are.
use tcp_probe.Prelude.{
  ℕ, ◌≤◌, ◌≡◌, refl, ap, arith, Bool, true, false, Option, none, some, List, [], ◌∷◌, ◌++◌,
}
use tcp_probe.Segment.{Seg}
use tcp_probe.Clock.{Times}
use tcp_probe.Utun.{Utun}
use tcp_probe.Utun.Drain.{
  Round, Turn, leave, go_on, got, turn, turn_of, Draining, take_frame, drain_loop, drain, idle,
  wait_of,
}
use tcp_probe.Utun.Taken.{record_peaks-counts}

turn_of-wait :
    {T : Type 0} (r : Round T) (wait : Option ℕ)
    → ((w : ℕ) → r.poll w ≡ idle)
    → (elim wait as (λ x. Turn T) [ none ↦ leave | some w ↦ turn_of (r.poll w) ]) ≡ leave
turn_of-wait r none h = refl
turn_of-wait r (some w) h = ap turn_of (h w)

turn-idle :
    {T : Type 0} (tm : Times T) (deadline : T) (got_any : Bool) (r : Round T)
    → ((w : ℕ) → r.poll w ≡ idle)
    → turn tm deadline got_any r ≡ leave
unfolding turn
turn-idle tm deadline got_any r h = turn_of-wait r (wait_of tm deadline got_any r.now) h

module _ {O T : Type 0} where
  module _ (tm : Times T) where
    turn_returns :
        (k : Turn T) (deadline : T) (d : Draining O T) (rest : List (Round T))
        → ((e : Draining O T) → (drain_loop tm deadline e rest).2 ≡ true)
        → let done : Draining O T × List (Round T) × Bool = elim k [
          | leave ↦ (d, rest, true)
          | go_on ↦ drain_loop tm deadline d rest
          | got buf t ↦ drain_loop tm deadline (take_frame d buf t) rest
        ] in
          done.2 ≡ true
    turn_returns leave deadline d rest h = refl
    turn_returns go_on deadline d rest h = h d
    turn_returns (got buf t) deadline d rest h = h (take_frame d buf t)

    leave_returns :
        (k : Turn T) (deadline : T) (d : Draining O T) (rest : List (Round T))
        → k ≡ leave
        → let done : Draining O T × List (Round T) × Bool = elim k [
          | leave ↦ (d, rest, true)
          | go_on ↦ drain_loop tm deadline d rest
          | got buf t ↦ drain_loop tm deadline (take_frame d buf t) rest
        ] in
          done.2 ≡ true
    leave_returns leave deadline d rest e = refl
    leave_returns go_on deadline d rest e = cc
    leave_returns (got buf t) deadline d rest e = cc

    drain_loop-returns :
        (deadline : T) (d : Draining O T) (before : List (Round T)) (r : Round T)
        (after : List (Round T))
        → ((wait : ℕ) → r.poll wait ≡ idle)
        → (drain_loop tm deadline d (before ++ r ∷ after)).2 ≡ true
    unfolding drain_loop
    drain_loop-returns deadline d [] r after h =
        leave_returns (turn tm deadline d.got_any r) deadline d after
          (turn-idle tm deadline d.got_any r h)
    drain_loop-returns deadline d (b ∷ before) r after h =
        turn_returns (turn tm deadline d.got_any b) deadline d (before ++ r ∷ after)
          λ e. drain_loop-returns deadline e before r after h

    -- `drain` returns at the latest in the first round that finds nothing to read, whatever came
    -- before; then the peaks of the device are at least the frames and bytes of this call.
    pub drain-returns :
        (start timeout_ms : T) (u : Utun O) (out : List (Seg T)) (before : List (Round T))
        (r : Round T) (after : List (Round T))
        → ((wait : ℕ) → r.poll wait ≡ idle)
        → let (d, rest, returned) = drain tm start timeout_ms u out (before ++ r ∷ after) in
          (returned ≡ true)
          × (d.frames ≤ d.device.peak_burst_frames)
          × (d.bytes ≤ d.device.peak_burst_bytes)
    unfolding drain
    drain-returns start timeout_ms u out before r after h =
        let fresh : Draining O T = record {
          device = u;
          frames = 0;
          bytes = 0;
          got_any = false;
          out = out;
        } in
        let loop = drain_loop tm (tm.add start timeout_ms) fresh (before ++ r ∷ after) in
        let e = drain_loop-returns (tm.add start timeout_ms) fresh before r after h in
        let p = record_peaks-counts tm loop.0 in (e, ground (arith, e, p), ground (arith, e, p))
