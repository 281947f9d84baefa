-- ===== src/Experiments/Settled.antt =====
-- Every way out of a scenario.
use tcp_probe.Prelude.{
  ℕ, ◌≡◌, ◌≢◌, refl, sym, ap, Bool, true, false, Option, none, some, List, ◌==◌, if_cases,
}
use tcp_probe.Prelude.Int.{ℤ}
use tcp_probe.Word.{u32}
use tcp_probe.Clock.{Times}
use tcp_probe.Policy.{LossPolicy}
use tcp_probe.Trace.{Trace}
use tcp_probe.Utun.{Written, failed, wrote}
use tcp_probe.Peer.{PeerConfig}
use tcp_probe.Peer.Outbox.{Send}
use tcp_probe.Peer.Connect as Connect
use tcp_probe.Peer.Connect.{
  DrainOp, Peer, new_peer, Reply, syn_ack, reset_by_kernel, timed_out, waiting, Accepted, not_ready,
  refused_with, accepted, Established, connected, Connecting, Meeting, learn, take_socket, greet,
  on_reply, await, syn_segment, establish, reset,
}
use tcp_probe.Peer.Receive.{Ending, by_reset, loop_ended, running, Receiving, receive}
use tcp_probe.Experiments.Scenario.{
  ScenarioError, not_established, would_block, Outcome, Scenario, Session, pattern_from, exceeds,
  new_outcome, give_up, transfer, after_write, send_data, run_scenario,
}
use tcp_probe.Experiments.Delivery.{IsTornDown}

abbrev is_none : {A : Type 0} → Option A → Bool
is_none none = true
is_none (some a) = false

-- A scenario that is over: its connection is torn down, and it is ok or has an error, never both.
pub record Settled {D T : Type 0} (sc : Scenario D T) : Type 0 where
  pub torn_down : IsTornDown sc.peer
  pub ok_or_error : sc.outcome.ok ≡ is_none sc.outcome.err

module _ {D T : Type 0} (tm : Times T) (cfg : PeerConfig T) (send : Send D T) (decimal : ℕ → List ℕ)
    (drain : DrainOp D T) (bytes : ℕ) (timeout_ms : T) (loss : LossPolicy) (s : Session T)
    (c : Connecting D T) where
  give_up-Settled :
      (o : Outcome T) (e : ScenarioError)
      → o.ok ≡ false
      → Settled (give_up tm cfg send decimal drain c loss o e)
  unfolding reset
  give_up-Settled o e h = record {
    torn_down = record { closed = refl; forgets = refl; empty = refl };
    ok_or_error = h;
  }

  transfer-Settled :
      (o : Outcome T)
      → o.err ≡ none
      → let sc = transfer tm cfg send decimal drain bytes timeout_ms loss s c o in
        sc.receipt ≢ some running → Settled sc
  unfolding transfer reset
  transfer-Settled o h =
      by_ending
        (receive tm cfg send drain c.peer bytes timeout_ms loss c.tr c.device s.start s.laps s.last)
    where
      by_ending :
          (res : Peer T × Receiving D T × Ending)
          → let (p, r, ending) = res in
            let (p', d) = reset tm cfg send decimal p r.device in
            let sc : Scenario D T = elim ending [
              | running ↦ record {
                outcome = o;
                device = r.device;
                peer = p;
                loss = r.run.loss;
                receipt = some running;
              }
              | x ↦ record {
                outcome = record o { ok = true; sum = r.run.sum; trace = r.run.tr };
                device = d;
                peer = p';
                loss = r.run.loss;
                receipt = some x;
              }
            ] in
            sc.receipt ≢ some running → Settled sc
      by_ending (p, r, running) n = absurd (n refl)
      by_ending (p, r, by_reset) n = record {
        torn_down = record { closed = refl; forgets = refl; empty = refl };
        ok_or_error = ap is_none (sym h);
      }
      by_ending (p, r, loop_ended) n = record {
        torn_down = record { closed = refl; forgets = refl; empty = refl };
        ok_or_error = ap is_none (sym h);
      }

  after_write-Settled :
      (o : Outcome T) (w : Written)
      → o.ok ≡ false
      → o.err ≡ none
      → let sc = after_write tm cfg send decimal drain bytes timeout_ms loss s c o w in
        sc.receipt ≢ some running → Settled sc
  after_write-Settled o (failed errno) not_ok no_err = λ n. give_up-Settled o _ not_ok
  after_write-Settled o (wrote w) not_ok no_err =
      if_cases (λ (sc : Scenario D T). sc.receipt ≢ some running → Settled sc) (u32 w == bytes) _ _
        (λ all. transfer-Settled (record o { bytes_written = u32 w }) no_err)
        λ short n. give_up-Settled (record o { bytes_written = u32 w }) _ not_ok

  send_data-Settled :
      (sendspace : ℤ)
      → let sc = send_data tm cfg send decimal drain sendspace bytes timeout_ms loss s c in
        sc.receipt ≢ some running → Settled sc
  unfolding send_data
  send_data-Settled sendspace =
      let o : Outcome T = record (new_outcome tm c.tr) {
        handshake_rtt_ms = c.peer.handshake_rtt_ms;
        sack_negotiated = c.peer.peer_sack_ok;
        peer_mss = c.peer.peer_mss;
      } in
      if_cases (λ (sc : Scenario D T). sc.receipt ≢ some running → Settled sc)
        (exceeds bytes sendspace) _ _
        (λ too_much n. give_up-Settled o (would_block bytes sendspace) refl)
        λ fits. after_write-Settled o (s.write c.peer.afd (pattern_from 0 bytes)) refl refl

module _ {D T : Type 0} (tm : Times T) (cfg : PeerConfig T) (send : Send D T) (decimal : ℕ → List ℕ)
    (drain : DrainOp D T) where
  -- Where the handshake has succeeded and the reception is not still running, a scenario is over,
  -- whichever way it went: too much data for the send buffer, a failed or a short write, a RST, or a
  -- reception that ended. Its connection is torn down, and it is ok exactly if it has no error.
  pub run_scenario-Settled :
      (sendspace : ℤ) (bytes : ℕ) (timeout_ms : T) (loss : LossPolicy) (m : Meeting T)
      (s : Session T) (device : D) (tr : Trace T)
      → (establish tm cfg send decimal drain (new_peer tm) m device tr).result ≡ connected
      → let sc =
          run_scenario tm cfg send decimal drain sendspace bytes timeout_ms loss m s device tr in
        sc.receipt ≢ some running → Settled sc
  unfolding run_scenario
  run_scenario-Settled sendspace bytes timeout_ms loss m s device tr h =
      let c = establish tm cfg send decimal drain (new_peer tm) m device tr in
      by_result c c.result h
    where
      by_result :
          (c : Connecting D T) (result : Established)
          → result ≡ connected
          → let stopped : Outcome T → Scenario D T = λ o. record {
            outcome = o;
            device = c.device;
            peer = c.peer;
            loss = loss;
            receipt = none;
          } in
            let sc : Scenario D T = elim result [
              | connected ↦ send_data tm cfg send decimal drain sendspace bytes timeout_ms loss s c
              | Connect.unfinished ↦ stopped (new_outcome tm c.tr)
              | Connect.failed x ↦
                  stopped (record (new_outcome tm c.tr) { err = some (not_established x) })
            ] in
            sc.receipt ≢ some running → Settled sc
      by_result c connected e =
          send_data-Settled tm cfg send decimal drain bytes timeout_ms loss s c sendspace
      by_result c Connect.unfinished e = cc
      by_result c (Connect.failed x) e = cc
