-- ===== src/Experiments/Delivery.antt =====
-- What a scenario reports once it has received, and that it tears its connection down on every way out.
use tcp_probe.Prelude.{ℕ, ◌+◌, ◌≤◌, ◌⊎◌, Bool, ◌≡◌, true, none, List, []}
use tcp_probe.Prelude.Int.{ℤ, pos, negsuc}
use tcp_probe.Word.{u32}
use tcp_probe.Clock.{Times}
use tcp_probe.Policy.{LossPolicy}
use tcp_probe.Trace.{Trace}
use tcp_probe.Peer.{PeerConfig}
use tcp_probe.Peer.Outbox.{Send}
use tcp_probe.Peer.Connect as Connect
use tcp_probe.Peer.Connect.{DrainOp, Peer, new_peer, Connecting, Meeting, establish}
use tcp_probe.Peer.Receive.{Ending, loop_ended, Receiving, receive}
use tcp_probe.Peer.Handshake.{Meets}
use tcp_probe.Peer.Balance.{counted, Reports}
use tcp_probe.Experiments.Scenario.{Outcome, Scenario, Session}

-- The queue and the reassembly of a peer.
abbrev Untouched : {T : Type 0} → Peer T → Peer T → Type 0
Untouched p p' = (p'.pending ≡ p.pending) × (p'.rsm ≡ p.rsm)

-- What the handshake has learnt, as an outcome and as a peer holds it.
abbrev learnt_by : {T : Type 0} → Outcome T → Bool × T × ℕ
learnt_by o = (o.sack_negotiated, o.handshake_rtt_ms, o.peer_mss)

abbrev learnt_of : {T : Type 0} → Peer T → Bool × T × ℕ
learnt_of p = (p.peer_sack_ok, p.handshake_rtt_ms, p.peer_mss)

-- The bytes are within the send buffer, as far as its size is known.
abbrev pub Fits : ℕ → ℤ → Type 0
Fits bytes (pos n) = (n ≡ 0) ⊎ (bytes ≤ u32 n)
Fits bytes (negsuc n) = Unit

-- A peer without a connection.
pub record IsTornDown {T : Type 0} (p : Peer T) : Type 0 where
  pub closed : p.afd ≡ none
  pub forgets : p.rsm ≡ none
  pub empty : p.pending ≡ []

module _ {D T : Type 0} (tm : Times T) (cfg : PeerConfig T) (send : Send D T) (decimal : ℕ → List ℕ)
    (drain : DrainOp D T) where
  module _ (sendspace : ℤ) (bytes : ℕ) (timeout_ms : T) (loss : LossPolicy) (m : Meeting T)
      (s : Session T) (device : D) (tr : Trace T) where
    abbrev start : Connecting D T
    start = establish tm cfg send decimal drain (new_peer tm) m device tr

    abbrev reception : Peer T × Receiving D T × Ending
    reception =
        receive tm cfg send drain start.peer bytes timeout_ms loss start.tr start.device s.start
          s.laps s.last

    -- What a scenario whose reception has ended says of the connection.
    pub record Delivers (sc : Scenario D T) : Type 0 where
      pub ok : sc.outcome.ok ≡ true
      pub no_error : sc.outcome.err ≡ none
      pub whole : sc.outcome.bytes_written ≡ bytes
      pub fits : Fits bytes sendspace
      pub met : Meets tm cfg send decimal drain m device start.peer start.tr
      pub sack : sc.outcome.sack_negotiated ≡ start.peer.peer_sack_ok
      pub rtt : sc.outcome.handshake_rtt_ms ≡ start.peer.handshake_rtt_ms
      pub mss : sc.outcome.peer_mss ≡ start.peer.peer_mss
      pub ended : reception.2 ≡ loop_ended
      pub sum : sc.outcome.sum ≡ reception.1.run.sum
      pub policy : sc.loss ≡ reception.1.run.loss
      pub reports : Reports tm cfg send drain start.peer bytes loss reception.0 reception.1.run
      pub acknowledged :
          sc.outcome.sum.acks_sent + sc.outcome.sum.ack_send_failures ≡ counted reception.1.run.rsm
      pub torn_down : IsTornDown sc.peer

    -- The part of this behind a complete write.
    record Transfers (o : Outcome T) (sc : Scenario D T) : Type 0 where
      ok : sc.outcome.ok ≡ true
      err : sc.outcome.err ≡ o.err
      bytes_written : sc.outcome.bytes_written ≡ o.bytes_written
      learnt : learnt_by sc.outcome ≡ learnt_by o
      ended : reception.2 ≡ loop_ended
      sum : sc.outcome.sum ≡ reception.1.run.sum
      policy : sc.loss ≡ reception.1.run.loss
      torn_down : IsTornDown sc.peer
