-- ===== src/Peer/Connect.antt =====
-- src/peer.cpp: the peer's own state, establish and reset. The device is a state with its two
-- operations; what the clock, `poll` and `accept` give is handed over by the environment. A message
-- that establish puts into `*err` is a constructor of its own.
use tcp_probe.Prelude.{
  ℕ, ◌+◌, Bool, false, not, Option, none, some, List, [], ◌∷◌, ◌++◌, bit_and, ◌==◌, if◌then◌else◌,
}
use tcp_probe.Clock.{Times}
use tcp_probe.Word.{u32, has_bits}
use tcp_probe.Segment.{Options, no_options, Seg, th_syn, th_rst, th_ack}
use tcp_probe.Reassembly.{Reassembly, delivered}
use tcp_probe.Trace.{Trace, set_origin, record_rx, record_tx}
use tcp_probe.Peer.{PeerConfig, PendingAck, is_ours}
use tcp_probe.Peer.Outbox.{Send, send_now}

-- `Utun::drain` with a timeout, on a device that carries what will arrive.
abbrev pub DrainOp : Type 0 → Type 0 → Type 0
DrainOp D T = T → D → D × List (Seg T)

-- The members of `Peer` that outlast a call; `afd` is `none` for -1.
pub record Peer (T : Type 0) : Type 0 where
  pub afd : Option ℕ
  pub snd : ℕ
  pub data_isn : ℕ
  pub peer_sack_ok : Bool
  pub peer_mss : ℕ
  pub handshake_rtt_ms : T
  pub max_seq_end_seen : ℕ
  pub pending : List (PendingAck T)
  pub rsm : Option (Reassembly T)

-- A peer as constructed.
abbrev pub new_peer : {T : Type 0} → Times T → Peer T
new_peer tm = record {
  afd = none;
  snd = 0;
  data_isn = 0;
  peer_sack_ok = false;
  peer_mss = 0;
  handshake_rtt_ms = tm.minus_one;
  max_seq_end_seen = 0;
  pending = [];
  rsm = none;
}

-- `Peer::delivered`.
unfoldable pub peer_delivered : {T : Type 0} → Peer T → ℕ
peer_delivered p = elim p.rsm [ none ↦ 0 | some r ↦ delivered r ]

-- What establish reports.
pub data Failure : Type 0 where
  syn_failed : List ℕ → Failure
  refused no_syn_ack : Failure
  wrong_ack : ℕ → ℕ → Failure
  never_ready : Failure
  accept_failed : ℕ → Failure
  wrong_port : Failure

-- `unfinished`: the environment's clock readings ran out while it was waiting.
pub data Established : Type 0 where
  connected unfinished : Established
  failed : Failure → Established

-- What the wait for the SYN-ACK comes to.
pub data Reply (T : Type 0) : Type 0 where
  syn_ack : Seg T → Reply T
  reset_by_kernel timed_out waiting : Reply T

-- `poll` and `accept` on the listening socket: a descriptor comes with the port it is connected to.
pub data Accepted : Type 0 where
  not_ready : Accepted
  refused_with : ℕ → Accepted
  accepted : ℕ → ℕ → Accepted

abbrev pub syn_ack_bits : ℕ
syn_ack_bits = 0x12

abbrev sack_syn_text : List ℕ
sack_syn_text =
    b'S' ∷ b'Y' ∷ b'N' ∷ 32 ∷ b'm' ∷ b's' ∷ b's' ∷ b'+' ∷ b's' ∷ b'a' ∷ b'c' ∷ b'k' ∷ b'O' ∷ b'K'
    ∷ []

abbrev plain_syn_text : List ℕ
plain_syn_text =
    b'S' ∷ b'Y' ∷ b'N' ∷ 32 ∷ b'm' ∷ b's' ∷ b's' ∷ b',' ∷ 32 ∷ b'n' ∷ b'o' ∷ 32 ∷ b's' ∷ b'a' ∷ b'c'
    ∷ b'k' ∷ b'O' ∷ b'K' ∷ []

abbrev syn_ack_text : List ℕ
syn_ack_text = b'S' ∷ b'Y' ∷ b'N' ∷ b'-' ∷ b'A' ∷ b'C' ∷ b'K' ∷ 32 ∷ b'm' ∷ b's' ∷ b's' ∷ b'=' ∷ []

abbrev sack_ok_text : List ℕ
sack_ok_text = 32 ∷ b's' ∷ b'a' ∷ b'c' ∷ b'k' ∷ b'O' ∷ b'K' ∷ []

abbrev no_sack_text : List ℕ
no_sack_text = 32 ∷ b'N' ∷ b'O' ∷ 32 ∷ b's' ∷ b'a' ∷ b'c' ∷ b'k' ∷ b'O' ∷ b'K' ∷ []

abbrev handshake_text : List ℕ
handshake_text = b'3' ∷ b'W' ∷ b'H' ∷ b'S' ∷ 32 ∷ b'A' ∷ b'C' ∷ b'K' ∷ []

abbrev pub or_zero : Option ℕ → ℕ
or_zero none = 0
or_zero (some n) = n

-- What establish leaves behind.
pub record Connecting (D T : Type 0) : Type 0 where
  pub device : D
  pub tr : Trace T
  pub peer : Peer T
  pub result : Established

-- The environment of one establish: the clock at the SYN and at the start of the wait, its readings
-- in the wait and at the last ACK, and the outcome of `accept`.
pub record Meeting (T : Type 0) : Type 0 where
  pub t0 : T
  pub wait_start : T
  pub readings : List T
  pub ack_time : T
  pub outcome : Accepted

module _ {T : Type 0} (tm : Times T) (cfg : PeerConfig T) where
  -- A segment without data from this peer.
  abbrev pub bare : ℕ → ℕ → ℕ → ℕ → Options → Seg T
  bare seq ack flags win opt = record {
    seq = seq;
    ack = ack;
    flags = flags;
    win = win;
    sport = cfg.sport;
    dport = cfg.dport;
    payload = [];
    opt = opt;
    t_ms = tm.zero_T;
  }

  abbrev pub syn_segment : Seg T
  syn_segment =
      bare cfg.isn 0 th_syn cfg.win
        (record no_options { mss = some cfg.mss; sack_permitted = cfg.offer_sack })

  -- The loop over one batch of the wait: `waiting` where no segment of it decides.
  unfoldable pub scan : List (Seg T) → Reply T
  scan [] = waiting
  scan (s ∷ rest) =
      if not (is_ours tm cfg s)
      then scan rest
      else if has_bits s.flags th_rst
      then reset_by_kernel
      else if bit_and s.flags syn_ack_bits == syn_ack_bits
      then syn_ack s
      else scan rest

  -- The wait until `deadline`, over the clock readings of the loop's test.
  unfoldable pub await : {D : Type 0} → DrainOp D T → T → D → List T → D × Reply T
  await drain deadline d [] = (d, waiting)
  await drain deadline d (now ∷ rest) =
      let (d', seen) = drain (tm.of_ℕ 50) d in
      let more = await drain deadline d' rest in
      if tm.leb_T deadline now then (d, timed_out) else elim (scan seen) [
        | syn_ack s ↦ (d', syn_ack s)
        | reset_by_kernel ↦ (d', reset_by_kernel)
        | timed_out ↦ more
        | waiting ↦ more
      ]

  -- The peer once the SYN-ACK is there; `t0` is the clock at the SYN.
  abbrev pub learn : Peer T → T → Seg T → Peer T
  learn p t0 sa = record p {
    snd = u32 (cfg.isn + 1);
    handshake_rtt_ms = tm.sub sa.t_ms t0;
    data_isn = u32 (sa.seq + 1);
    max_seq_end_seen = u32 (sa.seq + 1);
    peer_sack_ok = sa.opt.sack_permitted;
    peer_mss = or_zero sa.opt.mss;
  }

  -- The part of establish behind the last ACK of the handshake.
  unfoldable pub take_socket : Peer T → Accepted → Peer T × Established
  take_socket p not_ready = (p, failed never_ready)
  take_socket p (refused_with errno) = (record p { afd = none }, failed (accept_failed errno))
  take_socket p (accepted fd port) =
      (record p { afd = some fd }, if port == cfg.sport then connected else failed wrong_port)

  module _ {D : Type 0} (send : Send D T) (decimal : ℕ → List ℕ) where
    -- The part of establish behind the wait, with the segment that answered the SYN.
    unfoldable pub greet : Peer T → Meeting T → Seg T → D → Trace T → Connecting D T
    greet p m sa device tr =
        let p' = learn p m.t0 sa in
        let text =
          syn_ack_text
          ++ (decimal p'.peer_mss ++ (if p'.peer_sack_ok then sack_ok_text else no_sack_text)) in
        let tr1 = set_origin tr m.t0 p'.data_isn cfg.isn in
        let tr2 = record_rx tm.sub tr1 sa.t_ms sa.seq sa.ack sa.flags 0 false text in
        let ack = bare p'.snd p'.data_isn th_ack cfg.win no_options in
        let (device', tr3, sent) = send_now tm cfg send device tr2 ack m.ack_time handshake_text in
        let (p'', result) = take_socket p' m.outcome in
        let wrong = record p { snd = cfg.isn } in
        if sa.ack == u32 (cfg.isn + 1)
        then record { device = device'; tr = tr3; peer = p''; result = result }
        else record {
          device = device;
          tr = tr;
          peer = wrong;
          result = failed (wrong_ack sa.ack (u32 (cfg.isn + 1)));
        }

    -- What each outcome of the wait leads to.
    abbrev pub on_reply : Peer T → Meeting T → Trace T → D × Reply T → Connecting D T
    on_reply p m tr (d, syn_ack sa) = greet p m sa d tr
    on_reply p m tr (d, reset_by_kernel) = record {
      device = d;
      tr = tr;
      peer = record p { snd = cfg.isn };
      result = failed refused;
    }
    on_reply p m tr (d, timed_out) = record {
      device = d;
      tr = tr;
      peer = record p { snd = cfg.isn };
      result = failed no_syn_ack;
    }
    on_reply p m tr (d, waiting) = record {
      device = d;
      tr = tr;
      peer = record p { snd = cfg.isn };
      result = unfinished;
    }

    unfoldable pub establish : DrainOp D T → Peer T → Meeting T → D → Trace T → Connecting D T
    establish drain p m device tr =
        let tr1 = set_origin tr m.t0 0 cfg.isn in
        let (device1, err) = send device syn_segment in
        let text : List ℕ = if cfg.offer_sack then sack_syn_text else plain_syn_text in
        let tr2 = record_tx tm.sub tr1 m.t0 cfg.isn 0 th_syn 0 text in
        let reply = await drain (tm.add m.wait_start (tm.of_ℕ 2000)) device1 m.readings in
        elim err [
          | some e ↦ record {
            device = device1;
            tr = tr1;
            peer = record p { snd = cfg.isn };
            result = failed (syn_failed e);
          }
          | none ↦ on_reply p m tr2 reply
        ]

    -- `reset`, after which the descriptor is closed.
    unfoldable pub reset : Peer T → D → Peer T × D
    reset p device = (
      record p { afd = none; rsm = none; pending = [] },
      (send device (bare p.snd 0 th_rst 0 no_options)).0,
    )
