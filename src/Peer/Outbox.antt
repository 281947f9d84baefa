-- ===== src/Peer/Outbox.antt =====
-- src/peer.cpp: send_now and flush_acks, which put the acknowledgements on the device.
use tcp_probe.Prelude.{
  ℕ, ◌+◌, Bool, true, false, ◌&&◌, ◌||◌, not, Option, none, some, List, [], ◌∷◌, ◌++◌, length,
  if◌then◌else◌,
}
use tcp_probe.Word.{u32}
use tcp_probe.Segment.{no_options, Seg, th_ack, is_empty}
use tcp_probe.Trace.{Trace, record_tx, note}
use tcp_probe.Clock.{Times}
use tcp_probe.Peer.{PeerConfig, PendingAck, RunSummary}

-- The device: its state, and a send that gives the new state and the error text of a failure.
abbrev pub Send : Type 0 → Type 0 → Type 0
Send D T = D → Seg T → D × Option (List ℕ)

-- What `flush_acks` works on.
pub record Outbox (D T : Type 0) : Type 0 where
  pub device : D
  pub tr : Trace T
  pub sum : RunSummary T

abbrev send_failed : List ℕ
send_failed =
    b's' ∷ b'e' ∷ b'n' ∷ b'd' ∷ 32 ∷ b'f' ∷ b'a' ∷ b'i' ∷ b'l' ∷ b'e' ∷ b'd' ∷ b':' ∷ 32 ∷ []

abbrev dup_ack_text : List ℕ
dup_ack_text = b'd' ∷ b'u' ∷ b'p' ∷ 32 ∷ b'A' ∷ b'C' ∷ b'K' ∷ []

module _ {D T : Type 0} (tm : Times T) (cfg : PeerConfig T) (send : Send D T) where
  unfoldable pub send_now : D → Trace T → Seg T → T → List ℕ → D × Trace T × Bool
  send_now device tr s now text =
      let (device', err) = send device s in
      elim err [
        | none ↦ (
          device',
          record_tx tm.sub tr now s.seq s.ack s.flags (u32 (length s.payload)) text,
          true,
        )
        | some e ↦ (device', note tm.sub tr now (send_failed ++ e), false)
      ]

  -- The segment that `flush_acks` makes of a queued acknowledgement.
  abbrev pub ack_segment : ℕ → PendingAck T → Seg T
  ack_segment snd p = record {
    seq = snd;
    ack = p.ack;
    flags = th_ack;
    win = cfg.win;
    sport = cfg.sport;
    dport = cfg.dport;
    payload = [];
    opt =
        if cfg.offer_sack && cfg.send_sack_blocks && not (is_empty p.sacks)
        then record no_options { sack_blocks = p.sacks }
        else no_options;
    t_ms = tm.zero_T;
  }

  -- How the summary counts one acknowledgement.
  abbrev pub count_ack : Bool → Bool → RunSummary T → RunSummary T
  count_ack ok is_dup sum =
      if ok
      then record sum {
        acks_sent = sum.acks_sent + 1;
        dup_acks_sent = if is_dup then sum.dup_acks_sent + 1 else sum.dup_acks_sent;
      }
      else record sum { ack_send_failures = sum.ack_send_failures + 1 }

  -- One round of `flush_acks`.
  unfoldable pub send_ack : ℕ → Outbox D T → T → PendingAck T → Outbox D T
  send_ack snd box now p =
      let text : List ℕ = if p.is_dup then dup_ack_text else [] in
      let (device, tr, ok) = send_now box.device box.tr (ack_segment snd p) now text in
      record { device = device; tr = tr; sum = count_ack ok p.is_dup box.sum }

  -- `flush_acks` as `receive` calls it, with `cur_` set: what is left in the queue, and the rest.
  unfoldable pub flush_acks :
      ℕ → Outbox D T → List (PendingAck T) → T → Bool → List (PendingAck T) × Outbox D T
  flush_acks snd box [] now force = ([], box)
  flush_acks snd box (p ∷ rest) now force =
      let more = flush_acks snd (send_ack snd box now p) rest now force in
      if force || tm.leb_T p.due_ms now then more else (p ∷ rest, box)
