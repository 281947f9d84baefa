-- ===== src/Peer/Sends.antt =====
-- src/peer.cpp, flush_acks and burst: what a device makes of segments that are handed to it one after
-- the other, and the segment that an acknowledgement stands for.
use tcp_probe.Prelude.{
  ℕ, if◌then◌else◌, ◌+◌, ap, ◌∙◌, Bool, true, false, ◌&&◌, not, ◌≡◌, refl, arith, Option, none,
  some, List, [], ◌∷◌, length,
}
use tcp_probe.Segment.{SeqRange, Options, no_options, Seg, is_empty}
use tcp_probe.Peer.{PeerConfig, PendingAck}
use tcp_probe.Clock.{Times}
use tcp_probe.Peer.Outbox.{Send, Outbox, send_now, ack_segment, send_ack}

abbrev pub taken : Option (List ℕ) → ℕ
taken none = 1
taken (some e) = 0

abbrev pub refused : Option (List ℕ) → ℕ
refused none = 0
refused (some e) = 1

module _ {D T : Type 0} (send : Send D T) where
  -- The device behind the segments, in their order.
  abbrev pub sends : List (Seg T) → D → D
  sends [] d = d
  sends (s ∷ ss) d = sends ss (send d s).0

  -- How many of them it takes, and how many it refuses.
  abbrev pub sends_taken : List (Seg T) → D → ℕ
  sends_taken [] d = 0
  sends_taken (s ∷ ss) d = taken (send d s).1 + sends_taken ss (send d s).0

  abbrev pub sends_refused : List (Seg T) → D → ℕ
  sends_refused [] d = 0
  sends_refused (s ∷ ss) d = refused (send d s).1 + sends_refused ss (send d s).0

  either :
      (x y n : ℕ) (err : Option (List ℕ)) → x + y ≡ n → taken err + x + (refused err + y) ≡ n + 1
  either x y n none e = omega (arith, e)
  either x y n (some t) e = omega (arith, e)

  pub sends-all : (ss : List (Seg T)) (d : D) → sends_taken ss d + sends_refused ss d ≡ length ss
  sends-all [] d = refl
  sends-all (s ∷ ss) d =
      omega (arith, either _ _ (length ss) (send d s).1 (sends-all ss (send d s).0))

  -- How many it takes of those that stand for duplicates among the acknowledgements.
  abbrev pub duplicates_taken : List (PendingAck T) → List (Seg T) → D → ℕ
  duplicates_taken [] ss d = 0
  duplicates_taken (p ∷ ps) [] d = 0
  duplicates_taken (p ∷ ps) (s ∷ ss) d =
      (if p.is_dup then taken (send d s).1 else 0) + duplicates_taken ps ss (send d s).0

  -- From `box` to `box'` the device was handed the segments `ss`, made of the acknowledgements `ps`,
  -- in their order; each it took is counted as sent, and if it is a duplicate as such, and each it
  -- refused as a failure.
  pub record Hands (ps : List (PendingAck T)) (ss : List (Seg T)) (box box' : Outbox D T)
      : Type 0 where
    pub device : box'.device ≡ sends ss box.device
    pub acks : box'.sum.acks_sent ≡ box.sum.acks_sent + sends_taken ss box.device
    pub failures :
        box'.sum.ack_send_failures ≡ box.sum.ack_send_failures + sends_refused ss box.device
    pub duplicates :
        box'.sum.dup_acks_sent ≡ box.sum.dup_acks_sent + duplicates_taken ps ss box.device

module _ {T : Type 0} (cfg : PeerConfig T) (snd : ℕ) where
  -- A bare ACK from the peer's ports at its number `snd`, which acknowledges what `p` says. It
  -- carries the blocks of `p` if SACK is offered and blocks are sent, and else none.
  pub record IsAck (p : PendingAck T) (s : Seg T) : Type 0 where
    pub seq : s.seq ≡ snd
    pub ack : s.ack ≡ p.ack
    pub flags : s.flags ≡ 0x10
    pub win : s.win ≡ cfg.win
    pub sport : s.sport ≡ cfg.sport
    pub dport : s.dport ≡ cfg.dport
    pub empty : s.payload ≡ []
    pub mss : s.opt.mss ≡ none
    pub wscale : s.opt.wscale ≡ none
    pub permitted : s.opt.sack_permitted ≡ false
    pub blocks :
        s.opt.sack_blocks ≡ (if cfg.offer_sack && cfg.send_sack_blocks then p.sacks else [])

  abbrev pub Answers : List (PendingAck T) → List (Seg T) → Type 0
  Answers [] [] = Unit
  Answers [] (s ∷ ss) = ⊥
  Answers (p ∷ ps) [] = ⊥
  Answers (p ∷ ps) (s ∷ ss) = IsAck p s × Answers ps ss

  pub ack_segment-IsAck :
      {D : Type 0} (tm : Times T) (send : Send D T) (p : PendingAck T)
      → IsAck p (ack_segment tm cfg send snd p)
  ack_segment-IsAck tm send p = record {
    seq = refl;
    ack = refl;
    flags = refl;
    win = refl;
    sport = refl;
    dport = refl;
    empty = refl;
    mss = ground arith;
    wscale = ground arith;
    permitted = ground arith;
    blocks = by_blocks (cfg.offer_sack && cfg.send_sack_blocks) p.sacks;
  }
    where
      by_blocks :
          (wanted : Bool) (l : List SeqRange)
          → let o : Options =
              if wanted && not (is_empty l)
              then record no_options { sack_blocks = l }
              else no_options in
            o.sack_blocks ≡ (if wanted then l else [])
      by_blocks true [] = refl
      by_blocks true (x ∷ l) = refl
      by_blocks false l = refl

module _ {D T : Type 0} (tm : Times T) (cfg : PeerConfig T) (send : Send D T) (snd : ℕ) where
  -- One acknowledgement: the device, and how it is counted.
  send_ack-step :
      (box : Outbox D T) (now : T) (p : PendingAck T)
      → let (d, err) = send box.device (ack_segment tm cfg send snd p) in
        let box' = send_ack tm cfg send snd box now p in
        (box'.device ≡ d)
        × (box'.sum.acks_sent ≡ box.sum.acks_sent + taken err)
        × (box'.sum.ack_send_failures ≡ box.sum.ack_send_failures + refused err)
        × (box'.sum.dup_acks_sent ≡ box.sum.dup_acks_sent + (if p.is_dup then taken err else 0))
  unfolding send_ack send_now
  send_ack-step box now p = (ground arith, ground arith, ground arith, ground arith)

  pub send_ack-Hands :
      (box : Outbox D T) (now : T) (p : PendingAck T) (ps : List (PendingAck T)) (ss : List (Seg T))
      (last : Outbox D T)
      → Hands send ps ss (send_ack tm cfg send snd box now p) last
      → Hands send (p ∷ ps) (ack_segment tm cfg send snd p ∷ ss) box last
  send_ack-Hands box now p ps ss last h =
      let (d, a, f, u) = send_ack-step box now p in
      record {
        device = h.device ∙ ap (sends send ss) d;
        acks = omega (arith, h.acks, a, ap (sends_taken send ss) d);
        failures = omega (arith, h.failures, f, ap (sends_refused send ss) d);
        duplicates = omega (arith, h.duplicates, u, ap (duplicates_taken send ps ss) d);
      }
