-- ===== src/Peer/Flush.antt =====
-- `flush_acks`: which acknowledgements go out, in which order, and how they are counted.
use tcp_probe.Prelude.{
  ℕ, ◌+◌, ◌≤◌, ◌≡◌, refl, ap, arith, Bool, true, false, ◌&&◌, ◌||◌, not, List, [], ◌∷◌, ◌++◌,
  length, if◌then◌else◌,
}
use tcp_probe.Clock.{Times}
use tcp_probe.Peer.{PeerConfig, PendingAck}
use tcp_probe.Peer.Outbox.{Send, Outbox, ack_segment, send_ack, flush_acks}
use tcp_probe.Peer.Sends.{Answers, Hands, ack_segment-IsAck, send_ack-Hands}
use tcp_probe.Segment.{Seg}
use tcp_probe.Peer.Owed.{dup_count}

module _ {T : Type 0} (tm : Times T) where
  -- May the acknowledgement go out now?
  abbrev pub is_due : T → Bool → PendingAck T → Bool
  is_due now force p = force || tm.leb_T p.due_ms now

  abbrev pub all_due : T → Bool → List (PendingAck T) → Bool
  all_due now force [] = true
  all_due now force (p ∷ ps) = is_due now force p && all_due now force ps

  -- The queue is empty, or its first acknowledgement is not due.
  abbrev pub waits : T → Bool → List (PendingAck T) → Bool
  waits now force [] = true
  waits now force (p ∷ ps) = not (is_due now force p)

-- From `box` to `box'` the acknowledgements `sent` were handed to the device.
pub record Counts {D T : Type 0} (sent : List (PendingAck T)) (box box' : Outbox D T) : Type 0 where
  pub tried :
      box'.sum.acks_sent + box'.sum.ack_send_failures
      ≡ box.sum.acks_sent + box.sum.ack_send_failures + length sent
  pub failed : box.sum.ack_send_failures ≤ box'.sum.ack_send_failures
  pub duplicates : box'.sum.dup_acks_sent ≤ box.sum.dup_acks_sent + dup_count sent
  pub all_duplicates :
      box.sum.dup_acks_sent + dup_count sent + box.sum.ack_send_failures
      ≤ box'.sum.dup_acks_sent + box'.sum.ack_send_failures
  pub dropped : box'.sum.segments_dropped ≡ box.sum.segments_dropped

-- What `flush_acks` makes of the queue `pending`: the acknowledgements left, and the device afterwards.
pub record IsFlushed {D T : Type 0} (tm : Times T) (cfg : PeerConfig T) (send : Send D T) (snd : ℕ)
    (box : Outbox D T) (pending : List (PendingAck T)) (now : T) (force : Bool)
    (result : List (PendingAck T) × Outbox D T) : Type 0 where
  pub sent : List (PendingAck T)
  pub split : pending ≡ sent ++ result.0
  pub due : all_due tm now force sent ≡ true
  pub stays : waits tm now force result.0 ≡ true
  pub segments : List (Seg T)
  pub answers : Answers cfg snd sent segments
  pub handed : Hands send sent segments box result.1
  pub counts : Counts sent box result.1

module _ {D T : Type 0} (tm : Times T) (cfg : PeerConfig T) (send : Send D T) where
  send_ack-Counts :
      (snd : ℕ) (box : Outbox D T) (now : T) (p : PendingAck T)
      → Counts (p ∷ []) box (send_ack tm cfg send snd box now p)
  unfolding send_ack
  send_ack-Counts snd box now p = record {
    tried = ground arith;
    failed = ground arith;
    duplicates = ground arith;
    all_duplicates = ground arith;
    dropped = ground arith;
  }

  Counts-cons :
      (p : PendingAck T) (sent : List (PendingAck T)) (a b c : Outbox D T)
      → Counts (p ∷ []) a b
      → Counts sent b c
      → Counts (p ∷ sent) a c
  Counts-cons p sent a b c h k = record {
    tried = omega (arith, h.tried, k.tried);
    failed = omega (arith, h.failed, k.failed);
    duplicates = omega (arith, h.duplicates, k.duplicates);
    all_duplicates = omega (arith, h.all_duplicates, k.all_duplicates);
    dropped = omega (arith, h.dropped, k.dropped);
  }

  IsFlushed-if :
      (snd : ℕ) (box : Outbox D T) (pending : List (PendingAck T)) (now : T) (force b : Bool)
      (x y : List (PendingAck T) × Outbox D T)
      → (b ≡ true → IsFlushed tm cfg send snd box pending now force x)
      → (b ≡ false → IsFlushed tm cfg send snd box pending now force y)
      → IsFlushed tm cfg send snd box pending now force (if b then x else y)
  IsFlushed-if snd box pending now force true x y h k = h refl
  IsFlushed-if snd box pending now force false x y h k = k refl

  Counts-none : (box : Outbox D T) → Counts [] box box
  Counts-none box = record {
    tried = omega arith;
    failed = omega arith;
    duplicates = omega arith;
    all_duplicates = omega arith;
    dropped = refl;
  }

  Hands-none : (box : Outbox D T) → Hands send [] [] box box
  Hands-none box = record {
    device = refl;
    acks = omega arith;
    failures = omega arith;
    duplicates = omega arith;
  }

  -- `flush_acks` splits the queue in two. Each acknowledgement of the front is due or forced,
  -- and what is left is empty or begins with one that is not. The device is handed, in the order of
  -- the queue and once each, a bare ACK for every acknowledgement of the front, with its number and
  -- the blocks that the configuration lets out. Those the device takes are counted as sent, the
  -- duplicates among them as such, and those it refuses as failures.
  pub flush_acks-IsFlushed :
      (snd : ℕ) (box : Outbox D T) (pending : List (PendingAck T)) (now : T) (force : Bool)
      → IsFlushed tm cfg send snd box pending now force
          (flush_acks tm cfg send snd box pending now force)
  unfolding flush_acks
  flush_acks-IsFlushed snd box [] now force = record {
    sent = [];
    split = refl;
    due = refl;
    stays = refl;
    segments = [];
    answers = tt;
    handed = Hands-none box;
    counts = Counts-none box;
  }
  flush_acks-IsFlushed snd box (p ∷ rest) now force =
      let box1 = send_ack tm cfg send snd box now p in
      let more = flush_acks-IsFlushed snd box1 rest now force in
      IsFlushed-if snd box (p ∷ rest) now force (is_due tm now force p) _ _
        (λ e. record {
          sent = p ∷ more.sent;
          split = ap (λ l. p ∷ l) more.split;
          due = ground (arith, e, more.due);
          stays = more.stays;
          segments = ack_segment tm cfg send snd p ∷ more.segments;
          answers = (ack_segment-IsAck cfg snd tm send p, more.answers);
          handed = send_ack-Hands tm cfg send snd box now p more.sent more.segments _ more.handed;
          counts = Counts-cons p more.sent box box1 _ (send_ack-Counts snd box now p) more.counts;
        })
        λ e. record {
          sent = [];
          split = refl;
          due = refl;
          stays = ground (arith, e);
          segments = [];
          answers = tt;
          handed = Hands-none box;
          counts = Counts-none box;
        }
