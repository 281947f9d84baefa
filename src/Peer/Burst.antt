-- ===== src/Peer/Burst.antt =====
-- src/peer.cpp: burst. `decimal` is `std::to_string`; `drain_for` takes the device to its state after
-- the collection and the replies. An `int32_t` offset is its bit pattern.
use tcp_probe.Prelude.{
  ℕ, zero, suc, ◌+◌, ◌≡◌, refl, ap, ◌∙◌, arith, Bool, ◌&&◌, not, replicate, length-replicate,
  Option, none, some, List, [], ◌∷◌, ◌++◌, ◌==◌, if◌then◌else◌,
}
use tcp_probe.Word.{u32, has_bits}
use tcp_probe.Segment.{no_options, Seg, th_rst, th_ack, flagstr}
use tcp_probe.Trace.{Trace, note}
use tcp_probe.Clock.{Times}
use tcp_probe.Peer.{PeerConfig, is_ours}
use tcp_probe.Peer.Outbox.{Send}
use tcp_probe.Peer.Sends.{sends, taken, refused, sends_taken, sends_refused, sends-all}

pub record BurstResult : Type 0 where
  pub acks : ℕ
  pub rsts : ℕ
  pub sent : ℕ
  pub send_failures : ℕ

-- `BurstResult::complete`.
unfoldable pub complete : BurstResult → ℕ → Bool
complete r wanted = r.send_failures == 0 && r.sent == wanted

-- What `burst` works on.
pub record Bursting (D T : Type 0) : Type 0 where
  pub device : D
  pub tr : Trace T
  pub result : BurstResult

abbrev burst_failed : List ℕ
burst_failed =
    b'b' ∷ b'u' ∷ b'r' ∷ b's' ∷ b't' ∷ 32 ∷ b's' ∷ b'e' ∷ b'n' ∷ b'd' ∷ 32 ∷ b'f' ∷ b'a' ∷ b'i'
    ∷ b'l' ∷ b'e' ∷ b'd' ∷ b':' ∷ 32 ∷ []

module _ {T : Type 0} (tm : Times T) where
  -- The segment that `burst` fires.
  abbrev pub probe : PeerConfig T → ℕ → ℕ → ℕ → ℕ → ℕ → Seg T
  probe cfg snd data_isn flags seq_off ack_off = record {
    seq = u32 (snd + seq_off);
    ack = u32 (data_isn + ack_off);
    flags = flags;
    win = cfg.win;
    sport = cfg.sport;
    dport = cfg.dport;
    payload = [];
    opt = no_options;
    t_ms = tm.zero_T;
  }

  -- The loop over the replies.
  unfoldable pub tally : PeerConfig T → List (Seg T) → BurstResult → BurstResult
  tally cfg [] r = r
  tally cfg (s ∷ rest) r =
      if not (is_ours tm cfg s)
      then tally cfg rest r
      else if has_bits s.flags th_rst
      then tally cfg rest (record r { rsts = r.rsts + 1 })
      else if has_bits s.flags th_ack
      then tally cfg rest (record r { acks = r.acks + 1 })
      else tally cfg rest r

  -- How many replies are a RST on this connection, or another segment of it with an ACK.
  abbrev pub resets : PeerConfig T → List (Seg T) → ℕ
  resets cfg [] = 0
  resets cfg (s ∷ rest) =
      (if is_ours tm cfg s && has_bits s.flags th_rst then 1 else 0) + resets cfg rest

  abbrev pub challenges : PeerConfig T → List (Seg T) → ℕ
  challenges cfg [] = 0
  challenges cfg (s ∷ rest) =
      (if is_ours tm cfg s && not (has_bits s.flags th_rst) && has_bits s.flags th_ack
        then 1
        else 0)
      + challenges cfg rest

  tally-counts :
      (cfg : PeerConfig T) (replies : List (Seg T)) (r : BurstResult)
      → let r' = tally cfg replies r in
        (r'.sent ≡ r.sent)
        × (r'.send_failures ≡ r.send_failures)
        × (r'.rsts ≡ r.rsts + resets cfg replies)
        × (r'.acks ≡ r.acks + challenges cfg replies)
  unfolding tally
  tally-counts cfg [] r = (refl, refl, omega arith, omega arith)
  tally-counts cfg (s ∷ rest) r = ground (
    arith,
    tally-counts cfg rest r,
    tally-counts cfg rest (record r { rsts = r.rsts + 1 }),
    tally-counts cfg rest (record r { acks = r.acks + 1 }),
  )

abbrev pub fresh_burst : {D T : Type 0} → D → Trace T → Bursting D T
fresh_burst device tr = record {
  device = device;
  tr = tr;
  result = record { acks = 0; rsts = 0; sent = 0; send_failures = 0 };
}

module _ {D T : Type 0} (tm : Times T) (send : Send D T) (decimal : ℕ → List ℕ) where
  -- One round of the loop that sends; `now` is the clock where a first failure is noted.
  unfoldable pub burst_round : T → Seg T → Bursting D T → Bursting D T
  burst_round now s b =
      let (device, err) = send b.device s in
      let failures = b.result.send_failures + 1 in
      elim err [
        | none ↦ record b {
          device = device;
          result = record (b.result) { sent = b.result.sent + 1 };
        }
        | some e ↦ record b {
          device = device;
          result = record (b.result) { send_failures = failures };
          tr = if failures == 1 then note tm.sub b.tr now (burst_failed ++ e) else b.tr;
        }
      ]

  unfoldable pub burst_send : T → Seg T → ℕ → Bursting D T → Bursting D T
  burst_send now s zero b = b
  burst_send now s (suc n) b = burst_send now s n (burst_round now s b)

  abbrev burst_text : ℕ → ℕ → BurstResult → List ℕ
  burst_text flags n r =
      (b'b' ∷ b'u' ∷ b'r' ∷ b's' ∷ b't' ∷ 32 ∷ flagstr flags)
      ++ ((32 ∷ b'x' ∷ decimal r.sent)
          ++ ((b'/' ∷ decimal n)
              ++ ((32 ∷ b'-' ∷ b'>' ∷ 32 ∷ decimal r.acks)
                  ++ ((32 ∷ b'A' ∷ b'C' ∷ b'K' ∷ b's' ∷ b',' ∷ 32 ∷ decimal r.rsts)
                      ++ 32 ∷ b'R' ∷ b'S' ∷ b'T' ∷ b's' ∷ []))))

  -- `burst`, with the peer's `snd_` and `data_isn_`; `after` is the clock at its note.
  unfoldable pub burst :
      (D → D × List (Seg T))
      → PeerConfig T
      → T
      → T
      → ℕ
      → ℕ
      → ℕ
      → ℕ
      → ℕ
      → ℕ
      → D
      → Trace T
      → Bursting D T
  burst drain_for cfg now after snd data_isn flags seq_off ack_off n device tr =
      let s = probe tm cfg snd data_isn flags seq_off ack_off in
      let b = burst_send now s n (fresh_burst device tr) in
      let (device', replies) = drain_for b.device in
      let r = tally tm cfg replies b.result in
      record { device = device'; tr = note tm.sub b.tr after (burst_text flags n r); result = r }

  burst_round-counts :
      (now : T) (s : Seg T) (b : Bursting D T)
      → let b' = burst_round now s b in
        let (device, err) = send b.device s in
        (b'.device ≡ device)
        × (b'.result.sent ≡ b.result.sent + taken err)
        × (b'.result.send_failures ≡ b.result.send_failures + refused err)
        × (b'.result.acks ≡ b.result.acks)
        × (b'.result.rsts ≡ b.result.rsts)
  unfolding burst_round
  burst_round-counts now s b = by_error (send b.device s).1
    where
      by_error :
          (err : Option (List ℕ))
          → let device = (send b.device s).0 in
            let failures = b.result.send_failures + 1 in
            let b' : Bursting D T = elim err [
              | none ↦ record b {
                device = device;
                result = record (b.result) { sent = b.result.sent + 1 };
              }
              | some e ↦ record b {
                device = device;
                result = record (b.result) { send_failures = failures };
                tr = if failures == 1 then note tm.sub b.tr now (burst_failed ++ e) else b.tr;
              }
            ] in
            (b'.device ≡ device)
            × (b'.result.sent ≡ b.result.sent + taken err)
            × (b'.result.send_failures ≡ b.result.send_failures + refused err)
            × (b'.result.acks ≡ b.result.acks)
            × (b'.result.rsts ≡ b.result.rsts)
      by_error none = (refl, refl, omega arith, refl, refl)
      by_error (some e) = (refl, omega arith, refl, refl, refl)

  burst_send-counts :
      (now : T) (s : Seg T) (n : ℕ) (b : Bursting D T)
      → let b' = burst_send now s n b in
        (b'.device ≡ sends send (replicate n s) b.device)
        × (b'.result.sent ≡ b.result.sent + sends_taken send (replicate n s) b.device)
        × (b'.result.send_failures
            ≡ b.result.send_failures + sends_refused send (replicate n s) b.device)
        × (b'.result.acks ≡ b.result.acks)
        × (b'.result.rsts ≡ b.result.rsts)
  unfolding burst_send
  burst_send-counts now s zero b = (refl, omega arith, omega arith, refl, refl)
  burst_send-counts now s (suc n) b =
      let (d, c, f, a, r) = burst_round-counts now s b in
      let (d', c', f', a', r') = burst_send-counts now s n (burst_round now s b) in
      (
        d' ∙ ap (sends send (replicate n s)) d,
        omega (arith, c, c', ap (sends_taken send (replicate n s)) d),
        omega (arith, f, f', ap (sends_refused send (replicate n s)) d),
        a' ∙ a,
        r' ∙ r,
      )

  -- `burst` sends its segment `n` times, one after the other: it counts as sent the sends that the
  -- device took, and as failures those that it refused, which are `n` together, and it is complete
  -- exactly if none was refused. Of what the device gives after these sends it counts as resets the
  -- segments of this connection with a RST, and as challenge acknowledgements those with an ACK and
  -- no RST, and it leaves the device as it is behind these replies.
  pub burst-counts :
      (drain_for : D → D × List (Seg T)) (cfg : PeerConfig T) (now after : T)
      (snd data_isn flags seq_off ack_off n : ℕ) (device : D) (tr : Trace T)
      → let b = burst drain_for cfg now after snd data_isn flags seq_off ack_off n device tr in
        let r = b.result in
        let s = probe tm cfg snd data_isn flags seq_off ack_off in
        let (behind, replies) = drain_for (sends send (replicate n s) device) in
        (r.sent ≡ sends_taken send (replicate n s) device)
        × (r.send_failures ≡ sends_refused send (replicate n s) device)
        × (r.sent + r.send_failures ≡ n)
        × (complete r n ≡ (sends_refused send (replicate n s) device == 0))
        × (b.device ≡ behind)
        × (r.rsts ≡ resets tm cfg replies)
        × (r.acks ≡ challenges tm cfg replies)
  unfolding burst complete
  burst-counts drain_for cfg now after snd data_isn flags seq_off ack_off n device tr =
      let s = probe tm cfg snd data_isn flags seq_off ack_off in
      let b = burst_send now s n (fresh_burst device tr) in
      let t = tally-counts tm cfg (drain_for b.device).1 b.result in
      let (d, c, f, a, x) = burst_send-counts now s n (fresh_burst device tr) in
      let all = sends-all send (replicate n s) device in
      let r = tally tm cfg (drain_for b.device).1 b.result in
      let sent : r.sent ≡ sends_taken send (replicate n s) device = omega (arith, t, c) in
      let failed : r.send_failures ≡ sends_refused send (replicate n s) device =
        omega (arith, t, f) in
      (
        sent,
        failed,
        omega (arith, sent, failed, all, length-replicate n s),
        ground (arith, sent, failed, all, length-replicate n s),
        ap (λ e. (drain_for e).0) d,
        omega (arith, t, x, ap (λ e. resets tm cfg (drain_for e).1) d),
        omega (arith, t, a, ap (λ e. challenges tm cfg (drain_for e).1) d),
      )
