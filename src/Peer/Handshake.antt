-- ===== src/Peer/Handshake.antt =====
-- What `establish` guarantees where it succeeds.
use mathlib.Core.Path.{subst}
use tcp_probe.Prelude.{
  ℕ, ◌+◌, ◌≡◌, refl, ap, ◌∙◌, ◌⊎◌, inl, inr, not, if_cases, arith, Bool, true, false, Option, none,
  some, List, [], ◌∷◌, bit_and, ◌==◌, if◌then◌else◌,
}
use tcp_probe.Clock.{Times}
use tcp_probe.Word.{u32, has_bits}
use tcp_probe.Segment.{Seg, th_rst}
use tcp_probe.Trace.{Trace, set_origin, record_rx, record_tx, note}
use tcp_probe.Peer.{PeerConfig, is_ours}
use tcp_probe.Peer.Outbox.{Send, send_now}
use tcp_probe.Peer.Connect.{
  DrainOp, Peer, connected, failed, syn_failed, syn_segment, Reply, syn_ack, reset_by_kernel,
  timed_out, waiting, Accepted, not_ready, refused_with, accepted, syn_ack_bits, scan, await, learn,
  take_socket, Connecting, Meeting, greet, on_reply, establish, or_zero,
}

-- A SYN-ACK on the peer's ports.
pub record IsAnswer {T : Type 0} (tm : Times T) (cfg : PeerConfig T) (s : Seg T) : Type 0 where
  pub ours : is_ours tm cfg s ≡ true
  pub no_reset : has_bits s.flags th_rst ≡ false
  pub both : bit_and s.flags syn_ack_bits ≡ syn_ack_bits

-- The peer as the SYN-ACK `sa` makes it, on a socket whose port is the peer's own.
pub record Learns {T : Type 0} (tm : Times T) (cfg : PeerConfig T) (m : Meeting T) (sa : Seg T)
    (p : Peer T) (tr : Trace T) : Type 0 where
  pub answer : IsAnswer tm cfg sa
  pub ack : sa.ack ≡ u32 (cfg.isn + 1)
  pub snd : p.snd ≡ u32 (cfg.isn + 1)
  pub data_isn : p.data_isn ≡ u32 (sa.seq + 1)
  pub seen : p.max_seq_end_seen ≡ u32 (sa.seq + 1)
  pub sack : p.peer_sack_ok ≡ sa.opt.sack_permitted
  pub mss : p.peer_mss ≡ or_zero sa.opt.mss
  pub rtt : p.handshake_rtt_ms ≡ tm.sub sa.t_ms m.t0
  pub socket : (fd : ℕ) × (p.afd ≡ some fd) × (m.outcome ≡ accepted fd cfg.sport)
  pub origin : (tr.t0 ≡ m.t0) × (tr.data_isn ≡ u32 (sa.seq + 1)) × (tr.our_isn ≡ cfg.isn)

module _ {T : Type 0} (tm : Times T) (cfg : PeerConfig T) where
  -- A segment that the wait for the answer passes over: one of another connection, or one without
  -- RST and without both SYN and ACK.
  abbrev pub IsPassed : Seg T → Type 0
  IsPassed s =
      (is_ours tm cfg s ≡ false)
      ⊎ ((has_bits s.flags th_rst ≡ false)
          × ((bit_and s.flags syn_ack_bits == syn_ack_bits) ≡ false))

  abbrev pub AllPassed : List (Seg T) → Type 0
  AllPassed [] = Unit
  AllPassed (x ∷ rest) = IsPassed x × AllPassed rest

  -- The first segment that is not passed over is the answer `sa`.
  abbrev pub FirstIn : Seg T → List (Seg T) → Type 0
  FirstIn sa [] = ⊥
  FirstIn sa (x ∷ rest) = ((x ≡ sa) × IsAnswer tm cfg x) ⊎ (IsPassed x × FirstIn sa rest)

  -- Over the clock's readings before each drain, the device gives `sa` as the first segment that is
  -- not passed over, in a batch drained before the deadline.
  abbrev pub Arrives : {D : Type 0} → DrainOp D T → T → Seg T → D → List T → Type 0
  Arrives drain deadline sa d [] = ⊥
  Arrives drain deadline sa d (now ∷ rest) =
      let (d', seen) = drain (tm.of_ℕ 50) d in
      (tm.leb_T deadline now ≡ false)
      × (FirstIn sa seen ⊎ (AllPassed seen × Arrives drain deadline sa d' rest))

  scan-FirstIn : (segs : List (Seg T)) (s : Seg T) → scan tm cfg segs ≡ syn_ack s → FirstIn s segs
  unfolding scan
  scan-FirstIn [] s = λ e. cc
  scan-FirstIn (x ∷ rest) s =
      let P : Reply T → Type 0 = λ r. r ≡ syn_ack s → FirstIn s (x ∷ rest) in
      if_cases P (not (is_ours tm cfg x)) _ _
        (λ f e. inr (inl (ground (arith, f)), scan-FirstIn rest s e))
        λ ours.
          if_cases P (has_bits x.flags th_rst) _ _ (λ r e. cc)
            λ no_rst.
              if_cases P (bit_and x.flags syn_ack_bits == syn_ack_bits) _ _
                (λ both e. inl (
                  cc,
                  record {
                    ours = ground (arith, ours);
                    no_reset = no_rst;
                    both = ground (arith, both);
                  },
                ))
                λ neither e. inr (inr (no_rst, neither), scan-FirstIn rest s e)

  scan-AllPassed : (segs : List (Seg T)) → scan tm cfg segs ≡ waiting → AllPassed segs
  unfolding scan
  scan-AllPassed [] = λ e. tt
  scan-AllPassed (x ∷ rest) =
      let P : Reply T → Type 0 = λ r. r ≡ waiting → AllPassed (x ∷ rest) in
      if_cases P (not (is_ours tm cfg x)) _ _
        (λ f e. (inl (ground (arith, f)), scan-AllPassed rest e))
        λ ours.
          if_cases P (has_bits x.flags th_rst) _ _ (λ r e. cc)
            λ no_rst.
              if_cases P (bit_and x.flags syn_ack_bits == syn_ack_bits) _ _ (λ both e. cc)
                λ neither e. (inr (no_rst, neither), scan-AllPassed rest e)

  scan-in_time : (segs : List (Seg T)) → scan tm cfg segs ≡ timed_out → ⊥
  unfolding scan
  scan-in_time [] e = cc
  scan-in_time (x ∷ rest) e = ground (arith, scan-in_time rest)

  FirstIn-IsAnswer : (sa : Seg T) (segs : List (Seg T)) → FirstIn sa segs → IsAnswer tm cfg sa
  FirstIn-IsAnswer sa [] f = absurd f
  FirstIn-IsAnswer sa (x ∷ rest) (inl (same, a)) = subst (IsAnswer tm cfg) same a
  FirstIn-IsAnswer sa (x ∷ rest) (inr (p, f)) = FirstIn-IsAnswer sa rest f

  Arrives-IsAnswer :
      {D : Type 0} (drain : DrainOp D T) (deadline : T) (sa : Seg T) (d : D) (readings : List T)
      → Arrives drain deadline sa d readings
      → IsAnswer tm cfg sa
  Arrives-IsAnswer drain deadline sa d [] h = absurd h
  Arrives-IsAnswer drain deadline sa d (now ∷ rest) (early, inl f) =
      FirstIn-IsAnswer sa (drain (tm.of_ℕ 50) d).1 f
  Arrives-IsAnswer drain deadline sa d (now ∷ rest) (early, inr (p, h)) =
      Arrives-IsAnswer drain deadline sa (drain (tm.of_ℕ 50) d).0 rest h

  after_scan :
      {D : Type 0} (segs : List (Seg T)) (k : Reply T) (d : D) (more : D × Reply T) (s : Seg T)
      (Later : Type 0)
      → scan tm cfg segs ≡ k
      → (more.1 ≡ syn_ack s → Later)
      → let res : D × Reply T = elim k [
        | syn_ack x ↦ (d, syn_ack x)
        | reset_by_kernel ↦ (d, reset_by_kernel)
        | timed_out ↦ more
        | waiting ↦ more
      ] in
        res.1 ≡ syn_ack s → FirstIn s segs ⊎ (AllPassed segs × Later)
  after_scan segs (syn_ack x) d more s Later is_k g e = inl (scan-FirstIn segs s (is_k ∙ e))
  after_scan segs reset_by_kernel d more s Later is_k g e = cc
  after_scan segs timed_out d more s Later is_k g e = absurd (scan-in_time segs is_k)
  after_scan segs waiting d more s Later is_k g e = inr (scan-AllPassed segs is_k, g e)

  await-Arrives :
      {D : Type 0} (drain : DrainOp D T) (deadline : T) (d : D) (readings : List T) (s : Seg T)
      → (await tm cfg drain deadline d readings).1 ≡ syn_ack s
      → Arrives drain deadline s d readings
  unfolding await
  await-Arrives drain deadline d [] s = λ e. cc
  await-Arrives drain deadline d (now ∷ rest) s =
      let (d', segs) = drain (tm.of_ℕ 50) d in
      if_cases (λ (x : _ × Reply T). x.1 ≡ syn_ack s → Arrives drain deadline s d (now ∷ rest))
        (tm.leb_T deadline now) _ _ (λ late e. cc)
        λ early e. (
          early,
          after_scan segs (scan tm cfg segs) d' (await tm cfg drain deadline d' rest) s _ refl
              (await-Arrives drain deadline d' rest s) e,
        )

  module _ {D : Type 0} (send : Send D T) (decimal : ℕ → List ℕ) where
    origin-send_now :
        (device : D) (tr : Trace T) (s : Seg T) (now : T) (text : List ℕ)
        → let tr' = (send_now tm cfg send device tr s now text).1 in
          (tr'.t0 ≡ tr.t0) × (tr'.data_isn ≡ tr.data_isn) × (tr'.our_isn ≡ tr.our_isn)
    unfolding send_now record_tx note
    origin-send_now device tr s now text = ground arith

    Learns-if :
        (b : Bool) (m : Meeting T) (sa : Seg T) (x y : Connecting D T)
        → (b ≡ true → x.result ≡ connected → Learns tm cfg m sa x.peer x.tr)
        → (y.result ≡ connected → Learns tm cfg m sa y.peer y.tr)
        → (if b then x else y).result ≡ connected
        → Learns tm cfg m sa (if b then x else y).peer (if b then x else y).tr
    Learns-if true m sa x y h k e = h refl e
    Learns-if false m sa x y h k e = k e

    take_socket-connected :
        (p : Peer T) (o : Accepted)
        → (take_socket tm cfg p o).1 ≡ connected
        → (fd : ℕ) × ((take_socket tm cfg p o).0 ≡ record p { afd = some fd })
          × (o ≡ accepted fd cfg.sport)
    unfolding take_socket
    take_socket-connected p not_ready e = cc
    take_socket-connected p (refused_with errno) e = cc
    take_socket-connected p (accepted fd port) e =
        let same : port ≡ cfg.sport = ground arith in (fd, refl, ap (accepted fd) same)

    greet-Learns :
        (p : Peer T) (m : Meeting T) (sa : Seg T) (device : D) (tr : Trace T)
        → IsAnswer tm cfg sa
        → (greet tm cfg send decimal p m sa device tr).result ≡ connected
        → let c = greet tm cfg send decimal p m sa device tr in Learns tm cfg m sa c.peer c.tr
    unfolding greet record_rx set_origin
    greet-Learns p m sa device tr a =
        let p' = learn tm cfg p m.t0 sa in
        Learns-if (sa.ack == u32 (cfg.isn + 1)) m sa _ _
          (λ e c.
            let (fd, is_p, out) = take_socket-connected p' m.outcome c in
            record {
              answer = a;
              ack = ground (arith, e);
              snd = ap (λ q. q.snd) is_p;
              data_isn = ap (λ q. q.data_isn) is_p;
              seen = ap (λ q. q.max_seq_end_seen) is_p;
              sack = ap (λ q. q.peer_sack_ok) is_p;
              mss = ap (λ q. q.peer_mss) is_p;
              rtt = ap (λ q. q.handshake_rtt_ms) is_p;
              socket = (fd, ap (λ q. q.afd) is_p, out);
              origin = origin-send_now device _ _ m.ack_time _;
            })
          λ c. cc

    -- The answer that arrives in time after the SYN, and what is learnt from it.
    abbrev pub Meets : DrainOp D T → Meeting T → D → Peer T → Trace T → Type 0
    Meets drain m device p tr =
        let after_syn = (send device (syn_segment tm cfg)).0 in
        (sa : Seg T) × Arrives drain (tm.add m.wait_start (tm.of_ℕ 2000)) sa after_syn m.readings
        × Learns tm cfg m sa p tr

    on_reply-Learns :
        (p : Peer T) (m : Meeting T) (tr : Trace T) (r : D × Reply T) (P : Seg T → Type 0)
        → ((s : Seg T) → r.1 ≡ syn_ack s → P s)
        → ((s : Seg T) → P s → IsAnswer tm cfg s)
        → (on_reply tm cfg send decimal p m tr r).result ≡ connected
        → let c = on_reply tm cfg send decimal p m tr r in
          (sa : Seg T) × P sa × Learns tm cfg m sa c.peer c.tr
    on_reply-Learns p m tr (d, syn_ack sa) P h a e =
        (sa, h sa refl, greet-Learns p m sa d tr (a sa (h sa refl)) e)
    on_reply-Learns p m tr (d, reset_by_kernel) P h a e = cc
    on_reply-Learns p m tr (d, timed_out) P h a e = cc
    on_reply-Learns p m tr (d, waiting) P h a e = cc

    after_syn :
        (m : Meeting T) (err : Option (List ℕ)) (x : Connecting D T) (device : D) (tr : Trace T)
        (p : Peer T) (P : Peer T → Trace T → Type 0)
        → (x.result ≡ connected → P x.peer x.tr)
        → let c : Connecting D T = elim err [
          | some e ↦ record { device = device; tr = tr; peer = p; result = failed (syn_failed e) }
          | none ↦ x
        ] in
          c.result ≡ connected → P c.peer c.tr
    after_syn m none x device tr p P h e = h e
    after_syn m (some t) x device tr p P h e = cc

    -- Where `establish` succeeds, the first segment on the peer's ports that the device gave in time
    -- after the SYN, with a RST or with both SYN and ACK, has SYN and ACK and no RST and acknowledges
    -- the SYN, and the accepted socket's port is the peer's own. The peer's next number is one past
    -- its first, its first data byte and the end of what it has seen are one past that answer's
    -- number, what it has learnt are the answer's options and its time since the SYN, and the trace
    -- counts from these numbers and that SYN.
    pub establish-Learns :
        (drain : DrainOp D T) (p : Peer T) (m : Meeting T) (device : D) (tr : Trace T)
        → (establish tm cfg send decimal drain p m device tr).result ≡ connected
        → let c = establish tm cfg send decimal drain p m device tr in
          Meets drain m device c.peer c.tr
    unfolding establish
    establish-Learns drain p m device tr e =
        let deadline = tm.add m.wait_start (tm.of_ℕ 2000) in
        let d1 = (send device (syn_segment tm cfg)).0 in
        after_syn m (send device (syn_segment tm cfg)).1 _ d1 _ _ (Meets drain m device)
          (on_reply-Learns p m _ (await tm cfg drain deadline d1 m.readings)
            (λ s. Arrives drain deadline s d1 m.readings)
            (λ s. await-Arrives drain deadline d1 m.readings s)
            λ s. Arrives-IsAnswer drain deadline s d1 m.readings)
          e
