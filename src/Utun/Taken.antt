-- ===== src/Utun/Taken.antt =====
-- What `drain` has done with the frames that it took.
use tcp_probe.Prelude.{
  ℕ, ◌+◌, ◌≤◌, ◌≡◌, refl, ap, ◌∙◌, sym, arith, Bool, true, false, ◌||◌, Option, none, some, List,
  [], ◌∷◌, ◌++◌, length,
}
use mathlib.Core.List.{append_assoc, append-nil}
use tcp_probe.Segment.{Seg}
use tcp_probe.Clock.{Times}
use tcp_probe.Utun.{Utun}
use tcp_probe.Utun.Kinds.{
  accepted, is_some, is_foreign, is_bad, segment_in, says_foreign, says_bad, classify-IsKind,
}
use tcp_probe.Utun.Drain.{
  Round, Turn, leave, go_on, got, turn, Draining, Frame, short, foreign, bad, good, classify,
  count_frame, take_frame, record_peaks, drain_loop, drain,
}

-- A segment, if there is one, before others.
abbrev before : {A : Type 0} → Option A → List A → List A
before none rest = rest
before (some s) rest = s ∷ rest

abbrev one_if : Bool → ℕ
one_if true = 1
one_if false = 0

module _ {T : Type 0} where
  -- The segments among frames, how many frames are of each other kind, and their bytes, all told by
  -- the frames alone.
  abbrev pub segments : List (List ℕ × T) → List (Seg T)
  segments [] = []
  segments ((buf, t) ∷ fs) = before (accepted buf t) (segments fs)

  abbrev pub foreigns : List (List ℕ × T) → ℕ
  foreigns [] = 0
  foreigns ((buf, t) ∷ fs) = one_if (is_foreign buf) + foreigns fs

  abbrev pub bads : List (List ℕ × T) → ℕ
  bads [] = 0
  bads ((buf, t) ∷ fs) = one_if (is_bad buf t) + bads fs

  abbrev pub total_bytes : List (List ℕ × T) → ℕ
  total_bytes [] = 0
  total_bytes ((buf, t) ∷ fs) = length buf + total_bytes fs

  -- The frames that the loop takes from its rounds, by the control flow and by whether a segment is
  -- in hand.
  abbrev pub taken : Times T → T → Bool → List (Round T) → List (List ℕ × T)
  taken tm deadline got_any [] = []
  taken tm deadline got_any (r ∷ rest) = elim (turn tm deadline got_any r) [
    | leave ↦ []
    | go_on ↦ taken tm deadline got_any rest
    | got buf t ↦ (buf, t) ∷ taken tm deadline (got_any || is_some (accepted buf t)) rest
  ]

-- From `d` to `d'` exactly the frames `fs` were taken.
pub record Takes {O T : Type 0} (fs : List (List ℕ × T)) (d d' : Draining O T) : Type 0 where
  pub out : d'.out ≡ d.out ++ segments fs
  pub frames : d'.frames ≡ d.frames + length fs
  pub bytes : d'.bytes ≡ d.bytes + total_bytes fs
  pub read : d'.device.segments_read ≡ d.device.segments_read + length (segments fs)
  pub non_ipv4 : d'.device.non_ipv4_frames ≡ d.device.non_ipv4_frames + foreigns fs
  pub unparseable : d'.device.unparseable ≡ d.device.unparseable + bads fs

module _ {O T : Type 0} where
  Takes-none : (d : Draining O T) → Takes [] d d
  Takes-none d = record {
    out = sym (append-nil d.out);
    frames = omega arith;
    bytes = omega arith;
    read = omega arith;
    non_ipv4 = omega arith;
    unparseable = omega arith;
  }

  -- A frame of any kind, and what is taken behind it.
  count_frame-out :
      (d : Draining O T) (k : Frame T) (l : List (Seg T))
      → (count_frame d k).out ++ l ≡ d.out ++ before (segment_in k) l
  count_frame-out d short l = refl
  count_frame-out d foreign l = refl
  count_frame-out d bad l = refl
  count_frame-out d (good s) l = append_assoc d.out (s ∷ []) l

  count_frame-counts :
      (d : Draining O T) (k : Frame T) (l : List (Seg T))
      → let u = d.device in
        let u' = (count_frame d k).device in
        ((count_frame d k).frames ≡ d.frames)
        × ((count_frame d k).bytes ≡ d.bytes)
        × (u'.segments_read + length l ≡ u.segments_read + length (before (segment_in k) l))
        × (u'.non_ipv4_frames ≡ u.non_ipv4_frames + one_if (says_foreign k))
        × (u'.unparseable ≡ u.unparseable + one_if (says_bad k))
  count_frame-counts d short l = (refl, refl, refl, omega arith, omega arith)
  count_frame-counts d foreign l = (refl, refl, refl, refl, omega arith)
  count_frame-counts d bad l = (refl, refl, refl, omega arith, refl)
  count_frame-counts d (good s) l = (refl, refl, omega arith, omega arith, omega arith)

  Takes-cons :
      (d d' : Draining O T) (buf : List ℕ) (t : T) (fs : List (List ℕ × T))
      → Takes fs (take_frame d buf t) d'
      → Takes ((buf, t) ∷ fs) d d'
  unfolding take_frame
  Takes-cons d d' buf t fs h =
      let d1 : Draining O T = record d { frames = d.frames + 1; bytes = d.bytes + length buf } in
      let c = count_frame-counts d1 (classify buf t) (segments fs) in
      let kind = classify-IsKind buf t in
      let same : before (segment_in (classify buf t)) (segments fs) ≡ segments ((buf, t) ∷ fs) =
        ap (λ s. before s (segments fs)) (sym kind.segment) in
      record {
        out = h.out ∙ count_frame-out d1 (classify buf t) (segments fs) ∙ ap (λ l. d.out ++ l) same;
        frames = omega (arith, h.frames, c);
        bytes = omega (arith, h.bytes, c);
        read = omega (arith, h.read, c, ap length same);
        non_ipv4 = omega (arith, h.non_ipv4, c, ap one_if kind.foreign);
        unparseable = omega (arith, h.unparseable, c, ap one_if kind.bad);
      }

  got_any-take_frame :
      (d : Draining O T) (buf : List ℕ) (t : T)
      → (take_frame d buf t).got_any ≡ (d.got_any || is_some (accepted buf t))
  unfolding take_frame
  got_any-take_frame d buf t =
      by_kind (classify buf t)
      ∙ ap (λ s. d.got_any || is_some s) (sym (classify-IsKind buf t).segment)
    where
      by_kind :
          (k : Frame T)
          → (count_frame
              (record d { frames = d.frames + 1; bytes = d.bytes + length buf })
              k).got_any
            ≡ (d.got_any || is_some (segment_in k))
      by_kind short = ground arith
      by_kind foreign = ground arith
      by_kind bad = ground arith
      by_kind (good s) = ground arith

  module _ (tm : Times T) where
    after_turn :
        (k : Turn T) (deadline : T) (d : Draining O T) (rest : List (Round T))
        → ((e : Draining O T)
            → Takes (taken tm deadline e.got_any rest) e (drain_loop tm deadline e rest).0)
        → let fs : List (List ℕ × T) = elim k [
          | leave ↦ []
          | go_on ↦ taken tm deadline d.got_any rest
          | got buf t ↦ (buf, t) ∷ taken tm deadline (d.got_any || is_some (accepted buf t)) rest
        ] in
          let done : Draining O T × List (Round T) × Bool = elim k [
            | leave ↦ (d, rest, true)
            | go_on ↦ drain_loop tm deadline d rest
            | got buf t ↦ drain_loop tm deadline (take_frame d buf t) rest
          ] in
          Takes fs d done.0
    after_turn leave deadline d rest h = Takes-none d
    after_turn go_on deadline d rest h = h d
    after_turn (got buf t) deadline d rest h =
        Takes-cons d _ buf t _ (rw (← got_any-take_frame d buf t) (h (take_frame d buf t)))

    drain_loop-Takes :
        (deadline : T) (d : Draining O T) (rounds : List (Round T))
        → Takes (taken tm deadline d.got_any rounds) d (drain_loop tm deadline d rounds).0
    unfolding drain_loop
    drain_loop-Takes deadline d [] = Takes-none d
    drain_loop-Takes deadline d (r ∷ rest) =
        after_turn (turn tm deadline d.got_any r) deadline d rest
          λ e. drain_loop-Takes deadline e rest

    -- The fields of the device that `drain` leaves alone are its own affair; the peaks are raised to
    -- the frames and bytes of this burst.
    pub record_peaks-counts :
        (d : Draining O T)
        → let e = record_peaks d in
          (e.out ≡ d.out)
          × (e.frames ≡ d.frames)
          × (e.bytes ≡ d.bytes)
          × (e.device.segments_read ≡ d.device.segments_read)
          × (e.device.non_ipv4_frames ≡ d.device.non_ipv4_frames)
          × (e.device.unparseable ≡ d.device.unparseable)
          × (d.frames ≤ e.device.peak_burst_frames)
          × (d.bytes ≤ e.device.peak_burst_bytes)
          × (d.device.peak_burst_frames ≤ e.device.peak_burst_frames)
          × (d.device.peak_burst_bytes ≤ e.device.peak_burst_bytes)
    unfolding record_peaks
    record_peaks-counts d = ground arith

    -- `drain` appends to `out` the segments of the frames that it takes, in their order, and counts
    -- each frame taken, its bytes, and its kind: a segment if `parse` accepts it, no IPv4 if it has
    -- four bytes and they are not the address family 2, and one that could not be parsed if they are
    -- and `parse` does not accept it. A shorter frame is of no kind.
    pub drain-Takes :
        (start timeout_ms : T) (u : Utun O) (out : List (Seg T)) (rounds : List (Round T))
        → let fs = taken tm (tm.add start timeout_ms) false rounds in
          let d = (drain tm start timeout_ms u out rounds).0 in
          (d.out ≡ out ++ segments fs)
          × (d.frames ≡ length fs)
          × (d.bytes ≡ total_bytes fs)
          × (d.device.segments_read ≡ u.segments_read + length (segments fs))
          × (d.device.non_ipv4_frames ≡ u.non_ipv4_frames + foreigns fs)
          × (d.device.unparseable ≡ u.unparseable + bads fs)
    unfolding drain
    drain-Takes start timeout_ms u out rounds =
        let fresh : Draining O T = record {
          device = u;
          frames = 0;
          bytes = 0;
          got_any = false;
          out = out;
        } in
        let loop = drain_loop tm (tm.add start timeout_ms) fresh rounds in
        let h = drain_loop-Takes (tm.add start timeout_ms) fresh rounds in
        let p = record_peaks-counts loop.0 in
        (
          ground (arith, h.out, p),
          ground (arith, h.frames, p),
          ground (arith, h.bytes, p),
          ground (arith, h.read, p),
          ground (arith, h.non_ipv4, p),
          ground (arith, h.unparseable, p),
        )
