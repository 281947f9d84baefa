-- ===== src/Utun/Drain.antt =====
-- src/utun.cpp: drain and drain_for, the reading side of the device. What the system does is a
-- sequence of rounds of the loop; a run over a finite sequence either returns, or is still in its
-- loop when the sequence ends. Each of the counters is a 64-bit number that the program only counts
-- up by a frame's size, so a number stands for it.
use tcp_probe.Prelude.{
  ℕ, ◌+◌, Bool, true, false, not, Option, none, some, List, [], ◌∷◌, ◌++◌, length, ltb, ◌==◌,
  if◌then◌else◌,
}
use tcp_probe.Segment.{Seg, no_options}
use tcp_probe.Packet.{Read, ok, reject, fault, af_inet, get32, parse}
use tcp_probe.Utun.{Utun}
use tcp_probe.Clock.{Times}

-- What `read` gives: a frame with the clock behind it, EINTR or EAGAIN, or another error.
pub data Reading (T : Type 0) : Type 0 where
  frame : List ℕ → T → Reading T
  again broken : Reading T

-- What `poll` gives; a readable descriptor comes with what `read` then gives.
pub data Polled (T : Type 0) : Type 0 where
  readable : Reading T → Polled T
  idle interrupted unusable : Polled T

-- One round: the clock where the loop reads it, and the answer of `poll` to a wait in milliseconds.
pub record Round (T : Type 0) : Type 0 where
  pub now : T
  pub poll : ℕ → Polled T

-- One slice of `drain_for`: the clock of its test, that at the start of its `drain`, and the rounds.
pub record Slice (T : Type 0) : Type 0 where
  pub now : T
  pub start : T
  pub rounds : List (Round T)

-- The device, the tally of this burst, `got_any` and `*out`.
pub record Draining (O T : Type 0) : Type 0 where
  pub device : Utun O
  pub frames : ℕ
  pub bytes : ℕ
  pub got_any : Bool
  pub out : List (Seg T)

-- `Seg{}` with the stamp of the frame.
abbrev pub stamped : {T : Type 0} → T → Seg T
stamped t = record {
  seq = 0;
  ack = 0;
  flags = 0;
  win = 0;
  sport = 0;
  dport = 0;
  payload = [];
  opt = no_options;
  t_ms = t;
}

-- What a frame is to `drain`.
pub data Frame (T : Type 0) : Type 0 where
  short foreign bad : Frame T
  good : Seg T → Frame T

-- `parse` never faults (`Packet.Safe.parse-IsSafe`).
abbrev pub frame_of : {T : Type 0} → Read (Seg T) → Frame T
frame_of (ok s) = good s
frame_of reject = bad
frame_of fault = bad

-- The address family of a frame of at least four bytes.
abbrev pub is_ipv4 : List ℕ → Bool
is_ipv4 buf = elim (get32 buf 0) [ ok af ↦ af == af_inet | reject ↦ false | fault ↦ false ]

unfoldable pub classify : {T : Type 0} → List ℕ → T → Frame T
classify buf t =
    if ltb (length buf) 4
    then short
    else if not (is_ipv4 buf)
    then foreign
    else frame_of (parse buf (stamped t))

-- What a round does: it leaves the loop, goes on without a frame, or takes one.
pub data Turn (T : Type 0) : Type 0 where
  leave go_on : Turn T
  got : List ℕ → T → Turn T

abbrev pub turn_of : {T : Type 0} → Polled T → Turn T
turn_of (readable (frame buf t)) = got buf t
turn_of (readable again) = go_on
turn_of (readable broken) = leave
turn_of idle = leave
turn_of interrupted = go_on
turn_of unusable = leave

module _ {T : Type 0} (tm : Times T) where
  -- May the loop poll, and how long? With a segment in hand it does not wait.
  abbrev pub wait_of : T → Bool → T → Option ℕ
  wait_of deadline got_any now =
      let left = tm.sub deadline now in
      if got_any
      then some 0
      else if tm.leb_T left tm.zero_T
      then none
      else some (tm.to_int left + 1)

  unfoldable pub turn : T → Bool → Round T → Turn T
  turn deadline got_any r = elim (wait_of deadline got_any r.now) [
    | none ↦ leave
    | some wait ↦ turn_of (r.poll wait)
  ]

module _ {O T : Type 0} where
  -- What each kind of frame changes.
  abbrev pub count_frame : Draining O T → Frame T → Draining O T
  count_frame d short = d
  count_frame d foreign = record d {
    device = record (d.device) { non_ipv4_frames = d.device.non_ipv4_frames + 1 };
  }
  count_frame d bad = record d {
    device = record (d.device) { unparseable = d.device.unparseable + 1 };
  }
  count_frame d (good s) = record d {
    device = record (d.device) { segments_read = d.device.segments_read + 1 };
    out = d.out ++ s ∷ [];
    got_any = true;
  }

  -- The part of a round behind a successful `read`.
  unfoldable pub take_frame : Draining O T → List ℕ → T → Draining O T
  take_frame d buf t =
      count_frame (record d { frames = d.frames + 1; bytes = d.bytes + length buf })
        (classify buf t)

  -- The destructor of the tally, on every way out of the loop.
  unfoldable pub record_peaks : Draining O T → Draining O T
  record_peaks d =
      let u = d.device in
      record d {
        device = record u {
          peak_burst_frames =
              if ltb u.peak_burst_frames d.frames then d.frames else u.peak_burst_frames;
          peak_burst_bytes = if ltb u.peak_burst_bytes d.bytes then d.bytes else u.peak_burst_bytes;
        };
      }

  module _ (tm : Times T) where
    -- The loop: where it ends, the rounds that are left, and whether it has returned.
    unfoldable pub drain_loop :
        T → Draining O T → List (Round T) → Draining O T × List (Round T) × Bool
    drain_loop deadline d [] = (d, [], false)
    drain_loop deadline d (r ∷ rest) = elim (turn tm deadline d.got_any r) [
      | leave ↦ (d, rest, true)
      | go_on ↦ drain_loop deadline d rest
      | got buf t ↦ drain_loop deadline (take_frame d buf t) rest
    ]

    -- `drain`, at the clock `start`.
    unfoldable pub drain :
        T → T → Utun O → List (Seg T) → List (Round T) → Draining O T × List (Round T) × Bool
    drain start timeout_ms u out rounds =
        let fresh : Draining O T = record {
          device = u;
          frames = 0;
          bytes = 0;
          got_any = false;
          out = out;
        } in
        let (d, rest, returned) = drain_loop (tm.add start timeout_ms) fresh rounds in
        (if returned then record_peaks d else d, rest, returned)

    -- `drain_for` over its slices: the device, what it has collected, and whether it has returned.
    unfoldable pub collect :
        T → Utun O → List (Seg T) → List (Slice T) → Utun O × List (Seg T) × Bool
    collect deadline u out [] = (u, out, false)
    collect deadline u out (s ∷ rest) =
        let left = tm.sub deadline s.now in
        let (d, unused, returned) = drain s.start left u out s.rounds in
        let more = collect deadline d.device d.out rest in
        if tm.leb_T left tm.zero_T
        then (u, out, true)
        else if returned
        then more
        else (d.device, d.out, false)

    unfoldable pub drain_for :
        T → T → Utun O → List (Seg T) → List (Slice T) → Utun O × List (Seg T) × Bool
    drain_for start duration_ms u out slices = collect (tm.add start duration_ms) u out slices
