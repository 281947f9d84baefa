-- ===== src/Reassembly/Refine.antt =====
-- `Reassembly::accept` follows the view of the stream, on every branch.
use tcp_probe.Prelude.{
  ℕ, suc, ◌+◌, ◌^◌, ◌≤◌, ◌<◌, ◌≡◌, refl, arith, true, false, ◌&&◌, ◌||◌, List, [], ◌∷◌, map, length,
  length-append, ltb, leb, ◌==◌, if◌then◌else◌,
}
use tcp_probe.Word.{u32}
use tcp_probe.Seq.Order.{seq_lt-u32, seq_leq-u32}
use tcp_probe.Segment.{SeqRange}
use tcp_probe.Reassembly.{Advance, Reassembly, drain, merged, settle, accept, is_sorted}
use tcp_probe.Reassembly.Position.{
  wrap, drain_at, AllInside, merge-wrap, drain-wrap, drain_at-AllInside,
}
use tcp_probe.Reassembly.Ranges.{Ranges, drain_at-Ranges}
use tcp_probe.Reassembly.Stream.{
  View, received, IsCanonical, InWindow, Shows, merged_at, accept_at, accept_at-IsCanonical,
  received-accept_at, accept_at-InWindow, merged_at-AllInside, merged_at-Ranges,
}

pub first-accept_at : (v : View) (seq len : ℕ) → (accept_at v seq len).first ≡ v.first
unfolding accept_at
first-accept_at v seq len = ground arith

module _ {T : Type 0} where
  merged-wrap :
      (lo : ℕ) (v : View) (s : Reassembly T) (seq end : ℕ)
      → Shows v s
      → InWindow lo v
      → lo ≤ seq
      → lo ≤ end
      → seq < lo + 2 ^ 31
      → end < lo + 2 ^ 31
      → merged s (u32 seq) (u32 end) ≡ map wrap (merged_at v seq end)
  merged-wrap lo v s seq end sh w a b c d = ground (
    arith,
    seq_lt-u32 seq v.nxt,
    merge-wrap lo (record { start = if ltb seq v.nxt then v.nxt else seq; end = end }) false v.held,
  )

  settle-Shows :
      (lo : ℕ) (v : View) (s : Reassembly T) (rs : List SeqRange) (t_ms : T)
      → Shows v s
      → InWindow lo v
      → AllInside lo rs
      → v.nxt ≤ (drain_at v.nxt rs).0
      → Shows
          (record v { nxt = (drain_at v.nxt rs).0; held = (drain_at v.nxt rs).1 })
          (settle s (map wrap rs) t_ms).0
        × ((settle s (map wrap rs) t_ms).1 ≡ ltb v.nxt (drain_at v.nxt rs).0)
  unfolding settle
  settle-Shows lo v s rs t_ms sh w h fwd = ground (
    arith,
    drain-wrap lo v.nxt 0 (map wrap rs) rs w.from w.to h refl,
    drain_at-AllInside lo v.nxt rs,
  )

  -- The object after `accept`, and what `accept` returns, are those of the view.
  pub accept-Shows :
      (lo : ℕ) (v : View) (s : Reassembly T) (seq len : ℕ) (t_ms : T)
      → Shows v s
      → IsCanonical v
      → InWindow lo v
      → lo ≤ seq
      → seq + len < lo + 2 ^ 31
      → Shows (accept_at v seq len) (accept s (u32 seq) len t_ms).0
        × ((accept s (u32 seq) len t_ms).1 ≡ ltb v.nxt (accept_at v seq len).nxt)
  unfolding accept accept_at
  accept-Shows lo v s seq len t_ms sh c w a b =
      let end_wraps : u32 (u32 seq + len) ≡ u32 (seq + len) = omega arith in
      ground (
        arith,
        end_wraps,
        seq_leq-u32 (seq + len) v.nxt,
        merged-wrap lo v s seq (seq + len),
        merged_at-AllInside lo v seq len,
        merged_at-Ranges v seq (seq + len),
        drain_at-Ranges v.nxt (merged_at v seq (seq + len)),
        settle-Shows lo v s (merged_at v seq (seq + len)) t_ms,
      )

  -- Inside a window of half the sequence space, `accept` of a segment takes an object that shows a
  -- canonical view of the stream to one that shows a canonical view again, from the same first
  -- byte. The new view has received exactly the old positions and those of the segment, its
  -- frontier has not gone back, and `accept` returns true exactly if the frontier has moved.
  pub accept-refines :
      (lo : ℕ) (v : View) (s : Reassembly T) (seq len : ℕ) (t_ms : T)
      → Shows v s
      → IsCanonical v
      → InWindow lo v
      → lo ≤ seq
      → seq + len < lo + 2 ^ 31
      → (v' : View) × Shows v' (accept s (u32 seq) len t_ms).0
        × IsCanonical v'
        × InWindow lo v'
        × (v'.first ≡ v.first)
        × (v.nxt ≤ v'.nxt)
        × ((p : ℕ) → received v' p ≡ (received v p || (leb seq p && ltb p (seq + len))))
        × ((accept s (u32 seq) len t_ms).1 ≡ ltb v.nxt v'.nxt)
  accept-refines lo v s seq len t_ms sh c w a b =
      let step = accept-Shows lo v s seq len t_ms sh c w a b in
      let kept = accept_at-IsCanonical v seq len c in
      (
        accept_at v seq len,
        step.0,
        kept.0,
        accept_at-InWindow lo v seq len c w a b,
        first-accept_at v seq len,
        kept.1,
        λ p. received-accept_at v seq len p c,
        step.1,
      )

is_sorted-wrap :
    (lo n : ℕ) (rs : List SeqRange) → Ranges n rs → AllInside lo rs → is_sorted (map wrap rs) ≡ true
unfolding is_sorted
is_sorted-wrap lo n [] v h = refl
is_sorted-wrap lo n (a ∷ []) v h = refl
is_sorted-wrap lo n (a ∷ b ∷ rs) v h =
    ground (arith, seq_lt-u32 b.start a.start, is_sorted-wrap lo (suc a.end) (b ∷ rs))

module _ {T : Type 0} where
  -- Where `accept` comes to merge a segment with data that lies within the half of the sequence
  -- space that the view lies in, and ends beyond the frontier, the assertion that `held_` is
  -- sorted holds.
  pub merged-is_sorted :
      (lo : ℕ) (v : View) (s : Reassembly T) (seq len : ℕ)
      → Shows v s
      → IsCanonical v
      → InWindow lo v
      → lo ≤ seq
      → seq + len < lo + 2 ^ 31
      → 0 < len
      → v.nxt < seq + len
      → is_sorted (merged s (u32 seq) (u32 (seq + len))) ≡ true
  merged-is_sorted lo v s seq len sh c w a b pos beyond =
      rw (merged-wrap lo v s seq (seq + len) sh w a (omega arith) (omega arith) b) (
        is_sorted-wrap lo v.nxt (merged_at v seq (seq + len))
          (merged_at-Ranges v seq (seq + len) (omega arith) beyond c)
          (merged_at-AllInside lo v seq len w a b))

  -- Each segment with data is counted exactly once: as a duplicate, as out of order, or, exactly when
  -- `accept` returns true, as an advance. One without data is not counted.
  pub accept-counts :
      (s : Reassembly T) (seq len : ℕ) (t_ms : T)
      → let (s', moved) = accept s seq len t_ms in
        (s'.dups + s'.ooo + length s'.advances
          ≡ s.dups + s.ooo + length s.advances + (if len == 0 then 0 else 1))
        × (length s'.advances ≡ length s.advances + (if moved then 1 else 0))
  unfolding accept settle
  accept-counts s seq len t_ms =
      let held = merged s seq (u32 (seq + len)) in
      let a : Advance T = record { frontier = (drain s.rcv_nxt 0 held).0; t_ms = t_ms } in
      let more = length-append s.advances (a ∷ []) in (ground (arith, more), ground (arith, more))
