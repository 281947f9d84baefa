-- ===== src/Reassembly/Stream.antt =====
-- `Reassembly` refines the set of the stream's positions that have been received.
use tcp_probe.Prelude.{
  ℕ, suc, ◌+◌, ◌^◌, ◌≤◌, ◌<◌, ◌≡◌, arith, Bool, false, ◌&&◌, ◌||◌, List, map, ltb, leb, ◌==◌,
  if◌then◌else◌,
}
use tcp_probe.Word.{u32}
use tcp_probe.Segment.{SeqRange}
use tcp_probe.Reassembly.{Reassembly}
use tcp_probe.Reassembly.Position.{
  wrap, merge_at, drain_at, AllInside, merge_at-AllInside, drain_at-AllInside,
}
use tcp_probe.Reassembly.Ranges.{
  Ranges, covered, Ranges-weaken, merge_at-Ranges, covered-merge_at, drain_at-Ranges,
  covered-drain_at,
}

-- The receiver's state in positions of an unbounded stream.
pub record View : Type 0 where
  pub first : ℕ
  pub nxt : ℕ
  pub held : List SeqRange

-- The positions that the receiver has: those below the frontier and those held.
abbrev pub received : View → ℕ → Bool
received v p = ltb p v.nxt || covered v.held p

-- The held ranges lie strictly beyond the frontier, are nonempty, sorted, and apart.
abbrev pub IsCanonical : View → Type 0
IsCanonical v = Ranges (suc v.nxt) v.held

-- All positions of the view lie in the half of the sequence space from `lo` on.
pub record InWindow (lo : ℕ) (v : View) : Type 0 where
  pub from : lo ≤ v.nxt
  pub to : v.nxt < lo + 2 ^ 31
  pub inside : AllInside lo v.held

-- The object holds the view, reduced to 32 bits.
pub record Shows {T : Type 0} (v : View) (s : Reassembly T) : Type 0 where
  pub nxt : s.rcv_nxt ≡ u32 v.nxt
  pub first : s.isn ≡ u32 v.first
  pub held : s.held ≡ map wrap v.held

-- The merge of a trimmed segment.
abbrev pub merged_at : View → ℕ → ℕ → List SeqRange
merged_at v seq end =
    merge_at (record { start = if ltb seq v.nxt then v.nxt else seq; end = end }) false v.held

pub merged_at-Ranges :
    (v : View) (seq end : ℕ)
    → seq < end
    → v.nxt < end
    → IsCanonical v
    → Ranges v.nxt (merged_at v seq end)
merged_at-Ranges v seq end h k c = ground (
  arith,
  Ranges-weaken (suc v.nxt) v.nxt v.held,
  merge_at-Ranges (record { start = v.nxt; end = end }) v.nxt v.held,
  merge_at-Ranges (record { start = seq; end = end }) v.nxt v.held,
)

covered-merged_at :
    (v : View) (seq end p : ℕ)
    → seq < end
    → v.nxt < end
    → IsCanonical v
    → (ltb p v.nxt || covered (merged_at v seq end) p) ≡ (received v p || (leb seq p && ltb p end))
covered-merged_at v seq end p h k c = ground (
  arith,
  Ranges-weaken (suc v.nxt) v.nxt v.held,
  covered-merge_at (record { start = v.nxt; end = end }) v.nxt p v.held,
  covered-merge_at (record { start = seq; end = end }) v.nxt p v.held,
)

-- `accept` over positions.
unfoldable pub accept_at : View → ℕ → ℕ → View
accept_at v seq len =
    let done = drain_at v.nxt (merged_at v seq (seq + len)) in
    let fresh : View = record v { nxt = done.0; held = done.1 } in
    if len == 0 then v else if leb (seq + len) v.nxt then v else fresh

-- Acceptance keeps the ranges canonical and never moves the frontier back.
pub accept_at-IsCanonical :
    (v : View) (seq len : ℕ)
    → IsCanonical v
    → IsCanonical (accept_at v seq len) × (v.nxt ≤ (accept_at v seq len).nxt)
unfolding accept_at
accept_at-IsCanonical v seq len c =
    ground (
      arith,
      merged_at-Ranges v seq (seq + len),
      drain_at-Ranges v.nxt (merged_at v seq (seq + len)),
    )

-- Acceptance adds exactly the segment's positions.
pub received-accept_at :
    (v : View) (seq len p : ℕ)
    → IsCanonical v
    → received (accept_at v seq len) p ≡ (received v p || (leb seq p && ltb p (seq + len)))
unfolding accept_at
received-accept_at v seq len p c = ground (
  arith,
  merged_at-Ranges v seq (seq + len),
  covered-merged_at v seq (seq + len) p,
  covered-drain_at v.nxt p (merged_at v seq (seq + len)),
)

pub merged_at-AllInside :
    (lo : ℕ) (v : View) (seq len : ℕ)
    → InWindow lo v
    → lo ≤ seq
    → seq + len < lo + 2 ^ 31
    → AllInside lo (merged_at v seq (seq + len))
merged_at-AllInside lo v seq len w h k =
    merge_at-AllInside lo (record { start = if ltb seq v.nxt then v.nxt else seq; end = seq + len })
      false v.held (ground arith) w.inside

pub accept_at-InWindow :
    (lo : ℕ) (v : View) (seq len : ℕ)
    → IsCanonical v
    → InWindow lo v
    → lo ≤ seq
    → seq + len < lo + 2 ^ 31
    → InWindow lo (accept_at v seq len)
unfolding accept_at
accept_at-InWindow lo v seq len c w h k = ground (
  arith,
  merged_at-Ranges v seq (seq + len),
  drain_at-Ranges v.nxt (merged_at v seq (seq + len)),
  merged_at-AllInside lo v seq len,
  drain_at-AllInside lo v.nxt (merged_at v seq (seq + len)),
)
