-- ===== src/Reassembly.antt =====
-- include/tp/reassembly.hpp and src/reassembly.cpp: the receiver's view of the stream. A time is a
-- value of any type, since this class only stores times and hands them back.
pub mod Position
pub mod Ranges
pub mod Stream
pub mod Refine
pub mod Order
pub mod Runs
pub mod Advances
pub mod Timing
pub mod Sack
use tcp_probe.Prelude.{
  ℕ, zero, suc, ◌+◌, ◌-◌, Bool, true, false, not, List, [], ◌∷◌, ◌++◌, drop, length, ltb, ◌==◌,
  if◌then◌else◌,
}
use mathlib.Core.List.{reverse}
use tcp_probe.Word.{u32, sub32}
use tcp_probe.Segment.{SeqRange}
use tcp_probe.Seq.{seq_lt, seq_leq, seq_gt, seq_geq}

pub record Advance (T : Type 0) : Type 0 where
  pub frontier : ℕ
  pub t_ms : T

pub record Reassembly (T : Type 0) : Type 0 where
  pub rcv_nxt : ℕ
  pub isn : ℕ
  pub held : List SeqRange
  pub advances : List (Advance T)
  pub dups : ℕ
  pub ooo : ℕ

-- The "overlapping or adjacent" branch: `cur` grows over `r`.
unfoldable pub absorb : SeqRange → SeqRange → SeqRange
absorb cur r =
    let cur' : SeqRange =
      if seq_lt r.start cur.start then record cur { start = r.start } else cur in
    if seq_gt r.end cur'.end then record cur' { end = r.end } else cur'

-- The loop over `held_` that fills `merged`, with the push of `cur` behind it. Each `let` is a
-- branch, so that only the one that is taken runs.
unfoldable pub merge : SeqRange → Bool → List SeqRange → List SeqRange
merge cur placed [] = if placed then [] else cur ∷ []
merge cur placed (r ∷ rs) =
    let below = r ∷ merge cur placed rs in
    let above = if placed then r ∷ merge cur true rs else cur ∷ r ∷ merge cur true rs in
    let absorbed = merge (absorb cur r) placed rs in
    if seq_lt r.end cur.start then below else if seq_gt r.start cur.end then above else absorbed

-- The loop that drains the prefix that touches the frontier: the new frontier, and how many
-- ranges it has passed.
unfoldable pub drain : ℕ → ℕ → List SeqRange → ℕ × ℕ
drain nxt drained [] = (nxt, drained)
drain nxt drained (r ∷ rs) =
    let further = drain (if seq_gt r.end nxt then r.end else nxt) (drained + 1) rs in
    if seq_gt r.start nxt then (nxt, drained) else further

-- The assertion on `held_`: `std::is_sorted` by start.
unfoldable pub is_sorted : List SeqRange → Bool
is_sorted [] = true
is_sorted (a ∷ []) = true
is_sorted (a ∷ b ∷ rs) = if seq_lt b.start a.start then false else is_sorted (b ∷ rs)

-- What `accept` swaps into `held_` and asserts to be sorted.
abbrev pub merged : {T : Type 0} → Reassembly T → ℕ → ℕ → List SeqRange
merged s seq end =
    merge (record { start = if seq_lt seq s.rcv_nxt then s.rcv_nxt else seq; end = end }) false
      s.held

-- The loop of `sack_blocks` over `held_` from its end.
unfoldable pub sack_from : ℕ → List SeqRange → List SeqRange → List SeqRange
sack_from max out [] = out
sack_from max out (r ∷ rs) =
    let more = sack_from max (out ++ r ∷ []) rs in if ltb (length out) max then more else out

module _ {T : Type 0} where
  unfoldable pub create : ℕ → Reassembly T
  create isn = record { rcv_nxt = isn; isn = isn; held = []; advances = []; dups = 0; ooo = 0 }

  -- The part of `accept` behind the merge.
  unfoldable pub settle : Reassembly T → List SeqRange → T → Reassembly T × Bool
  settle s held t_ms =
      let (nxt, drained) = drain s.rcv_nxt 0 held in
      let moved = not (nxt == s.rcv_nxt) in
      let s' : Reassembly T = record s { rcv_nxt = nxt; held = drop drained held } in
      if moved
      then (
        record s' { advances = s.advances ++ record { frontier = nxt; t_ms = t_ms } ∷ [] },
        true,
      )
      else (record s' { ooo = s.ooo + 1 }, false)

  unfoldable pub accept : Reassembly T → ℕ → ℕ → T → Reassembly T × Bool
  accept s seq len t_ms =
      let end = u32 (seq + len) in
      if len == 0
      then (s, false)
      else if seq_leq end s.rcv_nxt
      then (record s { dups = s.dups + 1 }, false)
      else settle s (merged s seq end) t_ms

  unfoldable pub delivered : Reassembly T → ℕ
  delivered s = sub32 s.rcv_nxt s.isn

  unfoldable pub has_gap : Reassembly T → Bool
  has_gap s = elim s.held [ [] ↦ false | r ∷ rs ↦ true ]

  unfoldable pub sack_blocks : Reassembly T → ℕ → List SeqRange
  sack_blocks s max = sack_from max [] (reverse s.held)

  -- `minus_one` is the -1.0 of the source.
  unfoldable pub reached_in : T → List (Advance T) → ℕ → T
  reached_in minus_one [] seq = minus_one
  reached_in minus_one (a ∷ rest) seq =
      if seq_geq a.frontier seq then a.t_ms else reached_in minus_one rest seq

  unfoldable pub time_reached : T → Reassembly T → ℕ → T
  time_reached minus_one s seq = reached_in minus_one s.advances seq
