-- ===== src/Tests/Arrivals.antt =====
-- Reassembly of a stream whose sequence numbers wrap after four bytes.
use tcp_probe.Prelude.{
  ℕ, ◌+◌, ◌-◌, ◌^◌, ◌≤◌, ◌≡◌, refl, arith, Bool, true, ◌&&◌, ◌||◌, List, [], ◌∷◌, length, take, ltb,
  leb, ◌==◌, if◌then◌else◌,
}
use mathlib.Core.List.{reverse}
use tcp_probe.Word.{u32}
use tcp_probe.Seq.{seq_lt, seq_leq, seq_gt}
use tcp_probe.Reassembly.{
  Reassembly, create, accept, settle, merge, absorb, drain, is_sorted, merged, delivered,
  sack_blocks, time_reached,
}
use tcp_probe.Reassembly.Stream.{View, received, IsCanonical, InWindow, Shows}
use tcp_probe.Reassembly.Refine.{accept-refines, merged-is_sorted, accept-counts}
use tcp_probe.Reassembly.Runs.{
  Arrival, carried, accept_all, accept_all-order_irrelevant, delivered_lem,
}
use tcp_probe.Reassembly.Timing.{run_of, time_reached_lem}
use tcp_probe.Reassembly.Sack.{sack_blocks_lem}

abbrev first : ℕ
first = 2 ^ 32 - 4

-- The segment of `n` bytes that starts `k` bytes into the stream, at time `t`.
abbrev arrival : ℕ → ℕ → ℕ → Arrival ℕ
arrival k n t = record { seq = first + k; len = n; t_ms = t }

abbrev in_order : List (Arrival ℕ)
in_order = arrival 0 3 10 ∷ arrival 3 3 11 ∷ arrival 8 2 12 ∷ []

-- The same bytes carved otherwise, the middle first and one of them twice.
abbrev shuffled : List (Arrival ℕ)
shuffled = arrival 9 1 20 ∷ arrival 1 5 21 ∷ arrival 8 2 22 ∷ arrival 0 2 23 ∷ []

abbrev end_of : List (Arrival ℕ) → Reassembly ℕ
end_of arr = accept_all (create (u32 first)) arr

-- The frontier has passed the wrap, and two bytes are held.
shuffled_nxt : (end_of shuffled).rcv_nxt ≡ 2
unfolding create accept settle merge absorb drain seq_lt seq_leq seq_gt
shuffled_nxt = refl

shuffled_held : (end_of shuffled).held ≡ record { start = 4; end = 6 } ∷ []
unfolding create accept settle merge absorb drain seq_lt seq_leq seq_gt
shuffled_held = refl

delivered-shuffled : delivered (end_of shuffled) ≡ 6
unfolding delivered create accept settle merge absorb drain seq_lt seq_leq seq_gt
delivered-shuffled = refl

accept_all-order_irrelevant_example :
    ((end_of in_order).rcv_nxt ≡ (end_of shuffled).rcv_nxt)
    × ((end_of in_order).held ≡ (end_of shuffled).held)
accept_all-order_irrelevant_example =
    accept_all-order_irrelevant first first in_order shuffled (omega arith) (omega arith)
      (omega arith) (omega arith) λ p h. ground arith

delivered_lem_example :
    carried shuffled (first + 5) ≡ ltb (first + 5) (first + delivered (end_of shuffled))
delivered_lem_example =
    delivered_lem first first shuffled (first + 5) (omega arith) (omega arith) (omega arith)
      (omega arith) (omega (arith, delivered-shuffled))

-- A receiver with a hole of two bytes before the wrap.
abbrev holding : View
holding = record {
  first = first;
  nxt = first + 3;
  held = record { start = first + 5; end = first + 7 } ∷ [];
}

abbrev receiver : Reassembly ℕ
receiver = record {
  rcv_nxt = 2 ^ 32 - 1;
  isn = 2 ^ 32 - 4;
  held = record { start = 1; end = 3 } ∷ [];
  advances = record { frontier = 2 ^ 32 - 1; t_ms = 7 } ∷ [];
  dups = 0;
  ooo = 1;
}

holding-Shows : Shows holding receiver
holding-Shows = record { nxt = refl; first = refl; held = refl }

holding-InWindow : InWindow first holding
holding-InWindow = record { from = omega arith; to = omega arith; inside = omega arith }

-- The segment that fills the hole.
abbrev filled : Reassembly ℕ × Bool
filled = accept receiver (u32 (first + 2)) 3 9

accept-refines_example :
    (v' : View) × Shows v' filled.0
    × IsCanonical v'
    × InWindow first v'
    × (v'.first ≡ first)
    × (first + 3 ≤ v'.nxt)
    × ((p : ℕ)
        → received v' p ≡ (received holding p || (leb (first + 2) p && ltb p (first + 2 + 3))))
    × (filled.1 ≡ ltb (first + 3) v'.nxt)
accept-refines_example =
    accept-refines first holding receiver (first + 2) 3 9 holding-Shows (omega arith)
      holding-InWindow (omega arith) (omega arith)

merged-is_sorted_example :
    is_sorted (merged receiver (u32 (first + 2)) (u32 (first + 2 + 3))) ≡ true
merged-is_sorted_example =
    merged-is_sorted first holding receiver (first + 2) 3 holding-Shows (omega arith)
      holding-InWindow (omega arith) (omega arith) (omega arith) (omega arith)

accept-counts_example :
    (filled.0.dups + filled.0.ooo + length filled.0.advances
      ≡ receiver.dups + receiver.ooo + length receiver.advances + (if 3 == 0 then 0 else 1))
    × (length filled.0.advances ≡ length receiver.advances + (if filled.1 then 1 else 0))
accept-counts_example = accept-counts receiver (u32 (first + 2)) 3 9

-- The segment at `k` 0 takes the frontier over the byte that arrived earlier.
time_reached_lem_example :
    time_reached 0 (run_of first (arrival 1 5 21 ∷ arrival 0 2 23 ∷ [])) (u32 (first + 5)) ≡ 23
time_reached_lem_example =
    time_reached_lem 0 first first (first + 5) (arrival 1 5 21 ∷ []) (arrival 0 2 23) []
      (omega arith) (omega arith) (omega arith) (omega arith) (omega arith)
      (unfold delivered create accept settle merge absorb drain seq_lt seq_leq seq_gt in
        omega arith)
      (unfold delivered create accept settle merge absorb drain seq_lt seq_leq seq_gt in
        omega arith)

sack_blocks_lem_example :
    (sack_blocks receiver 4 ≡ take 4 (reverse receiver.held))
    × (length (sack_blocks receiver 4) ≤ 4)
sack_blocks_lem_example = sack_blocks_lem receiver 4
