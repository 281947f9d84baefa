-- ===== src/Reassembly/Position.antt =====
-- The loops of reassembly.cpp over positions of an unbounded stream, with plain comparisons, and
-- the proof that the 32-bit loops follow them inside a window of half the sequence space.
use tcp_probe.Prelude.{
  ℕ, ◌+◌, ◌^◌, ◌≤◌, ◌<◌, ◌≡◌, refl, sym, ap, ◌∙◌, drop, drop-drop, refl, arith, Bool, true, false,
  List, [], ◌∷◌, map, ltb, if◌then◌else◌,
}
use tcp_probe.Word.{u32}
use tcp_probe.Seq.Order.{seq_lt-u32, seq_gt-u32}
use tcp_probe.Segment.{SeqRange}
use tcp_probe.Reassembly.{absorb, merge, drain}

abbrev pub wrap : SeqRange → SeqRange
wrap r = record { start = u32 r.start; end = u32 r.end }

abbrev pub absorb_at : SeqRange → SeqRange → SeqRange
absorb_at cur r = record {
  start = if ltb r.start cur.start then r.start else cur.start;
  end = if ltb cur.end r.end then r.end else cur.end;
}

unfoldable pub merge_at : SeqRange → Bool → List SeqRange → List SeqRange
merge_at cur placed [] = if placed then [] else cur ∷ []
merge_at cur placed (r ∷ rs) =
    let below = r ∷ merge_at cur placed rs in
    let above = if placed then r ∷ merge_at cur true rs else cur ∷ r ∷ merge_at cur true rs in
    let absorbed = merge_at (absorb_at cur r) placed rs in
    if ltb r.end cur.start then below else if ltb cur.end r.start then above else absorbed

-- The frontier after the drain, and the ranges that are left.
unfoldable pub drain_at : ℕ → List SeqRange → ℕ × List SeqRange
drain_at nxt [] = (nxt, [])
drain_at nxt (r ∷ rs) =
    let further = drain_at (if ltb nxt r.end then r.end else nxt) rs in
    if ltb nxt r.start then (nxt, r ∷ rs) else further

-- A range lies in the window of half the sequence space from `lo` on.
abbrev pub Inside : ℕ → SeqRange → Type 0
Inside lo r = (lo ≤ r.start) × (r.start < lo + 2 ^ 31) × (lo ≤ r.end) × (r.end < lo + 2 ^ 31)

abbrev pub AllInside : ℕ → List SeqRange → Type 0
AllInside lo [] = Unit
AllInside lo (r ∷ rs) = Inside lo r × AllInside lo rs

absorb-wrap :
    (lo : ℕ) (cur r : SeqRange)
    → Inside lo cur
    → Inside lo r
    → absorb (wrap cur) (wrap r) ≡ wrap (absorb_at cur r)
unfolding absorb
absorb-wrap lo cur r hc hr = ground (arith, seq_lt-u32 r.start cur.start, seq_gt-u32 r.end cur.end)

pub merge-wrap :
    (lo : ℕ) (cur : SeqRange) (placed : Bool) (rs : List SeqRange)
    → Inside lo cur
    → AllInside lo rs
    → merge (wrap cur) placed (map wrap rs) ≡ map wrap (merge_at cur placed rs)
unfolding merge merge_at
merge-wrap lo cur true [] hc h = refl
merge-wrap lo cur false [] hc h = refl
merge-wrap lo cur placed (r ∷ rs) hc h = ground (
  arith,
  seq_lt-u32 r.end cur.start,
  seq_gt-u32 r.start cur.end,
  absorb-wrap lo cur r,
  merge-wrap lo cur placed rs,
  merge-wrap lo cur true rs,
  merge-wrap lo (absorb_at cur r) placed rs,
)

drop-next :
    (d : ℕ) (xs : List SeqRange) (r : SeqRange) (rs : List SeqRange)
    → drop d xs ≡ r ∷ rs
    → drop (d + 1) xs ≡ rs
drop-next d xs r rs e = sym (drop-drop 1 d xs) ∙ ap (drop 1) e

-- `xs` is the whole of `held_`, of which `rs` is what the loop has not yet passed.
pub drain-wrap :
    (lo nxt d : ℕ) (xs rs : List SeqRange)
    → lo ≤ nxt
    → nxt < lo + 2 ^ 31
    → AllInside lo rs
    → drop d xs ≡ map wrap rs
    → ((drain (u32 nxt) d (map wrap rs)).0 ≡ u32 (drain_at nxt rs).0)
      × (drop (drain (u32 nxt) d (map wrap rs)).1 xs ≡ map wrap (drain_at nxt rs).1)
unfolding drain drain_at
drain-wrap lo nxt d xs [] p q h e = (refl, e)
drain-wrap lo nxt d xs (r ∷ rs) p q h e = ground (
  arith,
  seq_gt-u32 r.start nxt,
  seq_gt-u32 r.end nxt,
  drop-next d xs (wrap r) (map wrap rs) e,
  drain-wrap lo nxt (d + 1) xs rs,
  drain-wrap lo r.end (d + 1) xs rs,
)

-- The loops stay inside the window.
pub merge_at-AllInside :
    (lo : ℕ) (cur : SeqRange) (placed : Bool) (rs : List SeqRange)
    → Inside lo cur
    → AllInside lo rs
    → AllInside lo (merge_at cur placed rs)
unfolding merge_at
merge_at-AllInside lo cur true [] hc h = tt
merge_at-AllInside lo cur false [] hc h = (hc, tt)
merge_at-AllInside lo cur placed (r ∷ rs) hc h = ground (
  arith,
  merge_at-AllInside lo cur placed rs,
  merge_at-AllInside lo cur true rs,
  merge_at-AllInside lo (absorb_at cur r) placed rs,
)

pub drain_at-AllInside :
    (lo nxt : ℕ) (rs : List SeqRange)
    → nxt < lo + 2 ^ 31
    → AllInside lo rs
    → ((drain_at nxt rs).0 < lo + 2 ^ 31) × AllInside lo (drain_at nxt rs).1
unfolding drain_at
drain_at-AllInside lo nxt [] p h = (p, tt)
drain_at-AllInside lo nxt (r ∷ rs) p h =
    ground (arith, drain_at-AllInside lo nxt rs, drain_at-AllInside lo r.end rs)
