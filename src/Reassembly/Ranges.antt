-- ===== src/Reassembly/Ranges.antt =====
-- Sorted lists of ranges that neither overlap nor touch, and the set of positions they cover.
use tcp_probe.Prelude.{
  ℕ, suc, ◌≤◌, ◌<◌, ◌≡◌, refl, arith, Bool, true, false, ◌&&◌, ◌||◌, List, [], ◌∷◌, ltb, leb,
}
use tcp_probe.Segment.{SeqRange}
use tcp_probe.Reassembly.Position.{absorb_at, merge_at, drain_at}

-- Ranges from `lo` on, each nonempty and strictly beyond the end of the one before.
abbrev pub Ranges : ℕ → List SeqRange → Type 0
Ranges lo [] = Unit
Ranges lo (r ∷ rs) = (lo ≤ r.start) × (r.start < r.end) × Ranges (suc r.end) rs

abbrev pub within : SeqRange → ℕ → Bool
within r p = leb r.start p && ltb p r.end

abbrev pub covered : List SeqRange → ℕ → Bool
covered [] p = false
covered (r ∷ rs) p = within r p || covered rs p

pub Ranges-weaken : (lo lo' : ℕ) (rs : List SeqRange) → lo' ≤ lo → Ranges lo rs → Ranges lo' rs
Ranges-weaken lo lo' [] h v = tt
Ranges-weaken lo lo' (r ∷ rs) h v = (omega arith, v.1, v.2)

-- Below the first range nothing is covered.
pub covered-below : (lo p : ℕ) (rs : List SeqRange) → Ranges lo rs → p < lo → covered rs p ≡ false
covered-below lo p [] v h = refl
covered-below lo p (r ∷ rs) v h = ground (arith, covered-below (suc r.end) p rs)

-- Once `cur` is placed and lies below all that follows, the loop copies the rest.
merge_at-placed :
    (cur : SeqRange) (lo : ℕ) (rs : List SeqRange)
    → cur.start ≤ cur.end
    → cur.end < lo
    → Ranges lo rs
    → merge_at cur true rs ≡ rs
unfolding merge_at
merge_at-placed cur lo [] c h v = refl
merge_at-placed cur lo (r ∷ rs) c h v = ground (arith, merge_at-placed cur (suc r.end) rs c)

-- The merged ranges are sorted and apart again.
pub merge_at-Ranges :
    (cur : SeqRange) (lo : ℕ) (rs : List SeqRange)
    → lo ≤ cur.start
    → cur.start < cur.end
    → Ranges lo rs
    → Ranges lo (merge_at cur false rs)
unfolding merge_at
merge_at-Ranges cur lo [] h c v = (h, c, tt)
merge_at-Ranges cur lo (r ∷ rs) h c v = ground (
  arith,
  merge_at-Ranges cur (suc r.end) rs,
  merge_at-placed cur (suc r.end) rs,
  merge_at-Ranges (absorb_at cur r) lo rs,
  Ranges-weaken (suc r.end) lo rs,
)

-- They cover what was covered, and `cur`.
pub covered-merge_at :
    (cur : SeqRange) (lo p : ℕ) (rs : List SeqRange)
    → lo ≤ cur.start
    → cur.start < cur.end
    → Ranges lo rs
    → covered (merge_at cur false rs) p ≡ (within cur p || covered rs p)
unfolding merge_at
covered-merge_at cur lo p [] h c v = refl
covered-merge_at cur lo p (r ∷ rs) h c v = ground (
  arith,
  covered-merge_at cur (suc r.end) p rs,
  merge_at-placed cur (suc r.end) rs,
  covered-merge_at (absorb_at cur r) lo p rs,
  Ranges-weaken (suc r.end) lo rs,
)

-- The drain leaves ranges strictly beyond the frontier, which does not go back, and what lies
-- below the frontier or in a range is the same before and after.
pub drain_at-Ranges :
    (nxt : ℕ) (rs : List SeqRange)
    → Ranges nxt rs
    → (nxt ≤ (drain_at nxt rs).0) × Ranges (suc (drain_at nxt rs).0) (drain_at nxt rs).1
unfolding drain_at
drain_at-Ranges nxt [] v = (omega arith, tt)
drain_at-Ranges nxt (r ∷ rs) v =
    ground (arith, drain_at-Ranges r.end rs, Ranges-weaken (suc r.end) r.end rs)

pub covered-drain_at :
    (nxt p : ℕ) (rs : List SeqRange)
    → Ranges nxt rs
    → (ltb p (drain_at nxt rs).0 || covered (drain_at nxt rs).1 p) ≡ (ltb p nxt || covered rs p)
unfolding drain_at
covered-drain_at nxt p [] v = refl
covered-drain_at nxt p (r ∷ rs) v =
    ground (arith, covered-drain_at r.end p rs, Ranges-weaken (suc r.end) r.end rs)
