-- ===== src/Policy.antt =====
-- include/tp/policy.hpp and src/policy.cpp: the segments that the peer pretends not to have received.
-- `times` and `fired` are `int`s that the program only sets, compares and counts up, so a
-- nonnegative number stands for each; a negative `times` behaves as 0.
pub mod Drops
pub mod Overlap
use tcp_probe.Prelude.{
  ℕ, ◌+◌, Bool, true, false, ◌&&◌, List, [], ◌∷◌, ◌++◌, ltb, leb, ◌==◌, if◌then◌else◌,
}
use tcp_probe.Word.{u32}

pub record DropRule : Type 0 where
  pub lo : ℕ
  pub hi : ℕ
  pub times : ℕ
  pub fired : ℕ

pub record LossPolicy : Type 0 where
  pub rules : List DropRule
  pub dropped : ℕ

unfoldable pub empty : LossPolicy
empty = record { rules = []; dropped = 0 }

unfoldable pub add : LossPolicy → DropRule → LossPolicy
add p r = record p { rules = p.rules ++ r ∷ [] }

-- The test of one rule: it is not used up, and the segment overlaps its range.
unfoldable pub matches : ℕ → ℕ → DropRule → Bool
matches seg_lo seg_hi r = if leb r.times r.fired then false else ltb seg_lo r.hi && ltb r.lo seg_hi

-- The loop over the rules: the first that matches counts up, and ends the loop.
unfoldable pub fire : ℕ → ℕ → List DropRule → List DropRule × Bool
fire seg_lo seg_hi [] = ([], false)
fire seg_lo seg_hi (r ∷ rs) =
    let rest = fire seg_lo seg_hi rs in
    if matches seg_lo seg_hi r
    then (record r { fired = r.fired + 1 } ∷ rs, true)
    else (r ∷ rest.0, rest.1)

unfoldable pub drop : LossPolicy → ℕ → ℕ → LossPolicy × Bool
drop p rel_seq len =
    let (rules, hit) = fire rel_seq (u32 (rel_seq + len)) p.rules in
    if len == 0
    then (p, false)
    else if hit
    then (record { rules = rules; dropped = p.dropped + 1 }, true)
    else (record p { rules = rules }, false)

-- The loop of `unfired` from index `i` on.
unfoldable pub unfired_from : ℕ → List DropRule → List ℕ
unfired_from i [] = []
unfired_from i (r ∷ rs) =
    let rest = unfired_from (i + 1) rs in if r.fired == 0 then i ∷ rest else rest

unfoldable pub unfired : LossPolicy → List ℕ
unfired p = unfired_from 0 p.rules
