-- ===== src/Policy/Drops.antt =====
-- How often a policy drops, and what a drop changes.
use tcp_probe.Prelude.{ℕ, ◌+◌, ◌-◌, ◌≤◌, ◌≡◌, refl, arith, List, [], ◌∷◌, ◌++◌, if◌then◌else◌}
use tcp_probe.Word.{u32}
use tcp_probe.Policy.{DropRule, LossPolicy, empty, add, matches, fire, drop}

-- How often the rules have fired, and how often they may still fire.
abbrev pub fired_sum : List DropRule → ℕ
fired_sum [] = 0
fired_sum (r ∷ rs) = r.fired + fired_sum rs

abbrev pub budget : List DropRule → ℕ
budget [] = 0
budget (r ∷ rs) = (r.times - r.fired) + budget rs

-- No rule has fired more often than it may, and `dropped_` counts the firings.
abbrev pub Kept : List DropRule → Type 0
Kept [] = Unit
Kept (r ∷ rs) = (r.fired ≤ r.times) × Kept rs

pub record IsValid (p : LossPolicy) : Type 0 where
  pub kept : Kept p.rules
  pub counted : p.dropped ≡ fired_sum p.rules

fire-Kept : (a b : ℕ) (rs : List DropRule) → Kept rs → Kept (fire a b rs).0
unfolding fire matches
fire-Kept a b [] k = tt
fire-Kept a b (r ∷ rs) k = ground (arith, fire-Kept a b rs)

fire-sums :
    (a b : ℕ) (rs : List DropRule)
    → Kept rs
    → (fired_sum (fire a b rs).0 ≡ fired_sum rs + (if (fire a b rs).1 then 1 else 0))
      × (budget (fire a b rs).0 + (if (fire a b rs).1 then 1 else 0) ≡ budget rs)
unfolding fire matches
fire-sums a b [] k = (refl, refl)
fire-sums a b (r ∷ rs) k = ground (arith, fire-sums a b rs)

pub empty-IsValid : IsValid empty
unfolding empty
empty-IsValid = record { kept = tt; counted = refl }

-- A rule that has not fired may be added.
pub add-IsValid : (p : LossPolicy) (r : DropRule) → IsValid p → r.fired ≡ 0 → IsValid (add p r)
unfolding add
add-IsValid p r v e = record {
  kept = kept_append p.rules v.kept;
  counted = omega (arith, v.counted, e, sum_append p.rules);
}
  where
    sum_append : (rs : List DropRule) → fired_sum (rs ++ r ∷ []) ≡ fired_sum rs + r.fired
    sum_append [] = omega arith
    sum_append (x ∷ rs) = omega (arith, sum_append rs)

    kept_append : (rs : List DropRule) → Kept rs → Kept (rs ++ r ∷ [])
    kept_append [] k = (omega arith, tt)
    kept_append (x ∷ rs) k = (k.0, kept_append rs k.1)

-- `drop` keeps a valid policy valid, and each segment that it drops takes one from what the rules
-- may still drop; one that it does not drop takes nothing.
pub drop-IsValid :
    (p : LossPolicy) (rel_seq len : ℕ)
    → IsValid p
    → IsValid (drop p rel_seq len).0
      × (budget (drop p rel_seq len).0.rules + (if (drop p rel_seq len).1 then 1 else 0)
          ≡ budget p.rules)
unfolding drop
drop-IsValid p rel_seq len v = ground (
  arith,
  fire-Kept rel_seq (u32 (rel_seq + len)) p.rules,
  fire-sums rel_seq (u32 (rel_seq + len)) p.rules,
)
