-- ===== src/Tests/Drops.antt =====
-- The loss policy of a run that drops one segment and then another twice.
use tcp_probe.Prelude.{ℕ, ◌+◌, ◌≡◌, refl, arith, [], ◌∷◌}
use tcp_probe.Word.{u32}
use tcp_probe.Policy.{DropRule, LossPolicy, matches, fire, drop, unfired, unfired_from}
use tcp_probe.Policy.Drops.{IsValid, budget}
use tcp_probe.Policy.Overlap.{
  Charges, any_matches, drop-Charges, Segment, drop_all, drop_all-budget,
}

-- The byte at 40000 once, and the one at 90000 twice, the first of them already lost.
abbrev once : DropRule
once = record { lo = 40000; hi = 40001; times = 1; fired = 0 }

abbrev twice : DropRule
twice = record { lo = 90000; hi = 90001; times = 2; fired = 1 }

abbrev policy : LossPolicy
policy = record { rules = once ∷ twice ∷ []; dropped = 1 }

policy-IsValid : IsValid policy
policy-IsValid = record { kept = omega arith; counted = refl }

-- A segment of the size of an Ethernet frame.
abbrev segment : ℕ → Segment
segment rel_seq = (rel_seq, 1448)

-- The original is lost, its retransmission passes, and the other byte is lost once more.
drops_two :
    (drop_all policy (segment 39096 ∷ segment 39096 ∷ segment 89776 ∷ segment 89776 ∷ [])).1 ≡ 2
unfolding drop fire matches
drops_two = refl

unfired_first : unfired policy ≡ 0 ∷ []
unfolding unfired unfired_from
unfired_first = refl

drop-Charges_example :
    Charges 89776 (u32 (89776 + 1448)) policy.rules (drop policy 89776 1448).0.rules
    × ((drop policy 89776 1448).1 ≡ any_matches 89776 (u32 (89776 + 1448)) policy.rules)
drop-Charges_example = drop-Charges policy 89776 1448 λ e. absurd (omega (arith, e))

drop_all-budget_example :
    IsValid (drop_all policy (segment 39096 ∷ segment 89776 ∷ [])).0
    × ((drop_all policy (segment 39096 ∷ segment 89776 ∷ [])).1
          + budget (drop_all policy (segment 39096 ∷ segment 89776 ∷ [])).0.rules
        ≡ budget policy.rules)
drop_all-budget_example = drop_all-budget policy (segment 39096 ∷ segment 89776 ∷ []) policy-IsValid
