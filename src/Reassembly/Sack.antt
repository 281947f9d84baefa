-- ===== src/Reassembly/Sack.antt =====
-- `sack_blocks`: which held ranges it reports, and in which order.
use mathlib.Core.List.{reverse}
use tcp_probe.Prelude.{
  ℕ, zero, suc, ◌-◌, ◌≤◌, ◌<◌, ◌≡◌, refl, ap, ◌∙◌, arith, List, [], ◌∷◌, ◌++◌, length, take,
  length-append, take-nil, length-take,
}
use native.Mathlib.Nat.{sub-zero}
use mathlib.Core.List.{append-nil, append_assoc}
use tcp_probe.Segment.{SeqRange}
use tcp_probe.Reassembly.{Reassembly, sack_from, sack_blocks}

take-suc :
    (n : ℕ) (r : SeqRange) (rs : List SeqRange) → 0 < n → take n (r ∷ rs) ≡ r ∷ take (n - 1) rs
take-suc zero r rs h = absurd (omega arith)
take-suc (suc n) r rs h = ap (λ k. r ∷ take k rs) (omega arith)

take-none : (n : ℕ) (rs : List SeqRange) → n ≡ 0 → take n rs ≡ []
take-none zero rs h = refl
take-none (suc n) rs h = absurd (omega arith)

sack_from-take :
    (max : ℕ) (out rs : List SeqRange) → sack_from max out rs ≡ out ++ take (max - length out) rs
unfolding sack_from
sack_from-take max out [] = rw (take-nil (max - length out), append-nil)
sack_from-take max out (r ∷ rs) = ground (
  arith,
  sack_from-take max (out ++ r ∷ []) rs,
  length-append out (r ∷ []),
  append_assoc out (r ∷ []) (take (max - length out - 1) rs),
  append-nil out,
  take-suc (max - length out) r rs,
  take-none (max - length out) (r ∷ rs),
)

-- `sack_blocks` reports the held ranges from the last of `held_` back to the first, whatever order
-- they arrived in, and of those the first `max`, so never more than `max`.
pub sack_blocks_lem :
    {T : Type 0} (s : Reassembly T) (max : ℕ)
    → (sack_blocks s max ≡ take max (reverse s.held)) × (length (sack_blocks s max) ≤ max)
unfolding sack_blocks
sack_blocks_lem s max =
    let e : sack_from max [] (reverse s.held) ≡ take max (reverse s.held) =
      sack_from-take max [] (reverse s.held) ∙ ap (λ k. take k (reverse s.held)) (sub-zero max) in
    (e, rw e (omega (arith, length-take max (reverse s.held))))
