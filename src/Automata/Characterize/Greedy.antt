-- ===== src/Automata/Characterize/Greedy.antt =====
-- The greedy loop covers every pair that the pool tells apart.
use mathlib.Core.Path.{subst}
use tcp_probe.Prelude.{
  ℕ, zero, suc, ◌≤◌, ◌<◌, ◌≡◌, refl, sym, ap, ◌∙◌, arith, Bool, true, false, Option, none, some,
  List, [], ◌∷◌, length, ltb, if◌then◌else◌, if_cases,
}
use tcp_probe.Automata.Mealy.{Mealy}
use tcp_probe.Automata.Characterize.{
  is_pair, erase_pair, erase_pairs, tells_apart, covered, best_cover, cover,
}
use tcp_probe.Automata.Characterize.Pairs.{
  Each, Each-map, Each-all, Each-both, is_pair_self, first_pair, erase_pairs-Each,
  length-erase_pair, length-erase_pairs,
}
use tcp_probe.Automata.Characterize.Candidates.{
  or_right, or_left, or_neither, some_injective, told_apart,
}

module _ (h : Mealy) where
  -- The greedy loop. What `covered` keeps is told apart by the word.
  covered-Each :
      (w : List ℕ) (need : List (ℕ × ℕ)) → Each (λ x. tells_apart h w x ≡ true) (covered h w need)
  unfolding covered
  covered-Each w [] = tt
  covered-Each w (x ∷ need) =
      if_cases (Each (λ x. tells_apart h w x ≡ true)) (tells_apart h w x) _ _
        (λ apart. (apart, covered-Each w need)) (λ not_apart. covered-Each w need)

  -- A pair that the word does not tell apart is not covered.
  uncovered :
      (w : List ℕ) (need : List (ℕ × ℕ))
      → length (covered h w need) ≡ 0
      → Each (λ x. tells_apart h w x ≡ false) need
  unfolding covered
  uncovered w [] e = tt
  uncovered w (x ∷ need) now =
      if_cases
        (λ (cov : List (ℕ × ℕ)). length cov ≡ 0 → Each (λ x. tells_apart h w x ≡ false) (x ∷ need))
        (tells_apart h w x) _ _ (λ apart e. absurd (omega (arith, e)))
        (λ not_apart e. (not_apart, uncovered w need e)) now

  -- The first pair covered is one of those needed.
  erase_covered :
      (w : List ℕ) (x : ℕ × ℕ) (cov need : List (ℕ × ℕ))
      → covered h w need ≡ x ∷ cov
      → length (erase_pair x need) < length need
  unfolding covered erase_pair
  erase_covered w x cov [] e = cc
  erase_covered w x cov (y ∷ need) now =
      let rest = erase_covered w x cov need in
      let shorter = length-erase_pair x need in
      if_cases (λ c. c ≡ x ∷ cov → length (erase_pair x (y ∷ need)) < suc (length need))
        (tells_apart h w y) _ _
        (λ apart e.
          if_cases (λ (r : List (ℕ × ℕ)). length r < suc (length need)) (is_pair x y) _ _
            (λ same. omega (arith, shorter))
            λ other.
              let same : y ≡ x = ap (first_pair y) e in
              let both = sym other ∙ ap (is_pair x) same ∙ is_pair_self x in cc)
        (λ not_apart e.
          if_cases (λ (r : List (ℕ × ℕ)). length r < suc (length need)) (is_pair x y) _ _
            (λ same. omega (arith, rest e)) (λ other. omega (arith, rest e)))
        now

  -- What the loop over the pool knows.
  record BestSoFar (need : List (ℕ × ℕ)) (best : Option (List ℕ)) (cov : List (ℕ × ℕ))
      : Type 0 where
    chosen : (w : List ℕ) → best ≡ some w → (cov ≡ covered h w need) × (0 < length cov)
    unchosen : best ≡ none → length cov ≡ 0

  better-BestSoFar :
      (need : List (ℕ × ℕ)) (w : List ℕ) (best : Option (List ℕ)) (cov : List (ℕ × ℕ))
      → BestSoFar need best cov
      → (more : Bool) → ltb (length cov) (length (covered h w need)) ≡ more
      → let cov' = if more then covered h w need else cov in
        BestSoFar need (if more then some w else best) cov'
        × (length cov ≤ length cov')
        × (length (covered h w need) ≤ length cov')
  better-BestSoFar need w best cov b true e = (
    record {
      chosen = λ v is_v. (ap (λ v. covered h v need) (some_injective w v is_v), ground (arith, e));
      unchosen = λ not_none. cc;
    },
    ground (arith, e),
    omega arith,
  )
  better-BestSoFar need w best cov b false e = (b, omega arith, ground (arith, e))

  best_cover-BestSoFar :
      (need : List (ℕ × ℕ)) (pool : List (List ℕ)) (best : Option (List ℕ)) (cov : List (ℕ × ℕ))
      → BestSoFar need best cov
      → let (best', cov') = best_cover h need pool best cov in
        BestSoFar need best' cov'
        × (length cov ≤ length cov')
        × (length cov' ≡ 0 → Each (λ x. told_apart h pool x ≡ false) need)
  unfolding best_cover
  best_cover-BestSoFar need [] best cov b = (b, omega arith, λ e. Each-all _ (λ x. refl) need)
  best_cover-BestSoFar need (w ∷ pool) best cov b =
      let more = ltb (length cov) (length (covered h w need)) in
      let (b', le, le') = better-BestSoFar need w best cov b more refl in
      let (end, grown, none_left) =
        best_cover-BestSoFar need pool (if more then some w else best)
          (if more then covered h w need else cov) b' in
      (
        end,
        omega (arith, le, grown),
        λ e.
            Each-map _ _ (λ x (now, later). or_neither _ _ now later) need
              (Each-both _ _ need (uncovered w need (omega (arith, le', grown, e))) (none_left e)),
      )

  -- The loop over the whole pool.
  from_nothing :
      (need : List (ℕ × ℕ)) (pool : List (List ℕ))
      → let (best, cov) = best_cover h need pool none [] in
        BestSoFar need best cov
        × (0 ≤ length cov)
        × (length cov ≡ 0 → Each (λ x. told_apart h pool x ≡ false) need)
  from_nothing need pool =
      best_cover-BestSoFar need pool none [] (record { chosen = λ w e. cc; unchosen = λ e. refl })

  shrinks :
      (w : List ℕ) (cov need : List (ℕ × ℕ))
      → covered h w need ≡ cov
      → 0 < length cov
      → length (erase_pairs cov need) < length need
  unfolding erase_pairs
  shrinks w [] need e p = absurd (omega (arith, p))
  shrinks w (x ∷ cov) need e p =
      omega (arith, erase_covered w x cov need e, length-erase_pairs cov (erase_pair x need))

  abbrev pub Told : List (List ℕ) → List (List ℕ) → ℕ × ℕ → Type 0
  Told pool ws x = told_apart h pool x ≡ true → told_apart h ws x ≡ true

  by_best :
      (fuel : ℕ) (pool : List (List ℕ)) (x : ℕ × ℕ) (need : List (ℕ × ℕ))
      → length need ≤ fuel
      → ((left : List (ℕ × ℕ))
          → length left ≤ fuel
          → Each (Told pool (cover h fuel pool left)) left)
      → let (found, cov) = best_cover h (x ∷ need) pool none [] in
        (best : Option (List ℕ))
        → found ≡ best
        → Each
            (Told pool (elim best [
              | none ↦ []
              | some w ↦ w ∷ cover h fuel pool (erase_pairs cov (x ∷ need))
            ]))
            (x ∷ need)
  by_best fuel pool x need enough ih none is_best =
      let (end, grown, none_left) = from_nothing (x ∷ need) pool in
      Each-map _ _ (λ y untold told. let both = sym untold ∙ told in absurd cc) (x ∷ need)
        (none_left (end.unchosen is_best))
  by_best fuel pool x need enough ih (some w) is_best =
      let (end, grown, none_left) = from_nothing (x ∷ need) pool in
      let (is_cov, some_pair) = end.chosen w is_best in
      let cov = (best_cover h (x ∷ need) pool none []).1 in
      let left = erase_pairs cov (x ∷ need) in
      let ws = cover h fuel pool left in
      erase_pairs-Each (Told pool (w ∷ ws)) cov (x ∷ need)
        (Each-map _ (Told pool (w ∷ ws)) (λ y apart told. or_left _ _ apart) cov
          (subst (Each (λ y. tells_apart h w y ≡ true)) (sym is_cov) (covered-Each w (x ∷ need))))
        (Each-map (Told pool ws) (Told pool (w ∷ ws)) (λ y later told. or_right _ _ (later told))
          left (ih left (omega (arith, enough, shrinks w cov (x ∷ need) (sym is_cov) some_pair))))

  -- Every pair that a word of the pool tells apart is told apart by a word that the loop picks.
  pub cover-covers :
      (fuel : ℕ) (pool : List (List ℕ)) (need : List (ℕ × ℕ))
      → length need ≤ fuel
      → Each (Told pool (cover h fuel pool need)) need
  unfolding cover
  cover-covers fuel pool [] enough = tt
  cover-covers zero pool (x ∷ need) enough = absurd (omega (arith, enough))
  cover-covers (suc fuel) pool (x ∷ need) enough =
      by_best fuel pool x need (omega (arith, enough)) (cover-covers fuel pool)
        (best_cover h (x ∷ need) pool none []).0 refl
