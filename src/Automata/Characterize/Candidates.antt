-- ===== src/Automata/Characterize/Candidates.antt =====
-- The candidates tell apart every pair of states that a word tells apart.
use mathlib.Core.Path.{subst}
use tcp_probe.Prelude.{
  ℕ, ◌<◌, ◌≡◌, ◌≢◌, ◌↔◌, inl, inr, refl, sym, ap, ◌∙◌, arith, Bool, true, false, ◌||◌, not, Option,
  none, some, List, [], ◌∷◌, ltb, if_cases, Bool-cases,
}
use tcp_probe.Automata.Mealy.{Mealy, run}
use tcp_probe.Automata.Query.{is_same}
use tcp_probe.Automata.Cuts.{is_same_eq}
use tcp_probe.Automata.Product.{Verdict, separated, equivalent, out_of_fuel}
use tcp_probe.Automata.Product.Frontier.{all_below, IsClosed, IsTidy}
use tcp_probe.Automata.Product.Decides.{Decided, found_apart, found_same, search_pairs-decides}
use tcp_probe.Automata.Characterize.{
  word_less, insert_word, put_in_order, separate, candidates, tells_apart,
}
use tcp_probe.Automata.Characterize.Pairs.{Each, Each-map, Inside}

put_in_order-IsTidy : (h : Mealy) → IsTidy h h put_in_order
unfolding put_in_order
put_in_order-IsTidy h = record {
  inside = λ s t x y.
      if_cases (λ (r : ℕ × ℕ). (r.0 < h.n) × (r.1 < h.n)) (ltb t s) _ _ (λ e. (y, x)) (λ e. (x, y));
  agrees = λ s t w.
      if_cases (λ (r : ℕ × ℕ). (run h r.0 w ≡ run h r.1 w) ↔ (run h s w ≡ run h t w)) (ltb t s) _ _
        (λ e. (λ a. sym a, λ a. sym a)) (λ e. (λ a. a, λ a. a));
}

or_twice : (a b r : Bool) → a ≡ b → (b || r) ≡ (a || (b || r))
or_twice a b r e = ground (arith, e)

or_swap : (a b c z : Bool) → z ≡ (a || c) → (b || z) ≡ (a || (b || c))
or_swap a b c z e = ground (arith, e)

pub or_right : (a b : Bool) → b ≡ true → (a || b) ≡ true
or_right a b e = ground (arith, e)

pub or_neither : (a b : Bool) → a ≡ false → b ≡ false → (a || b) ≡ false
or_neither a b e f = ground (arith, e, f)

pub or_left : (a b : Bool) → a ≡ true → (a || b) ≡ true
or_left a b e = ground (arith, e)

pub some_injective : (v w : List ℕ) → some v ≡ some w → v ≡ w
some_injective v w e = cc

module _ (h : Mealy) where
  -- Does one of the words tell the pair apart?
  abbrev pub told_apart : List (List ℕ) → ℕ × ℕ → Bool
  told_apart [] x = false
  told_apart (w ∷ ws) x = tells_apart h w x || told_apart ws x

  tells_apart_differ :
      (w : List ℕ) (p q : ℕ) → run h p w ≢ run h q w → tells_apart h w (p, q) ≡ true
  tells_apart_differ w p q differ = elim (Bool-cases (is_same (run h p w) (run h q w))) [
    | inl equal ↦ absurd (differ (is_same_eq _ _ equal))
    | inr apart ↦ ap not apart
  ]

  told_apart-insert :
      (w : List ℕ) (vs : List (List ℕ)) (x : ℕ × ℕ)
      → told_apart (insert_word w vs) x ≡ (tells_apart h w x || told_apart vs x)
  unfolding insert_word
  told_apart-insert w [] x = refl
  told_apart-insert w (v ∷ vs) x =
      if_cases (λ us. told_apart us x ≡ (tells_apart h w x || told_apart (v ∷ vs) x)) (is_same w v)
        _ _ (λ equal. or_twice _ _ _ (ap (λ z. tells_apart h z x) (is_same_eq w v equal)))
        λ other.
          if_cases (λ us. told_apart us x ≡ (tells_apart h w x || told_apart (v ∷ vs) x))
            (word_less w v) _ _ (λ less. refl) λ greater. or_swap _ _ _ _ (told_apart-insert w vs x)

  -- What the candidates do for a pair.
  abbrev pub Found : List (List ℕ) → ℕ × ℕ → Type 0
  Found cand (p, q) =
      (v : List ℕ) → all_below h.k v ≡ true → run h p v ≢ run h q v → told_apart cand (p, q) ≡ true

  abbrev with_verdict : List (List ℕ) → Verdict → Option (List (List ℕ))
  with_verdict cand (separated w) = some (insert_word w cand)
  with_verdict cand equivalent = some cand
  with_verdict cand out_of_fuel = none

  by_verdict :
      (p q : ℕ) (ps : List (ℕ × ℕ)) (cand : List (List ℕ))
      → Each (Found cand) ps
      → (r : Verdict) → Decided h h p q r
      → (cand' : List (List ℕ)) × (with_verdict cand r ≡ some cand')
        × Each (Found cand') ((p, q) ∷ ps)
  by_verdict p q ps cand found _ (found_apart w apart) = (
    insert_word w cand,
    refl,
    (
      λ v letters differ.
          told_apart-insert w cand (p, q) ∙ or_left _ _ (tells_apart_differ w p q apart.differ),
      Each-map (Found cand) (Found (insert_word w cand))
          (λ x told v letters differ.
            told_apart-insert w cand x ∙ or_right _ _ (told v letters differ))
          ps found,
    ),
  )
  by_verdict p q ps cand found _ (found_same agree) =
      (cand, refl, (λ v letters differ. absurd (differ (agree v letters)), found))

  pub candidates-Found :
      IsClosed h h.k
      → (ps : List (ℕ × ℕ)) → Each (Inside h.n) ps
      → (cand : List (List ℕ)) × (candidates h ps ≡ some cand) × Each (Found cand) ps
  unfolding candidates
  candidates-Found c [] i = ([], refl, tt)
  candidates-Found c ((p, q) ∷ ps) i =
      let (cand, e, found) = candidates-Found c ps i.1 in
      subst
        (λ o.
          (cand : List (List ℕ)) × (elim o [
            | none ↦ none
            | some cand ↦ with_verdict cand (separate h p q)
          ]
            ≡ some cand)
          × Each (Found cand) ((p, q) ∷ ps))
        (sym e)
        (by_verdict p q ps cand found (separate h p q)
          (search_pairs-decides h h p q put_in_order (put_in_order-IsTidy h) c c i.0.0 i.0.1))
