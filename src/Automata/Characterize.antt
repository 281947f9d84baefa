-- ===== src/Automata/Characterize.antt =====
-- reference/salvage/lstar.cpp: `characterizingSet`, a set of words that tell the states of a machine apart.
-- A `std::set` is a sorted list; `none` stands for a search that has run out of fuel.
pub mod Pairs
pub mod Candidates
pub mod Greedy
pub mod Covers
use tcp_probe.Prelude.{
  ℕ, zero, suc, ◌+◌, ◌*◌, Bool, true, false, ◌&&◌, ◌||◌, not, Option, none, some, List, [], ◌∷◌,
  ◌++◌, length, ltb, ◌==◌, if◌then◌else◌,
}
use tcp_probe.Automata.Mealy.{Mealy, run}
use tcp_probe.Automata.Query.{is_same}
use tcp_probe.Automata.Product.{
  Verdict, separated, equivalent, out_of_fuel, start_pairs, search_pairs,
}

-- The order of two words.
unfoldable pub word_less : List ℕ → List ℕ → Bool
word_less [] [] = false
word_less [] (y ∷ ys) = true
word_less (x ∷ xs) [] = false
word_less (x ∷ xs) (y ∷ ys) = ltb x y || x == y && word_less xs ys

unfoldable pub insert_word : List ℕ → List (List ℕ) → List (List ℕ)
insert_word w [] = w ∷ []
insert_word w (v ∷ vs) =
    let rest = insert_word w vs in
    if is_same w v then v ∷ vs else if word_less w v then w ∷ v ∷ vs else v ∷ rest

-- `if (ns.first > ns.second) std::swap(ns.first, ns.second)`.
unfoldable pub put_in_order : ℕ → ℕ → ℕ × ℕ
put_in_order s t = if ltb t s then (t, s) else (s, t)

-- The pairs of `p` with the states from `q` on.
abbrev pub pairs_of : ℕ → ℕ → ℕ → List (ℕ × ℕ)
pairs_of p q zero = []
pairs_of p q (suc left) = (p, q) ∷ pairs_of p (q + 1) left

-- The pairs of the loops `p < n`, `p < q < n`, from `p` on.
abbrev pub pairs_from : ℕ → ℕ → List (ℕ × ℕ)
pairs_from p zero = []
pairs_from p (suc left) = pairs_of p (p + 1) left ++ pairs_from (p + 1) left

abbrev pub is_pair : ℕ × ℕ → ℕ × ℕ → Bool
is_pair (p, q) (p', q') = p == p' && q == q'

-- `need.erase` of one pair, and of a vector of pairs.
unfoldable pub erase_pair : ℕ × ℕ → List (ℕ × ℕ) → List (ℕ × ℕ)
erase_pair x [] = []
erase_pair x (y ∷ need) = let rest = erase_pair x need in if is_pair x y then rest else y ∷ rest

unfoldable pub erase_pairs : List (ℕ × ℕ) → List (ℕ × ℕ) → List (ℕ × ℕ)
erase_pairs [] need = need
erase_pairs (x ∷ cov) need = erase_pairs cov (erase_pair x need)

module _ (h : Mealy) where
  -- The search of a pair.
  abbrev pub separate : ℕ → ℕ → Verdict
  separate p q = search_pairs put_in_order h h (h.n * h.n) (start_pairs p q)

  -- `cand` behind the loops over the pairs.
  unfoldable pub candidates : List (ℕ × ℕ) → Option (List (List ℕ))
  candidates [] = some []
  candidates ((p, q) ∷ ps) = elim (candidates ps) [
    | none ↦ none
    | some cand ↦ elim (separate p q) [
      | separated w ↦ some (insert_word w cand)
      | equivalent ↦ some cand
      | out_of_fuel ↦ none
    ]
  ]

  abbrev pub tells_apart : List ℕ → ℕ × ℕ → Bool
  tells_apart w (p, q) = not (is_same (run h p w) (run h q w))

  -- `cov` of a word.
  unfoldable pub covered : List ℕ → List (ℕ × ℕ) → List (ℕ × ℕ)
  covered w [] = []
  covered w (x ∷ need) = let rest = covered w need in if tells_apart w x then x ∷ rest else rest

  -- `best` and `bestCov` behind the loop over the pool.
  unfoldable pub best_cover :
      List (ℕ × ℕ) → List (List ℕ) → Option (List ℕ) → List (ℕ × ℕ) → Option (List ℕ) × List (ℕ × ℕ)
  best_cover need [] best cov = (best, cov)
  best_cover need (w ∷ pool) best cov =
      let more = ltb (length cov) (length (covered w need)) in
      best_cover need pool (if more then some w else best) (if more then covered w need else cov)

  -- The greedy loop. The fuel is the number of pairs needed.
  unfoldable pub cover : ℕ → List (List ℕ) → List (ℕ × ℕ) → List (List ℕ)
  cover zero pool need = []
  cover (suc fuel) pool [] = []
  cover (suc fuel) pool (x ∷ need) =
      let (best, cov) = best_cover (x ∷ need) pool none [] in
      elim best [ none ↦ [] | some w ↦ w ∷ cover fuel pool (erase_pairs cov (x ∷ need)) ]

  unfoldable pub characterizing_set : Option (List (List ℕ))
  characterizing_set =
      let need = pairs_from 0 h.n in
      elim (candidates need) [ none ↦ none | some pool ↦ some (cover (length need) pool need) ]
