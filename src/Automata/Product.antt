-- ===== src/Automata/Product.antt =====
-- reference/salvage/lstar.cpp: the breadth-first search of the pairs of states that two machines reach
-- together, which stands in `Learner::eqPerfect` and, with each pair put in order, in
-- `characterizingSet`. The set `seen` is its membership test.
pub mod Unseen
pub mod Frontier
pub mod Decides
use tcp_probe.Prelude.{
  ℕ, zero, suc, ◌+◌, ◌*◌, Bool, true, false, Option, none, some, List, [], ◌∷◌, ◌++◌, ◌==◌,
  if◌then◌else◌,
}
use tcp_probe.Automata.Mealy.{Mealy, assign}

-- An entry of the queue: the pair of states and the word that leads to it.
pub record QueuedPair : Type 0 where
  pub first : ℕ
  pub second : ℕ
  pub word : List ℕ

pub record Pairs : Type 0 where
  pub seen : ℕ → ℕ → Bool
  pub queue : List QueuedPair

-- What the search returns: a separating word, or `std::nullopt`.
pub data Verdict : Type 0 where
  separated : List ℕ → Verdict
  equivalent out_of_fuel : Verdict

-- `if (seen.insert(ns).second) Q.push(...)`.
unfoldable pub offer : Pairs → QueuedPair → Pairs
offer f p =
    if f.seen p.first p.second
    then f
    else record { seen = assign f.seen p.first p.second true; queue = f.queue ++ p ∷ [] }

-- A pair as it is.
abbrev pub as_is : ℕ → ℕ → ℕ × ℕ
as_is s t = (s, t)

-- `tidy` is what is done to a new pair before it is looked up.
module _ (tidy : ℕ → ℕ → ℕ × ℕ) (H ref : Mealy) where
  -- The pair that the letter `a` leads to.
  unfoldable pub next_pair : QueuedPair → ℕ → QueuedPair
  next_pair p a =
      let (s, t) = tidy (H.d p.first a) (ref.d p.second a) in
      record { first = s; second = t; word = p.word ++ a ∷ [] }

  -- The loop over the letters from `a` on, and the word that it returns.
  unfoldable pub try_letters : QueuedPair → ℕ → ℕ → Pairs → Pairs × Option (List ℕ)
  try_letters p zero a f = (f, none)
  try_letters p (suc left) a f =
      let rest = try_letters p left (a + 1) (offer f (next_pair p a)) in
      if H.o p.first a == ref.o p.second a then rest else (f, some (p.word ++ a ∷ []))

  -- The loop over the queue.
  unfoldable pub search_pairs : ℕ → Pairs → Verdict
  search_pairs zero f = elim f.queue [ [] ↦ equivalent | p ∷ rest ↦ out_of_fuel ]
  search_pairs (suc fuel) f = elim f.queue [
    | [] ↦ equivalent
    | p ∷ rest ↦
        let (f', found) = try_letters p ref.k 0 (record f { queue = rest }) in
        elim found [ some w ↦ separated w | none ↦ search_pairs fuel f' ]
  ]

-- The search before its first round.
abbrev pub start_pairs : ℕ → ℕ → Pairs
start_pairs s t = record {
  seen = assign (λ x y. false) s t true;
  queue = record { first = s; second = t; word = [] } ∷ [];
}

-- At most one round for each pair of states.
unfoldable pub eq_perfect : Mealy → Mealy → Verdict
eq_perfect H ref = search_pairs as_is H ref (H.n * ref.n) (start_pairs 0 0)
