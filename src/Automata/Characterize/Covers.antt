-- ===== src/Automata/Characterize/Covers.antt =====
-- The words found tell apart all states that any word tells apart.
use mathlib.Core.Path.{subst}
use tcp_probe.Prelude.{ℕ, ◌<◌, ◌≡◌, ◌≢◌, sym, arith, true, Option, none, some, List, length}
use tcp_probe.Automata.Mealy.{Mealy, run}
use tcp_probe.Automata.Product.Frontier.{all_below, IsClosed}
use tcp_probe.Automata.Characterize.{pairs_from, cover, characterizing_set}
use tcp_probe.Automata.Characterize.Pairs.{Each-both, Each-pairs_from, pairs_from-Inside}
use tcp_probe.Automata.Characterize.Candidates.{Found, candidates-Found, told_apart}
use tcp_probe.Automata.Characterize.Greedy.{Told, cover-covers}

module _ (h : Mealy) where
  -- A set of words that tell apart all states which any word of inputs tells apart.
  pub data Characterizes : Option (List (List ℕ)) → Type 0 where
    characterizes :
        (W : List (List ℕ))
        → ((p q : ℕ)
            → p < q
            → q < h.n
            → (v : List ℕ) → all_below h.k v ≡ true
            → run h p v ≢ run h q v
            → told_apart h W (p, q) ≡ true)
        → Characterizes (some W)

  -- For a machine that is closed under its inputs, the searches and the greedy loop end within their
  -- fuel, and the words returned tell apart every two states which any word of inputs tells apart.
  pub characterizing_set-Characterizes : IsClosed h h.k → Characterizes (characterizing_set h)
  unfolding characterizing_set
  characterizing_set-Characterizes c =
      let need = pairs_from 0 h.n in
      let (pool, e, found) =
        candidates-Found h c need (pairs_from-Inside h.n 0 h.n (omega arith)) in
      let W = cover h (length need) pool need in
      let covers = cover-covers h (length need) pool need (omega arith) in
      subst
        (λ o.
          Characterizes
            (elim o [ none ↦ none | some pool ↦ some (cover h (length need) pool need) ]))
        (sym e)
        (characterizes W λ p q less below v letters differ.
          let (f, told) =
            Each-pairs_from (λ x. Found h pool x × Told h pool W x) 0 h.n p q
              (Each-both (Found h pool) (Told h pool W) need found covers) (omega arith) less
              (omega (arith, below)) in
          told (f v letters differ))
