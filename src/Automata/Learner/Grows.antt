-- ===== src/Automata/Learner/Grows.antt =====
-- What the operations on the table keep, over any system: the states only grow, and the rounds stay.
use tcp_probe.Prelude.{
  ℕ, zero, suc, ◌+◌, ◌≤◌, ◌<◌, ◌≡◌, refl, ap, ◌∙◌, arith, Bool, true, false, Option, none, some,
  List, [], ◌∷◌, ◌++◌, length, length-append, length-map, get_elem?, ltb, if◌then◌else◌, if_cases,
}
use tcp_probe.Automata.Mealy.{Mealy}
use tcp_probe.Automata.Sul.{Sul}
use tcp_probe.Automata.Query.{is_same}
use tcp_probe.Automata.Suffix.{or_empty}
use tcp_probe.Automata.Product.Frontier.{IsClosed}
use tcp_probe.Automata.Learner.{
  Learner, key, keys, last_index, fill_row, fill_letters, fill_words, fill_all, open_word,
  close_once, build_hyp,
}
use tcp_probe.Automata.Learner.Loop.{Config, Draws, close_loop}

last_index-bound :
    (k : List ℕ) (i : ℕ) (ks : List (List ℕ)) (j : ℕ)
    → last_index k i ks ≡ some j
    → j < i + length ks
unfolding last_index
last_index-bound k i [] j e = cc
last_index-bound k i (x ∷ ks) j e =
    by_rest (last_index k (i + 1) ks) (λ n. last_index-bound k (i + 1) ks n) e
  where
    by_rest :
        (r : Option ℕ)
        → ((n : ℕ) → r ≡ some n → n < i + 1 + length ks)
        → elim r [ some j ↦ some j | none ↦ if is_same x k then some i else none ] ≡ some j
        → j < i + suc (length ks)
    by_rest (some n) found f = omega (arith, found j f)
    by_rest none found f =
        if_cases (λ (o : Option ℕ). o ≡ some j → j < i + suc (length ks)) (is_same x k) _ _
          (λ same g. let at : i ≡ j = cc in omega (arith, at)) (λ other g. absurd cc) f

module _ {U R G : Type 0} where
  -- From one learner to a later one.
  pub record Grown (l l' : Learner U R G) : Type 0 where
    pub states : length l.S ≤ length l'.S
    pub rounds : l'.st.rounds ≡ l.st.rounds

  pub Grown-trans : (l l' l'' : Learner U R G) → Grown l l' → Grown l' l'' → Grown l l''
  Grown-trans l l' l'' g h = record {
    states = omega (arith, g.states, h.states);
    rounds = h.rounds ∙ g.rounds;
  }

  module _ (u : Sul U) (draw : R → R × Bool) (ref : Mealy) where
    -- Filling rows changes the oracle and the rows only.
    record Filled (l l' : Learner U R G) : Type 0 where
      states : l'.S ≡ l.S
      stats : l'.st ≡ l.st

    fill_letters-Filled :
        (left a : ℕ) (l : Learner U R G) (w : List ℕ)
        → Filled l (fill_letters u draw ref left a l w)
    unfolding fill_letters fill_row
    fill_letters-Filled zero a l w = record { states = refl; stats = refl }
    fill_letters-Filled (suc left) a l w =
        let rest = fill_letters-Filled left (a + 1) (fill_row u draw l (w ++ a ∷ [])) w in
        record { states = rest.states; stats = rest.stats }

    fill_words-Filled :
        (l : Learner U R G) (ss : List (List ℕ)) → Filled l (fill_words u draw ref l ss)
    unfolding fill_words fill_row
    fill_words-Filled l [] = record { states = refl; stats = refl }
    fill_words-Filled l (s ∷ ss) =
        let first = fill_letters-Filled ref.k 0 (fill_row u draw l s) s in
        let rest = fill_words-Filled (fill_letters u draw ref ref.k 0 (fill_row u draw l s) s) ss in
        record { states = rest.states ∙ first.states; stats = rest.stats ∙ first.stats }

    pub fill_all-Grown : (l : Learner U R G) → Grown l (fill_all u draw ref l)
    fill_all-Grown l =
        let f = fill_words-Filled l l.S in
        record {
          states = omega (arith, ap (λ s. length s) f.states);
          rounds = ap (λ s. s.rounds) f.stats;
        }

    pub fill_all-states : (l : Learner U R G) → (fill_all u draw ref l).S ≡ l.S
    fill_all-states l = (fill_words-Filled l l.S).states

    -- A step of the closing: nothing changes, or there is one state more.
    record Closed (l : Learner U R G) (res : Learner U R G × Bool) : Type 0 where
      rounds : res.0.st.rounds ≡ l.st.rounds
      done : res.1 ≡ false → length res.0.S ≡ length l.S
      more : res.1 ≡ true → length res.0.S ≡ suc (length l.S)

    close_once-Closed : (l : Learner U R G) → Closed l (close_once u draw ref l)
    unfolding close_once
    close_once-Closed l = by_word (open_word u draw ref l l.S)
      where
        by_word :
            (o : Option (List ℕ))
            → Closed l (elim o [
              | none ↦ (l, false)
              | some w ↦ (fill_all u draw ref (record l { S = l.S ++ w ∷ [] }), true)
            ])
        by_word none = record { rounds = refl; done = λ e. refl; more = λ e. cc }
        by_word (some w) =
            let l' : Learner U R G = record l { S = l.S ++ w ∷ [] } in
            let f = fill_words-Filled l' l'.S in
            record {
              rounds = ap (λ s. s.rounds) f.stats;
              done = λ e. cc;
              more = λ e. omega (arith, ap (λ s. length s) f.states, length-append l.S (w ∷ []));
            }

    -- The hypothesis of a table with a state is closed.
    pub build_hyp-IsClosed :
        (l : Learner U R G) (k : ℕ) → 0 < length l.S → IsClosed (build_hyp u draw ref l).H k
    unfolding build_hyp
    build_hyp-IsClosed l k some_state = record {
      some_state = some_state;
      stays = λ s a inside below.
          by_index s a inside (last_index (key l (or_empty (get_elem? l.S s) ++ a ∷ [])) 0 (keys l))
            (last_index-bound (key l (or_empty (get_elem? l.S s) ++ a ∷ [])) 0 (keys l));
    }
      where
        by_index :
            (s a : ℕ)
            → s < length l.S
            → (o : Option ℕ) → ((j : ℕ) → o ≡ some j → j < 0 + length (keys l))
            → elim o [ none ↦ s | some j ↦ j ] < length l.S
        by_index s a inside none bound = inside
        by_index s a inside (some j) bound = omega (arith, bound j refl, length-map (key l) l.S)

    pub build_hyp-Grown : (l : Learner U R G) → Grown l (build_hyp u draw ref l)
    unfolding build_hyp
    build_hyp-Grown l = record { states = omega arith; rounds = refl }

    module _ (draws : Draws G) (cfg : Config) where
      -- The closing of the table ends, with at most one state more than it had or than are allowed.
      pub record Closes (l : Learner U R G) (res : Option (Learner U R G)) : Type 0 where
        pub closed : Learner U R G
        pub returns : res ≡ some closed
        pub grown : Grown l closed
        pub limit : (n : ℕ) → cfg.max_states ≤ n → length l.S ≤ n → length closed.S ≤ n + 1

      -- Where the loop ends with this step.
      last-Closes :
          (l l' : Learner U R G)
          → l'.st.rounds ≡ l.st.rounds
          → length l.S ≤ length l'.S
          → length l'.S ≤ suc (length l.S)
          → Closes l (some l')
      last-Closes l l' same grows small = record {
        closed = l';
        returns = refl;
        grown = record { states = grows; rounds = same };
        limit = λ n x h. omega (arith, h, small);
      }

      -- Where there is a state more, and the loop ends or goes on by the cap.
      more-Closes :
          (fuel : ℕ) (l l' : Learner U R G)
          → Closed l (l', true)
          → (length l'.S ≤ cfg.max_states → Closes l' (close_loop u draw draws ref cfg fuel l'))
          → (b : Bool) → ltb cfg.max_states (length l'.S) ≡ b
          → Closes l (elim b [ true ↦ some l' | false ↦ close_loop u draw draws ref cfg fuel l' ])
      more-Closes fuel l l' c goes_on true e =
          last-Closes l l' c.rounds (omega (arith, c.more refl)) (omega (arith, c.more refl))
      more-Closes fuel l l' c goes_on false e =
          let few : length l'.S ≤ cfg.max_states = ground (arith, e) in
          let rest = goes_on few in
          let step : Grown l l' = record {
            states = omega (arith, c.more refl);
            rounds = c.rounds;
          } in
          record {
            closed = rest.closed;
            returns = rest.returns;
            grown = Grown-trans l l' rest.closed step rest.grown;
            limit = λ n x h. rest.limit n x (omega (arith, few, x));
          }

      pub close_loop-Closes :
          (fuel : ℕ) (l : Learner U R G)
          → 0 < fuel
          → cfg.max_states < fuel + length l.S
          → Closes l (close_loop u draw draws ref cfg fuel l)
      unfolding close_loop
      close_loop-Closes zero l some_fuel enough = absurd (omega (arith, some_fuel))
      close_loop-Closes (suc fuel) l some_fuel enough =
          by_more (close_once u draw ref l) (close_once-Closed l) (close_loop-Closes fuel)
        where
          by_more :
              (res : Learner U R G × Bool)
              → Closed l res
              → ((l' : Learner U R G)
                  → 0 < fuel
                  → cfg.max_states < fuel + length l'.S
                  → Closes l' (close_loop u draw draws ref cfg fuel l'))
              → Closes l (elim res.1 [
                | false ↦ some res.0
                | true ↦ elim (ltb cfg.max_states (length res.0.S)) [
                  | true ↦ some res.0
                  | false ↦ close_loop u draw draws ref cfg fuel res.0
                ]
              ])
          by_more (l', false) c ih =
              last-Closes l l' c.rounds (omega (arith, c.done refl)) (omega (arith, c.done refl))
          by_more (l', true) c ih =
              more-Closes fuel l l' c
                (λ few.
                  ih l' (omega (arith, enough, few, c.more refl))
                    (omega (arith, enough, c.more refl)))
                (ltb cfg.max_states (length l'.S)) refl
