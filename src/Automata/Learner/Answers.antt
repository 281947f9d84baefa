-- ===== src/Automata/Learner/Answers.antt =====
-- The equivalence oracles leave the table alone, and none of them runs out of fuel.
use tcp_probe.Prelude.{
  ℕ, zero, suc, ◌≡◌, ◌≢◌, refl, sym, ◌∙◌, Bool, true, false, Option, none, some, List, [], ◌∷◌,
  length, if◌then◌else◌, if_cases,
}
use mathlib.Core.Path.{subst}
use tcp_probe.Automata.Mealy.{Mealy}
use tcp_probe.Automata.Sul.{Sul}
use tcp_probe.Automata.Product.{Verdict, separated, out_of_fuel, eq_perfect}
use tcp_probe.Automata.Product.Frontier.{IsClosed}
use tcp_probe.Automata.Product.Decides.{Decided, found_apart, found_same, eq_perfect-Decided}
use tcp_probe.Automata.Characterize.{characterizing_set}
use tcp_probe.Automata.Characterize.Covers.{
  Characterizes, characterizes, characterizing_set-Characterizes,
}
use tcp_probe.Automata.Learner.{Learner}
use tcp_probe.Automata.Learner.Loop.{
  Config, Draws, test_word, test_suite, w_suite, eq_w_method, random_walk, eq_random_walk,
  equivalence,
}

is_some : (h : Mealy) (o : Option (List (List ℕ))) → Characterizes h o → o ≢ none
is_some h _ (characterizes ws tells) e = cc

module _ {U R G : Type 0} (u : Sul U) (draw : R → R × Bool) (draws : Draws G) (ref : Mealy)
    (cfg : Config) where
  -- A hypothesis as it is built.
  pub record IsHyp (l : Learner U R G) : Type 0 where
    pub closed : IsClosed l.H ref.k
    pub inputs : l.H.k ≡ ref.k

  -- The same states and rounds, and a verdict.
  pub record Answered (l : Learner U R G) (res : Learner U R G × Verdict) : Type 0 where
    pub states : res.0.S ≡ l.S
    pub rounds : res.0.st.rounds ≡ l.st.rounds
    pub verdict : res.1 ≢ out_of_fuel

  Answered-from :
      (l l' : Learner U R G) (res : Learner U R G × Verdict)
      → l'.S ≡ l.S
      → l'.st.rounds ≡ l.st.rounds
      → Answered l' res
      → Answered l res
  Answered-from l l' res s r a = record {
    states = a.states ∙ s;
    rounds = a.rounds ∙ r;
    verdict = a.verdict;
  }

  test_suite-Answered :
      (l : Learner U R G) (suite : List (List ℕ))
      → Answered l (test_suite u draw draws ref cfg l suite)
  unfolding test_suite test_word
  test_suite-Answered l [] = record { states = refl; rounds = refl; verdict = λ e. cc }
  test_suite-Answered l (w ∷ suite) =
      by_same (test_word u draw draws ref cfg l w).1
        (test_suite-Answered (test_word u draw draws ref cfg l w).0 suite)
    where
      by_same :
          (same : Bool)
          → Answered
              (test_word u draw draws ref cfg l w).0
              (test_suite u draw draws ref cfg (test_word u draw draws ref cfg l w).0 suite)
          → Answered l (elim same [
            | true ↦ test_suite u draw draws ref cfg (test_word u draw draws ref cfg l w).0 suite
            | false ↦ ((test_word u draw draws ref cfg l w).0, separated w)
          ])
      by_same true rest = Answered-from l (test_word u draw draws ref cfg l w).0 _ refl refl rest
      by_same false rest = record { states = refl; rounds = refl; verdict = λ e. cc }

  eq_random_walk-Answered :
      (left : ℕ) (l : Learner U R G) → Answered l (eq_random_walk u draw draws ref cfg left l)
  unfolding eq_random_walk test_word
  eq_random_walk-Answered zero l = record { states = refl; rounds = refl; verdict = λ e. cc }
  eq_random_walk-Answered (suc left) l =
      let (g, w) = random_walk draws l.rng in
      let tested = test_word u draw draws ref cfg (record l { rng = g }) w in
      by_same tested.1 (eq_random_walk-Answered left tested.0)
    where
      by_same :
          let (g, w) = random_walk draws l.rng in
          let l' = (test_word u draw draws ref cfg (record l { rng = g }) w).0 in
          (same : Bool)
          → Answered l' (eq_random_walk u draw draws ref cfg left l')
          → Answered l (elim same [
            | true ↦ eq_random_walk u draw draws ref cfg left l'
            | false ↦ (l', separated w)
          ])
      by_same true rest = record {
        states = rest.states;
        rounds = rest.rounds;
        verdict = rest.verdict;
      }
      by_same false rest = record { states = refl; rounds = refl; verdict = λ e. cc }

  eq_w_method-Answered :
      (l : Learner U R G) → IsHyp l → Answered l (eq_w_method u draw draws ref cfg l)
  unfolding eq_w_method
  eq_w_method-Answered l h =
      by_words (if cfg.use_e_as_w then some l.E else characterizing_set l.H) (
        if_cases (λ (o : Option (List (List ℕ))). o ≢ none) cfg.use_e_as_w _ _ (λ given e. cc)
          λ computed.
            is_some l.H (characterizing_set l.H)
              (characterizing_set-Characterizes l.H (subst (IsClosed l.H) (sym h.inputs) h.closed)))
    where
      by_words :
          (o : Option (List (List ℕ)))
          → o ≢ none
          → Answered l (elim o [
            | none ↦ (l, out_of_fuel)
            | some ws ↦
                let suite = w_suite u draw draws ref cfg l ws in
                let st = l.st in
                test_suite u draw draws ref cfg
                  (record l { st = record st { eq_suite_size = length suite } })
                  suite
          ])
      by_words none some_words = absurd (some_words refl)
      by_words (some ws) some_words =
          let suite = w_suite u draw draws ref cfg l ws in
          let st = l.st in
          let l' : Learner U R G = record l { st = record st { eq_suite_size = length suite } } in
          Answered-from l l' _ refl refl (test_suite-Answered l' suite)

  pub equivalence-Answered :
      IsClosed ref ref.k
      → (l : Learner U R G) → IsHyp l
      → Answered l (equivalence u draw draws ref cfg l)
  unfolding equivalence
  equivalence-Answered c l h =
      if_cases (Answered l) cfg.is_perfect_eq _ _
        (λ perfect. record {
          states = refl;
          rounds = refl;
          verdict = decided_verdict (eq_perfect l.H ref) (eq_perfect-Decided l.H ref h.closed c);
        })
        λ imperfect.
          if_cases (Answered l) cfg.is_random_walk_eq _ _
            (λ walks. eq_random_walk-Answered cfg.rw_tests l) (λ words. eq_w_method-Answered l h)
    where
      decided_verdict : (v : Verdict) → Decided l.H ref 0 0 v → v ≢ out_of_fuel
      decided_verdict _ (found_apart w apart) e = cc
      decided_verdict _ (found_same agree) e = cc
