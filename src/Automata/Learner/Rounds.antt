-- ===== src/Automata/Learner/Rounds.antt =====
-- A round of the learner's loop is over or goes on with the count of the rounds raised.
use tcp_probe.Prelude.{
  ℕ, suc, ◌+◌, ◌≤◌, ◌<◌, ◌≡◌, refl, sym, ap, ◌∙◌, arith, Bool, true, false, ◌||◌, Option, none,
  some, List, [], ◌∷◌, ◌++◌, length, ltb, ◌==◌, if◌then◌else◌, if_cases,
}
use mathlib.Core.Path.{subst}
use tcp_probe.Automata.Mealy.{Mealy}
use tcp_probe.Automata.Sul.{Sul}
use tcp_probe.Automata.Product.{Verdict, separated, equivalent, out_of_fuel}
use tcp_probe.Automata.Product.Frontier.{IsClosed}
use tcp_probe.Automata.Learner.{Learner, keys, count_dups, fill_all, build_hyp}
use tcp_probe.Automata.Learner.Loop.{
  Config, Draws, equivalence, close_table, is_capped, hypothesise, trim, find_suffix,
}
use tcp_probe.Automata.Learner.Run.{Course, over, again, add_suffix, refine, examine, learn_round}
use tcp_probe.Automata.Learner.Grows.{
  Grown, fill_all-Grown, fill_all-states, build_hyp-IsClosed, Closes, close_loop-Closes,
}
use tcp_probe.Automata.Learner.Answers.{IsHyp, Answered, equivalence-Answered}

module _ {U R G : Type 0} (u : Sul U) (draw : R → R × Bool) (draws : Draws G) (ref : Mealy)
    (cfg : Config) where
  -- What a round leads to.
  pub data Turned (l : Learner U R G) : Option (Course (Learner U R G)) → Type 0 where
    turned_over :
        (l' : Learner U R G)
        → length l.S ≤ length l'.S
        → length l'.S ≤ cfg.max_states + 2
        → Turned l (some (over l'))
    turned_again :
        (l' : Learner U R G)
        → length l.S ≤ length l'.S
        → length l'.S ≤ cfg.max_states + 1
        → l.st.rounds ≤ cfg.max_rounds
        → l'.st.rounds ≡ suc l.st.rounds
        → Turned l (some (again l'))

  close_table-Closes :
      (l : Learner U R G) → Closes u draw ref draws cfg l (close_table u draw draws ref cfg l)
  close_table-Closes l =
      close_loop-Closes u draw ref draws cfg (cfg.max_states + 2) l (omega arith) (omega arith)

  -- The learner `l` within the round that started with `l₀`, behind the count of the round.
  record Within (l₀ l : Learner U R G) : Type 0 where
    states : length l₀.S ≤ length l.S
    few : length l.S ≤ cfg.max_states
    rounds : l.st.rounds ≡ suc l₀.st.rounds
    few_rounds : l₀.st.rounds ≤ cfg.max_rounds

  add_suffix-Turned :
      (l₀ l : Learner U R G) (before : ℕ) (suf : List ℕ)
      → Within l₀ l
      → Turned l₀ (add_suffix u draw draws ref cfg before l suf)
  unfolding add_suffix build_hyp
  add_suffix-Turned l₀ l before suf w =
      let l1 : Learner U R G = record l { E = l.E ++ suf ∷ [] } in
      let filled = fill_all-states u draw ref l1 in
      let g = fill_all-Grown u draw ref l1 in
      let c = close_table-Closes (fill_all u draw ref l1) in
      let size = ap (λ s. length s) filled in
      let grows : length l₀.S ≤ length c.closed.S = omega (arith, c.grown.states, size, w.states) in
      let few : length c.closed.S ≤ cfg.max_states + 1 =
        c.limit cfg.max_states (omega arith) (omega (arith, size, w.few)) in
      subst
        (λ o. Turned l₀ (elim o [
          | none ↦ none
          | some l' ↦
              let st = l'.st in
              some (
                if length l'.S == before
                then over
                    (record l' { st = record st { d3_no_new_state = st.d3_no_new_state + 1 } })
                else again (build_hyp u draw ref l'))
        ]))
        (sym c.returns)
        (if_cases (λ (t : Course (Learner U R G)). Turned l₀ (some t)) (length c.closed.S == before)
          _ _ (λ same. turned_over _ grows (omega (arith, few)))
          λ other. turned_again _ grows few w.few_rounds (c.grown.rounds ∙ g.rounds ∙ w.rounds))

  trim-Within :
      (l₀ l : Learner U R G) (c : List ℕ)
      → Within l₀ l
      → Within l₀ (trim u draw draws ref cfg l c).0
  unfolding trim
  trim-Within l₀ l c w =
      if_cases (λ (r : Learner U R G × List ℕ). Within l₀ r.0) cfg.trim_ce _ _
        (λ trims. record {
          states = w.states;
          few = w.few;
          rounds = w.rounds;
          few_rounds = w.few_rounds;
        })
        λ whole. w

  find_suffix-Within :
      (l₀ l : Learner U R G) (c : List ℕ)
      → Within l₀ l
      → Within l₀ (find_suffix u draw draws ref cfg l c).0
  unfolding find_suffix
  find_suffix-Within l₀ l c w = record {
    states = w.states;
    few = w.few;
    rounds = w.rounds;
    few_rounds = w.few_rounds;
  }

  refine-Turned :
      (l₀ l : Learner U R G) (ce : List ℕ)
      → Within l₀ l
      → Turned l₀ (refine u draw draws ref cfg l ce)
  unfolding refine
  refine-Turned l₀ l ce w =
      let st = l.st in
      let l1 : Learner U R G = record l { st = record st { ce_count = st.ce_count + 1 } } in
      let (l2, c) = trim u draw draws ref cfg l1 ce in
      let (l3, suf) = find_suffix u draw draws ref cfg l2 c in
      let w1 : Within l₀ l1 = record {
        states = w.states;
        few = w.few;
        rounds = w.rounds;
        few_rounds = w.few_rounds;
      } in
      by_suffix (length l2.S) l3 (find_suffix-Within l₀ l2 c (trim-Within l₀ l1 ce w1)) suf
    where
      by_suffix :
          (before : ℕ) (l3 : Learner U R G)
          → Within l₀ l3
          → (suf : Option (List ℕ))
          → Turned l₀ (elim suf [
            | none ↦ some (over l3)
            | some e ↦ add_suffix u draw draws ref cfg before l3 e
          ])
      by_suffix before l3 w3 none = turned_over l3 w3.states (omega (arith, w3.few))
      by_suffix before l3 w3 (some e) = add_suffix-Turned l₀ l3 before e w3

  capped-few : (a b c : Bool) → (a || b || c) ≡ false → (a ≡ false) × (b ≡ false)
  capped-few a b c e = ground (arith, e)

  examine-Turned :
      IsClosed ref ref.k
      → (l : Learner U R G) → IsHyp u draw draws ref cfg l
      → length l.S ≤ cfg.max_states + 2
      → Turned l (examine u draw draws ref cfg l)
  unfolding examine
  examine-Turned c l h few =
      let st = l.st in
      let l1 : Learner U R G = record l { st = record st { rounds = st.rounds + 1 } } in
      if_cases (Turned l) (is_capped u draw draws ref cfg l) _ _
        (λ capped. turned_over _ (omega arith) few)
        λ free.
          let (x, y) =
            capped-few (ltb cfg.max_states (length l.S)) (ltb cfg.max_rounds l.st.rounds)
              (ltb cfg.max_mq l.orc.mq) free in
          by_answer (equivalence u draw draws ref cfg l1)
            (equivalence-Answered u draw draws ref cfg c l1
              (record { closed = h.closed; inputs = h.inputs }))
            (ground (arith, x)) (ground (arith, y))
    where
      by_answer :
          let st = l.st in
          (res : Learner U R G × Verdict)
          → Answered u draw draws ref cfg
              (record l { st = record st { rounds = st.rounds + 1 } })
              res
          → length l.S ≤ cfg.max_states
          → l.st.rounds ≤ cfg.max_rounds
          → Turned l (elim res.1 [
            | separated w ↦ refine u draw draws ref cfg res.0 w
            | equivalent ↦
                let st' = res.0.st in
                some (over (record (res.0) { st = record st' { terminated = true } }))
            | out_of_fuel ↦ none
          ])
      by_answer (l', separated w) a x y =
          let size = ap (λ s. length s) a.states in
          refine-Turned l l' w (record {
            states = omega (arith, size);
            few = omega (arith, size, x);
            rounds = omega (arith, a.rounds);
            few_rounds = y;
          })
      by_answer (l', equivalent) a x y =
          let size = ap (λ s. length s) a.states in
          turned_over _ (omega (arith, size)) (omega (arith, size, x))
      by_answer (l', out_of_fuel) a x y = absurd (a.verdict refl)

  Turned-from :
      (l l' : Learner U R G) (t : Option (Course (Learner U R G)))
      → Grown l l'
      → Turned l' t
      → Turned l t
  Turned-from l l' _ g (turned_over e grows small) =
      turned_over e (omega (arith, g.states, grows)) small
  Turned-from l l' _ g (turned_again e grows small left next) =
      turned_again e (omega (arith, g.states, grows)) small (omega (arith, g.rounds, left))
        (omega (arith, g.rounds, next))

  build_hyp-IsHyp :
      (l : Learner U R G) → 0 < length l.S → IsHyp u draw draws ref cfg (build_hyp u draw ref l)
  unfolding build_hyp
  build_hyp-IsHyp l some_state = record {
    closed = build_hyp-IsClosed u draw ref l ref.k some_state;
    inputs = refl;
  }

  -- The hypothesis that a round begins with.
  record Hypothesised (l : Learner U R G) (res : Option (Learner U R G)) : Type 0 where
    built : Learner U R G
    returns : res ≡ some built
    grown : Grown l built
    is_hyp : IsHyp u draw draws ref cfg built
    few_states : length built.S ≤ cfg.max_states + 2

  hypothesise-Hypothesised :
      (l : Learner U R G)
      → 0 < length l.S
      → length l.S ≤ cfg.max_states + 1
      → Hypothesised l (hypothesise u draw draws ref cfg l)
  unfolding hypothesise build_hyp
  hypothesise-Hypothesised l some_state few =
      let cl = close_table-Closes l in
      let st = cl.closed.st in
      let l1 : Learner U R G = record (cl.closed) {
        st = record st { d4_dup_row = st.d4_dup_row + count_dups [] (keys cl.closed) };
      } in
      let grown = cl.grown.states in
      subst
        (λ o. Hypothesised l (elim o [
          | none ↦ none
          | some l' ↦
              let st = l'.st in
              some (
                build_hyp u draw ref (record l' {
                  st = record st { d4_dup_row = st.d4_dup_row + count_dups [] (keys l') };
                }))
        ]))
        (sym cl.returns)
        (record {
          built = build_hyp u draw ref l1;
          returns = refl;
          grown = record { states = grown; rounds = cl.grown.rounds };
          is_hyp = build_hyp-IsHyp l1 (omega (arith, some_state, grown));
          few_states = omega (arith, cl.limit (cfg.max_states + 1) (omega arith) few);
        })

  pub learn_round-Turned :
      IsClosed ref ref.k
      → (l : Learner U R G) → 0 < length l.S
      → length l.S ≤ cfg.max_states + 1
      → Turned l (learn_round u draw draws ref cfg l)
  unfolding learn_round
  learn_round-Turned c l some_state few =
      let h = hypothesise-Hypothesised l some_state few in
      subst (λ o. Turned l (elim o [ none ↦ none | some l' ↦ examine u draw draws ref cfg l' ]))
        (sym h.returns)
        (Turned-from l h.built _ h.grown (examine-Turned c h.built h.is_hyp h.few_states))
