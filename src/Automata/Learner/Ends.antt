-- ===== src/Automata/Learner/Ends.antt =====
-- The learner's loop ends, over any system, and its verdict on the hypothesis is right.
use tcp_probe.Prelude.{
  ℕ, zero, suc, ◌+◌, ◌≤◌, ◌<◌, ◌≡◌, ◌↔◌, refl, sym, ap, arith, Bool, true, false, ◌&&◌, Option,
  none, some, length,
}
use mathlib.Core.Path.{subst}
use tcp_probe.Automata.Mealy.{Mealy}
use tcp_probe.Automata.Sul.{Sul, Counters}
use tcp_probe.Automata.Query.{Oracle}
use tcp_probe.Automata.Product.{Verdict, eq_perfect}
use tcp_probe.Automata.Product.Frontier.{IsClosed}
use tcp_probe.Automata.Product.Decides.{Agree, Decided, found_apart, found_same, eq_perfect-Decided}
use tcp_probe.Automata.Learner.{Learner, fill_all, build_hyp}
use tcp_probe.Automata.Learner.Loop.{Config, Draws}
use tcp_probe.Automata.Learner.Run.{
  Course, over, again, Report, new_learner, is_equivalent, learn_round, run_loop, report,
  run_learner,
}
use tcp_probe.Automata.Learner.Grows.{fill_all-Grown, fill_all-states, build_hyp-IsClosed}
use tcp_probe.Automata.Learner.Rounds.{Turned, turned_over, turned_again, learn_round-Turned}

is_equivalent_iff :
    (H ref : Mealy) (s t : ℕ) (v : Verdict)
    → Decided H ref s t v
    → (is_equivalent v ≡ true) ↔ Agree H ref s t
is_equivalent_iff H ref s t _ (found_apart w apart) =
    (λ e. cc, λ agree. absurd (apart.differ (agree w apart.letters)))
is_equivalent_iff H ref s t _ (found_same agree) = (λ e. agree, λ e. refl)

module _ {U R G : Type 0} (u : Sul U) (draw : R → R × Bool) (draws : Draws G) (ref : Mealy)
    (cfg : Config) where
  pub record Stopped (res : Option (Learner U R G)) : Type 0 where
    pub last : Learner U R G
    pub returns : res ≡ some last
    pub some_state : 0 < length last.S
    pub few_states : length last.S ≤ cfg.max_states + 2

  run_loop-Stopped :
      IsClosed ref ref.k
      → (fuel : ℕ) (l : Learner U R G) → 0 < length l.S
      → length l.S ≤ cfg.max_states + 1
      → l.st.rounds ≤ cfg.max_rounds + 1
      → cfg.max_rounds + 2 ≤ fuel + l.st.rounds
      → Stopped (run_loop u draw draws ref cfg fuel l)
  unfolding run_loop
  run_loop-Stopped c zero l some_state few rounds enough = absurd (omega (arith, rounds, enough))
  run_loop-Stopped c (suc fuel) l some_state few rounds enough =
      by_turn (learn_round u draw draws ref cfg l)
        (learn_round-Turned u draw draws ref cfg c l some_state few) (run_loop-Stopped c fuel)
    where
      by_turn :
          (t : Option (Course (Learner U R G)))
          → Turned u draw draws ref cfg l t
          → ((l' : Learner U R G)
              → 0 < length l'.S
              → length l'.S ≤ cfg.max_states + 1
              → l'.st.rounds ≤ cfg.max_rounds + 1
              → cfg.max_rounds + 2 ≤ fuel + l'.st.rounds
              → Stopped (run_loop u draw draws ref cfg fuel l'))
          → Stopped (elim t [
            | none ↦ none
            | some (over l') ↦ some l'
            | some (again l') ↦ run_loop u draw draws ref cfg fuel l'
          ])
      by_turn _ (turned_over l' grows small) ih = record {
        last = l';
        returns = refl;
        some_state = omega (arith, some_state, grows);
        few_states = small;
      }
      by_turn _ (turned_again l' grows small left next) ih =
          ih l' (omega (arith, some_state, grows)) small (omega (arith, left, next))
            (omega (arith, enough, next))

  -- A report: the table's size is bounded, and `correct` says that the loop has ended without a
  -- counterexample and that the hypothesis gives the outputs of the reference on every word of inputs.
  pub record Learnt (res : Option (Report U R G)) : Type 0 where
    pub result : Report U R G
    pub returns : res ≡ some result
    pub few_states : result.final_states ≤ cfg.max_states + 2
    pub correct_iff :
        (result.correct ≡ true)
        ↔ (result.learner.st.terminated ≡ true) × Agree result.learner.H ref 0 0

  both_iff : {P : Type 0} (a b : Bool) → (b ≡ true) ↔ P → ((a && b) ≡ true) ↔ (a ≡ true) × P
  both_iff true b h = (λ e. (refl, h.0 e), λ e. h.1 e.1)
  both_iff false b h = (λ e. cc, λ e. absurd cc)

  report-Learnt :
      IsClosed ref ref.k
      → (members : U → Counters) (l : Learner U R G) → 0 < length l.S
      → length l.S ≤ cfg.max_states + 2
      → Learnt (some (report u draw draws ref cfg members l))
  unfolding report build_hyp
  report-Learnt c members l some_state few =
      let end = build_hyp u draw ref l in
      record {
        result = report u draw draws ref cfg members l;
        returns = refl;
        few_states = few;
        correct_iff = both_iff l.st.terminated (is_equivalent (eq_perfect end.H ref)) (
            is_equivalent_iff end.H ref 0 0 (eq_perfect end.H ref)
              (eq_perfect-Decided end.H ref (build_hyp-IsClosed u draw ref l ref.k some_state) c));
      }

  pub run_learner-Learnt :
      IsClosed ref ref.k
      → (members : U → Counters) (orc : Oracle U R) (rng : G)
      → Learnt (run_learner u draw draws ref cfg members (new_learner ref orc rng))
  unfolding run_learner
  run_learner-Learnt c members orc rng =
      let l = new_learner ref orc rng in
      let start = fill_all u draw ref l in
      let g = fill_all-Grown u draw ref l in
      let size = ap (λ s. length s) (fill_all-states u draw ref l) in
      let end =
        run_loop-Stopped c (cfg.max_rounds + 2) start (omega (arith, size)) (omega (arith, size))
          (omega (arith, g.rounds)) (omega (arith, g.rounds)) in
      subst
        (λ o.
          Learnt (elim o [ none ↦ none | some l' ↦ some (report u draw draws ref cfg members l') ]))
        (sym end.returns) (report-Learnt c members end.last end.some_state end.few_states)
