-- ===== src/Automata/Learner/Run.antt =====
-- reference/salvage/lstar.cpp: a round of `Learner::run`, its loop and what it reports.
use tcp_probe.Prelude.{
  ℕ, zero, suc, ◌+◌, Bool, true, false, ◌&&◌, Option, none, some, List, [], ◌∷◌, ◌++◌, length, ◌==◌,
  if◌then◌else◌,
}
use tcp_probe.Automata.Mealy.{Mealy}
use tcp_probe.Automata.Sul.{Sul, Counters}
use tcp_probe.Automata.Query.{Oracle}
use tcp_probe.Automata.Product.{Verdict, separated, equivalent, out_of_fuel, eq_perfect}
use tcp_probe.Automata.Learner.{Learner, Stats, fill_all, build_hyp}
use tcp_probe.Automata.Learner.Loop.{
  Config, Draws, equivalence, close_table, is_capped, hypothesise, trim, find_suffix,
}

-- Does the loop go on behind a round?
pub data Course (A : Type 0) : Type 0 where
  over again : A → Course A

pub record Report (U R G : Type 0) : Type 0 where
  pub learner : Learner U R G
  pub mq : ℕ
  pub resets : ℕ
  pub symbols : ℕ
  pub cache_hits : ℕ
  pub cache_misses : ℕ
  pub d1_cache_contra : ℕ
  pub vote_disagree : ℕ
  pub final_states : ℕ
  pub correct : Bool

-- The counters at the start.
abbrev pub no_stats : Stats
no_stats = record {
  rounds = 0;
  rs_queries = 0;
  ce_count = 0;
  eq_suite_size = 0;
  eq_tests_run = 0;
  terminated = false;
  d2_rs_first_sym = 0;
  d3_no_new_state = 0;
  d4_dup_row = 0;
  d5_cap_hit = 0;
  d6_dup_suffix = 0;
}

abbrev letters_from : ℕ → ℕ → List (List ℕ)
letters_from zero a = []
letters_from (suc left) a = (a ∷ []) ∷ letters_from left (a + 1)

-- `Mealy()`, before the first hypothesis.
abbrev no_machine : Mealy
no_machine = record { n = 0; k = 0; d = λ s a. 0; o = λ s a. 0; chal = λ s a. false }

abbrev pub new_learner : {U R G : Type 0} → Mealy → Oracle U R → G → Learner U R G
new_learner ref orc rng = record {
  orc = orc;
  S = [] ∷ [];
  E = letters_from ref.k 0;
  row = λ w. [];
  H = no_machine;
  st = no_stats;
  rng = rng;
}

abbrev pub is_equivalent : Verdict → Bool
is_equivalent (separated w) = false
is_equivalent equivalent = true
is_equivalent out_of_fuel = false

module _ {U R G : Type 0} (u : Sul U) (draw : R → R × Bool) (draws : Draws G) (ref : Mealy)
    (cfg : Config) where
  -- The part behind the suffix, where there were `before` states.
  unfoldable pub add_suffix : ℕ → Learner U R G → List ℕ → Option (Course (Learner U R G))
  add_suffix before l suf =
      elim (close_table u draw draws ref cfg
        (fill_all u draw ref (record l { E = l.E ++ suf ∷ [] }))) [
          | none ↦ none
          | some l' ↦
              let st = l'.st in
              some (
                if length l'.S == before
                then over
                    (record l' { st = record st { d3_no_new_state = st.d3_no_new_state + 1 } })
                else again (build_hyp u draw ref l'))
        ]

  -- The part behind a counterexample.
  unfoldable pub refine : Learner U R G → List ℕ → Option (Course (Learner U R G))
  refine l ce =
      let st = l.st in
      let l1 : Learner U R G = record l { st = record st { ce_count = st.ce_count + 1 } } in
      let (l2, c) = trim u draw draws ref cfg l1 ce in
      let (l3, suf) = find_suffix u draw draws ref cfg l2 c in
      elim suf [ none ↦ some (over l3) | some e ↦ add_suffix (length l2.S) l3 e ]

  -- The part behind the hypothesis.
  unfoldable pub examine : Learner U R G → Option (Course (Learner U R G))
  examine l =
      let st = l.st in
      let capped : Learner U R G = record l { st = record st { d5_cap_hit = st.d5_cap_hit + 1 } } in
      let (l', ce) =
        equivalence u draw draws ref cfg (record l { st = record st { rounds = st.rounds + 1 } }) in
      if is_capped u draw draws ref cfg l then some (over capped) else elim ce [
        | separated w ↦ refine l' w
        | equivalent ↦
            let st' = l'.st in some (over (record l' { st = record st' { terminated = true } }))
        | out_of_fuel ↦ none
      ]

  unfoldable pub learn_round : Learner U R G → Option (Course (Learner U R G))
  learn_round l = elim (hypothesise u draw draws ref cfg l) [ none ↦ none | some l' ↦ examine l' ]

  -- The loop: at most as many rounds as are allowed, and two.
  unfoldable pub run_loop : ℕ → Learner U R G → Option (Learner U R G)
  run_loop zero l = none
  run_loop (suc fuel) l = elim (learn_round l) [
    | none ↦ none
    | some (over l') ↦ some l'
    | some (again l') ↦ run_loop fuel l'
  ]

  -- The numbers behind the loop.
  unfoldable pub report : (U → Counters) → Learner U R G → Report U R G
  report members l =
      let end = build_hyp u draw ref l in
      record {
        learner = end;
        mq = l.orc.mq;
        resets = (members l.orc.sul).resets;
        symbols = (members l.orc.sul).steps;
        cache_hits = l.orc.cache.hits;
        cache_misses = l.orc.cache.misses;
        d1_cache_contra = l.orc.cache.contradictions + l.orc.audit_contradictions;
        vote_disagree = l.orc.vote_disagreements;
        final_states = length l.S;
        correct = l.st.terminated && is_equivalent (eq_perfect end.H ref);
      }

  unfoldable pub run_learner : (U → Counters) → Learner U R G → Option (Report U R G)
  run_learner members l = elim (run_loop (cfg.max_rounds + 2) (fill_all u draw ref l)) [
    | none ↦ none
    | some l' ↦ some (report members l')
  ]
