-- ===== src/Tests/Tables.antt =====
-- The learner of the observation table on machines of two states.
use tcp_probe.Prelude.{
  ℕ, ◌-◌, ◌≡◌, refl, arith, Bool, true, false, Option, none, some, [], ◌∷◌, ◌==◌, if◌then◌else◌,
}
use tcp_probe.Automata.Mealy.{Mealy, run, reach}
use tcp_probe.Automata.Sul.{RefSul, ref_sul, det_bug_sul, new_ref}
use tcp_probe.Automata.Query.{
  Oracle, query, ask, raw_voted, raw, outputs, insert, insert_from, grow, lookup_from, is_same,
  serve, recheck, audit,
}
use tcp_probe.Automata.Asked.{new_oracle}
use tcp_probe.Automata.Product.{eq_perfect, search_pairs, try_letters, offer, next_pair, separated}
use tcp_probe.Automata.Product.Frontier.{IsClosed}
use tcp_probe.Automata.Product.Decides.{Decided, eq_perfect-Decided}
use tcp_probe.Automata.Characterize.{characterizing_set}
use tcp_probe.Automata.Characterize.Covers.{Characterizes, characterizing_set-Characterizes}
use tcp_probe.Automata.Suffix.{
  rivest_schapire, bisect, suffix_at, differs, beta, h_out, hyp_state, is_in, last_n, first_differs,
}
use tcp_probe.Automata.Learner.{
  fill_words, fill_letters, fill_row, fill_cells, fill_cell, open_word, open_letter, close_once,
  build_hyp, key_of, last_index, count_dups,
}
use tcp_probe.Automata.Learner.Loop.{
  Config, Draws, close_loop, hypothesise, equivalence, trim, find_suffix, first_apart,
}
use tcp_probe.Automata.Learner.Run.{
  Report, new_learner, run_learner, run_loop, learn_round, examine, refine, add_suffix, report,
}
use tcp_probe.Automata.Learner.Calm.{run_learner-calm}
use tcp_probe.Automata.Systems.{muted, det_bug_sul-Answers}

-- Input 0 switches, and answers whether it was on; input 1 asks nothing.
abbrev switch : Mealy
switch = record {
  n = 2;
  k = 2;
  d = λ s a. if a == 0 then 1 - s else s;
  o = λ s a. if a == 0 then s else 5;
  chal = λ s a. false;
}

-- A machine that is never on.
abbrev dark : Mealy
dark = record {
  n = 1;
  k = 2;
  d = λ s a. 0;
  o = λ s a. if a == 0 then 0 else 5;
  chal = λ s a. false;
}

switch-IsClosed : IsClosed switch 2
switch-IsClosed = record { some_state = omega arith; stays = λ s a h p. ground (arith, h) }

dark-IsClosed : IsClosed dark 2
dark-IsClosed = record { some_state = omega arith; stays = λ s a h p. omega arith }

eq_perfect-Decided_example : Decided dark switch 0 0 (eq_perfect dark switch)
eq_perfect-Decided_example = eq_perfect-Decided dark switch dark-IsClosed switch-IsClosed

apart_by_two : eq_perfect dark switch ≡ separated (0 ∷ 0 ∷ [])
unfolding eq_perfect search_pairs try_letters offer next_pair
apart_by_two = refl

characterizing_set-Characterizes_example : Characterizes switch (characterizing_set switch)
characterizing_set-Characterizes_example = characterizing_set-Characterizes switch switch-IsClosed

abbrev limits : Config
limits = record {
  use_e_as_w = false;
  m_extra = 0;
  is_perfect_eq = true;
  is_random_walk_eq = false;
  rw_tests = 5;
  trim_ce = true;
  max_rounds = 4;
  max_states = 3;
  max_mq = 1000;
}

abbrev no_draws : Draws ℕ
no_draws = record { letter = λ g. (g, 0); goes_on = λ g. (g, false) }

abbrev never : ℕ → ℕ × Bool
never r = (r, false)

abbrev switch_oracle : Oracle RefSul ℕ
switch_oracle = new_oracle switch (ref_sul switch) never new_ref 0 1 false

abbrev verdict : Option (Report RefSul ℕ ℕ) → Bool × ℕ
verdict none = (false, 0)
verdict (some r) = (r.correct, r.final_states)

switch_learnt :
    verdict (
      run_learner
        (ref_sul switch)
        never
        no_draws
        switch
        limits
        (λ s. s.counts)
        (new_learner switch switch_oracle 7))
    ≡ (true, 2)
unfolding run_learner run_loop learn_round hypothesise examine refine add_suffix report close_loop
    close_once fill_words fill_letters fill_row fill_cells fill_cell open_word open_letter build_hyp
    key_of last_index count_dups equivalence trim find_suffix rivest_schapire bisect suffix_at
    differs beta h_out hyp_state eq_perfect search_pairs try_letters offer next_pair query ask serve
    audit raw_voted raw outputs ref_sul insert insert_from grow recheck lookup_from is_same is_in
    last_n first_differs run reach first_apart
switch_learnt = refl

-- A harness that mutes the challenges: the system differs from its reference, but is deterministic.
abbrev asking : Mealy
asking = record switch { chal = λ s a. a == 1 }

run_learner-calm_example :
    (r : Report RefSul ℕ ℕ) × (run_learner
        (det_bug_sul asking)
        never
        no_draws
        switch
        limits
        (λ s. s.counts)
        (new_learner switch
          (new_oracle (muted asking) (det_bug_sul asking) never new_ref 0 3 false)
          7)
      ≡ some r)
    × (r.d1_cache_contra ≡ 0)
    × (r.vote_disagree ≡ 0)
run_learner-calm_example =
    run_learner-calm (muted asking) (det_bug_sul asking) never no_draws switch limits
      (det_bug_sul-Answers asking) switch-IsClosed (λ s. s.counts) new_ref 0 3 false 7
