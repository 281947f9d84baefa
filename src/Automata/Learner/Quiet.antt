-- ===== src/Automata/Learner/Quiet.antt =====
-- A property of the oracle that every query keeps is kept by the whole learner.
use tcp_probe.Prelude.{
  ℕ, zero, suc, ◌+◌, ◌-◌, ◌/◌, Bool, true, false, Option, none, some, List, [], ◌∷◌, ◌++◌, length,
  drop, ltb, ◌==◌, if◌then◌else◌, if_cases,
}
use tcp_probe.Automata.Mealy.{Mealy}
use tcp_probe.Automata.Sul.{Sul}
use tcp_probe.Automata.Query.{Oracle, query}
use tcp_probe.Automata.Suffix.{
  Search, is_nil, is_in, first_differs, beta, h_out, differs, bisect, suffix_at, rivest_schapire,
}
use tcp_probe.Automata.Product.{Verdict, separated, equivalent, out_of_fuel}
use tcp_probe.Automata.Characterize.{characterizing_set}
use tcp_probe.Automata.Learner.{
  Learner, first_cell, cells_behind, fill_cell, fill_cells, fill_row, fill_letters, fill_words,
  fill_all, open_word, close_once, build_hyp, keys, count_dups,
}
use tcp_probe.Automata.Learner.Loop.{
  Config, Draws, test_word, test_suite, w_suite, eq_w_method, random_walk, eq_random_walk,
  equivalence, close_table, close_loop, is_capped, hypothesise, trim, find_suffix,
}
use tcp_probe.Automata.Learner.Run.{
  Course, over, again, add_suffix, refine, examine, learn_round, run_loop,
}

module _ {U R G : Type 0} (u : Sul U) (draw : R → R × Bool) (draws : Draws G) (ref : Mealy)
    (cfg : Config) (P : Oracle U R → Type 0)
    (keep : (o : Oracle U R) (w : List ℕ) → P o → P (query u draw o w).0) where
  -- What a step leaves beside its answer.
  abbrev KeptBeside : {A : Type 0} → Learner U R G × A → Type 0
  KeptBeside (l, x) = P l.orc

  fill_cell-keeps : (o : Oracle U R) (w e cell : List ℕ) → P o → P (fill_cell u draw o w e cell).0
  unfolding fill_cell
  fill_cell-keeps o w e cell p =
      if_cases (λ (r : Oracle U R × List ℕ). P r.0) (is_nil cell) _ _ (λ empty. keep o (w ++ e) p)
        (λ filled. p)

  fill_cells-keeps :
      (o : Oracle U R) (w : List ℕ) (cells es : List (List ℕ))
      → P o
      → P (fill_cells u draw o w cells es).0
  unfolding fill_cells
  fill_cells-keeps o w cells [] p = p
  fill_cells-keeps o w cells (e ∷ es) p =
      fill_cells-keeps (fill_cell u draw o w e (first_cell cells)).0 w (cells_behind cells) es
        (fill_cell-keeps o w e (first_cell cells) p)

  fill_letters-keeps :
      (left a : ℕ) (l : Learner U R G) (w : List ℕ)
      → P l.orc
      → P (fill_letters u draw ref left a l w).orc
  unfolding fill_letters fill_row
  fill_letters-keeps zero a l w p = p
  fill_letters-keeps (suc left) a l w p =
      fill_letters-keeps left (a + 1) (fill_row u draw l (w ++ a ∷ [])) w
        (fill_cells-keeps l.orc (w ++ a ∷ []) (l.row (w ++ a ∷ [])) l.E p)

  pub fill_words-keeps :
      (l : Learner U R G) (ss : List (List ℕ)) → P l.orc → P (fill_words u draw ref l ss).orc
  unfolding fill_words fill_row
  fill_words-keeps l [] p = p
  fill_words-keeps l (s ∷ ss) p =
      fill_words-keeps (fill_letters u draw ref ref.k 0 (fill_row u draw l s) s) ss (
        fill_letters-keeps ref.k 0 (fill_row u draw l s) s
          (fill_cells-keeps l.orc s (l.row s) l.E p))

  close_once-keeps : (l : Learner U R G) → P l.orc → KeptBeside (close_once u draw ref l)
  unfolding close_once
  close_once-keeps l p = by_word (open_word u draw ref l l.S)
    where
      by_word :
          (o : Option (List ℕ))
          → KeptBeside {A = Bool} (elim o [
            | none ↦ (l, false)
            | some w ↦ (fill_all u draw ref (record l { S = l.S ++ w ∷ [] }), true)
          ])
      by_word none = p
      by_word (some w) =
          let l' : Learner U R G = record l { S = l.S ++ w ∷ [] } in fill_words-keeps l' l'.S p

  -- What a loop leaves, if it ends.
  abbrev pub Kept : Option (Learner U R G) → Type 0
  Kept none = Unit
  Kept (some l) = P l.orc

  close_loop-keeps :
      (fuel : ℕ) (l : Learner U R G) → P l.orc → Kept (close_loop u draw draws ref cfg fuel l)
  unfolding close_loop
  close_loop-keeps zero l p = tt
  close_loop-keeps (suc fuel) l p =
      let q = close_once-keeps l p in
      by_more (close_once u draw ref l) q (close_loop-keeps fuel (close_once u draw ref l).0 q)
    where
      by_more :
          (res : Learner U R G × Bool)
          → P res.0.orc
          → Kept (close_loop u draw draws ref cfg fuel res.0)
          → Kept (elim res.1 [
            | false ↦ some res.0
            | true ↦ elim (ltb cfg.max_states (length res.0.S)) [
              | true ↦ some res.0
              | false ↦ close_loop u draw draws ref cfg fuel res.0
            ]
          ])
      by_more (l', false) q rest = q
      by_more (l', true) q rest = by_limit (ltb cfg.max_states (length l'.S))
        where
          by_limit :
              (b : Bool)
              → Kept (elim b [ true ↦ some l' | false ↦ close_loop u draw draws ref cfg fuel l' ])
          by_limit true = q
          by_limit false = rest

  test_suite-keeps :
      (l : Learner U R G) (suite : List (List ℕ))
      → P l.orc
      → KeptBeside (test_suite u draw draws ref cfg l suite)
  unfolding test_suite test_word
  test_suite-keeps l [] p = p
  test_suite-keeps l (w ∷ suite) p =
      let q = keep l.orc w p in
      let l' = (test_word u draw draws ref cfg l w).0 in
      by_same (test_word u draw draws ref cfg l w).1 q (test_suite-keeps l' suite q)
    where
      by_same :
          let l' = (test_word u draw draws ref cfg l w).0 in
          (same : Bool)
          → P l'.orc
          → KeptBeside (test_suite u draw draws ref cfg l' suite)
          → KeptBeside {A = Verdict} (elim same [
            | true ↦ test_suite u draw draws ref cfg l' suite
            | false ↦ (l', separated w)
          ])
      by_same true q rest = rest
      by_same false q rest = q

  eq_random_walk-keeps :
      (left : ℕ) (l : Learner U R G)
      → P l.orc
      → KeptBeside (eq_random_walk u draw draws ref cfg left l)
  unfolding eq_random_walk test_word
  eq_random_walk-keeps zero l p = p
  eq_random_walk-keeps (suc left) l p =
      let (g, w) = random_walk draws l.rng in
      let q = keep l.orc w p in
      let tested = test_word u draw draws ref cfg (record l { rng = g }) w in
      by_same tested.1 q (eq_random_walk-keeps left tested.0 q)
    where
      by_same :
          let (g, w) = random_walk draws l.rng in
          let l' = (test_word u draw draws ref cfg (record l { rng = g }) w).0 in
          (same : Bool)
          → P l'.orc
          → KeptBeside (eq_random_walk u draw draws ref cfg left l')
          → KeptBeside {A = Verdict} (elim same [
            | true ↦ eq_random_walk u draw draws ref cfg left l'
            | false ↦ (l', separated w)
          ])
      by_same true q rest = rest
      by_same false q rest = q

  equivalence-keeps :
      (l : Learner U R G) → P l.orc → KeptBeside (equivalence u draw draws ref cfg l)
  unfolding equivalence eq_w_method
  equivalence-keeps l p =
      if_cases (λ (r : Learner U R G × Verdict). KeptBeside r) cfg.is_perfect_eq _ _ (λ perfect. p)
        λ imperfect.
          if_cases (λ (r : Learner U R G × Verdict). KeptBeside r) cfg.is_random_walk_eq _ _
            (λ walks. eq_random_walk-keeps cfg.rw_tests l p)
            λ words. by_words (if cfg.use_e_as_w then some l.E else characterizing_set l.H)
    where
      by_words :
          (o : Option (List (List ℕ)))
          → KeptBeside {A = Verdict} (elim o [
            | none ↦ (l, out_of_fuel)
            | some ws ↦
                let suite = w_suite u draw draws ref cfg l ws in
                let st = l.st in
                test_suite u draw draws ref cfg
                  (record l { st = record st { eq_suite_size = length suite } })
                  suite
          ])
      by_words none = p
      by_words (some ws) =
          let suite = w_suite u draw draws ref cfg l ws in
          let st = l.st in
          test_suite-keeps (record l { st = record st { eq_suite_size = length suite } }) suite p

  -- The search of Rivest and Schapire.
  beta-keeps :
      (S E : List (List ℕ)) (H : Mealy) (s : Search (Oracle U R)) (ce : List ℕ) (i : ℕ)
      → P s.orc
      → P (beta (query u draw) S E H s ce i).0.orc
  unfolding beta
  beta-keeps S E H s ce i p = keep s.orc _ p

  bisect-keeps :
      (S E : List (List ℕ)) (H : Mealy) (fuel : ℕ) (s : Search (Oracle U R)) (ce : List ℕ)
      (lo hi : ℕ)
      → P s.orc
      → P (bisect (query u draw) S E H fuel s ce lo hi).0.orc
  unfolding bisect differs
  bisect-keeps S E H zero s ce lo hi p = p
  bisect-keeps S E H (suc fuel) s ce lo hi p =
      let mid = lo + (hi - lo) / 2 in
      let (s', wrong) = differs (query u draw) S E H s ce mid in
      let q = beta-keeps S E H s ce mid p in
      if_cases (λ (r : Search (Oracle U R) × ℕ). P r.0.orc) (ltb 1 (hi - lo)) _ _
        (λ wide.
          if_cases (λ (r : Search (Oracle U R) × ℕ). P r.0.orc) wrong _ _
            (λ yes. bisect-keeps S E H fuel s' ce mid hi q)
            (λ no. bisect-keeps S E H fuel s' ce lo mid q))
        (λ narrow. p)

  suffix_at-keeps :
      (S E : List (List ℕ)) (H : Mealy) (s : Search (Oracle U R)) (ce : List ℕ) (lo : ℕ)
      → P s.orc
      → P (suffix_at (query u draw) S E H s ce lo).0.orc
  unfolding suffix_at
  suffix_at-keeps S E H s ce lo p =
      let q = beta-keeps S E H s ce lo p in
      let KeptSearch : Search (Oracle U R) × Option (List ℕ) → Type 0 = λ r. P r.0.orc in
      if_cases KeptSearch
        (first_differs (beta (query u draw) S E H s ce lo).1 (h_out (query u draw) S E H ce lo)) _ _
        (λ bad. q)
        λ good.
          if_cases KeptSearch (is_nil (drop (lo + 1) ce)) _ _ (λ bad. q)
            λ some_left. if_cases KeptSearch (is_in (drop (lo + 1) ce) E) _ _ (λ dup. q) (λ new. q)

  trim-keeps : (l : Learner U R G) (c : List ℕ) → P l.orc → P (trim u draw draws ref cfg l c).0.orc
  unfolding trim
  trim-keeps l c p =
      if_cases (λ (r : Learner U R G × List ℕ). P r.0.orc) cfg.trim_ce _ _ (λ trims. keep l.orc c p)
        (λ whole. p)

  find_suffix-keeps :
      (l : Learner U R G) (c : List ℕ) → P l.orc → P (find_suffix u draw draws ref cfg l c).0.orc
  unfolding find_suffix rivest_schapire
  find_suffix-keeps l c p =
      let st = l.st in
      let search : Search (Oracle U R) = record {
        orc = l.orc;
        rs_queries = st.rs_queries;
        d2_rs_first_sym = st.d2_rs_first_sym;
        d6_dup_suffix = st.d6_dup_suffix;
      } in
      let (s, lo) = bisect (query u draw) l.S l.E l.H (length c) search c 0 (length c) in
      suffix_at-keeps l.S l.E l.H s c lo
        (bisect-keeps l.S l.E l.H (length c) search c 0 (length c) p)

  -- What a round leaves.
  abbrev KeptCourse : Option (Course (Learner U R G)) → Type 0
  KeptCourse none = Unit
  KeptCourse (some (over l)) = P l.orc
  KeptCourse (some (again l)) = P l.orc

  add_suffix-keeps :
      (before : ℕ) (l : Learner U R G) (suf : List ℕ)
      → P l.orc
      → KeptCourse (add_suffix u draw draws ref cfg before l suf)
  unfolding add_suffix build_hyp
  add_suffix-keeps before l suf p =
      let l1 : Learner U R G = record l { E = l.E ++ suf ∷ [] } in
      by_closed (close_table u draw draws ref cfg (fill_all u draw ref l1)) (
        close_loop-keeps (cfg.max_states + 2) (fill_all u draw ref l1) (fill_words-keeps l1 l1.S p))
    where
      by_closed :
          (o : Option (Learner U R G))
          → Kept o
          → KeptCourse (elim o [
            | none ↦ none
            | some l' ↦
                let st = l'.st in
                some (
                  if length l'.S == before
                  then over
                      (record l' { st = record st { d3_no_new_state = st.d3_no_new_state + 1 } })
                  else again (build_hyp u draw ref l'))
          ])
      by_closed none q = tt
      by_closed (some l') q =
          if_cases (λ (c : Course (Learner U R G)). KeptCourse (some c)) (length l'.S == before) _ _
            (λ same. q) (λ other. q)

  refine-keeps :
      (l : Learner U R G) (ce : List ℕ) → P l.orc → KeptCourse (refine u draw draws ref cfg l ce)
  unfolding refine
  refine-keeps l ce p =
      let st = l.st in
      let l1 : Learner U R G = record l { st = record st { ce_count = st.ce_count + 1 } } in
      let (l2, c) = trim u draw draws ref cfg l1 ce in
      let (l3, suf) = find_suffix u draw draws ref cfg l2 c in
      by_suffix (length l2.S) l3 (find_suffix-keeps l2 c (trim-keeps l1 ce p)) suf
    where
      by_suffix :
          (before : ℕ) (l3 : Learner U R G)
          → P l3.orc
          → (suf : Option (List ℕ))
          → KeptCourse (elim suf [
            | none ↦ some (over l3)
            | some e ↦ add_suffix u draw draws ref cfg before l3 e
          ])
      by_suffix before l3 q none = q
      by_suffix before l3 q (some e) = add_suffix-keeps before l3 e q

  examine-keeps : (l : Learner U R G) → P l.orc → KeptCourse (examine u draw draws ref cfg l)
  unfolding examine
  examine-keeps l p =
      let st = l.st in
      let l1 : Learner U R G = record l { st = record st { rounds = st.rounds + 1 } } in
      if_cases KeptCourse (is_capped u draw draws ref cfg l) _ _ (λ capped. p)
        λ free. by_answer (equivalence u draw draws ref cfg l1) (equivalence-keeps l1 p)
    where
      by_answer :
          (res : Learner U R G × Verdict)
          → KeptBeside res
          → KeptCourse (elim res.1 [
            | separated w ↦ refine u draw draws ref cfg res.0 w
            | equivalent ↦
                let st' = res.0.st in
                some (over (record (res.0) { st = record st' { terminated = true } }))
            | out_of_fuel ↦ none
          ])
      by_answer (l', separated w) q = refine-keeps l' w q
      by_answer (l', equivalent) q = q
      by_answer (l', out_of_fuel) q = tt

  hypothesise-keeps : (l : Learner U R G) → P l.orc → Kept (hypothesise u draw draws ref cfg l)
  unfolding hypothesise build_hyp
  hypothesise-keeps l p =
      by_closed (close_table u draw draws ref cfg l) (close_loop-keeps (cfg.max_states + 2) l p)
    where
      by_closed :
          (o : Option (Learner U R G))
          → Kept o
          → Kept (elim o [
            | none ↦ none
            | some l' ↦
                let st = l'.st in
                some (
                  build_hyp u draw ref (record l' {
                    st = record st { d4_dup_row = st.d4_dup_row + count_dups [] (keys l') };
                  }))
          ])
      by_closed none q = tt
      by_closed (some l') q = q

  learn_round-keeps :
      (l : Learner U R G) → P l.orc → KeptCourse (learn_round u draw draws ref cfg l)
  unfolding learn_round
  learn_round-keeps l p = by_hypothesis (hypothesise u draw draws ref cfg l) (hypothesise-keeps l p)
    where
      by_hypothesis :
          (o : Option (Learner U R G))
          → Kept o
          → KeptCourse (elim o [ none ↦ none | some l' ↦ examine u draw draws ref cfg l' ])
      by_hypothesis none q = tt
      by_hypothesis (some l') q = examine-keeps l' q

  pub run_loop-keeps :
      (fuel : ℕ) (l : Learner U R G) → P l.orc → Kept (run_loop u draw draws ref cfg fuel l)
  unfolding run_loop
  run_loop-keeps zero l p = tt
  run_loop-keeps (suc fuel) l p =
      by_course (learn_round u draw draws ref cfg l) (learn_round-keeps l p) (run_loop-keeps fuel)
    where
      by_course :
          (t : Option (Course (Learner U R G)))
          → KeptCourse t
          → ((l' : Learner U R G) → P l'.orc → Kept (run_loop u draw draws ref cfg fuel l'))
          → Kept (elim t [
            | none ↦ none
            | some (over l') ↦ some l'
            | some (again l') ↦ run_loop u draw draws ref cfg fuel l'
          ])
      by_course none q ih = tt
      by_course (some (over l')) q ih = q
      by_course (some (again l')) q ih = ih l' q
