-- ===== src/Automata/Learner/Loop.antt =====
-- reference/salvage/lstar.cpp: the equivalence oracles and `Learner::run`. `none` stands for a loop that
-- has run out of fuel.
use tcp_probe.Prelude.{
  ℕ, zero, suc, ◌+◌, Bool, true, false, ◌||◌, Option, none, some, List, [], ◌∷◌, ◌++◌, length, take,
  ltb, ◌==◌, if◌then◌else◌,
}
use tcp_probe.Automata.Mealy.{Mealy, run}
use tcp_probe.Automata.Sul.{Sul}
use tcp_probe.Automata.Query.{Oracle, is_same, query}
use tcp_probe.Automata.Suffix.{Search, rivest_schapire}
use tcp_probe.Automata.Product.{Verdict, separated, equivalent, out_of_fuel, eq_perfect}
use tcp_probe.Automata.Characterize.{insert_word, characterizing_set}
use tcp_probe.Automata.Learner.{Learner, close_once, keys, count_dups, build_hyp}

-- `Config`, but for `rwStop`, which is part of the generator, and `verbose`.
pub record Config : Type 0 where
  pub use_e_as_w : Bool
  pub m_extra : ℕ
  pub is_perfect_eq : Bool
  pub is_random_walk_eq : Bool
  pub rw_tests : ℕ
  pub trim_ce : Bool
  pub max_rounds : ℕ
  pub max_states : ℕ
  pub max_mq : ℕ

-- The draws of the generator: a letter, and whether a walk goes on.
pub record Draws (G : Type 0) : Type 0 where
  pub letter : G → G × ℕ
  pub goes_on : G → G × Bool

-- `if (W.empty()) W.push_back(Word{0})`.
abbrev pub or_first_letter : List (List ℕ) → List (List ℕ)
or_first_letter [] = (0 ∷ []) ∷ []
or_first_letter (w ∷ ws) = w ∷ ws

-- The words by a letter longer than `f`, of the letters from `a` on; then of all words.
unfoldable pub extend : ℕ → ℕ → List ℕ → List (List ℕ)
extend zero a f = []
extend (suc left) a f = (f ++ a ∷ []) ∷ extend left (a + 1) f

unfoldable pub extend_all : ℕ → List (List ℕ) → List (List ℕ)
extend_all k [] = []
extend_all k (f ∷ frontier) = extend k 0 f ++ extend_all k frontier

-- `mid` behind `levels` rounds.
unfoldable pub middle : ℕ → ℕ → List (List ℕ) → List (List ℕ) → List (List ℕ)
middle k zero mid frontier = mid
middle k (suc levels) mid frontier =
    let nf = extend_all k frontier in middle k levels (mid ++ nf) nf

-- `suite` behind the loops over `W`, `mid` and `S`.
unfoldable pub suite_of_word : List ℕ → List (List ℕ) → List (List ℕ) → List (List ℕ)
suite_of_word u [] suite = suite
suite_of_word u (w ∷ ws) suite = suite_of_word u ws (insert_word (u ++ w) suite)

unfoldable pub suite_of_access :
    List ℕ → List (List ℕ) → List (List ℕ) → List (List ℕ) → List (List ℕ)
suite_of_access s [] ws suite = suite
suite_of_access s (m ∷ mid) ws suite = suite_of_access s mid ws (suite_of_word (s ++ m) ws suite)

unfoldable pub suite_of :
    List (List ℕ) → List (List ℕ) → List (List ℕ) → List (List ℕ) → List (List ℕ)
suite_of [] mid ws suite = suite
suite_of (s ∷ ss) mid ws suite = suite_of ss mid ws (suite_of_access s mid ws suite)

-- The loop of a random walk of at most 60 letters; `left` more may follow.
unfoldable pub walk : {G : Type 0} → Draws G → ℕ → G → List ℕ → G × List ℕ
walk d zero g w = ((d.goes_on g).0, w)
walk d (suc left) g w = elim (d.goes_on g).1 [
  | false ↦ ((d.goes_on g).0, w)
  | true ↦ let (g', a) = d.letter (d.goes_on g).0 in walk d left g' (w ++ a ∷ [])
]

unfoldable pub random_walk : {G : Type 0} → Draws G → G → G × List ℕ
random_walk d g = let (g', a) = d.letter g in walk d 59 g' (a ∷ [])

-- The first `n` symbols where the two words agree, and the next one.
unfoldable pub first_apart : List ℕ → List ℕ → ℕ
first_apart [] h = 0
first_apart (x ∷ s) [] = 0
first_apart (x ∷ s) (y ∷ h) = let rest = first_apart s h in if x == y then suc rest else 0

module _ {U R G : Type 0} (u : Sul U) (draw : R → R × Bool) (draws : Draws G) (ref : Mealy)
    (cfg : Config) where
  -- A test: the word goes to the system and to the hypothesis.
  unfoldable pub test_word : Learner U R G → List ℕ → Learner U R G × Bool
  test_word l w =
      let (orc, so) = query u draw l.orc w in
      let st = l.st in
      (
        record l { orc = orc; st = record st { eq_tests_run = st.eq_tests_run + 1 } },
        is_same so (run l.H 0 w),
      )

  unfoldable pub test_suite : Learner U R G → List (List ℕ) → Learner U R G × Verdict
  test_suite l [] = (l, equivalent)
  test_suite l (t ∷ suite) = elim (test_word l t).1 [
    | true ↦ test_suite (test_word l t).0 suite
    | false ↦ ((test_word l t).0, separated t)
  ]

  unfoldable pub w_suite : Learner U R G → List (List ℕ) → List (List ℕ)
  w_suite l ws =
      suite_of l.S (middle ref.k (1 + cfg.m_extra) ([] ∷ []) ([] ∷ [])) (or_first_letter ws) []

  unfoldable pub eq_w_method : Learner U R G → Learner U R G × Verdict
  eq_w_method l = elim (if cfg.use_e_as_w then some l.E else characterizing_set l.H) [
    | none ↦ (l, out_of_fuel)
    | some ws ↦
        let suite = w_suite l ws in
        let st = l.st in
        test_suite (record l { st = record st { eq_suite_size = length suite } }) suite
  ]

  unfoldable pub eq_random_walk : ℕ → Learner U R G → Learner U R G × Verdict
  eq_random_walk zero l = (l, equivalent)
  eq_random_walk (suc left) l =
      let (g, w) = random_walk draws l.rng in
      let (l', same) = test_word (record l { rng = g }) w in
      elim same [ true ↦ eq_random_walk left l' | false ↦ (l', separated w) ]

  unfoldable pub equivalence : Learner U R G → Learner U R G × Verdict
  equivalence l =
      if cfg.is_perfect_eq
      then (l, eq_perfect l.H ref)
      else if cfg.is_random_walk_eq
      then eq_random_walk cfg.rw_tests l
      else eq_w_method l

  -- `while (closeOnce()) { if ((int)S.size() > cfg.maxStates) break; }`.
  unfoldable pub close_loop : ℕ → Learner U R G → Option (Learner U R G)
  close_loop zero l = none
  close_loop (suc fuel) l = elim (close_once u draw ref l).1 [
    | false ↦ some (close_once u draw ref l).0
    | true ↦ elim (ltb cfg.max_states (length (close_once u draw ref l).0.S)) [
      | true ↦ some (close_once u draw ref l).0
      | false ↦ close_loop fuel (close_once u draw ref l).0
    ]
  ]

  -- As many rounds as there may be states, and two.
  abbrev pub close_table : Learner U R G → Option (Learner U R G)
  close_table l = close_loop (cfg.max_states + 2) l

  abbrev pub is_capped : Learner U R G → Bool
  is_capped l =
      ltb cfg.max_states (length l.S) || ltb cfg.max_rounds l.st.rounds || ltb cfg.max_mq l.orc.mq

  -- The part of a round up to the closed table and its hypothesis.
  unfoldable pub hypothesise : Learner U R G → Option (Learner U R G)
  hypothesise l = elim (close_table l) [
    | none ↦ none
    | some l' ↦
        let st = l'.st in
        some (
          build_hyp u draw ref
            (record l' { st = record st { d4_dup_row = st.d4_dup_row + count_dups [] (keys l') } }))
  ]

  -- The counterexample, trimmed behind the first symbol where the outputs differ.
  unfoldable pub trim : Learner U R G → List ℕ → Learner U R G × List ℕ
  trim l c =
      let (orc, so) = query u draw l.orc c in
      let j = first_apart so (run l.H 0 c) in
      if cfg.trim_ce
      then (record l { orc = orc }, if ltb j (length c) then take (j + 1) c else c)
      else (l, c)

  -- The call of `rivestSchapire`.
  unfoldable pub find_suffix : Learner U R G → List ℕ → Learner U R G × Option (List ℕ)
  find_suffix l c =
      let st = l.st in
      let search : Search (Oracle U R) = record {
        orc = l.orc;
        rs_queries = st.rs_queries;
        d2_rs_first_sym = st.d2_rs_first_sym;
        d6_dup_suffix = st.d6_dup_suffix;
      } in
      let (s, suf) = rivest_schapire (query u draw) l.S l.E l.H search c in
      (
        record l {
          orc = s.orc;
          st = record st {
            rs_queries = s.rs_queries;
            d2_rs_first_sym = s.d2_rs_first_sym;
            d6_dup_suffix = s.d6_dup_suffix;
          };
        },
        suf,
      )
