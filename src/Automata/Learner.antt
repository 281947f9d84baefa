-- ===== src/Automata/Learner.antt =====
-- reference/salvage/lstar.cpp: the observation table of `Learner`. A row is a list of cells, and `row`
-- is a function that has the empty row where the map has none. `names`, `sname` and the clock are left out.
pub mod Loop
pub mod Run
pub mod Grows
pub mod Answers
pub mod Rounds
pub mod Ends
pub mod Quiet
pub mod Calm
use tcp_probe.Prelude.{
  ℕ, zero, suc, ◌+◌, ◌%◌, Bool, true, false, Option, none, some, List, [], ◌∷◌, ◌++◌, map, length,
  get_elem?, ◌==◌, if◌then◌else◌,
}
use tcp_probe.Automata.Mealy.{Mealy}
use tcp_probe.Automata.Sul.{Sul}
use tcp_probe.Automata.Query.{Oracle, head_or, is_same, query}
use tcp_probe.Automata.Suffix.{last_n, or_empty, is_in, is_nil}

-- `Stats`, but for what `run` copies from the oracle at its end and for the time.
pub record Stats : Type 0 where
  pub rounds : ℕ
  pub rs_queries : ℕ
  pub ce_count : ℕ
  pub eq_suite_size : ℕ
  pub eq_tests_run : ℕ
  pub terminated : Bool
  pub d2_rs_first_sym : ℕ
  pub d3_no_new_state : ℕ
  pub d4_dup_row : ℕ
  pub d5_cap_hit : ℕ
  pub d6_dup_suffix : ℕ

-- The oracle is one over a system with the states `U`; `G` is the state of the learner's generator.
pub record Learner (U R G : Type 0) : Type 0 where
  pub orc : Oracle U R
  pub S : List (List ℕ)
  pub E : List (List ℕ)
  pub row : List ℕ → List (List ℕ)
  pub H : Mealy
  pub st : Stats
  pub rng : G

abbrev pub set_row : (List ℕ → List (List ℕ)) → List ℕ → List (List ℕ) → List ℕ → List (List ℕ)
set_row row w cells v = if is_same w v then cells else row v

abbrev pub first_cell : List (List ℕ) → List ℕ
first_cell [] = []
first_cell (c ∷ cells) = c

abbrev pub cells_behind : List (List ℕ) → List (List ℕ)
cells_behind [] = []
cells_behind (c ∷ cells) = cells

-- The characters of a row: `'0' + x` for each output and `'|'` behind each cell.
unfoldable pub key_of : List (List ℕ) → List ℕ
key_of [] = []
key_of (cell ∷ cells) = map (λ x. (48 + x) % 256) cell ++ 124 ∷ key_of cells

-- `idx[k]` behind the loop that fills it: the last index of the key.
unfoldable pub last_index : List ℕ → ℕ → List (List ℕ) → Option ℕ
last_index k i [] = none
last_index k i (x ∷ keys) = elim (last_index k (i + 1) keys) [
  | some j ↦ some j
  | none ↦ if is_same x k then some i else none
]

-- How many keys came before.
unfoldable pub count_dups : List (List ℕ) → List (List ℕ) → ℕ
count_dups before [] = 0
count_dups before (x ∷ keys) =
    let rest = count_dups (x ∷ before) keys in if is_in x before then rest + 1 else rest

module _ {U R G : Type 0} where
  abbrev pub key : Learner U R G → List ℕ → List ℕ
  key l w = key_of (l.row w)

  abbrev pub keys : Learner U R G → List (List ℕ)
  keys l = map (key l) l.S

module _ {U R : Type 0} (u : Sul U) (draw : R → R × Bool) where
  -- One cell of the row of `w`.
  unfoldable pub fill_cell : Oracle U R → List ℕ → List ℕ → List ℕ → Oracle U R × List ℕ
  fill_cell orc w e cell =
      let (orc', o) = query u draw orc (w ++ e) in
      if is_nil cell then (orc', last_n o (length e)) else (orc, cell)

  -- The loop of `fillRow` over `E`, with the cells that the row has.
  unfoldable pub fill_cells :
      Oracle U R → List ℕ → List (List ℕ) → List (List ℕ) → Oracle U R × List (List ℕ)
  fill_cells orc w cells [] = (orc, [])
  fill_cells orc w cells (e ∷ es) =
      let (orc', cell) = fill_cell orc w e (first_cell cells) in
      let (end, rest) = fill_cells orc' w (cells_behind cells) es in (end, cell ∷ rest)

module _ {U R G : Type 0} (u : Sul U) (draw : R → R × Bool) where
  unfoldable pub fill_row : Learner U R G → List ℕ → Learner U R G
  fill_row l w =
      let (orc, cells) = fill_cells u draw l.orc w (l.row w) l.E in
      record l { orc = orc; row = set_row l.row w cells }

  module _ (ref : Mealy) where
    -- The rows behind the word `w`, of the letters from `a` on.
    unfoldable pub fill_letters : ℕ → ℕ → Learner U R G → List ℕ → Learner U R G
    fill_letters zero a l w = l
    fill_letters (suc left) a l w = fill_letters left (a + 1) (fill_row l (w ++ a ∷ [])) w

    unfoldable pub fill_words : Learner U R G → List (List ℕ) → Learner U R G
    fill_words l [] = l
    fill_words l (s ∷ ss) = fill_words (fill_letters ref.k 0 (fill_row l s) s) ss

    abbrev pub fill_all : Learner U R G → Learner U R G
    fill_all l = fill_words l l.S

    -- The first letter from `a` on behind `w` whose row no word of `S` has.
    unfoldable pub open_letter : ℕ → ℕ → Learner U R G → List ℕ → Option (List ℕ)
    open_letter zero a l w = none
    open_letter (suc left) a l w =
        let rest = open_letter left (a + 1) l w in
        if is_in (key l (w ++ a ∷ [])) (keys l) then rest else some (w ++ a ∷ [])

    unfoldable pub open_word : Learner U R G → List (List ℕ) → Option (List ℕ)
    open_word l [] = none
    open_word l (s ∷ ss) = elim (open_letter ref.k 0 l s) [
      | some w ↦ some w
      | none ↦ open_word l ss
    ]

    unfoldable pub close_once : Learner U R G → Learner U R G × Bool
    close_once l = elim (open_word l l.S) [
      | none ↦ (l, false)
      | some w ↦ (fill_all (record l { S = l.S ++ w ∷ [] }), true)
    ]

    -- A transition of the hypothesis, and an output.
    abbrev pub hyp_next : Learner U R G → ℕ → ℕ → ℕ
    hyp_next l i a = elim (last_index (key l (or_empty (get_elem? l.S i) ++ a ∷ [])) 0 (keys l)) [
      | none ↦ i
      | some j ↦ j
    ]

    abbrev pub hyp_out : Learner U R G → ℕ → ℕ → ℕ
    hyp_out l i a = head_or (or_empty (get_elem? (l.row (or_empty (get_elem? l.S i))) a))

    unfoldable pub build_hyp : Learner U R G → Learner U R G
    build_hyp l =
        let st = l.st in
        record l {
          H = record {
            n = length l.S;
            k = ref.k;
            d = hyp_next l;
            o = hyp_out l;
            chal = λ s a. false;
          };
          st = record st { d4_dup_row = st.d4_dup_row + count_dups [] (keys l) };
        }
