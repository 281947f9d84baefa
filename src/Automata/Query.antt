-- ===== src/Automata/Query.antt =====
-- reference/salvage/lstar.cpp: `Cache`, the prefix-closed cache of queries, and `Oracle`. The vector of
-- nodes is a function and its size, and so are a node's two vectors; a child -1 is `none`. An entry
-- of the log is kept as what its text is made of.
use tcp_probe.Prelude.{
  ℕ, zero, suc, ◌+◌, Bool, true, false, ◌&&◌, ◌||◌, Option, none, some, List, [], ◌∷◌, ◌++◌, length,
  ltb, leb, ◌==◌, if◌then◌else◌,
}
use tcp_probe.Automata.Sul.{Sul}

pub record Node : Type 0 where
  pub child : ℕ → Option ℕ
  pub out : ℕ → ℕ

pub data Contradiction : Type 0 where
  prefix_differs : ℕ → List ℕ → ℕ → ℕ → Contradiction
  audit_differs : List ℕ → Contradiction

pub record Cache : Type 0 where
  pub size : ℕ
  pub nodes : ℕ → Node
  pub hits : ℕ
  pub misses : ℕ
  pub hit_symbols : ℕ
  pub prefix_audits : ℕ
  pub contradictions : ℕ
  pub contra_log : List Contradiction

abbrev pub blank_node : Node
blank_node = record { child = λ a. none; out = λ a. 0 }

abbrev pub new_cache : Cache
new_cache = record {
  size = 1;
  nodes = λ u. blank_node;
  hits = 0;
  misses = 0;
  hit_symbols = 0;
  prefix_audits = 0;
  contradictions = 0;
  contra_log = [];
}

-- `lookup` from the node `u`.
unfoldable pub lookup_from : (ℕ → Node) → ℕ → List ℕ → Option (List ℕ)
lookup_from nodes u [] = some []
lookup_from nodes u (a ∷ w) = elim ((nodes u).child a) [
  | none ↦ none
  | some v ↦ elim (lookup_from nodes v w) [ none ↦ none | some r ↦ some ((nodes u).out a ∷ r) ]
]

abbrev pub lookup : Cache → List ℕ → Option (List ℕ)
lookup c w = lookup_from c.nodes 0 w

-- A cell of a vector.
abbrev pub set_at : {A : Type 0} → (ℕ → A) → ℕ → A → ℕ → A
set_at f i x j = if i == j then x else f j

-- The part of a round of `insert` for an edge that is not there: the new node is the last one.
unfoldable pub grow : Cache → ℕ → ℕ → ℕ → Cache
grow c u a x =
    let from = c.nodes u in
    let edge : Node = record {
      child = set_at from.child a (some c.size);
      out = set_at from.out a x;
    } in
    record c { size = c.size + 1; nodes = set_at (set_at c.nodes c.size blank_node) u edge }

-- At most six entries are kept.
abbrev pub log_entry : List Contradiction → Contradiction → List Contradiction
log_entry log e = if ltb (length log) 6 then log ++ e ∷ [] else log

-- The part for an edge that is there, the one of the `i`-th symbol of `whole`.
unfoldable pub recheck : Cache → ℕ → List ℕ → ℕ → ℕ → Cache
recheck c i whole stored fresh =
    let c' : Cache = record c { prefix_audits = c.prefix_audits + 1 } in
    if stored == fresh then c' else record c' {
      contradictions = c.contradictions + 1;
      contra_log = log_entry c.contra_log (prefix_differs (i + 1) whole stored fresh);
    }

-- The loop of `insert` from the node `u` and the `i`-th symbol of `whole`; there are as many outputs
-- as symbols.
unfoldable pub insert_from : Cache → ℕ → ℕ → List ℕ → List ℕ → List ℕ → Cache
insert_from c u i whole [] o = c
insert_from c u i whole (a ∷ w) [] = c
insert_from c u i whole (a ∷ w) (x ∷ o) = elim ((c.nodes u).child a) [
  | none ↦ insert_from (grow c u a x) c.size (i + 1) whole w o
  | some v ↦ insert_from (recheck c i whole ((c.nodes u).out a) x) v (i + 1) whole w o
]

unfoldable pub insert : Cache → List ℕ → List ℕ → Cache
insert c w o = insert_from c 0 0 w w o

-- The oracle over a system with the states `S`; `rng` is the generator behind the audits.
pub record Oracle (S R : Type 0) : Type 0 where
  pub sul : S
  pub cache : Cache
  pub repeats : ℕ
  pub mq : ℕ
  pub vote_disagreements : ℕ
  pub audit_runs : ℕ
  pub audit_contradictions : ℕ
  pub rng : R
  pub bypass : Bool

-- `cnt[v]++` on a sorted map from outputs to counts.
unfoldable pub count_in : ℕ → List (ℕ × ℕ) → List (ℕ × ℕ)
count_in v [] = (v, 1) ∷ []
count_in v ((k, n) ∷ cnt) =
    let rest = count_in v cnt in
    if v == k then (k, n + 1) ∷ cnt else if ltb v k then (v, 1) ∷ (k, n) ∷ cnt else (k, n) ∷ rest

-- The first key with the most votes: `best` with `bc`, which is `none` for -1.
unfoldable pub best_of : ℕ → Option ℕ → List (ℕ × ℕ) → ℕ
best_of best bc [] = best
best_of best none ((k, n) ∷ cnt) = best_of k (some n) cnt
best_of best (some c) ((k, n) ∷ cnt) =
    let keep = best_of best (some c) cnt in
    let change = best_of k (some n) cnt in if ltb c n then change else keep

abbrev pub head_or : List ℕ → ℕ
head_or [] = 0
head_or (x ∷ xs) = x

abbrev pub tail_of : List ℕ → List ℕ
tail_of [] = []
tail_of (x ∷ xs) = xs

-- The counts of what the runs give first, and the runs behind it.
unfoldable pub counts_of : List (List ℕ) → List (ℕ × ℕ)
counts_of [] = []
counts_of (r ∷ runs) = count_in (head_or r) (counts_of runs)

abbrev pub tails_of : List (List ℕ) → List (List ℕ)
tails_of [] = []
tails_of (r ∷ runs) = tail_of r ∷ tails_of runs

-- The loop of `rawVoted` over the positions: the outputs voted, and `dis`.
unfoldable pub vote : List ℕ → List (List ℕ) → List ℕ × Bool
vote [] runs = ([], false)
vote (a ∷ w) runs =
    let cnt = counts_of runs in
    let (r, dis) = vote w (tails_of runs) in (best_of 0 none cnt ∷ r, ltb 1 (length cnt) || dis)

-- `==` of two output words.
unfoldable pub is_same : List ℕ → List ℕ → Bool
is_same [] [] = true
is_same [] (y ∷ ys) = false
is_same (x ∷ xs) [] = false
is_same (x ∷ xs) (y ∷ ys) = x == y && is_same xs ys

module _ {S : Type 0} (u : Sul S) where
  -- The loop of `raw`.
  unfoldable pub outputs : S → List ℕ → S × List ℕ
  outputs s [] = (s, [])
  outputs s (a ∷ w) = let (s', out) = u.step s a in let (end, r) = outputs s' w in (end, out ∷ r)

  unfoldable pub raw : S → List ℕ → S × List ℕ
  raw s w = outputs (u.reset s) w

  -- `n` runs.
  unfoldable pub raws : ℕ → S → List ℕ → S × List (List ℕ)
  raws zero s w = (s, [])
  raws (suc n) s w = let (s', r) = raw s w in let (end, rs) = raws n s' w in (end, r ∷ rs)

  module _ {R : Type 0} where
    unfoldable pub raw_voted : Oracle S R → List ℕ → Oracle S R × List ℕ
    raw_voted o w =
        let (s1, r1) = raw o.sul w in
        let (s, runs) = raws o.repeats o.sul w in
        let (r, dis) = vote w runs in
        let more = if dis then o.vote_disagreements + 1 else o.vote_disagreements in
        if leb o.repeats 1
        then (record o { sul = s1 }, r1)
        else (record o { sul = s; vote_disagreements = more }, r)

    -- A fresh run whose outputs go into the cache.
    unfoldable pub ask : Oracle S R → List ℕ → Oracle S R × List ℕ
    ask o w =
        let (o', fresh) = raw_voted o w in
        let c = insert o.cache w fresh in
        (record o' { cache = record c { misses = c.misses + 1 } }, fresh)

    -- The audit of an answer from the cache.
    unfoldable pub audit : Oracle S R → List ℕ → List ℕ → Oracle S R
    audit o w hit =
        let (o', fresh) = raw_voted o w in
        let c = o.cache in
        if is_same fresh hit then record o' { audit_runs = o.audit_runs + 1 } else record o' {
          audit_runs = o.audit_runs + 1;
          audit_contradictions = o.audit_contradictions + 1;
          cache = record c { contra_log = log_entry c.contra_log (audit_differs w) };
        }

    -- The branch of `query` for an answer from the cache. `draw` says whether it is audited.
    unfoldable pub serve : (R → R × Bool) → Oracle S R → List ℕ → List ℕ → Oracle S R
    serve draw o w hit =
        let c = o.cache in
        let (rng, audited) = draw o.rng in
        let o' : Oracle S R = record o {
          cache = record c { hits = c.hits + 1; hit_symbols = c.hit_symbols + length w };
          rng = rng;
        } in
        if audited then audit o' w hit else o'

    unfoldable pub query : (R → R × Bool) → Oracle S R → List ℕ → Oracle S R × List ℕ
    query draw o w =
        let o' : Oracle S R = record o { mq = o.mq + 1 } in
        let asked = ask o' w in
        if o.bypass
        then asked
        else elim (lookup o.cache w) [ some hit ↦ (serve draw o' w hit, hit) | none ↦ asked ]
