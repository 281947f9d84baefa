-- ===== src/Automata/Suffix.antt =====
-- reference/salvage/lstar.cpp: `Learner::rivestSchapire`, which finds a suffix in a counterexample. The
-- oracle is a state with a query operation; `S`, `E` and `H` are the members that it reads.
use tcp_probe.Prelude.{
  ℕ, zero, suc, ◌+◌, ◌-◌, ◌/◌, Bool, true, false, ◌||◌, not, Option, none, some, List, [], ◌∷◌,
  ◌++◌, length, take, drop, get_elem?, ltb, ◌==◌, if◌then◌else◌,
}
use tcp_probe.Automata.Mealy.{Mealy, run, reach}
use tcp_probe.Automata.Query.{is_same}

-- The oracle and the counters that the search changes.
pub record Search (Q : Type 0) : Type 0 where
  pub orc : Q
  pub rs_queries : ℕ
  pub d2_rs_first_sym : ℕ
  pub d6_dup_suffix : ℕ

-- `lastN`, for words that are long enough.
unfoldable pub last_n : List ℕ → ℕ → List ℕ
last_n o n = drop (length o - n) o

abbrev pub or_empty : Option (List ℕ) → List ℕ
or_empty none = []
or_empty (some w) = w

-- Is the suffix in `E`?
unfoldable pub is_in : List ℕ → List (List ℕ) → Bool
is_in w [] = false
is_in w (e ∷ es) = is_same e w || is_in w es

-- Do two words differ in their first symbols, or is the first one empty?
unfoldable pub first_differs : List ℕ → List ℕ → Bool
first_differs [] h = true
first_differs (x ∷ b) [] = true
first_differs (x ∷ b) (y ∷ h) = not (x == y)

abbrev pub is_nil : List ℕ → Bool
is_nil [] = true
is_nil (x ∷ xs) = false

module _ {Q : Type 0} (query : Q → List ℕ → Q × List ℕ) (S E : List (List ℕ)) (H : Mealy) where
  unfoldable pub hyp_state : List ℕ → ℕ
  hyp_state w = reach H 0 w

  -- The access word of a state; the hypothesis has as many states as `S` words.
  abbrev pub access : ℕ → List ℕ
  access s = or_empty (get_elem? S s)

  -- `beta`.
  unfoldable pub beta : Search Q → List ℕ → ℕ → Search Q × List ℕ
  beta l ce i =
      let suf = drop i ce in
      let (orc, o) = query l.orc (access (hyp_state (take i ce)) ++ suf) in
      (record l { orc = orc; rs_queries = l.rs_queries + 1 }, last_n o (length suf))

  -- `hOut`.
  unfoldable pub h_out : List ℕ → ℕ → List ℕ
  h_out ce i = run H (hyp_state (take i ce)) (drop i ce)

  -- `P`.
  unfoldable pub differs : Search Q → List ℕ → ℕ → Search Q × Bool
  differs l ce i = let (l', b) = beta l ce i in (l', not (is_same b (h_out ce i)))

  -- The binary search: `lo` where it ends. The fuel is the width of the interval.
  unfoldable pub bisect : ℕ → Search Q → List ℕ → ℕ → ℕ → Search Q × ℕ
  bisect zero l ce lo hi = (l, lo)
  bisect (suc fuel) l ce lo hi =
      let mid = lo + (hi - lo) / 2 in
      let (l', p) = differs l ce mid in
      let above = bisect fuel l' ce mid hi in
      let below = bisect fuel l' ce lo mid in
      if ltb 1 (hi - lo) then (if p then above else below) else (l, lo)

  -- The part behind the search.
  unfoldable pub suffix_at : Search Q → List ℕ → ℕ → Search Q × Option (List ℕ)
  suffix_at l ce lo =
      let (l', b) = beta l ce lo in
      let suffix = drop (lo + 1) ce in
      let bad : Search Q = record l' { d2_rs_first_sym = l.d2_rs_first_sym + 1 } in
      let dup : Search Q = record l' { d6_dup_suffix = l.d6_dup_suffix + 1 } in
      if first_differs b (h_out ce lo)
      then (bad, none)
      else if is_nil suffix
      then (bad, none)
      else if is_in suffix E
      then (dup, none)
      else (l', some suffix)

  unfoldable pub rivest_schapire : Search Q → List ℕ → Search Q × Option (List ℕ)
  rivest_schapire l ce = let (l', lo) = bisect (length ce) l ce 0 (length ce) in suffix_at l' ce lo
