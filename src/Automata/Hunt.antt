-- ===== src/Automata/Hunt.antt =====
-- reference/salvage/lstar.cpp: huntWitness, which replays words until two runs of one word differ, and
-- minimizeAlphabet. A random generator is a state with a draw; `seeded` makes one from a seed.
use tcp_probe.Prelude.{
  ℕ, zero, suc, ◌+◌, ◌*◌, ◌%◌, Bool, true, false, ◌&&◌, ◌||◌, not, Option, none, some, List, [],
  ◌∷◌, length, get_elem?, ltb, leb, if◌then◌else◌,
}
use tcp_probe.Automata.Sul.{Sul}
use tcp_probe.Automata.Query.{is_same, raw}
use tcp_probe.Automata.Suffix.{is_nil}

pub record Hunt : Type 0 where
  pub found : Bool
  pub w : List ℕ
  pub reps_to_diverge : ℕ
  pub resets : ℕ

abbrev pub no_hunt : Hunt
no_hunt = record { found = false; w = []; reps_to_diverge = 0; resets = 0 }

-- `alpha[i]`, for an index inside.
abbrev letter_at : List ℕ → ℕ → ℕ
letter_at alpha i = elim (get_elem? alpha i) [ none ↦ 0 | some a ↦ a ]

-- `cand.erase(cand.begin() + i)`.
unfoldable pub erase_at : ℕ → List ℕ → List ℕ
erase_at i [] = []
erase_at zero (x ∷ xs) = xs
erase_at (suc i) (x ∷ xs) = x ∷ erase_at i xs

-- What a witness in the run `r` makes of the best one: a shorter word is better.
unfoldable pub better : Hunt → List ℕ → ℕ → Hunt
better best w r =
    if not best.found || ltb (length w) (length best.w)
    then record best { found = true; w = w; reps_to_diverge = r + 1 }
    else best

module _ {S R : Type 0} (u : Sul S) (resets_of : S → ℕ) (draw : R → R × ℕ) (seeded : ℕ → R)
    (fresh : S) (max_len trials max_reps : ℕ) where
  unfoldable pub random_letters : List ℕ → ℕ → R → R × List ℕ
  random_letters alpha zero rng = (rng, [])
  random_letters alpha (suc n) rng =
      let (rng1, x) = draw rng in
      let (rng2, w) = random_letters alpha n rng1 in (rng2, letter_at alpha (x % length alpha) ∷ w)

  -- The runs behind the first one, `r` being the next: where one differs, its number.
  unfoldable pub replay : ℕ → ℕ → List ℕ → S → List ℕ → S × Option ℕ
  replay zero r first s w = (s, none)
  replay (suc n) r first s w =
      let (s', o) = raw u s w in
      let more = replay n (r + 1) first s' w in if is_same o first then more else (s', some r)

  -- All the runs of a word.
  unfoldable pub replay_word : ℕ → S → List ℕ → S × Option ℕ
  replay_word zero s w = (s, none)
  replay_word (suc n) s w = let (s', first) = raw u s w in replay n 1 first s' w

  abbrev pub update : Hunt → List ℕ → Option ℕ → Hunt
  update best w none = best
  update best w (some r) = better best w r

  -- The loop over the trials.
  unfoldable pub hunt_trials : List ℕ → ℕ → R → S → Hunt → S × Hunt
  hunt_trials alpha zero rng s best = (s, best)
  hunt_trials alpha (suc t) rng s best =
      let (rng1, x) = draw rng in
      let (rng2, w) = random_letters alpha (1 + x % max_len) rng1 in
      let (s', r) = replay_word max_reps s w in
      let best' = update best w r in
      let more = hunt_trials alpha t rng2 s' best' in
      if best'.found && leb (length best'.w) 2 then (s', best') else more

  unfoldable pub hunt_witness : List ℕ → ℕ → Hunt
  hunt_witness alpha seed =
      let (s, best) = hunt_trials alpha trials (seeded seed) fresh no_hunt in
      record best { resets = resets_of s }

  -- Does the alphabet without its `i`-th letter still show a witness?
  abbrev pub shows_without : ℕ → List ℕ → ℕ → Bool
  shows_without seed alpha i =
      let cand = erase_at i alpha in
      if is_nil cand then false else (hunt_witness cand (seed + 31 * i)).found

  -- The inner loop of minimizeAlphabet, over `n` letters from the `i`-th: the first one to leave out.
  unfoldable pub first_removable : ℕ → List ℕ → ℕ → ℕ → Option ℕ
  first_removable seed alpha zero i = none
  first_removable seed alpha (suc n) i =
      let later = first_removable seed alpha n (i + 1) in
      if shows_without seed alpha i then some i else later

  -- The outer loop, on fuel.
  unfoldable pub shrink : ℕ → ℕ → List ℕ → List ℕ
  shrink seed zero alpha = alpha
  shrink seed (suc fuel) alpha = elim (first_removable seed alpha (length alpha) 0) [
    | none ↦ alpha
    | some i ↦ shrink seed fuel (erase_at i alpha)
  ]

  -- Each round leaves a letter out, so the alphabet's length is fuel enough.
  unfoldable pub minimize_alphabet : List ℕ → ℕ → List ℕ
  minimize_alphabet alpha seed = shrink seed (length alpha) alpha
