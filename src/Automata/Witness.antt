-- ===== src/Automata/Witness.antt =====
-- What a hunt proves of a system.
use tcp_probe.Prelude.{
  ℕ, zero, suc, ◌+◌, ◌%◌, ◌≡◌, refl, sym, ap, ◌∙◌, false, ◌&&◌, Option, none, List, length, leb,
  if_cases,
}
use tcp_probe.Automata.Mealy.{Mealy, run}
use tcp_probe.Automata.Sul.{Sul}
use tcp_probe.Automata.Query.{is_same, raw}
use tcp_probe.Automata.Determined.{is_same_refl}
use tcp_probe.Automata.Asked.{Answers}
use tcp_probe.Automata.Hunt.{
  Hunt, no_hunt, random_letters, replay, replay_word, update, hunt_trials, hunt_witness,
}

module _ {S R : Type 0} (u : Sul S) (resets_of : S → ℕ) (draw : R → R × ℕ) (seeded : ℕ → R)
    (fresh : S) (max_len trials max_reps : ℕ) where
  module _ (m : Mealy) (ans : Answers m u) where
    replay-none :
        (n r : ℕ) (s : S) (w : List ℕ)
        → (replay u resets_of draw seeded fresh max_len trials max_reps n r (run m 0 w) s w).1
          ≡ none
    unfolding replay
    replay-none zero r s w = refl
    replay-none (suc n) r s w =
        if_cases (λ (x : S × Option ℕ). x.1 ≡ none) (is_same (raw u s w).1 (run m 0 w)) _ _
          (λ same. replay-none n (r + 1) (raw u s w).0 w)
          λ differs.
            let same = ap (λ o. is_same o (run m 0 w)) (ans s w) ∙ is_same_refl (run m 0 w) in
            let both = sym same ∙ differs in cc

    replay_word-none :
        (n : ℕ) (s : S) (w : List ℕ)
        → (replay_word u resets_of draw seeded fresh max_len trials max_reps n s w).1 ≡ none
    unfolding replay_word
    replay_word-none zero s w = refl
    replay_word-none (suc n) s w =
        let s' = (raw u s w).0 in
        ap (λ o. (replay u resets_of draw seeded fresh max_len trials max_reps n 1 o s' w).1)
          (ans s w)
        ∙ replay-none n 1 s' w

    hunt_trials-calm :
        (alpha : List ℕ) (t : ℕ) (rng : R) (s : S) (best : Hunt)
        → best.found ≡ false
        → (hunt_trials u resets_of draw seeded fresh max_len trials max_reps alpha t rng s
            best).1.found
          ≡ false
    unfolding hunt_trials
    hunt_trials-calm alpha zero rng s best e = e
    hunt_trials-calm alpha (suc t) rng s best e =
        let len = 1 + (draw rng).1 % max_len in
        let letters =
          random_letters u resets_of draw seeded fresh max_len trials max_reps alpha len
            (draw rng).0 in
        let played =
          replay_word u resets_of draw seeded fresh max_len trials max_reps max_reps s letters.1 in
        let best' =
          update u resets_of draw seeded fresh max_len trials max_reps best letters.1 played.1 in
        let calm : best'.found ≡ false =
          ap
            (λ r.
              (update u resets_of draw seeded fresh max_len trials max_reps best letters.1 r).found)
            (replay_word-none max_reps s letters.1)
          ∙ e in
        if_cases (λ (x : S × Hunt). x.1.found ≡ false) (best'.found && leb (length best'.w) 2) _ _
          (λ stop. calm) λ go_on. hunt_trials-calm alpha t letters.0 played.0 best' calm

    -- A hunt over a system that runs a machine from its first state after every reset finds no
    -- witness, whatever the alphabet and the random words: what it finds convicts the system.
    pub hunt_witness-calm :
        (alpha : List ℕ) (seed : ℕ)
        → (hunt_witness u resets_of draw seeded fresh max_len trials max_reps alpha seed).found
          ≡ false
    unfolding hunt_witness
    hunt_witness-calm alpha seed = hunt_trials-calm alpha trials (seeded seed) fresh no_hunt refl
