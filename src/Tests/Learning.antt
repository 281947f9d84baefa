-- ===== src/Tests/Learning.antt =====
-- Systems under learning around the hand-written server, and an oracle over one of them.
use tcp_probe.Prelude.{
  ℕ, ◌+◌, ◌*◌, ◌≤◌, ◌≡◌, ◌≢◌, refl, some, ◌==◌, if◌then◌else◌, arith, Bool, true, false, not, List,
  [], ◌∷◌, map,
}
use tcp_probe.Automata.Mealy.{Mealy, run, reach, tcp_server, syn, ack}
use tcp_probe.Automata.Sul.{
  Sul, ChallengeSul, RefSul, det_bug_sul, challenge_step, challenge_reset, challenge_sul, new_ref,
  new_challenge,
}
use tcp_probe.Automata.Acts.{Act, reconnect, input, drive, challenges, inputs}
use tcp_probe.Automata.Bucket.{periods_begun, granted-bounds}
use tcp_probe.Automata.Query.{Oracle, is_same, raw, outputs}
use tcp_probe.Automata.Suffix.{
  Search, rivest_schapire, bisect, differs, beta, h_out, hyp_state, last_n, is_in, first_differs,
  suffix_at,
}
use tcp_probe.Automata.Hunt.{
  hunt_witness, hunt_trials, random_letters, replay_word, replay, better, minimize_alphabet, shrink,
  first_removable, erase_at,
}
use tcp_probe.Automata.Witness.{hunt_witness-calm}
use tcp_probe.Automata.Minimal.{Minimal, minimize_alphabet-Minimal}
use tcp_probe.Automata.Splits.{Splits, rivest_schapire-Splits}
use tcp_probe.Automata.Asked.{queries, new_oracle, queries-run}
use tcp_probe.Automata.Systems.{muted, det_bug_sul-Answers}

-- To ESTAB, two challenges, a new connection with one more and its last that finds no token.
abbrev probes : List Act
probes =
    input syn
    ∷ input ack
    ∷ input syn
    ∷ input syn
    ∷ reconnect
    ∷ input syn
    ∷ input ack
    ∷ input syn
    ∷ []

abbrev limited : ChallengeSul
limited = (drive (challenge_sul tcp_server 2 20) new_challenge probes).0

three_challenges : challenges tcp_server 0 probes ≡ 3
unfolding tcp_server
three_challenges = refl

granted-bounds_example :
    (limited.granted + limited.suppressed ≡ challenges tcp_server 0 probes)
    × (limited.granted ≤ 2 * periods_begun 20 (inputs probes))
granted-bounds_example = granted-bounds tcp_server 2 20 (omega arith) probes

none_lost : (drive (challenge_sul tcp_server 3 20) new_challenge probes).0.suppressed ≡ 0
unfolding tcp_server challenge_step challenge_reset
none_lost = refl

-- Every second hit is audited.
abbrev words : List (List ℕ)
words = (syn ∷ ack ∷ syn ∷ []) ∷ (syn ∷ ack ∷ []) ∷ (syn ∷ syn ∷ []) ∷ (syn ∷ ack ∷ syn ∷ []) ∷ []

abbrev draw : Bool → Bool × Bool
draw b = (not b, b)

abbrev muted_server : Mealy
muted_server = muted tcp_server

abbrev fresh_oracle : Oracle RefSul Bool
fresh_oracle = new_oracle muted_server (det_bug_sul tcp_server) draw new_ref true 3 false

queries-run_example :
    let (o, rs) = queries muted_server (det_bug_sul tcp_server) draw fresh_oracle words in
    (rs ≡ map (run muted_server 0) words)
    × (o.cache.contradictions ≡ 0)
    × (o.vote_disagreements ≡ 0)
    × (o.audit_contradictions ≡ 0)
queries-run_example =
    queries-run muted_server (det_bug_sul tcp_server) draw (det_bug_sul-Answers tcp_server) new_ref
      true 3 false words

-- A counter that gives 1 from its third input on, and a hypothesis with one state that never does.
abbrev counter : Mealy
counter = record {
  n = 3;
  k = 1;
  d = λ s a. if s == 2 then 2 else s + 1;
  o = λ s a. if s == 2 then 1 else 0;
  chal = λ s a. false;
}

abbrev constant : Mealy
constant = record { n = 1; k = 1; d = λ s a. 0; o = λ s a. 0; chal = λ s a. false }

abbrev asks : ℕ → List ℕ → ℕ × List ℕ
asks q w = (q + 1, run counter 0 w)

abbrev search : Search ℕ
search = record { orc = 0; rs_queries = 0; d2_rs_first_sym = 0; d6_dup_suffix = 0 }

abbrev three : List ℕ
three = 0 ∷ 0 ∷ 0 ∷ []

three_differs : run counter 0 three ≢ run constant 0 three
unfolding run
three_differs e = cc

found_suffix :
    (rivest_schapire asks ([] ∷ []) ((0 ∷ []) ∷ []) constant search three).1 ≡ some (0 ∷ 0 ∷ [])
unfolding rivest_schapire bisect differs beta h_out hyp_state last_n is_in first_differs suffix_at
    is_same run reach
found_suffix = refl

rivest_schapire-Splits_example :
    Splits asks ([] ∷ []) ((0 ∷ []) ∷ []) constant counter three (0 ∷ 0 ∷ [])
rivest_schapire-Splits_example =
    rivest_schapire-Splits asks ([] ∷ []) ((0 ∷ []) ∷ []) constant counter (λ q w. refl) search
      three (0 ∷ 0 ∷ []) refl three_differs found_suffix

-- Hunts over the bucket with one token, with letters drawn in turn.
abbrev turn_by_turn : ℕ → ℕ × ℕ
turn_by_turn n = (n + 1, n)

-- A machine whose input 0 is a challenge, and input 1 is not.
abbrev challenger : Mealy
challenger = record { n = 1; k = 2; d = λ s a. 0; o = λ s a. 2; chal = λ s a. a == 0 }

abbrev one_token : Sul ChallengeSul
one_token = challenge_sul challenger 1 1000

abbrev challenge_resets : ChallengeSul → ℕ
challenge_resets s = s.counts.resets

hunt_witness-calm_example :
    (hunt_witness
      (det_bug_sul tcp_server)
      (λ s. s.counts.resets)
      turn_by_turn
      (λ seed. seed)
      new_ref
      3
      2
      3
      (syn ∷ ack ∷ [])
      4).found
    ≡ false
hunt_witness-calm_example =
    hunt_witness-calm (det_bug_sul tcp_server) (λ s. s.counts.resets) turn_by_turn (λ seed. seed)
      new_ref 3 2 3 muted_server (det_bug_sul-Answers tcp_server) (syn ∷ ack ∷ []) 4

-- The second letter is left out, the first one is needed.
abbrev letters : List ℕ
letters =
    minimize_alphabet one_token challenge_resets turn_by_turn (λ seed. seed) new_challenge 1 1 3
      (0 ∷ 1 ∷ []) 4

one_letter : letters ≡ 0 ∷ []
unfolding minimize_alphabet shrink first_removable erase_at hunt_witness hunt_trials random_letters
    replay_word replay better raw outputs is_same challenge_step challenge_reset
one_letter = refl

minimize_alphabet-Minimal_example :
    Minimal one_token challenge_resets turn_by_turn
      (λ seed. seed)
      new_challenge
      1
      1
      3
      4
      (0 ∷ 1 ∷ [])
      letters
minimize_alphabet-Minimal_example =
    minimize_alphabet-Minimal one_token challenge_resets turn_by_turn (λ seed. seed) new_challenge 1
      1 3 (0 ∷ 1 ∷ []) 4
