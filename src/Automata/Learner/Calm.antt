-- ===== src/Automata/Learner/Calm.antt =====
-- The learner over a deterministic system: none of the oracle's detectors fires.
use mathlib.Core.Path.{subst}
use tcp_probe.Prelude.{ℕ, ◌+◌, ◌≡◌, ◌∙◌, ap₂, refl, Bool, Option, none, some, List}
use tcp_probe.Automata.Mealy.{Mealy}
use tcp_probe.Automata.Sul.{Sul, Counters}
use tcp_probe.Automata.Query.{Oracle, query}
use tcp_probe.Automata.Determined.{Agrees}
use tcp_probe.Automata.Asked.{Answers, query-Told, new_oracle, new_cache-Agrees}
use tcp_probe.Automata.Product.Frontier.{IsClosed}
use tcp_probe.Automata.Learner.{Learner, fill_all}
use tcp_probe.Automata.Learner.Loop.{Config, Draws}
use tcp_probe.Automata.Learner.Run.{Report, new_learner, run_loop, report, run_learner}
use tcp_probe.Automata.Learner.Ends.{run_learner-Learnt}
use tcp_probe.Automata.Learner.Quiet.{Kept, fill_words-keeps, run_loop-keeps}

-- The cache agrees with the machine, and nothing was detected.
record IsCalm {S R : Type 0} (m : Mealy) (o : Oracle S R) : Type 0 where
  cache : Agrees m o.cache.size o.cache.nodes
  contradictions : o.cache.contradictions ≡ 0
  votes : o.vote_disagreements ≡ 0
  audits : o.audit_contradictions ≡ 0

module _ {U R G : Type 0} (m : Mealy) (u : Sul U) (draw : R → R × Bool) (draws : Draws G)
    (ref : Mealy) (cfg : Config) (ans : Answers m u) where
  query-IsCalm : (o : Oracle U R) (w : List ℕ) → IsCalm m o → IsCalm m (query u draw o w).0
  query-IsCalm o w c =
      let (answer, calm) = query-Told m u draw ans o w c.cache in
      record {
        cache = calm.cache;
        contradictions = calm.contradictions ∙ c.contradictions;
        votes = calm.votes ∙ c.votes;
        audits = calm.audits ∙ c.audits;
      }

  -- What the report says of the detectors.
  abbrev Silent : Option (Report U R G) → Type 0
  Silent none = Unit
  Silent (some r) = (r.d1_cache_contra ≡ 0) × (r.vote_disagree ≡ 0)

  run_learner-Silent :
      (members : U → Counters) (l : Learner U R G)
      → IsCalm m l.orc
      → Silent (run_learner u draw draws ref cfg members l)
  unfolding run_learner report
  run_learner-Silent members l c =
      by_end (run_loop u draw draws ref cfg (cfg.max_rounds + 2) (fill_all u draw ref l)) (
        run_loop-keeps u draw draws ref cfg (IsCalm m) query-IsCalm (cfg.max_rounds + 2)
          (fill_all u draw ref l)
          (fill_words-keeps u draw draws ref cfg (IsCalm m) query-IsCalm l l.S c))
    where
      by_end :
          (o : Option (Learner U R G))
          → Kept u draw draws ref cfg (IsCalm m) query-IsCalm o
          → Silent
              (elim o [ none ↦ none | some l' ↦ some (report u draw draws ref cfg members l') ])
      by_end none q = tt
      by_end (some l') q = (ap₂ (λ x y. x + y) q.contradictions q.audits, q.votes)

  -- Over a system that runs the machine `m` from its first state after every reset, and with a
  -- reference machine that is closed under its inputs, the learner returns, and its report has no
  -- contradiction in the cache, in an audit or in a vote: with any number of repeats, with and without
  -- the cache, with each equivalence oracle, and whether or not `m` is the reference.
  pub run_learner-calm :
      IsClosed ref ref.k
      → (members : U → Counters) (s : U) (audits : R) (repeats : ℕ) (bypass : Bool) (rng : G)
      → let orc = new_oracle m u draw s audits repeats bypass in
        (r : Report U R G) × (run_learner u draw draws ref cfg members (new_learner ref orc rng)
          ≡ some r)
        × (r.d1_cache_contra ≡ 0)
        × (r.vote_disagree ≡ 0)
  run_learner-calm c members s audits repeats bypass rng =
      let orc = new_oracle m u draw s audits repeats bypass in
      let learnt = run_learner-Learnt u draw draws ref cfg c members orc rng in
      let calm : IsCalm m orc = record {
        cache = new_cache-Agrees m;
        contradictions = refl;
        votes = refl;
        audits = refl;
      } in
      let (d1, votes) =
        subst Silent learnt.returns (run_learner-Silent members (new_learner ref orc rng) calm) in
      (learnt.result, learnt.returns, d1, votes)
