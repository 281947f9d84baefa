-- ===== src/Automata/Asked.antt =====
-- What the oracle answers over a system that is deterministic.
use mathlib.Core.Path.{subst}
use tcp_probe.Prelude.{
  ℕ, zero, suc, ◌+◌, ◌<◌, ◌≡◌, refl, sym, ap, ap₂, ◌∙◌, arith, Bool, true, false, Option, none,
  some, List, [], ◌∷◌, map, length, replicate, leb, if◌then◌else◌, if_cases,
}
use tcp_probe.Automata.Mealy.{Mealy, run, length-run}
use tcp_probe.Automata.Sul.{Sul}
use tcp_probe.Automata.Query.{
  new_cache, Oracle, blank_node, lookup, insert, vote, raw, raws, raw_voted, ask, is_same, audit,
  serve, query,
}
use tcp_probe.Automata.Determined.{
  Agrees, lookup_from-run, Kept, insert-Kept, vote-replicate, is_same_refl,
}

pub new_cache-Agrees : (m : Mealy) → Agrees m 1 (λ x. blank_node)
new_cache-Agrees m = record {
  state = λ x. 0;
  root = refl;
  some_node = omega arith;
  inside = λ x a v e. cc;
  next = λ x a v e. cc;
  outs = λ x a v e. cc;
}

module _ (m : Mealy) {S : Type 0} (u : Sul S) where
  -- The system runs the machine from its first state, whatever happened before.
  abbrev pub Answers : Type 0
  Answers = (s : S) (w : List ℕ) → (raw u s w).1 ≡ run m 0 w

  raws-replicate :
      Answers → (n : ℕ) (s : S) (w : List ℕ) → (raws u n s w).1 ≡ replicate n (run m 0 w)
  unfolding raws
  raws-replicate ans zero s w = refl
  raws-replicate ans (suc n) s w =
      ap₂ (λ r rs. r ∷ rs) (ans s w) (raws-replicate ans n (raw u s w).0 w)

  voted :
      Answers → (n : ℕ) (s : S) (w : List ℕ) → 0 < n → vote w (raws u n s w).1 ≡ (run m 0 w, false)
  voted ans zero s w p = absurd (omega (arith, p))
  voted ans (suc n) s w p =
      ap (vote w) (raws-replicate ans (suc n) s w)
      ∙ vote-replicate n w (run m 0 w) (length-run m 0 w)

  module _ {R : Type 0} (draw : R → R × Bool) where
    -- What a question leaves as it was, and a cache that still agrees.
    pub record Calm (o o' : Oracle S R) : Type 0 where
      pub cache : Agrees m o'.cache.size o'.cache.nodes
      pub repeats : o'.repeats ≡ o.repeats
      pub contradictions : o'.cache.contradictions ≡ o.cache.contradictions
      pub votes : o'.vote_disagreements ≡ o.vote_disagreements
      pub audits : o'.audit_contradictions ≡ o.audit_contradictions

    -- A run or a vote: the answer, and an oracle with the same cache.
    record Voted (o : Oracle S R) (w : List ℕ) (res : Oracle S R × List ℕ) : Type 0 where
      answer : res.1 ≡ run m 0 w
      cache : res.0.cache ≡ o.cache
      repeats : res.0.repeats ≡ o.repeats
      votes : res.0.vote_disagreements ≡ o.vote_disagreements
      audits : res.0.audit_contradictions ≡ o.audit_contradictions

    raw_voted-Voted : Answers → (o : Oracle S R) (w : List ℕ) → Voted o w (raw_voted u o w)
    unfolding raw_voted
    raw_voted-Voted ans o w =
        if_cases (Voted o w) (leb o.repeats 1) _ _
          (λ few. record {
            answer = ans o.sul w;
            cache = refl;
            repeats = refl;
            votes = refl;
            audits = refl;
          })
          λ many.
            let v = voted ans o.repeats o.sul w (ground (arith, many)) in
            record {
              answer = ap (λ r. r.0) v;
              cache = refl;
              repeats = refl;
              votes = ap (λ r. if r.1 then o.vote_disagreements + 1 else o.vote_disagreements) v;
              audits = refl;
            }

    ask-Calm :
        Answers
        → (o : Oracle S R) (w : List ℕ) → Agrees m o.cache.size o.cache.nodes
        → let (o', r) = ask u o w in (r ≡ run m 0 w) × Calm o o'
    unfolding ask
    ask-Calm ans o w h =
        let v = raw_voted-Voted ans o w in
        let (kept, counts) =
          subst (λ r. Kept m o.cache (insert o.cache w r)) (sym v.answer)
            (insert-Kept m o.cache w h) in
        (
          v.answer,
          record {
            cache = kept;
            repeats = v.repeats;
            contradictions = counts;
            votes = v.votes;
            audits = v.audits;
          },
        )

    audit-Calm :
        Answers
        → (o : Oracle S R) (w hit : List ℕ) → Agrees m o.cache.size o.cache.nodes
        → hit ≡ run m 0 w
        → Calm o (audit u o w hit)
    unfolding audit
    audit-Calm ans o w hit h e =
        let v = raw_voted-Voted ans o w in
        let same : is_same (raw_voted u o w).1 hit ≡ true =
          ap₂ is_same v.answer e ∙ is_same_refl (run m 0 w) in
        if_cases (Calm o) (is_same (raw_voted u o w).1 hit) _ _
          (λ agrees. record {
            cache = subst (λ c. Agrees m c.size c.nodes) (sym v.cache) h;
            repeats = v.repeats;
            contradictions = ap (λ c. c.contradictions) v.cache;
            votes = v.votes;
            audits = v.audits;
          })
          λ differs. let both = sym same ∙ differs in cc

    serve-Calm :
        Answers
        → (o : Oracle S R) (w hit : List ℕ) → Agrees m o.cache.size o.cache.nodes
        → hit ≡ run m 0 w
        → Calm o (serve u draw o w hit)
    unfolding serve
    serve-Calm ans o w hit h e =
        let o' : Oracle S R = record o {
          cache = record (o.cache) {
            hits = o.cache.hits + 1;
            hit_symbols = o.cache.hit_symbols + length w;
          };
          rng = (draw o.rng).0;
        } in
        if_cases (Calm o) (draw o.rng).1 _ _
          (λ audited.
            let c = audit-Calm ans o' w hit h e in
            record {
              cache = c.cache;
              repeats = c.repeats;
              contradictions = c.contradictions;
              votes = c.votes;
              audits = c.audits;
            })
          λ unaudited. record {
            cache = h;
            repeats = refl;
            contradictions = refl;
            votes = refl;
            audits = refl;
          }

    -- An answer of the machine, with nothing detected.
    abbrev pub Told : Oracle S R → List ℕ → Oracle S R × List ℕ → Type 0
    Told o w (o', r) = (r ≡ run m 0 w) × Calm o o'

    pub query-Told :
        Answers
        → (o : Oracle S R) (w : List ℕ) → Agrees m o.cache.size o.cache.nodes
        → Told o w (query u draw o w)
    unfolding query
    query-Told ans o w h =
        let o' : Oracle S R = record o { mq = o.mq + 1 } in
        let asked = ask-Calm ans o' w h in
        let fresh : Told o w (ask u o' w) = (
          asked.0,
          record {
            cache = asked.1.cache;
            repeats = asked.1.repeats;
            contradictions = asked.1.contradictions;
            votes = asked.1.votes;
            audits = asked.1.audits;
          },
        ) in
        if_cases (Told o w) o.bypass _ _ (λ b. fresh) λ b. from_cache (lookup o.cache w) refl fresh
      where
        from_cache :
            (l : Option (List ℕ))
            → lookup o.cache w ≡ l
            → Told o w (ask u (record o { mq = o.mq + 1 }) w)
            → Told o w (elim l [
              | some hit ↦ (serve u draw (record o { mq = o.mq + 1 }) w hit, hit)
              | none ↦ ask u (record o { mq = o.mq + 1 }) w
            ])
        from_cache none l fresh = fresh
        from_cache (some hit) l fresh =
            let e : hit ≡ run m 0 w =
              lookup_from-run m o.cache.size o.cache.nodes h 0 w hit l
              ∙ ap (λ s. run m s w) h.root in
            let c = serve-Calm ans (record o { mq = o.mq + 1 }) w hit h e in
            (
              e,
              record {
                cache = c.cache;
                repeats = c.repeats;
                contradictions = c.contradictions;
                votes = c.votes;
                audits = c.audits;
              },
            )

    -- A sequence of questions.
    abbrev pub queries : Oracle S R → List (List ℕ) → Oracle S R × List (List ℕ)
    queries o [] = (o, [])
    queries o (w ∷ ws) =
        let (o', r) = query u draw o w in let (end, rs) = queries o' ws in (end, r ∷ rs)

    queries-Told :
        Answers
        → (o : Oracle S R) (ws : List (List ℕ)) → Agrees m o.cache.size o.cache.nodes
        → let (o', rs) = queries o ws in (rs ≡ map (run m 0) ws) × Calm o o'
    queries-Told ans o [] h = (
      refl,
      record { cache = h; repeats = refl; contradictions = refl; votes = refl; audits = refl },
    )
    queries-Told ans o (w ∷ ws) h =
        let (e, c) = query-Told ans o w h in
        let (es, d) = queries-Told ans (query u draw o w).0 ws c.cache in
        (
          ap₂ (λ r rs. r ∷ rs) e es,
          record {
            cache = d.cache;
            repeats = d.repeats ∙ c.repeats;
            contradictions = d.contradictions ∙ c.contradictions;
            votes = d.votes ∙ c.votes;
            audits = d.audits ∙ c.audits;
          },
        )

    -- The oracle as constructed, with its settings.
    abbrev pub new_oracle : S → R → ℕ → Bool → Oracle S R
    new_oracle s rng repeats bypass = record {
      sul = s;
      cache = new_cache;
      repeats = repeats;
      mq = 0;
      vote_disagreements = 0;
      audit_runs = 0;
      audit_contradictions = 0;
      rng = rng;
      bypass = bypass;
    }

    -- Over a system that runs the machine `m` from its first state after every reset, a new oracle
    -- answers every query by the machine's outputs, with any number of repeats, with and without the
    -- cache, whichever hits are audited; and no vote, no re-observation and no audit disagrees.
    pub queries-run :
        Answers
        → (s : S) (rng : R) (repeats : ℕ) (bypass : Bool) (ws : List (List ℕ))
        → let (o, rs) = queries (new_oracle s rng repeats bypass) ws in
          (rs ≡ map (run m 0) ws)
          × (o.cache.contradictions ≡ 0)
          × (o.vote_disagreements ≡ 0)
          × (o.audit_contradictions ≡ 0)
    queries-run ans s rng repeats bypass ws =
        let (answers, c) =
          queries-Told ans (new_oracle s rng repeats bypass) ws (new_cache-Agrees m) in
        (answers, c.contradictions, c.votes, c.audits)
