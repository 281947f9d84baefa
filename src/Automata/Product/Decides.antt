-- ===== src/Automata/Product/Decides.antt =====
-- The search of the pairs ends, and tells whether the two machines differ.
use tcp_probe.Prelude.{
  ℕ, zero, suc, ◌+◌, ◌*◌, ◌≤◌, ◌<◌, ◌≡◌, ◌≢◌, ◌⊎◌, inl, inr, refl, sym, ap, ap₂, ◌∙◌, arith, true,
  false, Option, none, some, List, [], ◌∷◌, length, ◌==◌, if_cases,
}
use mathlib.Core.Path.{subst}
use tcp_probe.Automata.Mealy.{Mealy, run}
use tcp_probe.Automata.Query.{head_or}
use tcp_probe.Automata.Product.{
  QueuedPair, Pairs, Verdict, separated, equivalent, out_of_fuel, offer, next_pair, try_letters,
  search_pairs, as_is, start_pairs, eq_perfect,
}
use tcp_probe.Automata.Product.Unseen.{unseen-blank, unseen-assign, assign-cell, assign-here}
use tcp_probe.Automata.Product.Frontier.{
  IsTidy, all_below, all_below-snoc, IsClosed, Queued, AllReached, next_pair-IsReached, Explored,
  Partial, Whole, Grows, offer-Grows, offer-seen, offer-new, offer-Queued, offer-AllReached, work,
  offer-work,
}

apart_heads : (x y : ℕ) → (x == y) ≡ false → x ≢ y
apart_heads x y h e = absurd (ground (arith, h, e))

module _ (H ref : Mealy) (s₀ t₀ : ℕ) where
  -- The word is one of inputs, and the outputs on it from the two states differ.
  pub record Separates (w : List ℕ) : Type 0 where
    pub letters : all_below ref.k w ≡ true
    pub differ : run H s₀ w ≢ run ref t₀ w

  -- The outputs from the two states agree on every word of inputs.
  abbrev pub Agree : Type 0
  Agree = (w : List ℕ) → all_below ref.k w ≡ true → run H s₀ w ≡ run ref t₀ w

  -- What a verdict says of the two states.
  pub data Decided : Verdict → Type 0 where
    found_apart : (w : List ℕ) → Separates w → Decided (separated w)
    found_same : Agree → Decided equivalent

  module _ (tidy : ℕ → ℕ → ℕ × ℕ) (law : IsTidy H ref tidy) (c : IsClosed H ref.k)
      (c' : IsClosed ref ref.k) where
    Explored-Grows :
        (f g : Pairs) (s t b : ℕ)
        → Grows tidy H ref s₀ t₀ f g
        → Explored tidy H ref s₀ t₀ f s t b
        → Explored tidy H ref s₀ t₀ g s t b
    Explored-Grows f g s t b up e = record { output = e.output; onward = up _ _ e.onward }

    Partial-offer :
        (p : QueuedPair) (a : ℕ) (f : Pairs)
        → a < ref.k
        → H.o p.first a ≡ ref.o p.second a
        → Partial tidy H ref s₀ t₀ p a f
        → Partial tidy H ref s₀ t₀ p (a + 1) (offer f (next_pair tidy H ref p a))
    unfolding next_pair
    Partial-offer p a f below same i =
        let q = next_pair tidy H ref p a in
        let g = offer f q in
        let up = offer-Grows tidy H ref s₀ t₀ f q in
        record {
          reached =
              offer-AllReached tidy H ref s₀ t₀ f q i.reached
                (next_pair-IsReached tidy H ref s₀ t₀ law c c' p a i.current below);
          current = i.current;
          origin = up s₀ t₀ i.origin;
          tried = λ b less. elim (last_or_before b a less) [
            | inl before ↦ Explored-Grows f g p.first p.second b up (i.tried b before)
            | inr now ↦
                subst (Explored tidy H ref s₀ t₀ g p.first p.second) (sym now)
                  (record { output = same; onward = offer-seen tidy H ref s₀ t₀ f q })
          ];
          others = λ s t h. elim (offer-new tidy H ref s₀ t₀ f q s t h) [
            | inr queued ↦ inr (inl queued)
            | inl old ↦ elim (i.others s t old) [
              | inl here ↦ inl here
              | inr (inl queued) ↦ inr (inl (offer-Queued tidy H ref s₀ t₀ f q s t queued))
              | inr (inr all) ↦ inr (inr λ b less. Explored-Grows f g s t b up (all b less))
            ]
          ];
        }
      where
        last_or_before : (b a : ℕ) → b < a + 1 → (b < a) ⊎ (b ≡ a)
        last_or_before b a h = ground (arith, h)

    Partial-Whole :
        (p : QueuedPair) (f : Pairs) → Partial tidy H ref s₀ t₀ p ref.k f → Whole tidy H ref s₀ t₀ f
    Partial-Whole p f i = record {
      reached = i.reached;
      origin = i.origin;
      others = λ s t h. elim (i.others s t h) [
        | inr rest ↦ rest
        | inl (x, y) ↦ inr λ b less.
            subst (λ s. Explored tidy H ref s₀ t₀ f s t b) x
              (subst (λ t. Explored tidy H ref s₀ t₀ f p.first t b) y (i.tried b less))
      ];
    }

    Whole-Partial :
        (p : QueuedPair) (rest : List QueuedPair) (f : Pairs)
        → f.queue ≡ p ∷ rest
        → Whole tidy H ref s₀ t₀ f
        → Partial tidy H ref s₀ t₀ p 0 (record f { queue = rest })
    Whole-Partial p rest f e i =
        let (now, later) = subst (AllReached tidy H ref s₀ t₀) e i.reached in
        record {
          reached = later;
          current = now;
          origin = i.origin;
          tried = λ b less. absurd (omega (arith, less));
          others = λ s t h. elim (i.others s t h) [
            | inl queued ↦ elim (subst (λ q. Queued q s t) e queued) [
              | inl here ↦ inl here
              | inr more ↦ inr (inl more)
            ]
            | inr all ↦ inr (
                inr λ b less. let x = all b less in record { output = x.output; onward = x.onward })
          ];
        }

    -- What the loop over the letters leaves.
    abbrev Tried : QueuedPair → Pairs → Pairs × Option (List ℕ) → Type 0
    Tried p f (f', none) =
        Partial tidy H ref s₀ t₀ p ref.k f' × (work tidy H ref s₀ t₀ f' ≡ work tidy H ref s₀ t₀ f)
    Tried p f (f', some w) = Separates w

    Tried-from :
        (p : QueuedPair) (f g : Pairs) (res : Pairs × Option (List ℕ))
        → work tidy H ref s₀ t₀ g ≡ work tidy H ref s₀ t₀ f
        → Tried p g res
        → Tried p f res
    Tried-from p f g (f', none) e h = (h.0, h.1 ∙ e)
    Tried-from p f g (f', some w) e h = h

    try_letters-Tried :
        (p : QueuedPair) (left a : ℕ) (f : Pairs)
        → a + left ≡ ref.k
        → Partial tidy H ref s₀ t₀ p a f
        → Tried p f (try_letters tidy H ref p left a f)
    unfolding try_letters run
    try_letters-Tried p zero a f e i =
        (subst (λ n. Partial tidy H ref s₀ t₀ p n f) (omega arith) i, refl)
    try_letters-Tried p (suc left) a f e i =
        if_cases (Tried p f) (H.o p.first a == ref.o p.second a) _ _
          (λ same.
            let q = next_pair tidy H ref p a in
            let below : a < ref.k = omega (arith, e) in
            let i' = Partial-offer p a f below (ground (arith, same)) i in
            let reached = next_pair-IsReached tidy H ref s₀ t₀ law c c' p a i.current below in
            Tried-from p f (offer f q) (try_letters tidy H ref p left (a + 1) (offer f q))
              (offer-work tidy H ref s₀ t₀ f q reached.in_first reached.in_second)
              (try_letters-Tried p left (a + 1) (offer f q) (omega (arith, e)) i'))
          λ apart. record {
            letters = all_below-snoc ref.k p.word a i.current.letters (omega (arith, e));
            differ = i.current.back (a ∷ []) λ same. apart_heads _ _ apart (ap head_or same);
          }

    -- The invariant at the end, where nothing waits: the outputs agree from every pair that is seen.
    agree_from :
        (f : Pairs)
        → f.queue ≡ []
        → Whole tidy H ref s₀ t₀ f
        → (w : List ℕ) (s t : ℕ) → all_below ref.k w ≡ true
        → f.seen s t ≡ true
        → run H s w ≡ run ref t w
    unfolding run
    agree_from f e i [] s t letters seen = refl
    agree_from f e i (a ∷ w) s t letters seen = elim (i.others s t seen) [
      | inl queued ↦ absurd (subst (λ q. Queued q s t) e queued)
      | inr all ↦
          let x = all a (ground (arith, letters)) in
          let (s', t') = tidy (H.d s a) (ref.d t a) in
          let rest =
            (law.agrees (H.d s a) (ref.d t a) w).0
              (agree_from f e i w s' t' (ground (arith, letters)) x.onward) in
          ap₂ (λ y r. y ∷ r) x.output rest
    ]

    after_letters :
        (fuel : ℕ) (p : QueuedPair) (f : Pairs) (res : Pairs × Option (List ℕ))
        → work tidy H ref s₀ t₀ f ≤ fuel
        → ((g : Pairs)
            → work tidy H ref s₀ t₀ g ≤ fuel
            → Whole tidy H ref s₀ t₀ g
            → Decided (search_pairs tidy H ref fuel g))
        → Tried p f res
        → Decided (elim res.1 [ some w ↦ separated w | none ↦ search_pairs tidy H ref fuel res.0 ])
    after_letters fuel p f (g, none) h go (i, kept) =
        go g (omega (arith, h, kept)) (Partial-Whole p g i)
    after_letters fuel p f (g, some w) h go apart = found_apart w apart

    search_pairs-Decided :
        (fuel : ℕ) (f : Pairs)
        → work tidy H ref s₀ t₀ f ≤ fuel
        → Whole tidy H ref s₀ t₀ f
        → Decided (search_pairs tidy H ref fuel f)
    unfolding search_pairs
    search_pairs-Decided zero f h i = by_queue f.queue refl
      where
        by_queue :
            (q : List QueuedPair)
            → f.queue ≡ q
            → Decided (elim q [ [] ↦ equivalent | p ∷ rest ↦ out_of_fuel ])
        by_queue [] e = found_same λ w letters. agree_from f e i w s₀ t₀ letters i.origin
        by_queue (p ∷ rest) e = absurd (omega (arith, ap (λ q. length q) e, h))
    search_pairs-Decided (suc fuel) f h i = by_queue f.queue refl (search_pairs-Decided fuel)
      where
        by_queue :
            (q : List QueuedPair)
            → f.queue ≡ q
            → ((g : Pairs)
                → work tidy H ref s₀ t₀ g ≤ fuel
                → Whole tidy H ref s₀ t₀ g
                → Decided (search_pairs tidy H ref fuel g))
            → Decided (elim q [
              | [] ↦ equivalent
              | p ∷ rest ↦
                  let (g, found) = try_letters tidy H ref p ref.k 0 (record f { queue = rest }) in
                  elim found [ some w ↦ separated w | none ↦ search_pairs tidy H ref fuel g ]
            ])
        by_queue [] e go = found_same λ w letters. agree_from f e i w s₀ t₀ letters i.origin
        by_queue (p ∷ rest) e go =
            let f' : Pairs = record f { queue = rest } in
            after_letters fuel p f' (try_letters tidy H ref p ref.k 0 f')
              (omega (arith, ap (λ q. length q) e, h)) go
              (try_letters-Tried p ref.k 0 f' (omega arith) (Whole-Partial p rest f e i))

    start-Whole : s₀ < H.n → t₀ < ref.n → Whole tidy H ref s₀ t₀ (start_pairs s₀ t₀)
    start-Whole x y = record {
      reached =
          (record { letters = refl; back = λ v apart. apart; in_first = x; in_second = y }, tt);
      origin = assign-here (λ s t. false) s₀ t₀ true;
      others = λ s t h. elim (assign-cell (λ s t. false) s₀ t₀ s t h) [
        | inl seen ↦ cc
        | inr at ↦ inl (inl at)
      ];
    }

    -- As many rounds as there are pairs are enough.
    pub search_pairs-decides :
        s₀ < H.n → t₀ < ref.n → Decided (search_pairs tidy H ref (H.n * ref.n) (start_pairs s₀ t₀))
    search_pairs-decides x y =
        search_pairs-Decided (H.n * ref.n) (start_pairs s₀ t₀)
          (omega
            (arith, unseen-assign (λ s t. false) H.n ref.n s₀ t₀ x y refl, unseen-blank H.n ref.n))
          (start-Whole x y)

as_is-IsTidy : (H ref : Mealy) → IsTidy H ref as_is
as_is-IsTidy H ref = record { inside = λ s t x y. (x, y); agrees = λ s t w. (λ e. e, λ e. e) }

-- If both machines are closed under the reference's inputs, then the search ends within as many
-- rounds as there are pairs of states. It returns a word exactly if the two machines differ: a word
-- that it returns consists of inputs and the outputs on it differ, and where it returns none, the
-- outputs agree on every word of inputs.
pub eq_perfect-Decided :
    (H ref : Mealy) → IsClosed H ref.k → IsClosed ref ref.k → Decided H ref 0 0 (eq_perfect H ref)
unfolding eq_perfect
eq_perfect-Decided H ref c c' =
    search_pairs-decides H ref 0 0 as_is (as_is-IsTidy H ref) c c' c.some_state c'.some_state
