-- ===== src/Automata/Product/Frontier.antt =====
-- What the queue and the set of the pairs seen say about the two machines.
use tcp_probe.Prelude.{
  ℕ, ◌+◌, ◌<◌, ◌≡◌, ◌≢◌, ◌⊎◌, ◌↔◌, inl, inr, refl, ap, arith, Bool, true, ◌&&◌, List, [], ◌∷◌, ◌++◌,
  length, length-append, ltb, if_cases,
}
use mathlib.Core.Path.{subst}
use mathlib.Core.Logic.{⊎_elim}
use tcp_probe.Automata.Mealy.{Mealy, run}
use tcp_probe.Automata.Query.{tail_of}
use tcp_probe.Automata.Product.{QueuedPair, Pairs, offer, next_pair}
use tcp_probe.Automata.Product.Unseen.{unseen, unseen-assign, assign-here, assign-cell}

-- The letters are inputs of a machine with `k` of them.
abbrev pub all_below : ℕ → List ℕ → Bool
all_below k [] = true
all_below k (a ∷ w) = ltb a k && all_below k w

pub all_below-snoc :
    (k : ℕ) (w : List ℕ) (a : ℕ) → all_below k w ≡ true → a < k → all_below k (w ++ a ∷ []) ≡ true
all_below-snoc k [] a h p = ground (arith, p)
all_below-snoc k (b ∷ w) a h p = ground (arith, all_below-snoc k w a, h, p)

snoc-append : (w : List ℕ) (a : ℕ) (v : List ℕ) → (w ++ a ∷ []) ++ v ≡ w ++ a ∷ v
snoc-append [] a v = refl
snoc-append (b ∷ w) a v = ap (λ r. b ∷ r) (snoc-append w a v)

-- Inputs below `k` lead from states to states.
pub record IsClosed (m : Mealy) (k : ℕ) : Type 0 where
  pub some_state : 0 < m.n
  pub stays : (s a : ℕ) → s < m.n → a < k → m.d s a < m.n

-- Is the pair in the queue?
abbrev pub Queued : List QueuedPair → ℕ → ℕ → Type 0
Queued [] s t = ⊥
Queued (p ∷ q) s t = (p.first ≡ s) × (p.second ≡ t) ⊎ Queued q s t

Queued-grow : (q r : List QueuedPair) (s t : ℕ) → Queued q s t → Queued (q ++ r) s t
Queued-grow [] r s t h = absurd h
Queued-grow (p ∷ q) r s t (inl here) = inl here
Queued-grow (p ∷ q) r s t (inr later) = inr (Queued-grow q r s t later)

Queued-last :
    (q : List QueuedPair) (p : QueuedPair) (s t : ℕ)
    → (p.first ≡ s) × (p.second ≡ t)
    → Queued (q ++ p ∷ []) s t
Queued-last [] p s t h = inl h
Queued-last (x ∷ q) p s t h = inr (Queued-last q p s t h)

-- What the search relies on: a new pair keeps inside the machines' states, and the outputs from it
-- agree exactly if they agree from the pair as it was.
pub record IsTidy (H ref : Mealy) (tidy : ℕ → ℕ → ℕ × ℕ) : Type 0 where
  pub inside : (s t : ℕ) → s < H.n → t < ref.n → ((tidy s t).0 < H.n) × ((tidy s t).1 < ref.n)
  pub agrees :
      (s t : ℕ) (w : List ℕ)
      → (run H (tidy s t).0 w ≡ run ref (tidy s t).1 w) ↔ (run H s w ≡ run ref t w)

module _ (tidy : ℕ → ℕ → ℕ × ℕ) (H ref : Mealy) (s₀ t₀ : ℕ) where
  -- Outputs that differ from the pair differ from the start, behind the word.
  pub record IsReached (p : QueuedPair) : Type 0 where
    pub letters : all_below ref.k p.word ≡ true
    pub back :
        (v : List ℕ)
        → run H p.first v ≢ run ref p.second v
        → run H s₀ (p.word ++ v) ≢ run ref t₀ (p.word ++ v)
    pub in_first : p.first < H.n
    pub in_second : p.second < ref.n

  abbrev pub AllReached : List QueuedPair → Type 0
  AllReached [] = Unit
  AllReached (p ∷ q) = IsReached p × AllReached q

  AllReached-snoc :
      (q : List QueuedPair) (p : QueuedPair) → AllReached q → IsReached p → AllReached (q ++ p ∷ [])
  AllReached-snoc [] p h r = (r, tt)
  AllReached-snoc (x ∷ q) p h r = (h.0, AllReached-snoc q p h.1 r)

  pub next_pair-IsReached :
      IsTidy H ref tidy
      → IsClosed H ref.k
      → IsClosed ref ref.k
      → (p : QueuedPair) (a : ℕ) → IsReached p
      → a < ref.k
      → IsReached (next_pair tidy H ref p a)
  unfolding next_pair run
  next_pair-IsReached law c c' p a r below =
      let (x, y) =
        law.inside (H.d p.first a) (ref.d p.second a) (c.stays p.first a r.in_first below)
          (c'.stays p.second a r.in_second below) in
      record {
        letters = all_below-snoc ref.k p.word a r.letters below;
        back = λ v apart same.
            r.back (a ∷ v)
              (λ all. apart ((law.agrees (H.d p.first a) (ref.d p.second a) v).1 (ap tail_of all)))
              (subst (λ w. run H s₀ w ≡ run ref t₀ w) (snoc-append p.word a v) same);
        in_first = x;
        in_second = y;
      }

  -- The letter leads to the same output and to a pair that is seen.
  pub record Explored (f : Pairs) (s t a : ℕ) : Type 0 where
    pub output : H.o s a ≡ ref.o t a
    pub onward : let (s', t') = tidy (H.d s a) (ref.d t a) in f.seen s' t' ≡ true

  -- What the search keeps: every entry of the queue is reached, and a pair that is seen is in the
  -- queue or explored, but for the entry `p` whose letters from `a` on are still to try.
  pub record Partial (p : QueuedPair) (a : ℕ) (f : Pairs) : Type 0 where
    pub reached : AllReached f.queue
    pub current : IsReached p
    pub origin : f.seen s₀ t₀ ≡ true
    pub tried : (b : ℕ) → b < a → Explored f p.first p.second b
    pub others :
        (s t : ℕ)
        → f.seen s t ≡ true
        → ((p.first ≡ s) × (p.second ≡ t))
          ⊎ (Queued f.queue s t ⊎ ((b : ℕ) → b < ref.k → Explored f s t b))

  -- The same between two rounds.
  pub record Whole (f : Pairs) : Type 0 where
    pub reached : AllReached f.queue
    pub origin : f.seen s₀ t₀ ≡ true
    pub others :
        (s t : ℕ)
        → f.seen s t ≡ true
        → Queued f.queue s t ⊎ ((b : ℕ) → b < ref.k → Explored f s t b)

  abbrev pub Grows : Pairs → Pairs → Type 0
  Grows f g = (s t : ℕ) → f.seen s t ≡ true → g.seen s t ≡ true

  pub offer-Grows : (f : Pairs) (q : QueuedPair) → Grows f (offer f q)
  unfolding offer
  offer-Grows f q s t h =
      if_cases (λ (g : Pairs). g.seen s t ≡ true) (f.seen q.first q.second) _ _ (λ old. h)
        λ new. ground (arith, h)

  pub offer-seen : (f : Pairs) (q : QueuedPair) → (offer f q).seen q.first q.second ≡ true
  unfolding offer
  offer-seen f q =
      if_cases (λ (g : Pairs). g.seen q.first q.second ≡ true) (f.seen q.first q.second) _ _
        (λ old. old) λ new. assign-here f.seen q.first q.second true

  -- A pair that becomes seen is put into the queue.
  pub offer-new :
      (f : Pairs) (q : QueuedPair) (s t : ℕ)
      → (offer f q).seen s t ≡ true
      → (f.seen s t ≡ true) ⊎ Queued (offer f q).queue s t
  unfolding offer
  offer-new f q s t h =
      (if_cases (λ (g : Pairs). g.seen s t ≡ true → (f.seen s t ≡ true) ⊎ Queued g.queue s t)
          (f.seen q.first q.second) _ _ (λ old. λ e. inl e)
          λ new e.
            ⊎_elim (λ seen. inl seen) (λ at. inr (Queued-last f.queue q s t at))
              (assign-cell f.seen q.first q.second s t e))
        h

  pub offer-Queued :
      (f : Pairs) (q : QueuedPair) (s t : ℕ) → Queued f.queue s t → Queued (offer f q).queue s t
  unfolding offer
  offer-Queued f q s t h =
      if_cases (λ (g : Pairs). Queued g.queue s t) (f.seen q.first q.second) _ _ (λ old. h)
        λ new. Queued-grow f.queue (q ∷ []) s t h

  pub offer-AllReached :
      (f : Pairs) (q : QueuedPair) → AllReached f.queue → IsReached q → AllReached (offer f q).queue
  unfolding offer
  offer-AllReached f q h r =
      if_cases (λ (g : Pairs). AllReached g.queue) (f.seen q.first q.second) _ _ (λ old. h)
        λ new. AllReached-snoc f.queue q h r

  -- The measure of the search: what is not seen and what waits.
  abbrev pub work : Pairs → ℕ
  work f = unseen f.seen H.n ref.n + length f.queue

  pub offer-work :
      (f : Pairs) (q : QueuedPair) → q.first < H.n → q.second < ref.n → work (offer f q) ≡ work f
  unfolding offer
  offer-work f q x y =
      if_cases (λ (g : Pairs). work g ≡ work f) (f.seen q.first q.second) _ _ (λ old. refl)
        λ new. omega (
          arith,
          unseen-assign f.seen H.n ref.n q.first q.second x y new,
          length-append f.queue (q ∷ []),
        )
