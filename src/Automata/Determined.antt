-- ===== src/Automata/Determined.antt =====
-- A cache, votes and comparisons over answers that come from one machine.
use mathlib.Core.Path.{subst}
use tcp_probe.Prelude.{
  ℕ, zero, suc, ◌+◌, ◌<◌, ◌≡◌, refl, sym, ap, ◌∙◌, arith, true, false, Option, none, some, List, [],
  ◌∷◌, length, replicate,
}
use tcp_probe.Automata.Mealy.{Mealy, run}
use tcp_probe.Automata.Query.{
  Node, Cache, lookup_from, set_at, grow, recheck, insert_from, insert, count_in, best_of,
  counts_of, tails_of, vote, head_or, tail_of, is_same,
}

module _ (m : Mealy) where
  -- Each node stands for a state of the machine, and each edge for a transition.
  pub record Agrees (size : ℕ) (nodes : ℕ → Node) : Type 0 where
    pub state : ℕ → ℕ
    pub root : state 0 ≡ 0
    pub some_node : 0 < size
    pub inside : (x a v : ℕ) → (nodes x).child a ≡ some v → v < size
    pub next : (x a v : ℕ) → (nodes x).child a ≡ some v → state v ≡ m.d (state x) a
    pub outs : (x a v : ℕ) → (nodes x).child a ≡ some v → (nodes x).out a ≡ m.o (state x) a

  pub lookup_from-run :
      (size : ℕ) (nodes : ℕ → Node) (h : Agrees size nodes) (x : ℕ) (w r : List ℕ)
      → lookup_from nodes x w ≡ some r
      → r ≡ run m (h.state x) w
  unfolding lookup_from run
  lookup_from-run size nodes h x [] r e = cc
  lookup_from-run size nodes h x (a ∷ w) r e =
      at ((nodes x).child a) refl e λ v q. lookup_from-run size nodes h v w q
    where
      found :
          (v : ℕ) (rest : Option (List ℕ))
          → lookup_from nodes v w ≡ rest
          → (nodes x).child a ≡ some v
          → elim rest [ none ↦ none | some q ↦ some ((nodes x).out a ∷ q) ] ≡ some r
          → ((q : List ℕ) → lookup_from nodes v w ≡ some q → q ≡ run m (h.state v) w)
          → r ≡ m.o (h.state x) a ∷ run m (m.d (h.state x) a) w
      found v none l c e ih = cc
      found v (some q) l c e ih =
          let tail : q ≡ run m (m.d (h.state x) a) w =
            ih q l ∙ ap (λ s. run m s w) (h.next x a v c) in
          let out = h.outs x a v c in cc

      at :
          (c : Option ℕ)
          → (nodes x).child a ≡ c
          → elim c [
            | none ↦ none
            | some v ↦ elim (lookup_from nodes v w) [
              | none ↦ none
              | some q ↦ some ((nodes x).out a ∷ q)
            ]
          ]
            ≡ some r
          → ((v : ℕ) (q : List ℕ) → lookup_from nodes v w ≡ some q → q ≡ run m (h.state v) w)
          → r ≡ m.o (h.state x) a ∷ run m (m.d (h.state x) a) w
      at none c e ih = cc
      at (some v) c e ih = found v (lookup_from nodes v w) refl c e (ih v)

  -- The states after a new edge: the new node is where the machine goes.
  grow-Agrees :
      (c : Cache) (h : Agrees c.size c.nodes) (x a y : ℕ)
      → x < c.size
      → (c.nodes x).child a ≡ none
      → y ≡ m.o (h.state x) a
      → let c' = grow c x a y in
        (g : Agrees c'.size c'.nodes) × (c'.size ≡ c.size + 1)
        × ((z : ℕ) → z < c.size → g.state z ≡ h.state z)
        × (g.state c.size ≡ m.d (h.state x) a)
        × (c'.contradictions ≡ c.contradictions)
  unfolding grow
  grow-Agrees c h x a y small new first = (
    record {
      state = set_at h.state c.size (m.d (h.state x) a);
      root = ground (arith, h.root, h.some_node);
      some_node = omega arith;
      inside = λ z b v e. ground (arith, e, h.inside z b v, h.inside x b v);
      next = λ z b v e.
          ground (arith, e, small, h.next z b v, h.next x b v, h.inside z b v, h.inside x b v);
      outs = λ z b v e. ground (arith, e, small, first, h.outs z b v, h.outs x b v);
    },
    refl,
    λ z less. ground (arith, less),
    ground arith,
    refl,
  )

  -- An observation that agrees changes nothing but the count of audits.
  recheck-same :
      (c : Cache) (i : ℕ) (whole : List ℕ) (stored fresh : ℕ)
      → stored ≡ fresh
      → recheck c i whole stored fresh ≡ record c { prefix_audits = c.prefix_audits + 1 }
  unfolding recheck
  recheck-same c i whole stored fresh e = ground (arith, e)

  -- A cache that agrees with the machine, with the contradictions of `before`.
  abbrev pub Kept : Cache → Cache → Type 0
  Kept before after = Agrees after.size after.nodes × (after.contradictions ≡ before.contradictions)

  insert_from-Kept :
      (c : Cache) (h : Agrees c.size c.nodes) (x i : ℕ) (whole w o : List ℕ)
      → x < c.size
      → o ≡ run m (h.state x) w
      → Kept c (insert_from c x i whole w o)
  unfolding insert_from run
  insert_from-Kept c h x i whole [] o small e = (h, refl)
  insert_from-Kept c h x i whole (a ∷ w) [] small e = (h, refl)
  insert_from-Kept c h x i whole (a ∷ w) (y ∷ o) small e =
      at ((c.nodes x).child a) refl (λ b g z. insert_from-Kept b g z (i + 1) whole w o)
        (ap head_or e) (ap tail_of e)
    where
      at :
          (n : Option ℕ)
          → (c.nodes x).child a ≡ n
          → ((b : Cache) (g : Agrees b.size b.nodes) (z : ℕ)
              → z < b.size
              → o ≡ run m (g.state z) w
              → Kept b (insert_from b z (i + 1) whole w o))
          → y ≡ m.o (h.state x) a
          → o ≡ run m (m.d (h.state x) a) w
          → Kept c (elim n [
            | none ↦ insert_from (grow c x a y) c.size (i + 1) whole w o
            | some v ↦ insert_from (recheck c i whole ((c.nodes x).out a) y) v (i + 1) whole w o
          ])
      at none new ih first rest =
          let (g, size, old, here, count) = grow-Agrees c h x a y small new first in
          let (kept, counts) =
            ih (grow c x a y) g c.size (omega (arith, size))
              (rest ∙ ap (λ s. run m s w) (sym here)) in
          (kept, counts ∙ count)
      at (some v) edge ih first rest =
          let stored : (c.nodes x).out a ≡ y = h.outs x a v edge ∙ sym first in
          let audited : Cache = record c { prefix_audits = c.prefix_audits + 1 } in
          subst (λ b. Kept c (insert_from b v (i + 1) whole w o))
            (sym (recheck-same c i whole ((c.nodes x).out a) y stored))
            (ih audited h v (h.inside x a v edge)
              (rest ∙ ap (λ s. run m s w) (sym (h.next x a v edge))))

  pub insert-Kept :
      (c : Cache) (w : List ℕ) → Agrees c.size c.nodes → Kept c (insert c w (run m 0 w))
  unfolding insert
  insert-Kept c w h =
      insert_from-Kept c h 0 0 w w (run m 0 w) h.some_node (ap (λ s. run m s w) (sym h.root))

-- Runs that all give `r`.
counts_of-replicate :
    (n : ℕ) (r : List ℕ) → counts_of (replicate (suc n) r) ≡ (head_or r, suc n) ∷ []
unfolding counts_of count_in
counts_of-replicate zero r = refl
counts_of-replicate (suc n) r = rw (counts_of-replicate n r) (ground arith)

tails_of-replicate : (n : ℕ) (r : List ℕ) → tails_of (replicate n r) ≡ replicate n (tail_of r)
tails_of-replicate zero r = refl
tails_of-replicate (suc n) r = ap (λ rs. tail_of r ∷ rs) (tails_of-replicate n r)

pub vote-replicate :
    (n : ℕ) (w r : List ℕ) → length r ≡ length w → vote w (replicate (suc n) r) ≡ (r, false)
unfolding vote best_of
vote-replicate n [] [] e = refl
vote-replicate n [] (x ∷ r) e = absurd (omega (arith, e))
vote-replicate n (a ∷ w) [] e = absurd (omega (arith, e))
vote-replicate n (a ∷ w) (x ∷ r) e =
    rw (counts_of-replicate n (x ∷ r))
      (rw (tails_of-replicate n (x ∷ r)) (rw (vote-replicate n w r (omega (arith, e))) refl))

pub is_same_refl : (r : List ℕ) → is_same r r ≡ true
unfolding is_same
is_same_refl [] = refl
is_same_refl (x ∷ r) = ground (arith, is_same_refl r)
