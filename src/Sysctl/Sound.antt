-- ===== src/Sysctl/Sound.antt =====
-- What holds in the middle is kept by each guard that is constructed or destroyed.
use mathlib.Core.Path.{subst}
use tcp_probe.Prelude.{
  ◌≡◌, ◌≢◌, refl, ap, sym, ◌∙◌, arith, Bool, true, false, Option, none, some, List, [], ◌∷◌,
  if◌then◌else◌, Bool-cases, inl, inr,
}
use tcp_probe.Prelude.Eq.{Eq, same}
use tcp_probe.Prelude.Int.{ℤ, pos, negsuc, ltb_ℤ}
use tcp_probe.Sysctl.{Access, Guard, Knobs, value_or, sysctl_get, sysctl_set, enter, guard, release}
use tcp_probe.Sysctl.Nest.{Lawful, count, enter-depth, retire-depth}
use tcp_probe.Sysctl.Steps.{
  Action, open_guard, close_guard, World, step, steps, Sound, enter-Entries, retire-Entries,
}

module _ {K N : Type 0} ⦃e : Eq N⦄ (a : Access K N) where
  module _ (base : N → Option ℤ) (writable : N → Bool) (law : Lawful a writable) where
    Sound-if :
        (live : List (Guard N)) (b : Bool) (x y : Knobs K N × Guard N)
        → (b ≡ true → Sound a base writable (record { state = x.0; live = x.1 ∷ live }))
        → (b ≡ false → Sound a base writable (record { state = y.0; live = y.1 ∷ live }))
        → let (s, g) = if b then x else y in
          Sound a base writable (record { state = s; live = g ∷ live })
    Sound-if live true x y h k = h refl
    Sound-if live false x y h k = k refl

    -- A guard that is not ok, over a kernel that reads as before.
    bad-Sound :
        (s : Knobs K N) (live : List (Guard N)) (kernel : K) (name : N) (original : ℤ)
        → Sound a base writable (record { state = s; live = live })
        → ((m : N) → a.get kernel m ≡ a.get s.kernel m)
        → let g : Guard N = record { name = name; original = original; is_ok = false } in
          Sound a base writable (record { state = record s { kernel = kernel }; live = g ∷ live })
    bad-Sound s live kernel name original h reads = record {
      entries = h.entries;
      depths = λ n. omega (arith, h.depths n);
      stack = (λ ok. cc, h.stack);
      values = λ n none_open. reads n ∙ h.values n (omega (arith, none_open));
    }

    readable :
        (o : Option ℤ)
        → ltb_ℤ (value_or o (negsuc 0)) (pos 0) ≡ false
        → o ≡ some (value_or o (negsuc 0))
    readable none h = cc
    readable (some v) h = refl

    pub apart : (n m : N) → same n m ≡ false → n ≢ m
    apart n m d eq = let t = (e.beq_iff n m).1 eq in cc

    good-Sound :
        (s : Knobs K N) (live : List (Guard N)) (name : N) (value original : ℤ)
        → Sound a base writable (record { state = s; live = live })
        → a.get s.kernel name ≡ some original
        → writable name ≡ true
        → let g : Guard N = record { name = name; original = original; is_ok = true } in
          Sound a base writable (record {
            state = record {
              kernel = (a.set s.kernel name value).0;
              pending = enter s.pending name original;
              armed = true;
            };
            live = g ∷ live;
          })
    good-Sound s live name value original h at w =
        let first : count name live ≡ 0 → base name ≡ some original =
          λ none_open. sym (h.values name none_open) ∙ at in
        record {
          entries =
              enter-Entries a base writable law s.pending name original h.entries w
                λ d. first (sym (h.depths name) ∙ d);
          depths = λ n. omega (arith, enter-depth s.pending name n original, h.depths n);
          stack = (λ ok. (w, first), h.stack);
          values = λ n none_open.
              let other : same name n ≡ false = ground (arith, none_open) in
              law.others s.kernel name n value (apart name n other)
              ∙ h.values n (omega (arith, none_open));
        }

    guard-Sound :
        (w : World K N) (name : N) (value : ℤ)
        → Sound a base writable w
        → Sound a base writable (step a w (open_guard name value))
    unfolding guard sysctl_get sysctl_set
    guard-Sound w name value h =
        let s = w.state in
        let original = value_or (a.get s.kernel name) (negsuc 0) in
        Sound-if w.live (ltb_ℤ original (pos 0)) _ _
          (λ unread. bad-Sound s w.live s.kernel name original h λ m. refl)
          λ is_read.
            Sound-if w.live (a.set s.kernel name value).1 _ _
              (λ done.
                good-Sound s w.live name value original h (readable (a.get s.kernel name) is_read)
                  (sym (law.wrote s.kernel name value) ∙ done))
              λ undone. bad-Sound s w.live (a.set s.kernel name value).0 name original h λ m.
                law.refused s.kernel name m value (sym (law.wrote s.kernel name value) ∙ undone)

    -- The variable that an ok guard writes back, and every other one, where no guard is left on it.
    released-values :
        (s : Knobs K N) (g : Guard N) (rest : List (Guard N))
        → Sound a base writable (record { state = s; live = g ∷ rest })
        → g.is_ok ≡ true
        → (n : N) → count n rest ≡ 0
        → a.get (a.set s.kernel g.name g.original).0 n ≡ base n
    released-values s g rest h ok n none_left = elim (Bool-cases (same g.name n)) [
      | inl eq ↦
          let is_n = (e.beq_iff g.name n).0 eq in
          let (w, holds) = h.stack.0 ok in
          ap (a.get (a.set s.kernel g.name g.original).0) (sym is_n)
          ∙ law.reads s.kernel g.name g.original w
          ∙ sym (holds (ap (λ m. count m rest) is_n ∙ none_left))
          ∙ ap base is_n
      | inr ne ↦
          law.others s.kernel g.name n g.original (apart g.name n ne)
          ∙ h.values n (ground (arith, ok, ne, none_left))
    ]

    State-if :
        (live : List (Guard N)) (b : Bool) (x y : Knobs K N)
        → (b ≡ true → Sound a base writable (record { state = x; live = live }))
        → (b ≡ false → Sound a base writable (record { state = y; live = live }))
        → Sound a base writable (record { state = if b then x else y; live = live })
    State-if live true x y h k = h refl
    State-if live false x y h k = k refl

    release-Sound :
        (s : Knobs K N) (g : Guard N) (rest : List (Guard N))
        → Sound a base writable (record { state = s; live = g ∷ rest })
        → Sound a base writable (record { state = release a s g; live = rest })
    unfolding release sysctl_set
    release-Sound s g rest h =
        State-if rest g.is_ok _ _
          (λ ok. record {
            entries = retire-Entries a base writable law s.pending g.name h.entries;
            depths = λ n. ground (arith, ok, retire-depth s.pending g.name n, h.depths n);
            stack = h.stack.1;
            values = released-values s g rest h ok;
          })
          λ bad. record {
            entries = h.entries;
            depths = λ n. ground (arith, bad, h.depths n);
            stack = h.stack.1;
            values = λ n none_left. h.values n (ground (arith, bad, none_left));
          }

    step-Sound :
        (w : World K N) (act : Action N)
        → Sound a base writable w
        → Sound a base writable (step a w act)
    step-Sound w (open_guard name value) h = guard-Sound w name value h
    step-Sound w close_guard h = closed w.live refl
      where
        closed :
            (live : List (Guard N))
            → w.live ≡ live
            → let after : World K N = elim live [
              | [] ↦ w
              | g ∷ rest ↦ record { state = release a w.state g; live = rest }
            ] in
              Sound a base writable after
        closed [] eq = h
        closed (g ∷ rest) eq =
            release-Sound w.state g rest
              (subst (λ l. Sound a base writable (record { state = w.state; live = l })) eq h)

    pub steps-Sound :
        (w : World K N) (acts : List (Action N))
        → Sound a base writable w
        → Sound a base writable (steps a w acts)
    steps-Sound w [] h = h
    steps-Sound w (act ∷ rest) h = steps-Sound (step a w act) rest (step-Sound w act h)
