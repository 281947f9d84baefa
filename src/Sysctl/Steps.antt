-- ===== src/Sysctl/Steps.antt =====
-- Guards constructed and destroyed in any nesting, and what holds in the middle of it.
use tcp_probe.Prelude.{
  ◌+◌, ◌-◌, ◌≡◌, refl, ap, arith, Bool, true, false, Option, none, some, List, [], ◌∷◌, leb, ◌==◌,
  if◌then◌else◌,
}
use tcp_probe.Prelude.Eq.{Eq}
use tcp_probe.Prelude.Int.{ℤ}
use tcp_probe.Sysctl.{
  Pending, Access, Guard, Knobs, find, erase, put, entry_of, enter, retire, guard, release,
}
use tcp_probe.Sysctl.Nest.{Lawful, depth_of, Entries, Entries-erase, Entries-find, count, Stack}

-- A guard is constructed, or the innermost one is destroyed.
pub data Action (N : Type 0) : Type 0 where
  open_guard : N → ℤ → Action N
  close_guard : Action N

-- The program's state and the guards on its stack, the innermost first.
pub record World (K N : Type 0) : Type 0 where
  pub state : Knobs K N
  pub live : List (Guard N)

module _ {K N : Type 0} ⦃e : Eq N⦄ (a : Access K N) where
  abbrev pub step : World K N → Action N → World K N
  step w (open_guard name value) =
      let (s, g) = guard a w.state name value in record { state = s; live = g ∷ w.live }
  step w close_guard = elim w.live [
    | [] ↦ w
    | g ∷ rest ↦ record { state = release a w.state g; live = rest }
  ]

  abbrev pub steps : World K N → List (Action N) → World K N
  steps w [] = w
  steps w (act ∷ rest) = steps (step w act) rest

  -- Before any guard, over the kernel `k`.
  abbrev pub no_guards : K → World K N
  no_guards k = record { state = record { kernel = k; pending = []; armed = false }; live = [] }

  -- The state in the middle of a run, against the values of `base`.
  pub record Sound (base : N → Option ℤ) (writable : N → Bool) (w : World K N) : Type 0 where
    pub entries : Entries base writable w.state.pending
    pub depths : (n : N) → depth_of (find n w.state.pending) ≡ count n w.live
    pub stack : Stack base writable w.live
    pub values : (n : N) → count n w.live ≡ 0 → a.get w.state.kernel n ≡ base n

  module _ (base : N → Option ℤ) (writable : N → Bool) (law : Lawful a writable) where
    pub enter-Entries :
        (l : List (N × Pending)) (name : N) (original : ℤ)
        → Entries base writable l
        → writable name ≡ true
        → (depth_of (find name l) ≡ 0 → base name ≡ some original)
        → Entries base writable (enter l name original)
    unfolding enter
    enter-Entries l name original h w first = entered (find name l) refl
      where
        entered :
            (f : Option Pending)
            → find name l ≡ f
            → let p = entry_of f in
              let value = if p.depth == 0 then original else p.original in
              Entries base writable (put name (record { original = value; depth = p.depth + 1 }) l)
        entered none e =
            (first (ap depth_of e), w, omega arith, Entries-erase base writable name l h)
        entered (some p) e =
            let (at, _, some_depth) = Entries-find base writable name p l h e in
            (ground (arith, at, some_depth), w, omega arith, Entries-erase base writable name l h)

    pub retire-Entries :
        (l : List (N × Pending)) (name : N)
        → Entries base writable l
        → Entries base writable (retire l name)
    unfolding retire
    retire-Entries l name h = retired (find name l) refl
      where
        retired :
            (f : Option Pending)
            → find name l ≡ f
            → let after : List (N × Pending) = elim f [
              | none ↦ l
              | some p ↦
                  if leb p.depth 1
                  then erase name l
                  else put name (record p { depth = p.depth - 1 }) l
            ] in
              Entries base writable after
        retired none e = h
        retired (some p) e =
            let (at, w, some_depth) = Entries-find base writable name p l h e in
            let less = Entries-erase base writable name l h in
            ground (arith, at, w, some_depth, less)
