-- ===== src/Sysctl/Nest.antt =====
-- Guards that are opened and closed in any nesting, against the values before the first of them.
use tcp_probe.Prelude.{
  ℕ, ◌+◌, ◌-◌, ◌<◌, ◌≡◌, ◌≢◌, refl, ap, arith, Bool, true, false, Option, none, some, List, [], ◌∷◌,
  leb, ◌==◌, ◌&&◌, if◌then◌else◌,
}
use tcp_probe.Prelude.Eq.{Eq, same}
use tcp_probe.Prelude.Int.{ℤ}
use tcp_probe.Sysctl.{Pending, Access, Guard, find, erase, put, entry_of, enter, retire}

-- What the kernel does with a write: it takes effect on the variable alone, or not at all, and
-- whether it does depends only on the variable.
pub record Lawful {K N : Type 0} (a : Access K N) (writable : N → Bool) : Type 0 where
  pub wrote : (k : K) (n : N) (v : ℤ) → (a.set k n v).1 ≡ writable n
  pub reads : (k : K) (n : N) (v : ℤ) → writable n ≡ true → a.get (a.set k n v).0 n ≡ some v
  pub others : (k : K) (n m : N) (v : ℤ) → n ≢ m → a.get (a.set k n v).0 m ≡ a.get k m
  pub refused : (k : K) (n m : N) (v : ℤ) → writable n ≡ false → a.get (a.set k n v).0 m ≡ a.get k m

abbrev pub depth_of : Option Pending → ℕ
depth_of none = 0
depth_of (some p) = p.depth

pub depth-entry_of : (o : Option Pending) → (entry_of o).depth ≡ depth_of o
depth-entry_of none = refl
depth-entry_of (some p) = refl

-- What the map says of every name that it holds.
abbrev pub Entries :
    {N : Type 0} (base : N → Option ℤ) (writable : N → Bool) → List (N × Pending) → Type 0
Entries base writable [] = Unit
Entries base writable ((n, p) ∷ rest) =
    (base n ≡ some p.original) × (writable n ≡ true) × (0 < p.depth) × Entries base writable rest

module _ {N : Type 0} ⦃e : Eq N⦄ where
  pub same_refl : (n : N) → same n n ≡ true
  same_refl n = (e.beq_iff n n).1 refl

  find-erase :
      (n m : N) (l : List (N × Pending))
      → find m (erase n l) ≡ (if same n m then none else find m l)
  unfolding find erase
  find-erase n m [] = ground arith
  find-erase n m ((x, p) ∷ rest) =
      ground (arith, find-erase n m rest, e.beq_iff n x, e.beq_iff m x, e.beq_iff n m)

  module _ (base : N → Option ℤ) (writable : N → Bool) where
    pub Entries-erase :
        (n : N) (l : List (N × Pending))
        → Entries base writable l
        → Entries base writable (erase n l)
    unfolding erase
    Entries-erase n [] h = tt
    Entries-erase n ((x, p) ∷ rest) h = ground (arith, Entries-erase n rest)

    pub Entries-find :
        (n : N) (p : Pending) (l : List (N × Pending))
        → Entries base writable l
        → find n l ≡ some p
        → (base n ≡ some p.original) × (writable n ≡ true) × (0 < p.depth)
    unfolding find
    Entries-find n p [] h f = cc
    Entries-find n p ((x, q) ∷ rest) h f = ground (arith, Entries-find n p rest, e.beq_iff n x)

  -- The open guards that changed a variable, the innermost first.
  abbrev pub count : N → List (Guard N) → ℕ
  count n [] = 0
  count n (g ∷ rest) = (if g.is_ok && same g.name n then 1 else 0) + count n rest

  -- Each of them may be written back, and the outermost one on a variable holds its base value.
  abbrev pub Stack : (base : N → Option ℤ) (writable : N → Bool) → List (Guard N) → Type 0
  Stack base writable [] = Unit
  Stack base writable (g ∷ rest) =
      (g.is_ok ≡ true
        → (writable g.name ≡ true) × (count g.name rest ≡ 0 → base g.name ≡ some g.original))
      × Stack base writable rest

  -- How the two operations on the map change the depth of each name.
  depth-put :
      (l : List (N × Pending)) (name m : N) (p : Pending)
      → depth_of (find m (put name p l)) ≡ (if same name m then p.depth else depth_of (find m l))
  unfolding find
  depth-put l name m p = ground (arith, find-erase name m l, e.beq_iff m name, e.beq_iff name m)

  pub enter-depth :
      (l : List (N × Pending)) (name m : N) (original : ℤ)
      → depth_of (find m (enter l name original))
        ≡ (if same name m then 1 else 0) + depth_of (find m l)
  unfolding enter
  enter-depth l name m original =
      let p = entry_of (find name l) in
      let first = if p.depth == 0 then original else p.original in
      ground (
        arith,
        depth-put l name m (record { original = first; depth = p.depth + 1 }),
        depth-entry_of (find name l),
        λ (h : same name m ≡ true). ap (λ x. depth_of (find x l)) ((e.beq_iff name m).0 h),
      )

  pub retire-depth :
      (l : List (N × Pending)) (name m : N)
      → depth_of (find m (retire l name)) ≡ depth_of (find m l) - (if same name m then 1 else 0)
  unfolding retire
  retire-depth l name m = retired (find name l) refl
    where
      retired :
          (f : Option Pending)
          → find name l ≡ f
          → let after : List (N × Pending) = elim f [
            | none ↦ l
            | some p ↦
                if leb p.depth 1
                then erase name l
                else put name (record p { depth = p.depth - 1 }) l
          ] in
            depth_of (find m after) ≡ depth_of (find m l) - (if same name m then 1 else 0)
      retired none h = ground (
        arith,
        λ (k : same name m ≡ true). ap (λ x. depth_of (find x l)) ((e.beq_iff name m).0 k),
        ap depth_of h,
      )
      retired (some p) h = ground (
        arith,
        λ (k : same name m ≡ true). ap (λ x. depth_of (find x l)) ((e.beq_iff name m).0 k),
        ap depth_of h,
        ap depth_of (find-erase name m l),
        depth-put l name m (record p { depth = p.depth - 1 }),
      )
