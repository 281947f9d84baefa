-- ===== src/Sysctl.antt =====
-- include/tp/sysctl.hpp and src/sysctl.cpp: guards that change a variable of the kernel and put it
-- back. The kernel is a state with `sysctlbyname` as its two operations on integers; an `int` that
-- counts nested guards is a number.
pub mod Nest
pub mod Steps
pub mod Sound
pub mod Restore
use tcp_probe.Prelude.{
  ℕ, ◌+◌, ◌-◌, Bool, true, false, Option, none, some, List, [], ◌∷◌, leb, ltb, ◌==◌, if◌then◌else◌,
}
use tcp_probe.Prelude.Eq.{Eq, same}
use tcp_probe.Prelude.Int.{ℤ, pos, negsuc, ltb_ℤ}

-- `Pending`: the value to restore, and how many guards stand on the variable.
pub record Pending : Type 0 where
  pub original : ℤ
  pub depth : ℕ

-- `sysctlbyname` on a variable: the value if it can be read, and the kernel after a write with
-- whether the write succeeded.
pub record Access (K N : Type 0) : Type 0 where
  pub get : K → N → Option ℤ
  pub set : K → N → ℤ → K × Bool

-- `ScopedSysctl`.
pub record Guard (N : Type 0) : Type 0 where
  pub name : N
  pub original : ℤ
  pub is_ok : Bool

-- The kernel, the map `pending()`, and `g_handlers_armed`.
pub record Knobs (K N : Type 0) : Type 0 where
  pub kernel : K
  pub pending : List (N × Pending)
  pub armed : Bool

-- `pending()[name]` of a name that is not there is `Pending{}`.
abbrev pub entry_of : Option Pending → Pending
entry_of none = record { original = pos 0; depth = 0 }
entry_of (some p) = p

-- The map, with at most one entry for a name.
module _ {N : Type 0} ⦃e : Eq N⦄ where
  unfoldable pub find : N → List (N × Pending) → Option Pending
  find n [] = none
  find n ((m, p) ∷ rest) = if same n m then some p else find n rest

  unfoldable pub erase : N → List (N × Pending) → List (N × Pending)
  erase n [] = []
  erase n ((m, p) ∷ rest) = let less = erase n rest in if same n m then less else (m, p) ∷ less

  abbrev pub put : N → Pending → List (N × Pending) → List (N × Pending)
  put n p entries = (n, p) ∷ erase n entries

  -- The part of the constructor behind a successful write: the entry that it leaves.
  unfoldable pub enter : List (N × Pending) → N → ℤ → List (N × Pending)
  enter entries name original =
      let p = entry_of (find name entries) in
      let first = if p.depth == 0 then original else p.original in
      put name (record { original = first; depth = p.depth + 1 }) entries

  -- The part of the destructor that retires the entry.
  unfoldable pub retire : List (N × Pending) → N → List (N × Pending)
  retire entries name = elim (find name entries) [
    | none ↦ entries
    | some p ↦
        if leb p.depth 1
        then erase name entries
        else put name (record p { depth = p.depth - 1 }) entries
  ]

-- `sysctl_get`.
abbrev pub value_or : Option ℤ → ℤ → ℤ
value_or none fallback = fallback
value_or (some v) fallback = v

module _ {K N : Type 0} ⦃e : Eq N⦄ (a : Access K N) where
  unfoldable pub sysctl_get : K → N → ℤ → ℤ
  sysctl_get k name fallback = value_or (a.get k name) fallback

  unfoldable pub sysctl_set : K → N → ℤ → K × Bool
  sysctl_set k name value = a.set k name value

  -- The constructor, one step from the read to the arming of the handlers: a signal between them is
  -- not modelled.
  unfoldable pub guard : Knobs K N → N → ℤ → Knobs K N × Guard N
  guard s name value =
      let original = sysctl_get s.kernel name (negsuc 0) in
      let (kernel, written) = sysctl_set s.kernel name value in
      let bad : Guard N = record { name = name; original = original; is_ok = false } in
      let good : Guard N = record { name = name; original = original; is_ok = true } in
      let entered : Knobs K N = record {
        kernel = kernel;
        pending = enter s.pending name original;
        armed = true;
      } in
      if ltb_ℤ original (pos 0)
      then (s, bad)
      else if written
      then (entered, good)
      else (record s { kernel = kernel }, bad)

  -- The destructor.
  unfoldable pub release : Knobs K N → Guard N → Knobs K N
  release s g =
      let kernel = (sysctl_set s.kernel g.name g.original).0 in
      if g.is_ok then record s { kernel = kernel; pending = retire s.pending g.name } else s

  -- The loop of `restore_all`.
  unfoldable pub restore_from : K → List (N × Pending) → K
  restore_from k [] = k
  restore_from k ((name, p) ∷ rest) = restore_from (a.set k name p.original).0 rest

  -- `restore_all`, at exit and on a signal.
  unfoldable pub restore_all : Knobs K N → Knobs K N
  restore_all s = record s { kernel = restore_from s.kernel s.pending; pending = [] }
