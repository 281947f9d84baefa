-- ===== src/Sysctl/Restore.antt =====
-- Whatever guards are opened and closed, each variable gets its first value back: when the last guard
-- on it is closed, and whenever `restore_all` runs.
use tcp_probe.Prelude.{
  ◌≡◌, refl, ap, sym, ◌∙◌, Bool, Option, some, List, [], ◌∷◌, if◌then◌else◌, Bool-cases, inl, inr,
}
use tcp_probe.Prelude.Eq.{Eq, same}
use tcp_probe.Prelude.Int.{ℤ}
use tcp_probe.Sysctl.{Pending, Access, find, restore_from, restore_all}
use tcp_probe.Sysctl.Nest.{Lawful, depth_of, Entries}
use tcp_probe.Sysctl.Steps.{Action, steps, no_guards, Sound}
use tcp_probe.Sysctl.Sound.{steps-Sound, apart}

module _ {K N : Type 0} ⦃e : Eq N⦄ (a : Access K N) where
  module _ (base : N → Option ℤ) (writable : N → Bool) (law : Lawful a writable) where
    no_guards-Sound :
        (k : K) → ((n : N) → a.get k n ≡ base n) → Sound a base writable (no_guards a k)
    unfolding find
    no_guards-Sound k start = record {
      entries = tt;
      depths = λ n. refl;
      stack = tt;
      values = λ n none_open. start n;
    }

    -- Each entry of the map writes the base value, and the others keep it.
    restore_from-base :
        (k : K) (l : List (N × Pending)) (n : N)
        → Entries base writable l
        → (depth_of (find n l) ≡ 0 → a.get k n ≡ base n)
        → a.get (restore_from a k l) n ≡ base n
    unfolding restore_from find
    restore_from-base k [] n h is_base = is_base refl
    restore_from-base k ((m, p) ∷ rest) n (at, w, d, h) is_base =
        restore_from-base (a.set k m p.original).0 rest n h λ absent. elim (Bool-cases (same n m)) [
          | inl eq ↦
              let is_m = (e.beq_iff n m).0 eq in
              ap (a.get (a.set k m p.original).0) is_m
              ∙ law.reads k m p.original w
              ∙ sym at
              ∙ ap base (sym is_m)
          | inr ne ↦
              law.others k m n p.original (λ eq. apart a base writable law n m ne (sym eq))
              ∙ is_base (ap (λ b. depth_of (if b then some p else find n rest)) ne ∙ absent)
        ]

  module _ (writable : N → Bool) (law : Lawful a writable) (k : K) (acts : List (Action N)) where
    run-Sound : Sound a (a.get k) writable (steps a (no_guards a k) acts)
    run-Sound =
        steps-Sound a (a.get k) writable law (no_guards a k) acts
          (no_guards-Sound (a.get k) writable law k λ n. refl)

    -- Between whole calls of the constructor and the destructor, whichever guards are open and in
    -- whatever order they came, `restore_all` makes every variable read as it did before the first
    -- guard, over the same kernels.
    pub restore_all-restores :
        (n : N) → a.get (restore_all a (steps a (no_guards a k) acts).state).kernel n ≡ a.get k n
    unfolding restore_all
    restore_all-restores n =
        restore_from-base (a.get k) writable law (steps a (no_guards a k) acts).state.kernel
          (steps a (no_guards a k) acts).state.pending n run-Sound.entries
          λ absent. run-Sound.values n (sym (run-Sound.depths n) ∙ absent)
