-- ===== src/Tests/Knobs.antt =====
-- Guards over a kernel of three variables: two that can be written and one that cannot.
use tcp_probe.Prelude.{
  ℕ, ◌+◌, ◌≡◌, ◌↔◌, refl, arith, Bool, true, Option, some, List, [], ◌∷◌, ◌==◌, ltb, if◌then◌else◌,
}
use tcp_probe.Prelude.Eq.{Eq}
use tcp_probe.Prelude.Int.{ℤ, pos}
use tcp_probe.Sysctl.{Access, guard, sysctl_get, sysctl_set, restore_all}
use tcp_probe.Sysctl.Nest.{Lawful}
use tcp_probe.Sysctl.Steps.{Action, open_guard, close_guard, steps, no_guards}
use tcp_probe.Sysctl.Restore.{restore_all-restores}

number : (a b : ℕ) → (a == b ≡ true) ↔ (a ≡ b)
number a b = (λ h. ground (arith, h), λ h. ground (arith, h))

instance numbers : Eq ℕ
numbers = record { beq = λ a b. a == b; beq_iff = number }

abbrev Variables : Type 0
Variables = ℕ → Option ℤ

abbrev can_write : ℕ → Bool
can_write n = ltb n 2

abbrev access : Access Variables ℕ
access = record {
  get = λ k n. k n;
  set = λ k n v. (λ m. if n == m then (if can_write n then some v else k m) else k m, can_write n);
}

lawful : Lawful access can_write
lawful = record {
  wrote = λ k n v. refl;
  reads = λ k n v h. ground (arith, h);
  others = λ k n m v h. ground (arith, h);
  refused = λ k n m v h. ground (arith, h);
}

abbrev boot : Variables
boot = λ n. some (pos (n + 10))

-- Two guards on one variable, one on another that the kernel does not let it write.
abbrev nested : List (Action ℕ)
nested = open_guard 0 (pos 50) ∷ open_guard 2 (pos 7) ∷ open_guard 0 (pos 60) ∷ []

abbrev all_closed : List (Action ℕ)
all_closed =
    open_guard 0 (pos 50)
    ∷ open_guard 2 (pos 7)
    ∷ open_guard 0 (pos 60)
    ∷ close_guard
    ∷ close_guard
    ∷ open_guard 1 (pos 4)
    ∷ close_guard
    ∷ close_guard
    ∷ []

inner_value : (steps access (no_guards access boot) nested).state.kernel 0 ≡ some (pos 60)
unfolding guard sysctl_get sysctl_set
inner_value = refl

restore_all-restores_example :
    (restore_all access (steps access (no_guards access boot) nested).state).kernel 0
    ≡ some (pos 10)
restore_all-restores_example = restore_all-restores access can_write lawful boot nested 0
