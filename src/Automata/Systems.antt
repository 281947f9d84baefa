-- ===== src/Automata/Systems.antt =====
-- The systems under learning that are deterministic, and the machines that they run.
use tcp_probe.Prelude.{ℕ, ◌≡◌, refl, ap, List, [], ◌∷◌, if◌then◌else◌}
use tcp_probe.Automata.Mealy.{Mealy, run, o_silent}
use tcp_probe.Automata.Sul.{RefSul, ref_sul, det_bug_sul}
use tcp_probe.Automata.Query.{raw, outputs}
use tcp_probe.Automata.Asked.{Answers}

-- The reference system runs its machine.
module _ (m : Mealy) where
  outputs-ref : (s : RefSul) (w : List ℕ) → (outputs (ref_sul m) s w).1 ≡ run m s.cur w
  unfolding outputs run ref_sul
  outputs-ref s [] = refl
  outputs-ref s (a ∷ w) = ap (λ r. m.o s.cur a ∷ r) (outputs-ref ((ref_sul m).step s a).0 w)

  pub ref_sul-Answers : Answers m (ref_sul m)
  unfolding raw ref_sul
  ref_sul-Answers s w = outputs-ref ((ref_sul m).reset s) w

  -- The machine that the deterministic bug makes of `m`.
  abbrev pub muted : Mealy
  muted = record m { o = λ s a. if m.chal s a then o_silent else m.o s a }

  outputs-det_bug : (s : RefSul) (w : List ℕ) → (outputs (det_bug_sul m) s w).1 ≡ run muted s.cur w
  unfolding outputs run det_bug_sul
  outputs-det_bug s [] = refl
  outputs-det_bug s (a ∷ w) =
      ap (λ r. muted.o s.cur a ∷ r) (outputs-det_bug ((det_bug_sul m).step s a).0 w)

  pub det_bug_sul-Answers : Answers muted (det_bug_sul m)
  unfolding raw det_bug_sul
  det_bug_sul-Answers s w = outputs-det_bug ((det_bug_sul m).reset s) w
