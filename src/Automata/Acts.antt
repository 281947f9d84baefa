-- ===== src/Automata/Acts.antt =====
-- What a user of a system under learning does, and what it does to `ChallengeSUL` against the machine
-- alone.
use tcp_probe.Prelude.{
  ℕ, suc, ◌+◌, ◌≤◌, ◌≡◌, refl, ap, ap₂, ◌∙◌, arith, List, [], ◌∷◌, if◌then◌else◌, ◌⊎◌, inl, inr,
}
use tcp_probe.Automata.Mealy.{Mealy}
use tcp_probe.Automata.Sul.{
  Sul, RefSul, ChallengeSul, ref_sul, challenge_step, challenge_reset, challenge_sul, new_ref,
  new_challenge,
}

-- What a user of a system does with it.
pub data Act : Type 0 where
  reconnect : Act
  input : ℕ → Act

-- The system after some acts, and the outputs that it gave.
abbrev pub drive : {S : Type 0} → Sul S → S → List Act → S × List ℕ
drive u s [] = (s, [])
drive u s (reconnect ∷ acts) = drive u (u.reset s) acts
drive u s (input a ∷ acts) =
    let (s', out) = u.step s a in let (end, outs) = drive u s' acts in (end, out ∷ outs)

-- The challenges among the acts, from a state of the machine, and the inputs.
abbrev pub challenges : Mealy → ℕ → List Act → ℕ
challenges m cur [] = 0
challenges m cur (reconnect ∷ acts) = challenges m 0 acts
challenges m cur (input a ∷ acts) = (if m.chal cur a then 1 else 0) + challenges m (m.d cur a) acts

abbrev pub inputs : List Act → ℕ
inputs [] = 0
inputs (reconnect ∷ acts) = inputs acts
inputs (input a ∷ acts) = suc (inputs acts)

module _ (m : Mealy) (limit period : ℕ) where
  -- What one input does to the state, against the machine alone.
  pub record Stepped (s : ChallengeSul) (a : ℕ) (s' : ChallengeSul) (out : ℕ) : Type 0 where
    pub cur : s'.cur ≡ m.d s.cur a
    pub g : s'.g ≡ s.g + 1
    pub counted :
        s'.granted + s'.suppressed ≡ s.granted + s.suppressed + (if m.chal s.cur a then 1 else 0)
    pub grows : s.suppressed ≤ s'.suppressed
    pub output : (out ≡ m.o s.cur a) ⊎ (s'.suppressed ≡ s.suppressed + 1)

  pub challenge_step-Stepped :
      (s : ChallengeSul) (a : ℕ)
      → let (s', out) = challenge_step m limit period s a in Stepped s a s' out
  unfolding challenge_step
  challenge_step-Stepped s a = record {
    cur = refl;
    g = ground arith;
    counted = ground arith;
    grows = ground arith;
    output = ground arith;
  }

  pub drive-counts :
      (s : ChallengeSul) (acts : List Act)
      → let s' = (drive (challenge_sul m limit period) s acts).0 in
        (s'.granted + s'.suppressed ≡ s.granted + s.suppressed + challenges m s.cur acts)
        × (s'.g ≡ s.g + inputs acts)
        × (s.suppressed ≤ s'.suppressed)
  unfolding challenge_reset
  drive-counts s [] = (omega arith, omega arith, omega arith)
  drive-counts s (reconnect ∷ acts) = drive-counts (challenge_reset m limit period s) acts
  drive-counts s (input a ∷ acts) =
      let s1 = (challenge_step m limit period s a).0 in
      let h = challenge_step-Stepped s a in
      let (counted, g, grows) = drive-counts s1 acts in
      let same = ap (λ c. challenges m c acts) h.cur in
      (
        omega (arith, counted, h.counted, same),
        omega (arith, g, h.g),
        omega (arith, grows, h.grows),
      )

  -- Where nothing has been suppressed by the end, a fresh connection with the bucket has given the same
  -- outputs as one to the machine alone, over any inputs and reconnections.
  pub challenge_sul-transparent :
      (acts : List Act)
      → (drive (challenge_sul m limit period) new_challenge acts).0.suppressed ≡ 0
      → (drive (challenge_sul m limit period) new_challenge acts).1
        ≡ (drive (ref_sul m) new_ref acts).1
  unfolding challenge_reset ref_sul
  challenge_sul-transparent acts none_lost = outputs new_challenge new_ref acts refl none_lost
    where
      outputs :
          (s : ChallengeSul) (r : RefSul) (acts : List Act)
          → s.cur ≡ r.cur
          → (drive (challenge_sul m limit period) s acts).0.suppressed ≡ 0
          → (drive (challenge_sul m limit period) s acts).1 ≡ (drive (ref_sul m) r acts).1
      outputs s r [] eq e = refl
      outputs s r (reconnect ∷ acts) eq e =
          outputs (challenge_reset m limit period s) ((ref_sul m).reset r) acts refl e
      outputs s r (input a ∷ acts) eq e =
          let s1 = (challenge_step m limit period s a).0 in
          let h = challenge_step-Stepped s a in
          let (counted, g, grows) = drive-counts s1 acts in
          let rest = outputs s1 ((ref_sul m).step r a).0 acts (h.cur ∙ ap (λ c. m.d c a) eq) e in
          let out : (challenge_step m limit period s a).1 ≡ m.o r.cur a = elim h.output [
            | inl same ↦ same ∙ ap (λ c. m.o c a) eq
            | inr more ↦ absurd (omega (arith, more, grows, e))
          ] in
          ap₂ (λ x xs. x ∷ xs) out rest
