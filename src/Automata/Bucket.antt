-- ===== src/Automata/Bucket.antt =====
-- What the token bucket of `ChallengeSUL` lets through.
use native.Mathlib.Nat as Nat
use tcp_probe.Prelude.{
  ℕ, ◌+◌, ◌-◌, ◌*◌, ◌/◌, ◌≤◌, ◌<◌, ◌≡◌, refl, arith, false, Option, none, some, List, [], ◌∷◌, ltb,
  if_cases,
}
use tcp_probe.Automata.Mealy.{Mealy}
use tcp_probe.Automata.Sul.{
  ChallengeSul, is_epoch, refill, challenge, challenge_step, challenge_reset, challenge_sul,
  new_challenge,
}
use tcp_probe.Automata.Acts.{Act, reconnect, input, drive, challenges, inputs, drive-counts}

-- How many periods `n` inputs have begun: none without an input, and the first with the first.
abbrev pub periods_begun : ℕ → ℕ → ℕ
periods_begun period n = (n + (period - 1)) / period

module _ (m : Mealy) (limit period : ℕ) (period_pos : 0 < period) where
  -- The bucket in its epoch, whose first input has come: what was granted and what is left are
  -- within the limit for each epoch up to this one.
  abbrev Filled : Option ℕ → ℕ → ℕ → ℕ → Type 0
  Filled none g tokens granted = (tokens ≡ 0) × (granted ≡ 0)
  Filled (some e) g tokens granted = (e * period < g) × (granted + tokens ≤ limit * (e + 1))

  Filled-later :
      (e : Option ℕ) (g tokens granted : ℕ)
      → Filled e g tokens granted
      → Filled e (g + 1) tokens granted
  Filled-later none g tokens granted h = h
  Filled-later (some e) g tokens granted (h, b) = (omega (arith, h), b)

  -- A new epoch has room for the limit.
  Filled-next :
      (e : Option ℕ) (g tokens granted : ℕ)
      → Filled e g tokens granted
      → is_epoch e (g / period) ≡ false
      → granted + limit ≤ limit * (g / period + 1)
  Filled-next none g tokens granted (t, h) ne =
      let all : limit * (0 + 1) ≤ limit * (g / period + 1) =
        Nat.mul-le-mul_left limit (omega arith) in
      omega (arith, h, all, Nat.mul-one limit)
  Filled-next (some e) g tokens granted (h, b) ne =
      let within : e ≤ g / period = (Nat.le-div_iff_mul-le period_pos).1 (omega (arith, h)) in
      let later : e + 1 ≤ g / period = ground (arith, within, ne) in
      let all : limit * (e + 1) ≤ limit * (g / period) = Nat.mul-le-mul_left limit later in
      omega (arith, b, all, Nat.mul-suc limit (g / period))

  abbrev IsFilled : ChallengeSul → Type 0
  IsFilled s = Filled s.epoch s.g s.tokens s.granted

  refill-IsFilled : (s : ChallengeSul) → IsFilled s → IsFilled (refill m limit period s)
  refill-IsFilled s h =
      if_cases IsFilled (is_epoch s.epoch (s.g / period)) _ _
        (λ old. Filled-later s.epoch s.g s.tokens s.granted h)
        λ new.
          let room = Filled-next s.epoch s.g s.tokens s.granted h new in
          (omega (arith, Nat.div-mul-le_self s.g period), omega (arith, room))

  Filled-spent :
      (e : Option ℕ) (g tokens granted : ℕ)
      → Filled e g tokens granted
      → 0 < tokens
      → Filled e g (tokens - 1) (granted + 1)
  Filled-spent none g tokens granted h p = omega (arith, h)
  Filled-spent (some e) g tokens granted (h, b) p = (h, omega (arith, b))

  challenge-IsFilled :
      (s : ChallengeSul) (out : ℕ) → IsFilled s → IsFilled (challenge m limit period s out).0
  challenge-IsFilled s out h =
      if_cases (λ (r : ChallengeSul × ℕ). IsFilled r.0) (ltb 0 s.tokens) _ _
        (λ p. Filled-spent s.epoch s.g s.tokens s.granted h (ground (arith, p))) λ p. h

  challenge_step-IsFilled :
      (s : ChallengeSul) (a : ℕ) → IsFilled s → IsFilled (challenge_step m limit period s a).0
  unfolding challenge_step
  challenge_step-IsFilled s a h =
      let s1 = refill m limit period s in
      let h1 = refill-IsFilled s h in
      if_cases (λ (r : ChallengeSul × ℕ). IsFilled r.0) (m.chal s.cur a) _ _
        (λ c. challenge-IsFilled s1 (m.o s.cur a) h1) λ c. h1

  drive-IsFilled :
      (s : ChallengeSul) (acts : List Act)
      → IsFilled s
      → IsFilled (drive (challenge_sul m limit period) s acts).0
  unfolding challenge_reset
  drive-IsFilled s [] h = h
  drive-IsFilled s (reconnect ∷ acts) h = drive-IsFilled (challenge_reset m limit period s) acts h
  drive-IsFilled s (input a ∷ acts) h =
      drive-IsFilled (challenge_step m limit period s a).0 acts (challenge_step-IsFilled s a h)

  -- From a fresh connection, over any inputs and reconnections: every challenge is either granted or
  -- suppressed, and the grants are at most the limit for each period that the inputs have begun.
  pub granted-bounds :
      (acts : List Act)
      → let s = (drive (challenge_sul m limit period) new_challenge acts).0 in
        (s.granted + s.suppressed ≡ challenges m 0 acts)
        × (s.granted ≤ limit * periods_begun period (inputs acts))
  granted-bounds acts =
      let s = (drive (challenge_sul m limit period) new_challenge acts).0 in
      let (counted, g, grows) = drive-counts m limit period new_challenge acts in
      (
        omega (arith, counted),
        within s.epoch s.g s.tokens s.granted (inputs acts) (omega (arith, g))
            (drive-IsFilled new_challenge acts (refl, refl)),
      )
    where
      within :
          (e : Option ℕ) (g tokens granted n : ℕ)
          → g ≡ n
          → Filled e g tokens granted
          → granted ≤ limit * periods_begun period n
      within none g tokens granted n eq (t, h) = omega (arith, h)
      within (some e) g tokens granted n eq (h, b) =
          let begun : e + 1 ≤ periods_begun period n =
            (Nat.le-div_iff_mul-le period_pos).1 (omega (arith, h, eq, Nat.add-mul e 1 period)) in
          omega (arith, b, Nat.mul-le-mul_left limit begun)
