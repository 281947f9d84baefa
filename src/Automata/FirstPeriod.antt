-- ===== src/Automata/FirstPeriod.antt =====
-- The token bucket of `ChallengeSUL` before its first refill.
use native.Mathlib.Nat as Nat
use Prim.Native.Nat.{min}
use tcp_probe.Prelude.{
  ℕ, ◌+◌, ◌-◌, ◌/◌, ◌≤◌, ◌<◌, ◌≡◌, refl, ap, arith, true, false, Option, none, some, List, [], ◌∷◌,
  if_cases, ◌⊎◌, inl, inr,
}
use tcp_probe.Automata.Mealy.{Mealy}
use tcp_probe.Automata.Sul.{
  ChallengeSul, is_epoch, refill, challenge, challenge_step, challenge_reset, challenge_sul,
  new_challenge,
}
use tcp_probe.Automata.Acts.{
  Act, reconnect, input, drive, challenges, inputs, challenge_step-Stepped, drive-counts,
}

module _ (m : Mealy) (limit period : ℕ) where
  -- In the first period nothing is refilled: a token is spent for each grant, and only an empty bucket
  -- suppresses.
  abbrev First : Option ℕ → ℕ → ℕ → ℕ → Type 0
  First none tokens granted suppressed = (tokens ≡ 0) × (granted ≡ 0) × (suppressed ≡ 0)
  First (some e) tokens granted suppressed =
      (e ≡ 0) × (granted + tokens ≡ limit) × ((tokens ≡ 0) ⊎ (suppressed ≡ 0))

  abbrev IsFirst : ChallengeSul → Type 0
  IsFirst s = First s.epoch s.tokens s.granted s.suppressed

  -- The bucket once an epoch has begun.
  abbrev IsOpen : ChallengeSul → Type 0
  IsOpen s =
      (s.epoch ≡ some 0) × (s.granted + s.tokens ≡ limit) × ((s.tokens ≡ 0) ⊎ (s.suppressed ≡ 0))

  First-old :
      (e : Option ℕ) (tokens granted suppressed now : ℕ)
      → First e tokens granted suppressed
      → is_epoch e now ≡ true
      → (e ≡ some 0) × (granted + tokens ≡ limit) × ((tokens ≡ 0) ⊎ (suppressed ≡ 0))
  First-old none tokens granted suppressed now h old = cc
  First-old (some e) tokens granted suppressed now (z, full, h) old = (ap some z, full, h)

  First-new :
      (e : Option ℕ) (tokens granted suppressed now : ℕ)
      → First e tokens granted suppressed
      → now ≡ 0
      → is_epoch e now ≡ false
      → (granted ≡ 0) × (suppressed ≡ 0)
  First-new none tokens granted suppressed now (t, g, h) zero_now new = (g, h)
  First-new (some e) tokens granted suppressed now (z, full, h) zero_now new =
      absurd (ground (arith, new, z, zero_now))

  refill-IsOpen : (s : ChallengeSul) → s.g < period → IsFirst s → IsOpen (refill m limit period s)
  refill-IsOpen s small h =
      let now = s.g / period in
      let zero_now : now ≡ 0 = Nat.div-eq_of_lt small in
      if_cases IsOpen (is_epoch s.epoch now) _ _
        (λ old. First-old s.epoch s.tokens s.granted s.suppressed now h old)
        λ new.
          let (granted, suppressed) =
            First-new s.epoch s.tokens s.granted s.suppressed now h zero_now new in
          (ap some zero_now, omega (arith, granted), inr suppressed)

  challenge-IsOpen :
      (s : ChallengeSul) (out : ℕ) → IsOpen s → IsOpen (challenge m limit period s out).0
  challenge-IsOpen s out (e, full, empty) =
      (ground (arith, e), ground (arith, full), ground (arith, empty))

  IsOpen-IsFirst : (s : ChallengeSul) → IsOpen s → IsFirst s
  IsOpen-IsFirst s (e, full, h) = opened s.epoch e
    where
      opened : (x : Option ℕ) → x ≡ some 0 → First x s.tokens s.granted s.suppressed
      opened none eq = cc
      opened (some x) eq = (ground (arith, eq), full, h)

  challenge_step-IsFirst :
      (s : ChallengeSul) (a : ℕ)
      → s.g < period
      → IsFirst s
      → IsFirst (challenge_step m limit period s a).0
  unfolding challenge_step
  challenge_step-IsFirst s a small h =
      let s1 = refill m limit period s in
      let h1 = refill-IsOpen s small h in
      if_cases (λ (r : ChallengeSul × ℕ). IsFirst r.0) (m.chal s.cur a) _ _
        (λ c.
          IsOpen-IsFirst (challenge m limit period s1 (m.o s.cur a)).0
            (challenge-IsOpen s1 (m.o s.cur a) h1))
        λ c. IsOpen-IsFirst s1 h1

  drive-IsFirst :
      (s : ChallengeSul) (acts : List Act)
      → s.g + inputs acts ≤ period
      → IsFirst s
      → IsFirst (drive (challenge_sul m limit period) s acts).0
  unfolding challenge_reset
  drive-IsFirst s [] small h = h
  drive-IsFirst s (reconnect ∷ acts) small h =
      drive-IsFirst (challenge_reset m limit period s) acts small h
  drive-IsFirst s (input a ∷ acts) small h =
      let s1 = (challenge_step m limit period s a).0 in
      drive-IsFirst s1 acts (omega (arith, small, (challenge_step-Stepped m limit period s a).g))
        (challenge_step-IsFirst s a (omega (arith, small)) h)

  -- Within the first period, over any reconnections, the bucket grants the first challenges up to the
  -- limit and suppresses exactly the others.
  pub granted_lem :
      (acts : List Act)
      → inputs acts ≤ period
      → let s = (drive (challenge_sul m limit period) new_challenge acts).0 in
        (s.granted ≡ min limit (challenges m 0 acts)) × (s.suppressed ≡ challenges m 0 acts - limit)
  granted_lem acts small =
      let s = (drive (challenge_sul m limit period) new_challenge acts).0 in
      let (counted, g, grows) = drive-counts m limit period new_challenge acts in
      exact s.epoch s.tokens s.granted s.suppressed (challenges m 0 acts) (omega (arith, counted))
        (drive-IsFirst new_challenge acts (omega (arith, small)) (refl, refl, refl))
    where
      exact :
          (e : Option ℕ) (tokens granted suppressed n : ℕ)
          → granted + suppressed ≡ n
          → First e tokens granted suppressed
          → (granted ≡ min limit n) × (suppressed ≡ n - limit)
      exact none tokens granted suppressed n sum (t, g, h) =
          (omega (arith, sum, g, h), omega (arith, sum, g, h))
      exact (some e) tokens granted suppressed n sum (z, full, inl h) =
          (omega (arith, sum, full, h), omega (arith, sum, full, h))
      exact (some e) tokens granted suppressed n sum (z, full, inr h) =
          (omega (arith, sum, full, h), omega (arith, sum, full, h))
