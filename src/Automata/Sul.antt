-- ===== src/Automata/Sul.antt =====
-- reference/salvage/lstar.cpp: `SUL` and the systems under learning. A system is a type of states with
-- its two virtual methods; a struct's members are its state, but for the machine that it refers to.
use tcp_probe.Prelude.{ℕ, ◌+◌, ◌-◌, ◌/◌, Bool, false, Option, none, some, ltb, ◌==◌, if◌then◌else◌}
use tcp_probe.Automata.Mealy.{Mealy, o_silent}

pub record Sul (S : Type 0) : Type 0 where
  pub reset : S → S
  pub step : S → ℕ → S × ℕ

-- The members that every system has.
pub record Counters : Type 0 where
  pub resets : ℕ
  pub steps : ℕ

abbrev count_reset : Counters → Counters
count_reset c = record c { resets = c.resets + 1 }

abbrev count_step : Counters → Counters
count_step c = record c { steps = c.steps + 1 }

abbrev pub no_counts : Counters
no_counts = record { resets = 0; steps = 0 }

pub record RefSul : Type 0 where
  pub counts : Counters
  pub cur : ℕ

-- `epoch` is `none` for -1; `limit` is not negative.
pub record ChallengeSul : Type 0 where
  pub counts : Counters
  pub cur : ℕ
  pub g : ℕ
  pub epoch : Option ℕ
  pub tokens : ℕ
  pub suppressed : ℕ
  pub granted : ℕ

pub record FlakySul (R : Type 0) : Type 0 where
  pub counts : Counters
  pub cur : ℕ
  pub rng : R
  pub lost : ℕ

abbrev pub is_epoch : Option ℕ → ℕ → Bool
is_epoch none e = false
is_epoch (some x) e = x == e

module _ (m : Mealy) where
  unfoldable pub ref_sul : Sul RefSul
  ref_sul = record {
    reset = λ s. record s { counts = count_reset s.counts; cur = 0 };
    step = λ s a. (record s { counts = count_step s.counts; cur = m.d s.cur a }, m.o s.cur a);
  }

  unfoldable pub det_bug_sul : Sul RefSul
  det_bug_sul = record {
    reset = λ s. record s { counts = count_reset s.counts; cur = 0 };
    step = λ s a. (
      record s { counts = count_step s.counts; cur = m.d s.cur a },
      if m.chal s.cur a then o_silent else m.o s.cur a,
    );
  }

  -- A generator is a state with a draw that says whether it is below `p`.
  unfoldable pub flaky_sul : {R : Type 0} → (R → R × Bool) → Sul (FlakySul R)
  flaky_sul draw = record {
    reset = λ s. record s { counts = count_reset s.counts; cur = 0 };
    step = λ s a.
        let out = m.o s.cur a in
        let s' : FlakySul _ = record s { counts = count_step s.counts; cur = m.d s.cur a } in
        let (rng, is_lost) = draw s.rng in
        if out == o_silent
        then (s', out)
        else if is_lost
        then (record s' { rng = rng; lost = s.lost + 1 }, o_silent)
        else (record s' { rng = rng }, out);
  }

  module _ (limit period : ℕ) where
    -- The refill at the start of a step.
    abbrev pub refill : ChallengeSul → ChallengeSul
    refill s =
        let e = s.g / period in
        let s' : ChallengeSul = record s { counts = count_step s.counts; g = s.g + 1 } in
        if is_epoch s.epoch e then s' else record s' { epoch = some e; tokens = limit }

    -- A challenge takes a token, or is silent where there is none.
    abbrev pub challenge : ChallengeSul → ℕ → ChallengeSul × ℕ
    challenge s out =
        if ltb 0 s.tokens
        then (record s { tokens = s.tokens - 1; granted = s.granted + 1 }, out)
        else (record s { suppressed = s.suppressed + 1 }, o_silent)

    unfoldable pub challenge_step : ChallengeSul → ℕ → ChallengeSul × ℕ
    challenge_step s a =
        let s1 = refill s in
        let (s2, out) = if m.chal s.cur a then challenge s1 (m.o s.cur a) else (s1, m.o s.cur a) in
        (record s2 { cur = m.d s.cur a }, out)

    unfoldable pub challenge_reset : ChallengeSul → ChallengeSul
    challenge_reset s = record s { counts = count_reset s.counts; cur = 0 }

    abbrev pub challenge_sul : Sul ChallengeSul
    challenge_sul = record { reset = challenge_reset; step = challenge_step }

abbrev pub new_ref : RefSul
new_ref = record { counts = no_counts; cur = 0 }

abbrev pub new_challenge : ChallengeSul
new_challenge = record {
  counts = no_counts;
  cur = 0;
  g = 0;
  epoch = none;
  tokens = 0;
  suppressed = 0;
  granted = 0;
}
