-- ===== src/Experiments/OneLoss.antt =====
-- A row of the head-of-line experiment that counts is one where exactly one segment was lost.
use tcp_probe.Prelude.{
  ℕ, ◌+◌, ◌≤◌, ◌<◌, ◌≡◌, refl, sym, arith, Bool, true, false, ◌&&◌, not, Option, List, [], ◌∷◌,
  ◌==◌, if◌then◌else◌, if_cases,
}
use mathlib.Core.Path.{subst}
use tcp_probe.Prelude.Int.{ℤ}
use tcp_probe.Word.{u32}
use tcp_probe.Clock.{Times}
use tcp_probe.Policy.{DropRule, LossPolicy, empty, add, matches, fire, drop, unfired, unfired_from}
use tcp_probe.Trace.{Trace}
use tcp_probe.Peer.{PeerConfig, RunSummary}
use tcp_probe.Peer.Outbox.{Send}
use tcp_probe.Peer.Connect.{DrainOp, Meeting}
use tcp_probe.Experiments.Scenario.{ScenarioError, Scenario, Session}
use tcp_probe.Experiments.Losses.{run_scenario-keeps}
use tcp_probe.Experiments.HeadOfLine.{
  RecoveredBy, Arm, Row, arm_failed, never_matched, sack_refused, sack_unasked, measured, is_empty,
  classify, lost_offset, lost_once, arm_config, judge, run_arm, k_bytes,
}

-- The policy has the one rule, and its firings are counted.
record HasRule (off : ℕ) (p : LossPolicy) : Type 0 where
  fired : ℕ
  rules : p.rules ≡ record (lost_once off) { fired = fired } ∷ []
  counted : p.dropped ≡ fired
  few : fired ≤ 1

start-HasRule : (off : ℕ) → HasRule off (add empty (lost_once off))
unfolding add empty
start-HasRule off = record { fired = 0; rules = refl; counted = refl; few = omega arith }

matches-few :
    (lo hi off n : ℕ) → matches lo hi (record (lost_once off) { fired = n }) ≡ true → n ≡ 0
unfolding matches
matches-few lo hi off n e = ground (arith, e)

-- The rule fires or it does not.
drop_rule-HasRule :
    (off n rel len : ℕ)
    → n ≤ 1
    → HasRule off
        (drop (record { rules = record (lost_once off) { fired = n } ∷ []; dropped = n }) rel len).0
unfolding drop fire
drop_rule-HasRule off n rel len few =
    let r : DropRule = record (lost_once off) { fired = n } in
    let hi = u32 (rel + len) in by_match (matches rel hi r) (matches-few rel hi off n)
  where
    by_match :
        let r : DropRule = record (lost_once off) { fired = n } in
        let p : LossPolicy = record { rules = r ∷ []; dropped = n } in
        (b : Bool)
        → (b ≡ true → n ≡ 0)
        → let fires : List DropRule × Bool = (record r { fired = n + 1 } ∷ [], true) in
          let (rules, hit) = if b then fires else (r ∷ [], false) in
          let out : LossPolicy × Bool =
            if len == 0
            then (p, false)
            else if hit
            then (record { rules = rules; dropped = n + 1 }, true)
            else (record p { rules = rules }, false) in
          HasRule off out.0
    by_match true fresh =
        if_cases (λ (out : LossPolicy × Bool). HasRule off out.0) (len == 0) _ _
          (λ nothing. record { fired = n; rules = refl; counted = refl; few = few })
          λ some_bytes. record {
            fired = n + 1;
            rules = refl;
            counted = refl;
            few = omega (arith, fresh refl);
          }
    by_match false fresh =
        if_cases (λ (out : LossPolicy × Bool). HasRule off out.0) (len == 0) _ _
          (λ nothing. record { fired = n; rules = refl; counted = refl; few = few })
          (λ some_bytes. record { fired = n; rules = refl; counted = refl; few = few })

drop-HasRule :
    (off : ℕ) (p : LossPolicy) (rel len : ℕ) → HasRule off p → HasRule off (drop p rel len).0
drop-HasRule off p rel len h =
    subst (λ rs. HasRule off (drop (record { rules = rs; dropped = p.dropped }) rel len).0)
      (sym h.rules)
      (subst
        (λ d.
          HasRule off
            (drop (record { rules = record (lost_once off) { fired = h.fired } ∷ []; dropped = d })
              rel len).0)
        (sym h.counted) (drop_rule-HasRule off h.fired rel len h.few))

fired_once :
    (off : ℕ) (p : LossPolicy) → HasRule off p → is_empty (unfired p) ≡ true → p.dropped ≡ 1
unfolding unfired unfired_from
fired_once off p h e =
    let rule_fired = subst (λ rs. is_empty (unfired_from 0 rs) ≡ true) h.rules e in
    let positive : 0 < h.fired = idle_or_fired h.fired rule_fired in
    omega (arith, h.counted, h.few, positive)
  where
    idle_or_fired : (n : ℕ) → is_empty {A = ℕ} (if n == 0 then 0 ∷ [] else []) ≡ true → 0 < n
    idle_or_fired n f = ground (arith, f)

-- The answers to the questions that `judge` asks before it counts a row.
record Counts {D T : Type 0} (a : Arm) (sc : Scenario D T) : Type 0 where
  is_ok : sc.outcome.ok ≡ true
  all_fired : is_empty (unfired sc.loss) ≡ true
  sack : sc.outcome.sack_negotiated ≡ a.sack

by_tests :
    {T : Type 0} (a b x y : Bool) (err : Option ScenarioError) (s s' : RunSummary T)
    (by by' : RecoveredBy)
    → let row : Row T =
        if not a
        then arm_failed err
        else if not b
        then never_matched
        else if x && not y
        then sack_refused
        else if not x && y
        then sack_unasked
        else measured s' by' in
      row ≡ measured s by → (a ≡ true) × (b ≡ true) × (y ≡ x) × (s ≡ s') × (by ≡ by')
by_tests false b x y err s s' by by' e = cc
by_tests true false x y err s s' by by' e = cc
by_tests true true true false err s s' by by' e = cc
by_tests true true false true err s s' by by' e = cc
by_tests true true true true err s s' by by' e = (refl, refl, refl, cc, cc)
by_tests true true false false err s s' by by' e = (refl, refl, refl, cc, cc)

judge-Counts :
    {D T : Type 0} (tm : Times T) (a : Arm) (dupack_thresh rto_floor_ms : ℕ) (sc : Scenario D T)
    (s : RunSummary T) (by : RecoveredBy)
    → judge tm a dupack_thresh rto_floor_ms sc ≡ measured s by
    → Counts a sc
      × (s ≡ sc.outcome.sum)
      × (by ≡ classify tm sc.outcome.sum dupack_thresh rto_floor_ms)
unfolding judge
judge-Counts tm a dupack_thresh rto_floor_ms sc s by e =
    let (ok, fires, agrees, sum, class) =
      by_tests sc.outcome.ok (is_empty (unfired sc.loss)) a.sack sc.outcome.sack_negotiated
        sc.outcome.err s sc.outcome.sum by (classify tm sc.outcome.sum dupack_thresh rto_floor_ms)
        e in
    (record { is_ok = ok; all_fired = fires; sack = agrees }, sum, class)

module _ {D T : Type 0} (tm : Times T) (cfg : PeerConfig T) (send : Send D T) (decimal : ℕ → List ℕ)
    (drain : DrainOp D T) where
  -- If the row of an arm counts, then its scenario was ok, the connection has SACK exactly if the arm
  -- offers it, and in the whole scenario the policy has dropped exactly one segment; the row shows the
  -- scenario's summary with the mechanism that `classify` finds for it.
  pub run_arm-measured :
      (a : Arm) (sport : ℕ) (sendspace : ℤ) (m : Meeting T) (ses : Session T) (device : D)
      (tr : Trace T) (dupack_thresh rto_floor_ms : ℕ) (s : RunSummary T) (by : RecoveredBy)
      → let sc = run_arm tm cfg send decimal drain a sport sendspace m ses device tr in
        judge tm a dupack_thresh rto_floor_ms sc ≡ measured s by
        → (sc.outcome.ok ≡ true)
          × (sc.outcome.sack_negotiated ≡ a.sack)
          × (sc.loss.dropped ≡ 1)
          × (s ≡ sc.outcome.sum)
          × (by ≡ classify tm sc.outcome.sum dupack_thresh rto_floor_ms)
  unfolding run_arm
  run_arm-measured a sport sendspace m ses device tr dupack_thresh rto_floor_ms s by e =
      let sc = run_arm tm cfg send decimal drain a sport sendspace m ses device tr in
      let (counts, sum, class) = judge-Counts tm a dupack_thresh rto_floor_ms sc s by e in
      let off = lost_offset a in
      let has_rule =
        run_scenario-keeps tm (arm_config a sport cfg) (HasRule off) (drop-HasRule off) send decimal
          drain sendspace k_bytes (tm.of_ℕ 15000) (add empty (lost_once off)) m ses device tr
          (start-HasRule off) in
      (counts.is_ok, counts.sack, fired_once off sc.loss has_rule counts.all_fired, sum, class)
