-- ===== src/Experiments/HeadOfLine.antt =====
-- experiments/exp_hol.cpp: an arm of the head-of-line experiment, from its settings to its row. The
-- texts of a row are constructors.
use tcp_probe.Prelude.{
  ℕ, ◌+◌, ◌-◌, ◌*◌, ◌/◌, Bool, true, false, ◌&&◌, not, Option, List, [], ◌∷◌, leb, if◌then◌else◌,
}
use tcp_probe.Word.{u32}
use tcp_probe.Prelude.Int.{ℤ}
use tcp_probe.Clock.{Times}
use tcp_probe.Policy.{DropRule, LossPolicy, unfired}
use tcp_probe.Policy as Policy
use tcp_probe.Trace.{Trace}
use tcp_probe.Peer.{PeerConfig, RunSummary}
use tcp_probe.Peer.Outbox.{Send}
use tcp_probe.Peer.Connect.{DrainOp, Meeting}
use tcp_probe.Experiments.Scenario.{ScenarioError, Scenario, Session, run_scenario}

pub data RecoveredBy : Type 0 where
  no_loss unrepaired fast_retransmit tail_loss_probe timeout : RecoveredBy

pub record Arm : Type 0 where
  pub sack : Bool
  pub tail : Bool

pub data Row (T : Type 0) : Type 0 where
  arm_failed : Option ScenarioError → Row T
  never_matched sack_refused sack_unasked : Row T
  measured : RunSummary T → RecoveredBy → Row T

abbrev pub k_bytes : ℕ
k_bytes = 96 * 1024

abbrev k_mss : ℕ
k_mss = 1024

abbrev pub is_empty : {A : Type 0} → List A → Bool
is_empty [] = true
is_empty (x ∷ xs) = false

-- `d < floor / 2.0`, as `d + d < floor`.
abbrev below_half : {T : Type 0} → Times T → T → ℕ → Bool
below_half tm d floor = not (tm.leb_T (tm.of_ℕ floor) (tm.add d d))

unfoldable pub classify : {T : Type 0} → Times T → RunSummary T → ℕ → ℕ → RecoveredBy
classify tm s dupack_thresh rto_floor_ms =
    if is_empty s.retransmits
    then no_loss
    else if tm.is_negative s.hol_delay_ms
    then unrepaired
    else if leb dupack_thresh s.dup_acks_sent
    then fast_retransmit
    else if below_half tm s.hol_delay_ms rto_floor_ms
    then tail_loss_probe
    else timeout

-- The offset of the byte that is lost once, and the rule for it.
abbrev pub lost_offset : Arm → ℕ
lost_offset a = if a.tail then k_bytes - 1 else k_bytes / 2

abbrev pub lost_once : ℕ → DropRule
lost_once off = record { lo = off; hi = off + 1; times = 1; fired = 0 }

-- The part of `PeerConfig` that the arm sets.
abbrev pub arm_config : {T : Type 0} → Arm → ℕ → PeerConfig T → PeerConfig T
arm_config a sport cfg = record cfg {
  sport = sport;
  isn = u32 (200000 + sport * 17);
  mss = k_mss;
  offer_sack = a.sack;
  send_sack_blocks = a.sack;
}

-- The row that is printed for what a scenario leaves.
unfoldable pub judge : {D T : Type 0} → Times T → Arm → ℕ → ℕ → Scenario D T → Row T
judge tm a dupack_thresh rto_floor_ms sc =
    let o = sc.outcome in
    if not o.ok
    then arm_failed o.err
    else if not (is_empty (unfired sc.loss))
    then never_matched
    else if a.sack && not o.sack_negotiated
    then sack_refused
    else if not a.sack && o.sack_negotiated
    then sack_unasked
    else measured o.sum (classify tm o.sum dupack_thresh rto_floor_ms)

module _ {D T : Type 0} (tm : Times T) (cfg : PeerConfig T) (send : Send D T) (decimal : ℕ → List ℕ)
    (drain : DrainOp D T) where
  -- The scenario of an arm.
  unfoldable pub run_arm : Arm → ℕ → ℤ → Meeting T → Session T → D → Trace T → Scenario D T
  run_arm a sport sendspace m s device tr =
      run_scenario tm (arm_config a sport cfg) send decimal drain sendspace k_bytes (tm.of_ℕ 15000)
        (Policy.add Policy.empty (lost_once (lost_offset a))) m s device tr
