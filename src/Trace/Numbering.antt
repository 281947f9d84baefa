-- ===== src/Trace/Numbering.antt =====
-- The numbers of an event are signed distances in the two streams.
use tcp_probe.Prelude.{ℕ, ◌≡◌, arith, Bool, true, false, List, [], ◌∷◌, ◌++◌}
use tcp_probe.Prelude.Int.{sub_ℕ}
use tcp_probe.Word.{u32}
use tcp_probe.Seq.Order.{Near}
use tcp_probe.Trace.{Trace, set_origin, relative, record_rx, record_tx}

pub relative-u32 : (x first : ℕ) → Near x first → relative (u32 x) (u32 first) ≡ sub_ℕ x first
relative-u32 x first h = ground arith

-- After `set_origin` with the first positions of the two streams, an inbound segment is logged with
-- its sequence number's signed distance from the first data byte and its acknowledgement's from our
-- first byte, and an outbound segment the other way round, for positions less than 2^31 from the
-- origins, however the 32-bit numbers have wrapped. Both are logged at their time less the origin.
pub record-numbers :
    {T : Type 0} (sub : T → T → T) (tr : Trace T) (t0 t : T)
    (first ours theirs_at ours_at flags len : ℕ) (dropped : Bool) (note : List ℕ)
    → Near theirs_at first
    → Near ours_at ours
    → let o = set_origin tr t0 (u32 first) (u32 ours) in
      ((record_rx sub o t (u32 theirs_at) (u32 ours_at) flags len dropped note).events
        ≡ tr.events
          ++ record {
            t_ms = sub t t0;
            tx = false;
            flags = flags;
            rel_seq = sub_ℕ theirs_at first;
            rel_ack = sub_ℕ ours_at ours;
            len = len;
            dropped = dropped;
            note = note;
          }
            ∷ [])
      × ((record_tx sub o t (u32 ours_at) (u32 theirs_at) flags len note).events
          ≡ tr.events
            ++ record {
              t_ms = sub t t0;
              tx = true;
              flags = flags;
              rel_seq = sub_ℕ ours_at ours;
              rel_ack = sub_ℕ theirs_at first;
              len = len;
              dropped = false;
              note = note;
            }
              ∷ [])
unfolding set_origin record_rx record_tx
record-numbers sub tr t0 t first ours theirs_at ours_at flags len dropped note h k =
    let e = relative-u32 theirs_at first h in
    let f = relative-u32 ours_at ours k in
    (
      λ i.
          tr.events
          ++ record {
            t_ms = sub t t0;
            tx = false;
            flags = flags;
            rel_seq = e i;
            rel_ack = f i;
            len = len;
            dropped = dropped;
            note = note;
          }
            ∷ [],
      λ i.
          tr.events
          ++ record {
            t_ms = sub t t0;
            tx = true;
            flags = flags;
            rel_seq = f i;
            rel_ack = e i;
            len = len;
            dropped = false;
            note = note;
          }
            ∷ [],
    )
