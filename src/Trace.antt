-- ===== src/Trace.antt =====
-- include/tp/trace.hpp and src/trace.cpp: the log of segments, numbered from the start of the stream.
-- A time is a value of any type with a subtraction; text is a list of character codes.
pub mod Numbering
pub mod Csv
use tcp_probe.Prelude.{
  ℕ, ◌+◌, Bool, true, false, ◌&&◌, not, Option, none, some, List, [], ◌∷◌, ◌++◌, ◌==◌,
  if◌then◌else◌,
}
use tcp_probe.Prelude.Int.{ℤ, pos}
use tcp_probe.Word.{sub32, int32}
use tcp_probe.Segment.{flagstr}

pub record Event (T : Type 0) : Type 0 where
  pub t_ms : T
  pub tx : Bool
  pub flags : ℕ
  pub rel_seq : ℤ
  pub rel_ack : ℤ
  pub len : ℕ
  pub dropped : Bool
  pub note : List ℕ

pub record Trace (T : Type 0) : Type 0 where
  pub events : List (Event T)
  pub t0 : T
  pub data_isn : ℕ
  pub our_isn : ℕ

unfoldable pub set_origin : {T : Type 0} → Trace T → T → ℕ → ℕ → Trace T
set_origin tr t0_ms data_isn our_isn = record tr {
  t0 = t0_ms;
  data_isn = data_isn;
  our_isn = our_isn;
}

-- `int64_t(int32_t(number - isn))`.
abbrev pub relative : ℕ → ℕ → ℤ
relative number isn = int32 (sub32 number isn)

-- `sub` is the subtraction of times.
module _ {T : Type 0} (sub : T → T → T) where
  unfoldable pub record_rx : Trace T → T → ℕ → ℕ → ℕ → ℕ → Bool → List ℕ → Trace T
  record_rx tr t_ms seq ack flags len dropped note =
      let e : Event T = record {
        t_ms = sub t_ms tr.t0;
        tx = false;
        flags = flags;
        rel_seq = relative seq tr.data_isn;
        rel_ack = relative ack tr.our_isn;
        len = len;
        dropped = dropped;
        note = note;
      } in
      record tr { events = tr.events ++ e ∷ [] }

  unfoldable pub record_tx : Trace T → T → ℕ → ℕ → ℕ → ℕ → List ℕ → Trace T
  record_tx tr t_ms seq ack flags len note =
      let e : Event T = record {
        t_ms = sub t_ms tr.t0;
        tx = true;
        flags = flags;
        rel_seq = relative seq tr.our_isn;
        rel_ack = relative ack tr.data_isn;
        len = len;
        dropped = false;
        note = note;
      } in
      record tr { events = tr.events ++ e ∷ [] }

  unfoldable pub note : Trace T → T → List ℕ → Trace T
  note tr t_ms text =
      let e : Event T = record {
        t_ms = sub t_ms tr.t0;
        tx = false;
        flags = 0;
        rel_seq = pos 0;
        rel_ack = pos 0;
        len = 0;
        dropped = false;
        note = text;
      } in
      record tr { events = tr.events ++ e ∷ [] }

-- The loop of `write_csv` over a note: a quote is written twice.
unfoldable pub escape : List ℕ → List ℕ
escape [] = []
escape (c ∷ cs) = let rest = escape cs in if c == b'"' then b'"' ∷ c ∷ rest else c ∷ rest

abbrev comma : List ℕ
comma = b',' ∷ []

abbrev tx_text : List ℕ
tx_text = b't' ∷ b'x' ∷ []

abbrev rx_text : List ℕ
rx_text = b'r' ∷ b'x' ∷ []

-- How `fprintf` writes a time by `%.6f`, a signed number by `%lld` and an unsigned one by `%u`.
pub record Format (T : Type 0) : Type 0 where
  pub time : T → List ℕ
  pub signed : ℤ → List ℕ
  pub unsigned : ℕ → List ℕ

-- One row of `write_csv`.
unfoldable pub csv_row : {T : Type 0} → Format T → Event T → List ℕ
csv_row fmt e =
    fmt.time e.t_ms
    ++ (comma
        ++ ((if e.tx then tx_text else rx_text)
            ++ (comma
                ++ (flagstr e.flags
                    ++ (comma
                        ++ (fmt.signed e.rel_seq
                            ++ (comma
                                ++ (fmt.signed e.rel_ack
                                    ++ (comma
                                        ++ (fmt.unsigned e.len
                                            ++ (comma
                                                ++ ((if e.dropped then b'1' else b'0')
                                                    ∷ b','
                                                    ∷ b'"'
                                                    ∷ (escape e.note ++ b'"' ∷ 10 ∷ [])))))))))))))
