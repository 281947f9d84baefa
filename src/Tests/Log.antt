-- ===== src/Tests/Log.antt =====
-- The log of a connection whose numbers are close to a wrap.
use tcp_probe.Prelude.{ℕ, ◌-◌, ◌^◌, ◌≡◌, refl, arith, true, false, some, [], ◌∷◌, ◌++◌}
use tcp_probe.Prelude.Int.{sub_ℕ}
use tcp_probe.Word.{u32}
use tcp_probe.Trace.{Trace, set_origin, record_rx, record_tx, escape}
use tcp_probe.Trace.Numbering.{record-numbers}
use tcp_probe.Trace.Csv.{read_quoted, read_quoted-escape}

abbrev minus : ℕ → ℕ → ℕ
minus a b = a - b

abbrev fresh : Trace ℕ
fresh = record { events = []; t0 = 0; data_isn = 0; our_isn = 0 }

abbrev origin : Trace ℕ
origin = set_origin fresh 5 (u32 (2 ^ 32 - 1)) (u32 1000)

-- The kernel's SYN, one before its first data byte, is logged at -1.
record-numbers_example :
    ((record_rx minus origin 8 (u32 (2 ^ 32 - 2)) (u32 1000) 2 0 false []).events
      ≡ record {
        t_ms = minus 8 5;
        tx = false;
        flags = 2;
        rel_seq = sub_ℕ (2 ^ 32 - 2) (2 ^ 32 - 1);
        rel_ack = sub_ℕ 1000 1000;
        len = 0;
        dropped = false;
        note = [];
      }
        ∷ [])
    × ((record_tx minus origin 8 (u32 1000) (u32 (2 ^ 32 - 2)) 2 0 []).events
        ≡ record {
          t_ms = minus 8 5;
          tx = true;
          flags = 2;
          rel_seq = sub_ℕ 1000 1000;
          rel_ack = sub_ℕ (2 ^ 32 - 2) (2 ^ 32 - 1);
          len = 0;
          dropped = false;
          note = [];
        }
          ∷ [])
record-numbers_example =
    record-numbers minus fresh 5 8 (2 ^ 32 - 1) 1000 (2 ^ 32 - 2) 1000 2 0 false []
      (omega arith, omega arith) (omega arith, omega arith)

read_quoted-escape_example :
    read_quoted (escape (b'a' ∷ b'"' ∷ b'"' ∷ []) ++ b'"' ∷ 10 ∷ [])
    ≡ some (b'a' ∷ b'"' ∷ b'"' ∷ [], 10 ∷ [])
read_quoted-escape_example = read_quoted-escape (b'a' ∷ b'"' ∷ b'"' ∷ []) (10 ∷ []) refl
