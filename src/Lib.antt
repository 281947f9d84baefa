-- ===== src/Lib.antt =====
-- Models and theorems of the TCP probe: a synthetic TCP peer on a utun device that measures how the
-- kernel's TCP recovers from losses which the peer decides on.
--
-- The parts and how they interact. A frame from the device is parsed to a segment (src/segment.cpp),
-- the loss policy decides whether the peer pretends not to have received it (src/policy.cpp), and
-- what is accepted goes to the reassembly (src/reassembly.cpp), which keeps the in-order frontier,
-- the ranges held beyond it and the time of each advance. The peer acknowledges by segments with
-- SACK blocks from the reassembly, which are built to packets (src/segment.cpp) with checksums
-- (include/tp/checksum.hpp). Sequence numbers are compared by include/tp/seq.hpp. Every segment is
-- logged in the trace (src/trace.cpp), and the peer (src/peer.cpp) ties these parts together.
--
-- Which file models which part:
--   Prelude      helpers that the parts share: tests on numbers, lists, integers, bits
--   Word         uint8_t, uint16_t, uint32_t and int32_t, their wrap-around written out
--   Seq          include/tp/seq.hpp: seq_lt, seq_leq, seq_gt, seq_geq
--   Segment      include/tp/segment.hpp and src/segment.cpp up to flagstr: SeqRange, Options
--                (empty, wire_len, encode), Seg (len, seq_span), flagstr
--   Checksum     include/tp/checksum.hpp: sum_be16, fold
--   Packet       src/segment.cpp: build and parse, with get16 and get32
--   Policy       include/tp/policy.hpp, src/policy.cpp: LossPolicy (add, drop, unfired)
--   Reassembly   include/tp/reassembly.hpp, src/reassembly.cpp: Reassembly (accept, delivered,
--                has_gap, sack_blocks, time_reached)
--   Trace        include/tp/trace.hpp, src/trace.cpp: Trace (set_origin, record_rx, record_tx,
--                note, a row of write_csv)
--   Clock        include/tp/clock.hpp, src/clock.cpp: a time's operations, sleep_ms
--   Sysctl       include/tp/sysctl.hpp, src/sysctl.cpp: sysctl_get, sysctl_set, ScopedSysctl,
--                restore_all
--   Utun         include/tp/utun.hpp, src/utun.cpp: Utun::send; Utun/Drain: drain, drain_for
--   Peer         include/tp/peer.hpp, src/peer.cpp: the loop of Peer::receive over a batch,
--                queue_ack; Peer/Outbox: send_now, flush_acks; Peer/Burst: burst; Peer/Connect:
--                establish, reset, delivered; Peer/Receive: receive
--   Automata     reference/salvage/lstar.cpp, a program of its own that tells a kernel's rate limit
--                from a fault of the harness: Mealy (Mealy, tcpServer), Sul (SUL, RefSUL,
--                ChallengeSUL, FlakySUL, DetBugSUL), Query (Cache, Oracle), Product
--                (Learner::eqPerfect), Characterize (characterizingSet), Learner (the table of
--                Learner), Learner/Loop (the equivalence oracles), Learner/Run (Learner::run),
--                Suffix (Learner::rivestSchapire), Hunt (huntWitness, minimizeAlphabet)
--   Experiments  experiments/harness.hpp: run_scenario over the peer (Experiments/Scenario);
--                experiments/exp_hol.cpp: an arm and its row (Experiments/HeadOfLine)
--   Tests        runs at concrete inputs
--
-- How state and operations correspond. An object is a record of its fields; a method that changes it
-- returns the new record beside its result. A vector and a byte buffer are lists, an in_addr its
-- four bytes, a std::optional an Option. A machine integer is a number below its bound, with each
-- wrap-around written out. A time is a value of any type, with the operations
-- of a double that the part uses (Clock). build returns the bytes written, or none where the
-- source returns 0; parse returns ok, reject where the source returns false, or fault where the
-- source would read outside the frame. The loops of accept are the functions merge and drain.
--
-- The abstract view of a receiver (Reassembly/Stream) has positions of an unbounded stream in place
-- of 32-bit numbers; it is compared with the code inside a window of half the sequence space, as far
-- as the comparisons of seq.hpp reach. The view is canonical when its ranges are nonempty, sorted,
-- apart from each other and strictly beyond the frontier; such a view is fixed by the set of the
-- positions received (Reassembly/Order).
--
-- Fuel. The carry loop of fold runs on fuel 2, the option loop of parse on the length of the
-- option field, the loop over SACK blocks on the length byte of its option (each round moves on by
-- eight bytes and the option has two more than its blocks), the padding loop of encode on 3 (at
-- most three bytes are missing to a multiple of four), the binary search of rivestSchapire on the
-- length of the word, minimizeAlphabet on the number of letters. The search of pairs of states in
-- eqPerfect and characterizingSet runs on the number of pairs, the greedy loop of
-- characterizingSet on the number of pairs needed, the closing of the learner's table on maxStates
-- + 2, Learner::run on maxRounds + 2; where the fuel is proved to be enough, the result that
-- stands for its end does not occur.
--
-- Bounds. build is given a buffer of at most 65539 bytes where the 16-bit ip_len matters: four bytes
-- of address family and a total of at most 65535. wire_len is a number without the 64-bit wrap, so
-- the block count is taken below 2^32.
--
-- The peer. Run holds what one call of receive works on; receive_segment is one round of its loop
-- over a batch. The clock is read once for each acknowledgement queued, so a batch pairs each
-- segment with that reading. flush_acks takes the device as a state with a send operation, which
-- Utun.send fills in, and the summary that `cur_` points to while receive runs.
--
-- The environment. What the clock, poll, read, accept and nanosleep answer is handed over as a
-- sequence, one element for each round of the loop that asks: a loop recurses on that sequence and
-- a result says whether it has returned or the sequence ended first. A device under the peer is a
-- state with a send and a drain operation, and a kernel under the sysctls a state with its two
-- operations. A random generator is a state with a draw.
--
-- Not modelled: opening the utun device (a chain of system calls), reading the clock, the arming
-- of the signal handlers beyond its flag and a signal in the middle of a guard's constructor or
-- destructor, which are one step each, negative thresholds of exp_hol.cpp and a negative n of burst, read_knobs and print_knobs, the experiments beyond
-- run_scenario and the arms of exp_hol.cpp (set-up, main programs and printing), the printing of a
-- trace and the file behind write_csv, minimalSize, the names and the printing in lstar.cpp, its
-- main program and its measurements; tests, scripts, measured results, and the kernel's sources
-- under reference/, a copy of another project that nothing here calls.
pub mod Prelude
pub mod Word
pub mod Seq
pub mod Segment
pub mod Checksum
pub mod Packet
pub mod Policy
pub mod Reassembly
pub mod Trace
pub mod Clock
pub mod Automata
pub mod Sysctl
pub mod Utun
pub mod Peer
pub mod Experiments
pub mod Tests
