-- ===== src/Tests/Words.antt =====
-- Sequence numbers, checksums and flags.
use tcp_probe.Prelude.{ℕ, ◌+◌, ◌-◌, ◌^◌, ◌≡◌, refl, arith, List, [], ◌∷◌, ltb, leb}
use tcp_probe.Word.{u32}
use tcp_probe.Seq.{seq_lt, seq_leq, seq_gt, seq_geq}
use tcp_probe.Seq.Order.{seq_compare-positions}
use tcp_probe.Checksum.{sum_be16, sum_words, carry_round, fold_carries, complement16, fold}
use tcp_probe.Checksum.Fold.{residue, fold_lem}
use tcp_probe.Checksum.Sum.{word_total, sum_be16_lem}
use tcp_probe.Segment.{flagstr}

-- The numbers of RFC 1071 section 3.
abbrev rfc1071 : List ℕ
rfc1071 = 0x00 ∷ 0x01 ∷ 0xf2 ∷ 0x03 ∷ 0xf4 ∷ 0xf5 ∷ 0xf6 ∷ 0xf7 ∷ []

rfc1071_sum : sum_be16 rfc1071 ≡ 0x2ddf0
unfolding sum_be16 sum_words
rfc1071_sum = refl

rfc1071_fold : fold 0x2ddf0 ≡ 0x220d
unfolding fold fold_carries carry_round complement16
rfc1071_fold = refl

flagstr_syn_ack : flagstr 0x12 ≡ b'S' ∷ b'A' ∷ []
unfolding flagstr
flagstr_syn_ack = refl

-- Two positions on either side of a wrap.
abbrev before : ℕ
before = 2 ^ 32 - 5

abbrev behind : ℕ
behind = 2 ^ 32 + 3

seq_compare-positions_example :
    (seq_lt (u32 before) (u32 behind) ≡ ltb before behind)
    × (seq_leq (u32 before) (u32 behind) ≡ leb before behind)
    × (seq_gt (u32 before) (u32 behind) ≡ ltb behind before)
    × (seq_geq (u32 before) (u32 behind) ≡ leb behind before)
seq_compare-positions_example = seq_compare-positions before behind (omega arith)

fold_lem_example : fold 0x2ddf0 ≡ 65535 - residue 0x2ddf0
fold_lem_example = fold_lem 0x2ddf0 (omega arith)

abbrev sum_once : ℕ
sum_once = 0x2ddf0

abbrev sum_carried : ℕ
sum_carried = 0xddf2

sum_be16_lem_example : sum_be16 (7 ∷ rfc1071) ≡ u32 (word_total (7 ∷ rfc1071))
sum_be16_lem_example = sum_be16_lem (7 ∷ rfc1071) (omega arith)
