-- ===== src/Segment/Flags.antt =====
-- `flagstr` and `seq_span`: what the flag byte means.
use tcp_probe.Prelude.{
  ℕ, ◌≡◌, arith, Bool, true, false, not, ◌||◌, List, [], ◌∷◌, ◌++◌, ◌==◌, if◌then◌else◌,
}
use tcp_probe.Word.{has_bits}
use tcp_probe.Segment.{flagstr, is_empty, th_fin, th_syn, th_rst, th_push, th_ack, th_urg}

-- The character stands in the text.
abbrev pub shows : List ℕ → ℕ → Bool
shows [] c = false
shows (x ∷ xs) c = if x == c then true else shows xs c

abbrev spelt : Bool → ℕ → List ℕ
spelt b c = if b then c ∷ [] else []

abbrev spell : Bool → Bool → Bool → Bool → Bool → Bool → List ℕ
spell a b c d e g =
    let s =
      spelt a b'F'
      ++ (spelt b b'S' ++ (spelt c b'R' ++ (spelt d b'P' ++ (spelt e b'A' ++ spelt g b'U')))) in
    if is_empty s then b'-' ∷ [] else s

spell-shows :
    (a b c d e g : Bool)
    → (shows (spell a b c d e g) b'F' ≡ a)
      × (shows (spell a b c d e g) b'S' ≡ b)
      × (shows (spell a b c d e g) b'R' ≡ c)
      × (shows (spell a b c d e g) b'P' ≡ d)
      × (shows (spell a b c d e g) b'A' ≡ e)
      × (shows (spell a b c d e g) b'U' ≡ g)
      × (shows (spell a b c d e g) b'-' ≡ not (a || b || c || d || e || g))
spell-shows a b c d e g = ground arith

-- `flagstr` shows the letter of a flag exactly if its bit is set, and a dash exactly if none of the
-- six bits is.
pub flagstr-shows :
    (f : ℕ)
    → (shows (flagstr f) b'F' ≡ has_bits f th_fin)
      × (shows (flagstr f) b'S' ≡ has_bits f th_syn)
      × (shows (flagstr f) b'R' ≡ has_bits f th_rst)
      × (shows (flagstr f) b'P' ≡ has_bits f th_push)
      × (shows (flagstr f) b'A' ≡ has_bits f th_ack)
      × (shows (flagstr f) b'U' ≡ has_bits f th_urg)
      × (shows (flagstr f) b'-'
          ≡ not (
              has_bits f th_fin
              || has_bits f th_syn
              || has_bits f th_rst
              || has_bits f th_push
              || has_bits f th_ack
              || has_bits f th_urg))
unfolding flagstr
flagstr-shows f =
    spell-shows (has_bits f th_fin) (has_bits f th_syn) (has_bits f th_rst) (has_bits f th_push)
      (has_bits f th_ack) (has_bits f th_urg)
