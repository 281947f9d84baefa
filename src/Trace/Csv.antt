-- ===== src/Trace/Csv.antt =====
-- The quoting of notes in the CSV file, against a reader of RFC 4180 quoted fields.
use tcp_probe.Prelude.{
  ℕ, ◌≡◌, refl, arith, Bool, false, Option, none, some, List, [], ◌∷◌, ◌++◌, ◌==◌, if◌then◌else◌,
}
use tcp_probe.Trace.{escape}

-- Reads a quoted field behind its opening quote: two quotes are one, a single one ends the field.
-- The result is the text and what follows the closing quote.
pub read_quoted : List ℕ → Option (List ℕ × List ℕ)
read_quoted [] = none
read_quoted (c ∷ []) = if c == b'"' then some ([], []) else none
read_quoted (c ∷ d ∷ rest) =
    let plain = read_quoted (d ∷ rest) in
    let doubled = read_quoted rest in
    if c == b'"'
    then (if d == b'"'
        then (elim doubled [ none ↦ none | some (text, after) ↦ some (b'"' ∷ text, after) ])
        else some ([], d ∷ rest))
    else (elim plain [ none ↦ none | some (text, after) ↦ some (c ∷ text, after) ])

-- Does the text begin with a quote?
abbrev pub opens : List ℕ → Bool
opens [] = false
opens (c ∷ cs) = c == b'"'

-- A plain character is read before any nonempty text.
read_plain :
    (c : ℕ) (note rest : List ℕ)
    → (c == b'"') ≡ false
    → read_quoted (escape note ++ b'"' ∷ rest) ≡ some (note, rest)
    → read_quoted (c ∷ (escape note ++ b'"' ∷ rest)) ≡ some (c ∷ note, rest)
unfolding read_quoted escape
read_plain c [] rest h k = ground (arith, h, k)
read_plain c (d ∷ note) rest h k = ground (arith, h, k)

-- An escaped note with a quote behind it is read back as the note, whatever quotes it contains, if
-- what follows does not begin with a quote.
pub read_quoted-escape :
    (note rest : List ℕ)
    → opens rest ≡ false
    → read_quoted (escape note ++ b'"' ∷ rest) ≡ some (note, rest)
unfolding read_quoted escape
read_quoted-escape [] [] h = refl
read_quoted-escape [] (c ∷ rest) h = ground arith
read_quoted-escape (c ∷ note) rest h =
    ground (arith, read_quoted-escape note rest h, read_plain c note rest)
