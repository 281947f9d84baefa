-- ===== src/Packet/OptionLoop.antt =====
-- The loop over the option field: its rounds end, and it reads what lies behind its index.
use native.Mathlib.Nat.{add_assoc}
use tcp_probe.Prelude.{
  ℕ, zero, suc, ◌+◌, ◌-◌, ◌≤◌, ◌<◌, ◌≡◌, refl, sym, arith, List, drop, get_elem?, get_elem?-drop,
  Option-cases, inl, inr, leb,
}
use tcp_probe.Segment.{SeqRange, Options}
use tcp_probe.Packet.{
  Read, ok, reject, fault, ◌>>=◌, read_blocks, read_option, Next, stop, move, option_of_length,
  option_of_kind, option_round, read_options,
}
use tcp_probe.Packet.Wire.{get16-drop, get32-drop}

-- A round that goes on moves the index on, and began inside the field.
option_round-move :
    (o : List ℕ) (olen i : ℕ) (opt : Options) (i' : ℕ) (opt' : Options)
    → option_round o olen i opt ≡ ok (move i' opt')
    → (i < i') × (i < olen)
unfolding option_round option_of_kind option_of_length
option_round-move o olen i opt i' opt' e = ground arith

-- One round and what follows it.
abbrev pub then_options : ℕ → List ℕ → ℕ → Next → Read Options
then_options fuel o olen (stop opt) = ok opt
then_options fuel o olen (move i opt) = read_options fuel o olen i opt

pub read_options-suc :
    (fuel : ℕ) (o : List ℕ) (olen i : ℕ) (opt : Options)
    → read_options (suc fuel) o olen i opt
      ≡ (option_round o olen i opt >>= then_options fuel o olen)
unfolding read_options
read_options-suc fuel o olen i opt = refl

-- Rounds that agree wherever the loop goes on give the same result.
then_options-ext :
    (f g : ℕ) (o p : List ℕ) (m n : ℕ) (r : Read Next)
    → ((i : ℕ) (opt : Options)
        → r ≡ ok (move i opt)
        → read_options f o m i opt ≡ read_options g p n i opt)
    → (r >>= then_options f o m) ≡ (r >>= then_options g p n)
then_options-ext f g o p m n (ok (stop opt)) h = refl
then_options-ext f g o p m n (ok (move i opt)) h = h i opt refl
then_options-ext f g o p m n reject h = refl
then_options-ext f g o p m n fault h = refl

pub option_round-end :
    (o : List ℕ) (olen i : ℕ) (opt : Options) → olen ≤ i → option_round o olen i opt ≡ ok (stop opt)
unfolding option_round
option_round-end o olen i opt h = ground arith

-- With as much fuel as bytes are left in the option field, more fuel changes nothing.
pub read_options-fuel :
    (fuel more : ℕ) (o : List ℕ) (olen i : ℕ) (opt : Options)
    → olen ≤ fuel + i
    → olen ≤ more + i
    → read_options fuel o olen i opt ≡ read_options more o olen i opt
read_options-fuel zero zero o olen i opt h k = refl
read_options-fuel zero (suc more) o olen i opt h k =
    rw (read_options-suc more o olen i opt, option_round-end o olen i opt (omega arith))
      (unfold read_options in refl)
read_options-fuel (suc fuel) zero o olen i opt h k =
    rw (read_options-suc fuel o olen i opt, option_round-end o olen i opt (omega arith))
      (unfold read_options in refl)
read_options-fuel (suc fuel) (suc more) o olen i opt h k =
    rw (read_options-suc fuel o olen i opt, read_options-suc more o olen i opt)
      (then_options-ext fuel more o o olen olen (option_round o olen i opt) λ j opt' e.
        read_options-fuel fuel more o olen j opt'
          (omega (arith, option_round-move o olen i opt j opt' e))
          (omega (arith, option_round-move o olen i opt j opt' e)))

-- The rounds of the loop over the field `o` of `olen` bytes, from an index and what has been read on,
-- end with a result after at most so many of them: each goes on to the next, but for the last, which
-- breaks or finds the index outside, refuses the frame, or reads out of bounds.
pub data EndsWithin (o : List ℕ) (olen : ℕ) : ℕ → ℕ → Options → Read Options → Type 0 where
  stops :
      (n i : ℕ) (opt opt' : Options)
      → option_round o olen i opt ≡ ok (stop opt')
      → EndsWithin o olen (suc n) i opt (ok opt')
  rejects :
      (n i : ℕ) (opt : Options)
      → option_round o olen i opt ≡ reject
      → EndsWithin o olen (suc n) i opt reject
  faults :
      (n i : ℕ) (opt : Options)
      → option_round o olen i opt ≡ fault
      → EndsWithin o olen (suc n) i opt fault
  goes_on :
      (n i i' : ℕ) (opt opt' : Options) (r : Read Options)
      → option_round o olen i opt ≡ ok (move i' opt')
      → EndsWithin o olen n i' opt' r
      → EndsWithin o olen (suc n) i opt r

then_options-EndsWithin :
    (fuel n i : ℕ) (o : List ℕ) (olen : ℕ) (opt : Options) (r : Read Next)
    → option_round o olen i opt ≡ r
    → ((j : ℕ) (opt' : Options)
        → option_round o olen i opt ≡ ok (move j opt')
        → EndsWithin o olen n j opt' (read_options fuel o olen j opt'))
    → EndsWithin o olen (suc n) i opt (r >>= then_options fuel o olen)
then_options-EndsWithin fuel n i o olen opt (ok (stop opt')) e h = stops n i opt opt' e
then_options-EndsWithin fuel n i o olen opt (ok (move j opt')) e h =
    goes_on n i j opt opt' _ e (h j opt' e)
then_options-EndsWithin fuel n i o olen opt reject e h = rejects n i opt e
then_options-EndsWithin fuel n i o olen opt fault e h = faults n i opt e

read_options-end :
    (fuel : ℕ) (o : List ℕ) (olen i : ℕ) (opt : Options)
    → olen ≤ i
    → read_options fuel o olen i opt ≡ ok opt
read_options-end zero o olen i opt h = unfold read_options in refl
read_options-end (suc fuel) o olen i opt h =
    rw (read_options-suc fuel o olen i opt, option_round-end o olen i opt h) refl

read_options-EndsWithin :
    (n fuel : ℕ) (o : List ℕ) (olen i : ℕ) (opt : Options)
    → olen ≤ n + i
    → olen ≤ fuel + i
    → EndsWithin o olen (suc n) i opt (read_options fuel o olen i opt)
read_options-EndsWithin zero fuel o olen i opt h k =
    rw (read_options-end fuel o olen i opt (omega (arith, h)))
      (stops 0 i opt opt (option_round-end o olen i opt (omega (arith, h))))
read_options-EndsWithin (suc n) zero o olen i opt h k =
    rw (read_options-end zero o olen i opt (omega (arith, k)))
      (stops (suc n) i opt opt (option_round-end o olen i opt (omega (arith, k))))
read_options-EndsWithin (suc n) (suc fuel) o olen i opt h k =
    rw (read_options-suc fuel o olen i opt) (
      then_options-EndsWithin fuel (suc n) i o olen opt (option_round o olen i opt) refl λ j opt' e.
        let moved = option_round-move o olen i opt j opt' e in
        (read_options-EndsWithin n fuel o olen j opt' (omega (arith, h, moved))
          (omega (arith, k, moved))))

-- From every index of the option field the rounds of `parse` over the options end by a test of their
-- own, after at most one more than bytes are left there, and with as much fuel as bytes are left the
-- loop has their result.
pub read_options-ends :
    (fuel : ℕ) (o : List ℕ) (olen i : ℕ) (opt : Options)
    → olen ≤ fuel + i
    → EndsWithin o olen (suc (olen - i)) i opt (read_options fuel o olen i opt)
read_options-ends fuel o olen i opt h =
    read_options-EndsWithin (olen - i) fuel o olen i opt (omega arith) h

-- The round at `i + n` of a field is the round at `n` of what lies behind its first `i` bytes.
abbrev shifted : ℕ → Next → Next
shifted i (stop opt) = stop opt
shifted i (move j opt) = move (i + j) opt

abbrev shift_all : ℕ → Read Next → Read Next
shift_all i r = r >>= λ next. ok (shifted i next)

leb-add : (i x y : ℕ) → leb (i + x) (i + y) ≡ leb x y
leb-add i x y = ground arith

pub read_blocks-drop :
    (fuel i b limit : ℕ) (o : List ℕ) (blocks : List SeqRange)
    → read_blocks fuel o (i + b) (i + limit) blocks ≡ read_blocks fuel (drop i o) b limit blocks
unfolding read_blocks
read_blocks-drop zero i b limit o blocks = refl
read_blocks-drop (suc fuel) i b limit o blocks =
    simp (add_assoc, get32-drop, leb-add, read_blocks-drop fuel i (b + 8) limit o)

get_elem?-add : (o : List ℕ) (i k : ℕ) → get_elem? o (i + k) ≡ get_elem? (drop i o) k
get_elem?-add o i k = sym (get_elem?-drop i k o)

read_option-drop :
    (kind len i n : ℕ) (o : List ℕ) (opt : Options)
    → read_option kind len o (i + n) opt ≡ read_option kind len (drop i o) n opt
unfolding read_option
read_option-drop kind len i n o opt = simp (add_assoc, get16-drop, get_elem?-add, read_blocks-drop)

option_of_length-drop :
    (kind len : ℕ) (o : List ℕ) (i m n : ℕ) (opt : Options)
    → option_of_length kind len o (i + m) (i + n) opt
      ≡ shift_all i (option_of_length kind len (drop i o) m n opt)
unfolding option_of_length
option_of_length-drop kind len o i m n opt =
    ground (arith, read_option-drop kind len i n o opt, add_assoc i n len)

option_of_kind-drop :
    (kind : ℕ) (o : List ℕ) (i m n : ℕ) (opt : Options)
    → option_of_kind kind o (i + m) (i + n) opt
      ≡ shift_all i (option_of_kind kind (drop i o) m n opt)
unfolding option_of_kind
option_of_kind-drop kind o i m n opt = elim (Option-cases (get_elem? (drop i o) (n + 1))) [
  | inl e ↦ ground (arith, e, get_elem?-drop i (n + 1) o, add_assoc i n 1)
  | inr (len, e) ↦ ground (
    arith,
    e,
    get_elem?-drop i (n + 1) o,
    add_assoc i n 1,
    option_of_length-drop kind len o i m n opt,
  )
]

option_round-drop :
    (o : List ℕ) (i m n : ℕ) (opt : Options)
    → option_round o (i + m) (i + n) opt ≡ shift_all i (option_round (drop i o) m n opt)
unfolding option_round
option_round-drop o i m n opt = elim (Option-cases (get_elem? (drop i o) n)) [
  | inl e ↦ ground (arith, e, get_elem?-drop i n o)
  | inr (kind, e) ↦ ground (arith, e, get_elem?-drop i n o, option_of_kind-drop kind o i m n opt)
]

then_options-shift :
    (fuel i m : ℕ) (o : List ℕ) (r : Read Next)
    → ((n : ℕ) (opt : Options)
        → read_options fuel o (i + m) (i + n) opt ≡ read_options fuel (drop i o) m n opt)
    → (shift_all i r >>= then_options fuel o (i + m)) ≡ (r >>= then_options fuel (drop i o) m)
then_options-shift fuel i m o (ok (stop opt)) h = refl
then_options-shift fuel i m o (ok (move n opt)) h = h n opt
then_options-shift fuel i m o reject h = refl
then_options-shift fuel i m o fault h = refl

-- The loop at `i + n` of a field of `i + m` bytes is the loop at `n` of what lies behind `i`.
pub read_options-drop :
    (fuel : ℕ) (o : List ℕ) (i m n : ℕ) (opt : Options)
    → read_options fuel o (i + m) (i + n) opt ≡ read_options fuel (drop i o) m n opt
read_options-drop zero o i m n opt = unfold read_options in refl
read_options-drop (suc fuel) o i m n opt =
    rw
      (
        read_options-suc fuel o (i + m) (i + n) opt,
        read_options-suc fuel (drop i o) m n opt,
        option_round-drop o i m n opt,
      )
      (then_options-shift fuel i m o (option_round (drop i o) m n opt)
        (read_options-drop fuel o i m))
