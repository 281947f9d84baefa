-- ===== src/Packet/Safe.antt =====
-- `parse` reads nothing outside the frame.
use tcp_probe.Prelude.{
  ℕ, zero, suc, ◌+◌, ◌-◌, ◌*◌, ◌/◌, ◌%◌, ◌≤◌, ◌<◌, ◌≡◌, refl, arith, Bool, true, false, not, ◌||◌,
  List, [], ◌∷◌, drop, length, length-drop, ltb, leb, ◌==◌, if◌then◌else◌,
}
use tcp_probe.Segment.{SeqRange, Options, no_options, Seg}
use tcp_probe.Packet.{
  Read, ok, reject, fault, ◌>>=◌, reject_if, byte, get16, get32, read_blocks, read_option, Next,
  stop, move, option_of_length, option_of_kind, option_round, read_options, read_bytes, parse,
}
use tcp_probe.Packet.OptionLoop.{read_options-suc, then_options}

abbrev pub IsSafe {ℓ} : {A : Type ℓ} → Read A → Type 0
IsSafe (ok a) = Unit
IsSafe reject = Unit
IsSafe fault = ⊥

IsSafe-bind {ℓ κ} :
    {A : Type ℓ} {B : Type κ} (m : Read A) (f : A → Read B)
    → IsSafe m
    → ((a : A) → m ≡ ok a → IsSafe (f a))
    → IsSafe (m >>= f)
IsSafe-bind (ok a) f h k = k a refl
IsSafe-bind reject f h k = tt
IsSafe-bind fault f h k = h

IsSafe-byte : (p : List ℕ) (i : ℕ) → i < length p → IsSafe (byte p i)
IsSafe-byte [] i h = absurd (omega arith)
IsSafe-byte (x ∷ p) zero h = tt
IsSafe-byte (x ∷ p) (suc i) h = IsSafe-byte p i (omega arith)

IsSafe-get16 : (p : List ℕ) (i : ℕ) → i + 1 < length p → IsSafe (get16 p i)
unfolding get16
IsSafe-get16 p i h =
    IsSafe-bind (byte p i) _ (IsSafe-byte p i (omega arith))
      λ a _. IsSafe-bind (byte p (i + 1)) _ (IsSafe-byte p (i + 1) h) λ b _. tt

IsSafe-get32 : (p : List ℕ) (i : ℕ) → i + 3 < length p → IsSafe (get32 p i)
unfolding get32
IsSafe-get32 p i h = IsSafe-bind (byte p i) _ (IsSafe-byte p i (omega arith)) λ a _.
    IsSafe-bind (byte p (i + 1)) _ (IsSafe-byte p (i + 1) (omega arith)) λ b _.
      IsSafe-bind (byte p (i + 2)) _ (IsSafe-byte p (i + 2) (omega arith))
        λ c _. IsSafe-bind (byte p (i + 3)) _ (IsSafe-byte p (i + 3) h) λ d _. tt

IsSafe-if {ℓ} :
    {A : Type ℓ} (b : Bool) (x y : Read A)
    → (b ≡ true → IsSafe x)
    → (b ≡ false → IsSafe y)
    → IsSafe (if b then x else y)
IsSafe-if true x y h k = h refl
IsSafe-if false x y h k = k refl

IsSafe-read_blocks :
    (fuel : ℕ) (o : List ℕ) (b limit : ℕ) (blocks : List SeqRange)
    → limit ≤ length o
    → IsSafe (read_blocks fuel o b limit blocks)
unfolding read_blocks
IsSafe-read_blocks zero o b limit blocks h = tt
IsSafe-read_blocks (suc fuel) o b limit blocks h =
    IsSafe-if (leb (b + 8) limit) _ _
      (λ e.
        let room : b + 8 ≤ limit = ground arith in
        IsSafe-bind (get32 o b) _ (IsSafe-get32 o b (omega arith)) λ start _.
          IsSafe-bind (get32 o (b + 4)) _ (IsSafe-get32 o (b + 4) (omega arith))
            λ end _. IsSafe-read_blocks fuel o (b + 8) limit _ h)
      (λ e. tt)

module _ (o : List ℕ) (olen : ℕ) (fits : olen ≤ length o) where
  IsSafe-read_option :
      (kind len i : ℕ) (opt : Options) → i + len ≤ olen → IsSafe (read_option kind len o i opt)
  unfolding read_option
  IsSafe-read_option kind len i opt h =
      IsSafe-if (kind == 2) _ _
        (λ _.
          IsSafe-if (len == 4) _ _
            (λ e. IsSafe-bind (get16 o (i + 2)) _ (IsSafe-get16 o (i + 2) (ground arith)) λ m _. tt)
            λ _. tt)
        λ _.
          IsSafe-if (kind == 4) _ _ (λ _. tt)
            λ _.
              IsSafe-if (kind == 3) _ _
                (λ _.
                  IsSafe-if (len == 3) _ _
                    (λ e.
                      IsSafe-bind (byte o (i + 2)) _ (IsSafe-byte o (i + 2) (ground arith))
                        λ m _. tt)
                    λ _. tt)
                λ _.
                  IsSafe-if (kind == 5) _ _
                    (λ _.
                      IsSafe-bind (read_blocks len o (i + 2) (i + len) opt.sack_blocks) _
                        (IsSafe-read_blocks len o (i + 2) (i + len) opt.sack_blocks (omega arith))
                        λ m _. tt)
                    λ _. tt

  IsSafe-option_round : (i : ℕ) (opt : Options) → IsSafe (option_round o olen i opt)
  unfolding option_round option_of_kind option_of_length
  IsSafe-option_round i opt =
      IsSafe-if (leb olen i) _ _ (λ _. tt)
        λ e. IsSafe-bind (byte o i) _ (IsSafe-byte o i (ground arith)) λ kind _.
          IsSafe-if (kind == 0) _ _ (λ _. tt)
            λ _.
              IsSafe-if (kind == 1) _ _ (λ _. tt)
                λ _.
                  IsSafe-if (leb olen (i + 1)) _ _ (λ _. tt)
                    λ e'.
                      IsSafe-bind (byte o (i + 1)) _ (IsSafe-byte o (i + 1) (ground arith)) λ len _.
                        IsSafe-if (ltb len 2 || ltb olen (i + len)) _ _ (λ _. tt)
                          λ e''.
                            IsSafe-bind (read_option kind len o i opt) _
                              (IsSafe-read_option kind len i opt (ground arith)) λ opt' _. tt

  IsSafe-then_options :
      (fuel : ℕ) (next : Next)
      → ((i : ℕ) (opt : Options) → IsSafe (read_options fuel o olen i opt))
      → IsSafe (then_options fuel o olen next)
  IsSafe-then_options fuel (stop opt) h = tt
  IsSafe-then_options fuel (move i opt) h = h i opt

  IsSafe-read_options : (fuel i : ℕ) (opt : Options) → IsSafe (read_options fuel o olen i opt)
  IsSafe-read_options zero i opt = unfold read_options in tt
  IsSafe-read_options (suc fuel) i opt = rw (read_options-suc fuel o olen i opt) (
      IsSafe-bind (option_round o olen i opt) (then_options fuel o olen) (IsSafe-option_round i opt)
        λ next _. IsSafe-then_options fuel next (IsSafe-read_options fuel))

IsSafe-reject_if {ℓ} :
    {A : Type ℓ} (b : Bool) (m : Read A) → (b ≡ false → IsSafe m) → IsSafe (reject_if b >>= λ _. m)
IsSafe-reject_if true m h = tt
IsSafe-reject_if false m h = h refl

IsSafe-read_bytes : (p : List ℕ) (i n : ℕ) → i + n ≤ length p → IsSafe (read_bytes p i n)
unfolding read_bytes
IsSafe-read_bytes p i n h =
    IsSafe-if (leb (i + n) (length p)) _ _ (λ _. tt) λ e. absurd (ground arith)

-- `parse` of any frame, however malformed, reads no byte outside it.
pub parse-IsSafe : {T : Type 0} (frame : List ℕ) (out : Seg T) → IsSafe (parse frame out)
unfolding parse
parse-IsSafe frame out =
    let n = length frame in
    IsSafe-reject_if (ltb n 4) _ λ short.
      IsSafe-bind (get32 frame 0) _ (IsSafe-get32 frame 0 (ground arith)) λ af _.
        IsSafe-reject_if (not (af == 2)) _ λ _. IsSafe-reject_if (ltb n 24) _ λ no_ip.
          IsSafe-bind (byte frame 4) _ (IsSafe-byte frame 4 (ground arith)) λ version _.
            IsSafe-reject_if (not (version / 16 == 4)) _ λ _.
              let ihl = version % 16 * 4 in
              IsSafe-reject_if (ltb ihl 20) _ λ _.
                IsSafe-bind (byte frame 13) _ (IsSafe-byte frame 13 (ground arith)) λ protocol _.
                  IsSafe-reject_if (not (protocol == 6)) _ λ _.
                    IsSafe-bind (get16 frame 6) _ (IsSafe-get16 frame 6 (ground arith)) λ iptot _.
                      IsSafe-reject_if (ltb (n - 4) iptot) _ λ long.
                        IsSafe-reject_if (ltb iptot (ihl + 20)) _ λ no_tcp.
                          let th = 4 + ihl in
                          let within : th + 20 ≤ n = ground arith in
                          IsSafe-bind (byte frame (th + 12)) _
                            (IsSafe-byte frame (th + 12) (omega arith))
                            λ off _.
                              let doff = off / 16 * 4 in
                              IsSafe-reject_if (ltb doff 20 || ltb iptot (ihl + doff)) _
                                λ bad_offset.
                                  let headers : (20 ≤ doff) × (ihl + doff ≤ iptot) = ground arith in
                                  let total : 4 + iptot ≤ n = ground arith in
                                  IsSafe-bind (get16 frame th) _
                                    (IsSafe-get16 frame th (omega arith))
                                    λ sport _.
                                      IsSafe-bind (get16 frame (th + 2)) _
                                        (IsSafe-get16 frame (th + 2) (omega arith))
                                        λ dport _.
                                          IsSafe-bind (get32 frame (th + 4)) _
                                            (IsSafe-get32 frame (th + 4) (omega arith))
                                            λ seq _.
                                              IsSafe-bind (get32 frame (th + 8)) _
                                                (IsSafe-get32 frame (th + 8) (omega arith))
                                                λ ack _.
                                                  IsSafe-bind (byte frame (th + 13)) _
                                                    (IsSafe-byte frame (th + 13) (omega arith))
                                                    λ flags _.
                                                      IsSafe-bind (get16 frame (th + 14)) _
                                                        (IsSafe-get16 frame (th + 14) (omega arith))
                                                        λ win _.
                                                          let olen = doff - 20 in
                                                          let field = drop (th + 20) frame in
                                                          IsSafe-bind
                                                            (read_options olen field olen 0
                                                            no_options)
                                                            _
                                                            (IsSafe-read_options field olen
                                                            (omega (
                                                            arith,
                                                            total,
                                                            headers,
                                                            length-drop (th + 20) frame,
                                                            ))
                                                            olen 0 no_options)
                                                            λ opt _.
                                                            IsSafe-bind
                                                            (read_bytes frame (th + doff)
                                                            (iptot - ihl - doff))
                                                            _
                                                            (IsSafe-read_bytes frame (th + doff)
                                                            (iptot - ihl - doff)
                                                            (omega (arith, total, headers)))
                                                            λ payload _. tt
