-- ===== src/Packet/OptionFields.antt =====
-- The option field that `encode` writes is read back by the loop of `parse`, option by option.
use Prim.Native.Nat.add
use native.Mathlib.Nat.{add-zero}
use mathlib.Core.List.{append-nil, append_assoc}
use tcp_probe.Prelude.{
  ℕ, zero, suc, ◌+◌, ◌*◌, ◌%◌, ◌^◌, ◌≤◌, ◌<◌, ◌≡◌, refl, sym, ap, ◌∙◌, arith, Bool, true, false,
  Option, none, some, List, [], ◌∷◌, ◌++◌, drop, drop-append, length, replicate,
}
use tcp_probe.Segment.{
  SeqRange, Options, no_options, put32, wire_len, encode, encode_mss, encode_sack_permitted,
  encode_wscale, encode_blocks, encode_sack, encode_fields, opt_eol,
}
use tcp_probe.Segment.Encode.{pad_lem, length-encode_fields, length-encode_blocks, wire_len_lem}
use tcp_probe.Packet.{
  Read, ok, get16, get32, read_blocks, read_option, move, option_of_length, option_of_kind,
  option_round, read_options,
}
use tcp_probe.Packet.Wire.{join16, get32-put32, get32-drop}
use tcp_probe.Packet.OptionLoop.{
  read_options-suc, read_options-fuel, read_blocks-drop, read_options-drop,
}

-- The values of the options fit the fields that carry them.
abbrev pub ValidBlocks : List SeqRange → Type 0
ValidBlocks [] = Unit
ValidBlocks (b ∷ bs) = (b.start < 2 ^ 32) × (b.end < 2 ^ 32) × ValidBlocks bs

abbrev pub Below : ℕ → Option ℕ → Type 0
Below bound none = Unit
Below bound (some v) = v < bound

pub record ValidOptions (o : Options) : Type 0 where
  pub mss : Below (2 ^ 16) o.mss
  pub wscale : Below 256 o.wscale
  pub blocks : ValidBlocks o.sack_blocks

-- Reading a field of `n` bytes from its front.
abbrev pub read_field : ℕ → List ℕ → Options → Read Options
read_field n o opt = read_options n o n 0 opt

-- A round that takes `w` bytes leaves the rest of the field to be read.
read_field-round :
    (w n : ℕ) (o : List ℕ) (opt opt' : Options)
    → 0 < w
    → option_round o (w + n) 0 opt ≡ ok (move w opt')
    → read_field (w + n) o opt ≡ read_field n (drop w o) opt'
read_field-round w n o opt opt' pos e =
    read_options-fuel (w + n) (suc (w + n)) o (w + n) 0 opt (omega arith) (omega arith)
    ∙ rw (read_options-suc (w + n) o (w + n) 0 opt, e)
        (ap (λ k. read_options (w + n) o (w + n) k opt') (sym (add-zero w))
          ∙ read_options-drop (w + n) o w n 0 opt'
          ∙ read_options-fuel (w + n) n (drop w o) n 0 opt' (omega arith) (omega arith))

read_field-nop :
    (n : ℕ) (rest : List ℕ) (opt : Options)
    → read_field (1 + n) (1 ∷ rest) opt ≡ read_field n rest opt
read_field-nop n rest opt =
    read_field-round 1 n (1 ∷ rest) opt opt (omega arith)
      (unfold option_round option_of_kind in ground arith)

abbrev with_mss : Option ℕ → Options → Options
with_mss none opt = opt
with_mss (some mss) opt = record opt { mss = some mss }

read_field-mss :
    (mss : Option ℕ) (n : ℕ) (rest : List ℕ) (opt : Options)
    → Below (2 ^ 16) mss
    → read_field (length (encode_mss mss) + n) (encode_mss mss ++ rest) opt
      ≡ read_field n rest (with_mss mss opt)
read_field-mss none n rest opt h = ap (λ k. read_field k rest opt) (add.zero n)
read_field-mss (some mss) n rest opt h =
    read_field-round 4 n (encode_mss (some mss) ++ rest) opt (with_mss (some mss) opt) (omega arith)
      (unfold option_round option_of_kind option_of_length read_option get16 in
        ground (arith, join16 mss h))

abbrev with_sack_permitted : Bool → Options → Options
with_sack_permitted false opt = opt
with_sack_permitted true opt = record opt { sack_permitted = true }

read_field-sack_permitted :
    (b : Bool) (n : ℕ) (rest : List ℕ) (opt : Options)
    → read_field (length (encode_sack_permitted b) + n) (encode_sack_permitted b ++ rest) opt
      ≡ read_field n rest (with_sack_permitted b opt)
read_field-sack_permitted false n rest opt = ap (λ k. read_field k rest opt) (add.zero n)
read_field-sack_permitted true n rest opt =
    read_field-round 2 n (encode_sack_permitted true ++ rest) opt (with_sack_permitted true opt)
      (omega arith)
      (unfold option_round option_of_kind option_of_length read_option in ground arith)

abbrev with_wscale : Option ℕ → Options → Options
with_wscale none opt = opt
with_wscale (some wscale) opt = record opt { wscale = some wscale }

read_field-wscale :
    (wscale : Option ℕ) (n : ℕ) (rest : List ℕ) (opt : Options)
    → read_field (length (encode_wscale wscale) + n) (encode_wscale wscale ++ rest) opt
      ≡ read_field n rest (with_wscale wscale opt)
read_field-wscale none n rest opt = ap (λ k. read_field k rest opt) (add.zero n)
read_field-wscale (some wscale) n rest opt =
    read_field-round 3 n (encode_wscale (some wscale) ++ rest) opt (with_wscale (some wscale) opt)
      (omega arith)
      (unfold option_round option_of_kind option_of_length read_option in ground arith)

-- The blocks of one SACK option are read back, behind those read before.
read_blocks-encode :
    (fuel : ℕ) (bs : List SeqRange) (rest : List ℕ) (acc : List SeqRange)
    → length bs ≤ fuel
    → ValidBlocks bs
    → read_blocks fuel (encode_blocks bs ++ rest) 0 (8 * length bs) acc ≡ ok (acc ++ bs)
unfolding read_blocks
read_blocks-encode zero [] rest acc h v = ap ok (sym (append-nil acc))
read_blocks-encode zero (b ∷ bs) rest acc h v = absurd (omega arith)
read_blocks-encode (suc fuel) [] rest acc h v = ap ok (sym (append-nil acc))
read_blocks-encode (suc fuel) (b ∷ bs) rest acc h v =
    let buf = encode_blocks (b ∷ bs) ++ rest in
    let first : get32 buf 0 ≡ ok b.start =
      get32-put32 b.start (put32 b.end ++ (encode_blocks bs ++ rest)) v.0 in
    let second : get32 buf 4 ≡ ok b.end =
      get32-drop buf 4 0 ∙ get32-put32 b.end (encode_blocks bs ++ rest) v.1 in
    let more : read_blocks fuel buf 8 (8 + 8 * length bs) (acc ++ b ∷ []) ≡ ok (acc ++ b ∷ bs) =
      read_blocks-drop fuel 8 0 (8 * length bs) buf (acc ++ b ∷ [])
      ∙ read_blocks-encode fuel bs rest (acc ++ b ∷ []) (omega arith) v.2
      ∙ ap ok (append_assoc acc (b ∷ []) bs) in
    ground (arith, first, second, more)

abbrev with_blocks : List SeqRange → Options → Options
with_blocks bs opt = record opt { sack_blocks = opt.sack_blocks ++ bs }

-- At most four blocks, as the field has room for: the length byte does not wrap.
read_field-blocks :
    (b : SeqRange) (bs : List SeqRange) (n : ℕ) (rest : List ℕ) (opt : Options)
    → length bs < 31
    → ValidBlocks (b ∷ bs)
    → read_field
        (2 + 8 * length (b ∷ bs) + n)
        (5 ∷ (2 + 8 * length (b ∷ bs)) % 256 ∷ encode_blocks (b ∷ bs) ++ rest)
        opt
      ≡ read_field n rest (with_blocks (b ∷ bs) opt)
read_field-blocks b bs n rest opt h v =
    let w = 2 + 8 * length (b ∷ bs) in
    let o = 5 ∷ w % 256 ∷ encode_blocks (b ∷ bs) ++ rest in
    let fits : w % 256 ≡ w = omega arith in
    let blocks : read_blocks w o 2 w opt.sack_blocks ≡ ok (opt.sack_blocks ++ b ∷ bs) =
      read_blocks-drop w 2 0 (8 * length (b ∷ bs)) o opt.sack_blocks
      ∙ read_blocks-encode w (b ∷ bs) rest opt.sack_blocks (omega arith) v in
    read_field-round w n o opt (with_blocks (b ∷ bs) opt) (omega arith) (
      unfold option_round option_of_kind option_of_length read_option in
      ground (arith, fits, blocks))
    ∙ ap (λ l. read_field n l (with_blocks (b ∷ bs) opt))
        (drop-append w (5 ∷ w % 256 ∷ encode_blocks (b ∷ bs)) rest
          (omega (arith, length-encode_blocks (b ∷ bs))))

read_field-sack :
    (bs : List SeqRange) (n : ℕ) (rest : List ℕ) (opt : Options)
    → length bs < 31
    → ValidBlocks bs
    → read_field (length (encode_sack bs) + n) (encode_sack bs ++ rest) opt
      ≡ read_field n rest (with_blocks bs opt)
read_field-sack [] n rest opt h v =
    ap (λ k. read_field k rest opt) (add.zero n)
    ∙ ap (λ l. read_field n rest (record opt { sack_blocks = l }))
        (sym (append-nil opt.sack_blocks))
read_field-sack (b ∷ bs) n rest opt h v =
    let m = 2 + 8 * length (b ∷ bs) + n in
    let field = 5 ∷ (2 + 8 * length (b ∷ bs)) % 256 ∷ encode_blocks (b ∷ bs) ++ rest in
    ap (λ k. read_field k (encode_sack (b ∷ bs) ++ rest) opt)
      (omega (arith, length-encode_blocks (b ∷ bs)))
    ∙ read_field-nop (1 + m) (1 ∷ field) opt
    ∙ read_field-nop m field opt
    ∙ read_field-blocks b bs n rest opt (omega arith) v

-- The padding ends the loop, and so does the end of the field.
read_field-padding :
    (k : ℕ) (rest : List ℕ) (opt : Options)
    → read_field k (replicate k opt_eol ++ rest) opt ≡ ok opt
read_field-padding zero rest opt = unfold read_options in refl
read_field-padding (suc k) rest opt =
    unfold read_options option_round option_of_kind in ground arith

rebuilt :
    (mss : Option ℕ) (permitted : Bool) (wscale : Option ℕ) (bs : List SeqRange)
    → with_blocks bs (with_wscale wscale (with_sack_permitted permitted (with_mss mss no_options)))
      ≡ record { mss = mss; sack_permitted = permitted; sack_blocks = bs; wscale = wscale }
rebuilt none false none bs = refl
rebuilt none false (some w) bs = refl
rebuilt none true none bs = refl
rebuilt none true (some w) bs = refl
rebuilt (some m) false none bs = refl
rebuilt (some m) false (some w) bs = refl
rebuilt (some m) true none bs = refl
rebuilt (some m) true (some w) bs = refl

read_field-fields :
    (o : Options) (n : ℕ) (rest : List ℕ)
    → length o.sack_blocks < 31
    → ValidOptions o
    → read_field (length (encode_fields o) + n) (encode_fields o ++ rest) no_options
      ≡ read_field n rest o
read_field-fields o n rest h v =
    let d = encode_sack o.sack_blocks in
    let c = encode_wscale o.wscale in
    let b = encode_sack_permitted o.sack_permitted in
    let a = encode_mss o.mss in
    let n3 = length d + n in
    let n2 = length c + n3 in
    let n1 = length b + n2 in
    let o1 = with_mss o.mss no_options in
    let o2 = with_sack_permitted o.sack_permitted o1 in
    let o3 = with_wscale o.wscale o2 in
    let size : length (encode_fields o) + n ≡ length a + n1 =
      omega (arith, length-encode_fields o) in
    let bytes : encode_fields o ++ rest ≡ a ++ (b ++ (c ++ (d ++ rest))) = simp append_assoc in
    ap (λ k. read_field k (encode_fields o ++ rest) no_options) size
    ∙ ap (λ l. read_field (length a + n1) l no_options) bytes
    ∙ read_field-mss o.mss n1 (b ++ (c ++ (d ++ rest))) no_options v.mss
    ∙ read_field-sack_permitted o.sack_permitted n2 (c ++ (d ++ rest)) o1
    ∙ read_field-wscale o.wscale n3 (d ++ rest) o2
    ∙ read_field-sack o.sack_blocks n rest o3 h v.blocks
    ∙ ap (read_field n rest) (rebuilt o.mss o.sack_permitted o.wscale o.sack_blocks)

-- For options whose values fit their fields, with fewer than 31 blocks, the loop of `parse` over
-- the `wire_len` bytes that `encode` writes gives the options back, whatever follows those bytes.
pub read_options-encode :
    (o : Options) (rest : List ℕ)
    → length o.sack_blocks < 31
    → ValidOptions o
    → read_options (wire_len o) (encode o ++ rest) (wire_len o) 0 no_options ≡ ok o
read_options-encode o rest h v =
    let (k, e, n) = pad_lem (encode_fields o) in
    let size : wire_len o ≡ length (encode_fields o) + k =
      omega (arith, n, wire_len_lem o (omega arith)) in
    let bytes : encode o ++ rest ≡ encode_fields o ++ (replicate k opt_eol ++ rest) =
      unfold encode in (ap (λ l. l ++ rest) e ∙ append_assoc _ _ rest) in
    ap (λ j. read_field j (encode o ++ rest) no_options) size
    ∙ ap (λ l. read_field (length (encode_fields o) + k) l no_options) bytes
    ∙ read_field-fields o k (replicate k opt_eol ++ rest) h v
    ∙ read_field-padding k rest o
