-- ===== src/Utun/Kinds.antt =====
-- The kinds of the frames that `drain` takes, told by their bytes and by whether `parse` accepts them.
use tcp_probe.Prelude.{
  ℕ, ◌*◌, ◌^◌, ◌≡◌, refl, ap, ◌∙◌, arith, Bool, true, false, ◌&&◌, not, Option, none, some, List,
  [], ◌∷◌, length, ltb, leb, ◌==◌, bit_or, Bool-cases, inl, inr, sym, if_cases,
}
use tcp_probe.Prelude.Bits.{le-bit_or_left, le-bit_or_right, bit_or_disjoint}
use tcp_probe.Segment.{Seg}
use tcp_probe.Packet.{Read, ok, reject, fault, ◌>>=◌, ◌>>◌, reject_if, af_inet, get32, parse}
use tcp_probe.Utun.Drain.{Frame, short, foreign, bad, good, stamped, frame_of, is_ipv4, classify}

-- Do the first four bytes hold the number 2, the address family of IPv4, in network order?
abbrev pub begins_ipv4 : List ℕ → Bool
begins_ipv4 [] = false
begins_ipv4 (a ∷ []) = false
begins_ipv4 (a ∷ b ∷ []) = false
begins_ipv4 (a ∷ b ∷ c ∷ []) = false
begins_ipv4 (a ∷ b ∷ c ∷ d ∷ rest) = a == 0 && b == 0 && c == 0 && d == 2

abbrev pub accepted_of : {T : Type 0} → Read (Seg T) → Option (Seg T)
accepted_of (ok s) = some s
accepted_of reject = none
accepted_of fault = none

-- The segment that `parse` makes of a frame with its stamp, if it accepts the frame.
abbrev pub accepted : {T : Type 0} → List ℕ → T → Option (Seg T)
accepted buf t = accepted_of (parse buf (stamped t))

abbrev pub is_some : {A : Type 0} → Option A → Bool
is_some none = false
is_some (some a) = true

-- A frame of at least four bytes that does not begin as IPv4.
abbrev pub is_foreign : List ℕ → Bool
is_foreign buf = leb 4 (length buf) && not (begins_ipv4 buf)

-- A frame that begins as IPv4, and that `parse` does not accept.
abbrev pub is_bad : {T : Type 0} → List ℕ → T → Bool
is_bad buf t = begins_ipv4 buf && not (is_some (accepted buf t))

-- What `Drain` makes of a frame says the same.
abbrev pub segment_in : {T : Type 0} → Frame T → Option (Seg T)
segment_in (good s) = some s
segment_in short = none
segment_in foreign = none
segment_in bad = none

abbrev pub says_foreign : {T : Type 0} → Frame T → Bool
says_foreign foreign = true
says_foreign short = false
says_foreign bad = false
says_foreign (good s) = false

abbrev pub says_bad : {T : Type 0} → Frame T → Bool
says_bad bad = true
says_bad short = false
says_bad foreign = false
says_bad (good s) = false

or_is_two :
    (a b c d : ℕ)
    → (bit_or (bit_or (bit_or (a * 2 ^ 24) (b * 2 ^ 16)) (c * 2 ^ 8)) d == 2)
      ≡ (a == 0 && b == 0 && c == 0 && d == 2)
or_is_two a b c d =
    let x = bit_or (a * 2 ^ 24) (b * 2 ^ 16) in
    let y = bit_or x (c * 2 ^ 8) in
    elim (Bool-cases (bit_or y d == 2)) [
      | inl e ↦
          let whole : bit_or y d ≡ 2 = ground (arith, e) in
          let d_low = le-bit_or_right y d in
          let y_low = le-bit_or_left y d in
          let c_low = le-bit_or_right x (c * 2 ^ 8) in
          let x_low = le-bit_or_left x (c * 2 ^ 8) in
          let b_low = le-bit_or_right (a * 2 ^ 24) (b * 2 ^ 16) in
          let a_low = le-bit_or_left (a * 2 ^ 24) (b * 2 ^ 16) in
          let a0 : a ≡ 0 = omega (arith, whole, y_low, x_low, a_low) in
          let b0 : b ≡ 0 = omega (arith, whole, y_low, x_low, b_low) in
          let c0 : c ≡ 0 = omega (arith, whole, y_low, c_low) in
          let y0 : y ≡ 0 = rw (a0, b0, c0) refl in
          let d2 : d ≡ 2 = omega (
            arith,
            whole,
            ap (λ k. bit_or k d) y0,
            bit_or_disjoint 2 0 d (omega (arith, whole, d_low)),
          ) in
          ground (arith, e, a0, b0, c0, d2)
      | inr e ↦ elim (Bool-cases (a == 0 && b == 0 && c == 0 && d == 2)) [
        | inl t ↦
            let a0 : a ≡ 0 = ground (arith, t) in
            let b0 : b ≡ 0 = ground (arith, t) in
            let c0 : c ≡ 0 = ground (arith, t) in
            let d2 : d ≡ 2 = ground (arith, t) in
            let whole : bit_or y d ≡ 2 = rw (a0, b0, c0, d2) refl in ground (arith, e, whole)
        | inr f ↦ e ∙ sym f
      ]
    ]

is_ipv4-begins : (buf : List ℕ) → is_ipv4 buf ≡ begins_ipv4 buf
unfolding get32
is_ipv4-begins [] = refl
is_ipv4-begins (a ∷ []) = refl
is_ipv4-begins (a ∷ b ∷ []) = refl
is_ipv4-begins (a ∷ b ∷ c ∷ []) = refl
is_ipv4-begins (a ∷ b ∷ c ∷ d ∷ rest) = or_is_two a b c d

begins_ipv4-length : (buf : List ℕ) → ltb (length buf) 4 ≡ true → begins_ipv4 buf ≡ false
begins_ipv4-length [] h = refl
begins_ipv4-length (a ∷ []) h = refl
begins_ipv4-length (a ∷ b ∷ []) h = refl
begins_ipv4-length (a ∷ b ∷ c ∷ []) h = refl
begins_ipv4-length (a ∷ b ∷ c ∷ d ∷ rest) h = absurd (ground (arith, h))

-- The first tests of `parse`.
gate_family :
    {T : Type 0} (r : Read ℕ) (k : ℕ → Read (Seg T))
    → elim r [ ok af ↦ af == af_inet | reject ↦ false | fault ↦ false ] ≡ false
    → accepted_of (r >>= λ af. reject_if (not (af == af_inet)) >> k af) ≡ none
gate_family (ok af) k e = rw e refl
gate_family reject k e = refl
gate_family fault k e = refl

gate :
    {T : Type 0} (short : Bool) (buf : List ℕ) (k : ℕ → Read (Seg T))
    → begins_ipv4 buf ≡ false
    → accepted_of
        (reject_if short >> (get32 buf 0 >>= λ af. reject_if (not (af == af_inet)) >> k af))
      ≡ none
gate true buf k e = refl
gate false buf k e = gate_family (get32 buf 0) k (is_ipv4-begins buf ∙ e)

accepted-begins :
    {T : Type 0} (buf : List ℕ) (t : T) → begins_ipv4 buf ≡ false → accepted buf t ≡ none
unfolding parse
accepted-begins buf t e = gate (ltb (length buf) 4) buf _ e

-- The three questions that the kind of a frame answers.
pub record IsKind {T : Type 0} (buf : List ℕ) (t : T) (k : Frame T) : Type 0 where
  pub segment : accepted buf t ≡ segment_in k
  pub foreign : is_foreign buf ≡ says_foreign k
  pub bad : is_bad buf t ≡ says_bad k

frame_of-segment : {T : Type 0} (r : Read (Seg T)) → accepted_of r ≡ segment_in (frame_of r)
frame_of-segment (ok s) = refl
frame_of-segment reject = refl
frame_of-segment fault = refl

frame_of-foreign : {T : Type 0} (r : Read (Seg T)) → says_foreign (frame_of r) ≡ false
frame_of-foreign (ok s) = refl
frame_of-foreign reject = refl
frame_of-foreign fault = refl

frame_of-bad :
    {T : Type 0} (r : Read (Seg T)) → says_bad (frame_of r) ≡ not (is_some (accepted_of r))
frame_of-bad (ok s) = refl
frame_of-bad reject = refl
frame_of-bad fault = refl

pub classify-IsKind : {T : Type 0} (buf : List ℕ) (t : T) → IsKind buf t (classify buf t)
unfolding classify
classify-IsKind buf t =
    if_cases (IsKind buf t) (ltb (length buf) 4) _ _
      (λ few.
        let e = begins_ipv4-length buf few in
        record {
          segment = accepted-begins buf t e;
          foreign = ground (arith, few);
          bad = rw e refl;
        })
      λ enough.
        if_cases (IsKind buf t) (not (is_ipv4 buf)) _ _
          (λ other.
            let e : begins_ipv4 buf ≡ false = ground (arith, is_ipv4-begins buf, other) in
            record {
              segment = accepted-begins buf t e;
              foreign = ground (arith, e, enough);
              bad = rw e refl;
            })
          λ inet.
            let e : begins_ipv4 buf ≡ true = ground (arith, is_ipv4-begins buf, inet) in
            let r = parse buf (stamped t) in
            record {
              segment = frame_of-segment r;
              foreign = ground (arith, e, frame_of-foreign r);
              bad = ground (arith, e, frame_of-bad r);
            }
