-- ===== src/Automata/Splits.antt =====
-- The suffix that the search of Rivest and Schapire finds splits a state of the hypothesis.
use mathlib.Core.Path.{subst}
use tcp_probe.Prelude.{
  ℕ, zero, suc, ◌+◌, ◌-◌, ◌/◌, ◌≤◌, ◌<◌, ◌≡◌, ◌≢◌, ◌⊎◌, refl, sym, ap, ap₂, ◌∙◌, arith, Bool, true,
  false, not, Option, none, some, List, [], ◌∷◌, ◌++◌, length, take, drop, ltb, if◌then◌else◌,
  if_cases, Bool-cases, inl, inr,
}
use tcp_probe.Automata.Mealy.{Mealy, run, reach, run-append, reach-append, length-run}
use tcp_probe.Automata.Query.{is_same}
use tcp_probe.Automata.Determined.{is_same_refl}
use tcp_probe.Automata.Suffix.{
  Search, last_n, is_in, first_differs, is_nil, or_empty, hyp_state, access, beta, h_out, differs,
  bisect, suffix_at, rivest_schapire,
}
use tcp_probe.Automata.Cuts.{
  is_same_eq, last_n-append, drop-suc, take-suc, drop-cons, drop-length, not-false, first_same,
}

module _ {Q : Type 0} (query : Q → List ℕ → Q × List ℕ) (S E : List (List ℕ)) (H m : Mealy) where
  -- The word that reaches the state of the hypothesis behind the first `i` symbols.
  abbrev pub access_at : List ℕ → ℕ → List ℕ
  access_at ce i = access query S E H (hyp_state query S E H (take i ce))

  -- What the system gives for the rest behind that word.
  abbrev real_out : List ℕ → ℕ → List ℕ
  real_out ce i = run m (reach m 0 (access_at ce i)) (drop i ce)

  -- A cut of the counterexample where the suffix, which `E` does not have, tells the state that the
  -- system is in after the access word and the symbol from that after the access word of the state
  -- to which the hypothesis moves.
  pub record Splits (ce suffix : List ℕ) : Type 0 where
    pub at : ℕ
    pub symbol : ℕ
    pub cut : drop at ce ≡ symbol ∷ suffix
    pub separates :
        run m (m.d (reach m 0 (access_at ce at)) symbol) suffix
        ≢ run m (reach m 0 (access_at ce (at + 1))) suffix
    pub is_new : is_in suffix E ≡ false

  module _ (ans : (q : Q) (w : List ℕ) → (query q w).1 ≡ run m 0 w) where
    beta-real : (l : Search Q) (ce : List ℕ) (i : ℕ) → (beta query S E H l ce i).1 ≡ real_out ce i
    unfolding beta
    beta-real l ce i =
        let suf = drop i ce in
        let u = access_at ce i in
        ap (λ o. last_n o (length suf)) (ans l.orc (u ++ suf) ∙ run-append m 0 u suf)
        ∙ ap (λ n. last_n (run m 0 u ++ real_out ce i) n) (sym (length-run m (reach m 0 u) suf))
        ∙ last_n-append (run m 0 u) (real_out ce i)

    -- What the search has found of a position.
    differs-real :
        (l : Search Q) (ce : List ℕ) (i : ℕ)
        → (differs query S E H l ce i).1 ≡ not (is_same (real_out ce i) (h_out query S E H ce i))
    unfolding differs
    differs-real l ce i = ap (λ b. not (is_same b (h_out query S E H ce i))) (beta-real l ce i)

    abbrev IsWrong : List ℕ → ℕ → Type 0
    IsWrong ce i = not (is_same (real_out ce i) (h_out query S E H ce i)) ≡ true

    abbrev IsRight : List ℕ → ℕ → Type 0
    IsRight ce i =
        (not (is_same (real_out ce i) (h_out query S E H ce i)) ≡ false) ⊎ (i ≡ length ce)

    bisect-boundary :
        (fuel : ℕ) (l : Search Q) (ce : List ℕ) (lo hi : ℕ)
        → hi ≤ lo + fuel
        → lo < hi
        → IsWrong ce lo
        → IsRight ce hi
        → let at = (bisect query S E H fuel l ce lo hi).1 in IsWrong ce at × IsRight ce (at + 1)
    unfolding bisect
    bisect-boundary zero l ce lo hi enough less wrong right = absurd (omega (arith, enough, less))
    bisect-boundary (suc fuel) l ce lo hi enough less wrong right =
        let mid = lo + (hi - lo) / 2 in
        let l' = (differs query S E H l ce mid).0 in
        let p = differs-real l ce mid in
        if_cases (λ (r : Search Q × ℕ). IsWrong ce r.1 × IsRight ce (r.1 + 1)) (ltb 1 (hi - lo)) _ _
          (λ wide.
            let gap : 1 < hi - lo = ground (arith, wide) in
            if_cases (λ (r : Search Q × ℕ). IsWrong ce r.1 × IsRight ce (r.1 + 1))
              (differs query S E H l ce mid).1 _ _
              (λ yes.
                bisect-boundary fuel l' ce mid hi (omega (arith, enough, gap)) (omega (arith, gap))
                  (sym p ∙ yes) right)
              λ no.
                bisect-boundary fuel l' ce lo mid (omega (arith, enough, gap)) (omega (arith, gap))
                  wrong (inl (sym p ∙ no)))
          λ narrow.
            let next : hi ≡ lo + 1 = ground (arith, narrow, less) in
            (wrong, subst (IsRight ce) next right)

    found_by :
        {X : Type 0} (a b c : Bool) (x y z w : X) (s suffix : List ℕ)
        → let res : X × Option (List ℕ) =
            if a
            then (x, none)
            else if b
            then (y, none)
            else if c
            then (z, none)
            else (w, some s) in
          res.1 ≡ some suffix → (a ≡ false) × (b ≡ false) × (c ≡ false) × (s ≡ suffix)
    found_by true b c x y z w s suffix e = cc
    found_by false true c x y z w s suffix e = cc
    found_by false false true x y z w s suffix e = cc
    found_by false false false x y z w s suffix e = (refl, refl, refl, ap or_empty e)

    -- The hypothesis moves on by the symbol.
    h_out-next :
        (ce : List ℕ) (i a : ℕ) (w : List ℕ)
        → drop i ce ≡ a ∷ w
        → h_out query S E H ce (i + 1) ≡ run H (H.d (hyp_state query S E H (take i ce)) a) w
    unfolding h_out hyp_state reach
    h_out-next ce i a w e =
        ap₂ (run H) (ap (reach H 0) (take-suc i a w ce e) ∙ reach-append H 0 (take i ce) (a ∷ []))
          (drop-suc i a w ce e)

    cut-Splits :
        (ce suffix : List ℕ) (i : ℕ)
        → IsWrong ce i
        → IsRight ce (i + 1)
        → first_differs (real_out ce i) (h_out query S E H ce i) ≡ false
        → drop (i + 1) ce ≡ suffix
        → is_nil suffix ≡ false
        → is_in suffix E ≡ false
        → Splits ce suffix
    unfolding first_differs h_out run
    cut-Splits ce suffix i wrong right first e some_left new =
        let (a, cut) = drop-cons i ce suffix e some_left in
        let q = reach m 0 (access_at ce i) in
        let s = hyp_state query S E H (take i ce) in
        record {
          at = i;
          symbol = a;
          cut = cut;
          separates = λ same. elim right [
            | inr last ↦
                let none_left = sym e ∙ ap (λ n. drop n ce) last ∙ drop-length ce in
                let both = sym (ap is_nil none_left) ∙ some_left in cc
            | inl right_next ↦
                let next =
                  same
                  ∙ ap (run m (reach m 0 (access_at ce (i + 1)))) (sym e)
                  ∙ is_same_eq _ _ (not-false _ right_next)
                  ∙ h_out-next ce i a suffix cut in
                let symbols =
                  first_same (m.o q a) (H.o s a)
                    (ap (λ z. first_differs (run m q z) (run H s z)) (sym cut) ∙ first) in
                let all =
                  ap (run m q) cut ∙ ap₂ (λ x r. x ∷ r) symbols next ∙ sym (ap (run H s) cut) in
                let both =
                  sym (ap not (ap₂ is_same all refl ∙ is_same_refl (run H s (drop i ce))))
                  ∙ wrong in
                cc
          ];
          is_new = new;
        }

    suffix_at-found :
        (l : Search Q) (ce suffix : List ℕ) (lo : ℕ)
        → (suffix_at query S E H l ce lo).1 ≡ some suffix
        → (first_differs (beta query S E H l ce lo).1 (h_out query S E H ce lo) ≡ false)
          × (is_nil (drop (lo + 1) ce) ≡ false)
          × (is_in (drop (lo + 1) ce) E ≡ false)
          × (drop (lo + 1) ce ≡ suffix)
    unfolding suffix_at
    suffix_at-found l ce suffix lo e =
        let l' = (beta query S E H l ce lo).0 in
        let bad : Search Q = record l' { d2_rs_first_sym = l.d2_rs_first_sym + 1 } in
        let dup : Search Q = record l' { d6_dup_suffix = l.d6_dup_suffix + 1 } in
        found_by (first_differs (beta query S E H l ce lo).1 (h_out query S E H ce lo))
          (is_nil (drop (lo + 1) ce)) (is_in (drop (lo + 1) ce) E) bad bad dup l' (drop (lo + 1) ce)
          suffix e

    -- The start of the counterexample is wrong.
    start-IsWrong :
        (ce : List ℕ) → access query S E H 0 ≡ [] → run m 0 ce ≢ run H 0 ce → IsWrong ce 0
    unfolding h_out hyp_state reach
    start-IsWrong ce start differ =
        elim (Bool-cases (is_same (real_out ce 0) (h_out query S E H ce 0))) [
          | inl agree ↦ absurd (
              differ (
                ap (λ w. run m (reach m 0 w) ce) (sym start)
                ∙ is_same_eq (real_out ce 0) (h_out query S E H ce 0) agree))
          | inr apart ↦ ap not apart
        ]

    nonempty : (ce : List ℕ) → run m 0 ce ≢ run H 0 ce → 0 < length ce
    unfolding run
    nonempty [] differ = absurd (differ refl)
    nonempty (x ∷ ce) differ = omega arith

    -- Over an oracle that answers by the machine `m`, if the first word of `S` is empty and the
    -- hypothesis and the machine differ on the word `ce`, then every suffix that the search returns
    -- splits a state: at some cut of `ce`, the suffix behind the next symbol is not in `E`, and it
    -- tells the machine's state after the access word and that symbol from its state after the access
    -- word of the state to which the hypothesis moves.
    pub rivest_schapire-Splits :
        (l : Search Q) (ce suffix : List ℕ)
        → access query S E H 0 ≡ []
        → run m 0 ce ≢ run H 0 ce
        → (rivest_schapire query S E H l ce).1 ≡ some suffix
        → Splits ce suffix
    unfolding rivest_schapire
    rivest_schapire-Splits l ce suffix start differ found =
        let n = length ce in
        let (l', lo) = bisect query S E H n l ce 0 n in
        let (wrong, right) =
          bisect-boundary n l ce 0 n (omega arith) (nonempty ce differ)
            (start-IsWrong ce start differ) (inr refl) in
        let (first, some_left, new, is_suffix) = suffix_at-found l' ce suffix lo found in
        cut-Splits ce suffix lo wrong right
          (ap (λ b. first_differs b (h_out query S E H ce lo)) (sym (beta-real l' ce lo)) ∙ first)
          is_suffix (ap is_nil (sym is_suffix) ∙ some_left)
          (ap (λ w. is_in w E) (sym is_suffix) ∙ new)
