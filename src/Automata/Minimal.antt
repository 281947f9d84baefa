-- ===== src/Automata/Minimal.antt =====
-- What is left of a minimized alphabet.
use mathlib.Core.Path.{subst}
use tcp_probe.Prelude.{
  take, drop, ◌++◌, take-nil, ◌*◌, ℕ, zero, suc, ◌+◌, ◌≤◌, ◌<◌, ◌≡◌, ◌⊎◌, refl, sym, ap, arith,
  Bool, true, false, Option, none, some, List, [], ◌∷◌, length, if◌then◌else◌, inl, inr, Bool-cases,
  ◌==◌, ◌≢◌,
}
use tcp_probe.Automata.Sul.{Sul}
use tcp_probe.Automata.Suffix.{is_nil}
use tcp_probe.Automata.Hunt.{
  erase_at, hunt_witness, shows_without, first_removable, shrink, minimize_alphabet,
}

none_of :
    (b : Bool) (i : ℕ) (later : Option ℕ)
    → (if b then some i else later) ≡ none
    → (b ≡ false) × (later ≡ none)
none_of true i later e = cc
none_of false i later e = (refl, e)

some_of :
    (b : Bool) (i k : ℕ) (later : Option ℕ)
    → (if b then some i else later) ≡ some k
    → ((k ≡ i) × (b ≡ true)) ⊎ (later ≡ some k)
some_of true i k later e = inl (cc, refl)
some_of false i k later e = inr e

dec_eq : (i j : ℕ) → (i ≡ j) ⊎ (i ≢ j)
dec_eq i j = elim (Bool-cases (i == j)) [
  | inl same ↦ inl (ground (arith, same))
  | inr apart ↦ inr (λ e. ground (arith, apart, e))
]

-- A number from `i` on is `i` or beyond it.
from_first : (P : ℕ → Type 0) (i j : ℕ) → i ≤ j → P i → (i + 1 ≤ j → P j) → P j
from_first P i j low here above = elim (dec_eq i j) [
  | inl same ↦ subst P same here
  | inr apart ↦ above (omega (arith, low, apart))
]

length-erase_at : (i : ℕ) (xs : List ℕ) → i < length xs → length (erase_at i xs) + 1 ≡ length xs
unfolding erase_at
length-erase_at i [] h = absurd (omega (arith, h))
length-erase_at zero (x ∷ xs) h = omega arith
length-erase_at (suc i) (x ∷ xs) h = omega (arith, length-erase_at i xs (omega (arith, h)))

-- A list without its `i`-th letter.
abbrev pub without : ℕ → List ℕ → List ℕ
without i xs = take i xs ++ drop (suc i) xs

erase_at-without : (i : ℕ) (xs : List ℕ) → erase_at i xs ≡ without i xs
unfolding erase_at
erase_at-without i [] = rw (take-nil i) refl
erase_at-without zero (x ∷ xs) = refl
erase_at-without (suc i) (x ∷ xs) = ap (λ l. x ∷ l) (erase_at-without i xs)

module _ {S R : Type 0} (u : Sul S) (resets_of : S → ℕ) (draw : R → R × ℕ) (seeded : ℕ → R)
    (fresh : S) (max_len trials max_reps : ℕ) where
  abbrev shown : ℕ → List ℕ → ℕ → Bool
  shown = shows_without u resets_of draw seeded fresh max_len trials max_reps

  abbrev found : List ℕ → ℕ → Bool
  found alpha seed =
      (hunt_witness u resets_of draw seeded fresh max_len trials max_reps alpha seed).found

  -- From an alphabet to what is left of it: letters are left out one after the other, each time with
  -- letters left and a witness among them, found by the hunt seeded for that letter's position.
  pub data Removes (seed : ℕ) (left : List ℕ) : List ℕ → Type 0 where
    done : Removes seed left left
    removes :
        (i : ℕ) (alpha : List ℕ)
        → i < length alpha
        → 0 < length (without i alpha)
        → found (without i alpha) (seed + 31 * i) ≡ true
        → Removes seed left (without i alpha)
        → Removes seed left alpha

  -- Without its `i`-th letter nothing is left, or the hunt shows no witness.
  abbrev pub Needs : ℕ → List ℕ → ℕ → Type 0
  Needs seed left i = (without i left ≡ []) ⊎ (found (without i left) (seed + 31 * i) ≡ false)

  -- The first `n` letters are all needed.
  abbrev pub NeedsAll : ℕ → List ℕ → ℕ → Type 0
  NeedsAll seed left zero = Unit
  NeedsAll seed left (suc n) = Needs seed left n × NeedsAll seed left n

  pub record Minimal (seed : ℕ) (alpha left : List ℕ) : Type 0 where
    pub removed : Removes seed left alpha
    pub shows : (left ≡ alpha) ⊎ ((s : ℕ) × (0 < length left) × (found left s ≡ true))
    pub needed : NeedsAll seed left (length left)

  first_removable-none :
      (seed : ℕ) (alpha : List ℕ) (n i : ℕ)
      → first_removable u resets_of draw seeded fresh max_len trials max_reps seed alpha n i ≡ none
      → (j : ℕ) → i ≤ j
      → j < i + n
      → shown seed alpha j ≡ false
  unfolding first_removable
  first_removable-none seed alpha zero i e j low high = absurd (omega (arith, low, high))
  first_removable-none seed alpha (suc n) i e j low high =
      let (here, later) = none_of _ i _ e in
      from_first (λ x. shown seed alpha x ≡ false) i j low here
        λ above. first_removable-none seed alpha n (i + 1) later j above (omega (arith, high))

  first_removable-some :
      (seed : ℕ) (alpha : List ℕ) (n i k : ℕ)
      → first_removable u resets_of draw seeded fresh max_len trials max_reps seed alpha n i
        ≡ some k
      → (k < i + n) × (shown seed alpha k ≡ true)
  unfolding first_removable
  first_removable-some seed alpha zero i k e = cc
  first_removable-some seed alpha (suc n) i k e = elim (some_of (shown seed alpha i) i k _ e) [
    | inl here ↦ (omega (arith, here), subst (λ x. shown seed alpha x ≡ true) (sym here.0) here.1)
    | inr later ↦
        let (bound, shows) = first_removable-some seed alpha n (i + 1) k later in
        (omega (arith, bound), shows)
  ]

  shrink-minimal :
      (seed fuel : ℕ) (alpha : List ℕ) (i : ℕ)
      → length alpha ≤ fuel
      → let left = shrink u resets_of draw seeded fresh max_len trials max_reps seed fuel alpha in
        i < length left → shown seed left i ≡ false
  unfolding shrink
  shrink-minimal seed zero alpha i enough inside = absurd (omega (arith, enough, inside))
  shrink-minimal seed (suc fuel) alpha i enough inside =
      round
        (first_removable u resets_of draw seeded fresh max_len trials max_reps seed alpha
          (length alpha) 0)
        refl
        (λ k e.
          let (bound, shows) = first_removable-some seed alpha (length alpha) 0 k e in
          shrink-minimal seed fuel (erase_at k alpha) i
            (omega (arith, enough, length-erase_at k alpha (omega (arith, bound)))))
        inside
    where
      round :
          (o : Option ℕ)
          → first_removable u resets_of draw seeded fresh max_len trials max_reps seed alpha
              (length alpha)
              0
            ≡ o
          → ((k : ℕ)
              → first_removable u resets_of draw seeded fresh max_len trials max_reps seed alpha
                  (length alpha)
                  0
                ≡ some k
              → let left =
                  shrink u resets_of draw seeded fresh max_len trials max_reps seed fuel
                    (erase_at k alpha) in
                i < length left → shown seed left i ≡ false)
          → let left : List ℕ = elim o [
            | none ↦ alpha
            | some k ↦
                shrink u resets_of draw seeded fresh max_len trials max_reps seed fuel
                  (erase_at k alpha)
          ] in
            i < length left → shown seed left i ≡ false
      round none e ih inside =
          first_removable-none seed alpha (length alpha) 0 e i (omega arith) (omega (arith, inside))
      round (some k) e ih inside = ih k e inside

  shown-found :
      (seed : ℕ) (alpha : List ℕ) (i : ℕ)
      → shown seed alpha i ≡ true
      → (0 < length (without i alpha)) × (found (without i alpha) (seed + 31 * i) ≡ true)
  shown-found seed alpha i e = by_list (erase_at i alpha) (erase_at-without i alpha) e
    where
      by_list :
          (l : List ℕ)
          → l ≡ without i alpha
          → (if is_nil l then false else found l (seed + 31 * i)) ≡ true
          → (0 < length (without i alpha)) × (found (without i alpha) (seed + 31 * i) ≡ true)
      by_list [] same e = cc
      by_list (x ∷ l) same e = rw (← same) (omega arith, e)

  shown-Needs :
      (seed : ℕ) (alpha : List ℕ) (i : ℕ) → shown seed alpha i ≡ false → Needs seed alpha i
  shown-Needs seed alpha i e = by_list (erase_at i alpha) (erase_at-without i alpha) e
    where
      by_list :
          (l : List ℕ)
          → l ≡ without i alpha
          → (if is_nil l then false else found l (seed + 31 * i)) ≡ false
          → Needs seed alpha i
      by_list [] same e = inl (sym same)
      by_list (x ∷ l) same e = inr (rw (← same) e)

  shrink-Removes :
      (seed fuel : ℕ) (alpha : List ℕ)
      → Removes seed
          (shrink u resets_of draw seeded fresh max_len trials max_reps seed fuel alpha)
          alpha
  unfolding shrink
  shrink-Removes seed zero alpha = done
  shrink-Removes seed (suc fuel) alpha =
      round
        (first_removable u resets_of draw seeded fresh max_len trials max_reps seed alpha
          (length alpha) 0)
        refl (λ k. shrink-Removes seed fuel (erase_at k alpha))
    where
      round :
          (o : Option ℕ)
          → first_removable u resets_of draw seeded fresh max_len trials max_reps seed alpha
              (length alpha)
              0
            ≡ o
          → ((k : ℕ)
              → Removes seed
                  (shrink u resets_of draw seeded fresh max_len trials max_reps seed fuel
                    (erase_at k alpha))
                  (erase_at k alpha))
          → let left : List ℕ = elim o [
            | none ↦ alpha
            | some k ↦
                shrink u resets_of draw seeded fresh max_len trials max_reps seed fuel
                  (erase_at k alpha)
          ] in
            Removes seed left alpha
      round none e ih = done
      round (some k) e ih =
          let (bound, shows) = first_removable-some seed alpha (length alpha) 0 k e in
          let (some_left, witness) = shown-found seed alpha k shows in
          removes k alpha (omega (arith, bound)) some_left witness (
            subst
              (λ l.
                Removes seed
                  (shrink u resets_of draw seeded fresh max_len trials max_reps seed fuel
                    (erase_at k alpha))
                  l)
              (erase_at-without k alpha) (ih k))

  Removes-shows :
      (seed : ℕ) (left alpha : List ℕ)
      → Removes seed left alpha
      → (left ≡ alpha) ⊎ ((s : ℕ) × (0 < length left) × (found left s ≡ true))
  Removes-shows seed left _ done = inl refl
  Removes-shows seed left _ (removes i alpha inside some_left witness h) =
      elim (Removes-shows seed left (without i alpha) h) [
        | inl same ↦ inr (seed + 31 * i, rw same some_left, rw same witness)
        | inr x ↦ inr x
      ]

  all_needed :
      (seed : ℕ) (left : List ℕ) (n : ℕ)
      → n ≤ length left
      → ((i : ℕ) → i < length left → shown seed left i ≡ false)
      → NeedsAll seed left n
  all_needed seed left zero h k = tt
  all_needed seed left (suc n) h k = (
    shown-Needs seed left n (k n (omega (arith, h))),
    all_needed seed left n (omega (arith, h)) k,
  )

  -- minimizeAlphabet ends, within as many rounds as the alphabet has letters. It leaves letters out
  -- one by one, each time with a witness found among those left, so its result is the alphabet
  -- itself, or it has letters and a hunt over it finds a witness. No letter of it can be left out
  -- again: without any one of them nothing is left, or the hunt seeded for it finds no witness.
  pub minimize_alphabet-Minimal :
      (alpha : List ℕ) (seed : ℕ)
      → Minimal seed alpha
          (minimize_alphabet u resets_of draw seeded fresh max_len trials max_reps alpha seed)
  unfolding minimize_alphabet
  minimize_alphabet-Minimal alpha seed =
      let removed = shrink-Removes seed (length alpha) alpha in
      record {
        removed = removed;
        shows = Removes-shows seed _ alpha removed;
        needed =
            all_needed seed _ _ (omega arith)
              λ i. shrink-minimal seed (length alpha) alpha i (omega arith);
      }
