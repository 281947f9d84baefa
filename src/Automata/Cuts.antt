-- ===== src/Automata/Cuts.antt =====
-- A word cut in two, and comparisons of words.
use tcp_probe.Prelude.{
  ℕ, zero, suc, ◌+◌, ◌-◌, ◌≡◌, refl, sym, ap, ap₂, ◌∙◌, arith, Bool, true, false, not, List, [],
  ◌∷◌, ◌++◌, length, length-append, take, drop, drop-append, drop-drop, ◌==◌,
}
use tcp_probe.Automata.Query.{is_same, head_or}
use tcp_probe.Automata.Suffix.{last_n, is_nil}

pub is_same_eq : (r s : List ℕ) → is_same r s ≡ true → r ≡ s
unfolding is_same
is_same_eq [] [] e = refl
is_same_eq [] (y ∷ ys) e = cc
is_same_eq (x ∷ xs) [] e = cc
is_same_eq (x ∷ xs) (y ∷ ys) e =
    ap₂ (λ z zs. z ∷ zs) (ground (arith, e)) (is_same_eq xs ys (ground (arith, e)))

pub last_n-append : (xs ys : List ℕ) → last_n (xs ++ ys) (length ys) ≡ ys
unfolding last_n
last_n-append xs ys =
    drop-append (length (xs ++ ys) - length ys) xs ys (omega (arith, length-append xs ys))

pub drop-suc : (i a : ℕ) (w ce : List ℕ) → drop i ce ≡ a ∷ w → drop (i + 1) ce ≡ w
drop-suc i a w ce e = sym (drop-drop 1 i ce) ∙ ap (drop 1) e

take-next : (i a : ℕ) (w ce : List ℕ) → drop i ce ≡ a ∷ w → take (suc i) ce ≡ take i ce ++ a ∷ []
take-next zero a w [] e = cc
take-next zero a w (x ∷ ce) e = ap (λ z. z ∷ []) (ap head_or e)
take-next (suc i) a w [] e = cc
take-next (suc i) a w (x ∷ ce) e = ap (λ r. x ∷ r) (take-next i a w ce e)

pub take-suc : (i a : ℕ) (w ce : List ℕ) → drop i ce ≡ a ∷ w → take (i + 1) ce ≡ take i ce ++ a ∷ []
take-suc i a w ce e =
    let same : i + 1 ≡ suc i = omega arith in ap (λ n. take n ce) same ∙ take-next i a w ce e

-- Where a suffix has a symbol, so has the one before it.
pub drop-cons :
    (i : ℕ) (ce suffix : List ℕ)
    → drop (i + 1) ce ≡ suffix
    → is_nil suffix ≡ false
    → (a : ℕ) × (drop i ce ≡ a ∷ suffix)
drop-cons i ce suffix e some_left = before (drop i ce) refl (drop-drop 1 i ce ∙ e)
  where
    before :
        (r : List ℕ)
        → drop i ce ≡ r
        → drop 1 (drop i ce) ≡ suffix
        → (a : ℕ) × (drop i ce ≡ a ∷ suffix)
    before [] at next =
        let none_left : suffix ≡ [] = sym next ∙ ap (drop 1) at in
        let contra = sym (ap is_nil none_left) ∙ some_left in cc
    before (a ∷ r) at next = (a, at ∙ ap (λ z. a ∷ z) (sym (ap (drop 1) at) ∙ next))

pub drop-length : (ce : List ℕ) → drop (length ce) ce ≡ []
drop-length [] = refl
drop-length (x ∷ ce) = drop-length ce

pub not-false : (b : Bool) → not b ≡ false → b ≡ true
not-false true e = refl
not-false false e = cc

pub first_same : (x y : ℕ) → not (x == y) ≡ false → x ≡ y
first_same x y e = ground (arith, e)
