-- ===== src/Policy/Overlap.antt =====
-- Which segments a policy drops, and which rule it charges.
use tcp_probe.Prelude.{
  ℕ, zero, suc, ◌+◌, ◌^◌, ◌≤◌, ◌<◌, ◌≡◌, ◌≢◌, ◌↔◌, refl, ap, arith, Bool, true, false, ◌||◌, none,
  some, List, [], ◌∷◌, ◌++◌, ltb, ◌==◌, if◌then◌else◌, get_elem?, Bool-cases, inl, inr,
}
use tcp_probe.Word.{u32}
use tcp_probe.Policy.{DropRule, LossPolicy, matches, fire, drop, unfired_from, unfired}
use tcp_probe.Policy.Drops.{IsValid, budget, drop-IsValid}

-- For a segment with data that does not wrap round the 32-bit offsets, and a rule with a nonempty
-- range, the rule matches exactly if it may still fire and some byte of the segment lies in its
-- range.
pub matches_iff_byte :
    (rel_seq len : ℕ) (r : DropRule)
    → 0 < len
    → rel_seq + len < 2 ^ 32
    → r.lo < r.hi
    → (matches rel_seq (u32 (rel_seq + len)) r ≡ true) ↔ (
        (r.fired < r.times)
        × ((b : ℕ) × (rel_seq ≤ b) × (b < rel_seq + len) × (r.lo ≤ b) × (b < r.hi)))
unfolding matches
matches_iff_byte rel_seq len r pos fits range = (
  λ e. (
    ground arith,
    (
      (if ltb rel_seq r.lo then r.lo else rel_seq),
      ground arith,
      ground arith,
      ground arith,
      ground arith,
    ),
  ),
  λ h. ground arith,
)

abbrev pub any_matches : ℕ → ℕ → List DropRule → Bool
any_matches a b [] = false
any_matches a b (r ∷ rs) = matches a b r || any_matches a b rs

-- `after` is `rules` with one more firing of the first rule that matches, or `rules` if none does.
pub data Charges (a b : ℕ) : List DropRule → List DropRule → Type 0 where
  uncharged : {rs : List DropRule} → any_matches a b rs ≡ false → Charges a b rs rs
  charged :
      {rs after : List DropRule} (before : List DropRule) (r : DropRule) (rest : List DropRule)
      → rs ≡ before ++ r ∷ rest
      → after ≡ before ++ record r { fired = r.fired + 1 } ∷ rest
      → any_matches a b before ≡ false
      → matches a b r ≡ true
      → Charges a b rs after

Charges-cons :
    (a b : ℕ) (r : DropRule) {rs after : List DropRule}
    → matches a b r ≡ false
    → Charges a b rs after
    → Charges a b (r ∷ rs) (r ∷ after)
Charges-cons a b r e (uncharged h) = uncharged (ground arith)
Charges-cons a b r e (charged before x rest p q h m) =
    charged (r ∷ before) x rest (ap (λ l. r ∷ l) p) (ap (λ l. r ∷ l) q) (ground arith) m

fire-Charges :
    (a b : ℕ) (rs : List DropRule)
    → Charges a b rs (fire a b rs).0 × ((fire a b rs).1 ≡ any_matches a b rs)
unfolding fire
fire-Charges a b [] = (uncharged refl, refl)
fire-Charges a b (r ∷ rs) = elim (Bool-cases (matches a b r)) [
  | inl e ↦ rw (e) (charged [] r rs refl refl refl e, refl)
  | inr e ↦ rw (e) (Charges-cons a b r e (fire-Charges a b rs).0, (fire-Charges a b rs).1)
]

rules-drop :
    (p : LossPolicy) (rel_seq len : ℕ)
    → len ≢ 0
    → (drop p rel_seq len).0.rules ≡ (fire rel_seq (u32 (rel_seq + len)) p.rules).0
unfolding drop
rules-drop p rel_seq len ne = ground arith

-- A segment with data is dropped exactly if some rule matches its offsets; then the first rule that
-- matches is charged with one firing and no other rule changes.
pub drop-Charges :
    (p : LossPolicy) (rel_seq len : ℕ)
    → len ≢ 0
    → Charges rel_seq (u32 (rel_seq + len)) p.rules (drop p rel_seq len).0.rules
      × ((drop p rel_seq len).1 ≡ any_matches rel_seq (u32 (rel_seq + len)) p.rules)
unfolding drop
drop-Charges p rel_seq len ne =
    let step = fire-Charges rel_seq (u32 (rel_seq + len)) p.rules in
    (rw (rules-drop p rel_seq len ne) step.0, ground (arith, step.1))

-- A segment, by offset and length.
abbrev pub Segment : Type 0
Segment = ℕ × ℕ

-- The segments go by one after the other; how many are dropped.
abbrev pub drop_all : LossPolicy → List Segment → LossPolicy × ℕ
drop_all p [] = (p, 0)
drop_all p ((rel_seq, len) ∷ rest) =
    let (p', hit) = drop p rel_seq len in
    let (q, n) = drop_all p' rest in (q, n + (if hit then 1 else 0))

-- Over any number of segments a valid policy stays valid and drops no more than its rules still
-- allow: the drops and what is allowed afterwards add up to what was allowed before.
pub drop_all-budget :
    (p : LossPolicy) (segments : List Segment)
    → IsValid p
    → IsValid (drop_all p segments).0
      × ((drop_all p segments).1 + budget (drop_all p segments).0.rules ≡ budget p.rules)
drop_all-budget p [] v = (v, omega arith)
drop_all-budget p ((rel_seq, len) ∷ rest) v =
    let step = drop-IsValid p rel_seq len v in
    let more = drop_all-budget (drop p rel_seq len).0 rest step.0 in
    (more.0, omega (arith, step.1, more.1))

abbrev pub member : List ℕ → ℕ → Bool
member [] i = false
member (x ∷ xs) i = x == i || member xs i

-- The rule at an index, if there is one, has never fired.
abbrev pub idle : List DropRule → ℕ → Bool
idle rs i = elim (get_elem? rs i) [ none ↦ false | some r ↦ r.fired == 0 ]

unfired_from-below : (rs : List DropRule) (n j : ℕ) → j < n → member (unfired_from n rs) j ≡ false
unfolding unfired_from
unfired_from-below [] n j h = refl
unfired_from-below (r ∷ rs) n j h = ground (arith, unfired_from-below rs (n + 1) j)

unfired_from-idle :
    (rs : List DropRule) (n i k : ℕ) → i ≡ n + k → member (unfired_from n rs) i ≡ idle rs k
unfolding unfired_from
unfired_from-idle [] n i k e = refl
unfired_from-idle (r ∷ rs) n i zero e = ground (arith, unfired_from-below rs (n + 1) i)
unfired_from-idle (r ∷ rs) n i (suc k) e = ground (arith, unfired_from-idle rs (n + 1) i k)

-- `unfired` lists the indices of the rules that never fired, and no others.
pub unfired_lem : (p : LossPolicy) (i : ℕ) → member (unfired p) i ≡ idle p.rules i
unfolding unfired
unfired_lem p i = unfired_from-idle p.rules 0 i i (omega arith)
