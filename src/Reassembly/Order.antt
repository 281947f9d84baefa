-- ===== src/Reassembly/Order.antt =====
-- A canonical view is determined by the positions that it has received.
use tcp_probe.Prelude.{ℕ, suc, ◌≤◌, ◌≡◌, refl, sym, ap₂, arith, List, [], ◌∷◌}
use tcp_probe.Segment.{SeqRange}
use tcp_probe.Reassembly.Ranges.{Ranges, covered, covered-below}
use tcp_probe.Reassembly.Stream.{View, received, IsCanonical}

-- Equal coverage from `x` up to the end of its first range.
start-le :
    (lo : ℕ) (x y : SeqRange) (xs ys : List SeqRange)
    → Ranges lo (x ∷ xs)
    → Ranges lo (y ∷ ys)
    → ((p : ℕ) → covered (x ∷ xs) p ≡ covered (y ∷ ys) p)
    → y.start ≤ x.start
start-le lo x y xs ys vx vy same =
    ground (arith, same x.start, covered-below (suc y.end) x.start ys)

end-le :
    (lo : ℕ) (x y : SeqRange) (xs ys : List SeqRange)
    → Ranges lo (x ∷ xs)
    → Ranges lo (y ∷ ys)
    → x.start ≡ y.start
    → ((p : ℕ) → covered (x ∷ xs) p ≡ covered (y ∷ ys) p)
    → y.end ≤ x.end
end-le lo x y xs ys vx vy e same = ground (arith, same x.end, covered-below (suc x.end) x.end xs)

covered-tail :
    (x : SeqRange) (xs ys : List SeqRange)
    → Ranges (suc x.end) xs
    → Ranges (suc x.end) ys
    → ((p : ℕ) → covered (x ∷ xs) p ≡ covered (x ∷ ys) p)
    → (p : ℕ) → covered xs p ≡ covered ys p
covered-tail x xs ys vx vy same p =
    ground (arith, same p, covered-below (suc x.end) p xs, covered-below (suc x.end) p ys)

-- Canonical ranges are determined by the positions that they cover.
pub Ranges-unique :
    (lo : ℕ) (xs ys : List SeqRange)
    → Ranges lo xs
    → Ranges lo ys
    → ((p : ℕ) → covered xs p ≡ covered ys p)
    → xs ≡ ys
Ranges-unique lo [] [] vx vy same = refl
Ranges-unique lo [] (y ∷ ys) vx vy same = ground (arith, same y.start)
Ranges-unique lo (x ∷ xs) [] vx vy same = ground (arith, same x.start)
Ranges-unique lo (x ∷ xs) (y ∷ ys) vx vy same = ap₂ ◌∷◌ heads (
    Ranges-unique (suc x.end) xs ys vx.2 (rw heads vy.2)
      (covered-tail x xs ys vx.2 (rw heads vy.2) (rw heads (rw heads at same))))
  where
    other : (p : ℕ) → covered (y ∷ ys) p ≡ covered (x ∷ xs) p
    other p = sym (same p)

    starts : x.start ≡ y.start
    starts = omega (arith, start-le lo x y xs ys vx vy same, start-le lo y x ys xs vy vx other)

    ends : x.end ≡ y.end
    ends =
        omega (
          arith,
          end-le lo x y xs ys vx vy starts same,
          end-le lo y x ys xs vy vx (sym starts) other,
        )

    heads : x ≡ y
    heads = λ i. record { start = starts i; end = ends i }

nxt-le : (v w : View) → IsCanonical v → ((p : ℕ) → received v p ≡ received w p) → w.nxt ≤ v.nxt
nxt-le v w c same = ground (arith, same v.nxt, covered-below (suc v.nxt) v.nxt v.held)

-- Canonical views with the same received positions are the same.
pub View-unique :
    (v w : View)
    → IsCanonical v
    → IsCanonical w
    → ((p : ℕ) → received v p ≡ received w p)
    → (v.nxt ≡ w.nxt) × (v.held ≡ w.held)
View-unique v w cv cw same = (e, Ranges-unique (suc v.nxt) v.held w.held cv (rw e cw) beyond)
  where
    e : v.nxt ≡ w.nxt
    e = omega (arith, nxt-le v w cv same, nxt-le w v cw (λ p. sym (same p)))

    beyond : (p : ℕ) → covered v.held p ≡ covered w.held p
    beyond p =
        ground
          (arith, e, same p, covered-below (suc v.nxt) p v.held, covered-below (suc w.nxt) p w.held)
