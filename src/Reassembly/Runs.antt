-- ===== src/Reassembly/Runs.antt =====
-- Whole runs: any number of segments, in any order, carved and repeated in any way.
use tcp_probe.Prelude.{
  ℕ, suc, ◌+◌, ◌^◌, ◌≤◌, ◌<◌, ◌≡◌, refl, sym, ap, ◌∙◌, arith, Bool, false, ◌&&◌, ◌||◌, List, [],
  ◌∷◌, map, ltb, leb,
}
use tcp_probe.Word.{u32}
use tcp_probe.Reassembly.{Reassembly, create, accept, delivered}
use tcp_probe.Reassembly.Position.{wrap}
use tcp_probe.Reassembly.Ranges.{covered-below}
use tcp_probe.Reassembly.Stream.{
  View, received, IsCanonical, InWindow, Shows, accept_at, accept_at-IsCanonical,
  received-accept_at, accept_at-InWindow,
}
use tcp_probe.Reassembly.Refine.{accept-Shows, first-accept_at}
use tcp_probe.Reassembly.Order.{View-unique}

-- A segment by its position in the stream.
pub record Arrival (T : Type 0) : Type 0 where
  pub seq : ℕ
  pub len : ℕ
  pub t_ms : T

abbrev pub carries : {T : Type 0} → Arrival T → ℕ → Bool
carries a p = leb a.seq p && ltb p (a.seq + a.len)

-- Some arrival carries the byte at `p`.
abbrev pub carried : {T : Type 0} → List (Arrival T) → ℕ → Bool
carried [] p = false
carried (a ∷ rest) p = carries a p || carried rest p

-- All arrivals lie in the half of the sequence space from `lo` on.
abbrev pub Fits : {T : Type 0} → ℕ → List (Arrival T) → Type 0
Fits lo [] = Unit
Fits lo (a ∷ rest) = (lo ≤ a.seq) × (a.seq + a.len < lo + 2 ^ 31) × Fits lo rest

abbrev pub initial : ℕ → View
initial first = record { first = first; nxt = first; held = [] }

module _ {T : Type 0} where
  -- The segments are accepted one after the other, by their 32-bit sequence numbers.
  abbrev pub accept_all : Reassembly T → List (Arrival T) → Reassembly T
  accept_all s [] = s
  accept_all s (a ∷ rest) = accept_all (accept s (u32 a.seq) a.len a.t_ms).0 rest

  abbrev pub view_all : View → List (Arrival T) → View
  view_all v [] = v
  view_all v (a ∷ rest) = view_all (accept_at v a.seq a.len) rest

  -- What holds all along a run.
  pub record Follows (lo first : ℕ) (v : View) (s : Reassembly T) : Type 0 where
    pub shows : Shows v s
    pub canonical : IsCanonical v
    pub window : InWindow lo v
    pub start : v.first ≡ first
    pub forward : first ≤ v.nxt

  pub create-Follows :
      (lo first : ℕ)
      → lo ≤ first
      → first < lo + 2 ^ 31
      → Follows lo first (initial first) (create (u32 first))
  unfolding create
  create-Follows lo first a b = record {
    shows = record { nxt = refl; first = refl; held = refl };
    canonical = tt;
    window = record { from = a; to = b; inside = tt };
    start = refl;
    forward = omega arith;
  }

  pub accept-Follows :
      (lo first : ℕ) (v : View) (s : Reassembly T) (a : Arrival T)
      → Follows lo first v s
      → lo ≤ a.seq
      → a.seq + a.len < lo + 2 ^ 31
      → Follows lo first (accept_at v a.seq a.len) (accept s (u32 a.seq) a.len a.t_ms).0
  accept-Follows lo first v s a f p q = record {
    shows = (accept-Shows lo v s a.seq a.len a.t_ms f.shows f.canonical f.window p q).0;
    canonical = (accept_at-IsCanonical v a.seq a.len f.canonical).0;
    window = accept_at-InWindow lo v a.seq a.len f.canonical f.window p q;
    start = first-accept_at v a.seq a.len ∙ f.start;
    forward = omega (arith, f.forward, accept_at-IsCanonical v a.seq a.len f.canonical);
  }

  pub accept_all-Follows :
      (lo first : ℕ) (v : View) (s : Reassembly T) (arr : List (Arrival T))
      → Follows lo first v s
      → Fits lo arr
      → Follows lo first (view_all v arr) (accept_all s arr)
  accept_all-Follows lo first v s [] f h = f
  accept_all-Follows lo first v s (a ∷ rest) f h =
      accept_all-Follows lo first (accept_at v a.seq a.len) (accept s (u32 a.seq) a.len a.t_ms).0
        rest (accept-Follows lo first v s a f h.0 h.1) h.2

  received-view_all :
      (v : View) (arr : List (Arrival T)) (p : ℕ)
      → IsCanonical v
      → received (view_all v arr) p ≡ (received v p || carried arr p)
  received-view_all v [] p c = ground arith
  received-view_all v (a ∷ rest) p c = ground (
    arith,
    received-view_all (accept_at v a.seq a.len) rest p,
    accept_at-IsCanonical v a.seq a.len c,
    received-accept_at v a.seq a.len p c,
  )

  received-initial :
      (first : ℕ) (arr : List (Arrival T)) (p : ℕ)
      → received (view_all (initial first) arr) p ≡ (ltb p first || carried arr p)
  received-initial first arr p = ground (arith, received-view_all (initial first) arr p tt)

  pub delivered-Follows :
      (lo first : ℕ) (v : View) (s : Reassembly T)
      → lo ≤ first
      → Follows lo first v s
      → first + delivered s ≡ v.nxt
  unfolding delivered
  delivered-Follows lo first v s a f =
      omega (arith, f.shows.nxt, f.shows.first, f.start, f.forward, f.window.to)

  -- If the first byte and all segments lie within one half of the sequence space, `delivered`
  -- after the segments is the length of the longest run of bytes from the first one on that are
  -- all carried by some segment: every byte below it has arrived, and the next one has not.
  pub delivered_lem :
      (lo first : ℕ) (arr : List (Arrival T)) (p : ℕ)
      → lo ≤ first
      → first < lo + 2 ^ 31
      → Fits lo arr
      → first ≤ p
      → p ≤ first + delivered (accept_all (create (u32 first)) arr)
      → carried arr p ≡ ltb p (first + delivered (accept_all (create (u32 first)) arr))
  delivered_lem lo first arr p a b h q r =
      let v = view_all (initial first) arr in
      let f =
        accept_all-Follows lo first (initial first) (create (u32 first)) arr
          (create-Follows lo first a b) h in
      let e = delivered-Follows lo first v (accept_all (create (u32 first)) arr) a f in
      ground
        (arith, e, f.canonical, received-initial first arr p, covered-below (suc v.nxt) p v.held)

  -- If the first byte and all segments lie within one half of the sequence space, two sequences of
  -- segments that carry the same bytes from the first one on, in whatever order, carved and
  -- repeated in whatever way, leave the same frontier and the same held ranges.
  pub accept_all-order_irrelevant :
      (lo first : ℕ) (arr brr : List (Arrival T))
      → lo ≤ first
      → first < lo + 2 ^ 31
      → Fits lo arr
      → Fits lo brr
      → ((p : ℕ) → first ≤ p → carried arr p ≡ carried brr p)
      → let s = accept_all (create (u32 first)) arr in
        let t = accept_all (create (u32 first)) brr in (s.rcv_nxt ≡ t.rcv_nxt) × (s.held ≡ t.held)
  accept_all-order_irrelevant lo first arr brr a b h k same =
      let base = create-Follows lo first a b in
      let f = accept_all-Follows lo first (initial first) (create (u32 first)) arr base h in
      let g = accept_all-Follows lo first (initial first) (create (u32 first)) brr base k in
      let e =
        View-unique (view_all (initial first) arr) (view_all (initial first) brr) f.canonical
          g.canonical
          λ p. ground (arith, same p, received-initial first arr p, received-initial first brr p) in
      (
        f.shows.nxt ∙ ap u32 e.0 ∙ sym g.shows.nxt,
        f.shows.held ∙ ap (map wrap) e.1 ∙ sym g.shows.held,
      )
