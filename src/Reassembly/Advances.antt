-- ===== src/Reassembly/Advances.antt =====
-- The log of advances, over positions, and what one arrival adds to it.
use mathlib.Core.List.{map-append}
use tcp_probe.Prelude.{
  ℕ, ◌+◌, ◌^◌, ◌≤◌, ◌<◌, ◌≡◌, refl, arith, Bool, false, ◌||◌, List, [], ◌∷◌, ◌++◌, map, ltb, leb,
  if◌then◌else◌,
}
use tcp_probe.Word.{u32}
use tcp_probe.Seq.Order.{seq_geq-u32}
use tcp_probe.Reassembly.{Advance, Reassembly, create, settle, accept, reached_in, time_reached}
use tcp_probe.Reassembly.Stream.{View, accept_at, accept_at-IsCanonical}
use tcp_probe.Reassembly.Refine.{accept-Shows}
use tcp_probe.Reassembly.Runs.{Arrival, initial, Follows, accept-Follows}

module _ {T : Type 0} where
  abbrev pub wrap_advance : Advance T → Advance T
  wrap_advance a = record a { frontier = u32 a.frontier }

  abbrev pub AllWithin : ℕ → List (Advance T) → Type 0
  AllWithin lo [] = Unit
  AllWithin lo (a ∷ rest) = (lo ≤ a.frontier) × (a.frontier < lo + 2 ^ 31) × AllWithin lo rest

  abbrev pub reaches : List (Advance T) → ℕ → Bool
  reaches [] p = false
  reaches (a ∷ rest) p = leb p a.frontier || reaches rest p

  abbrev pub reached_at : T → List (Advance T) → ℕ → T
  reached_at m [] p = m
  reached_at m (a ∷ rest) p = if leb p a.frontier then a.t_ms else reached_at m rest p

  reached_in-u32 :
      (m : T) (lo p : ℕ) (ps : List (Advance T))
      → lo ≤ p
      → p < lo + 2 ^ 31
      → AllWithin lo ps
      → reached_in m (map wrap_advance ps) (u32 p) ≡ reached_at m ps p
  unfolding reached_in
  reached_in-u32 m lo p [] a b h = refl
  reached_in-u32 m lo p (x ∷ ps) a b h =
      ground (arith, seq_geq-u32 x.frontier p, reached_in-u32 m lo p ps a b)

  reached_at-append :
      (m : T) (p : ℕ) (ps qs : List (Advance T))
      → reached_at m (ps ++ qs) p ≡ (if reaches ps p then reached_at m ps p else reached_at m qs p)
  reached_at-append m p [] qs = refl
  reached_at-append m p (x ∷ ps) qs = ground (arith, reached_at-append m p ps qs)

  reaches-append :
      (p : ℕ) (ps qs : List (Advance T)) → reaches (ps ++ qs) p ≡ (reaches ps p || reaches qs p)
  reaches-append p [] qs = refl
  reaches-append p (x ∷ ps) qs = ground (arith, reaches-append p ps qs)

  pub reached_at-none :
      (m : T) (p : ℕ) (ps : List (Advance T)) → reaches ps p ≡ false → reached_at m ps p ≡ m
  reached_at-none m p [] h = refl
  reached_at-none m p (x ∷ ps) h = ground (arith, reached_at-none m p ps)

  advances-accept :
      (s : Reassembly T) (seq len : ℕ) (t_ms : T)
      → let (s', moved) = accept s seq len t_ms in
        s'.advances ≡ (
          if moved
          then s.advances ++ record { frontier = s'.rcv_nxt; t_ms = t_ms } ∷ []
          else s.advances)
  unfolding accept settle
  advances-accept s seq len t_ms = ground arith

  -- The log of advances, in positions.
  pub record Timed (lo first : ℕ) (v : View) (s : Reassembly T) : Type 0 where
    pub log : List (Advance T)
    pub shows : s.advances ≡ map wrap_advance log
    pub inside : AllWithin lo log
    pub complete : (p : ℕ) → first < p → reaches log p ≡ leb p v.nxt

  pub time_reached-Timed :
      (m : T) (lo first p : ℕ) (v : View) (s : Reassembly T) (h : Timed lo first v s)
      → lo ≤ p
      → p < lo + 2 ^ 31
      → time_reached m s (u32 p) ≡ reached_at m h.log p
  unfolding time_reached
  time_reached-Timed m lo first p v s h a b = rw h.shows (reached_in-u32 m lo p h.log a b h.inside)

  AllWithin-append :
      (lo : ℕ) (ps : List (Advance T)) (a : Advance T)
      → AllWithin lo ps
      → lo ≤ a.frontier
      → a.frontier < lo + 2 ^ 31
      → AllWithin lo (ps ++ a ∷ [])
  AllWithin-append lo [] a h p q = (p, q, tt)
  AllWithin-append lo (x ∷ ps) a h p q = (h.0, h.1, AllWithin-append lo ps a h.2 p q)

  pub create-Timed : (lo first : ℕ) → Timed lo first (initial first) (create (u32 first))
  unfolding create
  create-Timed lo first = record {
    log = [];
    shows = refl;
    inside = tt;
    complete = λ p h. ground arith;
  }

  -- The log after one more arrival.
  abbrev pub extended : View → Arrival T → List (Advance T) → List (Advance T)
  extended v a log =
      let nxt = (accept_at v a.seq a.len).nxt in
      if ltb v.nxt nxt then log ++ record { frontier = nxt; t_ms = a.t_ms } ∷ [] else log

  module _ (lo first : ℕ) (v : View) (s : Reassembly T) (a : Arrival T) (f : Follows lo first v s)
      (h : Timed lo first v s) (p : lo ≤ a.seq) (q : a.seq + a.len < lo + 2 ^ 31) where
    abbrev pub newest : Advance T
    newest = record { frontier = (accept_at v a.seq a.len).nxt; t_ms = a.t_ms }

    pub accept-Timed :
        Timed lo first (accept_at v a.seq a.len) (accept s (u32 a.seq) a.len a.t_ms).0
    accept-Timed =
        let g = accept-Follows lo first v s a f p q in
        let returned =
          (accept-Shows lo v s a.seq a.len a.t_ms f.shows f.canonical f.window p q).1 in
        record {
          log = extended v a h.log;
          shows = ground (
            arith,
            returned,
            g.shows.nxt,
            h.shows,
            advances-accept s (u32 a.seq) a.len a.t_ms,
            map-append wrap_advance h.log (newest ∷ []),
          );
          inside =
              ground
                (arith, g.window.from, g.window.to, h.inside, AllWithin-append lo h.log newest);
          complete = λ x k. ground (
            arith,
            h.complete x k,
            accept_at-IsCanonical v a.seq a.len f.canonical,
            reaches-append x h.log (newest ∷ []),
          );
        }

    -- A position that the frontier has reached keeps its time, and one that this arrival reaches
    -- takes the arrival's.
    pub time_reached-accept :
        (m : T) (x : ℕ)
        → first < x
        → lo ≤ first
        → x < lo + 2 ^ 31
        → x ≤ (accept_at v a.seq a.len).nxt
        → time_reached m (accept s (u32 a.seq) a.len a.t_ms).0 (u32 x)
          ≡ (if leb x v.nxt then time_reached m s (u32 x) else a.t_ms)
    unfolding accept-Timed
    time_reached-accept m x above b c d = ground (
      arith,
      time_reached-Timed m lo first x v s h,
      time_reached-Timed m lo first x (accept_at v a.seq a.len)
          (accept s (u32 a.seq) a.len a.t_ms).0 accept-Timed,
      reached_at-append m x h.log (newest ∷ []),
      h.complete x above,
    )
