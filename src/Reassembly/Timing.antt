-- ===== src/Reassembly/Timing.antt =====
-- `time_reached`: the time at which the frontier first reached a position.
use tcp_probe.Prelude.{ℕ, ◌+◌, ◌^◌, ◌≤◌, ◌<◌, ◌≡◌, refl, ap, ◌∙◌, arith, false, List, [], ◌∷◌, ◌++◌}
use tcp_probe.Word.{u32}
use tcp_probe.Reassembly.{Reassembly, create, accept, delivered, time_reached}
use tcp_probe.Reassembly.Stream.{View, accept_at, accept_at-IsCanonical}
use tcp_probe.Reassembly.Runs.{
  Arrival, Fits, accept_all, initial, view_all, Follows, create-Follows, accept_all-Follows,
  accept-Follows, delivered-Follows,
}
use tcp_probe.Reassembly.Advances.{
  reaches, Timed, create-Timed, accept-Timed, time_reached-Timed, time_reached-accept,
  reached_at-none,
}

module _ {T : Type 0} where
  -- The time of a position stays, whatever arrives later.
  time_reached-accept_all :
      (m : T) (lo first x : ℕ) (v : View) (s : Reassembly T) (arr : List (Arrival T))
      → Follows lo first v s
      → Timed lo first v s
      → Fits lo arr
      → first < x
      → lo ≤ first
      → x < lo + 2 ^ 31
      → x ≤ v.nxt
      → time_reached m (accept_all s arr) (u32 x) ≡ time_reached m s (u32 x)
  time_reached-accept_all m lo first x v s [] f h k a b c d = refl
  time_reached-accept_all m lo first x v s (r ∷ rest) f h k a b c d =
      let v' = accept_at v r.seq r.len in
      let s' = (accept s (u32 r.seq) r.len r.t_ms).0 in
      let f' = accept-Follows lo first v s r f k.0 k.1 in
      let h' = accept-Timed lo first v s r f h k.0 k.1 in
      let on : x ≤ v'.nxt = omega (arith, d, accept_at-IsCanonical v r.seq r.len f.canonical) in
      time_reached-accept_all m lo first x v' s' rest f' h' k.2 a b c on
      ∙ ground (arith, time_reached-accept lo first v s r f h k.0 k.1 m x a b c on)

  accept_all-Timed :
      (lo first : ℕ) (v : View) (s : Reassembly T) (arr : List (Arrival T))
      → Follows lo first v s
      → Timed lo first v s
      → Fits lo arr
      → Timed lo first (view_all v arr) (accept_all s arr)
  accept_all-Timed lo first v s [] f h k = h
  accept_all-Timed lo first v s (r ∷ rest) f h k =
      accept_all-Timed lo first (accept_at v r.seq r.len) (accept s (u32 r.seq) r.len r.t_ms).0 rest
        (accept-Follows lo first v s r f k.0 k.1) (accept-Timed lo first v s r f h k.0 k.1) k.2

  accept_all-append :
      (s : Reassembly T) (before after : List (Arrival T))
      → accept_all s (before ++ after) ≡ accept_all (accept_all s before) after
  accept_all-append s [] after = refl
  accept_all-append s (a ∷ before) after =
      accept_all-append (accept s (u32 a.seq) a.len a.t_ms).0 before after

  -- The object after some arrivals on a fresh connection.
  abbrev pub run_of : ℕ → List (Arrival T) → Reassembly T
  run_of first arr = accept_all (create (u32 first)) arr

  -- If the arrival `a` takes the frontier from below `x` to `x` or beyond, then whatever arrives
  -- later, `time_reached` of `x` is the time of `a`. All segments, the first byte and `x` lie
  -- within one half of the sequence space.
  pub time_reached_lem :
      (m : T) (lo first x : ℕ) (before : List (Arrival T)) (a : Arrival T)
      (after : List (Arrival T))
      → lo ≤ first
      → first < lo + 2 ^ 31
      → x < lo + 2 ^ 31
      → Fits lo before
      → Fits lo (a ∷ after)
      → first + delivered (run_of first before) < x
      → x ≤ first + delivered (accept (run_of first before) (u32 a.seq) a.len a.t_ms).0
      → time_reached m (run_of first (before ++ a ∷ after)) (u32 x) ≡ a.t_ms
  time_reached_lem m lo first x before a after p q r hb ha old new =
      let v = view_all (initial first) before in
      let s = run_of first before in
      let f0 = create-Follows lo first p q in
      let h0 : Timed lo first (initial first) (create (u32 first)) = create-Timed lo first in
      let f = accept_all-Follows lo first (initial first) (create (u32 first)) before f0 hb in
      let h = accept_all-Timed lo first (initial first) (create (u32 first)) before f0 h0 hb in
      let v' = accept_at v a.seq a.len in
      let s' = (accept s (u32 a.seq) a.len a.t_ms).0 in
      let f' = accept-Follows lo first v s a f ha.0 ha.1 in
      let h' = accept-Timed lo first v s a f h ha.0 ha.1 in
      let above : v.nxt < x = omega (arith, old, delivered-Follows lo first v s p f) in
      let reached : x ≤ v'.nxt = omega (arith, new, delivered-Follows lo first v' s' p f') in
      let later : first < x = omega (arith, above, f.forward) in
      ap (λ o. time_reached m o (u32 x)) (accept_all-append (create (u32 first)) before (a ∷ after))
      ∙ time_reached-accept_all m lo first x v' s' after f' h' ha.2 later p r reached
      ∙ ground
          (arith, above, time_reached-accept lo first v s a f h ha.0 ha.1 m x later p r reached)

  -- If all segments, the first byte and `x` lie within one half of the sequence space, and `x` is
  -- beyond the frontier, then `time_reached` of `x` is the -1 of the source.
  pub time_reached_never :
      (m : T) (lo first x : ℕ) (arr : List (Arrival T))
      → lo ≤ first
      → first < lo + 2 ^ 31
      → x < lo + 2 ^ 31
      → Fits lo arr
      → first + delivered (run_of first arr) < x
      → time_reached m (run_of first arr) (u32 x) ≡ m
  time_reached_never m lo first x arr p q r h beyond =
      let v = view_all (initial first) arr in
      let s = run_of first arr in
      let f0 = create-Follows lo first p q in
      let f = accept_all-Follows lo first (initial first) (create (u32 first)) arr f0 h in
      let k =
        accept_all-Timed lo first (initial first) (create (u32 first)) arr f0
          (create-Timed lo first) h in
      let above : v.nxt < x = omega (arith, beyond, delivered-Follows lo first v s p f) in
      let none_reaches : reaches k.log x ≡ false =
        ground (arith, above, k.complete x (omega (arith, above, f.forward))) in
      time_reached-Timed m lo first x v s k (omega (arith, above, f.window.from)) r
      ∙ reached_at-none m x k.log none_reaches
