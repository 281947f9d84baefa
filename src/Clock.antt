-- ===== src/Clock.antt =====
-- include/tp/clock.hpp and src/clock.cpp. A time in milliseconds is a value of any type with the
-- operations that the program uses on its `double`s; reading the clock is the environment's.
use tcp_probe.Prelude.{ℕ, Bool, true, false, List, [], ◌∷◌, if◌then◌else◌}

-- The operations, the times 0 and -1, a number as a time, and `int(t)` of a positive time.
pub record Times (T : Type 0) : Type 0 where
  pub add : T → T → T
  pub sub : T → T → T
  pub leb_T : T → T → Bool
  pub is_negative : T → Bool
  pub to_int : T → ℕ
  pub of_ℕ : ℕ → T
  pub zero_T : T
  pub minus_one : T

-- What `nanosleep` gives: it has slept, was interrupted with time left, or failed otherwise.
pub data Nap (S : Type 0) : Type 0 where
  slept : Nap S
  interrupted : S → Nap S
  failed : Nap S

-- The loop of `sleep_ms` over the answers of `nanosleep`: the requests it makes, and whether the loop
-- has ended.
unfoldable pub nap_loop : {S : Type 0} → S → List (Nap S) → List S × Bool
nap_loop req [] = ([], false)
nap_loop req (slept ∷ rest) = (req ∷ [], true)
nap_loop req (failed ∷ rest) = (req ∷ [], true)
nap_loop req (interrupted rem ∷ rest) =
    let (asked, ended) = nap_loop rem rest in (req ∷ asked, ended)

-- `sleep_ms`; `timespec` splits milliseconds into the request.
unfoldable pub sleep_ms : {T S : Type 0} (tm : Times T) → (T → S) → T → List (Nap S) → List S × Bool
sleep_ms tm timespec ms naps =
    if tm.leb_T ms tm.zero_T then ([], true) else nap_loop (timespec ms) naps
