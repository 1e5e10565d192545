-- ===== src/RateLimit/Tests.antt =====
-- A group that may make two calls in a second of ten ticks.
use Prim.Native.String.{String}
use text.Mathlib.Text.{◌==◌ as str_eq}
use goodmoneying.Prelude.{
  ℕ, ◌+◌, ◌≤◌, ◌≡◌, refl, Option, none, some, List, [], ◌∷◌, ◌++◌, count, arith, if◌then◌else◌, All,
}
use goodmoneying.RateLimit.{
  Limiter, Pass, granted, wait, key_error, index_error, pass, acquire, defer, observe,
}
use goodmoneying.RateLimit.Keyed.{set}
use goodmoneying.RateLimit.Window.{in_window, fresh, Reach-in_window}
use goodmoneying.RateLimit.Blocks.{Reach-deferred, Reach-observed}
use goodmoneying.RateLimit.Waits.{IsThrough, Slept, acquire-IsThrough}
use goodmoneying.RateLimit.History.{World, settle, passed, Reach, here, next}

abbrev limits : String → Option (ℕ × ℕ)
limits group = if str_eq group "order" then some (2, 10) else none

abbrev start : World
start = fresh limits 0

abbrev after : ℕ → World → World
after now w = settle "order" now w (pass "order" now w.limiter)

abbrev busy : World
busy = after 3 (after 2 (after 1 start))

settle_not_later :
    (now until : ℕ) (w : World) (p : Pass) → now ≤ until → (settle "order" now w p).clock ≤ until
settle_not_later now until w (granted s) le = le
settle_not_later now until w (wait _ s) le = le
settle_not_later now until w key_error le = le
settle_not_later now until w (index_error s) le = le

not_later : (now until : ℕ) (w : World) → now ≤ until → (after now w).clock ≤ until
not_later now until w le = settle_not_later now until w (pass "order" now w.limiter) le

busy_path : Reach 10 start busy
busy_path =
    next
      (next (next (here start) (passed "order" 1 start (omega arith)))
        (passed "order" 2 (after 1 start) (not_later 1 2 start (omega arith))))
      (passed "order" 3 (after 2 (after 1 start)) (not_later 2 3 (after 1 start) (omega arith)))

two_through : busy.log ≡ ("order", 2) ∷ ("order", 1) ∷ []
unfolding pass set
two_through = refl

Reach-in_window_example : count (in_window "order" 10 1) busy.log ≤ 2
Reach-in_window_example = Reach-in_window 10 limits 0 busy_path "order" 2 10 refl 1

abbrev deferred_world : World
deferred_world = record busy { limiter = defer "order" 20 3 busy.limiter; clock = 3 }

Reach-deferred_example :
    (new : List (String × ℕ)) × ((after 30 deferred_world).log ≡ new ++ busy.log)
    × All (λ call. call.0 ≡ "order" → 3 + 20 ≤ call.1) new
Reach-deferred_example =
    Reach-deferred 10 "order" 20 3 busy
      (next (here deferred_world) (passed "order" 30 deferred_world (omega arith)))

abbrev observed_world : World
observed_world = record start {
  limiter = observe 10 (some ("order", 0)) 3 start.limiter;
  clock = 3;
}

Reach-observed_example :
    (new : List (String × ℕ)) × ((after 14 observed_world).log ≡ new ++ start.log)
    × All (λ call. call.0 ≡ "order" → 3 + 10 ≤ call.1) new
Reach-observed_example =
    Reach-observed 10 "order" (2, 10) 3 start refl
      (next (here observed_world) (passed "order" 14 observed_world (omega arith)))

-- Two calls in the queue, and a block up to 5.
abbrev crowded : Limiter
crowded = record { limits = limits; calls = λ _. 1 ∷ 2 ∷ []; blocked_until = λ _. some 5 }

slept : Slept "order" (3 ∷ 5 ∷ 11 ∷ []) crowded
unfolding Slept pass set
slept = (omega arith, (omega arith, tt))

acquire-IsThrough_example : IsThrough (acquire "order" (3 ∷ 5 ∷ 11 ∷ []) crowded)
acquire-IsThrough_example =
    acquire-IsThrough "order" 3 5 11 crowded 2 10 refl (omega arith) (omega arith) slept
