-- ===== src/RateLimit/Waits.antt =====
-- `acquire` returns: what it sleeps is enough.
use Prim.Native.String.{String}
use mathlib.Core.Path.{subst}
use mathlib.Core.Option.{some-injective}
use goodmoneying.Prelude.{
  ℕ, ◌+◌, ◌-◌, ◌≤◌, ◌<◌, ◌≡◌, refl, sym, ap, ◌∙◌, Option, none, some, List, [], ◌∷◌, length, arith,
}
use goodmoneying.RateLimit.{
  Limiter, expire, Pass, granted, wait, key_error, index_error, pass, get_or, resume, acquire,
}
use goodmoneying.RateLimit.Keyed.{set-same}
use goodmoneying.RateLimit.Passes.{
  Ends, unknown, blocked, through, full, no_calls, pass-Ends, left, with_calls, NotBlocked,
}

abbrev Later : ℕ → List ℕ → Type 0
Later at [] = Unit
Later at (now ∷ _) = at ≤ now

abbrev AfterPass : ℕ → List ℕ → (Limiter → Type 0) → Pass → Type 0
AfterPass now nows rest (wait seconds s) = Later (now + seconds) nows × rest s
AfterPass now nows rest (granted _) = Unit
AfterPass now nows rest key_error = Unit
AfterPass now nows rest (index_error _) = Unit

-- Each reading of the clock is at least as late as the sleep before it says, and no other thread
-- comes in between.
unfoldable pub Slept : String → List ℕ → Limiter → Type 0
unfolding pass
Slept group [] s = Unit
Slept group (now ∷ nows) s = AfterPass now nows (Slept group nows) (pass group now s)

abbrev pub IsThrough : Option Pass → Type 0
IsThrough ended = (s : Limiter) × (ended ≡ some (granted s))

-- The queue is no longer than the limit allows, and the limit allows a call.
abbrev pub Fits : String → Limiter → Type 0
Fits group s =
    (limit window : ℕ)
    → s.limits group ≡ some (limit, window)
    → (0 < limit) × (length (s.calls group) ≤ limit)

for_known :
    (P : ℕ → ℕ → Type 0) (o : Option (ℕ × ℕ)) (limit window : ℕ)
    → o ≡ some (limit, window)
    → P limit window
    → (l v : ℕ) → o ≡ some (l, v)
    → P l v
for_known P o limit window known h l v known' =
    subst (λ p. P p.0 p.1) (some-injective _ _ (sym known ∙ known')) h

length-expire : (window now : ℕ) (calls : List ℕ) → length (expire window now calls) ≤ length calls
unfolding expire
length-expire window now [] = omega arith
length-expire window now (c ∷ calls) = ground (arith, length-expire window now calls)

-- A call that is as old as the window leaves the queue.
expire-shorter :
    (window now call : ℕ) (calls : List ℕ)
    → call + window ≤ now
    → length (expire window now (call ∷ calls)) < length (call ∷ calls)
unfolding expire
expire-shorter window now call calls old = ground (arith, length-expire window now calls)

waited_block :
    (o : Option ℕ) (now next : ℕ)
    → now < get_or o now
    → now + (get_or o now - now) ≤ next
    → get_or o next ≤ next
waited_block none now next less slept = omega arith
waited_block (some at) now next less slept = omega (arith, less, slept)

still_free : (o : Option ℕ) (now next : ℕ) → get_or o now ≤ now → now ≤ next → get_or o next ≤ next
still_free none now next free le = omega arith
still_free (some at) now next free le = omega (arith, free, le)

module _ (group : String) (rest : Limiter → Option Pass) where
  room-IsThrough :
      (now : ℕ) (s : Limiter) {p : Pass}
      → Ends group now s p
      → ((l v : ℕ) → s.limits group ≡ some (l, v) → length (left group now s v) < l)
      → (s.limits group ≡ none → ⊥)
      → NotBlocked group now s
      → IsThrough (resume rest p)
  room-IsThrough now s (unknown absent) room known free = absurd (known absent)
  room-IsThrough now s (blocked _ _ _ less) room known free = absurd (omega (arith, less, free))
  room-IsThrough now s (through _ _ _ _ _) room known free = (_, refl)
  room-IsThrough now s (full l v _ _ k _ _ more) room known free =
      absurd (omega (arith, more, room l v k))
  room-IsThrough now s (no_calls v k _ _) room known free = absurd (omega (arith, room 0 v k))

module _ (group : String) (nows : List ℕ) where
  -- A pass that is not blocked, and the pass after its sleep.
  free-IsThrough :
      (now next : ℕ) (s : Limiter) {p : Pass}
      → Ends group now s p
      → AfterPass now (next ∷ nows) (Slept group (next ∷ nows)) p
      → Fits group s
      → (s.limits group ≡ none → ⊥)
      → NotBlocked group now s
      → IsThrough (resume (acquire group (next ∷ nows)) p)
  unfolding acquire
  free-IsThrough now next s (unknown absent) slept fits known free = absurd (known absent)
  free-IsThrough now next s (blocked _ _ _ less) slept fits known free =
      absurd (omega (arith, less, free))
  free-IsThrough now next s (through _ _ _ _ _) slept fits known free = (_, refl)
  free-IsThrough now next s (no_calls v k _ _) slept fits known free =
      absurd (omega (arith, (fits 0 v k).0))
  free-IsThrough now next s (full limit window call calls k _ e more) slept fits known free =
      let after = with_calls group now s (left group now s window) in
      let queue : after.calls group ≡ call ∷ calls =
        set-same group (left group now s window) s.calls ∙ e in
      let short : length (left group next after window) < limit =
        subst (λ c. length (expire window next c) < limit) (sym queue)
          (omega (
            arith,
            expire-shorter window next call calls (omega (arith, slept.0)),
            ap length e,
            length-expire window now (s.calls group),
            (fits limit window k).1,
          )) in
      room-IsThrough group (acquire group nows) next after (pass-Ends group next after)
        (for_known (λ l v. length (left group next after v) < l) (s.limits group) limit window k
          short)
        known (still_free (s.blocked_until group) now next free (omega (arith, slept.0)))

module _ (group : String) (nows : List ℕ) where
  -- Any pass, and the two passes after its sleeps.
  pass-IsThrough :
      (first now next : ℕ) (s : Limiter) {p : Pass}
      → Ends group first s p
      → AfterPass first (now ∷ next ∷ nows) (Slept group (now ∷ next ∷ nows)) p
      → Fits group s
      → (s.limits group ≡ none → ⊥)
      → IsThrough (resume (acquire group (now ∷ next ∷ nows)) p)
  unfolding acquire Slept
  pass-IsThrough first now next s (unknown absent) slept fits known = absurd (known absent)
  pass-IsThrough first now next s (through _ _ _ _ _) slept fits known = (_, refl)
  pass-IsThrough first now next s (no_calls v k _ _) slept fits known =
      absurd (omega (arith, (fits 0 v k).0))
  pass-IsThrough first now next s (blocked _ _ _ less) slept fits known =
      free-IsThrough group nows now next s (pass-Ends group now s) slept.1 fits known
        (waited_block (s.blocked_until group) first now less slept.0)
  pass-IsThrough first now next s (full limit window call calls k free e more) slept fits known =
      free-IsThrough group (next ∷ nows) first now s (full limit window call calls k free e more)
        slept fits known free

-- Three passes are enough: whatever the state of a group with a positive limit and no more queued
-- calls than that, `acquire` lets the call through if no other thread comes in between and each
-- sleep lasts as long as it says.
pub acquire-IsThrough :
    (group : String) (first now next : ℕ) (s : Limiter) (limit window : ℕ)
    → s.limits group ≡ some (limit, window)
    → 0 < limit
    → length (s.calls group) ≤ limit
    → Slept group (first ∷ now ∷ next ∷ []) s
    → IsThrough (acquire group (first ∷ now ∷ next ∷ []) s)
unfolding acquire Slept
acquire-IsThrough group first now next s limit window known positive short slept =
    pass-IsThrough group [] first now next s (pass-Ends group first s) slept
      (for_known (λ l v. (0 < l) × (length (s.calls group) ≤ l)) (s.limits group) limit window known
        (positive, short))
      (λ absent. cc)
