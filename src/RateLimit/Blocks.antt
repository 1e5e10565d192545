-- ===== src/RateLimit/Blocks.antt =====
-- A block holds: while a group is blocked, none of its calls goes through.
use Prim.Native.String.{String}
use mathlib.Core.Path.{subst}
use goodmoneying.Prelude.{
  ℕ, ◌+◌, ◌≤◌, ◌≡◌, refl, sym, ap, max, inl, inr, ◌&&◌, Option, none, some, List, [], ◌∷◌, ◌++◌,
  ◌==◌, arith, Bool-cases, All,
}
use goodmoneying.RateLimit.{Limiter, Pass, get_or, block, defer, observe, has_limit}
use goodmoneying.RateLimit.Keyed.{set-elim, set-same}
use goodmoneying.RateLimit.Passes.{Ends, unknown, blocked, through, full, no_calls, pass-Ends}
use goodmoneying.RateLimit.History.{
  World, settle, Step, passed, deferred, observed, Reach, here, next,
}

-- The group is blocked at least up to `until`.
abbrev pub IsBlockedTo : String → ℕ → Limiter → Type 0
IsBlockedTo group until s = until ≤ get_or (s.blocked_until group) 0

-- The calls since the log was `base` came when the block was over.
abbrev pub Kept : String → ℕ → List (String × ℕ) → World → Type 0
Kept group until base w =
    IsBlockedTo group until w.limiter
    × ((new : List (String × ℕ)) × (w.log ≡ new ++ base)
        × All (λ call. call.0 ≡ group → until ≤ call.1) new)

-- Another block never shortens one.
block-IsBlockedTo :
    (g : String) (at : ℕ) (s : Limiter) (group : String) (until : ℕ)
    → IsBlockedTo group until s
    → IsBlockedTo group until (block g at s)
block-IsBlockedTo g at s group until h =
    set-elim (λ k b. until ≤ get_or (s.blocked_until k) 0 → until ≤ get_or b 0) g
      (some (max (get_or (s.blocked_until g) 0) at)) s.blocked_until (λ le. omega (arith, le))
      (λ k _ le. le) group h

block-IsBlockedTo_itself : (g : String) (at : ℕ) (s : Limiter) → IsBlockedTo g at (block g at s)
block-IsBlockedTo_itself g at s =
    subst (λ b. at ≤ get_or b 0)
      (sym (set-same g (some (max (get_or (s.blocked_until g) 0) at)) s.blocked_until))
      (omega arith)

observe-IsBlockedTo :
    (second : ℕ) (remaining : Option (String × ℕ)) (now : ℕ) (s : Limiter) (group : String)
    (until : ℕ)
    → IsBlockedTo group until s
    → IsBlockedTo group until (observe second remaining now s)
unfolding observe
observe-IsBlockedTo second none now s group until h = h
observe-IsBlockedTo second (some (g, quota)) now s group until h =
    elim (Bool-cases ((quota == 0) && has_limit (s.limits g))) [
      | inl blocks ↦ rw (blocks) (block-IsBlockedTo g (now + second) s group until h)
      | inr quiet ↦ rw quiet h
    ]

-- A block that is over at `now` blocks no longer than up to `now`.
over : (b : Option ℕ) (now : ℕ) → get_or b now ≤ now → get_or b 0 ≤ now
over none now h = omega arith
over (some at) now h = h

module _ (group : String) (until : ℕ) (base : List (String × ℕ)) where
  Ends-Kept :
      (g : String) (now : ℕ) (w : World) {p : Pass}
      → Ends g now w.limiter p
      → Kept group until base w
      → Kept group until base (settle g now w p)
  Ends-Kept g now w (unknown _) h = h
  Ends-Kept g now w (blocked _ _ _ _) h = h
  Ends-Kept g now w (full _ _ _ _ _ _ _ _) h = h
  Ends-Kept g now w (no_calls _ _ _ _) h = h
  Ends-Kept g now w (through _ _ _ free _) (is_blocked, (new, e, later)) = (
    is_blocked,
    (
      (g, now) ∷ new,
      ap (λ log. (g, now) ∷ log) e,
      (
        (λ same. omega (
          arith,
          over (w.limiter.blocked_until g) now free,
          subst (λ k. IsBlockedTo k until w.limiter) (sym same) is_blocked,
        )),
        later,
      ),
    ),
  )

  Step-Kept :
      (second : ℕ) {w x : World}
      → Step second w x
      → Kept group until base w
      → Kept group until base x
  unfolding defer
  Step-Kept second (passed g now w _) h = Ends-Kept g now w (pass-Ends g now w.limiter) h
  Step-Kept second (deferred g seconds now w _) h =
      (block-IsBlockedTo g (now + seconds) w.limiter group until h.0, h.1)
  Step-Kept second (observed remaining now w _) h =
      (observe-IsBlockedTo second remaining now w.limiter group until h.0, h.1)

  Reach-Kept :
      (second : ℕ) {w x : World}
      → Reach second w x
      → Kept group until base w
      → Kept group until base x
  Reach-Kept second (here w) h = h
  Reach-Kept second (next path step) h = Step-Kept second step (Reach-Kept second path h)

-- After `defer`, whatever the threads do, no call of the group comes through before the seconds are
-- over.
pub Reach-deferred :
    (second : ℕ) (group : String) (seconds now : ℕ) (w : World) {x : World}
    → Reach second (record w { limiter = defer group seconds now w.limiter; clock = now }) x
    → (new : List (String × ℕ)) × (x.log ≡ new ++ w.log)
      × All (λ call. call.0 ≡ group → now + seconds ≤ call.1) new
unfolding defer
Reach-deferred second group seconds now w path =
    (Reach-Kept group (now + seconds) w.log second path
      (block-IsBlockedTo_itself group (now + seconds) w.limiter, ([], refl, tt))).1

-- After `observe` of a header with no requests left for a group that has a limit, whatever the
-- threads do, no call of the group comes through before a second is over.
pub Reach-observed :
    (second : ℕ) (group : String) (limit : ℕ × ℕ) (now : ℕ) (w : World) {x : World}
    → w.limiter.limits group ≡ some limit
    → Reach second
        (record w { limiter = observe second (some (group, 0)) now w.limiter; clock = now })
        x
    → (new : List (String × ℕ)) × (x.log ≡ new ++ w.log)
      × All (λ call. call.0 ≡ group → now + second ≤ call.1) new
unfolding observe
Reach-observed second group limit now w known path =
    (Reach-Kept group (now + second) w.log second path
      ((rw known (block-IsBlockedTo_itself group (now + second) w.limiter)), ([], refl, tt))).1
