-- ===== src/RateLimit.antt =====
-- GroupRateLimiter of apps/upbit_gateway/goodmoneying_upbit_gateway/rate_limit.py: a sliding window
-- for each group of requests, and blocks that the exchange asks for. The clock and the seconds are
-- numbers of ticks. The lock makes one pass of the loop of `acquire` atomic, and `observe` and
-- `defer`, so a run of several threads is a sequence of these (History).
pub mod Keyed
pub mod Passes
pub mod History
pub mod Window
pub mod Blocks
pub mod Waits
mod Tests
use Prim.Native.String.{String}
use goodmoneying.Prelude.{
  ℕ, ◌+◌, ◌-◌, max, Bool, true, false, Option, none, some, ◌&&◌, List, [], ◌∷◌, ◌++◌, length, ltb,
  leb, ◌==◌, if◌then◌else◌,
}
use goodmoneying.RateLimit.Keyed.{set}

pub record Limiter : Type 0 where
  pub limits : String → Option (ℕ × ℕ)
  pub calls : String → List ℕ
  pub blocked_until : String → Option ℕ

-- How one pass of the loop ends: with the call, or with the seconds that it sleeps; or there is no
-- limit for the group, or there are no calls to wait for (`calls[0]`).
pub data Pass : Type 0 where
  granted : Limiter → Pass
  wait : ℕ → Limiter → Pass
  key_error : Pass
  index_error : Limiter → Pass

-- `while calls and now - calls[0] >= window: calls.popleft()`
unfoldable pub expire : ℕ → ℕ → List ℕ → List ℕ
expire window now [] = []
expire window now (call ∷ calls) =
    let rest = expire window now calls in if leb (call + window) now then rest else call ∷ calls

-- `window - (now - calls[0])`
abbrev pub window_wait : ℕ → ℕ → Limiter → List ℕ → Pass
window_wait window now s [] = index_error s
window_wait window now s (call ∷ calls) = wait (call + window - now) s

-- `self._blocked_until.get(group, fallback)`
abbrev pub get_or : Option ℕ → ℕ → ℕ
get_or none fallback = fallback
get_or (some at) fallback = at

unfoldable pub open_pass : String → ℕ → ℕ → ℕ → Limiter → Pass
unfolding expire
open_pass group limit window now s =
    let calls = expire window now (s.calls group) in
    let expired = record s { calls = set group calls s.calls } in
    if ltb (length calls) limit
    then granted (record s { calls = set group (calls ++ now ∷ []) s.calls })
    else window_wait window now expired calls

unfoldable pub pass : String → ℕ → Limiter → Pass
unfolding open_pass
pass group now s = elim (s.limits group) [
  | none ↦ key_error
  | some (limit, window) ↦
      if ltb now (get_or (s.blocked_until group) now)
      then wait (get_or (s.blocked_until group) now - now) s
      else open_pass group limit window now s
]

-- The loop of `acquire`, whose passes read the clock as the list says: how it ends, or `none` if it is
-- still asleep after the last of them.
abbrev pub resume : (Limiter → Option Pass) → Pass → Option Pass
resume rest (wait _ s) = rest s
resume rest (granted s) = some (granted s)
resume rest key_error = some key_error
resume rest (index_error s) = some (index_error s)

unfoldable pub acquire : String → List ℕ → Limiter → Option Pass
unfolding pass
acquire group [] s = none
acquire group (now ∷ nows) s = resume (acquire group nows) (pass group now s)

-- A block of the group at least up to `until`.
abbrev pub block : String → ℕ → Limiter → Limiter
block group until s = record s {
  blocked_until = set group (some (max (get_or (s.blocked_until group) 0) until)) s.blocked_until;
}

unfoldable pub defer : String → ℕ → ℕ → Limiter → Limiter
defer group seconds now s = block group (now + seconds) s

abbrev pub has_limit : Option (ℕ × ℕ) → Bool
has_limit none = false
has_limit (some _) = true

-- `remaining` is what parse_remaining_req reads from the header, and `second` the ticks of one.
unfoldable pub observe : ℕ → Option (String × ℕ) → ℕ → Limiter → Limiter
observe second none now s = s
observe second (some (group, second_quota)) now s =
    if (second_quota == 0) && has_limit (s.limits group) then block group (now + second) s else s
