-- ===== src/RateLimit/Passes.antt =====
-- The ways in which a pass of the loop of `acquire` ends.
use Prim.Native.String.{String}
use mathlib.Core.Path.{subst}
use goodmoneying.Prelude.{
  ℕ, ◌+◌, ◌-◌, ◌≤◌, ◌<◌, ◌≡◌, refl, sym, inl, inr, Bool, Option, none, some, List, [], ◌∷◌, ◌++◌,
  length, ltb, if◌then◌else◌, arith, Bool-cases, Option-cases,
}
use goodmoneying.RateLimit.{
  Limiter, expire, Pass, granted, wait, key_error, index_error, pass, open_pass, window_wait,
  get_or,
}
use goodmoneying.RateLimit.Keyed.{set}

module _ (group : String) (now : ℕ) (s : Limiter) where
  abbrev pub left : ℕ → List ℕ
  left window = expire window now (s.calls group)

  abbrev pub with_calls : List ℕ → Limiter
  with_calls calls = record s { calls = set group calls s.calls }

  abbrev pub NotBlocked : Type 0
  NotBlocked = get_or (s.blocked_until group) now ≤ now

  pub data Ends : Pass → Type 0 where
    unknown : s.limits group ≡ none → Ends key_error
    blocked :
        (limit window : ℕ)
        → s.limits group ≡ some (limit, window)
        → now < get_or (s.blocked_until group) now
        → Ends (wait (get_or (s.blocked_until group) now - now) s)
    through :
        (limit window : ℕ)
        → s.limits group ≡ some (limit, window)
        → NotBlocked
        → length (left window) < limit
        → Ends (granted (with_calls (left window ++ now ∷ [])))
    full :
        (limit window call : ℕ) (calls : List ℕ)
        → s.limits group ≡ some (limit, window)
        → NotBlocked
        → left window ≡ call ∷ calls
        → limit ≤ length (left window)
        → Ends (wait (call + window - now) (with_calls (left window)))
    no_calls :
        (window : ℕ)
        → s.limits group ≡ some (0, window)
        → NotBlocked
        → left window ≡ []
        → Ends (index_error (with_calls (left window)))

  full_Ends :
      (limit window : ℕ) (calls : List ℕ)
      → s.limits group ≡ some (limit, window)
      → NotBlocked
      → left window ≡ calls
      → limit ≤ length (left window)
      → Ends (window_wait window now (with_calls (left window)) calls)
  full_Ends limit window [] known free e more =
      let zero_limit : limit ≡ 0 = ground arith in
      no_calls window (subst (λ l. s.limits group ≡ some (l, window)) zero_limit known) free e
  full_Ends limit window (call ∷ calls) known free e more =
      full limit window call calls known free e more

  open_pass-Ends :
      (limit window : ℕ)
      → s.limits group ≡ some (limit, window)
      → NotBlocked
      → Ends (open_pass group limit window now s)
  unfolding open_pass
  open_pass-Ends limit window known free = elim (Bool-cases (ltb (length (left window)) limit)) [
    | inl room ↦
        subst
          (λ b. Ends (
            if b
            then granted (with_calls (left window ++ now ∷ []))
            else window_wait window now (with_calls (left window)) (left window)))
          (sym room) (through limit window known free (ground arith))
    | inr more ↦
        subst
          (λ b. Ends (
            if b
            then granted (with_calls (left window ++ now ∷ []))
            else window_wait window now (with_calls (left window)) (left window)))
          (sym more) (full_Ends limit window (left window) known free refl (ground arith))
  ]

  abbrev known_pass : ℕ → ℕ → Bool → Pass
  known_pass limit window is_blocked =
      if is_blocked
      then wait (get_or (s.blocked_until group) now - now) s
      else open_pass group limit window now s

  known-Ends :
      (limit window : ℕ)
      → s.limits group ≡ some (limit, window)
      → Ends (known_pass limit window (ltb now (get_or (s.blocked_until group) now)))
  known-Ends limit window known = elim (Bool-cases (ltb now (get_or (s.blocked_until group) now))) [
    | inl b ↦
        subst (λ x. Ends (known_pass limit window x)) (sym b)
          (blocked limit window known (ground arith))
    | inr b ↦
        subst (λ x. Ends (known_pass limit window x)) (sym b)
          (open_pass-Ends limit window known (ground arith))
  ]

  abbrev pass_of : Option (ℕ × ℕ) → Pass
  pass_of none = key_error
  pass_of (some (limit, window)) =
      known_pass limit window (ltb now (get_or (s.blocked_until group) now))

  pub pass-Ends : Ends (pass group now s)
  unfolding pass
  pass-Ends = elim (Option-cases (s.limits group)) [
    | inl absent ↦ subst (λ l. Ends (pass_of l)) (sym absent) (unknown absent)
    | inr ((limit, window), known) ↦
        subst (λ l. Ends (pass_of l)) (sym known) (known-Ends limit window known)
  ]
