-- ===== src/Coverage/Gaps.antt =====
-- internal_minute_candle_gaps of data_foundation.py. Instants are in UTC by their type, so the errors
-- about zones do not occur.
use mathlib.Core.Path.{subst}
use goodmoneying.Prelude.{
  Bool-cases, inl, inr, ==_iff, ℕ, ◌+◌, ◌≤◌, ◌<◌, ◌≡◌, refl, sym, ap, ◌∙◌, Bool, true, false, not,
  ◌&&◌, ◌||◌, List, [], ◌∷◌, any, keep, ltb, leb, ◌==◌, if◌then◌else◌, All, arith,
}
use goodmoneying.Prelude.Results.{Result, ok, ◌>>◌, raise_if}
use goodmoneying.Prelude.Sort.{sort_by, any-sort_by, IsSorted, sort_by-IsSorted}

pub data GapError : Type 0 where
  end_not_after_start : GapError

abbrev pub minute : ℕ
minute = 60000000

abbrev pub is_bounded : ℕ → ℕ → ℕ → Bool
is_bounded requested_start_at requested_end_at started_at =
    leb requested_start_at started_at && ltb started_at requested_end_at

-- A set made from a list: each value once.
unfoldable pub distinct : List ℕ → List ℕ
distinct [] = []
distinct (x ∷ xs) = let rest = distinct xs in if any (λ y. x == y) xs then rest else x ∷ rest

-- The loop over the pairs of neighbours.
unfoldable pub gaps_between : List ℕ → List (ℕ × ℕ)
gaps_between [] = []
gaps_between (previous ∷ []) = []
gaps_between (previous ∷ following ∷ starts) =
    let rest = gaps_between (following ∷ starts) in
    if ltb (previous + minute) following then (previous + minute, following) ∷ rest else rest

abbrev pub bounded_starts : ℕ → ℕ → List ℕ → List ℕ
bounded_starts requested_start_at requested_end_at candle_starts =
    sort_by (λ at. at)
      (distinct (keep (is_bounded requested_start_at requested_end_at) candle_starts))

unfoldable pub internal_minute_candle_gaps : ℕ → ℕ → List ℕ → Result GapError (List (ℕ × ℕ))
unfolding gaps_between distinct
internal_minute_candle_gaps requested_start_at requested_end_at candle_starts = do
  raise_if (leb requested_end_at requested_start_at) end_not_after_start
  ok (gaps_between (bounded_starts requested_start_at requested_end_at candle_starts))

-- The instant is in a gap; and how it lies to a candle.
abbrev pub in_gap : ℕ → ℕ × ℕ → Bool
in_gap t (start_at, end_at) = leb start_at t && ltb t end_at

abbrev pub begins_by : ℕ → ℕ → Bool
begins_by t candle = leb candle t

abbrev pub begins_after : ℕ → ℕ → Bool
begins_after t candle = ltb t candle

abbrev pub is_in_candle : ℕ → ℕ → Bool
is_in_candle t candle = leb candle t && ltb t (candle + minute)

-- There are candles before and behind the instant, and none has it.
abbrev pub is_internal_gap : ℕ → List ℕ → Bool
is_internal_gap t candles =
    any (begins_by t) candles && any (begins_after t) candles && not (any (is_in_candle t) candles)

any_of_equal :
    (p : ℕ → Bool) (x : ℕ) (xs : List ℕ)
    → any (λ y. x == y) xs ≡ true
    → any p xs ≡ (p x || any p xs)
any_of_equal p x [] h = cc
any_of_equal p x (y ∷ xs) h = elim (Bool-cases (x == y)) [
  | inl same ↦
      subst (λ z. (p y || any p xs) ≡ (p z || (p y || any p xs))) (sym ((==_iff x y).0 same))
        (ground arith)
  | inr other ↦ ground (arith, any_of_equal p x xs (ground (arith, h, other)))
]

any-distinct : (p : ℕ → Bool) (xs : List ℕ) → any p (distinct xs) ≡ any p xs
unfolding distinct
any-distinct p [] = refl
any-distinct p (x ∷ xs) = ground (arith, any-distinct p xs, any_of_equal p x xs)

module _ (t : ℕ) where
  none_by :
      (f : ℕ) (xs : List ℕ)
      → All (λ y. f ≤ y) xs
      → t < f
      → (any (begins_by t) xs ≡ false) × (any (is_in_candle t) xs ≡ false)
  none_by f [] h less = (refl, refl)
  none_by f (x ∷ xs) h less = ground (arith, none_by f xs h.1 less)

  any_if :
      (b : Bool) (gap : ℕ × ℕ) (gaps : List (ℕ × ℕ))
      → any (in_gap t) (if b then gap ∷ gaps else gaps)
        ≡ ((b && in_gap t gap) || any (in_gap t) gaps)
  any_if true gap gaps = refl
  any_if false gap gaps = refl

  -- One more candle in front, `length` being a candle's; `by`, `after` and `inside` are about the rest.
  gap_step :
      (length p f : ℕ) (by after inside : Bool)
      → p ≤ f
      → (t < f → (by ≡ false) × (inside ≡ false))
      → ((ltb (p + length) f && (leb (p + length) t && ltb t f))
          || ((leb f t || by)
              && (ltb t f || after)
              && not ((leb f t && ltb t (f + length)) || inside)))
        ≡ ((leb p t || (leb f t || by))
            && (ltb t p || (ltb t f || after))
            && not ((leb p t && ltb t (p + length)) || ((leb f t && ltb t (f + length)) || inside)))
  gap_step length p f true after inside le h = ground (arith, le, h)
  gap_step length p f false after inside le h = ground (arith, le, h)

  any-gaps_between :
      (starts : List ℕ)
      → IsSorted (λ at. at) starts
      → any (in_gap t) (gaps_between starts) ≡ is_internal_gap t starts
  unfolding gaps_between
  any-gaps_between [] h = refl
  any-gaps_between (p ∷ []) h = ground arith
  any-gaps_between (p ∷ f ∷ starts) h =
      any_if (ltb (p + minute) f) (p + minute, f) (gaps_between (f ∷ starts))
      ∙ ap (λ b. (ltb (p + minute) f && in_gap t (p + minute, f)) || b)
          (any-gaps_between (f ∷ starts) h.1)
      ∙ gap_step minute p f (any (begins_by t) starts) (any (begins_after t) starts)
          (any (is_in_candle t) starts) h.0.0 (none_by f starts h.1.0)

any-bounded_starts :
    (p : ℕ → Bool) (a b : ℕ) (candles : List ℕ)
    → any p (bounded_starts a b candles) ≡ any p (keep (is_bounded a b) candles)
any-bounded_starts p a b candles =
    any-sort_by (λ at. at) p (distinct (keep (is_bounded a b) candles))
    ∙ any-distinct p (keep (is_bounded a b) candles)

-- For a non-empty request the result has an instant in a gap exactly if candles of the request begin
-- by the instant and after it, and none of them has it.
pub internal_minute_candle_gaps-internal :
    (requested_start_at requested_end_at : ℕ) (candle_starts : List ℕ)
    → requested_start_at < requested_end_at
    → (gaps : List (ℕ × ℕ)) × (internal_minute_candle_gaps requested_start_at requested_end_at
          candle_starts
        ≡ ok gaps)
      × ((t : ℕ)
          → any (in_gap t) gaps
            ≡ is_internal_gap t
                (keep (is_bounded requested_start_at requested_end_at) candle_starts))
unfolding internal_minute_candle_gaps
internal_minute_candle_gaps-internal a b candles less =
    let starts = bounded_starts a b candles in
    (
      gaps_between starts,
      ground (arith, less),
      (λ t.
          any-gaps_between t starts
            (sort_by-IsSorted (λ at. at) (distinct (keep (is_bounded a b) candles)))
          ∙ ap (λ x. x && any (begins_after t) starts && not (any (is_in_candle t) starts))
              (any-bounded_starts (begins_by t) a b candles)
          ∙ ap
              (λ x.
                any (begins_by t) (keep (is_bounded a b) candles)
                && x
                && not (any (is_in_candle t) starts))
              (any-bounded_starts (begins_after t) a b candles)
          ∙ ap
              (λ x.
                any (begins_by t) (keep (is_bounded a b) candles)
                && any (begins_after t) (keep (is_bounded a b) candles)
                && not x)
              (any-bounded_starts (is_in_candle t) a b candles)),
    )
