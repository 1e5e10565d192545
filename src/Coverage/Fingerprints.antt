-- ===== src/Coverage/Fingerprints.antt =====
-- A text that tells the ranges of recomputations apart, in place of the SHA-256 of coverage_transition.py, for the
-- tests.
use Prim.Native.Char.{code}
use Prim.Native.String.{String}
use goodmoneying.Prelude.{ℕ, zero, suc, ◌≡◌, refl, sym, ap, ◌∙◌, ◌==◌, if◌then◌else◌}
use goodmoneying.Rollup.{
  RollupUnit, minutes_3, minutes_5, minutes_10, minutes_15, minutes_30, hour_1, hours_4, day_1,
  week_1, month_1,
}
use goodmoneying.Coverage.Recompute.{RecomputeKey}
use goodmoneying.Coverage.Recompute.Rows.{IsSameRange}

-- A number in strokes, and what follows.
abbrev strokes : ℕ → String → String
strokes zero s = String.◌∷◌ "." s
strokes (suc n) s = String.◌∷◌ "|" (strokes n s)

abbrev number_of : String → ℕ
number_of String.[] = 0
number_of (String.◌∷◌ c s) = if code c == 46 then 0 else suc (number_of s)

abbrev rest_of : String → String
rest_of String.[] = String.[]
rest_of (String.◌∷◌ c s) = if code c == 46 then s else rest_of s

number_of-strokes : (n : ℕ) (s : String) → number_of (strokes n s) ≡ n
number_of-strokes zero s = refl
number_of-strokes (suc n) s = ap suc (number_of-strokes n s)

rest_of-strokes : (n : ℕ) (s : String) → rest_of (strokes n s) ≡ s
rest_of-strokes zero s = refl
rest_of-strokes (suc n) s = rest_of-strokes n s

strokes-injective : (m n : ℕ) (s t : String) → strokes m s ≡ strokes n t → (m ≡ n) × (s ≡ t)
strokes-injective m n s t h = (
  sym (number_of-strokes m s) ∙ ap number_of h ∙ number_of-strokes n t,
  sym (rest_of-strokes m s) ∙ ap rest_of h ∙ rest_of-strokes n t,
)

abbrev unit_number : RollupUnit → ℕ
unit_number minutes_3 = 0
unit_number minutes_5 = 1
unit_number minutes_10 = 2
unit_number minutes_15 = 3
unit_number minutes_30 = 4
unit_number hour_1 = 5
unit_number hours_4 = 6
unit_number day_1 = 7
unit_number week_1 = 8
unit_number month_1 = 9

abbrev unit_numbered : ℕ → RollupUnit
unit_numbered n =
    if n == 0
    then minutes_3
    else if n == 1
    then minutes_5
    else if n == 2
    then minutes_10
    else if n == 3
    then minutes_15
    else if n == 4
    then minutes_30
    else if n == 5
    then hour_1
    else if n == 6
    then hours_4
    else if n == 7
    then day_1
    else if n == 8
    then week_1
    else month_1

unit_numbered-unit_number : (unit : RollupUnit) → unit_numbered (unit_number unit) ≡ unit
unit_numbered-unit_number minutes_3 = refl
unit_numbered-unit_number minutes_5 = refl
unit_numbered-unit_number minutes_10 = refl
unit_numbered-unit_number minutes_15 = refl
unit_numbered-unit_number minutes_30 = refl
unit_numbered-unit_number hour_1 = refl
unit_numbered-unit_number hours_4 = refl
unit_numbered-unit_number day_1 = refl
unit_numbered-unit_number week_1 = refl
unit_numbered-unit_number month_1 = refl

unfoldable pub range_text : RecomputeKey → String
range_text k =
    strokes (unit_number k.unit)
      (strokes k.instrument_id (strokes k.start_at (strokes k.end_at String.[])))

pub range_text-separates : (a b : RecomputeKey) → range_text a ≡ range_text b → IsSameRange a b
unfolding range_text
range_text-separates a b h =
    let (unit, h1) = strokes-injective (unit_number a.unit) (unit_number b.unit) _ _ h in
    let (instrument, h2) = strokes-injective a.instrument_id b.instrument_id _ _ h1 in
    let (from, h3) = strokes-injective a.start_at b.start_at _ _ h2 in
    let (to, _) = strokes-injective a.end_at b.end_at _ _ h3 in
    (
      instrument,
      sym (unit_numbered-unit_number a.unit)
          ∙ ap unit_numbered unit
          ∙ unit_numbered-unit_number b.unit,
      from,
      to,
    )
