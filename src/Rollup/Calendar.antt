-- ===== src/Rollup/Calendar.antt =====
-- The Gregorian calendar of Python's `datetime`. Days are counted from 0001-01-01; a year is the
-- number of years before it, and a month the number of months before it in its year.
pub mod Months
use Prim.Native.Nat.{compare, Ordering}
use mathlib.Core.Path.{subst}
use goodmoneying.Prelude.{
  ℕ, zero, suc, ◌+◌, ◌-◌, ◌%◌, ◌≤◌, ◌<◌, ◌≡◌, sym, ap, ◌∙◌, inl, inr, Bool, true, false, not, ◌&&◌,
  ◌||◌, ltb, ◌==◌, if◌then◌else◌, Bool-cases, arith,
}

abbrev pub is_leap : ℕ → Bool
is_leap year = (year % 4 == 0) && (not (year % 100 == 0) || (year % 400 == 0))

abbrev pub year_length : ℕ → ℕ
year_length years = if is_leap (years + 1) then 366 else 365

abbrev is_short : ℕ → Bool
is_short month = (month == 3) || (month == 5) || (month == 8) || (month == 10)

abbrev pub month_length : ℕ → ℕ → ℕ
month_length years month =
    if month == 1
    then (if is_leap (years + 1) then 29 else 28)
    else if is_short month
    then 30
    else 31

-- A place in a sequence of spans: which span, and how far into it.
pub record Place : Type 0 where
  pub index : ℕ
  pub offset : ℕ

-- The place of `d` from the span `index` on, on fuel: more than `d` is always enough.
unfoldable pub walk : (ℕ → ℕ) → ℕ → ℕ → ℕ → Place
walk length zero index d = record { index = index; offset = d }
walk length (suc fuel) index d = elim (compare d (length index)) [
  | Ordering.lt ↦ record { index = index; offset = d }
  | _ ↦ walk length fuel (suc index) (d - length index)
]

abbrev pub year_at : ℕ → Place
year_at day = walk year_length (day + 1) 0 day

-- The month of a place in the years.
abbrev pub month_of : Place → Place
month_of year = walk (month_length year.index) (year.offset + 1) 0 year.offset

abbrev pub month_at : ℕ → Place
month_at day = month_of (year_at day)

-- The days of the month before a day, and of the whole month.
unfoldable pub month_offset : ℕ → ℕ
unfolding walk
month_offset day = (month_at day).offset

unfoldable pub month_days : ℕ → ℕ
unfolding walk
month_days day = month_length (year_at day).index (month_at day).index

module _ (length : ℕ → ℕ) (positive : (i : ℕ) → 0 < length i) where
  pub walk-offset : (fuel index d : ℕ) → (walk length fuel index d).offset ≤ d
  unfolding walk
  walk-offset zero index d = omega arith
  walk-offset (suc fuel) index d = ground (arith, walk-offset fuel (suc index) (d - length index))

  pub walk_inside :
      (fuel index d : ℕ)
      → d < fuel
      → (walk length fuel index d).offset < length (walk length fuel index d).index
  unfolding walk
  walk_inside zero index d less = absurd (omega (arith, less))
  walk_inside (suc fuel) index d less =
      ground (arith, less, positive index, walk_inside fuel (suc index) (d - length index))

  pub walk_here :
      (fuel index d : ℕ)
      → d < length index
      → walk length (suc fuel) index d ≡ record { index = index; offset = d }
  unfolding walk
  walk_here fuel index d less = ground (arith, less)

  pub walk_next :
      (fuel index d : ℕ)
      → length index ≤ d
      → walk length (suc fuel) index d ≡ walk length fuel (suc index) (d - length index)
  unfolding walk
  walk_next fuel index d le = ground (arith, le)

  abbrev back_by : ℕ → Place → Place
  back_by k place = record place { offset = place.offset - k }

  -- An earlier number in the same span.
  walk_back :
      (fuel less_fuel index d k : ℕ)
      → d < fuel
      → d - k < less_fuel
      → k ≤ (walk length fuel index d).offset
      → walk length less_fuel index (d - k) ≡ back_by k (walk length fuel index d)
  walk_back zero less_fuel index d k h h' le = absurd (omega (arith, h))
  walk_back (suc fuel) zero index d k h h' le = absurd (omega (arith, h'))
  walk_back (suc fuel) (suc less_fuel) index d k h h' le =
      elim (Bool-cases (ltb d (length index))) [
        | inl inside ↦
            walk_here less_fuel index (d - k) (ground arith)
            ∙ sym (ap (back_by k) (walk_here fuel index d (ground arith)))
        | inr outside ↦
            let beyond : length index ≤ d = ground arith in
            let rest = d - length index in
            let next = walk_next fuel index d beyond in
            let inner : k ≤ (walk length fuel (suc index) rest).offset =
              subst (λ p. k ≤ p.offset) next le in
            let room : k ≤ rest = omega (arith, inner, walk-offset fuel (suc index) rest) in
            let swap : d - k - length index ≡ rest - k = omega arith in
            walk_next less_fuel index (d - k) (omega (arith, room, beyond))
            ∙ ap (walk length less_fuel (suc index)) swap
            ∙ walk_back fuel less_fuel (suc index) rest k (omega (arith, h, beyond, positive index))
                (omega (arith, h', positive index, room, beyond)) inner
            ∙ sym (ap (back_by k) next)
      ]

positive_if : (b : Bool) (x y : ℕ) → 0 < x → 0 < y → 0 < (if b then x else y)
positive_if true x y h k = h
positive_if false x y h k = k

pub year_length_positive : (years : ℕ) → 0 < year_length years
year_length_positive years = positive_if (is_leap (years + 1)) 366 365 (omega arith) (omega arith)

pub month_length_positive : (years month : ℕ) → 0 < month_length years month
month_length_positive years month =
    positive_if (month == 1) _ _
      (positive_if (is_leap (years + 1)) 29 28 (omega arith) (omega arith))
      (positive_if (is_short month) 30 31 (omega arith) (omega arith))

pub month_offset_bound : (day : ℕ) → month_offset day ≤ day
unfolding month_offset
month_offset_bound day = omega (
  arith,
  walk-offset (month_length (year_at day).index) (month_length_positive (year_at day).index)
      ((year_at day).offset + 1) 0 (year_at day).offset,
  walk-offset year_length year_length_positive (day + 1) 0 day,
)

pub month_offset_inside : (day : ℕ) → month_offset day < month_days day
unfolding month_offset month_days
month_offset_inside day =
    walk_inside (month_length (year_at day).index) (month_length_positive (year_at day).index)
      ((year_at day).offset + 1) 0 (year_at day).offset (omega arith)

-- The first day of a month has the same month.
pub month_days-month_offset : (day : ℕ) → month_days (day - month_offset day) ≡ month_days day
unfolding month_offset month_days
month_days-month_offset day =
    let year = year_at day in
    let offset = (month_of year).offset in
    let lengths = month_length year.index in
    let in_year : offset ≤ year.offset =
      walk-offset lengths (month_length_positive year.index) (year.offset + 1) 0 year.offset in
    let same_year : year_at (day - offset) ≡ back_by year_length year_length_positive offset year =
      walk_back year_length year_length_positive (day + 1) (day - offset + 1) 0 day offset
        (omega arith) (omega arith) in_year in
    let same_month : walk lengths (year.offset - offset + 1) 0 (year.offset - offset)
        ≡ back_by lengths (month_length_positive year.index) offset (month_of year) =
      walk_back lengths (month_length_positive year.index) (year.offset + 1)
        (year.offset - offset + 1) 0 year.offset offset (omega arith) (omega arith) (omega arith) in
    ap (λ y. month_length y.index (month_of y).index) same_year
    ∙ ap (λ m. month_length year.index m.index) same_month
