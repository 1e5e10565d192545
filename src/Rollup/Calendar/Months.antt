-- ===== src/Rollup/Calendar/Months.antt =====
-- The months of `datetime`, one after the other: where the days of a month are, and where the next one begins.
use goodmoneying.Prelude.{
  ℕ, zero, suc, ◌+◌, ◌-◌, ◌≤◌, ◌<◌, ◌≡◌, ◌≢◌, ◌⊎◌, refl, ap, ◌∙◌, inl, inr, ltb, Bool-cases, arith,
}
use goodmoneying.Rollup.Calendar.{
  walk, walk_inside, walk_here, walk_next, is_leap, year_length, month_length, year_at, month_of,
  month_at, month_offset, month_days, year_length_positive, month_length_positive,
}

pub lt_or_ge : (a b : ℕ) → (a < b) ⊎ (b ≤ a)
lt_or_ge a b = elim (Bool-cases (ltb a b)) [
  | inl less ↦ inl (ground (arith, less))
  | inr more ↦ inr (ground (arith, more))
]

-- The days of the spans before one.
abbrev before : (ℕ → ℕ) → ℕ → ℕ
before length zero = 0
before length (suc n) = before length n + length n

before_mono : (length : ℕ → ℕ) (a b : ℕ) → a ≤ b → before length a ≤ before length b
before_mono length a zero le = let same : a ≡ zero = omega (arith, le) in rw same (omega arith)
before_mono length a (suc b) le = elim (Bool-cases (ltb b a)) [
  | inl last ↦ let same : a ≡ suc b = ground (arith, last, le) in rw same (omega arith)
  | inr earlier ↦ omega (arith, before_mono length a b (ground (arith, earlier)))
]

-- A place is its span's first day and an offset.
walk_lem :
    (length : ℕ → ℕ) (fuel index d : ℕ)
    → before length (walk length fuel index d).index + (walk length fuel index d).offset
      ≡ before length index + d
unfolding walk
walk_lem length zero index d = refl
walk_lem length (suc fuel) index d =
    ground (arith, walk_lem length fuel (suc index) (d - length index))

-- A span that starts by a day is not a later one.
not_later :
    (length : ℕ → ℕ) (index d i : ℕ)
    → index ≤ i
    → before length i ≤ before length index + d
    → d < length index
    → index ≡ i
not_later length index d i le starts inside = elim (Bool-cases (ltb index i)) [
  | inl later ↦
      let far = before_mono length (suc index) i (ground (arith, later)) in
      absurd (omega (arith, far, starts, inside))
  | inr same ↦ ground (arith, le, same)
]

-- The other way: a span's first day and an offset in it are one place only.
walk_unique :
    (length : ℕ → ℕ) (positive : (i : ℕ) → 0 < length i) (fuel index d i o : ℕ)
    → d < fuel
    → index ≤ i
    → before length i + o ≡ before length index + d
    → o < length i
    → walk length fuel index d ≡ record { index = i; offset = o }
walk_unique length positive zero index d i o h le e inside = absurd (omega (arith, h))
walk_unique length positive (suc fuel) index d i o h le e inside =
    elim (Bool-cases (ltb d (length index))) [
      | inl here ↦
          let less : d < length index = ground (arith, here) in
          let same : index ≡ i = not_later length index d i le (omega (arith, e)) less in
          let offsets : d ≡ o = omega (arith, e, ap (before length) same) in
          walk_here length positive fuel index d less ∙ cc
      | inr beyond ↦
          let far : length index ≤ d = ground (arith, beyond) in
          let not_here : index ≢ i =
            λ same. omega (arith, e, inside, far, ap (before length) same, ap length same) in
          walk_next length positive fuel index d far
          ∙ walk_unique length positive fuel (suc index) (d - length index) i o
              (omega (arith, h, far, positive index)) (omega (arith, le, not_here))
              (omega (arith, e, far)) inside
    ]

twelve_months : (y : ℕ) → before (month_length y) 12 ≡ year_length y
twelve_months y = elim (Bool-cases (is_leap (y + 1))) [
  | inl leap ↦ rw leap refl
  | inr common ↦ rw common refl
]

-- A day is so many days into a month of a year.
record IsAt (day y m o : ℕ) : Type 0 where
  in_year : m < 12
  in_month : o < month_length y m
  days : day ≡ before year_length y + (before (month_length y) m + o)

abbrev year_of : ℕ → ℕ
year_of day = (year_at day).index

month_at-IsAt : (day : ℕ) → IsAt day (year_of day) (month_at day).index (month_offset day)
unfolding month_offset
month_at-IsAt day =
    let y = year_of day in
    let into = (year_at day).offset in
    let of_year = walk_lem year_length (day + 1) 0 day in
    let of_month = walk_lem (month_length y) (into + 1) 0 into in
    let inside : into < year_length y =
      walk_inside year_length year_length_positive (day + 1) 0 day (omega arith) in
    record {
      in_year = elim (lt_or_ge (month_at day).index 12) [
        | inl less ↦ less
        | inr not_less ↦
            let far = before_mono (month_length y) 12 (month_at day).index not_less in
            absurd (omega (arith, far, of_month, inside, twelve_months y))
      ];
      in_month =
          walk_inside (month_length y) (month_length_positive y) (into + 1) 0 into (omega arith);
      days = omega (arith, of_year, of_month);
    }

IsAt-eq :
    (day y m o : ℕ)
    → IsAt day y m o
    → (year_of day ≡ y) × (month_at day ≡ record { index = m; offset = o })
IsAt-eq day y m o h =
    let into = before (month_length y) m + o in
    let next = before_mono (month_length y) (suc m) 12 (omega (arith, h.in_year)) in
    let year : year_at day ≡ record { index = y; offset = into } =
      walk_unique year_length year_length_positive (day + 1) 0 day y into (omega arith)
        (omega arith) (omega (arith, h.days)) (omega (arith, next, h.in_month, twelve_months y)) in
    (
      ap (λ p. p.index) year,
      ap month_of year
          ∙ walk_unique (month_length y) (month_length_positive y) (into + 1) 0 into m o
              (omega arith) (omega arith) (omega arith) h.in_month,
    )

IsAt-month_offset : (day y m o : ℕ) → IsAt day y m o → month_offset day ≡ o
unfolding month_offset
IsAt-month_offset day y m o h = ap (λ p. p.offset) (IsAt-eq day y m o h).1

-- The first day of a month is its first.
pub month_offset-first : (day : ℕ) → month_offset (day - month_offset day) ≡ 0
month_offset-first day =
    let here = month_at-IsAt day in
    IsAt-month_offset (day - month_offset day) (year_of day) (month_at day).index 0 (record {
      in_year = here.in_year;
      in_month = omega (arith, here.in_month);
      days = omega (arith, here.days);
    })

-- Within a month its days follow one another.
pub month_offset-later :
    (day k : ℕ)
    → month_offset day + k < month_days day
    → month_offset (day + k) ≡ month_offset day + k
unfolding month_days
month_offset-later day k inside =
    let here = month_at-IsAt day in
    IsAt-month_offset (day + k) (year_of day) (month_at day).index (month_offset day + k)
      (record { in_year = here.in_year; in_month = inside; days = omega (arith, here.days) })

-- Behind the last day of a month begins the next.
pub month_offset-next :
    (day k : ℕ) → month_offset day + k ≡ month_days day → month_offset (day + k) ≡ 0
unfolding month_days
month_offset-next day k ends =
    let here = month_at-IsAt day in
    let y = year_of day in
    let m = (month_at day).index in
    elim (lt_or_ge m 11) [
      | inl more ↦ IsAt-month_offset (day + k) y (suc m) 0 (record {
        in_year = omega (arith, more);
        in_month = month_length_positive y (suc m);
        days = omega (arith, here.days, ends);
      })
      | inr last ↦
          let december : m ≡ 11 = omega (arith, last, here.in_year) in
          let whole : before (month_length y) (suc m) ≡ year_length y =
            ap (λ n. before (month_length y) (suc n)) december ∙ twelve_months y in
          IsAt-month_offset (day + k) (suc y) 0 0 (record {
            in_year = omega arith;
            in_month = month_length_positive (suc y) 0;
            days = omega (arith, here.days, ends, whole);
          })
    ]
