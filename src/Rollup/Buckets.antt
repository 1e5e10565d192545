-- ===== src/Rollup/Buckets.antt =====
-- Every instant lies in the bucket that starts where rollup_bucket_start of aggregation.py says.
use goodmoneying.Prelude.{ℕ, inl, inr, ◌+◌, ◌-◌, ◌*◌, ◌/◌, ◌≤◌, ◌<◌, ◌≡◌, ap, ◌∙◌, arith}
use goodmoneying.Rollup.Calendar.{
  month_offset, month_days, month_offset_bound, month_offset_inside, month_days-month_offset,
}
use goodmoneying.Rollup.Calendar.Months.{
  lt_or_ge, month_offset-first, month_offset-later, month_offset-next,
}
use goodmoneying.Rollup.{
  RollupUnit, minutes_3, minutes_5, minutes_10, minutes_15, minutes_30, hour_1, hours_4, day_1,
  week_1, month_1, day, day_of, rollup_bucket_start, rollup_bucket_end,
}

abbrev pub IsInBucket : RollupUnit → ℕ → Type 0
IsInBucket unit at =
    (rollup_bucket_start unit at ≤ at) × (at < rollup_bucket_end unit (rollup_bucket_start unit at))

month_inside : (at : ℕ) → IsInBucket month_1 at
unfolding rollup_bucket_start rollup_bucket_end
month_inside at =
    let before = month_offset_bound (day_of at) in
    let inside = month_offset_inside (day_of at) in
    let first_day : (day_of at - month_offset (day_of at)) * day / day
        ≡ day_of at - month_offset (day_of at) =
      omega arith in
    let same : month_days (day_of ((day_of at - month_offset (day_of at)) * day))
        ≡ month_days (day_of at) =
      ap month_days first_day ∙ month_days-month_offset (day_of at) in
    omega (arith, before, inside, same)

-- Every instant is in the bucket that starts at its bucket's start.
pub rollup_bucket_start-IsInBucket : (unit : RollupUnit) (at : ℕ) → IsInBucket unit at
unfolding rollup_bucket_start rollup_bucket_end
rollup_bucket_start-IsInBucket minutes_3 at = omega arith
rollup_bucket_start-IsInBucket minutes_5 at = omega arith
rollup_bucket_start-IsInBucket minutes_10 at = omega arith
rollup_bucket_start-IsInBucket minutes_15 at = omega arith
rollup_bucket_start-IsInBucket minutes_30 at = omega arith
rollup_bucket_start-IsInBucket hour_1 at = omega arith
rollup_bucket_start-IsInBucket hours_4 at = omega arith
rollup_bucket_start-IsInBucket day_1 at = omega arith
rollup_bucket_start-IsInBucket week_1 at = omega arith
rollup_bucket_start-IsInBucket month_1 at = month_inside at

-- A bucket is not empty.
pub rollup_bucket_end-later : (unit : RollupUnit) (start : ℕ) → start < rollup_bucket_end unit start
unfolding rollup_bucket_end
rollup_bucket_end-later minutes_3 start = omega arith
rollup_bucket_end-later minutes_5 start = omega arith
rollup_bucket_end-later minutes_10 start = omega arith
rollup_bucket_end-later minutes_15 start = omega arith
rollup_bucket_end-later minutes_30 start = omega arith
rollup_bucket_end-later hour_1 start = omega arith
rollup_bucket_end-later hours_4 start = omega arith
rollup_bucket_end-later day_1 start = omega arith
rollup_bucket_end-later week_1 start = omega arith
rollup_bucket_end-later month_1 start = omega (arith, month_offset_inside (day_of start))

-- The instant is the start of a bucket.
abbrev pub IsStart : RollupUnit → ℕ → Type 0
IsStart unit at = rollup_bucket_start unit at ≡ at

month_bucket-IsStart : (at : ℕ) → IsStart month_1 (rollup_bucket_start month_1 at)
unfolding rollup_bucket_start
month_bucket-IsStart at =
    let first : (day_of at - month_offset (day_of at)) * day / day
        ≡ day_of at - month_offset (day_of at) =
      omega arith in
    omega (arith, ap month_offset first ∙ month_offset-first (day_of at))

-- The start of a month is a midnight, and that of its first day.
month_midnight :
    (at : ℕ) → IsStart month_1 at → (at ≡ day_of at * day) × (month_offset (day_of at) ≡ 0)
unfolding rollup_bucket_start
month_midnight at s = (omega (arith, s), omega (arith, s, month_offset_bound (day_of at)))

midnight-IsStart :
    (at : ℕ) → at ≡ day_of at * day → month_offset (day_of at) ≡ 0 → IsStart month_1 at
unfolding rollup_bucket_start
midnight-IsStart at midnight first = omega (arith, midnight, first)

month_end-IsStart : (at : ℕ) → IsStart month_1 at → IsStart month_1 (rollup_bucket_end month_1 at)
unfolding rollup_bucket_end
month_end-IsStart at s =
    let (midnight, first) = month_midnight at s in
    let days = month_days (day_of at) in
    let end : (at + days * day) / day ≡ day_of at + days = omega (arith, midnight) in
    midnight-IsStart (at + days * day) (omega (arith, midnight))
      (ap month_offset end ∙ month_offset-next (day_of at) days (omega (arith, first)))

next_month :
    (a b : ℕ) → IsStart month_1 a → IsStart month_1 b → a < b → rollup_bucket_end month_1 a ≤ b
unfolding rollup_bucket_end
next_month a b s k less =
    let (midnight, first) = month_midnight a s in
    let (midnight', first') = month_midnight b k in
    let apart = day_of b - day_of a in
    let after : day_of a + apart ≡ day_of b = omega (arith, midnight, midnight', less) in
    elim (lt_or_ge apart (month_days (day_of a))) [
      | inl within ↦
          let same_month = month_offset-later (day_of a) apart (omega (arith, first, within)) in
          absurd (
            omega
              (arith, same_month, first, ap month_offset after, first', midnight, midnight', less))
      | inr beyond ↦ omega (arith, beyond, after, midnight, midnight')
    ]

pub rollup_bucket_start-IsStart :
    (unit : RollupUnit) (at : ℕ) → IsStart unit (rollup_bucket_start unit at)
unfolding rollup_bucket_start
rollup_bucket_start-IsStart minutes_3 at = omega arith
rollup_bucket_start-IsStart minutes_5 at = omega arith
rollup_bucket_start-IsStart minutes_10 at = omega arith
rollup_bucket_start-IsStart minutes_15 at = omega arith
rollup_bucket_start-IsStart minutes_30 at = omega arith
rollup_bucket_start-IsStart hour_1 at = omega arith
rollup_bucket_start-IsStart hours_4 at = omega arith
rollup_bucket_start-IsStart day_1 at = omega arith
rollup_bucket_start-IsStart week_1 at = omega arith
rollup_bucket_start-IsStart month_1 at = month_bucket-IsStart at

pub rollup_bucket_end-IsStart :
    (unit : RollupUnit) (at : ℕ) → IsStart unit at → IsStart unit (rollup_bucket_end unit at)
unfolding rollup_bucket_start rollup_bucket_end
rollup_bucket_end-IsStart minutes_3 at s = omega arith
rollup_bucket_end-IsStart minutes_5 at s = omega arith
rollup_bucket_end-IsStart minutes_10 at s = omega arith
rollup_bucket_end-IsStart minutes_15 at s = omega arith
rollup_bucket_end-IsStart minutes_30 at s = omega arith
rollup_bucket_end-IsStart hour_1 at s = omega arith
rollup_bucket_end-IsStart hours_4 at s = omega arith
rollup_bucket_end-IsStart day_1 at s = omega arith
rollup_bucket_end-IsStart week_1 at s = omega arith
rollup_bucket_end-IsStart month_1 at s = month_end-IsStart at s

-- Two buckets do not overlap.
pub next_start :
    (unit : RollupUnit) (a b : ℕ)
    → IsStart unit a
    → IsStart unit b
    → a < b
    → rollup_bucket_end unit a ≤ b
unfolding rollup_bucket_start rollup_bucket_end
next_start minutes_3 a b s k less = omega arith
next_start minutes_5 a b s k less = omega arith
next_start minutes_10 a b s k less = omega arith
next_start minutes_15 a b s k less = omega arith
next_start minutes_30 a b s k less = omega arith
next_start hour_1 a b s k less = omega arith
next_start hours_4 a b s k less = omega arith
next_start day_1 a b s k less = omega arith
next_start week_1 a b s k less = omega arith
next_start month_1 a b s k less = next_month a b s k less
