-- ===== src/Rollup.antt =====
-- Derived candles, and which of them a change of the sources touches: rollup_bucket_start of aggregation.py,
-- rollup_bucket_end and affected_rollup_ranges_for_interval of incremental_aggregation.py, both in
-- packages/shared/goodmoneying_shared. An instant is a number of microseconds since 0001-01-01 in UTC,
-- and a unit one that is materialized, so the errors about zones and units do not occur; instants
-- after the year 9999 are not excluded. Candles, Aggregate and Derive have aggregate_candles of
-- aggregation.py, Scattered has affected_rollup_ranges of incremental_aggregation.py.
pub mod Calendar
pub mod Buckets
pub mod Candles
pub mod Aggregate
pub mod Derive
pub mod Partition
pub mod Scattered
pub mod Covered
pub mod Ohlc
pub mod Ranges
pub mod Inside
mod Tests
use goodmoneying.Prelude.{
  ℕ, zero, suc, ◌+◌, ◌-◌, ◌*◌, ◌/◌, ◌%◌, Bool, List, [], ◌∷◌, ◌++◌, ltb, leb, ◌&&◌, if◌then◌else◌,
}
use goodmoneying.Rollup.Calendar.{month_offset, month_days}

pub data RollupUnit : Type 0 where
  minutes_3 minutes_5 minutes_10 minutes_15 minutes_30 hour_1 hours_4 day_1 week_1 month_1 :
      RollupUnit

-- MATERIALIZED_AGGREGATION_UNITS
abbrev pub materialized_units : List RollupUnit
materialized_units =
    minutes_3 ∷ minutes_5 ∷ minutes_10 ∷ minutes_15 ∷ minutes_30 ∷ hour_1 ∷ hours_4 ∷ day_1 ∷ week_1
    ∷ month_1 ∷ []

abbrev pub minute : ℕ
minute = 60000000

abbrev pub hour : ℕ
hour = 3600000000

abbrev pub day : ℕ
day = 86400000000

-- `source_at.minute`, `.hour`, and the number of its day; 0001-01-01 was a Monday.
abbrev pub minute_of : ℕ → ℕ
minute_of at = at / minute % 60

abbrev pub hour_of : ℕ → ℕ
hour_of at = at / hour % 24

abbrev pub day_of : ℕ → ℕ
day_of at = at / day

abbrev pub weekday : ℕ → ℕ
weekday at = day_of at % 7

-- `source_at.replace(minute=minute - minute % length, second=0, microsecond=0)`
abbrev pub minutes_start : ℕ → ℕ → ℕ
minutes_start length at = at / hour * hour + (minute_of at - minute_of at % length) * minute

unfoldable pub rollup_bucket_start : RollupUnit → ℕ → ℕ
unfolding month_offset
rollup_bucket_start minutes_3 at = minutes_start 3 at
rollup_bucket_start minutes_5 at = minutes_start 5 at
rollup_bucket_start minutes_10 at = minutes_start 10 at
rollup_bucket_start minutes_15 at = minutes_start 15 at
rollup_bucket_start minutes_30 at = minutes_start 30 at
rollup_bucket_start hour_1 at = minutes_start 60 at
rollup_bucket_start hours_4 at = day_of at * day + (hour_of at - hour_of at % 4) * hour
rollup_bucket_start day_1 at = day_of at * day
rollup_bucket_start week_1 at = (day_of at - weekday at) * day
rollup_bucket_start month_1 at = (day_of at - month_offset (day_of at)) * day

-- `durations`; the next month begins as many days later as the month has, since buckets start on a
-- month's first day.
unfoldable pub rollup_bucket_end : RollupUnit → ℕ → ℕ
unfolding month_days
rollup_bucket_end minutes_3 start = start + 3 * minute
rollup_bucket_end minutes_5 start = start + 5 * minute
rollup_bucket_end minutes_10 start = start + 10 * minute
rollup_bucket_end minutes_15 start = start + 15 * minute
rollup_bucket_end minutes_30 start = start + 30 * minute
rollup_bucket_end hour_1 start = start + hour
rollup_bucket_end hours_4 start = start + 4 * hour
rollup_bucket_end day_1 start = start + day
rollup_bucket_end week_1 start = start + 7 * day
rollup_bucket_end month_1 start = start + month_days (day_of start) * day

pub record RollupInvalidationRange : Type 0 where
  pub candle_unit : RollupUnit
  pub start_at : ℕ
  pub end_at : ℕ
  pub output_bucket_count : ℕ

abbrev pub max_output_buckets_per_job : ℕ
max_output_buckets_per_job = 512

-- The inner loop, with at most `room` buckets to go: where it ends, and how many it counted.
unfoldable pub fill_group : RollupUnit → ℕ → ℕ → ℕ → ℕ → ℕ × ℕ
unfolding rollup_bucket_end
fill_group unit last zero current count = (current, count)
fill_group unit last (suc room) current count =
    let rest = fill_group unit last room (rollup_bucket_end unit current) (count + 1) in
    if leb current last then rest else (current, count)

unfoldable pub next_group : RollupUnit → ℕ → ℕ → ℕ × ℕ
unfolding fill_group
next_group unit last current = fill_group unit last max_output_buckets_per_job current 0

-- The outer loop, on fuel.
unfoldable pub unit_ranges : RollupUnit → ℕ → ℕ → ℕ → List RollupInvalidationRange
unit_ranges unit last zero current = []
unit_ranges unit last (suc fuel) current =
    let (end_at, count) = next_group unit last current in
    let rest = unit_ranges unit last fuel end_at in
    if leb current last
    then record {
      candle_unit = unit;
      start_at = current;
      end_at = end_at;
      output_bucket_count = count;
    }
      ∷ rest
    else []

-- The ranges of one unit for an interval that is not empty. One bucket has a microsecond at least, so
-- the fuel is enough.
unfoldable pub interval_ranges : RollupUnit → ℕ → ℕ → List RollupInvalidationRange
unfolding unit_ranges rollup_bucket_start
interval_ranges unit start_at end_at =
    let current = rollup_bucket_start unit start_at in
    let last = rollup_bucket_start unit (end_at - 1) in
    unit_ranges unit last (last + 1 - current) current

unfoldable pub all_units_ranges : List RollupUnit → ℕ → ℕ → List RollupInvalidationRange
unfolding interval_ranges
all_units_ranges [] start_at end_at = []
all_units_ranges (unit ∷ units) start_at end_at =
    interval_ranges unit start_at end_at ++ all_units_ranges units start_at end_at

unfoldable pub affected_rollup_ranges_for_interval :
    ℕ → ℕ → List RollupUnit → List RollupInvalidationRange
unfolding all_units_ranges
affected_rollup_ranges_for_interval start_at end_at units =
    if leb end_at start_at then [] else all_units_ranges units start_at end_at
