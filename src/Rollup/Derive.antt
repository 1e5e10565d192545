-- ===== src/Rollup/Derive.antt =====
-- packages/shared/goodmoneying_shared/aggregation.py: the groups of `aggregate_candles` and the whole function.
use Prim.Native.String.{String}
use text.Mathlib.Text.{◌==◌ as str_eq}
use goodmoneying.Prelude.{ℕ, List, [], ◌∷◌, ◌++◌, map, ◌==◌, if◌then◌else◌}
use goodmoneying.Prelude.Results.{Result, ok, err}
use goodmoneying.Prelude.Sort.{sort_by}
use goodmoneying.Rollup.{
  RollupUnit, minutes_3, minutes_5, minutes_10, minutes_15, minutes_30, hour_1, hours_4, day_1,
  week_1, month_1, rollup_bucket_start,
}
use goodmoneying.Rollup.Candles.{
  source_1m, source_1d, SourceCandle, CoverageSlice, CandleView, Candle, of_source, of_view,
  started_at, HashedInput,
}
use goodmoneying.Rollup.Aggregate.{Group, candle_view, aggregate_groups}

-- `ValueError` for a unit that is not known.
pub data AggregationError : Type 0 where
  unsupported_unit : AggregationError

pub data AggregationUnit : Type 0 where
  minute_1 : AggregationUnit
  rollup : RollupUnit → AggregationUnit

abbrev unit_names : List (String × AggregationUnit)
unit_names =
    ("1m", minute_1)
    ∷ ("3m", rollup minutes_3)
    ∷ ("5m", rollup minutes_5)
    ∷ ("10m", rollup minutes_10)
    ∷ ("15m", rollup minutes_15)
    ∷ ("30m", rollup minutes_30)
    ∷ ("1h", rollup hour_1)
    ∷ ("4h", rollup hours_4)
    ∷ ("1d", rollup day_1)
    ∷ ("1w", rollup week_1)
    ∷ ("1M", rollup month_1)
    ∷ ("60m", rollup hour_1)
    ∷ ("240m", rollup hours_4)
    ∷ []

abbrev unit_among :
    List (String × AggregationUnit) → String → Result AggregationError AggregationUnit
unit_among [] name = err unsupported_unit
unit_among ((known, unit) ∷ names) name =
    let rest = unit_among names name in if str_eq name known then ok unit else rest

-- The aliases and AGGREGATION_UNITS.
unfoldable pub unit_named : String → Result AggregationError AggregationUnit
unit_named name = unit_among unit_names name

unfoldable pub minutes_of : List SourceCandle → List SourceCandle
minutes_of [] = []
minutes_of (s ∷ source) = elim s.candle_unit [
  | source_1m ↦ s ∷ minutes_of source
  | source_1d ↦ minutes_of source
]

unfoldable pub days_of : List SourceCandle → List SourceCandle
days_of [] = []
days_of (s ∷ source) = elim s.candle_unit [
  | source_1m ↦ days_of source
  | source_1d ↦ s ∷ days_of source
]

-- `grouped.setdefault(bucket, []).append(item)`
unfoldable pub add_to_group : ℕ → Candle → List Group → List Group
add_to_group bucket item [] = (bucket, item ∷ []) ∷ []
add_to_group bucket item ((key, items) ∷ groups) =
    let rest = add_to_group bucket item groups in
    if key == bucket then (key, items ++ item ∷ []) ∷ groups else (key, items) ∷ rest

-- The loop that groups the items by their buckets.
unfoldable pub group_into : RollupUnit → List Candle → List Group → List Group
unfolding add_to_group rollup_bucket_start
group_into unit [] groups = groups
group_into unit (item ∷ items) groups =
    group_into unit items (add_to_group (rollup_bucket_start unit (started_at item)) item groups)

unfoldable pub group_by_bucket : RollupUnit → List Candle → List Group
unfolding group_into
group_by_bucket unit items = group_into unit items []

-- `daily_by_start[view.started_at] = view`
unfoldable pub put_view : CandleView → List CandleView → List CandleView
put_view view [] = view ∷ []
put_view view (v ∷ views) =
    let rest = put_view view views in
    if v.started_at == view.started_at then view ∷ views else v ∷ rest

unfoldable pub put_views : List CandleView → List CandleView → List CandleView
unfolding put_view
put_views [] views = views
put_views (new ∷ more) views = put_views more (put_view new views)

abbrev start_of : CandleView → ℕ
start_of v = v.started_at

-- The number of slots of a bucket, where 0 is a month's.
abbrev pub expected_size : RollupUnit → ℕ
expected_size minutes_3 = 3
expected_size minutes_5 = 5
expected_size minutes_10 = 10
expected_size minutes_15 = 15
expected_size minutes_30 = 30
expected_size hour_1 = 60
expected_size hours_4 = 240
expected_size day_1 = 1440
expected_size week_1 = 7
expected_size month_1 = 0

module _ (digest : List HashedInput → String) (coverage : List CoverageSlice)
    (source : List SourceCandle) where
  -- The derived candles of a unit whose groups hold minute candles.
  unfoldable pub of_minutes : RollupUnit → List CandleView
  unfolding aggregate_groups group_by_bucket minutes_of
  of_minutes unit =
      aggregate_groups digest unit (expected_size unit) coverage
        (group_by_bucket unit (map of_source (minutes_of source)))

  -- Days: the exchange's own daily candles take the place of those that are made of minutes.
  unfoldable pub daily : List CandleView
  unfolding of_minutes put_views days_of candle_view sort_by
  daily =
      sort_by start_of
        (put_views (map (candle_view digest) (days_of source)) (put_views (of_minutes day_1) []))

  -- Weeks and months are made of days.
  unfoldable pub of_days : RollupUnit → List CandleView
  unfolding daily aggregate_groups group_by_bucket
  of_days unit =
      aggregate_groups digest unit (expected_size unit) coverage
        (group_by_bucket unit (map of_view daily))

  unfoldable pub rolled_up : RollupUnit → List CandleView
  unfolding of_days
  rolled_up day_1 = daily
  rolled_up week_1 = of_days week_1
  rolled_up month_1 = of_days month_1
  rolled_up unit = of_minutes unit

  unfoldable pub aggregate_unit : AggregationUnit → List CandleView
  unfolding rolled_up
  aggregate_unit minute_1 =
      map (candle_view digest) (sort_by (λ s. s.candle_start_at) (minutes_of source))
  aggregate_unit (rollup unit) = rolled_up unit

  unfoldable pub aggregate_candles : String → Result AggregationError (List CandleView)
  unfolding aggregate_unit unit_named
  aggregate_candles name = elim (unit_named name) [
    | err e ↦ err e
    | ok unit ↦ ok (aggregate_unit unit)
  ]
