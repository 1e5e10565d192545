-- ===== src/Rollup/Tests.antt =====
-- Buckets around a leap day, and an hour that is split into buckets of three minutes.
use goodmoneying.Prelude.{ℕ, ◌+◌, ◌-◌, ◌*◌, ◌≡◌, refl, [], ◌∷◌, arith}
use goodmoneying.Rollup.{
  minutes_3, month_1, week_1, minute, hour, day, rollup_bucket_start, rollup_bucket_end, next_group,
  unit_ranges, affected_rollup_ranges_for_interval,
}
use Prim.Native.String.{String}
use goodmoneying.Prelude.{none, List, map}
use goodmoneying.Prelude.Decimal.{Decimal, integer}
use goodmoneying.Rollup.Candles.{
  source_1m, SourceCandle, HashedInput, CoverageSlice, no_trade, complete, of_source,
}
use goodmoneying.Rollup.Derive.{minutes_of, of_minutes}
use goodmoneying.Rollup.Partition.{ArePartitioned, of_minutes-ArePartitioned}
use goodmoneying.Prelude.{All}
use goodmoneying.Rollup.Ohlc.Views.{HasPrices, of_minutes-AllPrices}
use goodmoneying.Rollup.Scattered.{affected_rollup_ranges}
use goodmoneying.Rollup.Covered.{AllContain, affected_rollup_ranges-AllContain}
use goodmoneying.Rollup.Ranges.{AllCover, affected_rollup_ranges_for_interval-AllCover}

-- 2024-02-29 is day 738944, and the 28 days before it are in its month.
abbrev leap_day : ℕ
leap_day = 738944

leap_month : rollup_bucket_start month_1 (leap_day * day + 5 * hour) ≡ (leap_day - 28) * day
unfolding rollup_bucket_start
leap_month = refl

leap_month_end : rollup_bucket_end month_1 ((leap_day - 28) * day) ≡ (leap_day + 1) * day
unfolding rollup_bucket_end
leap_month_end = refl

-- 2024-02-29 was a Thursday.
leap_week : rollup_bucket_start week_1 (leap_day * day + 1) ≡ (leap_day - 3) * day
unfolding rollup_bucket_start
leap_week = refl

ten_buckets :
    affected_rollup_ranges_for_interval (61 * minute) (90 * minute) (minutes_3 ∷ [])
    ≡ record {
      candle_unit = minutes_3;
      start_at = 60 * minute;
      end_at = 90 * minute;
      output_bucket_count = 10;
    }
      ∷ []
unfolding affected_rollup_ranges_for_interval unit_ranges next_group
ten_buckets = refl

affected_rollup_ranges_for_interval-AllCover_example :
    AllCover
      (61 * minute)
      (90 * minute)
      (minutes_3 ∷ month_1 ∷ [])
      (affected_rollup_ranges_for_interval (61 * minute) (90 * minute) (minutes_3 ∷ month_1 ∷ []))
affected_rollup_ranges_for_interval-AllCover_example =
    affected_rollup_ranges_for_interval-AllCover (minutes_3 ∷ month_1 ∷ []) (61 * minute)
      (90 * minute) (omega arith)

-- A change outside the run of buckets that the others make.
scattered :
    affected_rollup_ranges
      (7 * minute ∷ 100 * minute ∷ 4 * minute ∷ 8 * minute ∷ [])
      (minutes_3 ∷ [])
    ≡ record {
      candle_unit = minutes_3;
      start_at = 3 * minute;
      end_at = 9 * minute;
      output_bucket_count = 2;
    }
      ∷ record {
        candle_unit = minutes_3;
        start_at = 99 * minute;
        end_at = 102 * minute;
        output_bucket_count = 1;
      }
      ∷ []
unfolding affected_rollup_ranges
scattered = refl

affected_rollup_ranges-AllContain_example :
    AllContain
      (7 * minute ∷ 100 * minute ∷ [])
      (minutes_3 ∷ month_1 ∷ [])
      (affected_rollup_ranges (7 * minute ∷ 100 * minute ∷ []) (minutes_3 ∷ month_1 ∷ []))
affected_rollup_ranges-AllContain_example =
    affected_rollup_ranges-AllContain (7 * minute ∷ 100 * minute ∷ []) (minutes_3 ∷ month_1 ∷ [])

abbrev candle : ℕ → ℕ → SourceCandle
candle at price = record {
  instrument_id = 1;
  candle_unit = source_1m;
  candle_start_at = at * minute;
  open_price = integer price;
  high_price = integer (price + 2);
  low_price = integer price;
  close_price = integer (price + 1);
  trade_volume = integer 1;
  trade_amount = integer price;
  collected_at = 1000 * minute;
  revision_id = none;
  input_content_hash = none;
  knowledge_at = none;
}

abbrev digest : List HashedInput → String
digest inputs = "hash"

-- Nothing was traded in the second minute.
abbrev coverage : List CoverageSlice
coverage = record { start_at = 0; end_at = 10 * minute; status = no_trade } ∷ []

abbrev candles : List SourceCandle
candles = candle 2 20 ∷ candle 0 10 ∷ candle 5 30 ∷ []

starts_and_closes :
    map {B = ℕ × Decimal}
      (λ v. (v.started_at, v.close))
      (of_minutes digest coverage candles minutes_3)
    ≡ (0, integer 21) ∷ (3 * minute, integer 31) ∷ []
unfolding of_minutes
starts_and_closes = refl

of_minutes-ArePartitioned_example :
    ArePartitioned digest minutes_3 coverage
      (map of_source (minutes_of candles))
      (of_minutes digest coverage candles minutes_3)
of_minutes-ArePartitioned_example = of_minutes-ArePartitioned digest coverage candles minutes_3

of_minutes-AllPrices_example :
    All
      (HasPrices minutes_3 (map of_source (minutes_of candles)))
      (of_minutes digest coverage candles minutes_3)
of_minutes-AllPrices_example = of_minutes-AllPrices digest coverage candles minutes_3

whole_and_partial :
    map (λ v. v.completeness) (of_minutes digest coverage candles minutes_3)
    ≡ complete ∷ complete ∷ []
unfolding of_minutes
whole_and_partial = refl
