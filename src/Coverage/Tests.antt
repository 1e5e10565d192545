-- ===== src/Coverage/Tests.antt =====
-- A range of a small table replaced: the middle of an available range, and what follows it.
use Prim.Native.String.{String}
use goodmoneying.Coverage.Gaps.{
  minute, is_bounded, in_gap, is_internal_gap, internal_minute_candle_gaps,
  internal_minute_candle_gaps-internal,
}
use goodmoneying.Prelude.Results.{ok}
use goodmoneying.Prelude.Sort.{sort_by}
use goodmoneying.Prelude.{
  ◌*◌, keep, ℕ, ◌≡◌, refl, true, not, ◌&&◌, Option, none, some, List, [], ◌∷◌, length, any, arith,
  if◌then◌else◌, All,
}
use goodmoneying.Coverage.State.{CoverageState, available, missing, state_eq}
use goodmoneying.Coverage.Replace.{
  Interval, Request, Transition, transitions, selected, changed, sweep, covered_ranges,
}
use goodmoneying.Coverage.Replace.Table.{recorded, concerns}
use goodmoneying.Coverage.Replace.Changes.{leaves, appears, transitions_iff}
use goodmoneying.Coverage.Replace.Events.{
  QualityEvent, Tables, is_logged, replace_coverage_with_classification,
}
use goodmoneying.Coverage.Replace.Log.{LogIsValid}
use goodmoneying.Coverage.Replace.Call.{
  replace_coverage-recorded, replace_coverage-LogIsValid, replace_coverage-logged,
  replace_coverage-repeated,
}
use goodmoneying.Prelude.{◌+◌}
use goodmoneying.Prelude.Results.{Result, err}
use goodmoneying.Rollup.{
  affected_rollup_ranges_for_interval, next_group, day, RollupUnit, minutes_3, minutes_5,
  minutes_10, minutes_15, minutes_30, hour_1, hours_4, day_1, week_1, month_1,
}
use goodmoneying.Coverage.Recompute.{
  Catalog, CoverageEntry, RecomputeKey, contains_source, SourceRevision,
}
use goodmoneying.Coverage.Recompute.Queue.{Queue, QueueError, replace_and_enqueue, enqueue}

abbrev row : CoverageState → ℕ → ℕ → Interval String
row status start_at end_at = record {
  target_spec_id = 7;
  range_start_at = start_at;
  range_end_at = end_at;
  assessment = record {
    status = status;
    evidence = "{}";
    fetch_manifest_id = none;
    assessed_at = 1;
  };
}

abbrev table : List (Interval String)
table = row missing 30 40 ∷ row available 10 20 ∷ []

abbrev request : Request String
request = record {
  target_spec_id = 7;
  range_start_at = 15;
  range_end_at = 35;
  status = missing;
  reason_code = "gap";
  manifest_id = some 3;
  evidence = "{}";
}

-- A checksum that is enough for these ranges: one text for a range out of a state, one for a range
-- out of nothing.
abbrev checksum_of : Option CoverageState → String
checksum_of none = "from nothing"
checksum_of (some _) = "from a state"

abbrev checksum : Request String → Transition → String
checksum q change = checksum_of change.previous_status

abbrev merged : Request String → String
merged q = q.evidence

abbrev market_of : ℕ → Option ℕ
market_of spec = some 1

abbrev db : Tables String
db = record { coverage_intervals = table; data_quality_events = []; next_event_id = 1 }

abbrev after : Tables String
after = (replace_coverage_with_classification checksum merged market_of 50 request db).0

abbrev change : Option CoverageState → ℕ → ℕ → Transition
change previous_status start_at end_at = record {
  previous_status = previous_status;
  start_at = start_at;
  end_at = end_at;
}

two_changes : transitions request table ≡ change (some available) 15 20 ∷ change none 20 30 ∷ []
unfolding transitions selected changed sweep covered_ranges state_eq
two_changes = refl

two_events : length after.data_quality_events ≡ 2
unfolding replace_coverage_with_classification state_eq
two_events = refl

pieces_kept : recorded 7 37 (λ a. state_eq a.status missing) after.coverage_intervals ≡ true
unfolding replace_coverage_with_classification state_eq
pieces_kept = refl

replace_coverage-recorded_example :
    recorded 7 17 (λ a. state_eq a.status missing) after.coverage_intervals ≡ (
      if concerns request 7 17
      then state_eq missing missing
      else recorded 7 17 (λ a. state_eq a.status missing) table)
replace_coverage-recorded_example =
    replace_coverage-recorded checksum merged market_of 50 request db 1 refl 7 17
      (λ a. state_eq a.status missing)

replace_coverage-LogIsValid_example : LogIsValid after.next_event_id after.data_quality_events
replace_coverage-LogIsValid_example =
    replace_coverage-LogIsValid checksum merged market_of 50 request db tt

replace_coverage-logged_example :
    All
      (λ c. is_logged checksum merged request after.data_quality_events c ≡ true)
      (transitions request table)
replace_coverage-logged_example =
    replace_coverage-logged checksum merged market_of 50 request db 1 refl (omega arith)

-- The range becomes available again, and then missing again.
abbrev recovered : Request String
recovered = record request { range_end_at = 20; status = available; reason_code = "filled" }

abbrev back : Tables String
back = (replace_coverage_with_classification checksum merged market_of 70 recovered after).0

already_logged :
    All
      (λ c. is_logged checksum merged request back.data_quality_events c ≡ true)
      (transitions request back.coverage_intervals)
unfolding replace_coverage_with_classification transitions state_eq
already_logged = (refl, tt)

nothing_recorded_again :
    ((replace_coverage_with_classification checksum merged market_of 90 request
        back).0.data_quality_events
      ≡ back.data_quality_events)
    × ((replace_coverage_with_classification checksum merged market_of 90 request back).1 ≡ [])
nothing_recorded_again =
    replace_coverage-repeated checksum merged market_of 90 request back already_logged

transitions_iff_example :
    (any (appears 25) (transitions request table)
      ≡ (concerns request 7 25 && not (recorded 7 25 (λ _. true) table)))
    × ((s : CoverageState)
        → any (leaves s 25) (transitions request table) ≡ (
            concerns request 7 25
            && recorded 7 25 (λ a. state_eq a.status s && not (state_eq a.status missing)) table))
transitions_iff_example = transitions_iff request 25 table

-- Candles of the minutes 0, 1 and 4, one of them twice, and one outside of the request.
abbrev candles : List ℕ
candles = 4 * minute ∷ 0 ∷ minute ∷ minute ∷ 9 * minute ∷ []

one_gap : internal_minute_candle_gaps 0 (6 * minute) candles ≡ ok ((2 * minute, 4 * minute) ∷ [])
unfolding internal_minute_candle_gaps sort_by
one_gap = refl

internal_minute_candle_gaps-internal_example :
    (gaps : List (ℕ × ℕ)) × (internal_minute_candle_gaps 0 (6 * minute) candles ≡ ok gaps)
    × ((t : ℕ) → any (in_gap t) gaps ≡ is_internal_gap t (keep (is_bounded 0 (6 * minute)) candles))
internal_minute_candle_gaps-internal_example =
    internal_minute_candle_gaps-internal 0 (6 * minute) candles (omega arith)

-- Ten minutes that were not known, with one source candle in them.
abbrev revision : SourceRevision
revision = record { id = 4; instrument_id = 3; candle_start_at = 40 * day + minute }

abbrev catalog : Catalog
catalog = record {
  collection_target_specs =
      record { id = 7; market_id = 1; data_type = "source_candle"; candle_unit = some "1m" } ∷ [];
  markets = record { id = 1; legacy_instrument_id = some 3 } ∷ [];
  source_candle_revisions = revision ∷ [];
}

abbrev ten_minutes : Request String
ten_minutes = record request { range_start_at = 40 * day; range_end_at = 40 * day + 10 * minute }

abbrev no_rows : Tables String
no_rows = record { coverage_intervals = []; data_quality_events = []; next_event_id = 1 }

abbrev empty_queue : Queue
empty_queue = record {
  indicator_invalidations = [];
  candle_rollup_invalidations = [];
  next_invalidation_id = 1;
  candle_rollup_recompute_jobs = [];
}

abbrev hash : List CoverageEntry → String
hash entries = "coverage"

abbrev unit_text : RollupUnit → String
unit_text minutes_3 = "3m"
unit_text minutes_5 = "5m"
unit_text minutes_10 = "10m"
unit_text minutes_15 = "15m"
unit_text minutes_30 = "30m"
unit_text hour_1 = "1h"
unit_text hours_4 = "4h"
unit_text day_1 = "1d"
unit_text week_1 = "1w"
unit_text month_1 = "1M"

abbrev key_text : RecomputeKey → String
key_text k = unit_text k.unit

abbrev outcome : Tables String × List (QualityEvent String)
outcome = replace_coverage_with_classification checksum merged market_of 50 ten_minutes no_rows

abbrev jobs_of : Result QueueError (Tables String × Queue) → ℕ
jobs_of (err e) = 0
jobs_of (ok (tables, queue)) = length queue.candle_rollup_recompute_jobs

-- One job for each unit.
ten_jobs :
    jobs_of (
      replace_and_enqueue checksum merged hash key_text catalog market_of 50 ten_minutes no_rows
        empty_queue)
    ≡ 10
unfolding replace_and_enqueue affected_rollup_ranges_for_interval contains_source next_group enqueue
ten_jobs = refl
