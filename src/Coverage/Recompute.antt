-- ===== src/Coverage/Recompute.antt =====
-- _enqueue_quality_transition_recomputation of coverage_transition.py: what a recorded change of the coverage
-- has computed anew. The two hashes are arguments. Instants are microseconds since the year 1, and no source
-- candle begins in its first 32 days.
pub mod Queue
pub mod Rows
pub mod Jobs
pub mod Enqueued
pub mod Served
pub mod Around
use Prim.Native.String.{String}
use text.Mathlib.Text.{◌==◌ as str_eq}
use goodmoneying.Prelude.{
  ℕ, ◌+◌, ◌-◌, ◌*◌, min, max, Bool, true, false, not, ◌&&◌, ◌||◌, Option, none, some, List, [], ◌∷◌,
  ◌++◌, map, any, find, ltb, leb, ◌==◌, if◌then◌else◌,
}
use goodmoneying.Prelude.Results.{Result, ok, err, ◌>>=◌}
use goodmoneying.Prelude.Sort.{sort_by}
use goodmoneying.Coverage.State.{
  CoverageState, available, no_trade, missing, unavailable, unverified,
}
use goodmoneying.Coverage.Replace.{Interval}
use goodmoneying.Rollup.{
  RollupUnit, day_1, week_1, month_1, materialized_units, day, RollupInvalidationRange,
  affected_rollup_ranges_for_interval,
}
use goodmoneying.Rollup.Candles.{SourceUnit, source_1m, source_1d}

pub record TargetSpec : Type 0 where
  pub id : ℕ
  pub market_id : ℕ
  pub data_type : String
  pub candle_unit : Option String

pub record Market : Type 0 where
  pub id : ℕ
  pub legacy_instrument_id : Option ℕ

pub record SourceRevision : Type 0 where
  pub id : ℕ
  pub instrument_id : ℕ
  pub candle_start_at : ℕ

-- The tables that are only read.
pub record Catalog : Type 0 where
  pub collection_target_specs : List TargetSpec
  pub markets : List Market
  pub source_candle_revisions : List SourceRevision

pub record Context : Type 0 where
  pub market_id : ℕ
  pub instrument_id : ℕ
  pub unit : SourceUnit

-- `candle_unit in {"1m", "1d"}`
abbrev pub source_unit : Option String → Option SourceUnit
source_unit none = none
source_unit (some name) =
    if str_eq name "1m" then some source_1m else if str_eq name "1d" then some source_1d else none

-- The unit of a target for source candles.
unfoldable pub candle_unit_of : TargetSpec → Option SourceUnit
candle_unit_of spec =
    if str_eq spec.data_type "source_candle" then source_unit spec.candle_unit else none

abbrev context_from : ℕ → Option SourceUnit → Option ℕ → Option Context
context_from market (some unit) (some instrument) =
    some (record { market_id = market; instrument_id = instrument; unit = unit })
context_from market _ _ = none

-- The target with its market, where its changes concern derived candles.
unfoldable pub context_of : Catalog → ℕ → Option Context
unfolding candle_unit_of
context_of catalog target_spec_id =
    elim (find (λ s. s.id == target_spec_id) catalog.collection_target_specs) [
      | none ↦ none
      | some spec ↦ elim (find (λ m. m.id == spec.market_id) catalog.markets) [
        | none ↦ none
        | some market ↦ context_from market.id (candle_unit_of spec) market.legacy_instrument_id
      ]
    ]

pub record Bounds : Type 0 where
  pub first_at : ℕ
  pub last_at : ℕ
  pub source_revision_through_id : ℕ

abbrev pub widen : SourceRevision → Option Bounds → Bounds
widen s none = record {
  first_at = s.candle_start_at;
  last_at = s.candle_start_at;
  source_revision_through_id = s.id;
}
widen s (some b) = record {
  first_at = min s.candle_start_at b.first_at;
  last_at = max s.candle_start_at b.last_at;
  source_revision_through_id = max s.id b.source_revision_through_id;
}

-- `SELECT MIN(candle_start_at), MAX(candle_start_at), MAX(id)`, where there is a row.
unfoldable pub bounds_of : ℕ → List SourceRevision → Option Bounds
bounds_of instrument [] = none
bounds_of instrument (s ∷ revisions) =
    let others = bounds_of instrument revisions in
    if s.instrument_id == instrument then some (widen s others) else others

-- What a range says of the coverage, with the keys of its order.
pub record CoverageRow : Type 0 where
  pub range_start_at : ℕ
  pub range_end_at : ℕ
  pub unit : SourceUnit
  pub status : CoverageState
  pub target_spec_id : ℕ

-- An entry of `coverage_payload`.
pub record CoverageEntry : Type 0 where
  pub start_at : ℕ
  pub end_at : ℕ
  pub status : CoverageState

abbrev unit_rank : SourceUnit → ℕ
unit_rank source_1d = 0
unit_rank source_1m = 1

-- The order of the texts.
abbrev status_rank : CoverageState → ℕ
status_rank available = 0
status_rank missing = 1
status_rank no_trade = 2
status_rank unavailable = 3
status_rank unverified = 4

module _ {Evidence : Type 0} (catalog : Catalog) (context : Context)
    (affected : RollupInvalidationRange) where
  abbrev row_from : Interval Evidence → TargetSpec → Option SourceUnit → List CoverageRow
  row_from interval spec none = []
  row_from interval spec (some unit) =
      if (spec.market_id == context.market_id)
        && ltb interval.range_start_at affected.end_at
        && ltb affected.start_at interval.range_end_at
      then record {
        range_start_at = max interval.range_start_at affected.start_at;
        range_end_at = min interval.range_end_at affected.end_at;
        unit = unit;
        status = interval.assessment.status;
        target_spec_id = spec.id;
      }
        ∷ []
      else []

  -- The rows before they are sorted.
  unfoldable pub coverage_rows : List (Interval Evidence) → List CoverageRow
  unfolding candle_unit_of
  coverage_rows [] = []
  coverage_rows (interval ∷ intervals) =
      let rest = coverage_rows intervals in
      elim (find (λ s. s.id == interval.target_spec_id) catalog.collection_target_specs) [
        | none ↦ rest
        | some spec ↦ row_from interval spec (candle_unit_of spec) ++ rest
      ]

-- `ORDER BY`, from the last key to the first; rows that agree in all of them stay as they were written.
unfoldable pub sorted_rows : List CoverageRow → List CoverageRow
unfolding sort_by
sorted_rows rows =
    sort_by (λ r. r.range_start_at)
      (sort_by (λ r. r.range_end_at)
        (sort_by (λ r. unit_rank r.unit)
          (sort_by (λ r. status_rank r.status) (sort_by (λ r. r.target_spec_id) rows))))

abbrev entry : CoverageRow → CoverageEntry
entry r = record { start_at = r.range_start_at; end_at = r.range_end_at; status = r.status }

unfoldable pub coverage_payload :
    {Evidence : Type 0}
    → Catalog
    → Context
    → RollupInvalidationRange
    → List (Interval Evidence)
    → List CoverageEntry
unfolding coverage_rows sorted_rows
coverage_payload catalog context affected intervals =
    map entry (sorted_rows (coverage_rows catalog context affected intervals))

abbrev pub calculation_version : String
calculation_version = "candle-rollup-v2"

-- What the fingerprint of a recomputation is made of.
pub record RecomputeKey : Type 0 where
  pub market_id : ℕ
  pub instrument_id : ℕ
  pub unit : RollupUnit
  pub start_at : ℕ
  pub end_at : ℕ
  pub version : String
  pub quality_event_id : ℕ
  pub coverage_snapshot_hash : String

abbrev pub affected_units : SourceUnit → List RollupUnit
affected_units source_1d = day_1 ∷ week_1 ∷ month_1 ∷ []
affected_units source_1m = materialized_units

-- Some source candle of the instrument begins in the range.
unfoldable pub contains_source : ℕ → RollupInvalidationRange → List SourceRevision → Bool
contains_source instrument affected revisions =
    any
      (λ s.
        (s.instrument_id == instrument)
        && leb affected.start_at s.candle_start_at
        && ltb s.candle_start_at affected.end_at)
      revisions
