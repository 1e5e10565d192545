-- ===== src/Coverage/Recompute/Queue.antt =====
-- The tables that _enqueue_quality_transition_recomputation of coverage_transition.py writes, the loop over the
-- affected ranges, and the loop of replace_coverage_with_classification that calls it for the new events.
use Prim.Native.String.{String}
use text.Mathlib.Text.{◌==◌ as str_eq}
use goodmoneying.Prelude.{
  ℕ, ◌+◌, ◌-◌, ◌*◌, min, max, Bool, true, false, ◌||◌, Option, none, some, List, [], ◌∷◌, any, ◌==◌,
  if◌then◌else◌,
}
use goodmoneying.Prelude.Results.{Result, ok, ◌>>=◌, ◌>>◌, raise_if}
use goodmoneying.Coverage.Replace.{Interval, Request, Transition}
use goodmoneying.Coverage.Replace.Events.{
  QualityEvent, Tables, replace_coverage_with_classification,
}
use goodmoneying.Rollup.{
  RollupUnit, day, RollupInvalidationRange, affected_rollup_ranges_for_interval,
}
use goodmoneying.Rollup.Candles.{SourceUnit, source_1m, source_1d}
use goodmoneying.Coverage.Recompute.{
  Catalog, Context, context_of, Bounds, bounds_of, CoverageEntry, coverage_payload,
  calculation_version, RecomputeKey, affected_units, contains_source,
}

pub record IndicatorInvalidation : Type 0 where
  pub instrument_id : ℕ
  pub candle_unit : String
  pub changed_quality_event_id : ℕ
  pub impact_start_at : ℕ
  pub impact_end_at : ℕ
  pub source_revision_through_id : ℕ
  pub quality_event_through_id : ℕ
  pub knowledge_at : ℕ

pub record RollupInvalidation : Type 0 where
  pub id : ℕ
  pub idempotency_key : String
  pub market_id : ℕ
  pub instrument_id : ℕ
  pub candle_unit : RollupUnit
  pub version : String
  pub range_start_at : ℕ
  pub range_end_at : ℕ
  pub output_bucket_count : ℕ
  pub source_revision_ids : List ℕ
  pub source_revision_through_id : ℕ
  pub quality_event_through_id : ℕ
  pub coverage_snapshot : List CoverageEntry
  pub coverage_snapshot_hash : String
  pub knowledge_at : ℕ

pub data JobStatus : Type 0 where
  pending running retry_wait succeeded dead_letter cancelled : JobStatus

pub record RecomputeJob : Type 0 where
  pub invalidation_id : ℕ
  pub idempotency_key : String
  pub status : JobStatus

pub record Queue : Type 0 where
  pub indicator_invalidations : List IndicatorInvalidation
  pub candle_rollup_invalidations : List RollupInvalidation
  pub next_invalidation_id : ℕ
  pub candle_rollup_recompute_jobs : List RecomputeJob

-- A job whose key or whose invalidation has one already.
pub data QueueError : Type 0 where
  unique_violation : QueueError

abbrev pub has_invalidation : String → Queue → Bool
has_invalidation key queue =
    any (λ i. str_eq i.idempotency_key key) queue.candle_rollup_invalidations

abbrev pub has_job : String → Queue → Bool
has_job key queue = any (λ j. str_eq j.idempotency_key key) queue.candle_rollup_recompute_jobs

-- `ON CONFLICT (changed_quality_event_id) DO NOTHING`
unfoldable pub invalidate_indicators : IndicatorInvalidation → Queue → Queue
invalidate_indicators new queue =
    if any (λ i. i.changed_quality_event_id == new.changed_quality_event_id)
      queue.indicator_invalidations
    then queue
    else record queue { indicator_invalidations = new ∷ queue.indicator_invalidations }

abbrev pub insert_invalidation : RollupInvalidation → Queue → Queue
insert_invalidation new queue = record queue {
  candle_rollup_invalidations =
      record new { id = queue.next_invalidation_id } ∷ queue.candle_rollup_invalidations;
  next_invalidation_id = queue.next_invalidation_id + 1;
}

abbrev pub insert_job : ℕ → String → Queue → Result QueueError Queue
insert_job invalidation_id key queue =
    raise_if
      (has_job key queue
        || any (λ j. j.invalidation_id == invalidation_id) queue.candle_rollup_recompute_jobs)
      unique_violation
    >> ok (record queue {
      candle_rollup_recompute_jobs =
          record { invalidation_id = invalidation_id; idempotency_key = key; status = pending }
          ∷ queue.candle_rollup_recompute_jobs;
    })

-- `ON CONFLICT (idempotency_key) DO NOTHING RETURNING id`, and the job of what was inserted. The sequence of the
-- ids goes on either way.
unfoldable pub enqueue : RollupInvalidation → Queue → Result QueueError Queue
enqueue new queue =
    if has_invalidation new.idempotency_key queue
    then ok (record queue { next_invalidation_id = queue.next_invalidation_id + 1 })
    else insert_job queue.next_invalidation_id new.idempotency_key (insert_invalidation new queue)

-- A range without a source candle is passed over.
abbrev pub enqueue_if : Bool → RollupInvalidation → Queue → Result QueueError Queue
enqueue_if false new queue = ok queue
enqueue_if true new queue = enqueue new queue

-- The parameters of one event.
pub record Change : Type 0 where
  pub quality_event_id : ℕ
  pub event_start_at : ℕ
  pub event_end_at : ℕ
  pub knowledge_at : ℕ

abbrev pub new_indicator : Context → Bounds → Change → IndicatorInvalidation
new_indicator context bounds change = record {
  instrument_id = context.instrument_id;
  candle_unit = "1m";
  changed_quality_event_id = change.quality_event_id;
  impact_start_at = change.event_start_at;
  impact_end_at = change.event_end_at;
  source_revision_through_id = bounds.source_revision_through_id;
  quality_event_through_id = change.quality_event_id;
  knowledge_at = change.knowledge_at;
}

-- `if context["candle_unit"] == "1m"`
abbrev pub indicators_first : SourceUnit → IndicatorInvalidation → Queue → Queue
indicators_first source_1d new queue = queue
indicators_first source_1m new queue = invalidate_indicators new queue

abbrev pub margin : ℕ
margin = 32 * day

module _ {Evidence : Type 0} (coverage_hash : List CoverageEntry → String)
    (fingerprint_of : RecomputeKey → String) (catalog : Catalog)
    (intervals : List (Interval Evidence)) where
  abbrev snapshot_hash : Context → RollupInvalidationRange → String
  snapshot_hash context affected =
      coverage_hash (coverage_payload catalog context affected intervals)

  abbrev pub fingerprint : Context → Change → RollupInvalidationRange → String
  fingerprint context change affected = fingerprint_of (record {
    market_id = context.market_id;
    instrument_id = context.instrument_id;
    unit = affected.candle_unit;
    start_at = affected.start_at;
    end_at = affected.end_at;
    version = calculation_version;
    quality_event_id = change.quality_event_id;
    coverage_snapshot_hash = snapshot_hash context affected;
  })

  -- The row to be inserted, without its id.
  abbrev pub new_invalidation :
      Context → Bounds → Change → RollupInvalidationRange → RollupInvalidation
  new_invalidation context bounds change affected = record {
    id = 0;
    idempotency_key = fingerprint context change affected;
    market_id = context.market_id;
    instrument_id = context.instrument_id;
    candle_unit = affected.candle_unit;
    version = calculation_version;
    range_start_at = affected.start_at;
    range_end_at = affected.end_at;
    output_bucket_count = affected.output_bucket_count;
    source_revision_ids = [];
    source_revision_through_id = bounds.source_revision_through_id;
    quality_event_through_id = change.quality_event_id;
    coverage_snapshot = coverage_payload catalog context affected intervals;
    coverage_snapshot_hash = snapshot_hash context affected;
    knowledge_at = change.knowledge_at;
  }

  -- The loop over the ranges.
  unfoldable pub enqueue_ranges :
      Context → Bounds → Change → List RollupInvalidationRange → Queue → Result QueueError Queue
  unfolding coverage_payload
  enqueue_ranges context bounds change [] queue = ok queue
  enqueue_ranges context bounds change (affected ∷ ranges) queue =
      enqueue_if (contains_source context.instrument_id affected catalog.source_candle_revisions)
        (new_invalidation context bounds change affected) queue
      >>= enqueue_ranges context bounds change ranges

  abbrev pub affected_ranges : Context → Bounds → Change → List RollupInvalidationRange
  affected_ranges context bounds change =
      affected_rollup_ranges_for_interval (max change.event_start_at (bounds.first_at - margin))
        (min change.event_end_at (bounds.last_at + margin)) (affected_units context.unit)

  unfoldable pub enqueue_known : Context → Bounds → Change → Queue → Result QueueError Queue
  unfolding enqueue_ranges invalidate_indicators
  enqueue_known context bounds change queue =
      enqueue_ranges context bounds change (affected_ranges context bounds change)
        (indicators_first context.unit (new_indicator context bounds change) queue)

  unfoldable pub enqueue_within : Context → Option Bounds → Change → Queue → Result QueueError Queue
  unfolding enqueue_known
  enqueue_within context none change queue = ok queue
  enqueue_within context (some bounds) change queue = enqueue_known context bounds change queue

  unfoldable pub enqueue_for : Option Context → Change → Queue → Result QueueError Queue
  unfolding enqueue_within bounds_of
  enqueue_for none change queue = ok queue
  enqueue_for (some context) change queue =
      enqueue_within context (bounds_of context.instrument_id catalog.source_candle_revisions)
        change queue

  unfoldable pub enqueue_quality_transition_recomputation :
      ℕ → Change → Queue → Result QueueError Queue
  unfolding context_of enqueue_for
  enqueue_quality_transition_recomputation target_spec_id change queue =
      enqueue_for (context_of catalog target_spec_id) change queue

  abbrev pub change_of : ℕ → QualityEvent Evidence → Change
  change_of assessed_at e = record {
    quality_event_id = e.id;
    event_start_at = e.range_start_at;
    event_end_at = e.range_end_at;
    knowledge_at = assessed_at;
  }

  -- The loop over the events of a call.
  unfoldable pub enqueue_events :
      ℕ → ℕ → List (QualityEvent Evidence) → Queue → Result QueueError Queue
  unfolding enqueue_quality_transition_recomputation
  enqueue_events target_spec_id assessed_at [] queue = ok queue
  enqueue_events target_spec_id assessed_at (e ∷ events) queue =
      enqueue_quality_transition_recomputation target_spec_id (change_of assessed_at e) queue
      >>= enqueue_events target_spec_id assessed_at events

module _ {Evidence : Type 0} (checksum : Request Evidence → Transition → String)
    (event_evidence : Request Evidence → Evidence) (coverage_hash : List CoverageEntry → String)
    (fingerprint_of : RecomputeKey → String) (catalog : Catalog) (market_of : ℕ → Option ℕ) where
  -- replace_coverage_with_classification to its end: the events of the call are enqueued on the intervals that it
  -- leaves.
  unfoldable pub replace_and_enqueue :
      ℕ → Request Evidence → Tables Evidence → Queue → Result QueueError (Tables Evidence × Queue)
  unfolding enqueue_events replace_coverage_with_classification
  replace_and_enqueue assessed_at q db queue =
      let (after, created) =
        replace_coverage_with_classification checksum event_evidence market_of assessed_at q db in
      enqueue_events coverage_hash fingerprint_of catalog after.coverage_intervals q.target_spec_id
        assessed_at created queue
      >>= λ queue'. ok (after, queue')
