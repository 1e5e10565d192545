-- ===== src/Coverage/Recompute/Served.antt =====
-- _enqueue_quality_transition_recomputation of coverage_transition.py, and the call that uses it: which derived
-- candles have a job afterwards.
use Prim.Native.String.{String}
use mathlib.Core.List.{Memᴰ}
use goodmoneying.Prelude.{ℕ, ◌≤◌, ◌<◌, ◌≡◌, true, some, List}
use goodmoneying.Coverage.Recompute.{Catalog, Context, context_of, SourceRevision, affected_units}
use goodmoneying.Coverage.Recompute.Queue.{RollupInvalidation, Queue, has_job, Change}
use goodmoneying.Rollup.{RollupUnit}

-- For every source candle of the instrument in the range of the change, and every affected unit, there is an
-- invalidation of the instrument and the unit whose range has the candle, and a job with its key.
abbrev pub IsRecomputedIn : Catalog → Context → Change → Queue → Type 0
IsRecomputedIn catalog context change queue =
    (s : SourceRevision)
    → Memᴰ s catalog.source_candle_revisions
    → s.instrument_id ≡ context.instrument_id
    → change.event_start_at ≤ s.candle_start_at
    → s.candle_start_at < change.event_end_at
    → (unit : RollupUnit) → Memᴰ unit (affected_units context.unit)
    → (i : RollupInvalidation) × Memᴰ i queue.candle_rollup_invalidations
      × (i.instrument_id ≡ s.instrument_id)
      × (i.candle_unit ≡ unit)
      × (i.range_start_at ≤ s.candle_start_at)
      × (s.candle_start_at < i.range_end_at)
      × (has_job i.idempotency_key queue ≡ true)

-- The same, if the target is one of source candles.
abbrev pub IsRecomputed : Catalog → ℕ → Change → Queue → Type 0
IsRecomputed catalog target_spec_id change queue =
    (context : Context)
    → context_of catalog target_spec_id ≡ some context
    → IsRecomputedIn catalog context change queue
