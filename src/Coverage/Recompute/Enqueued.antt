-- ===== src/Coverage/Recompute/Enqueued.antt =====
-- _enqueue_quality_transition_recomputation of coverage_transition.py: which fingerprints have a job afterwards.
use Prim.Native.String.{String}
use mathlib.Core.Path.{subst}
use mathlib.Core.List.{Memᴰ}
use goodmoneying.Prelude.{
  ℕ, ◌+◌, ◌-◌, min, max, ◌≤◌, ◌<◌, ◌≡◌, refl, ap, ◌∙◌, true, Option, none, some, List, [], ◌∷◌, All,
  All-mem, arith,
}
use goodmoneying.Prelude.Results.{ok, ◌>>=◌}
use goodmoneying.Coverage.Replace.{Interval}
use goodmoneying.Coverage.Replace.Events.{QualityEvent}
use goodmoneying.Coverage.Recompute.{
  Catalog, Context, context_of, SourceRevision, Bounds, bounds_of, CoverageEntry, RecomputeKey,
  affected_units, contains_source,
}
use goodmoneying.Coverage.Recompute.Queue.{
  IndicatorInvalidation, new_indicator, Queue, has_job, Change, fingerprint, affected_ranges,
  indicators_first, margin, enqueue_known, enqueue_within, enqueue_for,
  enqueue_quality_transition_recomputation, change_of, enqueue_events,
}
use goodmoneying.Coverage.Recompute.Jobs.{
  AreQueued, Grows, Grows-refl, Grows-trans, invalidate_indicators-Grows, IsServed,
  enqueue_ranges_lem,
}
use goodmoneying.Rollup.{RollupUnit, RollupInvalidationRange}
use goodmoneying.Rollup.Candles.{SourceUnit, source_1m, source_1d}
use goodmoneying.Rollup.Ranges.{affected_rollup_ranges_for_interval-AllCover}
use goodmoneying.Rollup.Inside.{IsInside, AllCover-IsInside}
use goodmoneying.Coverage.Recompute.Around.{any-mem, bounds_of-around}

indicators_first-Grows :
    {fingerprint_of : RecomputeKey → String} (unit : SourceUnit) (new : IndicatorInvalidation)
    (queue : Queue)
    → AreQueued fingerprint_of queue
    → Grows fingerprint_of queue (indicators_first unit new queue)
indicators_first-Grows source_1d new queue h = Grows-refl queue h
indicators_first-Grows source_1m new queue h = invalidate_indicators-Grows new queue h

module _ {Evidence : Type 0} (coverage_hash : List CoverageEntry → String)
    (fingerprint_of : RecomputeKey → String) (catalog : Catalog)
    (intervals : List (Interval Evidence)) where
  -- For every source candle of the instrument in the range of the change, and every affected unit,
  -- there is a job with the fingerprint of a range that has the candle.
  abbrev IsEnqueuedIn : Context → Change → Queue → Type 0
  IsEnqueuedIn context change queue =
      (s : SourceRevision)
      → Memᴰ s catalog.source_candle_revisions
      → s.instrument_id ≡ context.instrument_id
      → change.event_start_at ≤ s.candle_start_at
      → s.candle_start_at < change.event_end_at
      → (unit : RollupUnit) → Memᴰ unit (affected_units context.unit)
      → (r : RollupInvalidationRange) × (r.candle_unit ≡ unit)
        × (r.start_at ≤ s.candle_start_at)
        × (s.candle_start_at < r.end_at)
        × (has_job (fingerprint coverage_hash fingerprint_of catalog intervals context change r)
              queue
            ≡ true)

  -- The same, if the target is one of source candles.
  abbrev pub IsEnqueued : ℕ → Change → Queue → Type 0
  IsEnqueued target_spec_id change queue =
      (context : Context)
      → context_of catalog target_spec_id ≡ some context
      → IsEnqueuedIn context change queue

  -- An instant of the change that has a source candle is in one of the affected ranges.
  affected_ranges-IsInside :
      (context : Context) (bounds : Bounds) (change : Change) (at : ℕ)
      → bounds.first_at ≤ at
      → at ≤ bounds.last_at
      → change.event_start_at ≤ at
      → at < change.event_end_at
      → (unit : RollupUnit) → Memᴰ unit (affected_units context.unit)
      → IsInside unit at
          (affected_ranges coverage_hash fingerprint_of catalog intervals context bounds change)
  affected_ranges-IsInside context bounds change at first last start end unit m =
      let start' = max change.event_start_at (bounds.first_at - margin) in
      let end' = min change.event_end_at (bounds.last_at + margin) in
      let from : start' ≤ at = omega (arith, first, start) in
      let below : at < end' = omega (arith, last, end) in
      AllCover-IsInside unit at start' end' (affected_units context.unit) _
        (affected_rollup_ranges_for_interval-AllCover (affected_units context.unit) start' end'
          (omega (arith, from, below)))
        m from below

  served-IsEnqueuedIn :
      (context : Context) (bounds : Bounds) (change : Change) (after : Queue)
      → bounds_of context.instrument_id catalog.source_candle_revisions ≡ some bounds
      → All
          (IsServed coverage_hash fingerprint_of catalog intervals context bounds change after)
          (affected_ranges coverage_hash fingerprint_of catalog intervals context bounds change)
      → IsEnqueuedIn context change after
  unfolding contains_source
  served-IsEnqueuedIn context bounds change after found served s listed mine start end unit m =
      let (b, found', first, last) =
        bounds_of-around context.instrument_id catalog.source_candle_revisions listed mine in
      let same : b ≡ bounds = cc in
      let (r, there, unit_same, from, below) =
        affected_ranges-IsInside context bounds change s.candle_start_at
          (subst (λ c. c.first_at ≤ s.candle_start_at) same first)
          (subst (λ c. s.candle_start_at ≤ c.last_at) same last) start end unit m in
      let has_source =
        any-mem _ catalog.source_candle_revisions listed (ground (arith, mine, from, below)) in
      (r, unit_same, from, below, All-mem _ _ served there has_source)

  enqueue_known-IsEnqueuedIn :
      (context : Context) (bounds : Bounds) (change : Change) (queue : Queue)
      → bounds_of context.instrument_id catalog.source_candle_revisions ≡ some bounds
      → AreQueued fingerprint_of queue
      → (after : Queue) × (enqueue_known coverage_hash fingerprint_of catalog intervals context
            bounds change queue
          ≡ ok after)
        × Grows fingerprint_of queue after
        × IsEnqueuedIn context change after
  unfolding enqueue_known
  enqueue_known-IsEnqueuedIn context bounds change queue found h =
      let first =
        indicators_first-Grows context.unit (new_indicator context bounds change) queue h in
      let (after, e, grows, served) =
        enqueue_ranges_lem coverage_hash fingerprint_of catalog intervals context bounds change
          (affected_ranges coverage_hash fingerprint_of catalog intervals context bounds change)
          (indicators_first context.unit (new_indicator context bounds change) queue)
          first.queued in
      (
        after,
        e,
        Grows-trans first grows,
        served-IsEnqueuedIn context bounds change after found served,
      )

  enqueue_within-IsEnqueuedIn :
      (context : Context) (o : Option Bounds) (change : Change) (queue : Queue)
      → bounds_of context.instrument_id catalog.source_candle_revisions ≡ o
      → AreQueued fingerprint_of queue
      → (after : Queue) × (enqueue_within coverage_hash fingerprint_of catalog intervals context o
            change queue
          ≡ ok after)
        × Grows fingerprint_of queue after
        × IsEnqueuedIn context change after
  unfolding enqueue_within
  enqueue_within-IsEnqueuedIn context (some bounds) change queue found h =
      enqueue_known-IsEnqueuedIn context bounds change queue found h
  enqueue_within-IsEnqueuedIn context none change queue found h = (
    queue,
    refl,
    Grows-refl queue h,
    (λ s listed mine start end unit m.
        let (b, found', _, _) =
          bounds_of-around context.instrument_id catalog.source_candle_revisions listed mine in
        cc),
  )

  enqueue_for-IsEnqueued :
      (target_spec_id : ℕ) (o : Option Context) (change : Change) (queue : Queue)
      → context_of catalog target_spec_id ≡ o
      → AreQueued fingerprint_of queue
      → (after : Queue) × (enqueue_for coverage_hash fingerprint_of catalog intervals o change queue
          ≡ ok after)
        × Grows fingerprint_of queue after
        × IsEnqueued target_spec_id change after
  unfolding enqueue_for
  enqueue_for-IsEnqueued target_spec_id none change queue known h =
      (queue, refl, Grows-refl queue h, (λ context known'. cc))
  enqueue_for-IsEnqueued target_spec_id (some context) change queue known h =
      let (after, e, grows, enqueued) = enqueue_within-IsEnqueuedIn context _ change queue refl h in
      (
        after,
        e,
        grows,
        (λ context' known'.
            let same : context ≡ context' = cc in
            subst (λ c. IsEnqueuedIn c change after) same enqueued),
      )

  IsEnqueued-Grows :
      (target_spec_id : ℕ) (change : Change) (before after : Queue)
      → Grows fingerprint_of before after
      → IsEnqueued target_spec_id change before
      → IsEnqueued target_spec_id change after
  IsEnqueued-Grows target_spec_id change before after grows h context known s listed mine start end
        unit m =
      let (r, unit_same, from, below, there) = h context known s listed mine start end unit m in
      (r, unit_same, from, below, grows.kept _ there)

  pub enqueue_events-IsEnqueued :
      (target_spec_id assessed_at : ℕ) (events : List (QualityEvent Evidence)) (queue : Queue)
      → AreQueued fingerprint_of queue
      → (after : Queue) × (enqueue_events coverage_hash fingerprint_of catalog intervals
            target_spec_id assessed_at events queue
          ≡ ok after)
        × Grows fingerprint_of queue after
        × All
            (λ e.
              IsEnqueued target_spec_id
                (change_of coverage_hash fingerprint_of catalog intervals assessed_at e)
                after)
            events
  unfolding enqueue_events enqueue_quality_transition_recomputation
  enqueue_events-IsEnqueued target_spec_id assessed_at [] queue h =
      (queue, refl, Grows-refl queue h, tt)
  enqueue_events-IsEnqueued target_spec_id assessed_at (event ∷ events) queue h =
      let change = change_of coverage_hash fingerprint_of catalog intervals assessed_at event in
      let (between, e, grows, enqueued) =
        enqueue_for-IsEnqueued target_spec_id _ change queue refl h in
      let (after, e', grows', rest) =
        enqueue_events-IsEnqueued target_spec_id assessed_at events between grows.queued in
      (
        after,
        ap
              (λ c.
                c
                >>= enqueue_events coverage_hash fingerprint_of catalog intervals target_spec_id
                    assessed_at events)
              e
            ∙ e',
        Grows-trans grows grows',
        (IsEnqueued-Grows target_spec_id change between after grows' enqueued, rest),
      )
