-- ===== src/Coverage/Recompute/Jobs.antt =====
-- What _enqueue_quality_transition_recomputation of coverage_transition.py puts into the queue.
use Prim.Native.String.{String}
use text.Mathlib.Text.{◌==◌ as str_eq}
use text.Mathlib.TextPositions.{eq_refl as str_eq-refl}
use goodmoneying.Prelude.{
  ℕ, ◌<◌, ◌≡◌, refl, ap, ◌∙◌, inl, inr, Bool, true, false, ◌||◌, List, [], ◌∷◌, any, All, All-imp,
  ◌==◌, Bool-cases, arith,
}
use goodmoneying.Prelude.Results.{ok, ◌>>=◌}
use goodmoneying.Coverage.Recompute.Queue.{
  RollupInvalidation, RecomputeJob, Queue, has_invalidation, has_job, enqueue, enqueue_if,
  IndicatorInvalidation, invalidate_indicators, Change, fingerprint, new_invalidation,
  enqueue_ranges,
}
use goodmoneying.Coverage.Recompute.Rows.{IsFingerprinted}
use goodmoneying.Coverage.Replace.{Interval}
use goodmoneying.Coverage.Recompute.{
  Catalog, Context, Bounds, CoverageEntry, RecomputeKey, contains_source,
}
use goodmoneying.Rollup.{RollupInvalidationRange}

-- The invalidations have the fingerprints of what they are for; the jobs have the keys of the invalidations, and no
-- id that is still to be given.
pub record AreQueued (fingerprint_of : RecomputeKey → String) (queue : Queue) : Type 0 where
  pub rows : All (IsFingerprinted fingerprint_of) queue.candle_rollup_invalidations
  pub same : (key : String) → has_job key queue ≡ has_invalidation key queue
  pub fresh :
      All (λ j. j.invalidation_id < queue.next_invalidation_id) queue.candle_rollup_recompute_jobs

fresh-any :
    (id : ℕ) (jobs : List RecomputeJob)
    → All (λ j. j.invalidation_id < id) jobs
    → any (λ j. j.invalidation_id == id) jobs ≡ false
fresh-any id [] h = refl
fresh-any id (j ∷ jobs) h = ground (arith, fresh-any id jobs h.1, h)

-- What a step does to the queue: no job is lost.
pub record Grows (fingerprint_of : RecomputeKey → String) (before after : Queue) : Type 0 where
  pub queued : AreQueued fingerprint_of after
  pub kept : (key : String) → has_job key before ≡ true → has_job key after ≡ true

enqueue_lem :
    {fingerprint_of : RecomputeKey → String} (new : RollupInvalidation) (queue : Queue)
    → IsFingerprinted fingerprint_of new
    → AreQueued fingerprint_of queue
    → (after : Queue) × (enqueue new queue ≡ ok after)
      × Grows fingerprint_of queue after
      × (has_job new.idempotency_key after ≡ true)
unfolding enqueue
enqueue_lem new queue keyed h = elim (Bool-cases (has_invalidation new.idempotency_key queue)) [
  | inl there ↦ rw there (
    _,
    refl,
    record {
      queued = record {
        rows = h.rows;
        same = h.same;
        fresh = All-imp _ _ _ (λ j less. omega (arith, less)) h.fresh;
      };
      kept = λ key k. k;
    },
    h.same new.idempotency_key ∙ there,
  )
  | inr absent ↦
      let no_job = h.same new.idempotency_key ∙ absent in
      rw
        (
          absent,
          no_job,
          fresh-any queue.next_invalidation_id queue.candle_rollup_recompute_jobs h.fresh,
        )
        (
          _,
          refl,
          record {
            queued = record {
              rows = (keyed, h.rows);
              same = λ key. ap (λ b. str_eq new.idempotency_key key || b) (h.same key);
              fresh = (omega arith, All-imp _ _ _ (λ j less. omega (arith, less)) h.fresh);
            };
            kept = λ key k. ground (arith, k);
          },
          ground (arith, str_eq-refl new.idempotency_key),
        )
]

pub Grows-refl :
    {fingerprint_of : RecomputeKey → String} (queue : Queue)
    → AreQueued fingerprint_of queue
    → Grows fingerprint_of queue queue
Grows-refl queue h = record { queued = h; kept = λ key k. k }

pub Grows-trans :
    {f : RecomputeKey → String} {a b c : Queue} → Grows f a b → Grows f b c → Grows f a c
Grows-trans first second = record {
  queued = second.queued;
  kept = λ key k. second.kept key (first.kept key k);
}

enqueue_if_lem :
    {fingerprint_of : RecomputeKey → String} (has_source : Bool) (new : RollupInvalidation)
    (queue : Queue)
    → IsFingerprinted fingerprint_of new
    → AreQueued fingerprint_of queue
    → (after : Queue) × (enqueue_if has_source new queue ≡ ok after)
      × Grows fingerprint_of queue after
      × (has_source ≡ true → has_job new.idempotency_key after ≡ true)
enqueue_if_lem false new queue keyed h = (queue, refl, Grows-refl queue h, (λ e. cc))
enqueue_if_lem true new queue keyed h =
    let (after, e, grows, there) = enqueue_lem new queue keyed h in (after, e, grows, (λ _. there))

pub invalidate_indicators-Grows :
    {fingerprint_of : RecomputeKey → String} (new : IndicatorInvalidation) (queue : Queue)
    → AreQueued fingerprint_of queue
    → Grows fingerprint_of queue (invalidate_indicators new queue)
unfolding invalidate_indicators
invalidate_indicators-Grows new queue h =
    elim (Bool-cases (
      any (λ i. i.changed_quality_event_id == new.changed_quality_event_id)
        queue.indicator_invalidations)) [
          | inl there ↦ rw there (Grows-refl queue h)
          | inr absent ↦ rw absent (record {
            queued = record { rows = h.rows; same = h.same; fresh = h.fresh };
            kept = λ key k. k;
          })
        ]

module _ {Evidence : Type 0} (coverage_hash : List CoverageEntry → String)
    (fingerprint_of : RecomputeKey → String) (catalog : Catalog)
    (intervals : List (Interval Evidence)) where
  module _ (context : Context) (bounds : Bounds) (change : Change) where
    -- The range has a job, if it has a source candle.
    abbrev pub IsServed : Queue → RollupInvalidationRange → Type 0
    IsServed queue r =
        contains_source context.instrument_id r catalog.source_candle_revisions ≡ true
        → has_job (fingerprint coverage_hash fingerprint_of catalog intervals context change r)
            queue
          ≡ true

    pub enqueue_ranges_lem :
        (ranges : List RollupInvalidationRange) (queue : Queue)
        → AreQueued fingerprint_of queue
        → (after : Queue) × (enqueue_ranges coverage_hash fingerprint_of catalog intervals context
              bounds change ranges queue
            ≡ ok after)
          × Grows fingerprint_of queue after
          × All (IsServed after) ranges
    unfolding enqueue_ranges
    enqueue_ranges_lem [] queue h = (queue, refl, Grows-refl queue h, tt)
    enqueue_ranges_lem (r ∷ ranges) queue h =
        let has_source = contains_source context.instrument_id r catalog.source_candle_revisions in
        let new =
          new_invalidation coverage_hash fingerprint_of catalog intervals context bounds change r in
        let (between, e, grows, served) =
          enqueue_if_lem {fingerprint_of = fingerprint_of} has_source new queue
            (_, refl, (refl, refl, refl, refl)) h in
        let (after, e', grows', rest) = enqueue_ranges_lem ranges between grows.queued in
        (
          after,
          ap
                (λ c.
                  c
                  >>= enqueue_ranges coverage_hash fingerprint_of catalog intervals context bounds
                      change ranges)
                e
              ∙ e',
          Grows-trans grows grows',
          ((λ h'. grows'.kept _ (served h')), rest),
        )
