-- ===== src/Rollup/Ranges.antt =====
-- The ranges of affected_rollup_ranges_for_interval in incremental_aggregation.py, for one unit.
use mathlib.Core.Path.{subst}
use goodmoneying.Prelude.{
  ℕ, zero, suc, ◌+◌, ◌-◌, ◌≤◌, ◌<◌, ◌≡◌, refl, sym, ap, ◌∙◌, inl, inr, false, List, [], ◌∷◌, ◌++◌,
  leb, if◌then◌else◌, Bool-cases, arith,
}
use goodmoneying.Rollup.{
  RollupUnit, RollupInvalidationRange, max_output_buckets_per_job, rollup_bucket_start,
  rollup_bucket_end, fill_group, next_group, unit_ranges, interval_ranges, all_units_ranges,
  affected_rollup_ranges_for_interval,
}
use goodmoneying.Rollup.Buckets.{
  rollup_bucket_start-IsInBucket, rollup_bucket_end-later, IsStart, rollup_bucket_start-IsStart,
  rollup_bucket_end-IsStart, next_start,
}

-- So many buckets on.
abbrev pub buckets_later : RollupUnit → ℕ → ℕ → ℕ
buckets_later unit zero at = at
buckets_later unit (suc n) at = buckets_later unit n (rollup_bucket_end unit at)

-- Ranges of 1 to 512 buckets, each of which begins where the one before it ends; the last of them
-- ends behind `last`.
abbrev pub IsChain : RollupUnit → ℕ → ℕ → List RollupInvalidationRange → Type 0
IsChain unit last current [] = last < current
IsChain unit last current (r ∷ ranges) =
    (r.candle_unit ≡ unit)
    × (r.start_at ≡ current)
    × (r.start_at ≤ last)
    × (0 < r.output_bucket_count)
    × (r.output_bucket_count ≤ max_output_buckets_per_job)
    × (r.end_at ≡ buckets_later unit r.output_bucket_count r.start_at)
    × IsChain unit last r.end_at ranges

-- Where a chain ends.
abbrev pub chain_end : ℕ → List RollupInvalidationRange → ℕ
chain_end current [] = current
chain_end current (r ∷ ranges) = chain_end r.end_at ranges

module _ (unit : RollupUnit) (last : ℕ) where
  -- What the inner loop counts beyond `count`, it has walked.
  fill_group_lem :
      (room current count : ℕ)
      → (n : ℕ) × (n ≤ room)
        × ((fill_group unit last room current count).1 ≡ count + n)
        × ((fill_group unit last room current count).0 ≡ buckets_later unit n current)
        × (0 < room → current ≤ last → 0 < n)
  unfolding fill_group
  fill_group_lem zero current count =
      (0, omega arith, omega arith, refl, (λ h k. absurd (omega (arith, h))))
  fill_group_lem (suc room) current count = elim (Bool-cases (leb current last)) [
    | inl more ↦
        let (n, le, counted, walked, _) =
          fill_group_lem room (rollup_bucket_end unit current) (count + 1) in
        rw more (suc n, omega (arith, le), omega (arith, counted), walked, (λ _ _. omega arith))
    | inr done ↦ rw done (0, omega arith, omega arith, refl, (λ h k. ground (arith, done, k)))
  ]

  buckets_later_beyond : (n current : ℕ) → 0 < n → current < buckets_later unit n current
  buckets_later_beyond zero current h = absurd (omega (arith, h))
  buckets_later_beyond (suc zero) current h = rollup_bucket_end-later unit current
  buckets_later_beyond (suc (suc n)) current h = omega (
    arith,
    rollup_bucket_end-later unit current,
    buckets_later_beyond (suc n) (rollup_bucket_end unit current) (omega arith),
  )

  -- A group of 1 to 512 buckets, and where it ends.
  next_group_lem :
      (current : ℕ)
      → current ≤ last
      → (0 < (next_group unit last current).1)
        × ((next_group unit last current).1 ≤ max_output_buckets_per_job)
        × ((next_group unit last current).0
            ≡ buckets_later unit (next_group unit last current).1 current)
  unfolding next_group
  next_group_lem current more =
      let (n, le, counted, walked, some_bucket) =
        fill_group_lem max_output_buckets_per_job current 0 in
      let same : n ≡ (fill_group unit last max_output_buckets_per_job current 0).1 =
        omega (arith, counted) in
      (
        omega (arith, same, some_bucket (omega arith) more),
        omega (arith, same, le),
        walked ∙ ap (λ k. buckets_later unit k current) same,
      )

  unit_ranges-IsChain :
      (fuel current : ℕ)
      → last + 1 ≤ fuel + current
      → IsChain unit last current (unit_ranges unit last fuel current)
  unfolding unit_ranges
  unit_ranges-IsChain zero current enough = omega (arith, enough)
  unit_ranges-IsChain (suc fuel) current enough = elim (Bool-cases (leb current last)) [
    | inl more ↦
        let le : current ≤ last = ground (arith, more) in
        let (some_bucket, bound, walked) = next_group_lem current le in
        let beyond : current < (next_group unit last current).0 =
          subst (λ e. current < e) (sym walked)
            (buckets_later_beyond (next_group unit last current).1 current some_bucket) in
        rw more (
          refl,
          refl,
          le,
          some_bucket,
          bound,
          walked,
          unit_ranges-IsChain fuel (next_group unit last current).0 (omega (arith, enough, beyond)),
        )
    | inr done ↦ rw done (ground (arith, done))
  ]

-- The ranges of a unit for a non-empty interval begin with the bucket of its start, follow one
-- another without a gap, have 1 to 512 buckets each, and end behind the start of the bucket of its
-- last instant.
interval_ranges-IsChain :
    (unit : RollupUnit) (start_at end_at : ℕ)
    → (rollup_bucket_start unit start_at ≤ start_at)
      × IsChain unit
          (rollup_bucket_start unit (end_at - 1))
          (rollup_bucket_start unit start_at)
          (interval_ranges unit start_at end_at)
unfolding interval_ranges
interval_ranges-IsChain unit start_at end_at = (
  (rollup_bucket_start-IsInBucket unit start_at).0,
  unit_ranges-IsChain unit (rollup_bucket_start unit (end_at - 1))
      (rollup_bucket_start unit (end_at - 1) + 1 - rollup_bucket_start unit start_at)
      (rollup_bucket_start unit start_at) (omega arith),
)

module _ (unit : RollupUnit) (last : ℕ) where
  buckets_later-IsStart : (n at : ℕ) → IsStart unit at → IsStart unit (buckets_later unit n at)
  buckets_later-IsStart zero at h = h
  buckets_later-IsStart (suc n) at h =
      buckets_later-IsStart n (rollup_bucket_end unit at) (rollup_bucket_end-IsStart unit at h)

  chain_end-IsStart :
      (ranges : List RollupInvalidationRange) (current : ℕ)
      → IsChain unit last current ranges
      → IsStart unit current
      → IsStart unit (chain_end current ranges) × (last < chain_end current ranges)
  chain_end-IsStart [] current h start = (start, h)
  chain_end-IsStart (r ∷ ranges) current (_, begins, _, _, _, walked, rest) start =
      chain_end-IsStart ranges r.end_at rest (
        subst (IsStart unit) (sym walked) (
          buckets_later-IsStart r.output_bucket_count r.start_at
            (subst (IsStart unit) (sym begins) start)))

-- The ranges of a unit reach from the start to the end of the interval.
interval_ranges-end :
    (unit : RollupUnit) (start_at end_at : ℕ)
    → start_at < end_at
    → end_at ≤ chain_end (rollup_bucket_start unit start_at) (interval_ranges unit start_at end_at)
interval_ranges-end unit start_at end_at less =
    let last = rollup_bucket_start unit (end_at - 1) in
    let chain = (interval_ranges-IsChain unit start_at end_at).1 in
    let (starts, beyond) =
      chain_end-IsStart unit last (interval_ranges unit start_at end_at)
        (rollup_bucket_start unit start_at) chain (rollup_bucket_start-IsStart unit start_at) in
    omega (
      arith,
      less,
      next_start unit last
          (chain_end (rollup_bucket_start unit start_at) (interval_ranges unit start_at end_at))
          (rollup_bucket_start-IsStart unit (end_at - 1)) starts beyond,
      (rollup_bucket_start-IsInBucket unit (end_at - 1)).1,
    )

-- The ranges of one unit: a chain from the bucket of the start to behind the start of the bucket of
-- the last instant, and to the end of the interval at least.
abbrev pub Covers : ℕ → ℕ → RollupUnit → List RollupInvalidationRange → Type 0
Covers start_at end_at unit ranges =
    (rollup_bucket_start unit start_at ≤ start_at)
    × IsChain unit (rollup_bucket_start unit (end_at - 1)) (rollup_bucket_start unit start_at)
        ranges
    × (end_at ≤ chain_end (rollup_bucket_start unit start_at) ranges)

-- For each unit in turn, ranges that cover the interval.
abbrev pub AllCover : ℕ → ℕ → List RollupUnit → List RollupInvalidationRange → Type 0
AllCover start_at end_at [] ranges = ranges ≡ []
AllCover start_at end_at (unit ∷ units) ranges =
    (mine : List RollupInvalidationRange) × (others : List RollupInvalidationRange) × (ranges
      ≡ mine ++ others)
    × Covers start_at end_at unit mine
    × AllCover start_at end_at units others

all_units_ranges-AllCover :
    (units : List RollupUnit) (start_at end_at : ℕ)
    → start_at < end_at
    → AllCover start_at end_at units (all_units_ranges units start_at end_at)
unfolding all_units_ranges
all_units_ranges-AllCover [] start_at end_at less = refl
all_units_ranges-AllCover (unit ∷ units) start_at end_at less =
    let (before, chain) = interval_ranges-IsChain unit start_at end_at in
    (
      interval_ranges unit start_at end_at,
      all_units_ranges units start_at end_at,
      refl,
      (before, chain, interval_ranges-end unit start_at end_at less),
      all_units_ranges-AllCover units start_at end_at less,
    )

-- For a non-empty interval the result has, for each unit in turn, ranges of 1 to 512 buckets each
-- that begin with the bucket of the interval's start, follow one another without a gap, and reach
-- the end of the interval.
pub affected_rollup_ranges_for_interval-AllCover :
    (units : List RollupUnit) (start_at end_at : ℕ)
    → start_at < end_at
    → AllCover start_at end_at units (affected_rollup_ranges_for_interval start_at end_at units)
unfolding affected_rollup_ranges_for_interval
affected_rollup_ranges_for_interval-AllCover units start_at end_at less =
    let some_time : leb end_at start_at ≡ false = ground (arith, less) in
    subst
      (λ b.
        AllCover start_at end_at units (if b then [] else all_units_ranges units start_at end_at))
      (sym some_time) (all_units_ranges-AllCover units start_at end_at less)
