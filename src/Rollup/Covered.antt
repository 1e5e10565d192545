-- ===== src/Rollup/Covered.antt =====
-- Which instants the ranges of affected_rollup_ranges in incremental_aggregation.py contain.
use mathlib.Core.Path.{subst}
use goodmoneying.Prelude.{
  ℕ, zero, suc, ◌+◌, ◌≤◌, ◌≡◌, refl, sym, ap, ◌∙◌, inl, inr, Bool, true, false, ◌&&◌, List, [], ◌∷◌,
  ◌++◌, All, All-imp, any, ltb, leb, ◌==◌, Bool-cases, ==_iff, arith,
}
use goodmoneying.Rollup.{
  RollupUnit, RollupInvalidationRange, rollup_bucket_start, rollup_bucket_end,
  max_output_buckets_per_job,
}
use goodmoneying.Rollup.Buckets.{rollup_bucket_start-IsInBucket, rollup_bucket_end-later}
use goodmoneying.Rollup.Ranges.{buckets_later}
use goodmoneying.Rollup.Scattered.{
  insert_start, bucket_starts, range_of, compress, compressed, affected_rollup_ranges,
}

any-tail {ℓ} :
    {A : Type ℓ} (p : A → Bool) (x : A) (xs : List A) → any p xs ≡ true → any p (x ∷ xs) ≡ true
any-tail p x xs h = ground (arith, h)

module _ (unit : RollupUnit) where
  -- A range of the unit that ends as many buckets after its start as it says: at least one, and no more than a job
  -- takes.
  abbrev pub IsJob : RollupInvalidationRange → Type 0
  IsJob r =
      (r.candle_unit ≡ unit)
      × (1 ≤ r.output_bucket_count)
      × (r.output_bucket_count ≤ 512)
      × (r.end_at ≡ buckets_later unit r.output_bucket_count r.start_at)

  buckets_later_next :
      (n at : ℕ) → buckets_later unit (suc n) at ≡ rollup_bucket_end unit (buckets_later unit n at)
  buckets_later_next zero at = refl
  buckets_later_next (suc n) at = buckets_later_next n (rollup_bucket_end unit at)

  -- A range contains the whole bucket.
  abbrev holds_bucket : ℕ → RollupInvalidationRange → Bool
  holds_bucket s r = leb r.start_at s && leb (rollup_bucket_end unit s) r.end_at

  abbrev Holds : List RollupInvalidationRange → ℕ → Type 0
  Holds ranges s = any (holds_bucket s) ranges ≡ true

  module _ (group_start previous count current : ℕ) (starts : List ℕ) where
    abbrev joins : Bool
    joins = (current == rollup_bucket_end unit previous) && ltb count max_output_buckets_per_job

    compress-joined :
        joins ≡ true
        → compress unit group_start previous count (current ∷ starts)
          ≡ compress unit group_start current (count + 1) starts
    unfolding compress
    compress-joined h = rw (h, compress) refl

    compress-closed :
        joins ≡ false
        → compress unit group_start previous count (current ∷ starts)
          ≡ range_of unit group_start previous count ∷ compress unit current current 1 starts
    unfolding compress
    compress-closed h = rw (h, compress) refl

  -- The group that is open contains every bucket between its start and the end of its last one.
  compress-Holds_group :
      (group_start previous count : ℕ) (starts : List ℕ) (s : ℕ)
      → group_start ≤ s
      → rollup_bucket_end unit s ≤ rollup_bucket_end unit previous
      → Holds (compress unit group_start previous count starts) s
  unfolding compress
  compress-Holds_group group_start previous count [] s after inside = ground (arith, after, inside)
  compress-Holds_group group_start previous count (current ∷ starts) s after inside =
      elim (Bool-cases (joins group_start previous count current starts)) [
        | inl joined ↦
            let e : current ≡ rollup_bucket_end unit previous = ground (arith, joined) in
            let later = rollup_bucket_end-later unit current in
            subst (λ rs. Holds rs s)
              (sym (compress-joined group_start previous count current starts joined))
              (compress-Holds_group group_start current (count + 1) starts s after
                (omega (arith, inside, e, later)))
        | inr closed ↦
            subst (λ rs. Holds rs s)
              (sym (compress-closed group_start previous count current starts closed))
              (ground (arith, after, inside))
      ]

  compress-Holds :
      (group_start previous count : ℕ) (starts : List ℕ)
      → group_start ≤ previous
      → All (Holds (compress unit group_start previous count starts)) starts
  unfolding compress
  compress-Holds group_start previous count [] start = tt
  compress-Holds group_start previous count (current ∷ starts) start =
      elim (Bool-cases (joins group_start previous count current starts)) [
        | inl joined ↦
            let e : current ≡ rollup_bucket_end unit previous = ground (arith, joined) in
            let start' : group_start ≤ current =
              omega (arith, start, e, rollup_bucket_end-later unit previous) in
            subst (λ rs. All (Holds rs) (current ∷ starts))
              (sym (compress-joined group_start previous count current starts joined))
              (
                compress-Holds_group group_start current (count + 1) starts current start'
                    (omega arith),
                compress-Holds group_start current (count + 1) starts start',
              )
        | inr closed ↦
            let more = range_of unit group_start previous count in
            let rest = compress unit current current 1 starts in
            let widen = λ (s : ℕ) (h : Holds rest s). any-tail (holds_bucket s) more rest h in
            subst (λ rs. All (Holds rs) (current ∷ starts))
              (sym (compress-closed group_start previous count current starts closed))
              (
                widen current (
                    compress-Holds_group current current 1 starts current (omega arith)
                      (omega arith)),
                All-imp (Holds rest) (Holds (more ∷ rest)) starts widen
                    (compress-Holds current current 1 starts (omega arith)),
              )
      ]

  next_bucket :
      (group_start previous count current : ℕ)
      → rollup_bucket_end unit previous ≡ buckets_later unit count group_start
      → current ≡ rollup_bucket_end unit previous
      → rollup_bucket_end unit current ≡ buckets_later unit (count + 1) group_start
  next_bucket group_start previous count current walked e =
      ap (rollup_bucket_end unit) (e ∙ walked)
      ∙ sym (buckets_later_next count group_start)
      ∙ ap (λ n. buckets_later unit n group_start) {x = suc count} {y = count + 1} (omega arith)

  compress-AllJob :
      (group_start previous count : ℕ) (starts : List ℕ)
      → 1 ≤ count
      → count ≤ 512
      → rollup_bucket_end unit previous ≡ buckets_later unit count group_start
      → All IsJob (compress unit group_start previous count starts)
  unfolding compress
  compress-AllJob group_start previous count [] some_bucket few walked =
      ((refl, some_bucket, few, walked), tt)
  compress-AllJob group_start previous count (current ∷ starts) some_bucket few walked =
      elim (Bool-cases (joins group_start previous count current starts)) [
        | inl joined ↦
            subst (All IsJob)
              (sym (compress-joined group_start previous count current starts joined))
              (compress-AllJob group_start current (count + 1) starts (omega arith)
                (ground (arith, joined))
                (next_bucket group_start previous count current walked (ground (arith, joined))))
        | inr closed ↦
            subst (All IsJob)
              (sym (compress-closed group_start previous count current starts closed))
              (
                (refl, some_bucket, few, walked),
                compress-AllJob current current 1 starts (omega arith) (omega arith) refl,
              )
      ]

  compressed-Holds : (starts : List ℕ) → All (Holds (compressed unit starts)) starts
  compressed-Holds [] = tt
  compressed-Holds (first ∷ starts) = (
    compress-Holds_group first first 1 starts first (omega arith) (omega arith),
    compress-Holds first first 1 starts (omega arith),
  )

  compressed-AllJob : (starts : List ℕ) → All IsJob (compressed unit starts)
  compressed-AllJob [] = tt
  compressed-AllJob (first ∷ starts) =
      compress-AllJob first first 1 starts (omega arith) (omega arith) refl

  -- What holds of all the elements holds of what was inserted, and of the others.
  All-insert_start :
      (P : ℕ → Type 0) (s : ℕ) (starts : List ℕ)
      → All P (insert_start s starts)
      → P s × All P starts
  All-insert_start P s [] h = h
  All-insert_start P s (t ∷ starts) h = elim (Bool-cases (ltb t s)) [
    | inl before ↦
        let h' : P t × All P (insert_start s starts) = rw before at h in
        let rest = All-insert_start P s starts h'.1 in (rest.0, (h'.0, rest.1))
    | inr not_before ↦ elim (Bool-cases (s == t)) [
      | inl same ↦
          let h' : P t × All P starts = rw (not_before, same) at h in
          (subst P (sym ((==_iff s t).0 same)) h'.0, h')
      | inr other ↦ let h' : P s × (P t × All P starts) = rw (not_before, other) at h in h'
    ]
  ]

  bucket_starts-All :
      (P : ℕ → Type 0) (changed_at : List ℕ)
      → All P (bucket_starts unit changed_at)
      → All (λ at. P (rollup_bucket_start unit at)) changed_at
  unfolding bucket_starts
  bucket_starts-All P [] h = tt
  bucket_starts-All P (at ∷ changed_at) h =
      let both =
        All-insert_start P (rollup_bucket_start unit at) (bucket_starts unit changed_at) h in
      (both.0, bucket_starts-All P changed_at both.1)

  -- The range contains the instant, and is one of the unit's.
  abbrev pub Contains : List RollupInvalidationRange → ℕ → Type 0
  Contains ranges at = any (λ r. leb r.start_at at && ltb at r.end_at) ranges ≡ true

  Holds-Contains :
      (ranges : List RollupInvalidationRange) (at : ℕ)
      → Holds ranges (rollup_bucket_start unit at)
      → Contains ranges at
  Holds-Contains [] at h = h
  Holds-Contains (r ∷ ranges) at h =
      let inside = rollup_bucket_start-IsInBucket unit at in
      let rest = Holds-Contains ranges at in ground (arith, inside, rest, h)

  compressed-Contains :
      (changed_at : List ℕ)
      → All (Contains (compressed unit (bucket_starts unit changed_at))) changed_at
  compressed-Contains changed_at =
      let ranges = compressed unit (bucket_starts unit changed_at) in
      All-imp _ (Contains ranges) changed_at (Holds-Contains ranges) (
        bucket_starts-All (Holds ranges) changed_at
          (compressed-Holds (bucket_starts unit changed_at)))

-- For each unit in turn there are ranges of it that contain all the instants.
abbrev pub AllContain : List ℕ → List RollupUnit → List RollupInvalidationRange → Type 0
AllContain changed_at [] ranges = ranges ≡ []
AllContain changed_at (unit ∷ units) ranges =
    (first : List RollupInvalidationRange) × (rest : List RollupInvalidationRange) × (ranges
      ≡ first ++ rest)
    × All (IsJob unit) first
    × All (Contains unit first) changed_at
    × AllContain changed_at units rest

-- For each unit in turn the result has ranges that end as many buckets after their start as they say, 1 to 512 of
-- them, and every changed instant is in one of them.
pub affected_rollup_ranges-AllContain :
    (changed_at : List ℕ) (units : List RollupUnit)
    → AllContain changed_at units (affected_rollup_ranges changed_at units)
unfolding affected_rollup_ranges
affected_rollup_ranges-AllContain changed_at [] = refl
affected_rollup_ranges-AllContain changed_at (unit ∷ units) = (
  compressed unit (bucket_starts unit changed_at),
  affected_rollup_ranges changed_at units,
  refl,
  compressed-AllJob unit (bucket_starts unit changed_at),
  compressed-Contains unit changed_at,
  affected_rollup_ranges-AllContain changed_at units,
)
