-- ===== src/Rollup/Scattered.antt =====
-- packages/shared/goodmoneying_shared/incremental_aggregation.py: `affected_rollup_ranges`, for changes that lie
-- scattered. Instants are in UTC by their type.
use goodmoneying.Prelude.{ℕ, ◌+◌, true, false, ◌&&◌, List, [], ◌∷◌, ◌++◌, ltb, ◌==◌, if◌then◌else◌}
use goodmoneying.Rollup.{
  RollupUnit, RollupInvalidationRange, rollup_bucket_start, rollup_bucket_end,
  max_output_buckets_per_job,
}

-- `sorted({…})`
abbrev pub insert_start : ℕ → List ℕ → List ℕ
insert_start s [] = s ∷ []
insert_start s (t ∷ starts) =
    let rest = insert_start s starts in
    if ltb t s then t ∷ rest else if s == t then t ∷ starts else s ∷ t ∷ starts

unfoldable pub bucket_starts : RollupUnit → List ℕ → List ℕ
unfolding rollup_bucket_start
bucket_starts unit [] = []
bucket_starts unit (at ∷ changed_at) =
    insert_start (rollup_bucket_start unit at) (bucket_starts unit changed_at)

abbrev pub range_of : RollupUnit → ℕ → ℕ → ℕ → RollupInvalidationRange
range_of unit group_start previous count = record {
  candle_unit = unit;
  start_at = group_start;
  end_at = rollup_bucket_end unit previous;
  output_bucket_count = count;
}

-- The loop over the other starts.
unfoldable pub compress : RollupUnit → ℕ → ℕ → ℕ → List ℕ → List RollupInvalidationRange
compress unit group_start previous count [] = range_of unit group_start previous count ∷ []
compress unit group_start previous count (current ∷ starts) =
    elim ((current == rollup_bucket_end unit previous) && ltb count max_output_buckets_per_job) [
      | true ↦ compress unit group_start current (count + 1) starts
      | false ↦ range_of unit group_start previous count ∷ compress unit current current 1 starts
    ]

abbrev pub compressed : RollupUnit → List ℕ → List RollupInvalidationRange
compressed unit [] = []
compressed unit (first ∷ starts) = compress unit first first 1 starts

unfoldable pub affected_rollup_ranges : List ℕ → List RollupUnit → List RollupInvalidationRange
unfolding bucket_starts compress rollup_bucket_end
affected_rollup_ranges changed_at [] = []
affected_rollup_ranges changed_at (unit ∷ units) =
    compressed unit (bucket_starts unit changed_at) ++ affected_rollup_ranges changed_at units
