-- ===== src/Rollup/Ohlc/Views.antt =====
-- The prices of all the candles that aggregate_candles of aggregation.py makes of minute candles.
use Prim.Native.String.{String}
use mathlib.Core.Path.{subst}
use mathlib.Core.List.{Memᴰ}
use goodmoneying.Prelude.{ℕ, sym, List, [], ◌∷◌, map, All, All-mem, All-append}
use goodmoneying.Prelude.Sort.{sort_by, IsSorted, sort_by-IsSorted, All-sort_by, All-of_sort_by}
use goodmoneying.Rollup.{RollupUnit}
use goodmoneying.Rollup.Candles.{
  SourceCandle, CoverageSlice, CandleView, Candle, of_source, started_at, HashedInput,
}
use goodmoneying.Rollup.Aggregate.{group_view, view_of_group, view_of_sorted, views_of}
use goodmoneying.Rollup.Derive.{minutes_of, expected_size, of_minutes}
use goodmoneying.Rollup.Partition.{in_bucket, group_of, of_minutes-ArePartitioned}
use goodmoneying.Rollup.Ohlc.{IsOhlc, mem_self, group_view-IsOhlc}

mem-of_sort : (items : List Candle) {c : Candle} → Memᴰ c (sort_by started_at items) → Memᴰ c items
mem-of_sort items m =
    All-mem (λ y. Memᴰ y items) (sort_by started_at items)
      (All-sort_by started_at (λ y. Memᴰ y items) items (mem_self items)) m

-- The order of the candles does not matter.
of_sort-IsOhlc :
    (items : List Candle) (v : CandleView) → IsOhlc (sort_by started_at items) v → IsOhlc items v
of_sort-IsOhlc items v h =
    let (high, high_mem, high_eq) = h.high_one in
    let (low, low_mem, low_eq) = h.low_one in
    record {
      high_bound = All-of_sort_by started_at _ items h.high_bound;
      high_one = (high, mem-of_sort items high_mem, high_eq);
      low_bound = All-of_sort_by started_at _ items h.low_bound;
      low_one = (low, mem-of_sort items low_mem, low_eq);
      opening = h.opening;
      opening_one = mem-of_sort items h.opening_one;
      opening_first = All-of_sort_by started_at _ items h.opening_first;
      opens = h.opens;
      closing = h.closing;
      closing_one = mem-of_sort items h.closing_one;
      closing_last = All-of_sort_by started_at _ items h.closing_last;
      closes = h.closes;
    }

-- The view has the prices of the items of its bucket.
abbrev pub HasPrices : RollupUnit → List Candle → CandleView → Type 0
HasPrices unit items v = IsOhlc (in_bucket unit v.started_at items) v

module _ (digest : List HashedInput → String) (unit : RollupUnit) (coverage : List CoverageSlice)
    (items : List Candle) where
  view_of_sorted-AllPrices :
      (size bucket : ℕ) (sorted : List Candle)
      → IsSorted started_at sorted
      → ((v : CandleView) → IsOhlc sorted v → IsOhlc (in_bucket unit bucket items) v)
      → All (HasPrices unit items) (view_of_sorted digest unit size coverage bucket sorted)
  unfolding group_view
  view_of_sorted-AllPrices size bucket [] ascending back = tt
  view_of_sorted-AllPrices size bucket (first ∷ rest) ascending back =
      (back _ (group_view-IsOhlc digest unit size coverage bucket first rest ascending), tt)

  views_of-AllPrices :
      (size : ℕ) (keys : List ℕ)
      → All
          (HasPrices unit items)
          (views_of digest unit size coverage (map (group_of unit items) keys))
  views_of-AllPrices size [] = tt
  views_of-AllPrices size (b ∷ keys) =
      let mine = in_bucket unit b items in
      All-append (HasPrices unit items)
        (view_of_group digest unit size coverage (group_of unit items b)) _
        (view_of_sorted-AllPrices size b (sort_by started_at mine)
          (sort_by-IsSorted started_at mine) (of_sort-IsOhlc mine))
        (views_of-AllPrices size keys)

-- A candle that is derived from minutes has the prices of the minute candles of its bucket: its high is one of
-- their highs and none is above it, its low is one of their lows and none is below it, it opens as one of the
-- earliest of them does and closes as one of the latest does.
pub of_minutes-AllPrices :
    (digest : List HashedInput → String) (coverage : List CoverageSlice)
    (source : List SourceCandle) (unit : RollupUnit)
    → All
        (HasPrices unit (map of_source (minutes_of source)))
        (of_minutes digest coverage source unit)
of_minutes-AllPrices digest coverage source unit =
    let items = map of_source (minutes_of source) in
    let parts = of_minutes-ArePartitioned digest coverage source unit in
    subst (All (HasPrices unit items)) (sym parts.made_of)
      (views_of-AllPrices digest unit coverage items (expected_size unit) parts.keys)
