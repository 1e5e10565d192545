-- ===== src/Rollup/Ohlc.antt =====
-- The prices of the candles that aggregate_candles of aggregation.py makes of minute candles.
use Prim.Native.String.{String}
use mathlib.Core.Path.{subst}
use mathlib.Core.List.{Memᴰ}
use goodmoneying.Prelude.{
  ℕ, ◌≤◌, ◌≡◌, refl, sym, ap, ◌∙◌, ◌⊎◌, inl, inr, Bool, true, false, List, [], ◌∷◌, ◌++◌, map, All,
  All-imp, All-mem, All-append, if◌then◌else◌, Bool-cases, arith,
}
use goodmoneying.Prelude.Decimal.{Decimal, decimal_lt, decimal_lt_asym, decimal_lt_irrefl}
use goodmoneying.Prelude.DecimalOrder.{decimal_lt_trans_not}
use goodmoneying.Prelude.Sort.{sort_by, IsSorted, sort_by-IsSorted, All-sort_by, All-of_sort_by}
use goodmoneying.Rollup.{RollupUnit}
use goodmoneying.Rollup.Candles.{
  SourceCandle, CoverageSlice, CandleView, Candle, of_source, started_at, open_of, high_of, low_of,
  close_of, HashedInput,
}
use goodmoneying.Rollup.Aggregate.{
  highest, lowest, last_of, group_view, view_of_group, view_of_sorted, views_of,
}
use goodmoneying.Rollup.Derive.{minutes_of, expected_size, of_minutes}
use goodmoneying.Rollup.Partition.{in_bucket, group_of, of_minutes-ArePartitioned}
pub mod Views

-- One of the candles gives the amount.
abbrev pub IsOneOf : (Candle → Decimal) → List Candle → Decimal → Type 0
IsOneOf amount items d = (c : Candle) × Memᴰ c items × (d ≡ amount c)

-- The high of a view is one of the highs and none is above it, the low is one of the lows and none is below it, and
-- it opens as an earliest candle does and closes as a latest one does.
pub record IsOhlc (items : List Candle) (v : CandleView) : Type 0 where
  pub high_bound : All (λ c. decimal_lt v.high (high_of c) ≡ false) items
  pub high_one : IsOneOf high_of items v.high
  pub low_bound : All (λ c. decimal_lt (low_of c) v.low ≡ false) items
  pub low_one : IsOneOf low_of items v.low
  pub opening : Candle
  pub opening_one : Memᴰ opening items
  pub opening_first : All (λ c. started_at opening ≤ started_at c) items
  pub opens : v.first ≡ open_of opening
  pub closing : Candle
  pub closing_one : Memᴰ closing items
  pub closing_last : All (λ c. started_at c ≤ started_at closing) items
  pub closes : v.close ≡ close_of closing

-- One step of `max`.
pick-lower : (best h : Decimal) → decimal_lt (if decimal_lt best h then h else best) best ≡ false
pick-lower best h = elim (Bool-cases (decimal_lt best h)) [
  | inl less ↦ rw less (decimal_lt_asym best h less)
  | inr not_less ↦ rw not_less (decimal_lt_irrefl best)
]

pick-upper : (best h : Decimal) → decimal_lt (if decimal_lt best h then h else best) h ≡ false
pick-upper best h = elim (Bool-cases (decimal_lt best h)) [
  | inl less ↦ rw less (decimal_lt_irrefl h)
  | inr not_less ↦ rw not_less not_less
]

highest-bound :
    (best : Decimal) (cs : List Candle)
    → (decimal_lt (highest best cs) best ≡ false)
      × All (λ c. decimal_lt (highest best cs) (high_of c) ≡ false) cs
highest-bound best [] = (decimal_lt_irrefl best, tt)
highest-bound best (c ∷ cs) =
    let next = if decimal_lt best (high_of c) then high_of c else best in
    let (above, rest) = highest-bound next cs in
    (
      decimal_lt_trans_not _ next best above (pick-lower best (high_of c)),
      (decimal_lt_trans_not _ next (high_of c) above (pick-upper best (high_of c)), rest),
    )

highest-one :
    (all : List Candle) (best : Decimal) (cs : List Candle)
    → IsOneOf high_of all best
    → All (λ c. Memᴰ c all) cs
    → IsOneOf high_of all (highest best cs)
highest-one all best [] h within = h
highest-one all best (c ∷ cs) h within = elim (Bool-cases (decimal_lt best (high_of c))) [
  | inl less ↦ rw less (highest-one all (high_of c) cs (c, within.0, refl) within.1)
  | inr not_less ↦ rw not_less (highest-one all best cs h within.1)
]

-- One step of `min`.
take-lower : (best l : Decimal) → decimal_lt best (if decimal_lt l best then l else best) ≡ false
take-lower best l = elim (Bool-cases (decimal_lt l best)) [
  | inl less ↦ rw less (decimal_lt_asym l best less)
  | inr not_less ↦ rw not_less (decimal_lt_irrefl best)
]

take-upper : (best l : Decimal) → decimal_lt l (if decimal_lt l best then l else best) ≡ false
take-upper best l = elim (Bool-cases (decimal_lt l best)) [
  | inl less ↦ rw less (decimal_lt_irrefl l)
  | inr not_less ↦ rw not_less not_less
]

lowest-bound :
    (best : Decimal) (cs : List Candle)
    → (decimal_lt best (lowest best cs) ≡ false)
      × All (λ c. decimal_lt (low_of c) (lowest best cs) ≡ false) cs
lowest-bound best [] = (decimal_lt_irrefl best, tt)
lowest-bound best (c ∷ cs) =
    let next = if decimal_lt (low_of c) best then low_of c else best in
    let (below, rest) = lowest-bound next cs in
    (
      decimal_lt_trans_not best next _ (take-lower best (low_of c)) below,
      (decimal_lt_trans_not (low_of c) next _ (take-upper best (low_of c)) below, rest),
    )

lowest-one :
    (all : List Candle) (best : Decimal) (cs : List Candle)
    → IsOneOf low_of all best
    → All (λ c. Memᴰ c all) cs
    → IsOneOf low_of all (lowest best cs)
lowest-one all best [] h within = h
lowest-one all best (c ∷ cs) h within = elim (Bool-cases (decimal_lt (low_of c) best)) [
  | inl less ↦ rw less (lowest-one all (low_of c) cs (c, within.0, refl) within.1)
  | inr not_less ↦ rw not_less (lowest-one all best cs h within.1)
]

last_of-mem : (c : Candle) (cs : List Candle) → Memᴰ (last_of c cs) (c ∷ cs)
last_of-mem c [] = Memᴰ.head refl
last_of-mem c (next ∷ cs) = Memᴰ.tail (last_of-mem next cs)

last_of-latest :
    (c : Candle) (cs : List Candle)
    → IsSorted started_at (c ∷ cs)
    → All (λ y. started_at y ≤ started_at (last_of c cs)) (c ∷ cs)
last_of-latest c [] h = (omega arith, tt)
last_of-latest c (next ∷ cs) h =
    let rest = last_of-latest next cs h.1 in
    let first = rest.0 in let before = h.0.0 in (omega (arith, first, before), rest)

pub mem_self : (items : List Candle) → All (λ c. Memᴰ c items) items
mem_self [] = tt
mem_self (c ∷ cs) = (Memᴰ.head refl, All-imp _ _ cs (λ y m. Memᴰ.tail m) (mem_self cs))

module _ (digest : List HashedInput → String) (unit : RollupUnit) (size : ℕ)
    (coverage : List CoverageSlice) where
  pub group_view-IsOhlc :
      (bucket : ℕ) (first : Candle) (rest : List Candle)
      → IsSorted started_at (first ∷ rest)
      → IsOhlc (first ∷ rest) (group_view digest unit size coverage bucket first rest)
  unfolding group_view
  group_view-IsOhlc bucket first rest sorted =
      let all = first ∷ rest in
      let here : Memᴰ first all = Memᴰ.head refl in
      let within = (mem_self all).1 in
      record {
        high_bound = highest-bound (high_of first) rest;
        high_one = highest-one all (high_of first) rest (first, here, refl) within;
        low_bound = lowest-bound (low_of first) rest;
        low_one = lowest-one all (low_of first) rest (first, here, refl) within;
        opening = first;
        opening_one = here;
        opening_first = (omega arith, sorted.0);
        opens = refl;
        closing = last_of first rest;
        closing_one = last_of-mem first rest;
        closing_last = last_of-latest first rest sorted;
        closes = refl;
      }
