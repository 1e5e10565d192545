-- ===== src/Rollup/Candles.antt =====
-- packages/shared/goodmoneying_shared/aggregation.py and models.py: source candles, derived candles, and what
-- the aggregation reads of either.
use Prim.Native.String.{String}
use text.Mathlib.Text.{◌==◌ as str_eq}
use goodmoneying.Prelude.{
  ℕ, zero, suc, ◌/◌, ◌%◌, Option, none, some, List, [], ◌∷◌, ◌==◌, if◌then◌else◌,
}
use goodmoneying.Prelude.Int.{pos, negsuc}
use goodmoneying.Prelude.Decimal.{Decimal, negative, round}

pub data SourceUnit : Type 0 where
  source_1m source_1d : SourceUnit

pub record SourceCandle : Type 0 where
  pub instrument_id : ℕ
  pub candle_unit : SourceUnit
  pub candle_start_at : ℕ
  pub open_price : Decimal
  pub high_price : Decimal
  pub low_price : Decimal
  pub close_price : Decimal
  pub trade_volume : Decimal
  pub trade_amount : Decimal
  pub collected_at : ℕ
  pub revision_id : Option ℕ
  pub input_content_hash : Option String
  pub knowledge_at : Option ℕ

pub data CoverageQuality : Type 0 where
  available no_trade missing unavailable unverified : CoverageQuality

pub record CoverageSlice : Type 0 where
  pub start_at : ℕ
  pub end_at : ℕ
  pub status : CoverageQuality

pub data Completeness : Type 0 where
  complete partial : Completeness

-- The fields that the aggregation sets.
pub record CandleView : Type 0 where
  pub started_at : ℕ
  pub first : Decimal
  pub high : Decimal
  pub low : Decimal
  pub close : Decimal
  pub volume : Decimal
  pub trade_amount : Decimal
  pub completeness : Completeness
  pub source_as_of : Option ℕ
  pub knowledge_at : Option ℕ
  pub input_content_hash : String
  pub quality : CoverageQuality
  pub input_revision_ids : List ℕ
  pub source_revision_through_id : ℕ

-- `SourceCandle | CandleView`
pub data Candle : Type 0 where
  of_source : SourceCandle → Candle
  of_view : CandleView → Candle

abbrev pub started_at : Candle → ℕ
started_at (of_source s) = s.candle_start_at
started_at (of_view v) = v.started_at

abbrev pub open_of : Candle → Decimal
open_of (of_source s) = s.open_price
open_of (of_view v) = v.first

abbrev pub high_of : Candle → Decimal
high_of (of_source s) = s.high_price
high_of (of_view v) = v.high

abbrev pub low_of : Candle → Decimal
low_of (of_source s) = s.low_price
low_of (of_view v) = v.low

abbrev pub close_of : Candle → Decimal
close_of (of_source s) = s.close_price
close_of (of_view v) = v.close

abbrev pub volume_of : Candle → Decimal
volume_of (of_source s) = s.trade_volume
volume_of (of_view v) = v.volume

abbrev pub trade_amount_of : Candle → Decimal
trade_amount_of (of_source s) = s.trade_amount
trade_amount_of (of_view v) = v.trade_amount

abbrev pub source_as_of : Candle → Option ℕ
source_as_of (of_source s) = some s.collected_at
source_as_of (of_view v) = v.source_as_of

-- `item.knowledge_at or item.collected_at`
abbrev pub known_at : SourceCandle → ℕ
known_at s = elim s.knowledge_at [ none ↦ s.collected_at | some at ↦ at ]

abbrev pub knowledge_at : Candle → Option ℕ
knowledge_at (of_source s) = some (known_at s)
knowledge_at (of_view v) = v.knowledge_at

abbrev ids_of : Option ℕ → List ℕ
ids_of none = []
ids_of (some id) = id ∷ []

abbrev pub revision_ids : Candle → List ℕ
revision_ids (of_source s) = ids_of s.revision_id
revision_ids (of_view v) = v.input_revision_ids

-- `item.input_content_hash or None`
abbrev pub hash_or_none : Option String → Option String
hash_or_none none = none
hash_or_none (some hash) = if str_eq hash "" then none else some hash

abbrev pub content_hash : Candle → Option String
content_hash (of_source s) = hash_or_none s.input_content_hash
content_hash (of_view v) = hash_or_none (some v.input_content_hash)

-- The coefficient without zeros at its end, as far as there are places.
abbrev trimmed : ℕ → ℕ → ℕ × ℕ
trimmed n zero = (n, zero)
trimmed n (suc places) =
    let shorter = trimmed (n / 10) places in if n % 10 == 0 then shorter else (n, suc places)

-- `value.normalize()`, which rounds to the precision
unfoldable pub canonical_decimal : Decimal → Decimal
unfolding round
canonical_decimal d =
    let rounded = round d.coefficient d.scale in
    elim rounded.coefficient [
      | pos n ↦
          let (m, places) = trimmed n rounded.scale in
          record { coefficient = pos m; scale = places }
      | negsuc n ↦
          let (m, places) = trimmed (suc n) rounded.scale in
          record { coefficient = negative m; scale = places }
    ]

-- What is hashed of an input.
pub record HashedInput : Type 0 where
  pub at : ℕ
  pub first : Decimal
  pub high : Decimal
  pub low : Decimal
  pub close : Decimal
  pub volume : Decimal
  pub trade_amount : Decimal
  pub source_content_hash : Option String

unfoldable pub hashed_input : Candle → HashedInput
unfolding canonical_decimal
hashed_input c = record {
  at = started_at c;
  first = canonical_decimal (open_of c);
  high = canonical_decimal (high_of c);
  low = canonical_decimal (low_of c);
  close = canonical_decimal (close_of c);
  volume = canonical_decimal (volume_of c);
  trade_amount = canonical_decimal (trade_amount_of c);
  source_content_hash = content_hash c;
}
