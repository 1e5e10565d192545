-- ===== src/Rollup/Aggregate.antt =====
-- packages/shared/goodmoneying_shared/aggregation.py: `aggregate_candles`. The digest of the hashed inputs is an
-- argument.
use Prim.Native.String.{String}
use goodmoneying.Prelude.{
  is_empty, ℕ, zero, suc, ◌+◌, Bool, true, false, not, ◌&&◌, ◌||◌, Option, none, some, List, [],
  ◌∷◌, ◌++◌, map, any, keep, length, max, ltb, leb, ◌==◌, if◌then◌else◌,
}
use goodmoneying.Prelude.Decimal.{Decimal, integer, decimal_lt, ◌+ᵈ◌}
use goodmoneying.Prelude.Sort.{sort_by}
use goodmoneying.Rollup.{RollupUnit, week_1, month_1, minute, day, day_of}
use goodmoneying.Rollup.Calendar.{month_days}
use goodmoneying.Rollup.Candles.{
  SourceCandle, CoverageQuality, available, no_trade, missing, unavailable, unverified,
  CoverageSlice, complete, partial, CandleView, Candle, of_source, started_at, open_of, high_of,
  low_of, close_of, volume_of, trade_amount_of, source_as_of, known_at, knowledge_at, revision_ids,
  content_hash, HashedInput, hashed_input,
}

abbrev same_quality : CoverageQuality → CoverageQuality → Bool
same_quality available available = true
same_quality no_trade no_trade = true
same_quality missing missing = true
same_quality unavailable unavailable = true
same_quality unverified unverified = true
same_quality _ _ = false

-- The first of the candidates that is in the list.
abbrev first_in : List CoverageQuality → List CoverageQuality → CoverageQuality → CoverageQuality
first_in [] statuses default = default
first_in (candidate ∷ candidates) statuses default =
    let rest = first_in candidates statuses default in
    if any (same_quality candidate) statuses then candidate else rest

unfoldable pub slot_quality : List CoverageQuality → CoverageQuality
slot_quality statuses =
    first_in (missing ∷ unavailable ∷ unverified ∷ available ∷ no_trade ∷ []) statuses unverified

unfoldable pub worst_quality : List CoverageQuality → CoverageQuality
worst_quality statuses =
    first_in (missing ∷ unavailable ∷ unverified ∷ []) statuses
      (if any (same_quality available) statuses then missing else available)

-- The states of the slices that contain a slot.
abbrev matches : ℕ → ℕ → List CoverageSlice → List CoverageQuality
matches slot_start slot_end coverage =
    map (λ segment. segment.status)
      (keep (λ segment. leb segment.start_at slot_start && leb slot_end segment.end_at) coverage)

abbrev quality_of_matches : List CoverageQuality → CoverageQuality
quality_of_matches [] = unverified
quality_of_matches (status ∷ statuses) = slot_quality (status ∷ statuses)

-- `range(required_size)`, from the given slot on; `left` slots are to come.
unfoldable pub missing_from : ℕ → List Candle → List CoverageSlice → ℕ → ℕ → List CoverageQuality
unfolding slot_quality
missing_from delta items coverage slot_start zero = []
missing_from delta items coverage slot_start (suc left) =
    let rest = missing_from delta items coverage (slot_start + delta) left in
    if any (λ item. started_at item == slot_start) items
    then rest
    else quality_of_matches (matches slot_start (slot_start + delta) coverage) ∷ rest

abbrev slot_delta : RollupUnit → ℕ
slot_delta week_1 = day
slot_delta month_1 = day
slot_delta _ = minute

unfoldable pub missing_slot_statuses :
    RollupUnit → ℕ → ℕ → List Candle → List CoverageSlice → List CoverageQuality
unfolding missing_from
missing_slot_statuses unit bucket required_size items coverage =
    missing_from (slot_delta unit) items coverage bucket required_size

-- `max(…)` and `min(…)` of the first and the others: the first one of several that are equal.
abbrev pub highest : Decimal → List Candle → Decimal
highest best [] = best
highest best (c ∷ cs) = highest (if decimal_lt best (high_of c) then high_of c else best) cs

abbrev pub lowest : Decimal → List Candle → Decimal
lowest best [] = best
lowest best (c ∷ cs) = lowest (if decimal_lt (low_of c) best then low_of c else best) cs

-- `sum(…, Decimal("0"))`
abbrev total : (Candle → Decimal) → Decimal → List Candle → Decimal
total amount sum [] = sum
total amount sum (c ∷ cs) = total amount (sum +ᵈ amount c) cs

abbrev later : Option ℕ → Option ℕ → Option ℕ
later none b = b
later (some a) none = some a
later (some a) (some b) = some (max a b)

-- `max(filter(None, …), default=None)`
abbrev latest : (Candle → Option ℕ) → List Candle → Option ℕ
latest time [] = none
latest time (c ∷ cs) = later (time c) (latest time cs)

abbrev pub Group : Type 0
Group = ℕ × List Candle

-- `sorted({…})`
abbrev insert_id : ℕ → List ℕ → List ℕ
insert_id id [] = id ∷ []
insert_id id (i ∷ ids) =
    let rest = insert_id id ids in
    if ltb i id then i ∷ rest else if id == i then i ∷ ids else id ∷ i ∷ ids

abbrev insert_ids : List ℕ → List ℕ → List ℕ
insert_ids [] ids = ids
insert_ids (id ∷ new) ids = insert_id id (insert_ids new ids)

abbrev all_revision_ids : List Candle → List ℕ
all_revision_ids [] = []
all_revision_ids (c ∷ cs) = insert_ids (revision_ids c) (all_revision_ids cs)

abbrev pub last_of : Candle → List Candle → Candle
last_of c [] = c
last_of c (next ∷ cs) = last_of next cs

-- All slots are filled, or no trade is known for those that are not.
unfoldable pub is_complete : ℕ → ℕ → List CoverageQuality → Bool
is_complete size required_size statuses =
    (size == required_size)
    || ltb size required_size
      && not (is_empty statuses)
      && not (any (λ status. not (same_quality status no_trade)) statuses)

-- 0 is the size of a month.
abbrev required_size : ℕ → ℕ → ℕ
required_size bucket zero = month_days (day_of bucket)
required_size bucket (suc n) = suc n

module _ (digest : List HashedInput → String) where
  unfoldable pub hash_inputs : List Candle → String
  unfolding hashed_input sort_by
  hash_inputs items = digest (map hashed_input (sort_by started_at items))

  unfoldable pub candle_view : SourceCandle → CandleView
  unfolding hash_inputs
  candle_view s = record {
    started_at = s.candle_start_at;
    first = s.open_price;
    high = s.high_price;
    low = s.low_price;
    close = s.close_price;
    volume = s.trade_volume;
    trade_amount = s.trade_amount;
    completeness = complete;
    source_as_of = some s.collected_at;
    knowledge_at = some (known_at s);
    input_content_hash = elim (content_hash (of_source s)) [
      | none ↦ hash_inputs (of_source s ∷ [])
      | some hash ↦ hash
    ];
    quality = available;
    input_revision_ids = revision_ids (of_source s);
    source_revision_through_id = elim s.revision_id [ none ↦ 0 | some id ↦ id ];
  }

  -- The candle of a group that has the given first candle.
  unfoldable pub group_view :
      RollupUnit → ℕ → List CoverageSlice → ℕ → Candle → List Candle → CandleView
  unfolding missing_slot_statuses worst_quality is_complete month_days ◌+ᵈ◌ decimal_lt hash_inputs
  group_view unit expected_size coverage bucket first rest =
      let ordered = first ∷ rest in
      let required = required_size bucket expected_size in
      let statuses = missing_slot_statuses unit bucket required ordered coverage in
      record {
        started_at = bucket;
        first = open_of first;
        high = highest (high_of first) rest;
        low = lowest (low_of first) rest;
        close = close_of (last_of first rest);
        volume = total volume_of (integer 0) ordered;
        trade_amount = total trade_amount_of (integer 0) ordered;
        completeness = if is_complete (length ordered) required statuses then complete else partial;
        source_as_of = latest source_as_of ordered;
        knowledge_at = latest knowledge_at ordered;
        input_content_hash = hash_inputs ordered;
        quality = worst_quality statuses;
        input_revision_ids = all_revision_ids ordered;
        source_revision_through_id = 0;
      }

  -- A group is never empty.
  abbrev pub view_of_sorted :
      RollupUnit → ℕ → List CoverageSlice → ℕ → List Candle → List CandleView
  view_of_sorted unit expected_size coverage bucket [] = []
  view_of_sorted unit expected_size coverage bucket (first ∷ rest) =
      group_view unit expected_size coverage bucket first rest ∷ []

  abbrev pub view_of_group : RollupUnit → ℕ → List CoverageSlice → Group → List CandleView
  view_of_group unit expected_size coverage group =
      view_of_sorted unit expected_size coverage group.0 (sort_by started_at group.1)

  abbrev pub views_of : RollupUnit → ℕ → List CoverageSlice → List Group → List CandleView
  views_of unit expected_size coverage [] = []
  views_of unit expected_size coverage (group ∷ groups) =
      view_of_group unit expected_size coverage group ++ views_of unit expected_size coverage groups

  unfoldable pub aggregate_groups :
      RollupUnit → ℕ → List CoverageSlice → List Group → List CandleView
  unfolding group_view sort_by
  aggregate_groups unit expected_size coverage grouped =
      views_of unit expected_size coverage (sort_by (λ group. group.0) grouped)
