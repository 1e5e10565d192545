-- ===== src/Reconcile/Snapshot.antt =====
-- packages/shared/goodmoneying_shared/upbit_rest_reconciliation.py: how a snapshot of an order is read. What
-- `datetime.fromisoformat` makes of a text is an argument: no datetime, one without a time zone, or the
-- instant.
mod Readers
pub use Readers.{
  Side, UpbitRestTradeSnapshot, UpbitSmpType, UpbitRestOrderSnapshot, allowed_source_endpoints,
  positive, replace_z, aware_utc, amount_lt, trade_lt, or_zero, later_of, OrderAmounts, is_ended,
  lacks_trades, buy, sell, reduce, cancel_maker, cancel_taker,
}
unfoldable pub use Readers.{
  source_endpoint_of, side_of, optional_smp_type, positive_decimal, to_integer, non_negative_int,
  all_objects, trade_payloads, non_blank,
}
use Prim.Native.Nat.{◌/◌, ◌^◌}
use Prim.Native.Char.{code}
use Prim.Native.String.{String, ◌++◌}
use text.Mathlib.Text.{◌==◌ as str_eq}
use goodmoneying.Prelude.{
  is_empty, ℕ, suc, Bool, true, false, not, ◌&&◌, ◌||◌, Option, none, some, List, [], ◌∷◌, any,
  length, ltb, ◌==◌, if◌then◌else◌,
}
use goodmoneying.Prelude.Int.{ℤ, pos, negsuc}
use goodmoneying.Prelude.Results.{Result, ok, err, ◌>>=◌, ◌>>◌, raise_if, or_raise}
use goodmoneying.Prelude.Json.{
  Json, null, boolean, integer, float, string, array, object, Items, nil, cons, Fields, get,
  get_or_null, or_default,
}
use goodmoneying.Prelude.Decimal.{Decimal, negative, decimal_lt, decimal_eq}
use goodmoneying.Prelude.IntegerText.{parse_integer}
use goodmoneying.Prelude.Order.{str_lt}
use goodmoneying.Prelude.Sort.{sort_with}
use goodmoneying.Reconcile.{
  ReconcileError, invalid, unhashable, Amount, amount, unbounded, zero_amount, OrderState, done,
  cancel, state_of, optional_str, optional_decimal, exceeds_zero,
}

module _ (repr : Json → String) (fromisoformat : String → Option (Option ℕ)) where
  abbrev parsed_datetime : Option (Option ℕ) → Result ReconcileError (Option ℕ)
  parsed_datetime none = err invalid
  parsed_datetime (some none) = err invalid
  parsed_datetime (some (some at)) = ok (some at)

  abbrev datetime_text : String → Result ReconcileError (Option ℕ)
  datetime_text value =
      if str_eq value "" then err invalid else parsed_datetime (fromisoformat (replace_z value))

  unfoldable pub optional_datetime : Json → Result ReconcileError (Option ℕ)
  optional_datetime null = ok none
  optional_datetime (string value) = datetime_text value
  optional_datetime _ = err invalid

  -- The side of a trade that has none is the order's.
  abbrev pub side_or : Side → Json → Result ReconcileError Side
  side_or fallback null = ok fallback
  side_or fallback value = side_of value

  unfoldable pub trade_snapshot :
      Side → Option ℕ → Fields → Result ReconcileError UpbitRestTradeSnapshot
  trade_snapshot fallback_side fallback_occurred_at payload = do
    created_at ← optional_datetime (get_or_null "created_at" payload)
    occurred_at ← or_raise (later_of created_at fallback_occurred_at) invalid
    uuid ← optional_str (get_or_null "uuid" payload)
    side ← side_or fallback_side (get_or_null "side" payload)
    price ← positive_decimal repr (get_or_null "price" payload)
    volume ← positive_decimal repr (get_or_null "volume" payload)
    funds ← optional_decimal repr (get_or_null "funds" payload)
    ok (record {
      uuid = uuid;
      side = side;
      price = price;
      volume = volume;
      funds = funds;
      occurred_at = occurred_at;
      raw = payload;
    })

  unfoldable pub trade_snapshots :
      Side → Option ℕ → List Fields → Result ReconcileError (List UpbitRestTradeSnapshot)
  trade_snapshots side at [] = ok []
  trade_snapshots side at (payload ∷ payloads) = do
    first ← trade_snapshot side at payload
    rest ← trade_snapshots side at payloads
    ok (first ∷ rest)

  unfoldable pub read_amounts : Fields → Result ReconcileError OrderAmounts
  read_amounts payload = do
    remaining_volume ← optional_decimal repr (get_or_null "remaining_volume" payload)
    executed_volume ← optional_decimal repr (get_or_null "executed_volume" payload)
    paid_fee ← optional_decimal repr (get_or_null "paid_fee" payload)
    smp_type ← optional_smp_type (get_or_null "smp_type" payload)
    prevented_volume ← optional_decimal repr (get_or_null "prevented_volume" payload)
    prevented_locked ← optional_decimal repr (get_or_null "prevented_locked" payload)
    ok (record {
      remaining_volume = remaining_volume;
      executed_volume = executed_volume;
      paid_fee = or_zero paid_fee;
      smp_type = smp_type;
      prevented_volume = or_zero prevented_volume;
      prevented_locked = or_zero prevented_locked;
    })

  -- The fields of the snapshot that are read once the trades are counted.
  unfoldable pub order_snapshot :
      Fields
      → Option ℕ
      → String
      → Side
      → Option ℕ
      → List UpbitRestTradeSnapshot
      → ℕ
      → Result ReconcileError UpbitRestOrderSnapshot
  order_snapshot payload knowledge_at endpoint side created_at trades trades_count = do
    market ← non_blank (get_or_null "market" payload)
    uuid ← non_blank (get_or_null "uuid" payload)
    identifier ← optional_str (get_or_null "identifier" payload)
    state ← state_of (get_or_null "state" payload)
    amounts ← read_amounts payload
    known_at ← aware_utc knowledge_at
    ok (record {
      market = market;
      uuid = uuid;
      identifier = identifier;
      side = side;
      state = state;
      created_at = created_at;
      remaining_volume = amounts.remaining_volume;
      executed_volume = amounts.executed_volume;
      paid_fee = amounts.paid_fee;
      smp_type = amounts.smp_type;
      prevented_volume = amounts.prevented_volume;
      prevented_locked = amounts.prevented_locked;
      trades_count = trades_count;
      trades = trades;
      knowledge_at = known_at;
      source_endpoint = endpoint;
      raw = payload;
    })

  -- What is checked once the trades are read and sorted.
  unfoldable pub counted_snapshot :
      Fields
      → Option ℕ
      → String
      → Side
      → Option ℕ
      → List UpbitRestTradeSnapshot
      → Result ReconcileError UpbitRestOrderSnapshot
  counted_snapshot payload knowledge_at endpoint side created_at trades = do
    trades_count ←
        non_negative_int (or_default (integer (pos (length trades))) (get "trades_count" payload))
    raise_if (not (trades_count == length trades)) invalid
    snapshot ← order_snapshot payload knowledge_at endpoint side created_at trades trades_count
    raise_if (lacks_trades snapshot) invalid
    ok snapshot

  unfoldable pub parse_upbit_rest_order_snapshot :
      Fields → Option ℕ → String → Result ReconcileError UpbitRestOrderSnapshot
  parse_upbit_rest_order_snapshot payload knowledge_at source_endpoint = do
    endpoint ← source_endpoint_of (string source_endpoint)
    side ← side_of (get_or_null "side" payload)
    created_at ← optional_datetime (get_or_null "created_at" payload)
    raw_trades ← trade_payloads (get_or_null "trades" payload)
    unsorted ← trade_snapshots side created_at raw_trades
    counted_snapshot payload knowledge_at endpoint side created_at (sort_with trade_lt unsorted)
