-- ===== src/Reconcile/Tests.antt =====
-- An order with two fills, an open order and an event with a NaN.
use Prim.Native.String.{String}
use text.Mathlib.Text.{◌==◌ as str_eq}
use goodmoneying.Prelude.{ℕ, ◌≡◌, refl, Option, none, some, List, if◌then◌else◌}
use goodmoneying.Prelude.Int.{pos, ◌+ℤ◌, ◌-ℤ◌, ◌*ℤ◌}
use goodmoneying.Prelude.Results.{Result, ok, err}
use goodmoneying.Prelude.Json.{
  Json, null, integer, string, array, object, nil, cons, Fields, end, field, get, json_eq, str,
}
use goodmoneying.Prelude.Decimal.{
  decimal_lt, decimal_eq, ◌+ᵈ◌, ◌-ᵈ◌, ◌*ᵈ◌, ◌/ᵈ◌, round, half_even, digits,
}
use goodmoneying.Prelude.DecimalText.{parse_decimal}
use goodmoneying.Prelude.Text.{strip}
use goodmoneying.Prelude.Order.{str_lt}
use goodmoneying.Prelude.Sort.{sort_with, insert_with}
use goodmoneying.Reconcile.{
  ReconcileError, invalid_operation, Amount, state_of, optional_str, not_negative, optional_decimal,
}
use goodmoneying.Reconcile.MyOrder.{parse_myorder_event}
use goodmoneying.Reconcile.Refusals.{Refusal, parse_myorder_event-Refuses}
use goodmoneying.Reconcile.Snapshot.{
  non_blank, source_endpoint_of, side_of, optional_smp_type, positive_decimal, to_integer,
  non_negative_int, all_objects, trade_payloads, optional_datetime, trade_snapshot, trade_snapshots,
  read_amounts, order_snapshot, counted_snapshot, UpbitRestOrderSnapshot,
  parse_upbit_rest_order_snapshot,
}
use goodmoneying.Reconcile.Request.{
  Reply, Fill, observed_order_status, plan_upbit_rest_snapshot_reconciliation, fills_from,
  reconciliation_fills, build_upbit_rest_reconciliation_request, reconcile_with, apply_snapshot,
  observed, reconciled, StoreCall, apply_upbit_rest_order_snapshot,
}
use goodmoneying.Reconcile.Fees.{share_among, shares, distributed_fees}
use goodmoneying.Reconcile.Read.{IsSnapshot, parse_upbit_rest_order_snapshot-IsSnapshot}
use goodmoneying.Reconcile.Fills.{AllMatch, reconciliation_fills-AllMatch}
use goodmoneying.Reconcile.Ledger.{
  IsOpen, WasAsked, apply_upbit_rest_order_snapshot-asked, apply_upbit_rest_order_snapshot-observed,
}
use goodmoneying.Prelude.Json.{boolean}
use goodmoneying.Prelude.{true}
use goodmoneying.Prelude.IntegerText.{parse_integer}
use goodmoneying.Reconcile.Live.{
  LiveError, refused, UpbitLiveBindingSnapshot, field_of, int_of, str_of, binding_of,
  validate_snapshot_matches_binding, LiveCall, LiveReply, Arguments, application_key, apply_bound,
  apply_upbit_live_rest_order_snapshot,
}
use goodmoneying.Reconcile.Live.Bound.{IsReply, apply_upbit_live_rest_order_snapshot-IsReply}

abbrev no_repr : Json → String
no_repr v = "?"

-- The only datetime of these runs.
abbrev at_noon : String → Option (Option ℕ)
at_noon s = if str_eq s "2026-01-01T12:00:00+09:00" then some (some 12) else none

abbrev store : StoreCall → Result ReconcileError Fields
store call = ok (field "status" (string "reconciled") end)

abbrev open_order : Fields
open_order = field "market" (string "KRW-BTC") (
    field "uuid" (string "u1") (
      field "side" (string "bid") (
        field "state" (string "wait")
          (field "created_at" (string "2026-01-01T12:00:00+09:00") end))))

abbrev fill_1 : Json
fill_1 =
    object (
      field "price" (string "100") (field "volume" (string "2") (field "funds" (string "200") end)))

abbrev fill_2 : Json
fill_2 =
    object (
      field "price" (string "100") (field "volume" (string "1") (field "funds" (string "100") end)))

abbrev filled_order : Fields
filled_order = field "market" (string "KRW-BTC") (
    field "uuid" (string "u1") (
      field "side" (string "bid") (
        field "state" (string "done") (
          field "created_at" (string "2026-01-01T12:00:00+09:00") (
            field "executed_volume" (string "3") (
              field "paid_fee" (string "0.1")
                (field "trades" (array (cons fill_1 (cons fill_2 nil))) end)))))))

abbrev read_order : Fields → Result ReconcileError UpbitRestOrderSnapshot
read_order payload =
    parse_upbit_rest_order_snapshot no_repr at_noon payload (some 13) "GET /v1/order"

-- The snapshots that the runs read, and the store's row.
read_filled : (s : UpbitRestOrderSnapshot) × (read_order filled_order ≡ ok s)
unfolding parse_upbit_rest_order_snapshot source_endpoint_of non_blank side_of optional_datetime
    trade_payloads all_objects trade_snapshots trade_snapshot optional_str positive_decimal
    optional_decimal not_negative parse_decimal strip str get decimal_lt decimal_eq sort_with
    insert_with str_lt counted_snapshot non_negative_int to_integer order_snapshot read_amounts
    optional_smp_type state_of
read_filled = (_, refl)

read_open : (s : UpbitRestOrderSnapshot) × (read_order open_order ≡ ok s) × IsOpen s.state
unfolding parse_upbit_rest_order_snapshot source_endpoint_of non_blank side_of optional_datetime
    trade_payloads all_objects trade_snapshots trade_snapshot optional_str positive_decimal
    optional_decimal not_negative parse_decimal strip str get decimal_lt decimal_eq sort_with
    insert_with str_lt counted_snapshot non_negative_int to_integer order_snapshot read_amounts
    optional_smp_type state_of
read_open = (_, refl, tt)

fees_shared :
    (fees : List Amount) × (distributed_fees read_filled.0.paid_fee read_filled.0.trades ≡ ok fees)
unfolding read_filled distributed_fees share_among shares ◌+ᵈ◌ ◌-ᵈ◌ ◌*ᵈ◌ ◌/ᵈ◌ round half_even digits
    decimal_lt
fees_shared = (_, refl)

abbrev apply_to : Fields → Result ReconcileError Reply
apply_to payload =
    apply_upbit_rest_order_snapshot no_repr at_noon store (integer (pos 7)) null null null payload
      (some 13) "GET /v1/order"

applied_filled : (row : Fields) × (apply_to filled_order ≡ ok (reconciled row))
unfolding apply_upbit_rest_order_snapshot apply_snapshot plan_upbit_rest_snapshot_reconciliation
    observed_order_status build_upbit_rest_reconciliation_request reconciliation_fills fills_from
    reconcile_with distributed_fees share_among shares ◌+ᵈ◌ ◌-ᵈ◌ ◌*ᵈ◌ ◌/ᵈ◌ round half_even digits
    ◌+ℤ◌ ◌-ℤ◌ ◌*ℤ◌ parse_upbit_rest_order_snapshot source_endpoint_of non_blank side_of
    optional_datetime trade_payloads all_objects trade_snapshots trade_snapshot optional_str
    positive_decimal optional_decimal not_negative parse_decimal strip str get decimal_lt decimal_eq
    sort_with insert_with str_lt counted_snapshot non_negative_int to_integer order_snapshot
    read_amounts optional_smp_type state_of
applied_filled = (_, refl)

parse_upbit_rest_order_snapshot-IsSnapshot_example : IsSnapshot read_filled.0
parse_upbit_rest_order_snapshot-IsSnapshot_example =
    parse_upbit_rest_order_snapshot-IsSnapshot no_repr at_noon filled_order (some 13)
      "GET /v1/order" read_filled.1

reconciliation_fills-AllMatch_example :
    (fills : List Fill) × (reconciliation_fills read_filled.0 ≡ ok fills)
    × AllMatch 0 fills read_filled.0.trades
reconciliation_fills-AllMatch_example = reconciliation_fills-AllMatch read_filled.0 fees_shared.1

asked_for_fills :
    (s : UpbitRestOrderSnapshot) × (read_order filled_order ≡ ok s)
    × WasAsked no_repr at_noon store (integer (pos 7)) s applied_filled.0
asked_for_fills =
    apply_upbit_rest_order_snapshot-asked no_repr at_noon store (integer (pos 7)) null null null
      filled_order (some 13) "GET /v1/order" applied_filled.1

number_seven : to_integer (integer (pos 7)) ≡ some (pos 7)
unfolding to_integer
number_seven = refl

-- The open order is only observed.
open_observed :
    apply_to open_order
    ≡ ok (
        observed
          (pos 7)
          (observed_order_status read_open.0.state read_open.0.remaining_volume)
          read_open.0.source_endpoint)
open_observed =
    apply_upbit_rest_order_snapshot-observed no_repr at_noon store (integer (pos 7)) null null null
      open_order (some 13) "GET /v1/order" read_open.1 read_open.2 number_seven

abbrev nan_event : Fields
nan_event =
    field "type" (string "myOrder")
      (field "state" (string "wait") (field "volume" (string "NaN") end))

nan_refused : parse_myorder_event no_repr nan_event ≡ err invalid_operation
unfolding parse_myorder_event state_of optional_str optional_decimal not_negative parse_decimal
    strip str get json_eq
nan_refused = refl

parse_myorder_event-Refuses_example : Refusal no_repr nan_event invalid_operation
parse_myorder_event-Refuses_example =
    parse_myorder_event-Refuses no_repr nan_event invalid_operation nan_refused

-- A live order of ours that has been filled, and its binding.
abbrev live_order : Fields
live_order = field "identifier" (string "gm1_a") filled_order

abbrev live_binding : Fields
live_binding = field "id" (integer (pos 4)) (
    field "exchangeAccountId" (integer (pos 2)) (
      field "orderIntentId" (integer (pos 3)) (
        field "exchange_order_id" (string "7")
          (field "upbit_order_uuid" (string "u1") (field "identifier" (string "gm1_a") end)))))

abbrev live_store : LiveCall → Result LiveError Fields
live_store call = ok (field "canResubmit" (boolean true) end)

abbrev live_arguments : Arguments
live_arguments = record {
  run_key = string "run";
  actor_id = null;
  reason = null;
  knowledge_at = some 13;
}

abbrev apply_live : Json → Result LiveError LiveReply
apply_live order =
    apply_upbit_live_rest_order_snapshot no_repr at_noon live_store live_binding order
      live_arguments live_order "GET /v1/order"

applied_live : (reply : LiveReply) × (apply_live (integer (pos 7)) ≡ ok reply)
unfolding apply_upbit_live_rest_order_snapshot binding_of field_of int_of str_of apply_bound
    validate_snapshot_matches_binding application_key plan_upbit_rest_snapshot_reconciliation
    observed_order_status build_upbit_rest_reconciliation_request reconciliation_fills fills_from
    distributed_fees share_among shares ◌+ᵈ◌ ◌-ᵈ◌ ◌*ᵈ◌ ◌/ᵈ◌ round half_even digits ◌+ℤ◌ ◌-ℤ◌ ◌*ℤ◌
    parse_upbit_rest_order_snapshot source_endpoint_of non_blank side_of optional_datetime
    trade_payloads all_objects trade_snapshots trade_snapshot optional_str positive_decimal
    optional_decimal not_negative parse_decimal strip str get decimal_lt decimal_eq sort_with
    insert_with str_lt counted_snapshot non_negative_int to_integer order_snapshot read_amounts
    optional_smp_type state_of parse_integer
applied_live = (_, refl)

other_order : apply_live (integer (pos 8)) ≡ err refused
unfolding apply_upbit_live_rest_order_snapshot binding_of field_of int_of str_of to_integer get
    parse_integer
other_order = refl

apply_upbit_live_rest_order_snapshot-IsReply_example :
    (binding : UpbitLiveBindingSnapshot) × (s : UpbitRestOrderSnapshot) × (binding_of live_binding
      ≡ ok binding)
    × (to_integer (integer (pos 7)) ≡ some binding.exchange_order_id)
    × (read_order live_order ≡ ok s)
    × (s.uuid ≡ binding.upbit_order_uuid)
    × (s.identifier ≡ some binding.upbit_identifier)
    × IsReply no_repr at_noon live_store binding live_arguments s applied_live.0
apply_upbit_live_rest_order_snapshot-IsReply_example =
    apply_upbit_live_rest_order_snapshot-IsReply no_repr at_noon live_store live_binding
      (integer (pos 7)) live_arguments live_order "GET /v1/order" applied_live.1
