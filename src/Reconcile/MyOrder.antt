-- ===== src/Reconcile/MyOrder.antt =====
-- packages/shared/goodmoneying_shared/upbit_myorder.py: the events of the private order stream.
use Prim.Native.String.{String}
use goodmoneying.Prelude.{Bool, true, false, not, Option, List, [], ◌∷◌, if◌then◌else◌}
use goodmoneying.Prelude.Results.{Result, ok, ◌>>=◌, ◌>>◌, raise_if}
use goodmoneying.Prelude.Json.{Json, string, Fields, get_or_null, json_eq}
use goodmoneying.Reconcile.{
  ReconcileError, invalid, Amount, OrderState, wait, watch, trade, done, cancel, prevented,
  rejected, state_of, optional_str, optional_bool, optional_decimal, exceeds_zero,
}

pub data ObservedMyOrderStatus : Type 0 where
  no_event working partial_fill : ObservedMyOrderStatus
  done_event cancel_event prevented_event rejected_event : ObservedMyOrderStatus

pub record UpbitMyOrderEvent : Type 0 where
  pub code : Option String
  pub uuid : Option String
  pub identifier : Option String
  pub state : OrderState
  pub volume : Option Amount
  pub remaining_volume : Option Amount
  pub executed_volume : Option Amount
  pub trade_fee : Option Amount
  pub is_maker : Option Bool
  pub prevented_volume : Option Amount
  pub prevented_locked : Option Amount
  pub raw : Fields

pub record MyOrderReconciliationPlan : Type 0 where
  pub observed_status : ObservedMyOrderStatus
  pub rest_snapshot_required : Bool
  pub can_resubmit : Bool
  pub reason : String

unfoldable pub parse_myorder_event :
    (Json → String) → Fields → Result ReconcileError UpbitMyOrderEvent
parse_myorder_event repr payload = do
  raise_if (not (json_eq (get_or_null "type" payload) (string "myOrder"))) invalid
  state ← state_of (get_or_null "state" payload)
  code ← optional_str (get_or_null "code" payload)
  uuid ← optional_str (get_or_null "uuid" payload)
  identifier ← optional_str (get_or_null "identifier" payload)
  volume ← optional_decimal repr (get_or_null "volume" payload)
  remaining_volume ← optional_decimal repr (get_or_null "remaining_volume" payload)
  executed_volume ← optional_decimal repr (get_or_null "executed_volume" payload)
  trade_fee ← optional_decimal repr (get_or_null "trade_fee" payload)
  is_maker ← optional_bool (get_or_null "is_maker" payload)
  prevented_volume ← optional_decimal repr (get_or_null "prevented_volume" payload)
  prevented_locked ← optional_decimal repr (get_or_null "prevented_locked" payload)
  ok (record {
    code = code;
    uuid = uuid;
    identifier = identifier;
    state = state;
    volume = volume;
    remaining_volume = remaining_volume;
    executed_volume = executed_volume;
    trade_fee = trade_fee;
    is_maker = is_maker;
    prevented_volume = prevented_volume;
    prevented_locked = prevented_locked;
    raw = payload;
  })

unfoldable pub observed_event_status : OrderState → Option Amount → ObservedMyOrderStatus
observed_event_status trade remaining = if exceeds_zero remaining then partial_fill else working
observed_event_status wait remaining = working
observed_event_status watch remaining = working
observed_event_status done remaining = done_event
observed_event_status cancel remaining = cancel_event
observed_event_status prevented remaining = prevented_event
observed_event_status rejected remaining = rejected_event

-- `events[-1]`
abbrev last_of : UpbitMyOrderEvent → List UpbitMyOrderEvent → UpbitMyOrderEvent
last_of event [] = event
last_of event (next ∷ events) = last_of next events

unfoldable pub plan_myorder_reconciliation : List UpbitMyOrderEvent → MyOrderReconciliationPlan
unfolding observed_event_status
plan_myorder_reconciliation [] = record {
  observed_status = no_event;
  rest_snapshot_required = true;
  can_resubmit = false;
  reason = "no_initial_snapshot";
}
plan_myorder_reconciliation (event ∷ events) =
    let latest = last_of event events in
    record {
      observed_status = observed_event_status latest.state latest.remaining_volume;
      rest_snapshot_required = true;
      can_resubmit = false;
      reason = "myorder_event_requires_rest_reconciliation";
    }
