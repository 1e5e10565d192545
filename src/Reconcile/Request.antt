-- ===== src/Reconcile/Request.antt =====
-- packages/shared/goodmoneying_shared/upbit_rest_reconciliation.py: what is done with a snapshot of an
-- order: the fees of its fills, the request to the ledger, and the call of the store.
use Prim.Native.String.{String}
use goodmoneying.Prelude.{
  ℕ, zero, suc, Bool, true, false, not, Option, none, some, List, [], ◌∷◌, if◌then◌else◌,
}
use goodmoneying.Prelude.Int.{ℤ}
use goodmoneying.Prelude.Results.{Result, ok, ◌>>=◌, ◌>>◌, raise_if, or_raise}
use goodmoneying.Prelude.Json.{Json, boolean, Fields, end, field}
use text.Mathlib.Text.{◌==◌ as str_eq}
use goodmoneying.Reconcile.{
  ReconcileError, invalid, no_integer, index_error, Amount, OrderState, wait, watch, trade, done,
  cancel, prevented, rejected, exceeds_zero,
}
use goodmoneying.Reconcile.Snapshot.{
  Side, UpbitSmpType, UpbitRestTradeSnapshot, UpbitRestOrderSnapshot, to_integer,
  parse_upbit_rest_order_snapshot,
}
use goodmoneying.Reconcile.Fees.{distributed_fees}

pub data UpbitRestObservedStatus : Type 0 where
  working partial_fill : UpbitRestObservedStatus
  done_order cancel_order prevented_order rejected_order : UpbitRestObservedStatus

pub data UpbitRestLedgerAction : Type 0 where
  apply observe_only : UpbitRestLedgerAction

pub record UpbitRestReconciliationPlan : Type 0 where
  pub observed_status : UpbitRestObservedStatus
  pub ledger_action : UpbitRestLedgerAction
  pub can_resubmit : Bool
  pub reason : String

unfoldable pub observed_order_status : OrderState → Option Amount → UpbitRestObservedStatus
observed_order_status wait remaining = working
observed_order_status watch remaining = working
observed_order_status trade remaining = if exceeds_zero remaining then partial_fill else working
observed_order_status done remaining = done_order
observed_order_status cancel remaining = cancel_order
observed_order_status prevented remaining = prevented_order
observed_order_status rejected remaining = rejected_order

abbrev pub action_for : UpbitRestObservedStatus → UpbitRestLedgerAction
action_for working = observe_only
action_for partial_fill = observe_only
action_for done_order = apply
action_for cancel_order = apply
action_for prevented_order = apply
action_for rejected_order = apply

abbrev reason_for : UpbitRestLedgerAction → String
reason_for apply = "upbit_rest_terminal_snapshot"
reason_for observe_only = "upbit_rest_working_snapshot_observe_only"

unfoldable pub plan_upbit_rest_snapshot_reconciliation :
    UpbitRestOrderSnapshot → UpbitRestReconciliationPlan
unfolding observed_order_status
plan_upbit_rest_snapshot_reconciliation snapshot =
    let status = observed_order_status snapshot.state snapshot.remaining_volume in
    record {
      observed_status = status;
      ledger_action = action_for status;
      can_resubmit = false;
      reason = reason_for (action_for status);
    }

-- What a fill and the whole request say of the snapshot, as its evidence.
pub record Evidence : Type 0 where
  pub source_endpoint : String
  pub market : String
  pub order_uuid : String
  pub identifier : Option String
  pub trade_uuid : Option String
  pub state : OrderState
  pub paid_fee : Amount
  pub smp_type : Option UpbitSmpType
  pub prevented_volume : Amount
  pub prevented_locked : Amount
  pub trades_count : ℕ

pub record Fill : Type 0 where
  pub fill_sequence : ℕ
  pub side : Side
  pub filled_quantity : Amount
  pub fill_price : Amount
  pub fee_paid : Amount
  pub occurred_at : ℕ
  pub knowledge_at : ℕ
  pub evidence : Evidence

abbrev pub evidence_of : UpbitRestOrderSnapshot → Option String → Evidence
evidence_of s trade_uuid = record {
  source_endpoint = s.source_endpoint;
  market = s.market;
  order_uuid = s.uuid;
  identifier = s.identifier;
  trade_uuid = trade_uuid;
  state = s.state;
  paid_fee = s.paid_fee;
  smp_type = s.smp_type;
  prevented_volume = s.prevented_volume;
  prevented_locked = s.prevented_locked;
  trades_count = s.trades_count;
}

abbrev pub fill_of : UpbitRestOrderSnapshot → ℕ → UpbitRestTradeSnapshot → Amount → Fill
fill_of s index t fee = record {
  fill_sequence = index;
  side = t.side;
  filled_quantity = t.volume;
  fill_price = t.price;
  fee_paid = fee;
  occurred_at = t.occurred_at;
  knowledge_at = s.knowledge_at;
  evidence = evidence_of s t.uuid;
}

-- `fees[n]`
abbrev pub element {ℓ} : {A : Type ℓ} → ℕ → List A → Option A
element n [] = none
element zero (x ∷ xs) = some x
element (suc n) (x ∷ xs) = element n xs

-- The loop over the trades; `index` counts those before.
unfoldable pub fills_from :
    UpbitRestOrderSnapshot
    → List Amount
    → ℕ
    → List UpbitRestTradeSnapshot
    → Result ReconcileError (List Fill)
fills_from s fees index [] = ok []
fills_from s fees index (t ∷ trades) = do
  fee ← or_raise (element index fees) index_error
  rest ← fills_from s fees (suc index) trades
  ok (fill_of s (suc index) t fee ∷ rest)

unfoldable pub reconciliation_fills : UpbitRestOrderSnapshot → Result ReconcileError (List Fill)
unfolding distributed_fees fills_from
reconciliation_fills s = do
  fees ← distributed_fees s.paid_fee s.trades
  fills_from s fees 0 s.trades

pub record ReconciliationRequest : Type 0 where
  pub observed_status : UpbitRestObservedStatus
  pub fills : List Fill
  pub evidence : Evidence
  pub can_resubmit : Bool

abbrev pub is_apply : UpbitRestLedgerAction → Bool
is_apply apply = true
is_apply observe_only = false

unfoldable pub build_upbit_rest_reconciliation_request :
    UpbitRestOrderSnapshot → Result ReconcileError ReconciliationRequest
unfolding plan_upbit_rest_snapshot_reconciliation reconciliation_fills
build_upbit_rest_reconciliation_request s =
    let plan = plan_upbit_rest_snapshot_reconciliation s in
    raise_if (not (is_apply plan.ledger_action)) invalid
    >> (reconciliation_fills s >>= λ fills. ok (record {
      observed_status = plan.observed_status;
      fills = fills;
      evidence = evidence_of s none;
      can_resubmit = false;
    }))

-- The arguments of `store.reconcile_exchange_order`.
pub record StoreCall : Type 0 where
  pub exchange_order_id : Json
  pub run_key : Json
  pub actor_id : Json
  pub reason : Json
  pub request : ReconciliationRequest

-- What the function returns: an observation, or the store's row.
pub data Reply : Type 0 where
  observed : ℤ → UpbitRestObservedStatus → String → Reply
  reconciled : Fields → Reply

-- `{**row, key: value}`
abbrev pub put : String → Json → Fields → Fields
put key value end = field key value end
put key value (field k v fs) =
    let rest = put key value fs in if str_eq k key then field k value fs else field k v rest

module _ (repr : Json → String) (fromisoformat : String → Option (Option ℕ))
    (reconcile_exchange_order : StoreCall → Result ReconcileError Fields) where
  unfoldable pub reconcile_with : StoreCall → Result ReconcileError Reply
  reconcile_with call = do
    row ← reconcile_exchange_order call
    ok (reconciled (put "canResubmit" (boolean false) row))

  -- What is done with a snapshot that was read.
  unfoldable pub apply_snapshot :
      Json → Json → Json → Json → UpbitRestOrderSnapshot → Result ReconcileError Reply
  unfolding plan_upbit_rest_snapshot_reconciliation build_upbit_rest_reconciliation_request
      reconcile_with
  apply_snapshot exchange_order_id run_key actor_id reason s =
      let plan = plan_upbit_rest_snapshot_reconciliation s in
      let observation = or_raise (to_integer exchange_order_id) no_integer >>= λ id.
      ok (observed id plan.observed_status s.source_endpoint) in
      let request = build_upbit_rest_reconciliation_request s >>= λ request.
      reconcile_with (record {
        exchange_order_id = exchange_order_id;
        run_key = run_key;
        actor_id = actor_id;
        reason = reason;
        request = request;
      }) in
      if is_apply plan.ledger_action then request else observation

  unfoldable pub apply_upbit_rest_order_snapshot :
      Json → Json → Json → Json → Fields → Option ℕ → String → Result ReconcileError Reply
  unfolding parse_upbit_rest_order_snapshot apply_snapshot
  apply_upbit_rest_order_snapshot exchange_order_id run_key actor_id reason payload knowledge_at
        endpoint =
      do
        s ← parse_upbit_rest_order_snapshot repr fromisoformat payload knowledge_at endpoint
        apply_snapshot exchange_order_id run_key actor_id reason s
