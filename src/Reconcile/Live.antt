-- ===== src/Reconcile/Live.antt =====
-- packages/shared/goodmoneying_shared/upbit_live_reconciliation.py: a snapshot is applied to the order that a live
-- binding names. The store is an argument.
pub mod Bound
use Prim.Native.String.{String, ◌++◌}
use text.Mathlib.Text.{◌==◌ as str_eq}
use goodmoneying.Prelude.{ℕ, Bool, true, false, not, Option, none, some, if◌then◌else◌}
use goodmoneying.Prelude.Int.{ℤ, pos, negsuc, eq_ℤ}
use goodmoneying.Prelude.Results.{Result, ok, err, ◌>>=◌, ◌>>◌, raise_if, or_raise}
use goodmoneying.Prelude.Json.{Json, boolean, string, Fields, get, str}
use goodmoneying.Reconcile.{ReconcileError, no_integer, OrderState}
use goodmoneying.Reconcile.Snapshot.{
  UpbitRestOrderSnapshot, to_integer, parse_upbit_rest_order_snapshot,
}
use goodmoneying.Reconcile.Request.{
  UpbitRestObservedStatus, UpbitRestLedgerAction, apply, observe_only,
  plan_upbit_rest_snapshot_reconciliation, ReconciliationRequest,
  build_upbit_rest_reconciliation_request, put,
}

-- InvalidUpbitLiveReconciliationApplication, or what a called function raises.
pub data LiveError : Type 0 where
  refused : LiveError
  from_reconcile : ReconcileError → LiveError

abbrev pub lift {ℓ} : {A : Type ℓ} → Result ReconcileError A → Result LiveError A
lift (err e) = err (from_reconcile e)
lift (ok a) = ok a

pub record UpbitLiveBindingSnapshot : Type 0 where
  pub id : ℤ
  pub exchange_account_id : ℤ
  pub order_intent_id : ℤ
  pub exchange_order_id : ℤ
  pub upbit_order_uuid : String
  pub upbit_identifier : String

-- The snake-case name stands before the other; `KeyError` where neither is there.
unfoldable pub field_of : Fields → String → String → Result LiveError Json
unfolding get
field_of payload snake camel = elim (get snake payload) [
  | some value ↦ ok value
  | none ↦ or_raise (get camel payload) refused
]

unfoldable pub int_of : Json → Result LiveError ℤ
unfolding to_integer
int_of (boolean _) = err refused
int_of value = or_raise (to_integer value) refused

unfoldable pub str_of : Json → Result LiveError String
str_of (string value) = if str_eq value "" then err refused else ok value
str_of _ = err refused

unfoldable pub binding_of : Fields → Result LiveError UpbitLiveBindingSnapshot
unfolding field_of int_of str_of
binding_of payload = do
  id ← field_of payload "id" "liveBindingId" >>= int_of
  account ← field_of payload "exchange_account_id" "exchangeAccountId" >>= int_of
  intent ← field_of payload "order_intent_id" "orderIntentId" >>= int_of
  order ← field_of payload "exchange_order_id" "exchangeOrderId" >>= int_of
  uuid ← field_of payload "upbit_order_uuid" "upbitOrderUuid" >>= str_of
  identifier ← field_of payload "upbit_identifier" "identifier" >>= str_of
  ok (record {
    id = id;
    exchange_account_id = account;
    order_intent_id = intent;
    exchange_order_id = order;
    upbit_order_uuid = uuid;
    upbit_identifier = identifier;
  })

abbrev pub is_text : String → Option String → Bool
is_text text_ none = false
is_text text_ (some other) = str_eq other text_

unfoldable pub validate_snapshot_matches_binding :
    String → Option String → UpbitLiveBindingSnapshot → Result LiveError (Unit {0})
validate_snapshot_matches_binding order_uuid identifier binding =
    raise_if (not (str_eq order_uuid binding.upbit_order_uuid)) refused
    >> raise_if (not (is_text binding.upbit_identifier identifier)) refused

-- `application_evidence`
pub record ApplicationEvidence : Type 0 where
  pub source : String
  pub rest_snapshot_source : String
  pub run_key : Json
  pub observed_status : UpbitRestObservedStatus
  pub trades_count : ℕ
  pub can_resubmit : Bool
  pub live_binding_matched : Bool

-- The arguments of `store.apply_upbit_live_reconciliation_application`; the request has the observed status, the
-- fills and the evidence of the reconciliation.
pub record LiveCall : Type 0 where
  pub exchange_account_id : ℤ
  pub order_intent_id : ℤ
  pub exchange_order_id : ℤ
  pub live_exchange_order_binding_id : ℤ
  pub run_key : Json
  pub request : ReconciliationRequest
  pub source : String
  pub source_endpoint : String
  pub observed_upbit_order_uuid : String
  pub observed_upbit_identifier : Option String
  pub observed_state : OrderState
  pub applied_at : Option ℕ
  pub can_resubmit : Bool
  pub actual_request_sent : Bool
  pub actual_order_cancel_sent : Bool
  pub application_evidence : ApplicationEvidence
  pub actor_id : Json
  pub reason : Json
  pub request_id : String
  pub idempotency_key : String

-- What the function returns: an observation, or the store's row.
pub data LiveReply : Type 0 where
  live_observed : ℤ → UpbitRestObservedStatus → String → LiveReply
  live_applied : Fields → LiveReply

-- The arguments that the function passes on.
pub record Arguments : Type 0 where
  pub run_key : Json
  pub actor_id : Json
  pub reason : Json
  pub knowledge_at : Option ℕ

-- `{**result, …}`
abbrev pub with_flags : Fields → Fields
with_flags result = put "liveBindingMatched" (boolean true) (
    put "actualOrderCancelSent" (boolean false)
      (put "actualRequestSent" (boolean false) (put "canResubmit" (boolean false) result)))

module _ (repr : Json → String) where
  -- `f"{run_key}:live-reconciliation-application"`
  unfoldable pub application_key : Json → String
  unfolding str
  application_key run_key = str repr run_key ++ ":live-reconciliation-application"

  abbrev pub live_call :
      UpbitLiveBindingSnapshot
      → Arguments
      → UpbitRestOrderSnapshot
      → ReconciliationRequest
      → LiveCall
  live_call binding arguments s request = record {
    exchange_account_id = binding.exchange_account_id;
    order_intent_id = binding.order_intent_id;
    exchange_order_id = binding.exchange_order_id;
    live_exchange_order_binding_id = binding.id;
    run_key = arguments.run_key;
    request = request;
    source = "rest_order_snapshot";
    source_endpoint = s.source_endpoint;
    observed_upbit_order_uuid = s.uuid;
    observed_upbit_identifier = s.identifier;
    observed_state = s.state;
    applied_at = arguments.knowledge_at;
    can_resubmit = false;
    actual_request_sent = false;
    actual_order_cancel_sent = false;
    application_evidence = record {
      source = "upbit-live-rest-reconciliation-application";
      rest_snapshot_source = "upbit-rest-order-snapshot";
      run_key = arguments.run_key;
      observed_status = request.observed_status;
      trades_count = s.trades_count;
      can_resubmit = false;
      live_binding_matched = true;
    };
    actor_id = arguments.actor_id;
    reason = arguments.reason;
    request_id = application_key arguments.run_key;
    idempotency_key = application_key arguments.run_key;
  }

  module _ (fromisoformat : String → Option (Option ℕ))
      (store : LiveCall → Result LiveError Fields) where
    -- What is done with a snapshot that matches the binding.
    abbrev pub carry_out :
        UpbitRestLedgerAction
        → UpbitLiveBindingSnapshot
        → Arguments
        → UpbitRestOrderSnapshot
        → Result LiveError LiveReply
    carry_out observe_only binding arguments s = ok (
        live_observed binding.exchange_order_id
          (plan_upbit_rest_snapshot_reconciliation s).observed_status s.source_endpoint)
    carry_out apply binding arguments s = do
      request ← lift (build_upbit_rest_reconciliation_request s)
      result ← store (live_call binding arguments s request)
      ok (live_applied (with_flags result))

    -- The two numbers of the order are equal by then.
    unfoldable pub apply_bound :
        UpbitLiveBindingSnapshot → Arguments → Fields → String → Result LiveError LiveReply
    unfolding parse_upbit_rest_order_snapshot validate_snapshot_matches_binding
        plan_upbit_rest_snapshot_reconciliation build_upbit_rest_reconciliation_request
        application_key
    apply_bound binding arguments payload endpoint = do
      s ← lift (
          parse_upbit_rest_order_snapshot repr fromisoformat payload arguments.knowledge_at
            endpoint)
      _ ← validate_snapshot_matches_binding s.uuid s.identifier binding
      carry_out (plan_upbit_rest_snapshot_reconciliation s).ledger_action binding arguments s

    unfoldable pub apply_upbit_live_rest_order_snapshot :
        Fields → Json → Arguments → Fields → String → Result LiveError LiveReply
    unfolding binding_of to_integer apply_bound
    apply_upbit_live_rest_order_snapshot live_binding exchange_order_id arguments payload endpoint =
        do
          binding ← binding_of live_binding
          target ← or_raise (to_integer exchange_order_id) (from_reconcile no_integer)
          _ ← raise_if (not (eq_ℤ binding.exchange_order_id target)) refused
          apply_bound binding arguments payload endpoint
