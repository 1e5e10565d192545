-- ===== src/LiveOrder/Tests.antt =====
-- The gates on small inputs.
use text.Mathlib.Text.{◌==◌ as str_eq}
use goodmoneying.Prelude.Text.{strip}
use goodmoneying.Prelude.Json.{string}
use goodmoneying.LiveOrder.Identity.{encode, derive_upbit_live_order_identifier}
use goodmoneying.LiveOrder.Derived.{derive_upbit_live_order_identifier-live}
use goodmoneying.LiveOrder.Binding.{
  UpbitLiveOrderBindingCandidate, order_uuid, lower, lower_char, is_order_uuid, live_identifier,
  source_of, non_blank, build_upbit_live_order_binding_candidate,
}
use goodmoneying.LiveOrder.Again.{build_upbit_live_order_binding_candidate-again}
use Prim.Native.String.{String}
use goodmoneying.Prelude.{
  any, not, false, ℕ, none, ◌≡◌, refl, ◌↔◌, Bool, true, false, some, List, [], ◌∷◌,
}
use goodmoneying.Prelude.Results.{Result, ok, err}
use goodmoneying.LiveOrder.Capability.{
  LiveCapabilityState, LiveCapabilityRecord, LiveCapabilityEvaluation, CapabilityRow, FetchError,
  LiveCapabilityReason, live_disabled, disabled, approval_expired,
  evaluate_live_capability_fail_closed, fetch_global_live_capability_record,
}
use goodmoneying.LiveOrder.Rehearsal.{
  one_of, field_order, query_string, OrderPayload, NormalizedOrder, text_value, null,
  best_bid_shape, canonical_payload, normalize, check_order, check_fields, is_live_identifier,
  validate_order_shape,
}
use goodmoneying.LiveOrder.Rehearsal.Contract.{Passes, canonical_payload_iff}
use goodmoneying.LiveOrder.Outbox.{
  UpbitApiPermissionReadiness, evaluate_upbit_safe_order_outbox, blocked_by, permission_expired,
}
use goodmoneying.LiveOrder.Gate.{
  Permits, IsAuthorised, capability_of, outbox-ready_iff, enqueue-IsAuthorised,
}

abbrev approval : LiveCapabilityRecord
approval = record {
  state = LiveCapabilityState.live_enabled;
  deployment_sha = "abc";
  expires_at = 100;
}

abbrev refusal : LiveCapabilityRecord
refusal = record { state = live_disabled; deployment_sha = "abc"; expires_at = 100 }

abbrev table : List CapabilityRow
table =
    record { id = 1; scope_type = "global"; scope_key = "global"; created_at = 5; value = refusal }
    ∷ record {
      id = 2;
      scope_type = "global";
      scope_key = "global";
      created_at = 9;
      value = approval;
    }
    ∷ record { id = 3; scope_type = "bot"; scope_key = "7"; created_at = 10; value = refusal }
    ∷ []

abbrev permission : UpbitApiPermissionReadiness
permission = record {
  has_order_permission = true;
  has_order_read_permission = true;
  has_withdraw_permission = false;
  expires_at = 80;
}

abbrev enabled : LiveCapabilityEvaluation
enabled = record {
  state = LiveCapabilityState.live_enabled;
  reason = LiveCapabilityReason.live_enabled;
}

fetched_newest : fetch_global_live_capability_record table ≡ some approval
unfolding fetch_global_live_capability_record
fetched_newest = refl

expired : capability_of (ok table) "abc" 100 ≡ disabled approval_expired
unfolding capability_of evaluate_live_capability_fail_closed fetch_global_live_capability_record
expired = refl

blocked_late :
    evaluate_upbit_safe_order_outbox enabled (some permission) 80 false
    ≡ blocked_by permission_expired
unfolding evaluate_upbit_safe_order_outbox
blocked_late = refl

ready_when_enabled :
    let d = evaluate_upbit_safe_order_outbox enabled (some permission) 70 false in
    (d.can_submit ≡ false)
    × ((d.can_enqueue ≡ true) ↔ (
        (enabled.state ≡ LiveCapabilityState.live_enabled)
        × Permits (some permission) 70
        × (◌≡◌ {A = Bool} false false)))
ready_when_enabled = outbox-ready_iff enabled (some permission) 70 false

may_enqueue :
    (evaluate_upbit_safe_order_outbox
      (capability_of (ok table) "abc" 70)
      (some permission)
      70
      false).can_enqueue
    ≡ true
unfolding evaluate_upbit_safe_order_outbox capability_of evaluate_live_capability_fail_closed
    fetch_global_live_capability_record
may_enqueue = refl

enqueue-IsAuthorised_example :
    (rows : List CapabilityRow) × (◌≡◌ {A = Result FetchError (List CapabilityRow)}
      (ok table)
      (ok rows))
    × IsAuthorised rows "abc" 70
    × Permits (some permission) 70
    × (◌≡◌ {A = Bool} false false)
enqueue-IsAuthorised_example =
    enqueue-IsAuthorised (ok table) "abc" 70 (some permission) false may_enqueue

abbrev our_identifier : String
our_identifier = "gm1_aaaaaaaaaaaaabbbbbbbbbbbbbccccccccccccc2222222777777"

abbrev limit_order : OrderPayload
limit_order =
    ("market", text_value "KRW-BTC")
    ∷ ("side", text_value " bid ")
    ∷ ("volume", text_value "1")
    ∷ ("price", text_value "100")
    ∷ ("ord_type", text_value "limit")
    ∷ ("identifier", text_value our_identifier)
    ∷ ("smp_type", null)
    ∷ []

abbrev normalized_order : NormalizedOrder
normalized_order = record {
  market = some "KRW-BTC";
  side = some "bid";
  volume = some "1";
  price = some "100";
  ord_type = some "limit";
  identifier = some our_identifier;
  time_in_force = none;
  smp_type = none;
}

accepted : canonical_payload limit_order ≡ ok normalized_order
unfolding canonical_payload normalize check_order check_fields is_live_identifier
    validate_order_shape
accepted = refl

canonical_payload_iff_example : (canonical_payload limit_order ≡ ok normalized_order) ↔ (
    (any (λ entry. not (one_of field_order entry.0)) limit_order ≡ false)
    × (normalize limit_order ≡ ok normalized_order)
    × Passes normalized_order)
canonical_payload_iff_example = canonical_payload_iff limit_order normalized_order

order_query :
    query_string (record normalized_order { identifier = some "gm1_a" })
    ≡ "market=KRW-BTC&side=bid&volume=1&price=100&ord_type=limit&identifier=gm1_a"
unfolding query_string
order_query = refl

no_price :
    validate_order_shape "best" "bid"
      (record normalized_order { time_in_force = some "ioc"; price = none })
    ≡ err best_bid_shape
unfolding validate_order_shape
no_price = refl

abbrev zeros : String → List ℕ
zeros s =
    0 ∷ 0 ∷ 0 ∷ 0 ∷ 0 ∷ 0 ∷ 0 ∷ 0 ∷ 0 ∷ 0 ∷ 0 ∷ 0 ∷ 0 ∷ 0 ∷ 0 ∷ 0 ∷ 0 ∷ 0 ∷ 0 ∷ 0 ∷ 0 ∷ 0 ∷ 0 ∷ 0
    ∷ 0 ∷ 0 ∷ 0 ∷ 0 ∷ 0 ∷ 0 ∷ 0 ∷ 255 ∷ []

stripped_account : str_eq "account-1" (strip "account-1") ≡ true
unfolding strip
stripped_account = refl

stripped_key : str_eq "key-1" (strip "key-1") ≡ true
unfolding strip
stripped_key = refl

derive_upbit_live_order_identifier-live_example :
    (identifier : String) × (derive_upbit_live_order_identifier zeros "account-1" "key-1"
      ≡ ok identifier)
    × (is_live_identifier identifier ≡ true)
derive_upbit_live_order_identifier-live_example =
    derive_upbit_live_order_identifier-live zeros (λ s. refl) "account-1" "key-1" refl
      stripped_account refl stripped_key

-- 255 is "74" in base 32, behind the bits of the byte before.
last_byte : encode (0 ∷ 255 ∷ []) ≡ "ad7q"
unfolding encode
last_byte = refl

built :
    (c : UpbitLiveOrderBindingCandidate) × (build_upbit_live_order_binding_candidate
        (string " 0A345678-0000-4000-8000-000000000001")
        (string "gm1_aaaaaaaaaaaaaaaaaaaaaaaaaaaaaaaaaaaaaaaaaaaaaaaaaaaa")
        (string "myorder_event")
      ≡ ok c)
unfolding build_upbit_live_order_binding_candidate order_uuid lower lower_char is_order_uuid
    live_identifier is_live_identifier source_of non_blank strip
built = (_, refl)

build_upbit_live_order_binding_candidate-again_example :
    build_upbit_live_order_binding_candidate
      (string built.0.upbit_order_uuid)
      (string built.0.upbit_identifier)
      (string built.0.source)
    ≡ ok built.0
build_upbit_live_order_binding_candidate-again_example =
    build_upbit_live_order_binding_candidate-again (string " 0A345678-0000-4000-8000-000000000001")
      (string "gm1_aaaaaaaaaaaaaaaaaaaaaaaaaaaaaaaaaaaaaaaaaaaaaaaaaaaa") (string "myorder_event")
      built.1
