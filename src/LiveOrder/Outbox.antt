-- ===== src/LiveOrder/Outbox.antt =====
-- packages/shared/goodmoneying_shared/upbit_safe_order_adapter.py.
use goodmoneying.Prelude.{ℕ, Bool, true, false, not, ◌&&◌, Option, none, some, leb, if◌then◌else◌}
use goodmoneying.LiveOrder.Capability.{LiveCapabilityEvaluation, is_enabled}

pub data SafeOrderOutboxStatus : Type 0 where
  ready blocked : SafeOrderOutboxStatus

pub data SafeOrderBlockedReason : Type 0 where
  live_disabled permission_missing permission_not_ready : SafeOrderBlockedReason
  permission_expired withdraw_permission_present kill_switch_armed : SafeOrderBlockedReason

pub record UpbitApiPermissionReadiness : Type 0 where
  pub has_order_permission : Bool
  pub has_order_read_permission : Bool
  pub has_withdraw_permission : Bool
  pub expires_at : ℕ

pub record UpbitSafeOrderOutboxDecision : Type 0 where
  pub status : SafeOrderOutboxStatus
  pub blocked_reason : Option SafeOrderBlockedReason
  pub can_enqueue : Bool
  pub can_submit : Bool

-- `_blocked`
abbrev pub blocked_by : SafeOrderBlockedReason → UpbitSafeOrderOutboxDecision
blocked_by reason = record {
  status = blocked;
  blocked_reason = some reason;
  can_enqueue = false;
  can_submit = false;
}

unfoldable pub evaluate_permission :
    UpbitApiPermissionReadiness → ℕ → Bool → UpbitSafeOrderOutboxDecision
evaluate_permission p now armed =
    if leb p.expires_at now
    then blocked_by permission_expired
    else if not (p.has_order_permission && p.has_order_read_permission)
    then blocked_by permission_not_ready
    else if p.has_withdraw_permission
    then blocked_by withdraw_permission_present
    else if armed
    then blocked_by kill_switch_armed
    else record { status = ready; blocked_reason = none; can_enqueue = true; can_submit = false }

abbrev with_permission :
    Option UpbitApiPermissionReadiness → ℕ → Bool → UpbitSafeOrderOutboxDecision
with_permission none now armed = blocked_by permission_missing
with_permission (some p) now armed = evaluate_permission p now armed

unfoldable pub evaluate_upbit_safe_order_outbox :
    LiveCapabilityEvaluation
    → Option UpbitApiPermissionReadiness
    → ℕ
    → Bool
    → UpbitSafeOrderOutboxDecision
unfolding evaluate_permission
evaluate_upbit_safe_order_outbox live_capability permission now armed =
    if not (is_enabled live_capability.state)
    then blocked_by live_disabled
    else with_permission permission now armed
