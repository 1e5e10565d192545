-- ===== src/LiveOrder/Capability.antt =====
-- packages/shared/goodmoneying_shared/live_capability.py. A datetime is its UTC instant in
-- microseconds; the table `trading_capabilities` is the list of its rows.
use Prim.Native.String.{String}
use text.Mathlib.Text.{◌==◌ as str_eq}
use goodmoneying.Prelude.{
  ℕ, Bool, true, false, not, ◌&&◌, ◌||◌, Option, none, some, List, ltb, leb, ◌==◌, if◌then◌else◌,
}
use goodmoneying.Prelude.Query.{select_first}
use goodmoneying.Prelude.Results.{Result, ok, err}

pub data LiveCapabilityState : Type 0 where
  live_disabled live_enabled : LiveCapabilityState

pub data LiveCapabilityReason : Type 0 where
  authority_missing authority_unavailable explicitly_disabled : LiveCapabilityReason
  deployment_sha_mismatch approval_expired live_enabled : LiveCapabilityReason

pub record LiveCapabilityRecord : Type 0 where
  pub state : LiveCapabilityState
  pub deployment_sha : String
  pub expires_at : ℕ

pub record LiveCapabilityEvaluation : Type 0 where
  pub state : LiveCapabilityState
  pub reason : LiveCapabilityReason

abbrev pub is_enabled : LiveCapabilityState → Bool
is_enabled LiveCapabilityState.live_enabled = true
is_enabled live_disabled = false

abbrev pub disabled : LiveCapabilityReason → LiveCapabilityEvaluation
disabled why = record { state = live_disabled; reason = why }

unfoldable pub evaluate_live_capability :
    Option LiveCapabilityRecord → String → ℕ → LiveCapabilityEvaluation
evaluate_live_capability none deployment_sha now = disabled authority_missing
evaluate_live_capability (some r) deployment_sha now =
    if not (is_enabled r.state)
    then disabled explicitly_disabled
    else if not (str_eq r.deployment_sha deployment_sha)
    then disabled deployment_sha_mismatch
    else if leb r.expires_at now
    then disabled approval_expired
    else record {
      state = LiveCapabilityState.live_enabled;
      reason = LiveCapabilityReason.live_enabled;
    }

-- What `fetch_record()` did: it raised some exception, or returned.
pub data FetchError : Type 0 where
  database_error : FetchError

unfoldable pub evaluate_live_capability_fail_closed :
    Result FetchError (Option LiveCapabilityRecord) → String → ℕ → LiveCapabilityEvaluation
unfolding evaluate_live_capability
evaluate_live_capability_fail_closed (err e) deployment_sha now = disabled authority_unavailable
evaluate_live_capability_fail_closed (ok r) deployment_sha now =
    evaluate_live_capability r deployment_sha now

-- A row of `trading_capabilities`.
pub record CapabilityRow : Type 0 where
  pub id : ℕ
  pub scope_type : String
  pub scope_key : String
  pub created_at : ℕ
  pub value : LiveCapabilityRecord

abbrev pub is_global : CapabilityRow → Bool
is_global r = str_eq r.scope_type "global" && str_eq r.scope_key "global"

-- `ORDER BY created_at DESC, id DESC`
abbrev pub is_newer : CapabilityRow → CapabilityRow → Bool
is_newer a b = ltb b.created_at a.created_at || (a.created_at == b.created_at) && ltb b.id a.id

abbrev pub row_value : Option CapabilityRow → Option LiveCapabilityRecord
row_value none = none
row_value (some r) = some r.value

unfoldable pub fetch_global_live_capability_record :
    List CapabilityRow → Option LiveCapabilityRecord
unfolding select_first
fetch_global_live_capability_record table = row_value (select_first is_newer is_global table)
