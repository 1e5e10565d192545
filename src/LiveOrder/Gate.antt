-- ===== src/LiveOrder/Gate.antt =====
-- The two gates together: when an order may enter the outbox.
use Prim.Native.String.{String}
use text.Mathlib.TextEquality.{eq_iff}
use goodmoneying.Prelude.{
  ℕ, ◌≡◌, refl, ◌↔◌, Bool, true, false, Option, none, some, List, arith, ◌<◌,
}
use goodmoneying.Prelude.Results.{Result, ok, err}
use goodmoneying.LiveOrder.Capability.{
  LiveCapabilityState, LiveCapabilityRecord, LiveCapabilityEvaluation, CapabilityRow, FetchError,
  is_global, is_newer, row_value, evaluate_live_capability, evaluate_live_capability_fail_closed,
  fetch_global_live_capability_record,
}
use goodmoneying.Prelude.Query.{IsRowOrder, IsFirst, select_first, select_first-IsFirst}
use goodmoneying.LiveOrder.Outbox.{UpbitApiPermissionReadiness, evaluate_upbit_safe_order_outbox}

-- The call of both, with the rows that the database gives, or its failure.
abbrev pub fetch_record :
    Result FetchError (List CapabilityRow) → Result FetchError (Option LiveCapabilityRecord)
fetch_record (err e) = err e
fetch_record (ok table) = ok (fetch_global_live_capability_record table)

unfoldable pub capability_of :
    Result FetchError (List CapabilityRow) → String → ℕ → LiveCapabilityEvaluation
unfolding evaluate_live_capability_fail_closed fetch_global_live_capability_record
capability_of fetched sha now = evaluate_live_capability_fail_closed (fetch_record fetched) sha now

-- The permissions that the exchange account must have at the time `now`.
pub record IsPermitted (p : UpbitApiPermissionReadiness) (now : ℕ) : Type 0 where
  pub live : now < p.expires_at
  pub can_order : p.has_order_permission ≡ true
  pub can_read : p.has_order_read_permission ≡ true
  pub no_withdrawal : p.has_withdraw_permission ≡ false

-- They are known, and suffice.
abbrev pub Permits : Option UpbitApiPermissionReadiness → ℕ → Type 0
Permits none now = ⊥
Permits (some p) now = IsPermitted p now

-- An order may enter the outbox exactly if live trading is enabled, the permissions are there and
-- suffice, and no kill switch is armed. It may be submitted in no case.
pub outbox-ready_iff :
    (c : LiveCapabilityEvaluation) (permission : Option UpbitApiPermissionReadiness) (now : ℕ)
    (armed : Bool)
    → let d = evaluate_upbit_safe_order_outbox c permission now armed in
      (d.can_submit ≡ false)
      × ((d.can_enqueue ≡ true) ↔ (
          (c.state ≡ LiveCapabilityState.live_enabled) × Permits permission now × (armed ≡ false)))
unfolding evaluate_upbit_safe_order_outbox
outbox-ready_iff c none now armed = (ground arith, ((λ h. ground arith), λ h. absurd h.1))
outbox-ready_iff c (some p) now armed =
    (ground arith, ((λ h. (ground arith, ground arith, ground arith)), λ h. ground arith))

-- Live trading counts as enabled only if a record says so, for this deployment and not expired.
pub evaluate_live_capability-enabled :
    (r : Option LiveCapabilityRecord) (sha : String) (now : ℕ)
    → (evaluate_live_capability r sha now).state ≡ LiveCapabilityState.live_enabled
    → (v : LiveCapabilityRecord) × (r ≡ some v)
      × (v.state ≡ LiveCapabilityState.live_enabled)
      × (v.deployment_sha ≡ sha)
      × (now < v.expires_at)
unfolding evaluate_live_capability
evaluate_live_capability-enabled none sha now h = cc
evaluate_live_capability-enabled (some v) sha now h =
    (v, refl, ground arith, ground (arith, eq_iff v.deployment_sha sha), ground arith)

is_newer-IsRowOrder : IsRowOrder is_newer
is_newer-IsRowOrder = record {
  irrefl = λ a. ground arith;
  asym = λ a b h. ground arith;
  trans = λ a b c h k. ground arith;
}

row_value-some :
    (o : Option CapabilityRow) {v : LiveCapabilityRecord}
    → row_value o ≡ some v
    → (r : CapabilityRow) × (o ≡ some r) × (r.value ≡ v)
row_value-some none h = cc
row_value-some (some r) h = (r, refl, cc)

-- What the newest record of the global scope must say for an order to pass.
pub record IsAuthorised (table : List CapabilityRow) (sha : String) (now : ℕ) : Type 0 where
  pub row : CapabilityRow
  pub is_newest : IsFirst is_newer is_global table row
  pub says_enabled : row.value.state ≡ LiveCapabilityState.live_enabled
  pub deployed : row.value.deployment_sha ≡ sha
  pub unexpired : now < row.value.expires_at

pub fetched-IsAuthorised :
    (table : List CapabilityRow) (sha : String) (now : ℕ)
    → (evaluate_live_capability_fail_closed
        (ok (fetch_global_live_capability_record table))
        sha
        now).state
      ≡ LiveCapabilityState.live_enabled
    → IsAuthorised table sha now
unfolding evaluate_live_capability_fail_closed fetch_global_live_capability_record
fetched-IsAuthorised table sha now h =
    let (v, found, enabled, deployed, unexpired) =
      evaluate_live_capability-enabled (row_value (select_first is_newer is_global table)) sha now
        h in
    let (r, first, same) = row_value-some (select_first is_newer is_global table) found in
    record {
      row = r;
      is_newest = select_first-IsFirst is_newer-IsRowOrder is_global table first;
      says_enabled = rw same enabled;
      deployed = rw same deployed;
      unexpired = rw same unexpired;
    }

-- From the table to the outbox: if an order may be enqueued, then the database was readable, the
-- newest global record enables this deployment and has not expired, the permissions suffice, and
-- no kill switch is armed.
pub enqueue-IsAuthorised :
    (fetched : Result FetchError (List CapabilityRow)) (sha : String) (now : ℕ)
    (permission : Option UpbitApiPermissionReadiness) (armed : Bool)
    → (evaluate_upbit_safe_order_outbox
        (capability_of fetched sha now)
        permission
        now
        armed).can_enqueue
      ≡ true
    → (table : List CapabilityRow) × (fetched ≡ ok table)
      × IsAuthorised table sha now
      × Permits permission now
      × (armed ≡ false)
unfolding capability_of evaluate_live_capability_fail_closed
enqueue-IsAuthorised (err e) sha now permission armed h =
    absurd (let (enabled, _, _) = (outbox-ready_iff _ permission now armed).1.0 h in cc enabled)
enqueue-IsAuthorised (ok table) sha now permission armed h =
    let (enabled, permits, calm) = (outbox-ready_iff _ permission now armed).1.0 h in
    (table, refl, fetched-IsAuthorised table sha now enabled, permits, calm)
