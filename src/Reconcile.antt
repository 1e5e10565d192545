-- ===== src/Reconcile.antt =====
-- What upbit_myorder.py and upbit_rest_reconciliation.py of packages/shared/goodmoneying_shared read of the
-- fields of an order: texts, Booleans, decimals and states, with the exceptions that they raise.
pub mod MyOrder
pub mod Snapshot
pub mod Request
pub mod Fees
pub mod Read
pub mod Ledger
pub mod Live
pub mod Fills
pub mod Refusals
mod Tests
use Prim.Native.String.{String}
use text.Mathlib.Text.{◌==◌ as str_eq}
use goodmoneying.Prelude.{
  ℕ, Bool, true, false, Option, none, some, List, [], ◌∷◌, any, if◌then◌else◌,
}
use goodmoneying.Prelude.Results.{Result, ok, err, ◌>>=◌}
use goodmoneying.Prelude.Json.{
  Json, null, boolean, integer, float, string, array, object, Fields, str,
}
use goodmoneying.Prelude.Decimal.{Decimal, decimal_lt}
use goodmoneying.Prelude.Decimal as Decimals
use goodmoneying.Prelude.DecimalText.{Number, finite, infinite, nan, parse_decimal}

-- The module's own `ValueError`, and the exceptions that a call may raise besides: `InvalidOperation` of
-- decimals, `TypeError` where a list or a dictionary is looked up in a set, a refused `int(…)`,
-- and an index out of range.
pub data ReconcileError : Type 0 where
  invalid : ReconcileError
  invalid_operation unhashable no_integer index_error : ReconcileError

-- A decimal that is not negative: a finite one, or infinity.
pub data Amount : Type 0 where
  amount : Decimal → Amount
  unbounded : Amount

pub data OrderState : Type 0 where
  wait watch trade done cancel prevented rejected : OrderState

abbrev pub zero_decimal : Decimal
zero_decimal = Decimals.integer 0

abbrev pub zero_amount : Amount
zero_amount = amount zero_decimal

abbrev pub state_names : List (String × OrderState)
state_names =
    ("wait", wait)
    ∷ ("watch", watch)
    ∷ ("trade", trade)
    ∷ ("done", done)
    ∷ ("cancel", cancel)
    ∷ ("prevented", prevented)
    ∷ ("rejected", rejected)
    ∷ []

abbrev pub state_named : String → List (String × OrderState) → Result ReconcileError OrderState
state_named value [] = err invalid
state_named value ((name, state) ∷ names) =
    let rest = state_named value names in if str_eq value name then ok state else rest

unfoldable pub state_of : Json → Result ReconcileError OrderState
state_of (string value) = state_named value state_names
state_of _ = err invalid

unfoldable pub optional_str : Json → Result ReconcileError (Option String)
optional_str null = ok none
optional_str (string value) = if str_eq value "" then err invalid else ok (some value)
optional_str _ = err invalid

unfoldable pub optional_bool : Json → Result ReconcileError (Option Bool)
optional_bool null = ok none
optional_bool (boolean b) = ok (some b)
optional_bool _ = err invalid

-- `if decimal < 0: raise …`, where a NaN cannot be compared.
unfoldable pub not_negative : Number → Result ReconcileError (Option Amount)
unfolding decimal_lt
not_negative nan = err invalid_operation
not_negative (infinite true) = err invalid
not_negative (infinite false) = ok (some unbounded)
not_negative (finite d) = if decimal_lt d zero_decimal then err invalid else ok (some (amount d))

abbrev pub converted : Option Number → Result ReconcileError (Option Amount)
converted none = err invalid
converted (some n) = not_negative n

unfoldable pub optional_decimal : (Json → String) → Json → Result ReconcileError (Option Amount)
unfolding parse_decimal str
optional_decimal repr null = ok none
optional_decimal repr value = converted (parse_decimal (str repr value))

-- `(x or Decimal("0")) > 0`
abbrev pub exceeds_zero : Option Amount → Bool
exceeds_zero none = false
exceeds_zero (some (amount d)) = decimal_lt zero_decimal d
exceeds_zero (some unbounded) = true
