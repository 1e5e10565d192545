-- ===== src/Reconcile/Snapshot/Readers.antt =====
-- packages/shared/goodmoneying_shared/upbit_rest_reconciliation.py: the records of a snapshot of an order, and how
-- its single fields are read.
use Prim.Native.Nat.{◌/◌, ◌^◌}
use Prim.Native.Char.{code}
use Prim.Native.String.{String, ◌++◌}
use text.Mathlib.Text.{◌==◌ as str_eq}
use goodmoneying.Prelude.{
  is_empty, ℕ, suc, Bool, true, false, not, ◌&&◌, ◌||◌, Option, none, some, List, [], ◌∷◌, any, ltb,
  ◌==◌, if◌then◌else◌,
}
use goodmoneying.Prelude.Int.{ℤ, pos, negsuc}
use goodmoneying.Prelude.Results.{Result, ok, err, ◌>>=◌, ◌>>◌, raise_if, or_raise}
use goodmoneying.Prelude.Json.{
  Json, null, boolean, integer, float, string, array, object, Items, nil, cons, Fields,
}
use goodmoneying.Prelude.Decimal.{Decimal, negative, decimal_lt, decimal_eq}
use goodmoneying.Prelude.IntegerText.{parse_integer}
use goodmoneying.Prelude.Order.{str_lt}
use goodmoneying.Reconcile.{
  ReconcileError, invalid, unhashable, Amount, amount, unbounded, zero_amount, OrderState, done,
  cancel, optional_decimal, exceeds_zero,
}

pub data Side : Type 0 where
  buy sell : Side

pub record UpbitRestTradeSnapshot : Type 0 where
  pub uuid : Option String
  pub side : Side
  pub price : Amount
  pub volume : Amount
  pub funds : Option Amount
  pub occurred_at : ℕ
  pub raw : Fields

pub data UpbitSmpType : Type 0 where
  reduce cancel_maker cancel_taker : UpbitSmpType

pub record UpbitRestOrderSnapshot : Type 0 where
  pub market : String
  pub uuid : String
  pub identifier : Option String
  pub side : Side
  pub state : OrderState
  pub created_at : Option ℕ
  pub remaining_volume : Option Amount
  pub executed_volume : Option Amount
  pub paid_fee : Amount
  pub smp_type : Option UpbitSmpType
  pub prevented_volume : Amount
  pub prevented_locked : Amount
  pub trades_count : ℕ
  pub trades : List UpbitRestTradeSnapshot
  pub knowledge_at : ℕ
  pub source_endpoint : String
  pub raw : Fields

abbrev pub allowed_source_endpoints : List String
allowed_source_endpoints =
    "GET /v1/order" ∷ "GET /v1/orders/open" ∷ "GET /v1/orders/closed" ∷ "GET /v1/orders/uuids" ∷ []

abbrev non_blank_text : String → Result ReconcileError String
non_blank_text value = if str_eq value "" then err invalid else ok value

unfoldable pub non_blank : Json → Result ReconcileError String
non_blank (string value) = non_blank_text value
non_blank _ = err invalid

unfoldable pub source_endpoint_of : Json → Result ReconcileError String
unfolding non_blank
source_endpoint_of value = do
  endpoint ← non_blank value
  raise_if (not (any (str_eq endpoint) allowed_source_endpoints)) invalid
  ok endpoint

unfoldable pub side_of : Json → Result ReconcileError Side
side_of (string value) =
    if str_eq value "bid" then ok buy else if str_eq value "ask" then ok sell else err invalid
side_of _ = err invalid

unfoldable pub optional_smp_type : Json → Result ReconcileError (Option UpbitSmpType)
optional_smp_type null = ok none
optional_smp_type (string value) =
    if str_eq value "reduce"
    then ok (some reduce)
    else if str_eq value "cancel_maker"
    then ok (some cancel_maker)
    else if str_eq value "cancel_taker"
    then ok (some cancel_taker)
    else err invalid
optional_smp_type (array _) = err unhashable
optional_smp_type (object _) = err unhashable
optional_smp_type _ = err invalid

abbrev is_positive : Option Amount → Bool
is_positive = exceeds_zero

abbrev pub positive : Option Amount → Result ReconcileError Amount
positive none = err invalid
positive (some a) = if is_positive (some a) then ok a else err invalid

unfoldable pub positive_decimal : (Json → String) → Json → Result ReconcileError Amount
positive_decimal repr value = optional_decimal repr value >>= positive

-- `int(value)` of a finite float
abbrev truncated : Decimal → ℤ
truncated d = elim d.coefficient [
  | pos n ↦ pos (n / 10 ^ d.scale)
  | negsuc n ↦ negative (suc n / 10 ^ d.scale)
]

-- `int(value)`
unfoldable pub to_integer : Json → Option ℤ
unfolding parse_integer
to_integer (boolean true) = some (pos 1)
to_integer (boolean false) = some (pos 0)
to_integer (integer i) = some i
to_integer (float d) = some (truncated d)
to_integer (string s) = parse_integer s
to_integer _ = none

abbrev natural : Option ℤ → Result ReconcileError ℕ
natural (some (pos n)) = ok n
natural _ = err invalid

unfoldable pub non_negative_int : Json → Result ReconcileError ℕ
unfolding to_integer
non_negative_int (boolean _) = err invalid
non_negative_int value = natural (to_integer value)

-- `value.replace("Z", "+00:00")`
abbrev pub replace_z : String → String
replace_z String.[] = String.[]
replace_z (String.◌∷◌ c s) =
    let rest = replace_z s in if code c == 90 then "+00:00" ++ rest else String.◌∷◌ c rest

-- `_aware_utc`; a datetime without a time zone is `none`.
abbrev pub aware_utc : Option ℕ → Result ReconcileError ℕ
aware_utc value = or_raise value invalid

-- The elements of a list that holds dictionaries only.
unfoldable pub all_objects : Items → Result ReconcileError (List Fields)
all_objects nil = ok []
all_objects (cons (object fs) xs) = elim (all_objects xs) [
  | err e ↦ err e
  | ok rest ↦ ok (fs ∷ rest)
]
all_objects (cons _ xs) = err invalid

unfoldable pub trade_payloads : Json → Result ReconcileError (List Fields)
unfolding all_objects
trade_payloads null = ok []
trade_payloads (array xs) = all_objects xs
trade_payloads _ = err invalid

abbrev pub amount_lt : Amount → Amount → Bool
amount_lt (amount a) (amount b) = decimal_lt a b
amount_lt (amount a) unbounded = true
amount_lt unbounded b = false

abbrev amount_eq : Amount → Amount → Bool
amount_eq (amount a) (amount b) = decimal_eq a b
amount_eq unbounded unbounded = true
amount_eq _ _ = false

-- `trade.uuid or ""`
abbrev text_or_empty : Option String → String
text_or_empty none = ""
text_or_empty (some s) = s

-- The comparison of the sort keys.
abbrev pub trade_lt : UpbitRestTradeSnapshot → UpbitRestTradeSnapshot → Bool
trade_lt a b =
    ltb a.occurred_at b.occurred_at
    || (a.occurred_at == b.occurred_at)
      && (str_lt (text_or_empty a.uuid) (text_or_empty b.uuid)
          || str_eq (text_or_empty a.uuid) (text_or_empty b.uuid)
            && (amount_lt a.price b.price
                || amount_eq a.price b.price && amount_lt a.volume b.volume))

-- `x or Decimal("0")`
abbrev pub or_zero : Option Amount → Amount
or_zero none = zero_amount
or_zero (some a) = a

abbrev pub later_of : Option ℕ → Option ℕ → Option ℕ
later_of (some at) fallback = some at
later_of none fallback = fallback

-- The amounts of an order that are read one after the other.
pub record OrderAmounts : Type 0 where
  pub remaining_volume : Option Amount
  pub executed_volume : Option Amount
  pub paid_fee : Amount
  pub smp_type : Option UpbitSmpType
  pub prevented_volume : Amount
  pub prevented_locked : Amount

abbrev pub is_ended : OrderState → Bool
is_ended done = true
is_ended cancel = true
is_ended _ = false

-- A terminal order with executed volume and no trades.
abbrev pub lacks_trades : UpbitRestOrderSnapshot → Bool
lacks_trades s = is_ended s.state && exceeds_zero s.executed_volume && is_empty s.trades
