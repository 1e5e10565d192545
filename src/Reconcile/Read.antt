-- ===== src/Reconcile/Read.antt =====
-- What a snapshot that upbit_rest_reconciliation.py has read is like.
use Prim.Native.String.{String}
use mathlib.Core.Path.{subst}
use text.Mathlib.Text.{◌==◌ as str_eq}
use goodmoneying.Prelude.{
  ◌<◌, Bool, ◌&&◌, is_empty, ℕ, true, false, not, ◌≡◌, ◌≤◌, sym, ap, ◌∙◌, Option, none, some, List,
  [], ◌∷◌, All, any, length, ◌==◌, arith, Bool-cases, inl, inr,
}
use goodmoneying.Prelude.Results.{ok, or_raise, bind-returned, raise_if-returned, ok-injective}
use goodmoneying.Prelude.Json.{Json, string, integer, Fields, get_or_null, get, or_default}
use goodmoneying.Prelude.Int.{pos}
use goodmoneying.Prelude.Sort.{sort_with, All-sort_with, IsSorted, sort_with-IsSorted}
use goodmoneying.Reconcile.{
  invalid, Amount, OrderState, wait, watch, trade, done, cancel, prevented, rejected, exceeds_zero,
  optional_decimal, optional_str, state_of,
}
use goodmoneying.Reconcile.Snapshot.{
  Side, UpbitRestTradeSnapshot, UpbitRestOrderSnapshot, allowed_source_endpoints, non_blank,
  source_endpoint_of, side_of, positive, positive_decimal, non_negative_int, read_amounts,
  aware_utc, trade_payloads, trade_lt, lacks_trades, optional_datetime, later_of, side_or, is_ended,
  trade_snapshot, trade_snapshots, order_snapshot, counted_snapshot,
  parse_upbit_rest_order_snapshot,
}

abbrev pub IsPriced : UpbitRestTradeSnapshot → Type 0
IsPriced t = (exceeds_zero (some t.price) ≡ true) × (exceeds_zero (some t.volume) ≡ true)

abbrev pub occurred : UpbitRestTradeSnapshot → ℕ
occurred t = t.occurred_at

-- A done or cancelled order with executed volume has trades.
abbrev pub IsComplete : OrderState → Bool → ℕ → Type 0
IsComplete done true n = 0 < n
IsComplete cancel true n = 0 < n
IsComplete _ _ n = Unit

pub record IsSnapshot (s : UpbitRestOrderSnapshot) : Type 0 where
  pub endpoint_allowed : any (str_eq s.source_endpoint) allowed_source_endpoints ≡ true
  pub counted : s.trades_count ≡ length s.trades
  pub priced : All IsPriced s.trades
  pub in_time_order : IsSorted occurred s.trades
  pub complete : IsComplete s.state (exceeds_zero s.executed_volume) (length s.trades)

lacks_trades-IsComplete :
    (s : UpbitRestOrderSnapshot)
    → lacks_trades s ≡ false
    → IsComplete s.state (exceeds_zero s.executed_volume) (length s.trades)
lacks_trades-IsComplete s h = complete s.state (exceeds_zero s.executed_volume) s.trades h
  where
    complete :
        (state : OrderState) (executed : Bool) (trades : List UpbitRestTradeSnapshot)
        → (is_ended state && executed && is_empty trades) ≡ false
        → IsComplete state executed (length trades)
    complete done true [] h = cc
    complete done true (t ∷ trades) h = omega arith
    complete done false trades h = tt
    complete cancel true [] h = cc
    complete cancel true (t ∷ trades) h = omega arith
    complete cancel false trades h = tt
    complete wait executed trades h = tt
    complete watch executed trades h = tt
    complete trade executed trades h = tt
    complete prevented executed trades h = tt
    complete rejected executed trades h = tt

source_endpoint-allowed :
    (value : Json) {endpoint : String}
    → source_endpoint_of value ≡ ok endpoint
    → any (str_eq endpoint) allowed_source_endpoints ≡ true
unfolding source_endpoint_of
source_endpoint-allowed value {endpoint} h =
    let (text_, later, _) = bind-returned (non_blank value) _ h in
    let (found, e) =
      raise_if-returned (not (any (str_eq text_) allowed_source_endpoints)) invalid _ later in
    let same : text_ ≡ endpoint = cc in
    let yes : any (str_eq text_) allowed_source_endpoints ≡ true = ground (arith, found) in
    ap (λ t. any (str_eq t) allowed_source_endpoints) (sym same) ∙ yes

positive-exceeds :
    (read : Option Amount) {a : Amount} → positive read ≡ ok a → exceeds_zero (some a) ≡ true
positive-exceeds none h = cc
positive-exceeds (some b) {a} h = elim (Bool-cases (exceeds_zero (some b))) [
  | inl exceeds ↦ ground (arith, h, exceeds)
  | inr fails ↦ ground (arith, h, fails)
]

module _ (repr : Json → String) (fromisoformat : String → Option (Option ℕ)) where
  positive_decimal-exceeds :
      (value : Json) {a : Amount}
      → positive_decimal repr value ≡ ok a
      → exceeds_zero (some a) ≡ true
  unfolding positive_decimal
  positive_decimal-exceeds value h =
      let (read, later, _) = bind-returned (optional_decimal repr value) positive h in
      positive-exceeds read later

  trade_snapshot-IsPriced :
      (side : Side) (at : Option ℕ) (payload : Fields) {t : UpbitRestTradeSnapshot}
      → trade_snapshot repr fromisoformat side at payload ≡ ok t
      → IsPriced t
  unfolding trade_snapshot
  trade_snapshot-IsPriced side at payload h =
      let get_value = λ (key : String). get_or_null key payload in
      let (created_at, at_read, _) =
        bind-returned (optional_datetime repr fromisoformat (get_value "created_at")) _ h in
      let (_, uuid_read, _) = bind-returned (or_raise (later_of created_at at) invalid) _ at_read in
      let (_, side_read, _) = bind-returned (optional_str (get_value "uuid")) _ uuid_read in
      let (_, price_read, _) =
        bind-returned (side_or repr fromisoformat side (get_value "side")) _ side_read in
      let (price, volume_read, price_made) =
        bind-returned (positive_decimal repr (get_value "price")) _ price_read in
      let (volume, funds_read, volume_made) =
        bind-returned (positive_decimal repr (get_value "volume")) _ volume_read in
      let (_, made, _) = bind-returned (optional_decimal repr (get_value "funds")) _ funds_read in
      let e = ok-injective made in
      (
        ap (λ t. exceeds_zero (some t.price)) (sym e) ∙ positive_decimal-exceeds _ price_made,
        ap (λ t. exceeds_zero (some t.volume)) (sym e) ∙ positive_decimal-exceeds _ volume_made,
      )

  trade_snapshots-IsPriced :
      (side : Side) (at : Option ℕ) (payloads : List Fields) {trades : List UpbitRestTradeSnapshot}
      → trade_snapshots repr fromisoformat side at payloads ≡ ok trades
      → All IsPriced trades
  unfolding trade_snapshots
  trade_snapshots-IsPriced side at [] h = subst (All IsPriced) (ok-injective h) tt
  trade_snapshots-IsPriced side at (payload ∷ payloads) h =
      let (first, later, first_made) =
        bind-returned (trade_snapshot repr fromisoformat side at payload) _ h in
      let (rest, made, rest_made) =
        bind-returned (trade_snapshots repr fromisoformat side at payloads) _ later in
      subst (All IsPriced) (ok-injective made) (
        trade_snapshot-IsPriced side at payload first_made,
        trade_snapshots-IsPriced side at payloads rest_made,
      )

  -- The snapshot keeps what was read before it is put together.
  order_snapshot-keeps :
      (payload : Fields) (knowledge_at : Option ℕ) (endpoint : String) (side : Side) (at : Option ℕ)
      (trades : List UpbitRestTradeSnapshot) (n : ℕ) {s : UpbitRestOrderSnapshot}
      → order_snapshot repr fromisoformat payload knowledge_at endpoint side at trades n ≡ ok s
      → (endpoint ≡ s.source_endpoint) × (trades ≡ s.trades) × (n ≡ s.trades_count)
  unfolding order_snapshot
  order_snapshot-keeps payload knowledge_at endpoint side at trades n h =
      let get_value = λ (key : String). get_or_null key payload in
      let (_, h1, _) = bind-returned (non_blank (get_value "market")) _ h in
      let (_, h2, _) = bind-returned (non_blank (get_value "uuid")) _ h1 in
      let (_, h3, _) = bind-returned (optional_str (get_value "identifier")) _ h2 in
      let (_, h4, _) = bind-returned (state_of (get_value "state")) _ h3 in
      let (_, h5, _) = bind-returned (read_amounts repr fromisoformat payload) _ h4 in
      let (_, made, _) = bind-returned (aware_utc knowledge_at) _ h5 in
      let e = ok-injective made in
      (ap (λ s. s.source_endpoint) e, ap (λ s. s.trades) e, ap (λ s. s.trades_count) e)

  less : (a b : UpbitRestTradeSnapshot) → trade_lt a b ≡ true → occurred a ≤ occurred b
  less a b h = ground (arith, h)

  not_less : (a b : UpbitRestTradeSnapshot) → trade_lt a b ≡ false → occurred b ≤ occurred a
  not_less a b h = ground (arith, h)

  counted_snapshot-IsSnapshot :
      (payload : Fields) (knowledge_at : Option ℕ) (endpoint : String) (side : Side) (at : Option ℕ)
      (unsorted : List UpbitRestTradeSnapshot) {s : UpbitRestOrderSnapshot}
      → any (str_eq endpoint) allowed_source_endpoints ≡ true
      → All IsPriced unsorted
      → counted_snapshot repr fromisoformat payload knowledge_at endpoint side at
          (sort_with trade_lt unsorted)
        ≡ ok s
      → IsSnapshot s
  unfolding counted_snapshot
  counted_snapshot-IsSnapshot payload knowledge_at endpoint side at unsorted {s} allowed priced h =
      let trades = sort_with trade_lt unsorted in
      let (n, later, _) =
        bind-returned
          (non_negative_int
            (or_default (integer (pos (length trades))) (get "trades_count" payload)))
          _ h in
      let (same_count, read) = raise_if-returned (not (n == length trades)) invalid _ later in
      let (t, checked, made) =
        bind-returned
          (order_snapshot repr fromisoformat payload knowledge_at endpoint side at trades n) _
          read in
      let (complete, returned) = raise_if-returned (lacks_trades t) invalid _ checked in
      let (e_endpoint, e_trades, e_count) =
        order_snapshot-keeps payload knowledge_at endpoint side at trades n made in
      let counted : n ≡ length trades = ground (arith, same_count) in
      subst IsSnapshot (ok-injective returned) (record {
        endpoint_allowed =
            subst (λ w. any (str_eq w) allowed_source_endpoints ≡ true) e_endpoint allowed;
        counted = sym e_count ∙ counted ∙ ap length e_trades;
        priced = subst (All IsPriced) e_trades (All-sort_with trade_lt IsPriced unsorted priced);
        in_time_order =
            subst (IsSorted occurred) e_trades
              (sort_with-IsSorted trade_lt occurred less not_less unsorted);
        complete = lacks_trades-IsComplete t complete;
      })

  -- A snapshot that is read has an allowed endpoint, as many trades as it says, in the order of time and each
  -- of a positive price and volume; a done or cancelled order with executed volume has trades.
  pub parse_upbit_rest_order_snapshot-IsSnapshot :
      (payload : Fields) (knowledge_at : Option ℕ) (source_endpoint : String)
      {s : UpbitRestOrderSnapshot}
      → parse_upbit_rest_order_snapshot repr fromisoformat payload knowledge_at source_endpoint
        ≡ ok s
      → IsSnapshot s
  unfolding parse_upbit_rest_order_snapshot
  parse_upbit_rest_order_snapshot-IsSnapshot payload knowledge_at source_endpoint h =
      let (endpoint, h1, endpoint_made) =
        bind-returned (source_endpoint_of (string source_endpoint)) _ h in
      let (side, h2, _) = bind-returned (side_of (get_or_null "side" payload)) _ h1 in
      let (at, h3, _) =
        bind-returned (optional_datetime repr fromisoformat (get_or_null "created_at" payload)) _
          h2 in
      let (raw, h4, _) = bind-returned (trade_payloads (get_or_null "trades" payload)) _ h3 in
      let (unsorted, h5, made) =
        bind-returned (trade_snapshots repr fromisoformat side at raw) _ h4 in
      counted_snapshot-IsSnapshot payload knowledge_at endpoint side at unsorted
        (source_endpoint-allowed (string source_endpoint) endpoint_made)
        (trade_snapshots-IsPriced side at raw made) h5
