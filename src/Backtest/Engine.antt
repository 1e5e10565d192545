-- ===== src/Backtest/Engine.antt =====
-- run_candle_backtest of packages/shared/goodmoneying_shared/backtest_engine.py: signals that a
-- strategy computed before are replayed against candles. Every number that the code checks to be a
-- Decimal is one by its type, so the error `decimal_required` does not occur; the hashes are
-- parameters. A datetime is a number of microseconds.
pub mod Growth
pub mod Fills
pub mod Points
mod Tests
use Prim.Native.String.{String, compare as str_compare}
use text.Mathlib.Text.{is_lt}
use goodmoneying.Prelude.{
  ℕ, ◌+◌, ◌*◌, Bool, true, false, ◌&&◌, ◌||◌, Option, none, some, List, [], ◌∷◌, ◌++◌, any, find,
  ltb, leb, ◌==◌, if◌then◌else◌,
}
use goodmoneying.Prelude.Int.{ℤ}
use goodmoneying.Prelude.Decimal.{
  Decimal, ◌+ᵈ◌, ◌-ᵈ◌, ◌*ᵈ◌, per_ten_thousand, decimal_min, is_zero, integer,
}
use goodmoneying.Prelude.Sort.{sort_with}

pub record ExecutionModel : Type 0 where
  pub fee_rate : Decimal
  pub slippage_bps : Decimal
  pub latency_seconds : ℕ
  pub max_participation_rate : Decimal

pub record BacktestEngineSpec : Type 0 where
  pub dataset_version_id : ℕ
  pub dataset_content_hash : String
  pub strategy_version_id : ℕ
  pub strategy_graph_hash : String
  pub engine_version : String
  pub parameter_hash : String
  pub seed : ℤ
  pub initial_cash : Decimal
  pub execution : ExecutionModel

pub data BacktestQuality : Type 0 where
  available no_trade missing unavailable unverified : BacktestQuality

pub record BacktestCandleEvent : Type 0 where
  pub instrument_id : ℕ
  pub market_code : String
  pub occurred_at : ℕ
  pub knowledge_at : ℕ
  pub stable_sequence : String
  pub open_price : Decimal
  pub high : Decimal
  pub low : Decimal
  pub close : Decimal
  pub volume : Decimal
  pub quality : BacktestQuality
  pub content_hash : String
  pub source_priority : ℕ

pub data BacktestSide : Type 0 where
  buy sell : BacktestSide

pub record BacktestSignal : Type 0 where
  pub occurred_at : ℕ
  pub knowledge_at : ℕ
  pub side : BacktestSide
  pub base_quantity : Decimal

pub data BacktestTradeStatus : Type 0 where
  filled partially_filled rejected : BacktestTradeStatus

pub record BacktestTrade : Type 0 where
  pub side : BacktestSide
  pub requested_quantity : Decimal
  pub filled_quantity : Decimal
  pub remaining_quantity : Decimal
  pub fill_price : Decimal
  pub fee_paid : Decimal
  pub status : BacktestTradeStatus
  pub occurred_at : ℕ
  pub knowledge_at : ℕ

pub record BacktestEquityPoint : Type 0 where
  pub occurred_at : ℕ
  pub knowledge_at : ℕ
  pub cash : Decimal
  pub base_position : Decimal
  pub equity : Decimal

pub data BacktestRunStatus : Type 0 where
  succeeded failed : BacktestRunStatus

-- `metrics` holds the final equity.
pub record BacktestResult : Type 0 where
  pub status : BacktestRunStatus
  pub input_hash : String
  pub result_hash : String
  pub assumptions : List String
  pub replay_events : List BacktestCandleEvent
  pub trades : List BacktestTrade
  pub equity_points : List BacktestEquityPoint
  pub final_equity : Decimal
  pub golden_replay_signals : List BacktestSignal
  pub errors : List String

-- `_event_sort_key`, compared.
abbrev pub event_lt : BacktestCandleEvent → BacktestCandleEvent → Bool
event_lt a b =
    ltb a.knowledge_at b.knowledge_at
    || (a.knowledge_at == b.knowledge_at)
      && (ltb a.source_priority b.source_priority
          || (a.source_priority == b.source_priority)
            && is_lt (str_compare a.stable_sequence b.stable_sequence))

-- `_signal_sort_key`, compared; the index is the order of the signals, which the sort keeps.
abbrev pub signal_lt : BacktestSignal → BacktestSignal → Bool
signal_lt a b =
    ltb a.knowledge_at b.knowledge_at
    || (a.knowledge_at == b.knowledge_at) && ltb a.occurred_at b.occurred_at

abbrev pub is_look_ahead_signal : BacktestSignal → Bool
is_look_ahead_signal signal = ltb signal.knowledge_at signal.occurred_at

abbrev pub is_available : BacktestQuality → Bool
is_available available = true
is_available _ = false

abbrev pub target_knowledge_at : BacktestEngineSpec → BacktestSignal → ℕ
target_knowledge_at spec signal = signal.knowledge_at + spec.execution.latency_seconds * 1000000

abbrev pub is_executable : ℕ → BacktestCandleEvent → Bool
is_executable target event = is_available event.quality && leb target event.knowledge_at

unfoldable pub execution_event :
    BacktestEngineSpec → List BacktestCandleEvent → BacktestSignal → Option BacktestCandleEvent
execution_event spec replay_events signal =
    find (is_executable (target_knowledge_at spec signal)) replay_events

unfoldable pub fill_price : ExecutionModel → Decimal → BacktestSide → Decimal
unfolding ◌+ᵈ◌ ◌-ᵈ◌ ◌*ᵈ◌ per_ten_thousand
fill_price execution candle_close buy =
    candle_close *ᵈ (integer 1 +ᵈ per_ten_thousand execution.slippage_bps)
fill_price execution candle_close sell =
    candle_close *ᵈ (integer 1 -ᵈ per_ten_thousand execution.slippage_bps)

-- The variables of the loop.
pub record Account : Type 0 where
  pub cash : Decimal
  pub base_position : Decimal
  pub trades : List BacktestTrade
  pub equity_points : List BacktestEquityPoint

abbrev pub cash_after : BacktestSide → Decimal → Decimal → Decimal → Decimal
cash_after buy cash notional fee_paid = cash -ᵈ (notional +ᵈ fee_paid)
cash_after sell cash notional fee_paid = cash +ᵈ (notional -ᵈ fee_paid)

abbrev pub position_after : BacktestSide → Decimal → Decimal → Decimal
position_after buy position quantity = position +ᵈ quantity
position_after sell position quantity = position -ᵈ quantity

unfoldable pub trade_of : BacktestEngineSpec → BacktestSignal → BacktestCandleEvent → BacktestTrade
unfolding fill_price decimal_min
trade_of spec signal event =
    let filled_quantity =
      decimal_min signal.base_quantity (event.volume *ᵈ spec.execution.max_participation_rate) in
    let remaining_quantity = signal.base_quantity -ᵈ filled_quantity in
    let price = fill_price spec.execution event.close signal.side in
    record {
      side = signal.side;
      requested_quantity = signal.base_quantity;
      filled_quantity = filled_quantity;
      remaining_quantity = remaining_quantity;
      fill_price = price;
      fee_paid = price *ᵈ filled_quantity *ᵈ spec.execution.fee_rate;
      status = if is_zero remaining_quantity then filled else partially_filled;
      occurred_at = event.occurred_at;
      knowledge_at = event.knowledge_at;
    }

-- The body of the loop where a candle executes the signal.
unfoldable pub fill : BacktestEngineSpec → BacktestSignal → BacktestCandleEvent → Account → Account
unfolding trade_of
fill spec signal event account =
    let trade = trade_of spec signal event in
    let notional = trade.fill_price *ᵈ trade.filled_quantity in
    let cash = cash_after signal.side account.cash notional trade.fee_paid in
    let base_position = position_after signal.side account.base_position trade.filled_quantity in
    record {
      cash = cash;
      base_position = base_position;
      trades = account.trades ++ trade ∷ [];
      equity_points =
          account.equity_points
          ++ record {
            occurred_at = event.occurred_at;
            knowledge_at = event.knowledge_at;
            cash = cash;
            base_position = base_position;
            equity = cash +ᵈ base_position *ᵈ event.close;
          }
            ∷ [];
    }

abbrev pub fill_at :
    BacktestEngineSpec → BacktestSignal → Option BacktestCandleEvent → Account → Account
fill_at spec signal none account = account
fill_at spec signal (some event) account = fill spec signal event account

unfoldable pub replay :
    BacktestEngineSpec → List BacktestCandleEvent → List BacktestSignal → Account → Account
unfolding execution_event fill
replay spec replay_events [] account = account
replay spec replay_events (signal ∷ signals) account =
    replay spec replay_events signals
      (fill_at spec signal (execution_event spec replay_events signal) account)

abbrev pub last_close : Decimal → List BacktestCandleEvent → Decimal
last_close close [] = close
last_close close (event ∷ events) = last_close event.close events

unfoldable pub final_equity :
    BacktestEngineSpec → List BacktestCandleEvent → Decimal → Decimal → Decimal
unfolding ◌+ᵈ◌ ◌*ᵈ◌
final_equity spec [] cash base_position = spec.initial_cash
final_equity spec (event ∷ events) cash base_position =
    cash +ᵈ base_position *ᵈ last_close event.close events

abbrev pub assumptions : List String
assumptions =
    "orderbook_absent_uses_candle_close" ∷ "partial_fill_by_candle_volume_participation" ∷ []

abbrev pub opened : BacktestEngineSpec → Account
opened spec = record {
  cash = spec.initial_cash;
  base_position = integer 0;
  trades = [];
  equity_points = [];
}

-- `hash_input` and `hash_result` are the hashes of the canonical payloads: of the specification, the
-- candles and the signals; and of a result whose `result_hash` is still to come.
module _ (hash_input : BacktestEngineSpec → List BacktestCandleEvent → List BacktestSignal → String)
    (hash_result : BacktestResult → String) where
  abbrev sealed : BacktestResult → BacktestResult
  sealed result = record result { result_hash = hash_result result }

  -- With the candles in their order.
  unfoldable pub run_events :
      BacktestEngineSpec → List BacktestCandleEvent → List BacktestSignal → BacktestResult
  unfolding replay final_equity sort_with
  run_events spec replay_events signals =
      if any is_look_ahead_signal signals
      then sealed record {
        status = failed;
        input_hash = hash_input spec replay_events signals;
        result_hash = "";
        assumptions = assumptions;
        replay_events = replay_events;
        trades = [];
        equity_points = [];
        final_equity = spec.initial_cash;
        golden_replay_signals = signals;
        errors = "look_ahead_signal" ∷ [];
      }
      else let account = replay spec replay_events (sort_with signal_lt signals) (opened spec) in
        sealed record {
          status = succeeded;
          input_hash = hash_input spec replay_events signals;
          result_hash = "";
          assumptions = assumptions;
          replay_events = replay_events;
          trades = account.trades;
          equity_points = account.equity_points;
          final_equity = final_equity spec replay_events account.cash account.base_position;
          golden_replay_signals = signals;
          errors = [];
        }

  unfoldable pub run_candle_backtest :
      BacktestEngineSpec → List BacktestCandleEvent → List BacktestSignal → BacktestResult
  unfolding run_events
  run_candle_backtest spec candles signals = run_events spec (sort_with event_lt candles) signals
