-- ===== src/Backtest/Engine/Points.antt =====
-- The equity points of run_candle_backtest in backtest_engine.py, one for each trade.
use Prim.Native.String.{String}
use mathlib.Core.List.{map-append}
use goodmoneying.Prelude.{
  ℕ, ◌≡◌, refl, sym, ap, ◌∙◌, inl, inr, Option, none, some, List, [], ◌∷◌, ◌++◌, map, any,
  Bool-cases,
}
use goodmoneying.Prelude.Sort.{sort_with}
use goodmoneying.Backtest.Engine.{
  BacktestEngineSpec, BacktestCandleEvent, BacktestSignal, BacktestTrade, BacktestEquityPoint,
  BacktestResult, Account, event_lt, signal_lt, is_look_ahead_signal, execution_event, fill,
  trade_of, fill_at, replay, opened, run_events, run_candle_backtest,
}

abbrev pub trade_times : List BacktestTrade → List (ℕ × ℕ)
trade_times = map (λ t. (t.occurred_at, t.knowledge_at))

abbrev pub point_times : List BacktestEquityPoint → List (ℕ × ℕ)
point_times = map (λ p. (p.occurred_at, p.knowledge_at))

abbrev IsAligned : Account → Type 0
IsAligned account = point_times account.equity_points ≡ trade_times account.trades

module _ (spec : BacktestEngineSpec) where
  fill_at-IsAligned :
      (signal : BacktestSignal) (event : Option BacktestCandleEvent) (account : Account)
      → IsAligned account
      → IsAligned (fill_at spec signal event account)
  unfolding fill trade_of
  fill_at-IsAligned signal none account h = h
  fill_at-IsAligned signal (some event) account h =
      map-append _ account.equity_points _
      ∙ ap (λ times. times ++ (event.occurred_at, event.knowledge_at) ∷ []) h
      ∙ sym (map-append _ account.trades _)

  replay-IsAligned :
      (events : List BacktestCandleEvent) (signals : List BacktestSignal) (account : Account)
      → IsAligned account
      → IsAligned (replay spec events signals account)
  unfolding replay
  replay-IsAligned events [] account h = h
  replay-IsAligned events (signal ∷ signals) account h =
      replay-IsAligned events signals _
        (fill_at-IsAligned signal (execution_event spec events signal) account h)

-- The equity points of a run have the times of its trades, one for one: two trades on one candle give
-- two points at one time.
pub run_candle_backtest-IsAligned :
    (hash_input : BacktestEngineSpec → List BacktestCandleEvent → List BacktestSignal → String)
    → (hash_result : BacktestResult → String) → (spec : BacktestEngineSpec)
    → (candles : List BacktestCandleEvent) → (signals : List BacktestSignal)
    → (let result = run_candle_backtest hash_input hash_result spec candles signals in
        point_times result.equity_points ≡ trade_times result.trades)
unfolding run_candle_backtest run_events
run_candle_backtest-IsAligned hash_input hash_result spec candles signals =
    elim (Bool-cases (any is_look_ahead_signal signals)) [
      | inl look_ahead ↦ rw look_ahead refl
      | inr honest ↦ rw honest (
          replay-IsAligned spec (sort_with event_lt candles) (sort_with signal_lt signals)
            (opened spec) refl)
    ]
