-- ===== src/Backtest/Engine/Tests.antt =====
-- Decimals, and a replay of three candles.
use Prim.Native.String.{String}
use goodmoneying.Prelude.{ℕ, ◌≡◌, refl, List, [], ◌∷◌, ◌++◌, map, All, arith}
use goodmoneying.Backtest.Engine.{
  BacktestEngineSpec, BacktestCandleEvent, BacktestSignal, BacktestResult, BacktestQuality,
  BacktestSide, buy, sell, available, missing, run_candle_backtest,
}
use goodmoneying.Backtest.Engine.Growth.{StartsWith, run_candle_backtest-later}
use goodmoneying.Backtest.Engine.Fills.{IsGrounded, run_candle_backtest-IsGrounded}
use goodmoneying.Backtest.Engine.Points.{point_times, trade_times, run_candle_backtest-IsAligned}
use goodmoneying.Prelude.Int.{pos, negsuc}
use goodmoneying.Prelude.Decimal.{Decimal, ◌*ᵈ◌, round}

-- 1.5 * -0.25 = -0.375
product :
    record { coefficient = pos 15; scale = 1 } *ᵈ record { coefficient = negsuc 24; scale = 2 }
    ≡ record { coefficient = negsuc 374; scale = 3 }
unfolding ◌*ᵈ◌
product = refl

-- 28 digits are kept, and a tie goes to the even one.
tie :
    round (pos 12345678901234567890123456785) 3
    ≡ record { coefficient = pos 1234567890123456789012345678; scale = 2 }
unfolding round
tie = refl

big :
    round (pos 99999999999999999999999999995) 0
    ≡ record { coefficient = pos 100000000000000000000000000000; scale = 0 }
unfolding round
big = refl

abbrev whole : ℕ → Decimal
whole n = record { coefficient = pos n; scale = 0 }

abbrev spec : BacktestEngineSpec
spec = record {
  dataset_version_id = 1;
  dataset_content_hash = "d";
  strategy_version_id = 1;
  strategy_graph_hash = "g";
  engine_version = "e";
  parameter_hash = "p";
  seed = pos 0;
  initial_cash = whole 1000;
  execution = record {
    fee_rate = record { coefficient = pos 1; scale = 3 };
    slippage_bps = whole 100;
    latency_seconds = 1;
    max_participation_rate = record { coefficient = pos 5; scale = 1 };
  };
}

abbrev candle : BacktestQuality → ℕ → ℕ → BacktestCandleEvent
candle quality knowledge_at close = record {
  instrument_id = 1;
  market_code = "KRW-BTC";
  occurred_at = knowledge_at;
  knowledge_at = knowledge_at;
  stable_sequence = "a";
  open_price = whole close;
  high = whole close;
  low = whole close;
  close = whole close;
  volume = whole 4;
  quality = quality;
  content_hash = "c";
  source_priority = 20;
}

abbrev candles : List BacktestCandleEvent
candles = candle available 4000000 100 ∷ candle missing 2000000 90 ∷ candle available 500000 80 ∷ []

abbrev signal : ℕ → BacktestSide → ℕ → BacktestSignal
signal at side quantity = record {
  occurred_at = at;
  knowledge_at = at;
  side = side;
  base_quantity = whole quantity;
}

abbrev signals : List BacktestSignal
signals = signal 1000000 buy 3 ∷ signal 900000 buy 1 ∷ signal 9000000 sell 1 ∷ []

abbrev later_candles : List BacktestCandleEvent
later_candles = candle available 10000000 120 ∷ []

abbrev hash_input : BacktestEngineSpec → List BacktestCandleEvent → List BacktestSignal → String
hash_input _ _ _ = "in"

abbrev hash_result : BacktestResult → String
hash_result _ = "out"

abbrev result : BacktestResult
result = run_candle_backtest hash_input hash_result spec candles signals

-- Both signals that find a candle find the same one.
same_times : point_times result.equity_points ≡ (4000000, 4000000) ∷ (4000000, 4000000) ∷ []
unfolding run_candle_backtest
same_times = refl

-- Half of the volume of 4 fills 2 of 3.
partial :
    map (λ t. t.filled_quantity) result.trades
    ≡ whole 1 ∷ record { coefficient = pos 20; scale = 1 } ∷ []
unfolding run_candle_backtest
partial = refl

-- 898.899 and 696.697: one at 101 and two at 101, with fees of a thousandth.
cash_left :
    map (λ p. p.cash) result.equity_points
    ≡ record { coefficient = pos 8988990000; scale = 7 }
      ∷ record { coefficient = pos 69669700000; scale = 8 }
      ∷ []
unfolding run_candle_backtest
cash_left = refl

run_candle_backtest-later_example :
    StartsWith
      (run_candle_backtest hash_input hash_result spec (candles ++ later_candles) signals).trades
      result.trades
    × StartsWith
        (run_candle_backtest hash_input hash_result spec
          (candles ++ later_candles)
          signals).equity_points
        result.equity_points
run_candle_backtest-later_example =
    run_candle_backtest-later hash_input hash_result spec candles later_candles signals
      ((omega arith, tt), ((omega arith, tt), ((omega arith, tt), tt)))

run_candle_backtest-IsGrounded_example : All (IsGrounded spec candles signals) result.trades
run_candle_backtest-IsGrounded_example =
    run_candle_backtest-IsGrounded hash_input hash_result spec candles signals

run_candle_backtest-IsAligned_example : point_times result.equity_points ≡ trade_times result.trades
run_candle_backtest-IsAligned_example =
    run_candle_backtest-IsAligned hash_input hash_result spec candles signals
