-- ===== src/Backtest/Engine/Fills.antt =====
-- Where the trades of run_candle_backtest in backtest_engine.py come from.
use Prim.Native.String.{String}
use mathlib.Core.List.{Memᴰ}
use mathlib.Core.Path.{subst}
use goodmoneying.Prelude.{
  ◌≤◌, ◌≡◌, refl, sym, inl, inr, Bool, true, false, List, [], ◌∷◌, any, find-some, All, All-imp,
  All-mem, All-append, All-both, Bool-cases, Option-cases, arith,
}
use goodmoneying.Prelude.Decimal.{◌*ᵈ◌, decimal_lt, decimal_min-lower}
use goodmoneying.Prelude.Sort.{sort_with, All-sort_with}
use goodmoneying.Backtest.Engine.{
  BacktestEngineSpec, BacktestCandleEvent, BacktestSignal, BacktestTrade, BacktestResult, Account,
  event_lt, signal_lt, is_available, is_look_ahead_signal, is_executable, target_knowledge_at,
  execution_event, fill, fill_at, trade_of, replay, opened, run_events, run_candle_backtest,
}

-- A trade fills a signal that was known no later than the latency before it, at the price and up to
-- the share of the volume of an available candle.
abbrev pub Fills :
    BacktestEngineSpec → BacktestCandleEvent → BacktestSignal → BacktestTrade → Type 0
Fills spec event signal trade =
    (is_available event.quality ≡ true)
    × (signal.occurred_at ≤ signal.knowledge_at)
    × (target_knowledge_at spec signal ≤ trade.knowledge_at)
    × (trade ≡ trade_of spec signal event)
    × (decimal_lt signal.base_quantity trade.filled_quantity ≡ false)
    × (decimal_lt (event.volume *ᵈ spec.execution.max_participation_rate) trade.filled_quantity
        ≡ false)

-- … of these candles and signals.
abbrev pub IsGrounded :
    BacktestEngineSpec → List BacktestCandleEvent → List BacktestSignal → BacktestTrade → Type 0
IsGrounded spec candles signals trade =
    (event : BacktestCandleEvent) × (signal : BacktestSignal) × Memᴰ event candles
    × Memᴰ signal signals
    × Fills spec event signal trade

All-itself {ℓ} : {A : Type ℓ} → (xs : List A) → All (λ x. Memᴰ x xs) xs
All-itself [] = tt
All-itself (x ∷ xs) = (Memᴰ.head refl, All-imp _ _ xs (λ y m. Memᴰ.tail m) (All-itself xs))

-- A signal of the list that does not look ahead.
abbrev IsSound : List BacktestSignal → BacktestSignal → Type 0
IsSound signals s = Memᴰ s signals × (is_look_ahead_signal s ≡ false)

any-eq-false {ℓ} :
    {A : Type ℓ} → (p : A → Bool) (xs : List A) → any p xs ≡ false → All (λ x. p x ≡ false) xs
any-eq-false p [] h = tt
any-eq-false p (x ∷ xs) h = ground (arith, any-eq-false p xs)

signals-IsSound :
    (signals : List BacktestSignal)
    → any is_look_ahead_signal signals ≡ false
    → All (IsSound signals) signals
signals-IsSound signals h =
    All-both _ _ signals (All-itself signals) (any-eq-false is_look_ahead_signal signals h)

module _ (spec : BacktestEngineSpec) (candles : List BacktestCandleEvent)
    (signals : List BacktestSignal) where
  trade_of-Fills :
      (event : BacktestCandleEvent) (signal : BacktestSignal)
      → is_executable (target_knowledge_at spec signal) event ≡ true
      → is_look_ahead_signal signal ≡ false
      → Fills spec event signal (trade_of spec signal event)
  unfolding trade_of
  trade_of-Fills event signal executable honest =
      let lower =
        decimal_min-lower signal.base_quantity
          (event.volume *ᵈ spec.execution.max_participation_rate) in
      (ground arith, ground arith, ground arith, refl, lower.0, lower.1)

  filled-IsGrounded :
      (events : List BacktestCandleEvent)
      → All (λ e. Memᴰ e candles) events
      → (signal : BacktestSignal) → IsSound signals signal
      → (account : Account) → All (IsGrounded spec candles signals) account.trades
      → All
          (IsGrounded spec candles signals)
          (fill_at spec signal (execution_event spec events signal) account).trades
  unfolding execution_event fill
  filled-IsGrounded events known signal sound account h =
      elim (Option-cases (execution_event spec events signal)) [
        | inl nothing ↦
            subst
              (λ e. All (IsGrounded spec candles signals) (fill_at spec signal e account).trades)
              (sym nothing) h
        | inr (event, found) ↦
            let (at, executable) =
              find-some (is_executable (target_knowledge_at spec signal)) events found in
            subst
              (λ e. All (IsGrounded spec candles signals) (fill_at spec signal e account).trades)
              (sym found)
              (All-append _ account.trades (trade_of spec signal event ∷ []) h (
                (
                  event,
                  signal,
                  All-mem _ events known at,
                  sound.0,
                  trade_of-Fills event signal executable sound.1,
                ),
                tt,
              ))
      ]

  replay-IsGrounded :
      (events : List BacktestCandleEvent)
      → All (λ e. Memᴰ e candles) events
      → (left : List BacktestSignal) → All (IsSound signals) left
      → (account : Account) → All (IsGrounded spec candles signals) account.trades
      → All (IsGrounded spec candles signals) (replay spec events left account).trades
  unfolding replay
  replay-IsGrounded events known [] sound account h = h
  replay-IsGrounded events known (signal ∷ left) sound account h =
      replay-IsGrounded events known left sound.1
        (fill_at spec signal (execution_event spec events signal) account)
        (filled-IsGrounded events known signal sound.0 account h)

-- Every trade of a run fills one of its signals, which did not look ahead, with one of its candles
-- that was available and known no sooner than the latency after the signal; it fills no more than
-- was asked for and no more than the allowed share of the candle's volume.
pub run_candle_backtest-IsGrounded :
    (hash_input : BacktestEngineSpec → List BacktestCandleEvent → List BacktestSignal → String)
    → (hash_result : BacktestResult → String) → (spec : BacktestEngineSpec)
    → (candles : List BacktestCandleEvent) → (signals : List BacktestSignal)
    → All
        (IsGrounded spec candles signals)
        (run_candle_backtest hash_input hash_result spec candles signals).trades
unfolding run_candle_backtest run_events
run_candle_backtest-IsGrounded hash_input hash_result spec candles signals =
    elim (Bool-cases (any is_look_ahead_signal signals)) [
      | inl look_ahead ↦ rw look_ahead tt
      | inr honest ↦ rw honest (
          replay-IsGrounded spec candles signals (sort_with event_lt candles)
            (All-sort_with event_lt (λ e. Memᴰ e candles) candles (All-itself candles))
            (sort_with signal_lt signals)
            (All-sort_with signal_lt (IsSound signals) signals (signals-IsSound signals honest))
            (opened spec) tt)
    ]
