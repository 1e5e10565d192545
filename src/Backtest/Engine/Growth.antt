-- ===== src/Backtest/Engine/Growth.antt =====
-- A replay only adds to what is there, and candles that become known later only add at its end:
-- run_candle_backtest of backtest_engine.py does not look ahead.
use Prim.Native.String.{String}
use mathlib.Core.List.{append-nil, append_assoc}
use mathlib.Core.Path.{subst}
use goodmoneying.Prelude.{
  ◌≤◌, ◌<◌, ◌≡◌, refl, sym, ap, ◌∙◌, inl, inr, Bool, false, Option, none, some, List, [], ◌∷◌, ◌++◌,
  any, find, find-none, find-eq-none, All, All-imp, Bool-cases, Option-cases, arith,
}
use goodmoneying.Prelude.Sort.{sort_with, insert_with, All-sort_with, IsSorted, sort_with-IsSorted}
use goodmoneying.Backtest.Engine.{
  BacktestEngineSpec, BacktestCandleEvent, BacktestSignal, BacktestResult, Account, event_lt,
  signal_lt, is_look_ahead_signal, is_executable, target_knowledge_at, execution_event, fill,
  fill_at, replay, opened, run_events, run_candle_backtest,
}

module _ {ℓ} {A : Type ℓ} where
  -- A list that starts with another.
  abbrev pub StartsWith : List A → List A → Type ℓ
  StartsWith xs ys = (more : List A) × (xs ≡ ys ++ more)

  StartsWith-refl : (xs : List A) → StartsWith xs xs
  StartsWith-refl xs = ([], sym (append-nil xs))

  StartsWith-trans : (xs ys zs : List A) → StartsWith xs ys → StartsWith ys zs → StartsWith xs zs
  StartsWith-trans xs ys zs (more, e) (most, k) =
      (most ++ more, e ∙ ap (λ l. l ++ more) k ∙ append_assoc zs most more)

  find-append-some :
      (p : A → Bool) (xs ys : List A) {x : A} → find p xs ≡ some x → find p (xs ++ ys) ≡ some x
  find-append-some p [] ys h = cc
  find-append-some p (x ∷ xs) ys h = elim (Bool-cases (p x)) [
    | inl here ↦ rw (find, here) (rw (find, here) at h)
    | inr there ↦ rw (find, there) (find-append-some p xs ys (rw (find, there) at h))
  ]

-- What a later account has beyond an earlier one.
abbrev pub Extends : Account → Account → Type 0
Extends later earlier =
    StartsWith later.trades earlier.trades × StartsWith later.equity_points earlier.equity_points

Extends-refl : (a : Account) → Extends a a
Extends-refl a = (StartsWith-refl a.trades, StartsWith-refl a.equity_points)

Extends-trans : (a b c : Account) → Extends a b → Extends b c → Extends a c
Extends-trans a b c h k = (
  StartsWith-trans a.trades b.trades c.trades h.0 k.0,
  StartsWith-trans a.equity_points b.equity_points c.equity_points h.1 k.1,
)

module _ (spec : BacktestEngineSpec) where
  fill_at-Extends :
      (signal : BacktestSignal) (event : Option BacktestCandleEvent) (account : Account)
      → Extends (fill_at spec signal event account) account
  unfolding fill
  fill_at-Extends signal none account = Extends-refl account
  fill_at-Extends signal (some event) account = ((_, refl), (_, refl))

  replay-Extends :
      (events : List BacktestCandleEvent) (signals : List BacktestSignal) (account : Account)
      → Extends (replay spec events signals account) account
  unfolding replay
  replay-Extends events [] account = Extends-refl account
  replay-Extends events (signal ∷ signals) account =
      let filled = fill_at spec signal (execution_event spec events signal) account in
      Extends-trans (replay spec events signals filled) filled account
        (replay-Extends events signals filled)
        (fill_at-Extends signal (execution_event spec events signal) account)

  -- No candle for a signal, no candle for a signal that is known later.
  none_later :
      (events : List BacktestCandleEvent) (a b : BacktestSignal)
      → a.knowledge_at ≤ b.knowledge_at
      → execution_event spec events a ≡ none
      → execution_event spec events b ≡ none
  unfolding execution_event
  none_later events a b le h = find-none _ events (
      All-imp _ _ events (λ e no_candle. ground arith)
        (find-eq-none (is_executable (target_knowledge_at spec a)) events h))

  idle_replay :
      (events : List BacktestCandleEvent) (signals : List BacktestSignal) (account : Account)
      → All (λ s. execution_event spec events s ≡ none) signals
      → replay spec events signals account ≡ account
  unfolding replay
  idle_replay events [] account h = refl
  idle_replay events (signal ∷ signals) account h =
      ap (λ e. replay spec events signals (fill_at spec signal e account)) h.0
      ∙ idle_replay events signals account h.1

  more_events :
      (events later : List BacktestCandleEvent) (signals : List BacktestSignal) (account : Account)
      → IsSorted (λ s. s.knowledge_at) signals
      → Extends (replay spec (events ++ later) signals account) (replay spec events signals account)
  unfolding replay execution_event
  more_events events later [] account h = Extends-refl account
  more_events events later (signal ∷ signals) account h =
      elim (Option-cases (execution_event spec events signal)) [
        | inl nothing ↦
            subst (Extends (replay spec (events ++ later) (signal ∷ signals) account))
              (sym (
                idle_replay events (signal ∷ signals) account (
                  nothing,
                  All-imp _ _ signals (λ s le. none_later events signal s le nothing) h.0,
                )))
              (replay-Extends (events ++ later) (signal ∷ signals) account)
        | inr (event, found) ↦
            let still_found : execution_event spec (events ++ later) signal ≡ some event =
              find-append-some (is_executable (target_knowledge_at spec signal)) events later
                found in
            subst
              (λ e.
                Extends (replay spec (events ++ later) signals (fill_at spec signal e account)) (
                  replay spec events signals
                    (fill_at spec signal (execution_event spec events signal) account)))
              (sym still_found)
              (subst
                (λ e.
                  Extends
                    (replay spec (events ++ later) signals
                      (fill_at spec signal (some event) account))
                    (replay spec events signals (fill_at spec signal e account)))
                (sym found) (more_events events later signals (fill spec signal event account) h.1))
      ]

-- Candles that come behind others in the order stay behind them.
module _ {ℓ} {A : Type ℓ} (lt : A → A → Bool) where
  insert_with-append :
      (a : A) (xs ys : List A)
      → All (λ y. lt y a ≡ false) ys
      → insert_with lt a (xs ++ ys) ≡ insert_with lt a xs ++ ys
  unfolding insert_with
  insert_with-append a [] [] h = refl
  insert_with-append a [] (y ∷ ys) h = rw (h.0) refl
  insert_with-append a (x ∷ xs) ys h = elim (Bool-cases (lt x a)) [
    | inl before ↦ rw before (ap (λ l. x ∷ l) (insert_with-append a xs ys h))
    | inr behind ↦ rw behind refl
  ]

  sort_with-append :
      (xs ys : List A)
      → All (λ x. All (λ y. lt y x ≡ false) ys) xs
      → sort_with lt (xs ++ ys) ≡ sort_with lt xs ++ sort_with lt ys
  unfolding sort_with
  sort_with-append [] ys h = refl
  sort_with-append (x ∷ xs) ys h =
      ap (insert_with lt x) (sort_with-append xs ys h.1)
      ∙ insert_with-append x (sort_with lt xs) (sort_with lt ys)
          (All-sort_with lt (λ y. lt y x ≡ false) ys h.0)

-- Every candle of `later` becomes known after every one of `candles`.
abbrev pub IsKnownLater : List BacktestCandleEvent → List BacktestCandleEvent → Type 0
IsKnownLater later candles = All (λ x. All (λ y. x.knowledge_at < y.knowledge_at) later) candles

module _ (hash_input : BacktestEngineSpec → List BacktestCandleEvent → List BacktestSignal → String)
    (hash_result : BacktestResult → String) where
  run_events-later :
      (spec : BacktestEngineSpec) (events later : List BacktestCandleEvent)
      (signals : List BacktestSignal)
      → StartsWith
          (run_events hash_input hash_result spec (events ++ later) signals).trades
          (run_events hash_input hash_result spec events signals).trades
        × StartsWith
            (run_events hash_input hash_result spec (events ++ later) signals).equity_points
            (run_events hash_input hash_result spec events signals).equity_points
  unfolding run_events
  run_events-later spec events later signals =
      elim (Bool-cases (any is_look_ahead_signal signals)) [
        | inl look_ahead ↦ rw look_ahead ((([], refl)), ([], refl))
        | inr honest ↦ rw honest (
            more_events spec events later (sort_with signal_lt signals) (opened spec) (
              sort_with-IsSorted signal_lt (λ s. s.knowledge_at) (λ a b h. ground arith)
                (λ a b h. ground arith) signals))
      ]

  -- No look-ahead: with further candles that all become known later, a run has the same trades and
  -- equity points, and perhaps more behind them.
  pub run_candle_backtest-later :
      (spec : BacktestEngineSpec) (candles later : List BacktestCandleEvent)
      (signals : List BacktestSignal)
      → IsKnownLater later candles
      → StartsWith
          (run_candle_backtest hash_input hash_result spec (candles ++ later) signals).trades
          (run_candle_backtest hash_input hash_result spec candles signals).trades
        × StartsWith
            (run_candle_backtest hash_input hash_result spec
              (candles ++ later)
              signals).equity_points
            (run_candle_backtest hash_input hash_result spec candles signals).equity_points
  unfolding run_candle_backtest
  run_candle_backtest-later spec candles later signals h =
      let run = run_events hash_input hash_result spec in
      let ordered = sort_with event_lt candles in
      let behind : All (λ x. All (λ y. event_lt y x ≡ false) later) candles =
        All-imp _ _ candles (λ x all. All-imp _ _ later (λ y less. ground arith) all) h in
      subst
        (λ events.
          StartsWith (run events signals).trades (run ordered signals).trades
          × StartsWith (run events signals).equity_points (run ordered signals).equity_points)
        (sym (sort_with-append event_lt candles later behind))
        (run_events-later spec ordered (sort_with event_lt later) signals)
