-- ===== src/Backtest.antt =====
-- Backtests: the leases of the runs (child Lease) and how they are created (children Command, Requests and
-- Create), for backtest_store.py, and the replay of candles (child Engine, for backtest_engine.py), both of
-- packages/shared/goodmoneying_shared, and a round of a worker (child Worker, for
-- apps/worker/goodmoneying_worker/backtest_worker.py).
pub mod Lease
pub mod Engine
pub mod Worker
pub mod Command
pub mod Create
pub mod Requests
