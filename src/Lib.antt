-- ===== src/Lib.antt =====
-- goodmoneying is a personal trading platform for Upbit: workers collect market data into
-- PostgreSQL and mark which time ranges are covered, backtests replay candles against
-- strategies, and a gate stands before every live order. This library models the parts of the
-- Python code that decide, and proves what makes them right.
--
-- - Prelude: names of the libraries, Boolean tests, lists, integers, Python exceptions as
--   Result, text, JSON values, decimals and their order, decimals as texts, the order of texts,
--   and Query for `SELECT ... ORDER BY ... LIMIT 1`.
-- - LiveOrder: live_capability.py and upbit_safe_order_adapter.py of
--   packages/shared/goodmoneying_shared. Capability has the record, its query and the
--   fail-closed evaluation, Outbox the decision, Gate the theorems. Rehearsal has the checks of
--   upbit_order_submit_rehearsal.py, beside them, and Contract what they ensure. Binding has
--   upbit_live_order_binding.py and Identity live_order_identity.py; Again and Derived are
--   about them.
-- - Backtest.Lease: claim_next_run, complete_claimed_run and fail_claimed_run of
--   packages/shared/goodmoneying_shared/backtest_store.py. A run is a record with the columns
--   that these use, the table a list of runs, a transaction a function that returns the new
--   table or the error. Rows is about UPDATE and the primary key, Valid about the constraints
--   of the table, Seal about one row, Claim and Commits about one transaction, History about
--   sequences of them, Fencing, Saved and Retry about what follows.
-- - Backtest.Command, Backtest.Requests and Backtest.Create: create_run of
--   packages/shared/goodmoneying_shared/backtest_store.py. Command has the arguments and their
--   checks, Requests the rows, Create the transaction and the loop of three rounds. The columns
--   that the workers change are the runs of Backtest.Lease, the others a list of requests.
--   Create.Outcome is about a call that returns, Create.Refusals about one that raises,
--   Create.Valid and Create.History about the table among the workers' transactions,
--   Create.Again about a call that is made again.
-- - Backtest.Engine: run_candle_backtest of
--   packages/shared/goodmoneying_shared/backtest_engine.py. The loop over the signals is a
--   recursion on an account; Growth compares runs on fewer and more candles, Fills says where
--   trades come from, Points is about the equity points. Prelude.Decimal has the decimals, by
--   value.
-- - Backtest.Worker: run_once of apps/worker/goodmoneying_worker/backtest_worker.py, a round of
--   a worker as a function of the store, with the executor and the transactions of others as
--   arguments. Failures has the errors that it treats in its own way, Work how it ends for a
--   run that is claimed, Rounds how it ends at all.
-- - Coverage: classify_coverage and internal_minute_candle_gaps of data_foundation.py (State,
--   Gaps) and replace_coverage_with_classification of coverage_transition.py (Replace), both of
--   packages/shared/goodmoneying_shared. A call is a function of the table of intervals and the
--   log of quality events. Table compares what the intervals say of an instant before and
--   after, Changes the transitions with that, Log is about the events and Call about the whole
--   call. Recompute has _enqueue_quality_transition_recomputation of coverage_transition.py,
--   Recompute.Queue the tables that it writes, Rows is about the rows by their fingerprints,
--   Jobs, Around, Enqueued and Served about the jobs. That SHA-256 tells the ranges of
--   recomputations apart is a hypothesis; Coverage.Fingerprints has a text that does so, for
--   the tests.
-- - RateLimit: GroupRateLimiter of apps/upbit_gateway/goodmoneying_upbit_gateway/rate_limit.py.
--   A pass of the loop of acquire is a function of the limiter and a reading of the clock;
--   Passes lists how it ends, History has the threads as a step relation, Window is about the
--   sliding window, Blocks about the blocks, Waits about what acquire sleeps.
-- - Rollup: the buckets of aggregation.py and the ranges of incremental_aggregation.py in
--   packages/shared/goodmoneying_shared. Calendar has the Gregorian calendar, and its child
--   Months how months follow one another; Buckets is about the bucket of an instant, Ranges
--   about the two loops of affected_rollup_ranges_for_interval; Scattered has
--   affected_rollup_ranges, and Covered is about it; Candles, Aggregate and Derive have
--   aggregate_candles, Partition is about its buckets, Ohlc about its prices. The fuel of the
--   outer loop is the number of microseconds from the first to the last bucket, and each round
--   passes at least one.
-- - Strategy: packages/shared/goodmoneying_shared/strategy_graph.py. Nodes, Edges and Validate
--   have the loops of validate_strategy_graph, Cycle the test for cycles, Hash the canonical
--   form. Cycle.Rounds and Cycle.Kahn are about the algorithm of Kahn, whose fuel is one more
--   than the number of nodes, Keys and Edges.Built about what it gets, Sound and Valid about
--   valid graphs, Errors about the list of errors; Response has the answer of the interface.
-- - Reconcile: upbit_myorder.py, upbit_rest_reconciliation.py and upbit_live_reconciliation.py
--   of packages/shared/goodmoneying_shared. MyOrder has the events of the stream, Snapshot the
--   reading of a REST snapshot, its child Readers that of single fields, Fees how the paid fee
--   is divided, Request the plan and the call of the store, Live upbit_live_reconciliation.py.
--   Read, Fills, Ledger, Refusals and Live.Bound are about them.
-- - Policy: MarketCollectionPolicySettings.validate of
--   packages/shared/goodmoneying_shared/data_foundation.py.
--
-- A datetime is the number of microseconds of its UTC instant (from the year 1 in Rollup and
-- Coverage.Recompute). The clock readings of a transaction's statements and the rows that other
-- transactions lock are arguments, so the theorems hold for every interleaving of the committed
-- transactions. Texts are native strings.
--
-- Not modelled are the HTTP and WebSocket transports, the SQL of the repositories beyond the
-- statements named here, the web client, and the hashes, which are parameters, as is the market
-- of a collection target. Nor are the portfolio bots, the data sets, the realtime streams and
-- the statistics, which are mostly SQL and documents, nor, of the parts above,
-- persist_completed_run, the cursors of lists, build_performance_artifacts, the content hash of
-- a derived candle and the headers of the rate limits, whose reading rests on the digits of
-- Unicode and on floats. Child tables of a backtest run are a list of saved results, and their
-- constraints a parameter.
pub mod Prelude
pub mod LiveOrder
pub mod Backtest
pub mod Coverage
pub mod RateLimit
pub mod Rollup
pub mod Policy
pub mod Strategy
pub mod Reconcile
