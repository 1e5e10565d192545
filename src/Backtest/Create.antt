-- ===== src/Backtest/Create.antt =====
-- packages/shared/goodmoneying_shared/backtest_store.py: create_run, on the ledger of Requests. The two advisory
-- locks of a call keep its key and its input to itself, so it is one step on the ledger. What the hashes are is an
-- argument, and so are the rows of the other tables.
pub mod Reading
pub mod Outcome
pub mod Refusals
pub mod Valid
pub mod History
pub mod Again
mod Tests
use Prim.Native.String.{String}
use text.Mathlib.Text.{◌==◌ as str_eq}
use goodmoneying.Prelude.{
  is_some, ℕ, zero, suc, ◌+◌, ◌^◌, Bool, true, false, not, ◌&&◌, ◌||◌, Option, none, some, List, [],
  ◌∷◌, ◌++◌, any, find, ltb, leb, ◌==◌, if◌then◌else◌,
}
use goodmoneying.Prelude.Int.{ℤ, pos, negsuc, eq_ℤ}
use goodmoneying.Prelude.Results.{Result, ok, err, ◌>>=◌, ◌>>◌, raise_if, or_raise}
use goodmoneying.Backtest.Engine.{
  BacktestEngineSpec, BacktestCandleEvent, BacktestSignal, BacktestResult, run_candle_backtest,
}
use goodmoneying.Backtest.Lease.{RunStatus, queued, Run, Store}
use goodmoneying.Backtest.Command.{
  CreateError, idempotency_conflict, input_not_ready, unique_violation, out_of_range,
  serialization_failure, assertion_failed, retries_exhausted, CreateArguments, Parameters, Command,
  read_command,
}
use goodmoneying.Backtest.Requests.{
  DatasetVersion, InputPayload, Ledger, Material, RunInputs, RunRequest, RunSummary,
  StrategyVersion, SummaryStatus, fits, has_input, in_bigint, is_published, is_run, is_sealed,
  joined, keyed_by, material_of, pending, run_summary_response, same_inputs, summary_status,
}

module _ {Body : Type 0} where
  abbrev pub violates : RunRequest → Run → Ledger Body → Bool
  violates new run ledger =
      any (keyed_by new.idempotency_key) ledger.requests
      || any (same_inputs new) ledger.requests
      || any (has_input run.input_hash) ledger.store.runs

  abbrev pub inserted : RunRequest → Run → Ledger Body → Ledger Body
  inserted new run ledger = record {
    store = record ledger.store { runs = ledger.store.runs ++ run ∷ [] };
    requests = ledger.requests ++ new ∷ [];
    last_id = run.id;
  }

  -- `INSERT … RETURNING`
  unfoldable pub insert_run :
      Command → RunRequest → Run → Ledger Body → Result CreateError (RunSummary × Ledger Body)
  unfolding run_summary_response
  insert_run c new run ledger = do
    raise_if (not (fits c)) out_of_range
    raise_if (violates new run ledger) unique_violation
    ok (run_summary_response new run, inserted new run ledger)

-- What is hashed: `command_payload`, its parameters, and what the engine hashes.
module _ (hash_command : Command → String) (hash_parameters : Parameters → String)
    (hash_input : BacktestEngineSpec → List BacktestCandleEvent → List BacktestSignal → String)
    (hash_result : BacktestResult → String) where
  abbrev pub spec_of : Command → Material → BacktestEngineSpec
  spec_of c m = record {
    dataset_version_id = m.version.id;
    dataset_content_hash = m.version.content_hash;
    strategy_version_id = m.strategy.id;
    strategy_graph_hash = m.strategy.graph_hash;
    engine_version = c.engine_version;
    parameter_hash = hash_parameters c.parameters;
    seed = c.seed;
    initial_cash = c.initial_cash;
    execution = c.execution;
  }

  abbrev pub preview : RunInputs → Command → Material → BacktestResult
  preview catalog c m =
      run_candle_backtest hash_input hash_result (spec_of c m) (catalog.candle_events m.version.id)
        []

  abbrev pub request_of : RunInputs → Command → Material → ℕ → RunRequest
  request_of catalog c m id = record {
    run_id = id;
    strategy_version_id = m.strategy.id;
    strategy_graph_hash = m.strategy.graph_hash;
    dataset_version_id = m.version.id;
    dataset_content_hash = m.version.content_hash;
    engine_version = c.engine_version;
    input_payload = record {
      spec = spec_of c m;
      events = catalog.candle_events m.version.id;
      assumptions = (preview catalog c m).assumptions;
      dataset = m.version;
    };
    parameter_hash = hash_parameters c.parameters;
    seed = c.seed;
    idempotency_key = c.idempotency_key;
    request_id = c.request_id;
    actor_id = c.actor_id;
    reason = c.reason;
    request_hash = hash_command c;
  }

  -- The columns without a value have their defaults.
  abbrev pub queued_run : RunInputs → Command → Material → ℕ → Run
  queued_run catalog c m id = record {
    id = id;
    status = queued;
    lease_owner = none;
    lease_expires_at = none;
    lease_generation = 0;
    attempt_count = 0;
    max_attempts = c.max_attempts;
    next_retry_at = none;
    last_error_code = none;
    last_error_message = none;
    dead_letter_reason = none;
    requested_at = c.requested_at;
    started_at = none;
    finished_at = none;
    input_hash = (preview catalog c m).input_hash;
    result_hash = none;
    assumptions = (preview catalog c m).assumptions;
  }

  module _ {Body : Type 0} where
    -- The key is known: the summary of its run, if the request is the same.
    unfoldable pub replayed :
        Command → RunRequest → Ledger Body → Result CreateError (RunSummary × Ledger Body)
    unfolding run_summary_response
    replayed c q ledger = do
      raise_if (not (str_eq q.request_hash (hash_command c))) idempotency_conflict
      run ← or_raise (find (is_run q.run_id) ledger.store.runs) assertion_failed
      ok (run_summary_response q run, ledger)

    -- The key is new; `gap` ids of the sequence were spent on calls that failed.
    unfoldable pub created :
        RunInputs → ℕ → Command → Ledger Body → Result CreateError (RunSummary × Ledger Body)
    unfolding material_of insert_run run_candle_backtest
    created catalog gap c ledger = do
      m ← or_raise (material_of catalog c) input_not_ready
      let id = suc (ledger.last_id + gap)
      let run = queued_run catalog c m id
      raise_if (any (has_input run.input_hash) ledger.store.runs) idempotency_conflict
      insert_run c (request_of catalog c m id) run ledger

    unfoldable pub create_in :
        RunInputs → ℕ → Command → Ledger Body → Result CreateError (RunSummary × Ledger Body)
    unfolding replayed created
    create_in catalog gap c ledger = elim (find (keyed_by c.idempotency_key) ledger.requests) [
      | none ↦ created catalog gap c ledger
      | some q ↦ replayed c q ledger
    ]

-- What a round of the loop meets: the tables, the ids of the sequence that are lost, and whether the database refuses
-- a statement of the transaction, or its commit, as not serializable.
pub record Attempt (Body : Type 0) : Type 0 where
  pub catalog : RunInputs
  pub gap : ℕ
  pub ledger : Ledger Body
  pub refused : Bool

module _ (hash_command : Command → String) (hash_parameters : Parameters → String)
    (hash_input : BacktestEngineSpec → List BacktestCandleEvent → List BacktestSignal → String)
    (hash_result : BacktestResult → String) {Body : Type 0} where
  -- `for attempt in range(3)`: after the last round the refusal is raised.
  unfoldable pub attempts :
      Command → List (Attempt Body) → Result CreateError (RunSummary × Ledger Body)
  unfolding create_in
  attempts c [] = err retries_exhausted
  attempts c (a ∷ []) =
      if a.refused
      then err serialization_failure
      else create_in hash_command hash_parameters hash_input hash_result a.catalog a.gap c a.ledger
  attempts c (a ∷ next ∷ more) =
      let rest = attempts c (next ∷ more) in
      if a.refused
      then rest
      else create_in hash_command hash_parameters hash_input hash_result a.catalog a.gap c a.ledger

  unfoldable pub create_run :
      CreateArguments
      → Attempt Body
      → Attempt Body
      → Attempt Body
      → Result CreateError (RunSummary × Ledger Body)
  unfolding read_command attempts
  create_run arguments first second third = do
    c ← read_command arguments
    attempts c (first ∷ second ∷ third ∷ [])
