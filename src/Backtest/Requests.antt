-- ===== src/Backtest/Requests.antt =====
-- packages/shared/goodmoneying_shared/backtest_store.py: the rows that create_run reads and writes, and the summary
-- of a run that it returns. The columns of `backtest_runs` that the workers change are the runs of Lease, the others
-- the requests here, one for each run; the workers' statements do not touch them.
use Prim.Native.String.{String}
use text.Mathlib.Text.{◌==◌ as str_eq}
use goodmoneying.Prelude.{
  is_some, ℕ, ◌^◌, Bool, ◌&&◌, Option, none, some, List, any, find, ltb, ◌==◌,
}
use goodmoneying.Prelude.Int.{ℤ, pos, negsuc, eq_ℤ}
use goodmoneying.Backtest.Engine.{BacktestEngineSpec, BacktestCandleEvent}
use goodmoneying.Backtest.Lease.{RunStatus, Run, Store}
use goodmoneying.Backtest.Command.{Command}

-- The rows of `strategy_versions`, with the hashes of their rows in `strategy_graphs`.
pub record StrategyVersion : Type 0 where
  pub id : ℕ
  pub graph_hash : String
  pub published : Bool
  pub graph_hashes : List String

pub record DatasetVersion : Type 0 where
  pub id : ℕ
  pub content_hash : String
  pub as_of : ℕ
  pub output_start_at : ℕ
  pub end_at : ℕ
  pub fill_policy : String
  pub missing_policy : String
  pub sealed_at : Option ℕ

pub record RunInputs : Type 0 where
  pub strategy_versions : List StrategyVersion
  pub dataset_versions : List DatasetVersion
  pub candle_events : ℕ → List BacktestCandleEvent

pub record Material : Type 0 where
  pub strategy : StrategyVersion
  pub version : DatasetVersion

abbrev pub is_published : ℕ → StrategyVersion → Bool
is_published id s = (s.id == id) && s.published && any (str_eq s.graph_hash) s.graph_hashes

abbrev pub is_sealed : ℕ → DatasetVersion → Bool
is_sealed id v = (v.id == id) && is_some v.sealed_at

abbrev pub joined : Option StrategyVersion → Option DatasetVersion → Option Material
joined (some strategy) (some version) = some (record { strategy = strategy; version = version })
joined _ _ = none

unfoldable pub material_of : RunInputs → Command → Option Material
material_of catalog c =
    joined (find (is_published c.strategy_version_id) catalog.strategy_versions)
      (find (is_sealed c.dataset_version_id) catalog.dataset_versions)

-- The document in the column `input_payload`; its list of signals is empty.
pub record InputPayload : Type 0 where
  pub spec : BacktestEngineSpec
  pub events : List BacktestCandleEvent
  pub assumptions : List String
  pub dataset : DatasetVersion

-- The columns of a run that no statement changes.
pub record RunRequest : Type 0 where
  pub run_id : ℕ
  pub strategy_version_id : ℕ
  pub strategy_graph_hash : String
  pub dataset_version_id : ℕ
  pub dataset_content_hash : String
  pub engine_version : String
  pub input_payload : InputPayload
  pub parameter_hash : String
  pub seed : ℤ
  pub idempotency_key : String
  pub request_id : String
  pub actor_id : String
  pub reason : String
  pub request_hash : String

-- `last_id` is the last value of the sequence of ids.
pub record Ledger (Body : Type 0) : Type 0 where
  pub store : Store Body
  pub requests : List RunRequest
  pub last_id : ℕ

pub data SummaryStatus : Type 0 where
  pending running succeeded failed cancelled : SummaryStatus

unfoldable pub summary_status : RunStatus → SummaryStatus
summary_status RunStatus.queued = pending
summary_status RunStatus.retry_wait = pending
summary_status RunStatus.running = running
summary_status RunStatus.succeeded = succeeded
summary_status RunStatus.failed = failed
summary_status RunStatus.cancelled = cancelled
summary_status RunStatus.dead_letter = failed

pub record RunSummary : Type 0 where
  pub backtest_run_id : ℕ
  pub strategy_version_id : ℕ
  pub dataset_version_id : ℕ
  pub engine_version : String
  pub status : SummaryStatus
  pub input_hash : String
  pub result_hash : Option String
  pub requested_at : ℕ
  pub started_at : Option ℕ
  pub finished_at : Option ℕ

unfoldable pub run_summary_response : RunRequest → Run → RunSummary
unfolding summary_status
run_summary_response q r = record {
  backtest_run_id = r.id;
  strategy_version_id = q.strategy_version_id;
  dataset_version_id = q.dataset_version_id;
  engine_version = q.engine_version;
  status = summary_status r.status;
  input_hash = r.input_hash;
  result_hash = r.result_hash;
  requested_at = r.requested_at;
  started_at = r.started_at;
  finished_at = r.finished_at;
}

abbrev pub keyed_by : String → RunRequest → Bool
keyed_by key q = str_eq q.idempotency_key key

abbrev pub is_run : ℕ → Run → Bool
is_run id r = r.id == id

abbrev pub has_input : String → Run → Bool
has_input input_hash r = str_eq r.input_hash input_hash

-- UNIQUE (strategy_version_id, dataset_version_id, engine_version, parameter_hash, seed)
abbrev pub same_inputs : RunRequest → RunRequest → Bool
same_inputs new q =
    (q.strategy_version_id == new.strategy_version_id)
    && (q.dataset_version_id == new.dataset_version_id)
    && str_eq q.engine_version new.engine_version
    && str_eq q.parameter_hash new.parameter_hash
    && eq_ℤ q.seed new.seed

-- BIGINT and INTEGER
abbrev pub in_bigint : ℤ → Bool
in_bigint (pos n) = ltb n (2 ^ 63)
in_bigint (negsuc n) = ltb n (2 ^ 63)

abbrev pub fits : Command → Bool
fits c = in_bigint c.seed && ltb c.max_attempts (2 ^ 31)
