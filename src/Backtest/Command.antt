-- ===== src/Backtest/Command.antt =====
-- packages/shared/goodmoneying_shared/backtest_store.py: the arguments of create_run, and how they are checked.
-- A decimal is a finite one.
use Prim.Native.String.{String}
use text.Mathlib.Text.{◌==◌ as str_eq}
use goodmoneying.Prelude.{ℕ, suc, Bool, true, false, not, List, [], ◌∷◌, if◌then◌else◌}
use goodmoneying.Prelude.Int.{ℤ, pos}
use goodmoneying.Prelude.Decimal.{Decimal}
use goodmoneying.Prelude.Results.{Result, ok, err, ◌>>=◌, ◌>>◌, raise_if}
use goodmoneying.Prelude.Text.{is_blank, strip}
use goodmoneying.Backtest.Engine.{ExecutionModel}

-- What a caller may pass as `object`; the keys of a mapping are distinct.
mutual
  pub data Argument : Type 0 where
    nothing other : Argument
    string : String → Argument
    whole : ℤ → Argument
    truth : Bool → Argument
    number : Decimal → Argument
    time : ℕ → Argument
    mapping : Entries → Argument

  pub data Entries : Type 0 where
    no_entries : Entries
    entry : Argument → Argument → Entries → Entries

-- `ValueError` with the name of a field; the two errors of the module; what the database refuses: a UNIQUE
-- constraint, a number that does not fit its column, a transaction that is not serializable; the failed `assert`
-- and the error behind the loop.
pub data CreateError : Type 0 where
  invalid : String → CreateError
  idempotency_conflict input_not_ready : CreateError
  unique_violation out_of_range serialization_failure : CreateError
  assertion_failed retries_exhausted : CreateError

pub record CreateArguments : Type 0 where
  pub request_id : Argument
  pub idempotency_key : Argument
  pub actor_id : Argument
  pub requested_at : Argument
  pub reason : Argument
  pub strategy_version_id : Argument
  pub dataset_version_id : Argument
  pub engine_version : Argument
  pub parameters : Argument
  pub seed : Argument
  pub initial_cash : Argument
  pub execution : Argument
  pub max_attempts : Argument

abbrev pub Parameters : Type 0
Parameters = List (String × Argument)

-- `command_payload`
pub record Command : Type 0 where
  pub request_id : String
  pub idempotency_key : String
  pub actor_id : String
  pub requested_at : ℕ
  pub reason : String
  pub strategy_version_id : ℕ
  pub dataset_version_id : ℕ
  pub engine_version : String
  pub parameters : Parameters
  pub seed : ℤ
  pub initial_cash : Decimal
  pub execution : ExecutionModel
  pub max_attempts : ℕ

abbrev stripped_text : String → String → Result CreateError String
stripped_text name value = if is_blank value then err (invalid name) else ok (strip value)

unfoldable pub text_argument : String → Argument → Result CreateError String
unfolding strip
text_argument name (string value) = stripped_text name value
text_argument name _ = err (invalid name)

unfoldable pub time_of : String → Argument → Result CreateError ℕ
time_of name (time at) = ok at
time_of name _ = err (invalid name)

-- `type(value) is not int` refuses a `bool`.
unfoldable pub positive_int : String → Argument → Result CreateError ℕ
positive_int name (whole (pos (suc n))) = ok (suc n)
positive_int name _ = err (invalid name)

unfoldable pub seed_of : Argument → Result CreateError ℤ
seed_of (whole i) = ok i
seed_of _ = err (invalid "seed")

unfoldable pub decimal_of : String → Argument → Result CreateError Decimal
decimal_of name (number d) = ok d
decimal_of name _ = err (invalid name)

abbrev is_scalar : Argument → Bool
is_scalar nothing = true
is_scalar (string _) = true
is_scalar (whole _) = true
is_scalar (truth _) = true
is_scalar _ = false

-- `result[key.strip()] = parameter_value`
unfoldable pub put_parameter : String → Argument → Parameters → Parameters
put_parameter key value [] = (key, value) ∷ []
put_parameter key value ((k, v) ∷ result) =
    let rest = put_parameter key value result in
    if str_eq k key then (k, value) ∷ result else (k, v) ∷ rest

unfoldable pub parameters_from : Entries → Parameters → Result CreateError Parameters
unfolding text_argument put_parameter
parameters_from no_entries result = ok result
parameters_from (entry key value entries) result = do
  name ← text_argument "parameters key" key
  raise_if (not (is_scalar value)) (invalid "parameters value")
  parameters_from entries (put_parameter name value result)

unfoldable pub parameter_payload : Argument → Result CreateError Parameters
unfolding parameters_from
parameter_payload (mapping entries) = parameters_from entries []
parameter_payload _ = err (invalid "parameters")

abbrev is_named : String → Argument → Bool
is_named name (string key) = str_eq key name
is_named name _ = false

-- `value.get(name)`
unfoldable pub get_entry : String → Entries → Argument
get_entry name no_entries = nothing
get_entry name (entry key value entries) =
    let rest = get_entry name entries in if is_named name key then value else rest

abbrev natural_of : String → Argument → Result CreateError ℕ
natural_of name (whole (pos n)) = ok n
natural_of name _ = err (invalid name)

unfoldable pub execution_from : Entries → Result CreateError ExecutionModel
unfolding get_entry decimal_of
execution_from entries = do
  fee_rate ← decimal_of "execution" (get_entry "feeRate" entries)
  slippage_bps ← decimal_of "execution" (get_entry "slippageBps" entries)
  max_participation_rate ← decimal_of "execution" (get_entry "maxParticipationRate" entries)
  latency_seconds ← natural_of "execution latencySeconds" (get_entry "latencySeconds" entries)
  ok (record {
    fee_rate = fee_rate;
    slippage_bps = slippage_bps;
    latency_seconds = latency_seconds;
    max_participation_rate = max_participation_rate;
  })

unfoldable pub execution_payload : Argument → Result CreateError ExecutionModel
unfolding execution_from
execution_payload (mapping entries) = execution_from entries
execution_payload _ = err (invalid "execution")

unfoldable pub read_command : CreateArguments → Result CreateError Command
unfolding time_of text_argument positive_int parameter_payload seed_of decimal_of execution_payload
read_command a = do
  requested_at ← time_of "requestedAt" a.requested_at
  request_id ← text_argument "requestId" a.request_id
  idempotency_key ← text_argument "idempotencyKey" a.idempotency_key
  actor_id ← text_argument "actorId" a.actor_id
  reason ← text_argument "reason" a.reason
  strategy_version_id ← positive_int "strategyVersionId" a.strategy_version_id
  dataset_version_id ← positive_int "datasetVersionId" a.dataset_version_id
  engine_version ← text_argument "engineVersion" a.engine_version
  parameters ← parameter_payload a.parameters
  seed ← seed_of a.seed
  initial_cash ← decimal_of "initialCash" a.initial_cash
  execution ← execution_payload a.execution
  max_attempts ← positive_int "maxAttempts" a.max_attempts
  ok (record {
    request_id = request_id;
    idempotency_key = idempotency_key;
    actor_id = actor_id;
    requested_at = requested_at;
    reason = reason;
    strategy_version_id = strategy_version_id;
    dataset_version_id = dataset_version_id;
    engine_version = engine_version;
    parameters = parameters;
    seed = seed;
    initial_cash = initial_cash;
    execution = execution;
    max_attempts = max_attempts;
  })
