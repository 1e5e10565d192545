-- ===== src/Backtest/Create/Tests.antt =====
-- create_run on an empty ledger, and again.
use Prim.Native.String.{String}
use mathlib.Core.List.{Memᴰ}
use goodmoneying.Prelude.{
  ℕ, ◌≡◌, refl, ◌⊎◌, Bool, true, false, none, some, List, [], ◌∷◌, ◌++◌, arith, if◌then◌else◌,
}
use goodmoneying.Prelude.Int.{pos}
use goodmoneying.Prelude.Decimal.{integer, is_zero}
use goodmoneying.Prelude.Results.{Result, ok, err}
use goodmoneying.Backtest.Engine.{
  BacktestEngineSpec, BacktestCandleEvent, BacktestSignal, BacktestResult,
}
use goodmoneying.Backtest.Command.{
  Argument, string, whole, number, time, mapping, no_entries, entry, CreateArguments, Parameters,
  Command, CreateError, unique_violation, idempotency_conflict, invalid, read_command,
}
use goodmoneying.Backtest.Create.{create_in, Attempt, create_run}
use goodmoneying.Backtest.Requests.{RunInputs, RunRequest, Ledger, RunSummary, pending}
use goodmoneying.Backtest.Create.Outcome.{IsReplayed, IsCreated, create_run-Outcome}
use goodmoneying.Backtest.Create.Refusals.{Explains, create_in-Explains}
use goodmoneying.Backtest.Create.Valid.{LedgerIsValid}
use goodmoneying.Backtest.Create.History.{begun, then_, made, LedgerReach-keeps}
use goodmoneying.Backtest.Create.Again.{create_run-again, create_run-conflict}

abbrev hash_command : Command → String
hash_command c = c.reason

abbrev hash_parameters : Parameters → String
hash_parameters parameters = "p"

abbrev hash_input : BacktestEngineSpec → List BacktestCandleEvent → List BacktestSignal → String
hash_input spec events signals = if is_zero spec.initial_cash then "no cash" else "cash"

abbrev hash_result : BacktestResult → String
hash_result result = "r"

abbrev execution : Argument
execution = mapping (
    entry (string "feeRate") (number (integer 0)) (
      entry (string "slippageBps") (number (integer 0)) (
        entry (string "latencySeconds") (whole (pos 1))
          (entry (string "maxParticipationRate") (number (integer 1)) no_entries))))

abbrev arguments : String → String → ℕ → CreateArguments
arguments key reason cash = record {
  request_id = string "r1";
  idempotency_key = string key;
  actor_id = string "me";
  requested_at = time 10;
  reason = string reason;
  strategy_version_id = whole (pos 1);
  dataset_version_id = whole (pos 2);
  engine_version = string " v1 ";
  parameters = mapping (entry (string " n ") (whole (pos 3)) no_entries);
  seed = whole (pos 0);
  initial_cash = number (integer cash);
  execution = execution;
  max_attempts = whole (pos 3);
}

abbrev command : String → String → ℕ → Command
command key reason cash = record {
  request_id = "r1";
  idempotency_key = key;
  actor_id = "me";
  requested_at = 10;
  reason = reason;
  strategy_version_id = 1;
  dataset_version_id = 2;
  engine_version = "v1";
  parameters = ("n", whole (pos 3)) ∷ [];
  seed = pos 0;
  initial_cash = integer cash;
  execution = record {
    fee_rate = integer 0;
    slippage_bps = integer 0;
    latency_seconds = 1;
    max_participation_rate = integer 1;
  };
  max_attempts = 3;
}

first_read : read_command (arguments " k " "why" 5) ≡ ok (command "k" "why" 5)
unfolding read_command
first_read = refl

blank_key : read_command (arguments "  " "why" 5) ≡ err (invalid "idempotencyKey")
unfolding read_command
blank_key = refl

abbrev catalog : RunInputs
catalog = record {
  strategy_versions =
      record { id = 1; graph_hash = "g"; published = true; graph_hashes = "g" ∷ [] } ∷ [];
  dataset_versions =
      record {
        id = 2;
        content_hash = "d";
        as_of = 9;
        output_start_at = 1;
        end_at = 8;
        fill_policy = "none";
        missing_policy = "fail";
        sealed_at = some 9;
      }
      ∷ [];
  candle_events = λ id. [];
}

abbrev empty : Ledger String
empty = record { store = record { runs = []; saved = [] }; requests = []; last_id = 6 }

abbrev on : Ledger String → Attempt String
on ledger = record { catalog = catalog; gap = 0; ledger = ledger; refused = false }

abbrev refused_on : Ledger String → Attempt String
refused_on ledger = record { catalog = catalog; gap = 0; ledger = ledger; refused = true }

-- The ledger after a call.
abbrev ledger_of : Result CreateError (RunSummary × Ledger String) → Ledger String → Ledger String
ledger_of (err e) old = old
ledger_of (ok (summary, after)) old = after

abbrev summary : RunSummary
summary = record {
  backtest_run_id = 7;
  strategy_version_id = 1;
  dataset_version_id = 2;
  engine_version = "v1";
  status = pending;
  input_hash = "cash";
  result_hash = none;
  requested_at = 10;
  started_at = none;
  finished_at = none;
}

call : Ledger String → CreateArguments → Result CreateError (RunSummary × Ledger String)
unfolding create_run
call ledger a =
    create_run hash_command hash_parameters hash_input hash_result a (refused_on ledger) (on ledger)
      (on ledger)

abbrev after : Ledger String
unfolding call
after = ledger_of (call empty (arguments " k " "why" 5)) empty

first_call :
    create_run hash_command hash_parameters hash_input hash_result
      (arguments " k " "why" 5)
      (refused_on empty)
      (on empty)
      (on empty)
    ≡ ok (summary, after)
unfolding create_run after
first_call = refl

abbrev Outcomes : Command → Attempt String → RunSummary → Ledger String → Type 0
Outcomes c a s l =
    IsReplayed hash_command hash_parameters hash_input hash_result c a.ledger s l
    ⊎ IsCreated hash_command hash_parameters hash_input hash_result a.catalog a.gap c a.ledger s l

create_run-Outcome_example :
    (c : Command) × (a : Attempt String) × (read_command (arguments " k " "why" 5) ≡ ok c)
    × Memᴰ a (refused_on empty ∷ on empty ∷ on empty ∷ [])
    × (a.refused ≡ false)
    × Outcomes c a summary after
create_run-Outcome_example =
    create_run-Outcome hash_command hash_parameters hash_input hash_result (arguments " k " "why" 5)
      (refused_on empty) (on empty) (on empty) first_call

empty-LedgerIsValid : LedgerIsValid empty
empty-LedgerIsValid = ground arith

abbrev accepts : List (ℕ × String) → ℕ → String → Bool
accepts saved id body = true

again_read : read_command (arguments "k" "why" 5) ≡ ok (command "k" "why" 5)
unfolding read_command
again_read = refl

create_run-again_example :
    (told : RunSummary) × (a : Attempt String) × Memᴰ a
      (refused_on after ∷ on after ∷ on after ∷ [])
    × (create_run hash_command hash_parameters hash_input hash_result
          (arguments "k" "why" 5)
          (refused_on after)
          (on after)
          (on after)
        ≡ ok (told, a.ledger))
    × (told.backtest_run_id ≡ 7)
create_run-again_example =
    create_run-again hash_command hash_parameters hash_input hash_result accepts
      (arguments " k " "why" 5) (arguments "k" "why" 5) (refused_on empty) (on empty) (on empty)
      (refused_on after) (on after) (on after)
      (empty-LedgerIsValid, (empty-LedgerIsValid, (empty-LedgerIsValid, tt))) first_read first_call
      again_read refl (begun, (begun, (begun, tt))) refl refl

other_read : read_command (arguments "k" "why not" 5) ≡ ok (command "k" "why not" 5)
unfolding read_command
other_read = refl

create_run-conflict_example :
    create_run hash_command hash_parameters hash_input hash_result
      (arguments "k" "why not" 5)
      (refused_on after)
      (on after)
      (on after)
    ≡ err idempotency_conflict
create_run-conflict_example =
    create_run-conflict hash_command hash_parameters hash_input hash_result accepts
      (arguments " k " "why" 5) (arguments "k" "why not" 5) (refused_on empty) (on empty) (on empty)
      (refused_on after) (on after) (on after)
      (empty-LedgerIsValid, (empty-LedgerIsValid, (empty-LedgerIsValid, tt))) first_read first_call
      other_read refl (begun, (begun, (begun, tt))) refl refl

first_created :
    create_in hash_command hash_parameters hash_input hash_result catalog 0
      (command "k" "why" 5)
      empty
    ≡ ok (summary, after)
unfolding create_in after
first_created = refl

LedgerReach-keeps_example :
    LedgerIsValid after × (new : List RunRequest) × (after.requests ≡ empty.requests ++ new)
LedgerReach-keeps_example =
    LedgerReach-keeps hash_command hash_parameters hash_input hash_result accepts
      (then_ begun (
        made (arguments " k " "why" 5) catalog 0 (command "k" "why" 5) empty summary after
          first_read first_created))
      empty-LedgerIsValid

-- With another cash the input is another one, but the columns of the UNIQUE constraint are the same.
other_cash :
    create_in hash_command hash_parameters hash_input hash_result catalog 0
      (command "k2" "why" 0)
      after
    ≡ err unique_violation
unfolding create_in after
other_cash = refl

create_in-Explains_example :
    Explains hash_command hash_parameters hash_input hash_result catalog 0
      (command "k2" "why" 0)
      after
      unique_violation
create_in-Explains_example =
    create_in-Explains hash_command hash_parameters hash_input hash_result catalog 0
      (command "k2" "why" 0) after other_cash

-- One input, another key.
other_key :
    create_in hash_command hash_parameters hash_input hash_result catalog 0
      (command "k2" "why" 5)
      after
    ≡ err idempotency_conflict
unfolding create_in after
other_key = refl
