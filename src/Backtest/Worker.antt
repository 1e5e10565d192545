-- ===== src/Backtest/Worker.antt =====
-- apps/worker/goodmoneying_worker/backtest_worker.py: `run_once`. The executor is an argument, and so are the
-- readings of the clock and what other transactions do to the store before each later call.
pub mod Failures
pub mod Work
pub mod Rounds
use Prim.Native.String.{String}
use text.Mathlib.Text.{◌==◌ as str_eq}
use goodmoneying.Prelude.{ℕ, Bool, ◌≡◌, refl, Option, none, some, List, if◌then◌else◌}
use goodmoneying.Prelude.Results.{Result, ok, err}
use goodmoneying.Backtest.Lease.{
  Run, Readings, StoreError, lease_lost, blank_field, lease_seconds_below_one, id_below_one,
  generation_below_one, input_hash_differs, constraint_violated, integer_out_of_range, RunResult,
  Store, claim_next_run, complete_claimed_run, fail_claimed_run,
}

-- An exception of the executor, by the name of its type and its text; or one of the store.
pub data Raised : Type 0 where
  from_executor : String → String → Raised
  from_store : StoreError → Raised

pub data Ending : Type 0 where
  returned : ℕ → Ending
  raised : Raised → Ending

-- The readings of the clock, and the locks, of the calls of one round.
pub record Times : Type 0 where
  pub claim : Readings
  pub locked : Run → Bool
  pub completed_at : ℕ
  pub select : ℕ
  pub update : ℕ
  pub fail : ℕ

abbrev pub default_lease_seconds : ℕ
default_lease_seconds = 120

-- `a or b`
abbrev text_or : String → String → String
text_or a b = if str_eq a "" then b else a

module _ {Body : Type 0} (accepts : List (ℕ × Body) → ℕ → Body → Bool)
    (name_of text_of : StoreError → String) (executor : Run → Result Raised (RunResult Body))
    (worker_id : String) (times : Times) (meanwhile : Store Body → Store Body) where
  abbrev pub error_code : Raised → String
  error_code (from_executor name text_) = name
  error_code (from_store e) = name_of e

  abbrev pub message : Raised → String
  message (from_executor name text_) = text_or text_ name
  message (from_store e) = text_or (text_of e) (name_of e)

  -- `suppress(BacktestLeaseLostError)`, and then `raise`.
  abbrev pub after_failure :
      Raised → Store Body → Result StoreError (List Run) → Ending × Store Body
  after_failure exc store (ok runs) = (raised exc, record store { runs = runs })
  after_failure exc store (err lease_lost) = (raised exc, store)
  after_failure exc store (err e) = (raised (from_store e), store)

  unfoldable pub report_failure : Run → Raised → Store Body → Ending × Store Body
  report_failure run exc store =
      let now = meanwhile store in
      after_failure exc now (
        fail_claimed_run run.id worker_id run.lease_generation (error_code exc) (message exc)
          times.fail now.runs)

  unfoldable pub handle : Run → Raised → Store Body → Ending × Store Body
  handle run (from_store lease_lost) store = (returned 0, store)
  handle run exc store = report_failure run exc store

  abbrev pub after_completion :
      Run → Store Body → Result StoreError (Store Body) → Ending × Store Body
  after_completion run store (ok after) = (returned 1, after)
  after_completion run store (err e) = handle run (from_store e) store

  abbrev pub after_execution :
      Run → Store Body → Result Raised (RunResult Body) → Ending × Store Body
  after_execution run store (err exc) = handle run exc store
  after_execution run store (ok result) =
      let now = meanwhile store in
      after_completion run now (
        complete_claimed_run accepts run.id worker_id run.lease_generation result times.completed_at
          times.select times.update now)

  abbrev pub after_claim :
      Store Body → Result StoreError (Option Run × List Run) → Ending × Store Body
  after_claim store (err e) = (raised (from_store e), store)
  after_claim store (ok (none, runs)) = (returned 0, record store { runs = runs })
  after_claim store (ok (some run, runs)) =
      after_execution run (record store { runs = runs }) (executor run)

  unfoldable pub run_once : Store Body → Ending × Store Body
  run_once store =
      after_claim store
        (claim_next_run worker_id default_lease_seconds times.claim times.locked store.runs)
