-- ===== src/Backtest/Lease/Tests.antt =====
-- The leases on a small table.
use Prim.Native.String.{String}
use mathlib.Core.List.{Memᴰ}
use goodmoneying.Prelude.{ℕ, ◌≡◌, refl, Bool, true, false, none, some, List, [], ◌∷◌, arith}
use goodmoneying.Prelude.Query.{select_first}
use goodmoneying.Prelude.Results.{Result, ok, err}
use goodmoneying.Backtest.Lease.{
  Run, RunStatus, queued, running, retry_wait, blank_field, lease_lost, StoreError, Readings,
  ResultStatus, RunResult, Store, swept, claim_next_run, complete_claimed_run, fail_claimed_run,
  non_blank, holds,
}
use goodmoneying.Backtest.Lease.Rows.{Rowwise}
use goodmoneying.Backtest.Lease.Valid.{TableIsValid}
use goodmoneying.Backtest.Lease.Seal.{Follows}
use goodmoneying.Backtest.Lease.Claim.{Outcome, claim_next_run-Outcome}
use goodmoneying.Backtest.Lease.History.{claimed, completed, Reach, here, next, Reach-Follows}
use goodmoneying.Backtest.Lease.Fencing.{IsFenced, claim-IsFenced}
use goodmoneying.Backtest.Lease.Saved.{SavedIsValid, Reach-SavedIsValid}
use goodmoneying.Backtest.Lease.Retry.{IsGivenBack, fail_claimed_run-IsGivenBack}
use goodmoneying.Backtest.Worker.{Ending, returned, Raised, Times, run_once}
use goodmoneying.Backtest.Worker.Rounds.{Round, run_once-Round}

abbrev fresh : ℕ → ℕ → Run
fresh id requested_at = record {
  id = id;
  status = queued;
  lease_owner = none;
  lease_expires_at = none;
  lease_generation = 0;
  attempt_count = 0;
  max_attempts = 2;
  next_retry_at = none;
  last_error_code = none;
  last_error_message = none;
  dead_letter_reason = none;
  requested_at = requested_at;
  started_at = none;
  finished_at = none;
  input_hash = "in";
  result_hash = none;
  assumptions = [];
}

abbrev leased : String → ℕ → Run
leased owner expires = record (fresh 2 10) {
  status = running;
  lease_owner = some owner;
  lease_expires_at = some expires;
  lease_generation = 1;
  attempt_count = 1;
  started_at = some 100;
}

abbrev at : ℕ → Readings
at now = record { sweep = now; select = now; update = now }

abbrev start : List Run
start = fresh 1 20 ∷ fresh 2 10 ∷ []

abbrev unlocked : Run → Bool
unlocked r = false

abbrev claimed_table : List Run
claimed_table = fresh 1 20 ∷ leased "w1" 5000100 ∷ []

claim_first :
    claim_next_run " w1 " 5 (at 100) unlocked start ≡ ok (some (leased "w1" 5000100), claimed_table)
unfolding claim_next_run select_first
claim_first = refl

claim_blank : claim_next_run " " 5 (at 100) unlocked start ≡ err blank_field
unfolding claim_next_run
claim_blank = refl

start-TableIsValid : TableIsValid start
start-TableIsValid = ground arith

claimed_table-TableIsValid : TableIsValid claimed_table
claimed_table-TableIsValid = ground arith

claim_next_run-Outcome_example :
    (owner : String) × (non_blank " w1 " ≡ ok owner)
    × TableIsValid claimed_table
    × Outcome owner 5 (at 100) unlocked (swept 100 start) (some (leased "w1" 5000100)) claimed_table
    × Rowwise Follows start claimed_table
claim_next_run-Outcome_example =
    claim_next_run-Outcome " w1 " 5 (at 100) unlocked start start-TableIsValid claim_first

abbrev accepts : List (ℕ × String) → ℕ → String → Bool
accepts saved id body = true

abbrev first_store : Store String
first_store = record { runs = start; saved = [] }

abbrev claimed_store : Store String
claimed_store = record { runs = claimed_table; saved = [] }

abbrev result : RunResult String
result = record {
  status = ResultStatus.succeeded;
  input_hash = "in";
  result_hash = "out";
  assumptions = "a" ∷ [];
  body = "trades";
}

abbrev done : Run
done = record (leased "w1" 5000100) {
  status = RunStatus.succeeded;
  lease_owner = none;
  lease_expires_at = none;
  result_hash = some "out";
  assumptions = "a" ∷ [];
  finished_at = some 300;
}

abbrev done_store : Store String
done_store = record { runs = fresh 1 20 ∷ done ∷ []; saved = (2, "trades") ∷ [] }

complete_first :
    complete_claimed_run accepts 2 "w1" 1 result 300 200 210 claimed_store ≡ ok done_store
unfolding complete_claimed_run
complete_first = refl

-- The lease has run out between the two statements.
complete_late :
    complete_claimed_run accepts 2 "w1" 1 result 300 200 5000100 claimed_store ≡ err lease_lost
unfolding complete_claimed_run
complete_late = refl

history : Reach accepts first_store done_store
history =
    next
      (next here (
        claimed " w1 " 5 (at 100) unlocked first_store (some (leased "w1" 5000100)) claimed_table
          claim_first))
      (completed 2 "w1" 1 result 300 200 210 claimed_store done_store complete_first)

Reach-Follows_example : TableIsValid done_store.runs × Rowwise Follows start done_store.runs
Reach-Follows_example = Reach-Follows accepts start-TableIsValid history

first-SavedIsValid : SavedIsValid first_store
first-SavedIsValid = record { ended = tt; once = tt }

Reach-SavedIsValid_example : SavedIsValid done_store
Reach-SavedIsValid_example =
    Reach-SavedIsValid accepts start-TableIsValid first-SavedIsValid history

-- The lease of `w1` has run out, and `w2` has taken the run over.
abbrev taken : Run
taken = record (leased "w2" 11000000) { lease_generation = 2; attempt_count = 2 }

abbrev taken_table : List Run
taken_table = fresh 1 20 ∷ taken ∷ []

claim_second :
    claim_next_run "w2" 5 (at 6000000) unlocked claimed_table ≡ ok (some taken, taken_table)
unfolding claim_next_run select_first
claim_second = refl

claim-IsFenced_example : IsFenced accepts 2 1 (record { runs = taken_table; saved = [] })
claim-IsFenced_example =
    claim-IsFenced accepts "w2" 5 (at 6000000) unlocked claimed_store
      (record { runs = taken_table; saved = [] }) taken taken_table 1 claimed_table-TableIsValid
      claim_second here (omega arith)

abbrev waiting : Run
waiting = record (leased "w1" 5000100) {
  status = retry_wait;
  lease_owner = none;
  lease_expires_at = none;
  next_retry_at = some 2000200;
  last_error_code = some "E";
  last_error_message = some "boom";
}

fail_first : fail_claimed_run 2 "w1" 1 "E" "boom" 200 claimed_table ≡ ok (fresh 1 20 ∷ waiting ∷ [])
unfolding fail_claimed_run
fail_first = refl

fail_claimed_run-IsGivenBack_example :
    (owner : String) × (a b : Run) × Memᴰ a claimed_table
    × (holds 2 owner 1 200 a ≡ true)
    × Memᴰ b (fresh 1 20 ∷ waiting ∷ [])
    × IsGivenBack 200 a b
fail_claimed_run-IsGivenBack_example =
    fail_claimed_run-IsGivenBack 2 "w1" 1 "E" "boom" 200 claimed_table fail_first

-- A round of the worker, in which the executor succeeds and nothing else happens.
abbrev times : Times
times = record {
  claim = at 100;
  locked = unlocked;
  completed_at = 300;
  select = 200;
  update = 210;
  fail = 220;
}

abbrev code_of : StoreError → String
code_of e = "error"

abbrev executor : Run → Result Raised (RunResult String)
executor run = ok result

abbrev round : Ending × Store String
round = run_once accepts code_of code_of executor "w1" times (λ s. s) first_store

round_succeeds : round ≡ (returned 1, done_store)
unfolding run_once claim_next_run select_first complete_claimed_run
round_succeeds = refl

run_once-Round_example :
    Round accepts code_of code_of executor "w1" times (λ s. s) first_store round.0 round.1
run_once-Round_example =
    run_once-Round accepts code_of code_of executor "w1" times (λ s. s) (λ s. here) first_store
      start-TableIsValid
