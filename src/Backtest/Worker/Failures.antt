-- ===== src/Backtest/Worker/Failures.antt =====
-- When the transactions that run_once of backtest_worker.py calls raise the errors that it treats in its own way.
use Prim.Native.String.{String}
use goodmoneying.Prelude.{
  ℕ, ◌≡◌, ◌≢◌, refl, true, ◌⊎◌, inl, inr, Bool, Bool-cases, none, Option-cases, List, find, arith,
}
use goodmoneying.Prelude.Results.{Result, ok, err}
use goodmoneying.Prelude.Text.{is_blank}
use goodmoneying.Backtest.Lease.{
  Run, Readings, StoreError, lease_lost, blank_field, lease_seconds_below_one, id_below_one,
  generation_below_one, input_hash_differs, constraint_violated, integer_out_of_range, RunResult,
  Store, holds, non_blank, claim_next_run, complete_held, complete_claimed_run, fail_held,
  fail_claimed_run,
}
use goodmoneying.Backtest.Worker.{
  Raised, from_executor, from_store, raised, Times, default_lease_seconds, report_failure, handle,
  after_failure,
}

pub claim_next_run-eq-err :
    (worker_id : String) (at : Readings) (locked : Run → Bool) (table : List Run) {e : StoreError}
    → claim_next_run worker_id default_lease_seconds at locked table ≡ err e
    → (is_blank worker_id ≡ true) × (e ≡ blank_field)
unfolding claim_next_run non_blank
claim_next_run-eq-err worker_id at locked table h = elim (Bool-cases (is_blank worker_id)) [
  | inl blank ↦ (blank, ground (arith, h, blank))
  | inr full ↦ absurd (ground (arith, h, full))
]

module _ {Body : Type 0} (accepts : List (ℕ × Body) → ℕ → Body → Bool) where
  complete_held-lost :
      (run : Run) (id : ℕ) (owner : String) (generation : ℕ) (result : RunResult Body)
      (completed_at now : ℕ) (store : Store Body)
      → complete_held accepts run id owner generation result completed_at now store ≡ err lease_lost
      → find (holds id owner generation now) store.runs ≡ none
  unfolding complete_held
  complete_held-lost run id owner generation result completed_at now store h =
      elim (Option-cases (find (holds id owner generation now) store.runs)) [
        | inl nothing ↦ nothing
        | inr (r, found) ↦ absurd (ground (arith, h, found))
      ]

  -- A completion finds the lease lost only if one of its statements finds no row that is held.
  pub complete_claimed_run-lost :
      (id : ℕ) (worker_id : String) (generation : ℕ) (result : RunResult Body)
      (completed_at selected updated : ℕ) (store : Store Body) {owner : String}
      → non_blank worker_id ≡ ok owner
      → complete_claimed_run accepts id worker_id generation result completed_at selected updated
          store
        ≡ err lease_lost
      → (find (holds id owner generation selected) store.runs ≡ none)
        ⊎ (find (holds id owner generation updated) store.runs ≡ none)
  unfolding complete_claimed_run
  complete_claimed_run-lost id worker_id generation result completed_at selected updated store
        {owner} named h =
      elim (Option-cases (find (holds id owner generation selected) store.runs)) [
        | inl nothing ↦ inl nothing
        | inr (run, found) ↦
            let held : complete_held accepts run id owner generation result completed_at updated
                  store
                ≡ err lease_lost =
              ground (arith, h, named, found) in
            inr (complete_held-lost run id owner generation result completed_at updated store held)
      ]

-- So does a failure.
pub fail_claimed_run-lost :
    (id : ℕ) (worker_id : String) (generation : ℕ) (error_code message : String) (now : ℕ)
    (runs : List Run) {owner : String}
    → non_blank worker_id ≡ ok owner
    → fail_claimed_run id worker_id generation error_code message now runs ≡ err lease_lost
    → find (holds id owner generation now) runs ≡ none
unfolding fail_claimed_run non_blank fail_held
fail_claimed_run-lost id worker_id generation error_code message now runs {owner} named h =
    elim (Option-cases (find (holds id owner generation now) runs)) [
      | inl nothing ↦ nothing
      | inr (run, found) ↦ absurd (ground (arith, h, named, found))
    ]

module _ {Body : Type 0} (accepts : List (ℕ × Body) → ℕ → Body → Bool)
    (name_of text_of : StoreError → String) (executor : Run → Result Raised (RunResult Body))
    (worker_id : String) (times : Times) (meanwhile : Store Body → Store Body) where
  -- An exception is passed over if it says that the lease is lost, and reported otherwise.
  pub handle-cases :
      (run : Run) (exc : Raised) (store : Store Body)
      → (exc ≡ from_store lease_lost)
        ⊎ ((exc ≢ from_store lease_lost)
            × (handle accepts name_of text_of executor worker_id times meanwhile run exc store
                ≡ report_failure accepts name_of text_of executor worker_id times meanwhile run exc
                    store))
  unfolding handle
  handle-cases run (from_executor name text_) store = inr ((λ e. cc), refl)
  handle-cases run (from_store blank_field) store = inr ((λ e. cc), refl)
  handle-cases run (from_store lease_seconds_below_one) store = inr ((λ e. cc), refl)
  handle-cases run (from_store id_below_one) store = inr ((λ e. cc), refl)
  handle-cases run (from_store generation_below_one) store = inr ((λ e. cc), refl)
  handle-cases run (from_store lease_lost) store = inl refl
  handle-cases run (from_store input_hash_differs) store = inr ((λ e. cc), refl)
  handle-cases run (from_store constraint_violated) store = inr ((λ e. cc), refl)
  handle-cases run (from_store integer_out_of_range) store = inr ((λ e. cc), refl)

  pub after_failure-cases :
      (exc : Raised) (store : Store Body) (e : StoreError)
      → (e ≡ lease_lost)
        ⊎ ((e ≢ lease_lost)
            × (after_failure accepts name_of text_of executor worker_id times meanwhile exc store
                  (err e)
                ≡ (raised (from_store e), store)))
  after_failure-cases exc store blank_field = inr ((λ e. cc), refl)
  after_failure-cases exc store lease_seconds_below_one = inr ((λ e. cc), refl)
  after_failure-cases exc store id_below_one = inr ((λ e. cc), refl)
  after_failure-cases exc store generation_below_one = inr ((λ e. cc), refl)
  after_failure-cases exc store lease_lost = inl refl
  after_failure-cases exc store input_hash_differs = inr ((λ e. cc), refl)
  after_failure-cases exc store constraint_violated = inr ((λ e. cc), refl)
  after_failure-cases exc store integer_out_of_range = inr ((λ e. cc), refl)
