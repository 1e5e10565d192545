-- ===== src/Backtest/Worker/Work.antt =====
-- What a round of run_once of backtest_worker.py makes of the run that it has claimed.
use Prim.Native.String.{String}
use mathlib.Core.List.{Memᴰ}
use mathlib.Core.Path.{subst}
use goodmoneying.Prelude.{
  ℕ, ◌≡◌, ◌≢◌, refl, sym, ap, ◌∙◌, true, false, ◌⊎◌, inl, inr, Bool, none, some, List, [], ◌∷◌,
  ◌++◌, All, find-eq-none,
}
use goodmoneying.Prelude.Results.{Result, ok, err}
use goodmoneying.Backtest.Lease.{
  Run, StoreError, lease_lost, RunResult, run_status, Store, holds, non_blank, complete_claimed_run,
  fail_claimed_run,
}
use goodmoneying.Backtest.Lease.Retry.{IsGivenBack, fail_claimed_run-IsGivenBack}
use goodmoneying.Backtest.Lease.History.{Reach, here, next}
use goodmoneying.Backtest.Worker.{
  Raised, from_store, Ending, returned, raised, Times, error_code, message, report_failure, handle,
  after_failure,
}
use goodmoneying.Backtest.Worker.Failures.{fail_claimed_run-lost, handle-cases, after_failure-cases}

pub Reach-trans :
    {Body : Type 0} (accepts : List (ℕ × Body) → ℕ → Body → Bool) {a b c : Store Body}
    → Reach accepts a b
    → Reach accepts b c
    → Reach accepts a c
Reach-trans accepts first here = first
Reach-trans accepts first (next more step) = next (Reach-trans accepts first more) step

module _ {Body : Type 0} (accepts : List (ℕ × Body) → ℕ → Body → Bool)
    (name_of text_of : StoreError → String) (executor : Run → Result Raised (RunResult Body))
    (worker_id : String) (times : Times) (meanwhile : Store Body → Store Body) where
  module _ (owner : String) (run : Run) where
    -- No row is held by the lease that the round has got.
    abbrev pub IsUnheld : ℕ → Store Body → Type 0
    IsUnheld now store = All (λ r. holds run.id owner run.lease_generation now r ≡ false) store.runs

    -- The run was held, and is saved with the result.
    pub record IsCompleted (result : RunResult Body) (now after : Store Body) : Type 0 where
      pub held :
          (a : Run) × Memᴰ a now.runs
          × (holds run.id owner run.lease_generation times.update a ≡ true)
      pub ended :
          (b : Run) × Memᴰ b after.runs
          × (b.id ≡ run.id)
          × (b.status ≡ run_status result.status)
          × (b.result_hash ≡ some result.result_hash)
          × (b.lease_owner ≡ none)
          × (b.finished_at ≡ some times.completed_at)
      pub saved : after.saved ≡ now.saved ++ (run.id, result.body) ∷ []

    -- Why an exception of a round is raised: by the executor, or by the completion.
    pub data IsCause : Raised → Type 0 where
      by_executor : (exc : Raised) → executor run ≡ err exc → IsCause exc
      by_completion :
          (result : RunResult Body) (now : Store Body) (e : StoreError)
          → executor run ≡ ok result
          → complete_claimed_run accepts run.id worker_id run.lease_generation result
              times.completed_at times.select times.update now
            ≡ err e
          → IsCause (from_store e)

    abbrev failure : Raised → Store Body → Result StoreError (List Run)
    failure exc now =
        fail_claimed_run run.id worker_id run.lease_generation
          (error_code accepts name_of text_of executor worker_id times meanwhile exc)
          (message accepts name_of text_of executor worker_id times meanwhile exc) times.fail
          now.runs

    -- The run waits for its next attempt, or is a dead letter.
    abbrev pub IsReported : Store Body → List Run → Type 0
    IsReported now runs =
        (holder : String) × (a b : Run) × Memᴰ a now.runs
        × (holds run.id holder run.lease_generation times.fail a ≡ true)
        × Memᴰ b runs
        × IsGivenBack times.fail a b

    -- How a round ends that has claimed the run and left the store `start` with it. The other transactions lead from
    -- there to the store `now`.
    pub data Work (start : Store Body) : Ending → Store Body → Type 0 where
      finished :
          (result : RunResult Body) (now after : Store Body)
          → executor run ≡ ok result
          → Reach accepts start now
          → IsCompleted result now after
          → Work start (returned 1) after
      lost :
          (result : RunResult Body) (now : Store Body)
          → executor run ≡ ok result
          → Reach accepts start now
          → IsUnheld times.select now ⊎ IsUnheld times.update now
          → Work start (returned 0) now
      withdrawn : executor run ≡ err (from_store lease_lost) → Work start (returned 0) start
      reported :
          (exc : Raised) (now : Store Body) (runs : List Run)
          → IsCause exc
          → exc ≢ from_store lease_lost
          → Reach accepts start now
          → IsReported now runs
          → Work start (raised exc) (record now { runs = runs })
      unheld :
          (exc : Raised) (now : Store Body)
          → IsCause exc
          → exc ≢ from_store lease_lost
          → Reach accepts start now
          → IsUnheld times.fail now
          → Work start (raised exc) now
      unreported :
          (exc : Raised) (e : StoreError) (now : Store Body)
          → IsCause exc
          → exc ≢ from_store lease_lost
          → Reach accepts start now
          → failure exc now ≡ err e
          → e ≢ lease_lost
          → Work start (raised (from_store e)) now

    abbrev pub Works : Store Body → Ending × Store Body → Type 0
    Works start round = Work start round.0 round.1

    module _ (named : non_blank worker_id ≡ ok owner) (start : Store Body) where
      after_failure-Works :
          (exc : Raised) (now : Store Body) (r : Result StoreError (List Run))
          → IsCause exc
          → exc ≢ from_store lease_lost
          → Reach accepts start now
          → failure exc now ≡ r
          → Works start
              (after_failure accepts name_of text_of executor worker_id times meanwhile exc now r)
      after_failure-Works exc now (ok runs) cause other reached h =
          reported exc now runs cause other reached (
            fail_claimed_run-IsGivenBack run.id worker_id run.lease_generation _ _ times.fail
              now.runs h)
      after_failure-Works exc now (err e) cause other reached h =
          elim (after_failure-cases accepts name_of text_of executor worker_id times meanwhile exc
            now e) [
              | inl is_lost ↦
                  let gone =
                    fail_claimed_run-lost run.id worker_id run.lease_generation _ _ times.fail
                      now.runs named (h ∙ ap err is_lost) in
                  subst
                    (λ e. Works start (
                      after_failure accepts name_of text_of executor worker_id times meanwhile exc
                        now (err e)))
                    (sym is_lost)
                    (unheld exc now cause other reached (find-eq-none _ now.runs gone))
              | inr (not_lost, same) ↦
                  subst (Works start) (sym same)
                    (unreported exc e now cause other reached h not_lost)
            ]

      module _ (others : (store : Store Body) → Reach accepts store (meanwhile store)) where
        report_failure-Works :
            (exc : Raised) (now : Store Body)
            → IsCause exc
            → exc ≢ from_store lease_lost
            → Reach accepts start now
            → Works start (
                report_failure accepts name_of text_of executor worker_id times meanwhile run exc
                  now)
        unfolding report_failure
        report_failure-Works exc now cause other reached =
            after_failure-Works exc (meanwhile now) _ cause other
              (Reach-trans accepts reached (others now)) refl

        pub handle-Works :
            (exc : Raised) (now : Store Body)
            → IsCause exc
            → Reach accepts start now
            → (exc ≡ from_store lease_lost → Work start (returned 0) now)
            → Works start
                (handle accepts name_of text_of executor worker_id times meanwhile run exc now)
        unfolding handle
        handle-Works exc now cause reached passed =
            elim (handle-cases accepts name_of text_of executor worker_id times meanwhile run exc
              now) [
                | inl is_lost ↦
                    subst
                      (λ exc. Works start (
                        handle accepts name_of text_of executor worker_id times meanwhile run exc
                          now))
                      (sym is_lost) (passed is_lost)
                | inr (other, same) ↦
                    subst (Works start) (sym same)
                      (report_failure-Works exc now cause other reached)
              ]
