-- ===== src/Backtest/Worker/Rounds.antt =====
-- How a round of run_once of backtest_worker.py ends.
use Prim.Native.String.{String}
use mathlib.Core.List.{Memᴰ}
use mathlib.Core.Path.{subst}
use goodmoneying.Prelude.{
  ℕ, ◌≡◌, refl, sym, ap, ◌∙◌, true, false, ◌⊎◌, inl, inr, Bool, Option, none, some, Option-cases,
  List, All, find, find-some, find-eq-none, arith,
}
use goodmoneying.Prelude.Results.{Result, ok, err, ok-injective}
use goodmoneying.Prelude.Text.{is_blank}
use goodmoneying.Backtest.Lease.{
  Run, StoreError, blank_field, RunResult, Store, holds, finish, swept, non_blank, claim_next_run,
  complete_held, complete_claimed_run,
}
use goodmoneying.Backtest.Lease.Rows.{mem-update}
use goodmoneying.Backtest.Lease.Valid.{TableIsValid}
use goodmoneying.Backtest.Lease.Claim.{Outcome, claim_next_run-Outcome}
use goodmoneying.Backtest.Lease.Commits.{complete_held-eq-ok, complete_claimed_run-eq-ok}
use goodmoneying.Backtest.Lease.History.{Reach, here}
use goodmoneying.Backtest.Worker.{
  Raised, from_store, Ending, returned, raised, Times, default_lease_seconds, after_completion,
  after_execution, after_claim, run_once,
}
use goodmoneying.Backtest.Worker.Work.{
  IsCompleted, Work, finished, lost, withdrawn, by_executor, by_completion, Works, handle-Works,
}
use goodmoneying.Backtest.Worker.Failures.{claim_next_run-eq-err, complete_claimed_run-lost}

module _ {Body : Type 0} (accepts : List (ℕ × Body) → ℕ → Body → Bool)
    (name_of text_of : StoreError → String) (executor : Run → Result Raised (RunResult Body))
    (worker_id : String) (times : Times) (meanwhile : Store Body → Store Body) where
  -- The run is the first one that may be claimed, with a new lease.
  abbrev pub IsClaimed : Store Body → String → Run → List Run → Type 0
  IsClaimed before owner run runs =
      Outcome owner default_lease_seconds times.claim times.locked
        (swept times.claim.sweep before.runs) (some run) runs

  -- How a round that has begun with the store `before` ends.
  pub data Round (before : Store Body) : Ending → Store Body → Type 0 where
    unnamed : is_blank worker_id ≡ true → Round before (raised (from_store blank_field)) before
    idle :
        (owner : String) (runs : List Run)
        → Outcome owner default_lease_seconds times.claim times.locked
            (swept times.claim.sweep before.runs)
            none
            runs
        → Round before (returned 0) (record before { runs = runs })
    worked :
        (owner : String) (run : Run) (runs : List Run) (ending : Ending) (after : Store Body)
        → non_blank worker_id ≡ ok owner
        → IsClaimed before owner run runs
        → Work accepts name_of text_of executor worker_id times meanwhile owner run
            (record before { runs = runs })
            ending
            after
        → Round before ending after

  module _ (owner : String) (run : Run) (named : non_blank worker_id ≡ ok owner)
      (start : Store Body) where
    complete_held-IsCompleted :
        (result : RunResult Body) (run_ : Run) (now after : Store Body)
        → complete_held accepts run_ run.id owner run.lease_generation result times.completed_at
            times.update now
          ≡ ok after
        → IsCompleted accepts name_of text_of executor worker_id times meanwhile owner run result
            now after
    complete_held-IsCompleted result run_ now after h =
        let held = holds run.id owner run.lease_generation times.update in
        let (_, there, e) =
          complete_held-eq-ok accepts run_ run.id owner run.lease_generation result
            times.completed_at times.update now h in
        elim (Option-cases (find held now.runs)) [
          | inl nothing ↦ absurd (there nothing)
          | inr (a, found) ↦
              let (listed, passes) = find-some held now.runs found in
              let written = mem-update held (finish result times.completed_at) now.runs listed in
              let written' : Memᴰ (finish result times.completed_at a) after.runs =
                subst (λ s. Memᴰ (finish result times.completed_at a) s.runs) (sym e)
                  (rw passes at written) in
              record {
                held = (a, listed, passes);
                ended = (_, written', ground arith, refl, refl, refl, refl);
                saved = ap (λ s. s.saved) e;
              }
        ]

    module _ (others : (store : Store Body) → Reach accepts store (meanwhile store)) where
      after_completion-Works :
          (result : RunResult Body) (now : Store Body) (r : Result StoreError (Store Body))
          → executor run ≡ ok result
          → Reach accepts start now
          → complete_claimed_run accepts run.id worker_id run.lease_generation result
              times.completed_at times.select times.update now
            ≡ r
          → Works accepts name_of text_of executor worker_id times meanwhile owner run start (
              after_completion accepts name_of text_of executor worker_id times meanwhile run now r)
      after_completion-Works result now (ok after) made reached h =
          let (owner', run_, named', _, held) =
            complete_claimed_run-eq-ok accepts run.id worker_id run.lease_generation result
              times.completed_at times.select times.update now h in
          let same : owner' ≡ owner = ok-injective (sym named' ∙ named) in
          finished result now after made reached
            (complete_held-IsCompleted result run_ now after (rw same at held))
      after_completion-Works result now (err e) made reached h =
          handle-Works accepts name_of text_of executor worker_id times meanwhile owner run named
            start others (from_store e) now (by_completion result now e made h) reached
            (λ is_lost. lost result now made reached (
              gone (
                complete_claimed_run-lost accepts run.id worker_id run.lease_generation result
                  times.completed_at times.select times.update now named
                  (h ∙ ap err (from_store-injective is_lost)))))
        where
          from_store-injective : {a b : StoreError} → from_store a ≡ from_store b → a ≡ b
          from_store-injective h = cc

          gone :
              (find (holds run.id owner run.lease_generation times.select) now.runs ≡ none)
                ⊎ (find (holds run.id owner run.lease_generation times.update) now.runs ≡ none)
              → All (λ r. holds run.id owner run.lease_generation times.select r ≡ false) now.runs
                ⊎ All (λ r. holds run.id owner run.lease_generation times.update r ≡ false) now.runs
          gone (inl nothing) = inl (find-eq-none _ now.runs nothing)
          gone (inr nothing) = inr (find-eq-none _ now.runs nothing)

      after_execution-Works :
          (r : Result Raised (RunResult Body))
          → executor run ≡ r
          → Works accepts name_of text_of executor worker_id times meanwhile owner run start (
              after_execution accepts name_of text_of executor worker_id times meanwhile run start
                r)
      after_execution-Works (err exc) h =
          handle-Works accepts name_of text_of executor worker_id times meanwhile owner run named
            start others exc start (by_executor exc h) here
            (λ is_lost. withdrawn (h ∙ ap err is_lost))
      after_execution-Works (ok result) h =
          after_completion-Works result (meanwhile start) _ h (others start) refl

  module _ (others : (store : Store Body) → Reach accepts store (meanwhile store)) where
    after_claim-Round :
        (store : Store Body) (r : Result StoreError (Option Run × List Run))
        → TableIsValid store.runs
        → claim_next_run worker_id default_lease_seconds times.claim times.locked store.runs ≡ r
        → let (ending, after) =
            after_claim accepts name_of text_of executor worker_id times meanwhile store r in
          Round store ending after
    after_claim-Round store (err e) v h =
        let (blank, same) = claim_next_run-eq-err worker_id times.claim times.locked store.runs h in
        subst (λ e. Round store (raised (from_store e)) store) (sym same) (unnamed blank)
    after_claim-Round store (ok (none, runs)) v h =
        let (owner, _, _, outcome, _) =
          claim_next_run-Outcome worker_id default_lease_seconds times.claim times.locked store.runs
            v h in
        idle owner runs outcome
    after_claim-Round store (ok (some run, runs)) v h =
        let (owner, named, _, outcome, _) =
          claim_next_run-Outcome worker_id default_lease_seconds times.claim times.locked store.runs
            v h in
        worked owner run runs _ _ named outcome (
          after_execution-Works owner run named (record store { runs = runs }) others (executor run)
            refl)

    -- On a valid table, if what happens before each later call is committed transactions of workers, a round ends in
    -- one of these ways. It raises, if the name of the worker is blank; it returns 0, if no run may be claimed; else
    -- the first of these is claimed and executed, and then the round returns 1, if the run was still held and is saved
    -- with its result, and 0, if the lease was found lost. Any other exception is raised again once the run waits for
    -- its next attempt or is a dead letter, or is not held any more; an error in reporting it is raised instead.
    pub run_once-Round :
        (store : Store Body)
        → TableIsValid store.runs
        → let (ending, after) =
            run_once accepts name_of text_of executor worker_id times meanwhile store in
          Round store ending after
    unfolding run_once
    run_once-Round store v = after_claim-Round store _ v refl
