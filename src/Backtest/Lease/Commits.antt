-- ===== src/Backtest/Lease/Commits.antt =====
-- What is known of a completion, and of a failure, that commits.
use Prim.Native.String.{String}
use text.Mathlib.TextEquality.{eq_iff}
use goodmoneying.Prelude.{
  ℕ, ◌≡◌, refl, ◌≢◌, Bool, Option, none, some, List, [], ◌∷◌, ◌++◌, arith, find, ltb,
}
use goodmoneying.Prelude.Results.{ok, bind-returned, or_raise, or_raise-returned, raise_if}
use goodmoneying.Backtest.Lease.{
  Run, lease_lost, id_below_one, generation_below_one, RunResult, Store, update_where, holds,
  finish, give_back, complete_held, complete_claimed_run, fail_held, fail_claimed_run, non_blank,
}

-- A completion that commits is the row that it read, and one statement.
pub complete_held-eq-ok :
    {Body : Type 0} (accepts : List (ℕ × Body) → ℕ → Body → Bool) (run : Run) (id : ℕ)
    (owner : String) (generation : ℕ) (result : RunResult Body) (completed_at now : ℕ)
    (store : Store Body) {after : Store Body}
    → complete_held accepts run id owner generation result completed_at now store ≡ ok after
    → (run.input_hash ≡ result.input_hash)
      × (find (holds id owner generation now) store.runs ≢ none)
      × (after ≡ record {
        runs = update_where (holds id owner generation now) (finish result completed_at) store.runs;
        saved = store.saved ++ (id, result.body) ∷ [];
      })
unfolding complete_held
complete_held-eq-ok accepts run id owner generation result completed_at now store h =
    (ground (arith, eq_iff run.input_hash result.input_hash), (λ e. ground arith), ground arith)

pub complete_claimed_run-eq-ok :
    {Body : Type 0} (accepts : List (ℕ × Body) → ℕ → Body → Bool) (id : ℕ) (worker_id : String)
    (generation : ℕ) (result : RunResult Body) (completed_at selected updated : ℕ)
    (store : Store Body) {after : Store Body}
    → complete_claimed_run accepts id worker_id generation result completed_at selected updated
        store
      ≡ ok after
    → (owner : String) × (run : Run) × (non_blank worker_id ≡ ok owner)
      × (find (holds id owner generation selected) store.runs ≡ some run)
      × (complete_held accepts run id owner generation result completed_at updated store ≡ ok after)
unfolding complete_claimed_run
complete_claimed_run-eq-ok accepts id worker_id generation result completed_at selected updated
      store h =
    let (owner, rest, named) = bind-returned (non_blank worker_id) _ h in
    let (_, rest, _) = bind-returned (raise_if (ltb id 1) id_below_one) _ rest in
    let (_, rest, _) = bind-returned (raise_if (ltb generation 1) generation_below_one) _ rest in
    let (run, rest, read) = bind-returned (or_raise _ lease_lost) _ rest in
    (owner, run, named, or_raise-returned _ lease_lost read, rest)

fail_held-eq-ok :
    (id : ℕ) (owner : String) (generation : ℕ) (code text : String) (now : ℕ) (runs : List Run)
    (o : Option Run) {after : List Run}
    → fail_held id owner generation code text now runs o ≡ ok after
    → (run : Run) × (o ≡ some run)
      × (after ≡ update_where (holds id owner generation now) (give_back code text now) runs)
unfolding fail_held
fail_held-eq-ok id owner generation code text now runs none h = cc
fail_held-eq-ok id owner generation code text now runs (some run) h = (run, refl, ground arith)

pub fail_claimed_run-eq-ok :
    (id : ℕ) (worker_id : String) (generation : ℕ) (error_code message : String) (now : ℕ)
    (runs : List Run) {after : List Run}
    → fail_claimed_run id worker_id generation error_code message now runs ≡ ok after
    → (owner code text : String) × (non_blank error_code ≡ ok code)
      × (run : Run) × (find (holds id owner generation now) runs ≡ some run)
      × (after ≡ update_where (holds id owner generation now) (give_back code text now) runs)
unfolding fail_claimed_run
fail_claimed_run-eq-ok id worker_id generation error_code message now runs h =
    let (owner, rest, _) = bind-returned (non_blank worker_id) _ h in
    let (code, rest, coded) = bind-returned (non_blank error_code) _ rest in
    let (text, rest, _) = bind-returned (non_blank message) _ rest in
    let (_, rest, _) = bind-returned (raise_if (ltb id 1) id_below_one) _ rest in
    let (_, rest, _) = bind-returned (raise_if (ltb generation 1) generation_below_one) _ rest in
    let (run, found, written) = fail_held-eq-ok id owner generation code text now runs _ rest in
    (owner, code, text, coded, run, found, written)
