-- ===== src/Backtest/Lease/Retry.antt =====
-- What a reported failure does to its run.
use Prim.Native.String.{String}
use mathlib.Core.List.{Memᴰ}
use goodmoneying.Prelude.{ℕ, ◌≡◌, refl, ◌≤◌, ◌<◌, ◌+◌, true, none, some, List, arith, find-some}
use goodmoneying.Prelude.Results.{ok}
use goodmoneying.Backtest.Lease.{
  Run, retry_wait, dead_letter, holds, give_back, retry_delay, seconds, fail_claimed_run,
}
use goodmoneying.Backtest.Lease.Rows.{mem-update}
use goodmoneying.Backtest.Lease.Commits.{fail_claimed_run-eq-ok}

-- The row `b` that a failure at time `now` makes of the run `a`.
pub record IsGivenBack (now : ℕ) (a b : Run) : Type 0 where
  pub same_id : b.id ≡ a.id
  pub lease_over : (b.lease_owner ≡ none) × (b.lease_expires_at ≡ none)
  pub buried :
      a.max_attempts ≤ a.attempt_count → (b.status ≡ dead_letter) × (b.next_retry_at ≡ none)
  pub waits :
      a.attempt_count < a.max_attempts
      → (b.status ≡ retry_wait)
        × (b.next_retry_at ≡ some (now + retry_delay a.attempt_count))
        × (retry_delay a.attempt_count ≤ seconds 300)

give_back-IsGivenBack :
    (code text : String) (now : ℕ) (a : Run) → IsGivenBack now a (give_back code text now a)
give_back-IsGivenBack code text now a = record {
  same_id = refl;
  lease_over = (refl, refl);
  buried = λ h. (ground arith, ground arith);
  waits = λ h. (ground arith, ground arith, omega arith);
}

-- A failure that is accepted ends the lease of the run that was held. The run waits five minutes
-- at most for its next attempt, or is a dead letter if it had its last one.
pub fail_claimed_run-IsGivenBack :
    (id : ℕ) (worker_id : String) (generation : ℕ) (error_code message : String) (now : ℕ)
    (runs : List Run) {after : List Run}
    → fail_claimed_run id worker_id generation error_code message now runs ≡ ok after
    → (owner : String) × (a b : Run) × Memᴰ a runs
      × (holds id owner generation now a ≡ true)
      × Memᴰ b after
      × IsGivenBack now a b
fail_claimed_run-IsGivenBack id worker_id generation error_code message now runs h =
    let (owner, code, text, _, a, found, e) =
      fail_claimed_run-eq-ok id worker_id generation error_code message now runs h in
    let (there, held) = find-some (holds id owner generation now) runs found in
    let written = mem-update (holds id owner generation now) (give_back code text now) runs there in
    (
      owner,
      a,
      give_back code text now a,
      there,
      held,
      rw e (rw held at written),
      give_back-IsGivenBack code text now a,
    )
