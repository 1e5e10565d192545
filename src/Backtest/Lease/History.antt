-- ===== src/Backtest/Lease/History.antt =====
-- The workers' transactions in any order, with any readings of the clock and any locks.
use Prim.Native.String.{String}
use goodmoneying.Prelude.{ℕ, ◌≡◌, Bool, Option, List, All-imp, All-always, if◌then◌else◌}
use goodmoneying.Prelude.Results.{ok}
use goodmoneying.Backtest.Lease.{
  Run, Readings, RunResult, Store, update_where, holds, finish, give_back, claim_next_run,
  complete_claimed_run, fail_claimed_run,
}
use goodmoneying.Backtest.Lease.Rows.{Rowwise, Rowwise-refl, Rowwise-trans, Rowwise-update}
use goodmoneying.Backtest.Lease.Valid.{
  non_blank-not_trimmed_away, IsValid, TableIsValid, update-TableIsValid, finish-IsValid,
  give_back-IsValid,
}
use goodmoneying.Backtest.Lease.Seal.{
  Follows, Follows-refl, Follows-trans, finish-Follows, give_back-Follows,
}
use goodmoneying.Backtest.Lease.Commits.{
  complete_held-eq-ok, complete_claimed_run-eq-ok, fail_claimed_run-eq-ok,
}
use goodmoneying.Backtest.Lease.Claim.{claim_next_run-Outcome}

module _ {Body : Type 0} (accepts : List (ℕ × Body) → ℕ → Body → Bool) where
  -- One committed transaction of a worker.
  pub data Step : Store Body → Store Body → Type 0 where
    claimed :
        (worker_id : String) (lease_seconds : ℕ) (at : Readings) (locked : Run → Bool)
        (store : Store Body) (got : Option Run) (after : List Run)
        → claim_next_run worker_id lease_seconds at locked store.runs ≡ ok (got, after)
        → Step store (record store { runs = after })
    completed :
        (id : ℕ) (worker_id : String) (generation : ℕ) (result : RunResult Body)
        (completed_at selected updated : ℕ) (store after : Store Body)
        → complete_claimed_run accepts id worker_id generation result completed_at selected updated
            store
          ≡ ok after
        → Step store after
    failed :
        (id : ℕ) (worker_id : String) (generation : ℕ) (error_code message : String) (now : ℕ)
        (store : Store Body) (after : List Run)
        → fail_claimed_run id worker_id generation error_code message now store.runs ≡ ok after
        → Step store (record store { runs = after })

  pub data Reach (start : Store Body) : Store Body → Type 0 where
    here : Reach start start
    next : {s t : Store Body} → Reach start s → Step s t → Reach start t

update-IsGood :
    (p : Run → Bool) (f : Run → Run) (table : List Run)
    → TableIsValid table
    → ((r : Run) → Follows r (if p r then f r else r))
    → ((r : Run) → IsValid r → IsValid (if p r then f r else r))
    → TableIsValid (update_where p f table) × Rowwise Follows table (update_where p f table)
update-IsGood p f table v follows valid = (
  update-TableIsValid p f table v (All-always _ table (λ r. (follows r).same_id))
      (All-imp IsValid _ table valid v.rows),
  Rowwise-update p f Follows table (All-always _ table follows),
)

module _ {Body : Type 0} (accepts : List (ℕ × Body) → ℕ → Body → Bool) where
  pub Step-Evolves :
      {s t : Store Body}
      → Step accepts s t
      → TableIsValid s.runs
      → TableIsValid t.runs × Rowwise Follows s.runs t.runs
  Step-Evolves (claimed worker_id lease_seconds at locked store got after h) v =
      let (_, _, valid, _, follows) =
        claim_next_run-Outcome worker_id lease_seconds at locked store.runs v h in
      (valid, follows)
  Step-Evolves
        (completed id worker_id generation result completed_at selected updated store after h) v =
      let (owner, run, _, _, held) =
        complete_claimed_run-eq-ok accepts id worker_id generation result completed_at selected
          updated store h in
      let (_, _, e) =
        complete_held-eq-ok accepts run id owner generation result completed_at updated store
          held in
      rw e (
        update-IsGood (holds id owner generation updated) (finish result completed_at) store.runs v
          (finish-Follows id owner generation updated result completed_at)
          (finish-IsValid result id owner generation updated completed_at))
  Step-Evolves (failed id worker_id generation error_code message now store after h) v =
      let (owner, code, text, coded, _, _, e) =
        fail_claimed_run-eq-ok id worker_id generation error_code message now store.runs h in
      rw e (
        update-IsGood (holds id owner generation now) (give_back code text now) store.runs v
          (give_back-Follows id owner generation now code text)
          (give_back-IsValid code text id owner generation now
            (non_blank-not_trimmed_away error_code coded)))

  -- From a valid table, whatever the workers do: every later table meets the constraints on ids,
  -- states, leases and attempts, no row is lost, a terminal row stays as it is, the generation of a
  -- row's lease never falls, and within one generation a running row keeps its owner.
  pub Reach-Follows :
      {s t : Store Body}
      → TableIsValid s.runs
      → Reach accepts s t
      → TableIsValid t.runs × Rowwise Follows s.runs t.runs
  Reach-Follows v here = (v, Rowwise-refl Follows _ Follows-refl)
  Reach-Follows v (next r st) =
      let (valid, before) = Reach-Follows v r in
      let (valid', after) = Step-Evolves st valid in
      (valid', Rowwise-trans Follows Follows-trans _ _ _ before after)
