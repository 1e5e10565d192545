-- ===== src/Backtest/Create/History.antt =====
-- create_run of packages/shared/goodmoneying_shared/backtest_store.py among the transactions of the workers and other
-- calls.
use Prim.Native.String.{String}
use mathlib.Core.List.{append-nil, append_assoc}
use mathlib.Core.Path.{subst}
use goodmoneying.Prelude.{
  ℕ, ◌<◌, ◌≡◌, sym, ap, ◌∙◌, inl, inr, Bool, some, List, [], ◌∷◌, ◌++◌, find, arith, Bool-cases,
}
use goodmoneying.Prelude.Results.{ok}
use goodmoneying.Backtest.Engine.{
  BacktestEngineSpec, BacktestCandleEvent, BacktestSignal, BacktestResult,
}
use goodmoneying.Backtest.Lease.{Store}
use goodmoneying.Backtest.Lease.Valid.{IsValid}
use goodmoneying.Backtest.Lease.History.{Step, Step-Evolves}
use goodmoneying.Backtest.Command.{CreateArguments, Parameters, Command, read_command}
use goodmoneying.Backtest.Create.{queued_run, create_in}
use goodmoneying.Backtest.Requests.{RunInputs, Material, RunRequest, Ledger, RunSummary}
use goodmoneying.Backtest.Create.Reading.{read_command-positive, IsNamed, read_command-IsNamed}
use goodmoneying.Backtest.Create.Outcome.{IsCreated, create_in-Outcome}
use goodmoneying.Backtest.Create.Valid.{
  LedgerIsValid, IsDescribed, inserted-LedgerIsValid, worked-LedgerIsValid,
}

pub find-append :
    {A : Type 0} (p : A → Bool) (xs ys : List A) {x : A}
    → find p xs ≡ some x
    → find p (xs ++ ys) ≡ some x
find-append p [] ys h = cc
find-append p (y ∷ xs) ys h = elim (Bool-cases (p y)) [
  | inl passes ↦ rw passes (rw (passes, find) at h)
  | inr fails ↦ rw fails (find-append p xs ys (rw (fails, find) at h))
]

module _ (hash_command : Command → String) (hash_parameters : Parameters → String)
    (hash_input : BacktestEngineSpec → List BacktestCandleEvent → List BacktestSignal → String)
    (hash_result : BacktestResult → String) where
  queued_run-IsValid :
      (catalog : RunInputs) (c : Command) (m : Material) (id : ℕ)
      → 0 < c.max_attempts
      → IsValid (queued_run hash_command hash_parameters hash_input hash_result catalog c m id)
  queued_run-IsValid catalog c m id limit = ground (arith, limit)

module _ (hash_command : Command → String) (hash_parameters : Parameters → String)
    (hash_input : BacktestEngineSpec → List BacktestCandleEvent → List BacktestSignal → String)
    (hash_result : BacktestResult → String) {Body : Type 0}
    (accepts : List (ℕ × Body) → ℕ → Body → Bool) where
  -- A committed transaction of a worker, or of a call of create_run.
  pub data LedgerStep : Ledger Body → Ledger Body → Type 0 where
    worked :
        (ledger : Ledger Body) (after : Store Body)
        → Step accepts ledger.store after
        → LedgerStep ledger (record ledger { store = after })
    made :
        (arguments : CreateArguments) (catalog : RunInputs) (gap : ℕ) (c : Command)
        (ledger : Ledger Body) (summary : RunSummary) (after : Ledger Body)
        → read_command arguments ≡ ok c
        → create_in hash_command hash_parameters hash_input hash_result catalog gap c ledger
          ≡ ok (summary, after)
        → LedgerStep ledger after

  pub data LedgerReach (start : Ledger Body) : Ledger Body → Type 0 where
    begun : LedgerReach start start
    then_ :
        {between after : Ledger Body}
        → LedgerReach start between
        → LedgerStep between after
        → LedgerReach start after

  created-LedgerIsValid :
      (catalog : RunInputs) (gap : ℕ) (c : Command) (ledger : Ledger Body) (summary : RunSummary)
      (after : Ledger Body)
      → 0 < c.max_attempts
      → IsNamed c
      → IsCreated hash_command hash_parameters hash_input hash_result catalog gap c ledger summary
          after
      → LedgerIsValid ledger
      → LedgerIsValid after
  created-LedgerIsValid catalog gap c ledger summary after limit named new v =
      let (mine, id) = new.its_id in
      let valid : IsValid new.run = subst IsValid (sym new.its_run) (
        queued_run-IsValid hash_command hash_parameters hash_input hash_result catalog c
          new.material new.run.id limit) in
      subst LedgerIsValid (sym new.added) (
        inserted-LedgerIsValid ledger new.request new.run v valid mine
          (subst IsDescribed (sym new.its_request)
            (named.engine, named.key, named.request, named.actor, named.reason))
          (omega (arith, id)) new.accepted)

  -- The runs and their requests stay valid, and requests only come behind those that are there.
  pub LedgerStep-keeps :
      {before after : Ledger Body}
      → LedgerStep before after
      → LedgerIsValid before
      → LedgerIsValid after × (new : List RunRequest) × (after.requests ≡ before.requests ++ new)
  LedgerStep-keeps (worked ledger after step) v =
      let (table, follows) = Step-Evolves accepts step v.table in
      (worked-LedgerIsValid ledger after v table follows, [], sym (append-nil ledger.requests))
  LedgerStep-keeps (made arguments catalog gap c ledger summary after read h) v =
      let limit = read_command-positive arguments read in
      let named = read_command-IsNamed arguments read in
      elim (create_in-Outcome hash_command hash_parameters hash_input hash_result catalog gap c
        ledger limit h) [
          | inl old ↦ (
            subst LedgerIsValid (sym old.unchanged) v,
            [],
            ap (λ (l : Ledger Body). l.requests) old.unchanged ∙ sym (append-nil ledger.requests),
          )
          | inr new ↦ (
            created-LedgerIsValid catalog gap c ledger summary after limit named new v,
            new.request ∷ [],
            ap (λ (l : Ledger Body). l.requests) new.added,
          )
        ]

  -- Through any transactions of workers and calls of create_run the table of runs meets its constraints on ids,
  -- states, leases and attempts, no two runs have one key, one input, or all of strategy, dataset, engine, parameters
  -- and seed in common, each has its request, whose engine version, key, id, actor and reason are not blank, and no
  -- request is changed or lost.
  pub LedgerReach-keeps :
      {before after : Ledger Body}
      → LedgerReach before after
      → LedgerIsValid before
      → LedgerIsValid after × (new : List RunRequest) × (after.requests ≡ before.requests ++ new)
  LedgerReach-keeps {before} begun v = (v, [], sym (append-nil before.requests))
  LedgerReach-keeps {before} (then_ reach step) v =
      let (valid, new, e) = LedgerReach-keeps reach v in
      let (valid', new', e') = LedgerStep-keeps step valid in
      (valid', new ++ new', e' ∙ ap (λ qs. qs ++ new') e ∙ append_assoc before.requests new new')
