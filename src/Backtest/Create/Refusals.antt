-- ===== src/Backtest/Create/Refusals.antt =====
-- create_run of packages/shared/goodmoneying_shared/backtest_store.py: why a call is refused.
use Prim.Native.String.{String}
use text.Mathlib.Text.{◌==◌ as str_eq}
use mathlib.Core.Path.{subst}
use goodmoneying.Prelude.{
  ℕ, suc, ◌+◌, ◌≡◌, refl, ◌⊎◌, inl, inr, Bool, true, false, none, some, List, [], ◌∷◌, any, find,
  All, find-eq-none, Option-cases, Bool-cases, arith,
}
use goodmoneying.Prelude.Results.{Result, err, ◌>>◌, raise_if, err-injective}
use goodmoneying.Backtest.Engine.{
  BacktestEngineSpec, BacktestCandleEvent, BacktestSignal, BacktestResult,
}
use goodmoneying.Backtest.Lease.{Run}
use goodmoneying.Backtest.Command.{
  CreateError, invalid, idempotency_conflict, input_not_ready, unique_violation, out_of_range,
  serialization_failure, assertion_failed, retries_exhausted, Parameters, Command,
}
use goodmoneying.Backtest.Create.{insert_run, request_of, queued_run, replayed, created, create_in}
use goodmoneying.Backtest.Requests.{
  RunInputs, Material, material_of, RunRequest, Ledger, keyed_by, is_run, has_input, same_inputs,
  fits,
}

any-none :
    (p : RunRequest → Bool) (qs : List RunRequest) → All (λ q. p q ≡ false) qs → any p qs ≡ false
any-none p [] h = refl
any-none p (q ∷ qs) h = ground (arith, any-none p qs h.1)

-- What follows a test that does not raise.
passed :
    {A : Type 0} (b : Bool) (raised : CreateError) (next : Result CreateError A)
    {result : Result CreateError A}
    → b ≡ false
    → (raise_if b raised >> next) ≡ result
    → next ≡ result
passed true raised next off h = cc
passed false raised next off h = h

module _ (hash_command : Command → String) (hash_parameters : Parameters → String)
    (hash_input : BacktestEngineSpec → List BacktestCandleEvent → List BacktestSignal → String)
    (hash_result : BacktestResult → String) {Body : Type 0} (catalog : RunInputs) (gap : ℕ)
    (c : Command) (ledger : Ledger Body) where
  abbrev new_request : Material → RunRequest
  new_request m =
      request_of hash_command hash_parameters hash_input hash_result catalog c m
        (suc (ledger.last_id + gap))

  abbrev new_run : Material → Run
  new_run m =
      queued_run hash_command hash_parameters hash_input hash_result catalog c m
        (suc (ledger.last_id + gap))

  abbrev IsNewKey : Type 0
  IsNewKey = find (keyed_by c.idempotency_key) ledger.requests ≡ none

  -- What an error says.
  abbrev pub Explains : CreateError → Type 0
  Explains idempotency_conflict =
      ((q : RunRequest) × (find (keyed_by c.idempotency_key) ledger.requests ≡ some q)
        × (str_eq q.request_hash (hash_command c) ≡ false))
      ⊎ (IsNewKey
          × (m : Material) × (material_of catalog c ≡ some m)
          × (any (has_input (new_run m).input_hash) ledger.store.runs ≡ true))
  Explains input_not_ready = IsNewKey × (material_of catalog c ≡ none)
  Explains out_of_range = IsNewKey × (fits c ≡ false)
  Explains unique_violation =
      IsNewKey
      × (m : Material) × (material_of catalog c ≡ some m)
      × (any (has_input (new_run m).input_hash) ledger.store.runs ≡ false)
      × (any (same_inputs (new_request m)) ledger.requests ≡ true)
  Explains assertion_failed =
      (q : RunRequest) × (find (keyed_by c.idempotency_key) ledger.requests ≡ some q)
      × (find (is_run q.run_id) ledger.store.runs ≡ none)
  Explains (invalid _) = ⊥
  Explains serialization_failure = ⊥
  Explains retries_exhausted = ⊥

  insert_run-Explains :
      (m : Material) {e : CreateError}
      → IsNewKey
      → material_of catalog c ≡ some m
      → any (has_input (new_run m).input_hash) ledger.store.runs ≡ false
      → insert_run c (new_request m) (new_run m) ledger ≡ err e
      → Explains e
  unfolding insert_run
  insert_run-Explains m {e} new ready unused h = elim (Bool-cases (fits c)) [
    | inr wide ↦
        let same : out_of_range ≡ e = err-injective (rw (wide, insert_run) at h) in
        subst Explains same (new, wide)
    | inl narrow ↦ elim (Bool-cases (any (same_inputs (new_request m)) ledger.requests)) [
      | inl taken ↦
          let no_key = any-none _ _ (find-eq-none _ ledger.requests new) in
          let same : unique_violation ≡ e =
            err-injective (rw (narrow, no_key, taken, insert_run) at h) in
          subst Explains same (new, m, ready, unused, taken)
      | inr free ↦
          let no_key = any-none _ _ (find-eq-none _ ledger.requests new) in
          absurd (ground (arith, narrow, no_key, free, unused, h))
    ]
  ]

  created-Explains :
      {e : CreateError}
      → IsNewKey
      → created hash_command hash_parameters hash_input hash_result catalog gap c ledger ≡ err e
      → Explains e
  unfolding created
  created-Explains {e} new h = elim (Option-cases (material_of catalog c)) [
    | inl missing ↦
        let same : input_not_ready ≡ e = err-injective (rw (missing, created) at h) in
        subst Explains same (new, missing)
    | inr (m, ready) ↦
        elim (Bool-cases (any (has_input (new_run m).input_hash) ledger.store.runs)) [
          | inl used ↦
              let same : idempotency_conflict ≡ e =
                err-injective (rw (ready, used, created) at h) in
              subst Explains same (inr (new, m, ready, used))
          | inr unused ↦
              insert_run-Explains m new ready unused
                (passed _ idempotency_conflict _ unused (rw (ready, created) at h))
        ]
  ]

  replayed-Explains :
      (q : RunRequest) {e : CreateError}
      → find (keyed_by c.idempotency_key) ledger.requests ≡ some q
      → replayed hash_command hash_parameters hash_input hash_result c q ledger ≡ err e
      → Explains e
  unfolding replayed
  replayed-Explains q {e} known h = elim (Bool-cases (str_eq q.request_hash (hash_command c))) [
    | inr other ↦
        let same : idempotency_conflict ≡ e = err-injective (rw (other, replayed) at h) in
        subst Explains same (inl (q, known, other))
    | inl same_hash ↦ elim (Option-cases (find (is_run q.run_id) ledger.store.runs)) [
      | inl lost ↦
          let same : assertion_failed ≡ e = err-injective (rw (same_hash, lost, replayed) at h) in
          subst Explains same (q, known, lost)
      | inr (run, there) ↦ absurd (ground (arith, same_hash, there, h))
    ]
  ]

  -- A call is refused as a conflict only if its key has a run whose request was another one, or its input has a run;
  -- as not ready only if the strategy is not published or the data set is not sealed; by the database only if a
  -- number does not fit its column, or if a run with another key and another input has its version ids, engine,
  -- parameters and seed.
  pub create_in-Explains :
      {e : CreateError}
      → create_in hash_command hash_parameters hash_input hash_result catalog gap c ledger ≡ err e
      → Explains e
  unfolding create_in
  create_in-Explains {e} h =
      elim (Option-cases (find (keyed_by c.idempotency_key) ledger.requests)) [
        | inl new ↦ created-Explains new (rw (new, create_in) at h)
        | inr (q, known) ↦ replayed-Explains q known (rw (known, create_in) at h)
      ]
