-- ===== src/Backtest/Create/Outcome.antt =====
-- create_run of packages/shared/goodmoneying_shared/backtest_store.py: how a call ends.
use Prim.Native.String.{String}
use text.Mathlib.Text.{◌==◌ as str_eq}
use mathlib.Core.List.{Memᴰ}
use goodmoneying.Prelude.{
  ℕ, suc, ◌+◌, ◌<◌, ◌≡◌, refl, sym, ap, ◌∙◌, ◌⊎◌, inl, inr, Bool, true, false, not, none, some,
  List, [], ◌∷◌, find, Option-cases, Bool-cases, arith,
}
use goodmoneying.Prelude.Results.{
  Result, ok, or_raise, bind-returned, or_raise-returned, raise_if-returned, ok-injective,
}
use goodmoneying.Backtest.Engine.{
  BacktestEngineSpec, BacktestCandleEvent, BacktestSignal, BacktestResult,
}
use goodmoneying.Backtest.Lease.{Run, is_claimable}
use goodmoneying.Backtest.Command.{
  CreateError, idempotency_conflict, input_not_ready, unique_violation, out_of_range,
  assertion_failed, CreateArguments, Parameters, Command, read_command,
}
use goodmoneying.Backtest.Create.Reading.{read_command-positive}
use goodmoneying.Backtest.Create.{
  violates, inserted, insert_run, request_of, queued_run, replayed, created, create_in, Attempt,
  attempts, create_run,
}
use goodmoneying.Backtest.Requests.{
  RunInputs, Material, material_of, RunRequest, Ledger, RunSummary, run_summary_response, keyed_by,
  is_run,
}

-- The two parts of what is returned.
returned-parts :
    {Body : Type 0} (s t : RunSummary) (a b : Ledger Body)
    → Path (Result CreateError (RunSummary × Ledger Body)) (ok (s, a)) (ok (t, b))
    → (t ≡ s) × (b ≡ a)
returned-parts s t a b h = let e = ok-injective h in (sym (ap (λ p. p.0) e), sym (ap (λ p. p.1) e))

not-false : (b : Bool) → not b ≡ false → b ≡ true
not-false b h = ground arith

-- A new run that the database accepted.
insert_run-returned :
    {Body : Type 0} (c : Command) (new : RunRequest) (run : Run) (ledger : Ledger Body)
    {summary : RunSummary} {after : Ledger Body}
    → insert_run c new run ledger ≡ ok (summary, after)
    → (violates new run ledger ≡ false)
      × (summary ≡ run_summary_response new run)
      × (after ≡ inserted new run ledger)
unfolding insert_run
insert_run-returned c new run ledger {summary} {after} h =
    let (_, rest) = raise_if-returned _ out_of_range _ h in
    let (unique, returned) = raise_if-returned (violates new run ledger) unique_violation _ rest in
    let (told, added) = returned-parts _ summary _ after returned in (unique, told, added)

module _ (hash_command : Command → String) (hash_parameters : Parameters → String)
    (hash_input : BacktestEngineSpec → List BacktestCandleEvent → List BacktestSignal → String)
    (hash_result : BacktestResult → String) where
  queued_run-claimable :
      (catalog : RunInputs) (c : Command) (m : Material) (id now : ℕ)
      → 0 < c.max_attempts
      → is_claimable now
          (queued_run hash_command hash_parameters hash_input hash_result catalog c m id)
        ≡ true
  queued_run-claimable catalog c m id now limit = ground (arith, limit)

  module _ {Body : Type 0} where
    -- The key has a run, whose request was the same.
    pub record IsReplayed (c : Command) (ledger : Ledger Body) (summary : RunSummary)
        (after : Ledger Body) : Type 0 where
      pub request : RunRequest
      pub run : Run
      pub known : find (keyed_by c.idempotency_key) ledger.requests ≡ some request
      pub same_request : str_eq request.request_hash (hash_command c) ≡ true
      pub its_run : find (is_run request.run_id) ledger.store.runs ≡ some run
      pub told : summary ≡ run_summary_response request run
      pub unchanged : after ≡ ledger

    -- The strategy is published and the data set is sealed, and the ledger has one run more, which workers may claim
    -- at any time; no run had its key or its input, or all of its version ids, engine, parameters and seed.
    pub record IsCreated (catalog : RunInputs) (gap : ℕ) (c : Command) (ledger : Ledger Body)
        (summary : RunSummary) (after : Ledger Body) : Type 0 where
      pub material : Material
      pub request : RunRequest
      pub run : Run
      pub ready : material_of catalog c ≡ some material
      pub new_key : find (keyed_by c.idempotency_key) ledger.requests ≡ none
      pub its_request :
          request
          ≡ request_of hash_command hash_parameters hash_input hash_result catalog c material run.id
      pub its_key : request.idempotency_key ≡ c.idempotency_key
      pub its_hash : request.request_hash ≡ hash_command c
      pub its_id : (request.run_id ≡ run.id) × (run.id ≡ suc (ledger.last_id + gap))
      pub accepted : violates request run ledger ≡ false
      pub its_run :
          run
          ≡ queued_run hash_command hash_parameters hash_input hash_result catalog c material run.id
      pub claimable : (now : ℕ) → is_claimable now run ≡ true
      pub told : summary ≡ run_summary_response request run
      pub added : after ≡ inserted request run ledger

    created-IsCreated :
        (catalog : RunInputs) (gap : ℕ) (c : Command) (ledger : Ledger Body) {summary : RunSummary}
        {after : Ledger Body}
        → 0 < c.max_attempts
        → find (keyed_by c.idempotency_key) ledger.requests ≡ none
        → created hash_command hash_parameters hash_input hash_result catalog gap c ledger
          ≡ ok (summary, after)
        → IsCreated catalog gap c ledger summary after
    unfolding created
    created-IsCreated catalog gap c ledger limit new h =
        let (m, rest, read) =
          bind-returned (or_raise (material_of catalog c) input_not_ready) _ h in
        let id = suc (ledger.last_id + gap) in
        let run = queued_run hash_command hash_parameters hash_input hash_result catalog c m id in
        let (_, inserts) = raise_if-returned _ idempotency_conflict _ rest in
        let (accepted, told, added) = insert_run-returned c _ run ledger inserts in
        record {
          material = m;
          request = request_of hash_command hash_parameters hash_input hash_result catalog c m id;
          run = run;
          ready = or_raise-returned _ input_not_ready read;
          new_key = new;
          its_request = refl;
          its_key = refl;
          its_hash = refl;
          its_id = (refl, refl);
          accepted = accepted;
          its_run = refl;
          claimable = λ now. queued_run-claimable catalog c m id now limit;
          told = told;
          added = added;
        }

    replayed-IsReplayed :
        (c : Command) (ledger : Ledger Body) (q : RunRequest) {summary : RunSummary}
        {after : Ledger Body}
        → find (keyed_by c.idempotency_key) ledger.requests ≡ some q
        → replayed hash_command hash_parameters hash_input hash_result c q ledger
          ≡ ok (summary, after)
        → IsReplayed c ledger summary after
    unfolding replayed
    replayed-IsReplayed c ledger q {summary} {after} known h =
        let (same, rest) = raise_if-returned _ idempotency_conflict _ h in
        let (run, returned, read) = bind-returned (or_raise _ assertion_failed) _ rest in
        record {
          request = q;
          run = run;
          known = known;
          same_request = not-false _ same;
          its_run = or_raise-returned _ assertion_failed read;
          told = (returned-parts _ summary _ after returned).0;
          unchanged = (returned-parts _ summary _ after returned).1;
        }

    pub create_in-Outcome :
        (catalog : RunInputs) (gap : ℕ) (c : Command) (ledger : Ledger Body) {summary : RunSummary}
        {after : Ledger Body}
        → 0 < c.max_attempts
        → create_in hash_command hash_parameters hash_input hash_result catalog gap c ledger
          ≡ ok (summary, after)
        → IsReplayed c ledger summary after ⊎ IsCreated catalog gap c ledger summary after
    unfolding create_in
    create_in-Outcome catalog gap c ledger limit h =
        elim (Option-cases (find (keyed_by c.idempotency_key) ledger.requests)) [
          | inl new ↦
              inr (created-IsCreated catalog gap c ledger limit new (rw (new, create_in) at h))
          | inr (q, known) ↦ inl (replayed-IsReplayed c ledger q known (rw (known, create_in) at h))
        ]

module _ (hash_command : Command → String) (hash_parameters : Parameters → String)
    (hash_input : BacktestEngineSpec → List BacktestCandleEvent → List BacktestSignal → String)
    (hash_result : BacktestResult → String) {Body : Type 0} where
  -- The loop gives what one of its rounds does, unless all of them are refused.
  pub attempts_lem :
      (c : Command) (first second third : Attempt Body)
      → third.refused ≡ false
      → (a : Attempt Body) × Memᴰ a (first ∷ second ∷ third ∷ [])
        × (a.refused ≡ false)
        × (attempts hash_command hash_parameters hash_input hash_result c
              (first ∷ second ∷ third ∷ [])
            ≡ create_in hash_command hash_parameters hash_input hash_result a.catalog a.gap c
                a.ledger)
  unfolding attempts
  attempts_lem c first second third kept = elim (Bool-cases first.refused) [
    | inr here ↦ (first, Memᴰ.head refl, here, rw here refl)
    | inl no_ ↦ elim (Bool-cases second.refused) [
      | inr here ↦ (second, Memᴰ.tail (Memᴰ.head refl), here, rw (no_, here) refl)
      | inl no_' ↦ (third, Memᴰ.tail (Memᴰ.tail (Memᴰ.head refl)), kept, rw (no_, no_', kept) refl)
    ]
  ]

  -- What is returned was returned by one of the rounds.
  pub attempts-returned :
      (c : Command) (first second third : Attempt Body) {got : RunSummary × Ledger Body}
      → attempts hash_command hash_parameters hash_input hash_result c (first ∷ second ∷ third ∷ [])
        ≡ ok got
      → (a : Attempt Body) × Memᴰ a (first ∷ second ∷ third ∷ [])
        × (a.refused ≡ false)
        × (create_in hash_command hash_parameters hash_input hash_result a.catalog a.gap c a.ledger
            ≡ ok got)
  unfolding attempts
  attempts-returned c first second third h = elim (Bool-cases third.refused) [
    | inr kept ↦ let (a, m, r, e) = attempts_lem c first second third kept in (a, m, r, sym e ∙ h)
    | inl no_'' ↦ elim (Bool-cases first.refused) [
      | inr here ↦ (first, Memᴰ.head refl, here, rw (here, attempts) at h)
      | inl no_ ↦ elim (Bool-cases second.refused) [
        | inr here ↦ (second, Memᴰ.tail (Memᴰ.head refl), here, rw (no_, here, attempts) at h)
        | inl no_' ↦ absurd (ground (arith, rw (no_, no_', no_'', attempts) at h))
      ]
    ]
  ]

  -- A call that returns has a round that was not refused, and in it either the key has a run whose request had the
  -- same hash, of which it tells without a change of the ledger; or the strategy is published and the data set is
  -- sealed, and the ledger has one run more, of which it tells, and which workers may claim at any time: no run had its
  -- key or its input, and its id is above all others of the sequence.
  pub create_run-Outcome :
      (arguments : CreateArguments) (first second third : Attempt Body) {summary : RunSummary}
      {after : Ledger Body}
      → create_run hash_command hash_parameters hash_input hash_result arguments first second third
        ≡ ok (summary, after)
      → (c : Command) × (a : Attempt Body) × (read_command arguments ≡ ok c)
        × Memᴰ a (first ∷ second ∷ third ∷ [])
        × (a.refused ≡ false)
        × (IsReplayed hash_command hash_parameters hash_input hash_result c a.ledger summary after
            ⊎ IsCreated hash_command hash_parameters hash_input hash_result a.catalog a.gap c
                a.ledger summary after)
  unfolding create_run
  create_run-Outcome arguments first second third h =
      let (c, rest, read) = bind-returned (read_command arguments) _ h in
      let (a, m, kept, returned) = attempts-returned c first second third rest in
      (
        c,
        a,
        read,
        m,
        kept,
        create_in-Outcome hash_command hash_parameters hash_input hash_result a.catalog a.gap c
            a.ledger (read_command-positive arguments read) returned,
      )
