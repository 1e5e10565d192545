-- ===== src/Backtest/Create/Again.antt =====
-- create_run of packages/shared/goodmoneying_shared/backtest_store.py: a call that is made again.
use Prim.Native.String.{String}
use text.Mathlib.Text.{◌==◌ as str_eq}
use text.Mathlib.TextPositions.{eq_refl as str_eq-refl}
use text.Mathlib.TextEquality.{eq_iff}
use mathlib.Core.List.{Memᴰ}
use mathlib.Core.Path.{subst}
use goodmoneying.Prelude.{
  ℕ, ◌<◌, ◌≡◌, refl, sym, ap, ◌∙◌, inl, inr, Bool, true, false, none, some, List, [], ◌∷◌, ◌++◌,
  find, find-some, All, All-mem, arith, ◌==◌, Bool-cases,
}
use goodmoneying.Prelude.Results.{ok, err}
use goodmoneying.Backtest.Engine.{
  BacktestEngineSpec, BacktestCandleEvent, BacktestSignal, BacktestResult,
}
use goodmoneying.Backtest.Lease.{Run}
use goodmoneying.Backtest.Command.{
  idempotency_conflict, CreateArguments, Parameters, Command, read_command,
}
use goodmoneying.Backtest.Create.{replayed, create_in, Attempt, create_run}
use goodmoneying.Backtest.Requests.{
  RunInputs, RunRequest, Ledger, RunSummary, run_summary_response, keyed_by, is_run,
}
use goodmoneying.Backtest.Create.Reading.{read_command-positive}
use goodmoneying.Backtest.Create.Outcome.{attempts_lem, attempts-returned, create_in-Outcome}
use goodmoneying.Backtest.Create.Valid.{ArePaired, LedgerIsValid}
use goodmoneying.Backtest.Create.History.{
  find-append, made, LedgerReach, LedgerStep-keeps, LedgerReach-keeps,
}

-- The run of a request.
ArePaired-found :
    (qs : List RunRequest) (runs : List Run) {q : RunRequest}
    → ArePaired qs runs
    → Memᴰ q qs
    → (r : Run) × (find (is_run q.run_id) runs ≡ some r) × (r.id ≡ q.run_id)
ArePaired-found [] runs h m = elim m [ ]
ArePaired-found (q' ∷ qs) [] h m = absurd h
ArePaired-found (q' ∷ qs) (r ∷ runs) {q} h (Memᴰ.head e) =
    let same : r.id ≡ q.run_id = sym h.0 ∙ sym (ap (λ (x : RunRequest). x.run_id) e) in
    let it : (r.id == q.run_id) ≡ true = ground (arith, same) in rw it (r, refl, same)
ArePaired-found (q' ∷ qs) (r ∷ runs) {q} h (Memᴰ.tail m) =
    let (s, there, same) = ArePaired-found qs runs h.1 m in
    elim (Bool-cases (r.id == q.run_id)) [
      | inl it ↦ rw it (r, refl, ground (arith, it))
      | inr other ↦ rw other (s, there, same)
    ]

find-last :
    (p : RunRequest → Bool) (qs : List RunRequest) (q : RunRequest)
    → find p qs ≡ none
    → p q ≡ true
    → find p (qs ++ q ∷ []) ≡ some q
find-last p [] q h k = rw k refl
find-last p (q' ∷ qs) q h k = elim (Bool-cases (p q')) [
  | inl passes ↦ absurd (ground (arith, passes, h))
  | inr fails ↦ rw fails (find-last p qs q (rw (fails, find) at h) k)
]

module _ (hash_command : Command → String) (hash_parameters : Parameters → String)
    (hash_input : BacktestEngineSpec → List BacktestCandleEvent → List BacktestSignal → String)
    (hash_result : BacktestResult → String) {Body : Type 0} where
  -- The key of a command has a request with the same hash, of the run with the given id.
  pub record IsKnown (c : Command) (id : ℕ) (ledger : Ledger Body) : Type 0 where
    pub request : RunRequest
    pub known : find (keyed_by c.idempotency_key) ledger.requests ≡ some request
    pub same_request : request.request_hash ≡ hash_command c
    pub same_run : request.run_id ≡ id

  create_in-IsKnown :
      (catalog : RunInputs) (gap : ℕ) (c : Command) (ledger : Ledger Body) {summary : RunSummary}
      {after : Ledger Body}
      → 0 < c.max_attempts
      → create_in hash_command hash_parameters hash_input hash_result catalog gap c ledger
        ≡ ok (summary, after)
      → IsKnown c summary.backtest_run_id after
  unfolding run_summary_response
  create_in-IsKnown catalog gap c ledger {summary} {after} limit h =
      elim (create_in-Outcome hash_command hash_parameters hash_input hash_result catalog gap c
        ledger limit h) [
          | inl old ↦
              let (_, its_id) =
                find-some (is_run old.request.run_id) ledger.store.runs old.its_run in
              let same : old.run.id ≡ old.request.run_id = ground (arith, its_id) in
              record {
                request = old.request;
                known =
                    subst (λ l. find (keyed_by c.idempotency_key) l.requests ≡ some old.request)
                      (sym old.unchanged) old.known;
                same_request = (eq_iff _ _).0 old.same_request;
                same_run = sym same ∙ sym (ap (λ (s : RunSummary). s.backtest_run_id) old.told);
              }
          | inr new ↦
              let here : keyed_by c.idempotency_key new.request ≡ true =
                ap (λ key. str_eq key c.idempotency_key) new.its_key
                ∙ str_eq-refl c.idempotency_key in
              record {
                request = new.request;
                known =
                    subst (λ l. find (keyed_by c.idempotency_key) l.requests ≡ some new.request)
                      (sym new.added)
                      (find-last (keyed_by c.idempotency_key) ledger.requests new.request
                        new.new_key here);
                same_request = new.its_hash;
                same_run = new.its_id.0 ∙ sym (ap (λ (s : RunSummary). s.backtest_run_id) new.told);
              }
        ]

  module _ (catalog : RunInputs) (gap : ℕ) (c d : Command) (id : ℕ) (ledger : Ledger Body)
      (k : IsKnown c id ledger) (same_key : d.idempotency_key ≡ c.idempotency_key) where
    still_known : find (keyed_by d.idempotency_key) ledger.requests ≡ some k.request
    still_known = ap (λ key. find (keyed_by key) ledger.requests) same_key ∙ k.known

    same_lem :
        LedgerIsValid ledger
        → hash_command d ≡ hash_command c
        → (told : RunSummary) × (create_in hash_command hash_parameters hash_input hash_result
              catalog gap d ledger
            ≡ ok (told, ledger))
          × (told.backtest_run_id ≡ id)
    unfolding create_in replayed run_summary_response
    same_lem v same_hash =
        let q = k.request in
        let (run, there, same) =
          ArePaired-found ledger.requests ledger.store.runs v.paired
            (find-some (keyed_by c.idempotency_key) ledger.requests k.known).0 in
        let equal : str_eq q.request_hash (hash_command d) ≡ true =
          (eq_iff _ _).1 (k.same_request ∙ sym same_hash) in
        (
          run_summary_response q run,
          rw (still_known, equal, there, create_in, replayed) refl,
          same ∙ k.same_run,
        )

    conflict_lem :
        str_eq (hash_command c) (hash_command d) ≡ false
        → create_in hash_command hash_parameters hash_input hash_result catalog gap d ledger
          ≡ err idempotency_conflict
    unfolding create_in replayed
    conflict_lem other_hash =
        let unequal : str_eq k.request.request_hash (hash_command d) ≡ false =
          ap (λ h. str_eq h (hash_command d)) k.same_request ∙ other_hash in
        rw (still_known, unequal, create_in, replayed) refl

  -- A call with some arguments that returned, and its rounds; then a call with its key, each of whose rounds comes after
  -- any transactions of workers and other calls.
  module _ (accepts : List (ℕ × Body) → ℕ → Body → Bool) (arguments again : CreateArguments)
      (first second third first' second' third' : Attempt Body) {c d : Command}
      {summary : RunSummary} {after : Ledger Body}
      (valid : All (λ a. LedgerIsValid a.ledger) (first ∷ second ∷ third ∷ []))
      (read : read_command arguments ≡ ok c)
      (returned : create_run hash_command hash_parameters hash_input hash_result arguments first
          second third
        ≡ ok (summary, after))
      (read' : read_command again ≡ ok d) (same_key : d.idempotency_key ≡ c.idempotency_key)
      (reached : All
        (λ a.
          LedgerReach hash_command hash_parameters hash_input hash_result accepts after a.ledger)
        (first' ∷ second' ∷ third' ∷ []))
      (kept : third'.refused ≡ false) where
    after-IsKnown : LedgerIsValid after × IsKnown c summary.backtest_run_id after
    unfolding create_run
    after-IsKnown =
        let (a, m, _, h) =
          attempts-returned hash_command hash_parameters hash_input hash_result c first second third
            (rw (read, create_run) at returned) in
        let (after_valid, _, _) =
          LedgerStep-keeps hash_command hash_parameters hash_input hash_result accepts
            (made arguments a.catalog a.gap c a.ledger summary after read h)
            (All-mem (λ (x : Attempt Body). LedgerIsValid x.ledger) _ valid m) in
        (
          after_valid,
          create_in-IsKnown a.catalog a.gap c a.ledger (read_command-positive arguments read) h,
        )

    -- In the round that answers, the key is still known.
    answer-IsKnown :
        (a : Attempt Body) × Memᴰ a (first' ∷ second' ∷ third' ∷ [])
        × (create_run hash_command hash_parameters hash_input hash_result again first' second'
              third'
            ≡ create_in hash_command hash_parameters hash_input hash_result a.catalog a.gap d
                a.ledger)
        × LedgerIsValid a.ledger
        × IsKnown c summary.backtest_run_id a.ledger
    unfolding create_run
    answer-IsKnown =
        let (after_valid, known) = after-IsKnown in
        let (b, m, _, answered) =
          attempts_lem hash_command hash_parameters hash_input hash_result d first' second' third'
            kept in
        let (b_valid, new, e) =
          LedgerReach-keeps hash_command hash_parameters hash_input hash_result accepts
            (All-mem
              (λ (x : Attempt Body).
                LedgerReach hash_command hash_parameters hash_input hash_result accepts after
                  x.ledger)
              _ reached m)
            after_valid in
        (
          b,
          m,
          rw read' answered,
          b_valid,
          record {
            request = known.request;
            known =
                ap (find (keyed_by c.idempotency_key)) e
                ∙ find-append (keyed_by c.idempotency_key) after.requests new known.known;
            same_request = known.same_request;
            same_run = known.same_run;
          },
        )

    -- A call is made again with its key and a request that has the same hash, after any transactions of workers and
    -- other calls, and not all of its rounds are refused: it changes nothing and tells of the run of the first call.
    pub create_run-again :
        hash_command d ≡ hash_command c
        → (told : RunSummary) × (a : Attempt Body) × Memᴰ a (first' ∷ second' ∷ third' ∷ [])
          × (create_run hash_command hash_parameters hash_input hash_result again first' second'
                third'
              ≡ ok (told, a.ledger))
          × (told.backtest_run_id ≡ summary.backtest_run_id)
    create_run-again same_hash =
        let (a, m, answered, a_valid, known) = answer-IsKnown in
        let (told, e, id) =
          same_lem a.catalog a.gap c d summary.backtest_run_id a.ledger known same_key a_valid
            same_hash in
        (told, a, m, answered ∙ e, id)

    -- A call is made with the key of an earlier call and a request that has another hash, after any transactions of
    -- workers and other calls, and not all of its rounds are refused: it is a conflict.
    pub create_run-conflict :
        str_eq (hash_command c) (hash_command d) ≡ false
        → create_run hash_command hash_parameters hash_input hash_result again first' second' third'
          ≡ err idempotency_conflict
    create_run-conflict other_hash =
        let (a, _, answered, _, known) = answer-IsKnown in
        answered
        ∙ conflict_lem a.catalog a.gap c d summary.backtest_run_id a.ledger known same_key
            other_hash
