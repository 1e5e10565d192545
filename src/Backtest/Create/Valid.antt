-- ===== src/Backtest/Create/Valid.antt =====
-- create_run of packages/shared/goodmoneying_shared/backtest_store.py: what holds of the runs and their requests.
use Prim.Native.String.{String}
use text.Mathlib.Text.{◌==◌ as str_eq}
use goodmoneying.Prelude.{
  ◌≤◌, ◌<◌, ◌≡◌, sym, ◌∙◌, ◌≢◌, Bool, false, List, [], ◌∷◌, ◌++◌, any, All, All-imp, All-append,
  arith,
}
use goodmoneying.Prelude.Text.{is_trimmed_away}
use goodmoneying.Backtest.Lease.{Run, Store}
use goodmoneying.Backtest.Lease.Rows.{Rowwise, All-Rowwise, IsKeyed}
use goodmoneying.Backtest.Lease.Valid.{IsValid, TableIsValid}
use goodmoneying.Backtest.Lease.Seal.{Follows}
use goodmoneying.Backtest.Create.{violates, inserted}
use goodmoneying.Backtest.Requests.{RunRequest, Ledger, keyed_by, has_input, same_inputs}

-- A UNIQUE column: no two rows have the same text.
abbrev pub AreDistinct : {A : Type 0} → (A → String) → List A → Type 0
AreDistinct column [] = Unit
AreDistinct column (x ∷ xs) =
    All (λ y. str_eq (column x) (column y) ≡ false) xs × AreDistinct column xs

-- A UNIQUE constraint on several columns: no earlier row has those of a later one.
abbrev pub AllDiffer : {A : Type 0} → (A → A → Bool) → List A → Type 0
AllDiffer same [] = Unit
AllDiffer same (x ∷ xs) = All (λ y. same y x ≡ false) xs × AllDiffer same xs

AllDiffer-snoc :
    {A : Type 0} (same : A → A → Bool) (xs : List A) (new : A)
    → AllDiffer same xs
    → All (λ x. same new x ≡ false) xs
    → AllDiffer same (xs ++ new ∷ [])
AllDiffer-snoc same [] new h k = (tt, tt)
AllDiffer-snoc same (x ∷ xs) new h k = (
  All-append (λ y. same y x ≡ false) xs (new ∷ []) h.0 (k.0, tt),
  AllDiffer-snoc same xs new h.1 k.1,
)

any-false : {A : Type 0} (p : A → Bool) (xs : List A) → any p xs ≡ false → All (λ x. p x ≡ false) xs
any-false p [] h = tt
any-false p (x ∷ xs) h =
    let (first, rest) : (p x ≡ false) × (any p xs ≡ false) = ground (arith, h) in
    (first, any-false p xs rest)

AreDistinct-snoc :
    {A : Type 0} (column : A → String) (xs : List A) (new : A)
    → AreDistinct column xs
    → All (λ x. str_eq (column x) (column new) ≡ false) xs
    → AreDistinct column (xs ++ new ∷ [])
AreDistinct-snoc column [] new h k = (tt, tt)
AreDistinct-snoc column (x ∷ xs) new h k = (
  All-append (λ y. str_eq (column x) (column y) ≡ false) xs (new ∷ []) h.0 (k.0, tt),
  AreDistinct-snoc column xs new h.1 k.1,
)

-- Each request is the one of the run in its place.
abbrev pub ArePaired : List RunRequest → List Run → Type 0
ArePaired [] [] = Unit
ArePaired (q ∷ qs) (r ∷ rs) = (q.run_id ≡ r.id) × ArePaired qs rs
ArePaired _ _ = ⊥

ArePaired-snoc :
    (qs : List RunRequest) (rs : List Run) (q : RunRequest) (r : Run)
    → ArePaired qs rs
    → q.run_id ≡ r.id
    → ArePaired (qs ++ q ∷ []) (rs ++ r ∷ [])
ArePaired-snoc [] [] q r h e = (e, tt)
ArePaired-snoc [] (r' ∷ rs) q r h e = absurd h
ArePaired-snoc (q' ∷ qs) [] q r h e = absurd h
ArePaired-snoc (q' ∷ qs) (r' ∷ rs) q r h e = (h.0, ArePaired-snoc qs rs q r h.1 e)

ArePaired-Rowwise :
    (qs : List RunRequest) (xs ys : List Run)
    → Rowwise Follows xs ys
    → ArePaired qs xs
    → ArePaired qs ys
ArePaired-Rowwise [] [] [] f h = tt
ArePaired-Rowwise [] [] (y ∷ ys) f h = absurd f
ArePaired-Rowwise [] (x ∷ xs) ys f h = absurd h
ArePaired-Rowwise (q ∷ qs) [] ys f h = absurd h
ArePaired-Rowwise (q ∷ qs) (x ∷ xs) [] f h = absurd f
ArePaired-Rowwise (q ∷ qs) (x ∷ xs) (y ∷ ys) f h =
    (h.0 ∙ sym f.0.same_id, ArePaired-Rowwise qs xs ys f.1 h.1)

abbrev input_of : Run → String
input_of r = r.input_hash

inputs-Rowwise :
    (xs ys : List Run) → Rowwise Follows xs ys → AreDistinct input_of xs → AreDistinct input_of ys
inputs-Rowwise [] [] f h = tt
inputs-Rowwise [] (y ∷ ys) f h = absurd f
inputs-Rowwise (x ∷ xs) [] f h = absurd f
inputs-Rowwise (x ∷ xs) (y ∷ ys) f h = (
  All-Rowwise Follows _ (λ b. str_eq y.input_hash b.input_hash ≡ false)
      (λ a b g ne. rw (f.0.same_input, g.same_input) ne) xs ys f.1 h.0,
  inputs-Rowwise xs ys f.1 h.1,
)

IsKeyed-snoc :
    (runs : List Run) (run : Run)
    → IsKeyed runs
    → All (λ r. r.id < run.id) runs
    → IsKeyed (runs ++ run ∷ [])
IsKeyed-snoc [] run h k = (tt, tt)
IsKeyed-snoc (r ∷ runs) run h k = (
  All-append (λ s. s.id ≢ r.id) runs (run ∷ []) h.0
      ((λ same. let low = k.0 in omega (arith, low, same)), tt),
  IsKeyed-snoc runs run h.1 k.1,
)

-- `btrim(…) <> ''` of the columns that must not be blank.
abbrev pub IsDescribed : RunRequest → Type 0
IsDescribed q =
    (is_trimmed_away q.engine_version ≡ false)
    × (is_trimmed_away q.idempotency_key ≡ false)
    × (is_trimmed_away q.request_id ≡ false)
    × (is_trimmed_away q.actor_id ≡ false)
    × (is_trimmed_away q.reason ≡ false)

-- The table of runs meets its constraints, its ids are values of the sequence, no two runs have one key, one input,
-- or all of strategy, dataset, engine, parameters and seed in common, and each has its request, without blanks.
pub record LedgerIsValid {Body : Type 0} (ledger : Ledger Body) : Type 0 where
  pub table : TableIsValid ledger.store.runs
  pub bounded : All (λ r. r.id ≤ ledger.last_id) ledger.store.runs
  pub keys : AreDistinct (λ q. q.idempotency_key) ledger.requests
  pub inputs : AreDistinct input_of ledger.store.runs
  pub described : All IsDescribed ledger.requests
  pub combinations : AllDiffer same_inputs ledger.requests
  pub paired : ArePaired ledger.requests ledger.store.runs

module _ {Body : Type 0} (ledger : Ledger Body) where
  pub inserted-LedgerIsValid :
      (new : RunRequest) (run : Run)
      → LedgerIsValid ledger
      → IsValid run
      → new.run_id ≡ run.id
      → IsDescribed new
      → ledger.last_id < run.id
      → violates new run ledger ≡ false
      → LedgerIsValid (inserted new run ledger)
  inserted-LedgerIsValid new run v valid mine described above free =
      let runs = ledger.store.runs in
      let new_key : any (keyed_by new.idempotency_key) ledger.requests ≡ false =
        ground (arith, free) in
      let new_combination : any (same_inputs new) ledger.requests ≡ false = ground (arith, free) in
      let new_input : any (has_input run.input_hash) runs ≡ false = ground (arith, free) in
      record {
        table = record {
          keyed =
              IsKeyed-snoc runs run v.table.keyed
                (All-imp _ _ runs (λ r le. omega (arith, le, above)) v.bounded);
          rows = All-append IsValid runs (run ∷ []) v.table.rows (valid, tt);
        };
        bounded =
            All-append _ runs (run ∷ [])
              (All-imp _ _ runs (λ r le. omega (arith, le, above)) v.bounded) (omega arith, tt);
        keys = AreDistinct-snoc _ ledger.requests new v.keys (any-false _ ledger.requests new_key);
        inputs = AreDistinct-snoc input_of runs run v.inputs (any-false _ runs new_input);
        described = All-append IsDescribed ledger.requests (new ∷ []) v.described (described, tt);
        combinations =
            AllDiffer-snoc same_inputs ledger.requests new v.combinations
              (any-false _ ledger.requests new_combination);
        paired = ArePaired-snoc ledger.requests runs new run v.paired mine;
      }

  pub worked-LedgerIsValid :
      (after : Store Body)
      → LedgerIsValid ledger
      → TableIsValid after.runs
      → Rowwise Follows ledger.store.runs after.runs
      → LedgerIsValid (record ledger { store = after })
  worked-LedgerIsValid after v table follows = record {
    table = table;
    bounded =
        All-Rowwise Follows (λ r. r.id ≤ ledger.last_id) (λ r. r.id ≤ ledger.last_id)
          (λ a b f le. let e = f.same_id in omega (arith, le, e)) ledger.store.runs after.runs
          follows v.bounded;
    keys = v.keys;
    described = v.described;
    combinations = v.combinations;
    inputs = inputs-Rowwise ledger.store.runs after.runs follows v.inputs;
    paired = ArePaired-Rowwise ledger.requests ledger.store.runs after.runs follows v.paired;
  }
