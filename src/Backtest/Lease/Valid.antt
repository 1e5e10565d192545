-- ===== src/Backtest/Lease/Valid.antt =====
-- The constraints of the table `backtest_runs` hold of every row that a worker's statement writes.
use goodmoneying.Prelude.{
  ℕ, false, ◌≡◌, refl, ◌≤◌, ◌<◌, Bool, true, Option, none, some, List, arith, All, All-imp,
  All-always, if◌then◌else◌, Bool-cases,
}
use Prim.Native.String.{String}
use goodmoneying.Prelude.{inl, inr, ◌+◌}
use goodmoneying.Prelude.Text.{is_blank, strip, is_trimmed_away, strip-not_trimmed_away}
use goodmoneying.Prelude.Results.{ok, ok-injective}
use goodmoneying.Backtest.Lease.{
  non_blank, RunStatus, queued, running, retry_wait, cancelled, dead_letter, Run, is_exhausted,
  bury, is_claimable, is_chosen, lease, swept, holds, ResultStatus, RunResult, finish, give_back,
  is_last, update_where,
}
use goodmoneying.Backtest.Lease.Rows.{IsKeyed, IsKeyed-Rowwise, All-update, Rowwise-update}
use mathlib.Core.Path.{subst}
use goodmoneying.Prelude.{◌⊎◌}

-- NOT NULL
abbrev pub Present {ℓ} : {A : Type ℓ} → Option A → Type 0
Present none = ⊥
Present (some _) = Unit

-- `btrim(COALESCE(text, '')) <> ''`
abbrev pub IsNamed : Option String → Type 0
IsNamed none = ⊥
IsNamed (some text) = is_trimmed_away text ≡ false

-- No lease: `lease_owner IS NULL AND lease_expires_at IS NULL`.
abbrev pub IsFree : Run → Type 0
IsFree r = (r.lease_owner ≡ none) × (r.lease_expires_at ≡ none)

-- What the constraints ask of a row, by its status.
abbrev pub StatusIsValid : RunStatus → Run → Type 0
StatusIsValid queued r =
    IsFree r × (r.started_at ≡ none) × (r.finished_at ≡ none) × (r.next_retry_at ≡ none)
StatusIsValid running r =
    Present r.started_at
    × (r.finished_at ≡ none)
    × IsNamed r.lease_owner
    × Present r.lease_expires_at
StatusIsValid retry_wait r = IsFree r × Present r.next_retry_at × (r.finished_at ≡ none)
StatusIsValid RunStatus.succeeded r = IsFree r × Present r.finished_at × Present r.result_hash
StatusIsValid RunStatus.failed r = IsFree r × Present r.finished_at
StatusIsValid cancelled r = IsFree r × Present r.finished_at
StatusIsValid dead_letter r = IsFree r × Present r.finished_at × IsNamed r.dead_letter_reason

-- A row is valid if its status is, and if its attempts are counted: one for each lease that was
-- given, and never more than the run may have.
pub record IsValid (r : Run) : Type 0 where
  pub shape : StatusIsValid r.status r
  pub positive : 0 < r.max_attempts
  pub counted : r.lease_generation ≡ r.attempt_count
  pub bounded : r.attempt_count ≤ r.max_attempts

pub non_blank-not_trimmed_away :
    (value : String) {text : String} → non_blank value ≡ ok text → is_trimmed_away text ≡ false
unfolding non_blank
non_blank-not_trimmed_away value h = elim (Bool-cases (is_blank value)) [
  | inl blank ↦ ground (arith, h, blank)
  | inr full ↦
      let same : strip value ≡ _ = ok-injective (rw full at h) in
      subst (λ t. is_trimmed_away t ≡ false) same (strip-not_trimmed_away value full)
]

pub bury-IsValid :
    (now : ℕ) (r : Run) → IsValid r → IsValid (if is_exhausted now r then bury now r else r)
bury-IsValid now r v = elim (Bool-cases (is_exhausted now r)) [
  | inl yes_ ↦ rw yes_ (ground arith)
  | inr no_ ↦ rw no_ v
]

pub lease-IsValid :
    (owner : String) (lease_seconds now select : ℕ) (r : Run)
    → is_trimmed_away owner ≡ false
    → IsValid r
    → is_claimable select r ≡ true
    → IsValid (lease owner lease_seconds (r.lease_generation + 1) now r)
lease-IsValid owner lease_seconds now select r named v c = ground (arith, named)

finished-IsValid :
    {Body : Type 0} (result : RunResult Body) (completed_at : ℕ) (r : Run)
    → IsValid r
    → IsValid (finish result completed_at r)
finished-IsValid result completed_at r v = elim (status-cases result.status) [
  | inl good ↦ rw good (ground arith)
  | inr bad ↦ rw bad (ground arith)
]
  where
    status-cases : (s : ResultStatus) → (s ≡ ResultStatus.succeeded) ⊎ (s ≡ ResultStatus.failed)
    status-cases ResultStatus.succeeded = inl refl
    status-cases ResultStatus.failed = inr refl

pub finish-IsValid :
    {Body : Type 0} (result : RunResult Body) (id : ℕ) (owner : String)
    (generation now completed_at : ℕ) (r : Run)
    → IsValid r
    → IsValid (if holds id owner generation now r then finish result completed_at r else r)
finish-IsValid result id owner generation now completed_at r v =
    elim (Bool-cases (holds id owner generation now r)) [
      | inl held ↦ rw held (finished-IsValid result completed_at r v)
      | inr other ↦ rw other v
    ]

given_back-IsValid :
    (code message : String) (now : ℕ) (r : Run)
    → is_trimmed_away code ≡ false
    → IsValid r
    → IsValid (give_back code message now r)
given_back-IsValid code message now r named v = elim (Bool-cases (is_last r)) [
  | inl last ↦ rw last (ground arith)
  | inr more ↦ rw more (ground arith)
]

pub give_back-IsValid :
    (code message : String) (id : ℕ) (owner : String) (generation now : ℕ)
    → is_trimmed_away code ≡ false
    → (r : Run) → IsValid r
    → IsValid (if holds id owner generation now r then give_back code message now r else r)
give_back-IsValid code message id owner generation now named r v =
    elim (Bool-cases (holds id owner generation now r)) [
      | inl held ↦ rw held (given_back-IsValid code message now r named v)
      | inr other ↦ rw other v
    ]

-- The table as a whole: its primary key, and every row.
pub record TableIsValid (table : List Run) : Type 0 where
  pub keyed : IsKeyed table
  pub rows : All IsValid table

abbrev SameId : Run → Run → Type 0
SameId a b = b.id ≡ a.id

-- A statement that changes no id, and keeps each row valid, keeps the table valid.
pub update-TableIsValid :
    (p : Run → Bool) (f : Run → Run) (table : List Run)
    → TableIsValid table
    → All (λ r. SameId r (if p r then f r else r)) table
    → All (λ r. IsValid (if p r then f r else r)) table
    → TableIsValid (update_where p f table)
update-TableIsValid p f table v ids rows = record {
  keyed =
      IsKeyed-Rowwise table (update_where p f table) (Rowwise-update p f SameId table ids) v.keyed;
  rows = All-update p f IsValid table rows;
}

pub swept-TableIsValid :
    (now : ℕ) (table : List Run) → TableIsValid table → TableIsValid (swept now table)
swept-TableIsValid now table v =
    update-TableIsValid (is_exhausted now) (bury now) table v
      (All-always _ table (λ r. ground arith))
      (All-imp IsValid _ table (λ r. bury-IsValid now r) v.rows)

-- The chosen row, in a table where it is the only one with its id.
pub leased-IsValid :
    (owner : String) (lease_seconds now select : ℕ) (run r : Run)
    → is_trimmed_away owner ≡ false
    → IsValid r
    → (r.id ≡ run.id → r ≡ run)
    → is_claimable select run ≡ true
    → IsValid
        (if is_chosen run r then lease owner lease_seconds (run.lease_generation + 1) now r else r)
leased-IsValid owner lease_seconds now select run r named v unique c =
    elim (Bool-cases (is_chosen run r)) [
      | inl chosen ↦
          let same : r ≡ run = unique (ground arith) in
          rw chosen (
            subst (λ t. IsValid (lease owner lease_seconds (t.lease_generation + 1) now r)) same
              (lease-IsValid owner lease_seconds now select r named v (rw same c)))
      | inr other ↦ rw other v
    ]
