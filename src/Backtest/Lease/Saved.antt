-- ===== src/Backtest/Lease/Saved.antt =====
-- The result of a run is saved once, and only of a run that has ended.
use Prim.Native.String.{String}
use goodmoneying.Prelude.{
  ℕ, ◌≡◌, refl, sym, ap, ◌∙◌, ◌≢◌, Bool, true, false, none, some, List, [], ◌∷◌, ◌++◌, arith, All,
  All-imp, All-mem, All-append, find, find-some, Option-cases, inl, inr, if◌then◌else◌, Bool-cases,
}
use goodmoneying.Backtest.Lease.{
  Run, ResultStatus, RunResult, Store, is_running, holds, finish, update_where, run_status,
}
use goodmoneying.Backtest.Lease.Rows.{Rowwise, All-Rowwise, All-update, IsKeyed-unique}
use goodmoneying.Backtest.Lease.Valid.{TableIsValid}
use goodmoneying.Backtest.Lease.Seal.{Follows, is_terminal}
use goodmoneying.Backtest.Lease.Commits.{complete_held-eq-ok, complete_claimed_run-eq-ok}
use goodmoneying.Backtest.Lease.History.{
  Step, claimed, completed, failed, Reach, here, next, Step-Evolves, Reach-Follows,
}

abbrev pub IsEnded : List Run → ℕ → Type 0
IsEnded runs id = All (λ r. r.id ≡ id → is_terminal r.status ≡ true) runs

IsEnded-Rowwise :
    (id : ℕ) (xs ys : List Run) → Rowwise Follows xs ys → IsEnded xs id → IsEnded ys id
IsEnded-Rowwise id xs ys =
    All-Rowwise Follows (λ r. r.id ≡ id → is_terminal r.status ≡ true)
      (λ r. r.id ≡ id → is_terminal r.status ≡ true)
      (λ a b f ended same.
        let before = ended (sym f.same_id ∙ same) in
        ap (λ (r : Run). is_terminal r.status) (f.sealed before) ∙ before)
      xs ys

finish-ended :
    {Body : Type 0} (result : RunResult Body) (completed_at : ℕ) (r : Run)
    → is_terminal (finish result completed_at r).status ≡ true
finish-ended result completed_at r = ended result.status
  where
    ended : (s : ResultStatus) → is_terminal (run_status s) ≡ true
    ended ResultStatus.succeeded = refl
    ended ResultStatus.failed = refl

-- The row that a completion finishes is the only one with its id.
finished-IsEnded :
    {Body : Type 0} (result : RunResult Body) (id : ℕ) (owner : String)
    (generation now completed_at : ℕ) (runs : List Run) {run : Run}
    → TableIsValid runs
    → find (holds id owner generation now) runs ≡ some run
    → IsEnded (update_where (holds id owner generation now) (finish result completed_at) runs) id
finished-IsEnded result id owner generation now completed_at runs {run} v found =
    let (there, held) = find-some (holds id owner generation now) runs found in
    All-update (holds id owner generation now) (finish result completed_at)
      (λ r. r.id ≡ id → is_terminal r.status ≡ true) runs
      (All-imp (λ r. r.id ≡ run.id → r ≡ run) _ runs (λ r unique. row r unique held)
        (IsKeyed-unique runs v.keyed there))
  where
    row :
        (r : Run)
        → (r.id ≡ run.id → r ≡ run)
        → holds id owner generation now run ≡ true
        → (if holds id owner generation now r then finish result completed_at r else r).id ≡ id
        → is_terminal
            (if holds id owner generation now r then finish result completed_at r else r).status
          ≡ true
    row r unique held same = elim (Bool-cases (holds id owner generation now r)) [
      | inl mine ↦ rw mine (finish-ended result completed_at r)
      | inr other ↦
          let there : r.id ≡ id = rw other at same in
          let e : r ≡ run = unique (there ∙ sym (id-of held)) in
          absurd (clash (sym other ∙ ap (holds id owner generation now) e ∙ held))
    ]
      where
        id-of : holds id owner generation now run ≡ true → run.id ≡ id
        id-of h = ground arith

        clash : ¬ (false ≡ true)
        clash h = cc

module _ {Body : Type 0} where
  -- No run has two saved results.
  abbrev pub IsOnce : List (ℕ × Body) → Type 0
  IsOnce [] = Unit
  IsOnce (e ∷ es) = All (λ (x : ℕ × Body). x.0 ≢ e.0) es × IsOnce es

  IsOnce-snoc :
      (es : List (ℕ × Body)) (e : ℕ × Body)
      → IsOnce es
      → All (λ (x : ℕ × Body). x.0 ≢ e.0) es
      → IsOnce (es ++ e ∷ [])
  IsOnce-snoc [] e h k = (tt, tt)
  IsOnce-snoc (x ∷ es) e h k = (
    All-append (λ (y : ℕ × Body). y.0 ≢ x.0) es (e ∷ []) h.0 ((λ same. k.0 (sym same)), tt),
    IsOnce-snoc es e h.1 k.1,
  )

  pub record SavedIsValid (s : Store Body) : Type 0 where
    pub ended : All (λ (e : ℕ × Body). IsEnded s.runs e.0) s.saved
    pub once : IsOnce s.saved

  saved-IsEnded :
      (xs ys : List Run) (saved : List (ℕ × Body))
      → Rowwise Follows xs ys
      → All (λ (e : ℕ × Body). IsEnded xs e.0) saved
      → All (λ (e : ℕ × Body). IsEnded ys e.0) saved
  saved-IsEnded xs ys saved follows =
      All-imp (λ (e : ℕ × Body). IsEnded xs e.0) (λ (e : ℕ × Body). IsEnded ys e.0) saved
        (λ e. IsEnded-Rowwise e.0 xs ys follows)

  -- Of a run that is still held, nothing has been saved.
  unsaved :
      (id : ℕ) (owner : String) (generation now : ℕ) (s : Store Body) {run : Run}
      → SavedIsValid s
      → find (holds id owner generation now) s.runs ≡ some run
      → All (λ (x : ℕ × Body). x.0 ≢ id) s.saved
  unsaved id owner generation now s {run} v found =
      let (there, held) = find-some (holds id owner generation now) s.runs found in
      All-imp (λ (x : ℕ × Body). IsEnded s.runs x.0) (λ (x : ℕ × Body). x.0 ≢ id) s.saved
        (λ x ended same.
          let over = All-mem (λ r. r.id ≡ x.0 → is_terminal r.status ≡ true) s.runs ended there in
          running-open run (holds-running held) (over (holds-id held ∙ sym same)))
        v.ended
    where
      holds-running : holds id owner generation now run ≡ true → is_running run.status ≡ true
      holds-running h = ground arith

      holds-id : holds id owner generation now run ≡ true → run.id ≡ id
      holds-id h = ground arith

      running-open : (r : Run) → is_running r.status ≡ true → is_terminal r.status ≢ true
      running-open r h k = ground arith

find-present :
    (p : Run → Bool) (runs : List Run) → find p runs ≢ none → (run : Run) × (find p runs ≡ some run)
find-present p runs h = elim (Option-cases (find p runs)) [
  | inl nothing ↦ absurd (h nothing)
  | inr found ↦ found
]

module _ {Body : Type 0} (accepts : List (ℕ × Body) → ℕ → Body → Bool) where
  Step-SavedIsValid :
      {s t : Store Body} → Step accepts s t → TableIsValid s.runs → SavedIsValid s → SavedIsValid t
  Step-SavedIsValid (claimed worker_id lease_seconds at locked store got after h) v sv =
      let (_, follows) =
        Step-Evolves accepts (claimed worker_id lease_seconds at locked store got after h) v in
      record { ended = saved-IsEnded store.runs after store.saved follows sv.ended; once = sv.once }
  Step-SavedIsValid (failed id worker_id generation error_code message now store after h) v sv =
      let (_, follows) =
        Step-Evolves accepts (failed id worker_id generation error_code message now store after h)
          v in
      record { ended = saved-IsEnded store.runs after store.saved follows sv.ended; once = sv.once }
  Step-SavedIsValid
        (completed id worker_id generation result completed_at selected updated store after h) v
        sv =
      let (owner, run, _, _, held) =
        complete_claimed_run-eq-ok accepts id worker_id generation result completed_at selected
          updated store h in
      let (_, present, e) =
        complete_held-eq-ok accepts run id owner generation result completed_at updated store
          held in
      let (_, follows) =
        Step-Evolves accepts
          (completed id worker_id generation result completed_at selected updated store after h)
          v in
      let (mine, found) = find-present (holds id owner generation updated) store.runs present in
      let follows' = rw e at follows in
      rw e (record {
        ended =
            All-append (λ (x : ℕ × Body). IsEnded _ x.0) store.saved ((id, result.body) ∷ [])
              (saved-IsEnded store.runs _ store.saved follows' sv.ended)
              (
                finished-IsEnded result id owner generation updated completed_at store.runs v found,
                tt,
              );
        once =
            IsOnce-snoc store.saved (id, result.body) sv.once
              (unsaved id owner generation updated store sv found);
      })

  -- Whatever the workers do, no run gets two saved results, and every run with a saved result has
  -- ended for good.
  pub Reach-SavedIsValid :
      {s t : Store Body} → TableIsValid s.runs → SavedIsValid s → Reach accepts s t → SavedIsValid t
  Reach-SavedIsValid v sv here = sv
  Reach-SavedIsValid v sv (next r st) =
      let (valid, _) = Reach-Follows accepts v r in
      Step-SavedIsValid st valid (Reach-SavedIsValid v sv r)
