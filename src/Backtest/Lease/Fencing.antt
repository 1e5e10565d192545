-- ===== src/Backtest/Lease/Fencing.antt =====
-- The generation of a lease as a fencing token.
use Prim.Native.String.{String}
use goodmoneying.Prelude.{
  ℕ, ◌≡◌, sym, ap, ◌∙◌, ◌≤◌, ◌<◌, ◌≢◌, Bool, some, List, arith, All, All-imp, All-mem, find,
  find-some,
}
use goodmoneying.Prelude.Results.{ok}
use goodmoneying.Backtest.Lease.{
  Run, Readings, RunResult, Store, holds, claim_next_run, complete_claimed_run, fail_claimed_run,
}
use goodmoneying.Backtest.Lease.Rows.{Rowwise, All-Rowwise, IsKeyed-unique}
use goodmoneying.Backtest.Lease.Valid.{TableIsValid}
use goodmoneying.Backtest.Lease.Seal.{Follows}
use goodmoneying.Backtest.Lease.Claim.{claim_next_run-Outcome}
use goodmoneying.Backtest.Lease.Commits.{complete_claimed_run-eq-ok, fail_claimed_run-eq-ok}
use goodmoneying.Backtest.Lease.History.{Reach, Reach-Follows}

-- Every lease of the run `id` from before `bound` is over.
abbrev Superseded : ℕ → ℕ → List Run → Type 0
Superseded id bound = All (λ r. r.id ≡ id → bound ≤ r.lease_generation)

Superseded-Rowwise :
    (id bound : ℕ) (xs ys : List Run)
    → Rowwise Follows xs ys
    → Superseded id bound xs
    → Superseded id bound ys
Superseded-Rowwise id bound xs ys =
    All-Rowwise Follows (λ r. r.id ≡ id → bound ≤ r.lease_generation)
      (λ r. r.id ≡ id → bound ≤ r.lease_generation)
      (λ a b f old same. let low = old (sym f.same_id ∙ same) in let up = f.grows in omega arith) xs
      ys

holds-fresh :
    (id bound : ℕ) (owner : String) (generation now : ℕ) (runs : List Run) {run : Run}
    → Superseded id bound runs
    → find (holds id owner generation now) runs ≡ some run
    → bound ≤ generation
holds-fresh id bound owner generation now runs {run} old found =
    let (there, held) = find-some (holds id owner generation now) runs found in
    let late =
      All-mem (λ r. r.id ≡ id → bound ≤ r.lease_generation) runs old there (ground arith) in
    ground arith

module _ {Body : Type 0} (accepts : List (ℕ × Body) → ℕ → Body → Bool) where
  -- No call under the generation `generation` of the run `id` commits on the store.
  pub record IsFenced (id generation : ℕ) (t : Store Body) : Type 0 where
    pub cannot_complete :
        (worker_id : String) (result : RunResult Body) (completed_at selected updated : ℕ)
        (after : Store Body)
        → complete_claimed_run accepts id worker_id generation result completed_at selected updated
            t
          ≢ ok after
    pub cannot_fail :
        (worker_id error_code message : String) (now : ℕ) (after : List Run)
        → fail_claimed_run id worker_id generation error_code message now t.runs ≢ ok after

  Superseded-IsFenced :
      (id bound generation : ℕ) (t : Store Body)
      → Superseded id bound t.runs
      → generation < bound
      → IsFenced id generation t
  Superseded-IsFenced id bound generation t old stale = record {
    cannot_complete = λ worker_id result completed_at selected updated after h.
        let (owner, run, _, read, _) =
          complete_claimed_run-eq-ok accepts id worker_id generation result completed_at selected
            updated t h in
        let late = holds-fresh id bound owner generation selected t.runs old read in omega arith;
    cannot_fail = λ worker_id error_code message now after h.
        let (owner, _, _, _, _, read, _) =
          fail_claimed_run-eq-ok id worker_id generation error_code message now t.runs h in
        let late = holds-fresh id bound owner generation now t.runs old read in omega arith;
  }

  -- Once a run has been leased out again, no worker can complete it or fail it under an earlier
  -- generation, whatever happens in between.
  pub claim-IsFenced :
      (worker_id : String) (lease_seconds : ℕ) (at : Readings) (locked : Run → Bool)
      (s t : Store Body) (r : Run) (after : List Run) (generation : ℕ)
      → TableIsValid s.runs
      → claim_next_run worker_id lease_seconds at locked s.runs ≡ ok (some r, after)
      → Reach accepts (record s { runs = after }) t
      → generation < r.lease_generation
      → IsFenced r.id generation t
  claim-IsFenced worker_id lease_seconds at locked s t r after generation v h later stale =
      let (_, _, valid, (_, _, _, there), _) =
        claim_next_run-Outcome worker_id lease_seconds at locked s.runs v h in
      let (_, follows) = Reach-Follows accepts valid later in
      Superseded-IsFenced r.id r.lease_generation generation t
        (Superseded-Rowwise r.id r.lease_generation after t.runs follows (
          All-imp (λ x. x.id ≡ r.id → x ≡ r) _ after
            (λ x unique same.
              let e = unique same in omega (arith, ap (λ (y : Run). y.lease_generation) e))
            (IsKeyed-unique after valid.keyed there)))
        stale
