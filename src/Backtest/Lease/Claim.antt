-- ===== src/Backtest/Lease/Claim.antt =====
-- What a claim does: which run it leases, and that the table stays valid.
use Prim.Native.String.{String}
use mathlib.Core.List.{Memᴰ}
use mathlib.Core.Path.{subst}
use goodmoneying.Prelude.{
  ℕ, ◌≡◌, refl, ◌<◌, ◌+◌, inl, inr, Bool, true, false, not, ◌&&◌, Option, none, some, List, arith,
  All, All-imp, All-both, All-always, All-mem, find, find-some, find-eq-none, Option-cases,
}
use goodmoneying.Prelude.Text.{is_trimmed_away}
use goodmoneying.Prelude.Query.{
  IsRowOrder, IsFirst, select_first, select_first-IsFirst, select_first-none,
}
use goodmoneying.Prelude.Results.{ok, bind-returned}
use goodmoneying.Backtest.Lease.{
  Run, is_claimable, is_earlier, is_chosen, lease, Readings, swept, is_exhausted, bury,
  claim_chosen, claim_from, claim_next_run, non_blank,
}
use goodmoneying.Backtest.Lease.Rows.{
  IsKeyed-unique, mem-update, Rowwise, Rowwise-refl, Rowwise-trans, Rowwise-update,
}
use goodmoneying.Backtest.Lease.Seal.{
  Follows, Follows-refl, Follows-trans, bury-Follows, lease-Follows,
}
use goodmoneying.Backtest.Lease.Valid.{
  non_blank-not_trimmed_away, IsValid, TableIsValid, update-TableIsValid, swept-TableIsValid,
  leased-IsValid,
}

is_earlier-IsRowOrder : IsRowOrder is_earlier
is_earlier-IsRowOrder = record {
  irrefl = λ a. ground arith;
  asym = λ a b h. ground arith;
  trans = λ a b c h k. ground arith;
}

-- The rows that a claim may choose.
abbrev pub is_open : ℕ → (Run → Bool) → Run → Bool
is_open select locked r = is_claimable select r && not (locked r)

-- A successful call is its two checks and the transaction.
claim_next_run-eq-ok :
    (worker_id : String) (lease_seconds : ℕ) (at : Readings) (locked : Run → Bool)
    (table : List Run) {got : Option Run} {after : List Run}
    → claim_next_run worker_id lease_seconds at locked table ≡ ok (got, after)
    → (owner : String) × (non_blank worker_id ≡ ok owner)
      × (0 < lease_seconds)
      × (claim_from owner lease_seconds at locked (swept at.sweep table) ≡ (got, after))
unfolding claim_next_run
claim_next_run-eq-ok worker_id lease_seconds at locked table h =
    let (owner, rest, named) = bind-returned (non_blank worker_id) _ h in
    (owner, named, ground arith, ground arith)

-- What a claim makes of a table, given the row that it hands out.
abbrev pub Outcome :
    String → ℕ → Readings → (Run → Bool) → List Run → Option Run → List Run → Type 0
Outcome owner lease_seconds at locked table none after =
    (after ≡ table) × All (λ r. is_open at.select locked r ≡ false) table
Outcome owner lease_seconds at locked table (some r) after =
    (run : Run) × IsFirst is_earlier (is_open at.select locked) table run
    × (r ≡ lease owner lease_seconds (run.lease_generation + 1) at.update run)
    × Memᴰ r after

module _ (owner : String) (lease_seconds : ℕ) (at : Readings) (locked : Run → Bool)
    (table : List Run) (named : is_trimmed_away owner ≡ false) (v : TableIsValid table) where
  chosen-TableIsValid :
      (run : Run)
      → IsFirst is_earlier (is_open at.select locked) table run
      → TableIsValid (claim_chosen owner lease_seconds at (some run) table).1
  unfolding claim_chosen
  chosen-TableIsValid run first =
      let generation = run.lease_generation + 1 in
      let claimable : is_claimable at.select run ≡ true = ground (arith, first.passes) in
      update-TableIsValid (is_chosen run) (lease owner lease_seconds generation at.update) table v
        (All-always _ table (λ r. ground arith))
        (All-imp (λ r. IsValid r × (r.id ≡ run.id → r ≡ run)) _ table
          (λ r h.
            leased-IsValid owner lease_seconds at.update at.select run r named h.0 h.1 claimable)
          (All-both _ _ table v.rows (IsKeyed-unique table v.keyed first.listed)))

  -- The first row of the table with the key of the chosen one is the chosen one.
  find-chosen : (run : Run) → Memᴰ run table → find (is_chosen run) table ≡ some run
  find-chosen run m = elim (Option-cases (find (is_chosen run) table)) [
    | inl nothing ↦ absurd (chosen≢none nothing)
    | inr (r, found) ↦
        let (there, chosen) = find-some (is_chosen run) table found in
        let same : r ≡ run =
          All-mem (λ s. s.id ≡ run.id → s ≡ run) table (IsKeyed-unique table v.keyed m) there
            (ground arith) in
        rw same at found
  ]
    where
      chosen≢none : ¬ (find (is_chosen run) table ≡ none)
      chosen≢none e =
          let missed : is_chosen run run ≡ false =
            All-mem (λ s. is_chosen run s ≡ false) table (find-eq-none (is_chosen run) table e) m in
          ground arith

  chosen-Outcome :
      (run : Run)
      → IsFirst is_earlier (is_open at.select locked) table run
      → let (got, after) = claim_chosen owner lease_seconds at (some run) table in
        Outcome owner lease_seconds at locked table got after
  unfolding claim_chosen
  chosen-Outcome run first =
      let generation = run.lease_generation + 1 in
      let update = lease owner lease_seconds generation at.update in
      let written = mem-update (is_chosen run) update table first.listed in
      let itself : is_chosen run run ≡ true = ground arith in
      rw (find-chosen run first.listed) (run, first, refl, rw itself at written)

  chosen-Follows :
      (run : Run)
      → IsFirst is_earlier (is_open at.select locked) table run
      → Rowwise Follows table (claim_chosen owner lease_seconds at (some run) table).1
  unfolding claim_chosen
  chosen-Follows run first =
      let claimable : is_claimable at.select run ≡ true = ground (arith, first.passes) in
      Rowwise-update (is_chosen run) _ Follows table (
        All-imp (λ r. r.id ≡ run.id → r ≡ run) _ table
          (λ r unique. lease-Follows owner lease_seconds at.update at.select run r unique claimable)
          (IsKeyed-unique table v.keyed first.listed))

  abbrev IsGood : Option Run × List Run → Type 0
  IsGood (got, after) =
      Outcome owner lease_seconds at locked table got after
      × TableIsValid after
      × Rowwise Follows table after

  selected :
      (o : Option Run)
      → select_first is_earlier (is_open at.select locked) table ≡ o
      → IsGood (claim_chosen owner lease_seconds at o table)
  unfolding claim_chosen
  selected none e =
      ((refl, select_first-none is_earlier _ table e), v, Rowwise-refl Follows table Follows-refl)
  selected (some run) e =
      let first = select_first-IsFirst is_earlier-IsRowOrder _ table e in
      (chosen-Outcome run first, chosen-TableIsValid run first, chosen-Follows run first)

  claim_from_lem : IsGood (claim_from owner lease_seconds at locked table)
  unfolding claim_from
  claim_from_lem = selected _ refl

swept-Follows : (now : ℕ) (table : List Run) → Rowwise Follows table (swept now table)
swept-Follows now table =
    Rowwise-update (is_exhausted now) (bury now) Follows table
      (All-always _ table (bury-Follows now))

-- A claim, on a valid table: the table stays valid. If a run is given out, it is the first of the
-- claimable and unlocked runs after the sweep, by request time and id, with its lease renewed; if
-- none is, there was none, and the table is only swept.
pub claim_next_run-Outcome :
    (worker_id : String) (lease_seconds : ℕ) (at : Readings) (locked : Run → Bool)
    (table : List Run) {got : Option Run} {after : List Run}
    → TableIsValid table
    → claim_next_run worker_id lease_seconds at locked table ≡ ok (got, after)
    → (owner : String) × (non_blank worker_id ≡ ok owner)
      × TableIsValid after
      × Outcome owner lease_seconds at locked (swept at.sweep table) got after
      × Rowwise Follows table after
claim_next_run-Outcome worker_id lease_seconds at locked table {got} {after} v h =
    let (owner, named, positive, e) =
      claim_next_run-eq-ok worker_id lease_seconds at locked table h in
    let swept_valid = swept-TableIsValid at.sweep table v in
    let (outcome, valid, follows) =
      subst
        (IsGood owner lease_seconds at locked (swept at.sweep table)
          (non_blank-not_trimmed_away worker_id named) swept_valid)
        e
        (claim_from_lem owner lease_seconds at locked _ (non_blank-not_trimmed_away worker_id named)
          swept_valid) in
    (
      owner,
      named,
      valid,
      outcome,
      Rowwise-trans Follows Follows-trans table (swept at.sweep table) after
          (swept-Follows at.sweep table) follows,
    )
