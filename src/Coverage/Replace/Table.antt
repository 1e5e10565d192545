-- ===== src/Coverage/Replace/Table.antt =====
-- What the table of intervals says of every instant after a replacement.
use goodmoneying.Prelude.{
  ℕ, ◌≡◌, refl, ap, ◌∙◌, min, max, inl, inr, Bool, true, not, ◌&&◌, ◌||◌, List, [], ◌∷◌, ◌++◌,
  arith, ltb, leb, ◌==◌, if◌then◌else◌, Bool-cases, All, All-always, any, keep,
}
use goodmoneying.Prelude.Sort.{
  any-append, any-keep, any-or, any-and, any-congr, any-sort_by, All-sort_by,
}
use goodmoneying.Coverage.Replace.{
  Assessment, Interval, Request, overlaps, preserve, preserved, preserved_rows, selected,
  new_assessment, new_interval, replace_intervals,
}

module _ {Evidence : Type 0} where
  abbrev pub contains : ℕ → Interval Evidence → Bool
  contains t r = leb r.range_start_at t && ltb t r.range_end_at

  -- Some row of the target `spec` covers the instant `t`, with an assessment that passes `p`.
  abbrev pub says : ℕ → ℕ → (Assessment Evidence → Bool) → Interval Evidence → Bool
  says spec t p r = (r.target_spec_id == spec) && contains t r && p r.assessment

  abbrev pub recorded : ℕ → ℕ → (Assessment Evidence → Bool) → List (Interval Evidence) → Bool
  recorded spec t p = any (says spec t p)

  -- The instants that a request is about.
  abbrev pub concerns : Request Evidence → ℕ → ℕ → Bool
  concerns q spec t = (q.target_spec_id == spec) && leb q.range_start_at t && ltb t q.range_end_at

module _ {Evidence : Type 0} (q : Request Evidence) (spec t : ℕ)
    (p : Assessment Evidence → Bool) where
  -- A preserved piece says what its row said, on the piece.
  any-preserve :
      (r : Interval Evidence)
      → (start_at end_at : ℕ)
      → any (says spec t p) (preserve q r start_at end_at)
        ≡ ((q.target_spec_id == spec) && (leb start_at t && ltb t end_at) && p r.assessment)
  any-preserve r start_at end_at = ground arith

  -- What is left of an overlap says what it said, outside the request's range.
  any-preserved :
      (r : Interval Evidence)
      → overlaps q r ≡ true
      → any (says spec t p) (preserved q r) ≡ (not (concerns q spec t) && says spec t p r)
  unfolding preserved
  any-preserved r h =
      any-append (says spec t p)
        (preserve q r r.range_start_at (min r.range_end_at q.range_start_at))
        (preserve q r (max r.range_start_at q.range_end_at) r.range_end_at)
      ∙ ground (
        arith,
        any-preserve r r.range_start_at (min r.range_end_at q.range_start_at),
        any-preserve r (max r.range_start_at q.range_end_at) r.range_end_at,
      )

  any-preserved_rows :
      (rows : List (Interval Evidence))
      → All (λ r. overlaps q r ≡ true) rows
      → any (says spec t p) (preserved_rows q rows)
        ≡ any (λ r. not (concerns q spec t) && says spec t p r) rows
  unfolding preserved_rows
  any-preserved_rows [] h = refl
  any-preserved_rows (r ∷ rows) h =
      any-append (says spec t p) (preserved q r) (preserved_rows q rows)
      ∙ ground (arith, any-preserved r h.0, any-preserved_rows rows h.1)

  keep-passes :
      (b : Interval Evidence → Bool) (rows : List (Interval Evidence))
      → All (λ r. b r ≡ true) (keep b rows)
  keep-passes b [] = tt
  keep-passes b (r ∷ rows) = elim (Bool-cases (b r)) [
    | inl passed ↦ rw passed (passed, keep-passes b rows)
    | inr failed ↦ rw failed (keep-passes b rows)
  ]

  -- The overlaps and the other rows, put together again.
  replaced-row :
      (r : Interval Evidence)
      → ((not (overlaps q r) && says spec t p r)
          || (overlaps q r && (not (concerns q spec t) && says spec t p r)))
        ≡ (not (concerns q spec t) && says spec t p r)
  replaced-row r = ground arith

  abbrev outside : Interval Evidence → Bool
  outside r = not (concerns q spec t) && says spec t p r

  any-selected :
      (table : List (Interval Evidence))
      → any (says spec t p) (preserved_rows q (selected q table))
        ≡ any (λ r. overlaps q r && outside r) table
  unfolding selected
  any-selected table =
      let overlapping : All (λ r. overlaps q r ≡ true) (selected q table) =
        All-sort_by (λ r. r.range_start_at) (λ r. overlaps q r ≡ true) (keep (overlaps q) table)
          (keep-passes (overlaps q) table) in
      any-preserved_rows (selected q table) overlapping
      ∙ any-sort_by (λ r. r.range_start_at) outside (keep (overlaps q) table)
      ∙ any-keep outside (overlaps q) table

  replaced_rows :
      (table : List (Interval Evidence))
      → (any (says spec t p) (keep (λ r. not (overlaps q r)) table)
          || any (says spec t p) (preserved_rows q (selected q table)))
        ≡ (not (concerns q spec t) && recorded spec t p table)
  unfolding selected
  replaced_rows table =
      ap (λ b. b || any (says spec t p) (preserved_rows q (selected q table)))
        (any-keep (says spec t p) (λ r. not (overlaps q r)) table)
      ∙ ap (λ b. any (λ r. not (overlaps q r) && says spec t p r) table || b) (any-selected table)
      ∙ any-or (λ r. not (overlaps q r) && says spec t p r)
          (λ r. overlaps q r && (not (concerns q spec t) && says spec t p r)) table
      ∙ any-congr _ outside table (All-always _ table replaced-row)
      ∙ any-and (not (concerns q spec t)) (says spec t p) table

-- After a replacement of a non-empty range the table says of every instant of the range what the
-- request says, and of every other instant and target what it said before.
pub replace_intervals-recorded :
    {Evidence : Type 0}
    → (q : Request Evidence) → (assessed_at : ℕ) → (table : List (Interval Evidence)) → (spec t : ℕ)
    → (p : Assessment Evidence → Bool)
    → recorded spec t p (replace_intervals q assessed_at table)
      ≡ (if concerns q spec t then p (new_assessment q assessed_at) else recorded spec t p table)
unfolding replace_intervals
replace_intervals-recorded q assessed_at table spec t p =
    let untouched = keep (λ r. not (overlaps q r)) table in
    let pieces = preserved_rows q (selected q table) in
    any-append (says spec t p) (untouched ++ pieces) (new_interval q assessed_at ∷ [])
    ∙ ap (λ b. b || any (says spec t p) (new_interval q assessed_at ∷ []))
        (any-append (says spec t p) untouched pieces)
    ∙ ground (arith, replaced_rows q spec t p table)
