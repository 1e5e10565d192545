-- ===== src/Coverage/Replace/Changes.antt =====
-- The transitions that a replacement records, compared with what the table said before.
use goodmoneying.Prelude.{
  ℕ, ◌≡◌, refl, ◌∙◌, ◌≤◌, ◌<◌, max, inl, inr, Bool, true, false, not, ◌&&◌, ◌||◌, Option, none,
  some, List, [], ◌∷◌, arith, ltb, leb, ◌==◌, Bool-cases, All, any, keep,
}
use goodmoneying.Prelude.Sort.{any-append, any-keep, any-sort_by, IsSorted, sort_by-IsSorted}
use goodmoneying.Coverage.State.{CoverageState, state_eq}
use goodmoneying.Coverage.Replace.{
  Interval, Range, Request, Transition, overlaps, transition_start, transition_end, covered_ranges,
  changed, uncovered, sweep, selected, transitions,
}
use goodmoneying.Coverage.Replace.Table.{contains, recorded, concerns}

abbrev pub lies_in : ℕ → Range → Bool
lies_in t (start_at, end_at) = leb start_at t && ltb t end_at

abbrev was : CoverageState → Option CoverageState → Bool
was s none = false
was s (some previous) = state_eq previous s

abbrev is_none : Option CoverageState → Bool
is_none none = true
is_none (some _) = false

-- A recorded transition out of the state `s` at the instant `t`, or out of nothing.
abbrev pub leaves : CoverageState → ℕ → Transition → Bool
leaves s t change = was s change.previous_status && lies_in t (change.start_at, change.end_at)

abbrev pub appears : ℕ → Transition → Bool
appears t change = is_none change.previous_status && lies_in t (change.start_at, change.end_at)

module _ (t : ℕ) where
  any-uncovered : (a b : ℕ) → any (appears t) (uncovered a b) ≡ lies_in t (a, b)
  any-uncovered a b = ground arith

  none_before :
      (a : ℕ) (ranges : List Range)
      → All (λ r. a ≤ r.0) ranges
      → t < a
      → any (lies_in t) ranges ≡ false
  none_before a [] h less = refl
  none_before a (r ∷ ranges) h less = ground (arith, none_before a ranges h.1 less)

  sweep-step :
      (u e a b : ℕ) (rest : Bool)
      → a ≤ e
      → (t < a → rest ≡ false)
      → (lies_in t (u, a) || (lies_in t (max u b, e) && not rest))
        ≡ (lies_in t (u, e) && not (lies_in t (a, b) || rest))
  sweep-step u e a b true le before = ground arith
  sweep-step u e a b false le before = ground arith

  -- Between sorted ranges, the second loop finds what none of them covers.
  any-sweep :
      (u e : ℕ) (ranges : List Range)
      → IsSorted (λ r. r.0) ranges
      → All (λ r. r.0 ≤ e) ranges
      → any (appears t) (sweep u e ranges) ≡ (lies_in t (u, e) && not (any (lies_in t) ranges))
  unfolding sweep
  any-sweep u e [] sorted bounded = ground (arith, any-uncovered u e)
  any-sweep u e ((a, b) ∷ ranges) sorted bounded =
      any-append (appears t) (uncovered u a) (sweep (max u b) e ranges)
      ∙ ground (
        arith,
        any-uncovered u a,
        any-sweep (max u b) e ranges sorted.1 bounded.1,
        sweep-step u e a b (any (lies_in t) ranges) bounded.0 (none_before a ranges sorted.0),
      )

module _ {Evidence : Type 0} (q : Request Evidence) (t : ℕ) where
  abbrev within : Bool
  within = leb q.range_start_at t && ltb t q.range_end_at

  any-covered :
      (rows : List (Interval Evidence))
      → any (lies_in t) (covered_ranges q rows) ≡ (within && any (contains t) rows)
  unfolding covered_ranges
  any-covered [] = ground arith
  any-covered (r ∷ rows) = ground (arith, any-covered rows)

  any-changed-leaves :
      (s : CoverageState)
      → (rows : List (Interval Evidence))
      → any (leaves s t) (changed q rows) ≡ (
          within
          && any
              (λ r.
                contains t r
                && (state_eq r.assessment.status s && not (state_eq r.assessment.status q.status)))
              rows)
  unfolding changed
  any-changed-leaves s [] = ground arith
  any-changed-leaves s (r ∷ rows) = ground (arith, any-changed-leaves s rows)

  any-changed-appears : (rows : List (Interval Evidence)) → any (appears t) (changed q rows) ≡ false
  unfolding changed
  any-changed-appears [] = refl
  any-changed-appears (r ∷ rows) = ground (arith, any-changed-appears rows)

  any-sweep-leaves :
      (s : CoverageState) (u e : ℕ) (ranges : List Range)
      → any (leaves s t) (sweep u e ranges) ≡ false
  unfolding sweep
  any-sweep-leaves s u e [] = ground arith
  any-sweep-leaves s u e ((a, b) ∷ ranges) =
      any-append (leaves s t) (uncovered u a) (sweep (max u b) e ranges)
      ∙ ground (arith, any-sweep-leaves s (max u b) e ranges)

  covered-starts :
      (a : ℕ) (rows : List (Interval Evidence))
      → All (λ r. a ≤ r.range_start_at) rows
      → All (λ c. max a q.range_start_at ≤ c.0) (covered_ranges q rows)
  unfolding covered_ranges
  covered-starts a [] h = tt
  covered-starts a (r ∷ rows) h =
      elim (Bool-cases (ltb (transition_start q r) (transition_end q r))) [
        | inl some_time ↦ rw some_time (ground arith, covered-starts a rows h.1)
        | inr no_time ↦ rw no_time (covered-starts a rows h.1)
      ]

  covered-IsSorted :
      (rows : List (Interval Evidence))
      → IsSorted (λ r. r.range_start_at) rows
      → IsSorted (λ c. c.0) (covered_ranges q rows)
  unfolding covered_ranges
  covered-IsSorted [] h = tt
  covered-IsSorted (r ∷ rows) h =
      elim (Bool-cases (ltb (transition_start q r) (transition_end q r))) [
        | inl some_time ↦
            rw some_time (covered-starts r.range_start_at rows h.0, covered-IsSorted rows h.1)
        | inr no_time ↦ rw no_time (covered-IsSorted rows h.1)
      ]

  covered-bounded :
      (rows : List (Interval Evidence)) → All (λ c. c.0 ≤ q.range_end_at) (covered_ranges q rows)
  unfolding covered_ranges
  covered-bounded [] = tt
  covered-bounded (r ∷ rows) = elim (Bool-cases (ltb (transition_start q r) (transition_end q r))) [
    | inl some_time ↦ rw some_time (ground arith, covered-bounded rows)
    | inr no_time ↦ rw no_time (covered-bounded rows)
  ]

  any-selected :
      (p : Interval Evidence → Bool) (table : List (Interval Evidence))
      → any p (selected q table) ≡ any (λ r. overlaps q r && p r) table
  unfolding selected
  any-selected p table =
      any-sort_by (λ r. r.range_start_at) p (keep (overlaps q) table)
      ∙ any-keep p (overlaps q) table

  selected-IsSorted :
      (table : List (Interval Evidence)) → IsSorted (λ r. r.range_start_at) (selected q table)
  unfolding selected
  selected-IsSorted table = sort_by-IsSorted (λ r. r.range_start_at) (keep (overlaps q) table)

  -- A row that covers an instant of the range overlaps with the range.
  overlapping-at :
      (p : Interval Evidence → Bool) (table : List (Interval Evidence))
      → (within && any (λ r. overlaps q r && (contains t r && p r)) table)
        ≡ (within && any (λ r. (r.target_spec_id == q.target_spec_id) && contains t r && p r) table)
  overlapping-at p [] = refl
  overlapping-at p (r ∷ table) = ground (arith, overlapping-at p table)

  -- What leaves a state.
  transitions-leaves :
      (s : CoverageState) (table : List (Interval Evidence))
      → any (leaves s t) (transitions q table) ≡ (
          concerns q q.target_spec_id t
          && recorded q.target_spec_id t
              (λ a. state_eq a.status s && not (state_eq a.status q.status))
              table)
  unfolding transitions
  transitions-leaves s table =
      any-append (leaves s t) (changed q (selected q table)) _
      ∙ ground (
        arith,
        any-changed-leaves s (selected q table),
        any-sweep-leaves s q.range_start_at q.range_end_at (covered_ranges q (selected q table)),
        any-selected
            (λ r.
              contains t r
              && (state_eq r.assessment.status s && not (state_eq r.assessment.status q.status)))
            table,
        overlapping-at _ table,
      )

  -- What nothing was recorded of.
  transitions-appears :
      (table : List (Interval Evidence))
      → any (appears t) (transitions q table)
        ≡ (concerns q q.target_spec_id t && not (recorded q.target_spec_id t (λ _. true) table))
  unfolding transitions
  transitions-appears table =
      let rows = selected q table in
      any-append (appears t) (changed q rows) _
      ∙ ground (
        arith,
        any-changed-appears rows,
        any-sweep t q.range_start_at q.range_end_at (covered_ranges q rows)
            (covered-IsSorted rows (selected-IsSorted table)) (covered-bounded rows),
        any-covered rows,
        any-selected (contains t) table,
      )

  -- The transitions that a replacement computes have one by which an instant becomes known exactly if the instant
  -- is in the range of the request and nothing was recorded of it, and one by which it leaves a state exactly if it
  -- is in the range, the table had it in that state and the state is not the new one.
  pub transitions_iff :
      (table : List (Interval Evidence))
      → (any (appears t) (transitions q table)
          ≡ (concerns q q.target_spec_id t && not (recorded q.target_spec_id t (λ _. true) table)))
        × ((s : CoverageState)
            → any (leaves s t) (transitions q table) ≡ (
                concerns q q.target_spec_id t
                && recorded q.target_spec_id t
                    (λ a. state_eq a.status s && not (state_eq a.status q.status))
                    table))
  transitions_iff table = (transitions-appears table, λ s. transitions-leaves s table)
