-- ===== src/Coverage/Replace.antt =====
-- replace_coverage_with_classification of coverage_transition.py. A row of `coverage_intervals` is
-- a half-open range of instants with what is known of it; the two advisory locks make the call
-- atomic, so it is a function of the tables. `Evidence` is the type of the JSON documents, and
-- `checksum` the hash of the transition's description.
pub mod Table
pub mod Changes
pub mod Events
pub mod Log
pub mod Call
use Prim.Native.String.{String}
use text.Mathlib.Text.{◌==◌ as str_eq}
use goodmoneying.Prelude.{
  ℕ, ◌+◌, min, max, Bool, true, false, not, ◌&&◌, ◌||◌, Option, none, some, List, [], ◌∷◌, ◌++◌,
  ltb, leb, ◌==◌, if◌then◌else◌, any, keep,
}
use goodmoneying.Prelude.Sort.{sort_by}
use goodmoneying.Coverage.State.{CoverageState, state_eq}

-- What an interval says of its range.
pub record Assessment (Evidence : Type 0) : Type 0 where
  pub status : CoverageState
  pub evidence : Evidence
  pub fetch_manifest_id : Option ℕ
  pub assessed_at : ℕ

pub record Interval (Evidence : Type 0) : Type 0 where
  pub target_spec_id : ℕ
  pub range_start_at : ℕ
  pub range_end_at : ℕ
  pub assessment : Assessment Evidence

-- The call's arguments, but for the clock.
pub record Request (Evidence : Type 0) : Type 0 where
  pub target_spec_id : ℕ
  pub range_start_at : ℕ
  pub range_end_at : ℕ
  pub status : CoverageState
  pub reason_code : String
  pub manifest_id : Option ℕ
  pub evidence : Evidence

-- A previous status, `None` where nothing was recorded, and the part of the range that had it.
pub record Transition : Type 0 where
  pub previous_status : Option CoverageState
  pub start_at : ℕ
  pub end_at : ℕ

abbrev pub Range : Type 0
Range = ℕ × ℕ

module _ {Evidence : Type 0} (q : Request Evidence) where
  -- `target_spec_id = %s AND tstzrange(…) && tstzrange(…)`
  abbrev pub overlaps : Interval Evidence → Bool
  overlaps r =
      (r.target_spec_id == q.target_spec_id)
      && ltb r.range_start_at q.range_end_at
      && ltb q.range_start_at r.range_end_at

  abbrev pub transition_start : Interval Evidence → ℕ
  transition_start r = max r.range_start_at q.range_start_at

  abbrev pub transition_end : Interval Evidence → ℕ
  transition_end r = min r.range_end_at q.range_end_at

  -- The rows that one overlap gives back: what lies before the range, and what lies behind it.
  abbrev pub preserve : Interval Evidence → ℕ → ℕ → List (Interval Evidence)
  preserve r preserved_start preserved_end =
      if leb preserved_end preserved_start
      then []
      else record {
        target_spec_id = q.target_spec_id;
        range_start_at = preserved_start;
        range_end_at = preserved_end;
        assessment = r.assessment;
      }
        ∷ []

  unfoldable pub preserved : Interval Evidence → List (Interval Evidence)
  preserved r =
      preserve r r.range_start_at (min r.range_end_at q.range_start_at)
      ++ preserve r (max r.range_start_at q.range_end_at) r.range_end_at

  unfoldable pub preserved_rows : List (Interval Evidence) → List (Interval Evidence)
  preserved_rows [] = []
  preserved_rows (r ∷ rows) = preserved r ++ preserved_rows rows

  unfoldable pub covered_ranges : List (Interval Evidence) → List Range
  covered_ranges [] = []
  covered_ranges (r ∷ rows) =
      let rest = covered_ranges rows in
      if ltb (transition_start r) (transition_end r)
      then (transition_start r, transition_end r) ∷ rest
      else rest

  -- The transitions out of another status.
  unfoldable pub changed : List (Interval Evidence) → List Transition
  changed [] = []
  changed (r ∷ rows) =
      let rest = changed rows in
      if not (state_eq r.assessment.status q.status) && ltb (transition_start r) (transition_end r)
      then record {
        previous_status = some r.assessment.status;
        start_at = transition_start r;
        end_at = transition_end r;
      }
        ∷ rest
      else rest

-- The second loop: the transitions out of nothing.
abbrev pub uncovered : ℕ → ℕ → List Transition
uncovered start_at end_at =
    if ltb start_at end_at
    then record { previous_status = none; start_at = start_at; end_at = end_at } ∷ []
    else []

unfoldable pub sweep : ℕ → ℕ → List Range → List Transition
sweep uncovered_start range_end [] = uncovered uncovered_start range_end
sweep uncovered_start range_end ((covered_start, covered_end) ∷ ranges) =
    uncovered uncovered_start covered_start
    ++ sweep (max uncovered_start covered_end) range_end ranges

module _ {Evidence : Type 0} (q : Request Evidence) where
  -- `SELECT … ORDER BY range_start_at`
  unfoldable pub selected : List (Interval Evidence) → List (Interval Evidence)
  unfolding sort_by
  selected table = sort_by (λ r. r.range_start_at) (keep (overlaps q) table)

  unfoldable pub transitions : List (Interval Evidence) → List Transition
  unfolding changed sweep covered_ranges selected
  transitions table =
      changed q (selected table)
      ++ sweep q.range_start_at q.range_end_at (covered_ranges q (selected table))

  abbrev pub new_assessment : ℕ → Assessment Evidence
  new_assessment assessed_at = record {
    status = q.status;
    evidence = q.evidence;
    fetch_manifest_id = q.manifest_id;
    assessed_at = assessed_at;
  }

  abbrev pub new_interval : ℕ → Interval Evidence
  new_interval assessed_at = record {
    target_spec_id = q.target_spec_id;
    range_start_at = q.range_start_at;
    range_end_at = q.range_end_at;
    assessment = new_assessment assessed_at;
  }

  -- The table `coverage_intervals` after the call.
  unfoldable pub replace_intervals : ℕ → List (Interval Evidence) → List (Interval Evidence)
  unfolding preserved_rows preserved selected
  replace_intervals assessed_at table =
      keep (λ r. not (overlaps q r)) table
      ++ preserved_rows q (selected table)
      ++ new_interval assessed_at ∷ []
