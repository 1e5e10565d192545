-- ===== src/Coverage/Replace/Events.antt =====
-- The rest of replace_coverage_with_classification in coverage_transition.py: its early returns and
-- the events that it records. `data_quality_events` is unique in (target_spec_id, fingerprint), and
-- `ON CONFLICT DO NOTHING` leaves the log as it is where a row with that key stands.
use Prim.Native.String.{String}
use text.Mathlib.Text.{◌==◌ as str_eq}
use goodmoneying.Prelude.{
  ℕ, ◌+◌, Bool, ◌&&◌, Option, none, some, List, [], ◌∷◌, ◌++◌, leb, ◌==◌, if◌then◌else◌, any,
}
use goodmoneying.Coverage.State.{CoverageState}
use goodmoneying.Coverage.Replace.{Interval, Request, Transition, transitions, replace_intervals}

pub record QualityEvent (Evidence : Type 0) : Type 0 where
  pub id : ℕ
  pub target_spec_id : ℕ
  pub event_type : String
  pub previous_status : Option CoverageState
  pub new_status : CoverageState
  pub range_start_at : ℕ
  pub range_end_at : ℕ
  pub fingerprint : String
  pub evidence : Evidence
  pub fetch_manifest_id : Option ℕ
  pub detected_at : ℕ

-- The log, the next value of its sequence, and the events of this call in the order of creation.
pub record EventLog (Evidence : Type 0) : Type 0 where
  pub events : List (QualityEvent Evidence)
  pub next_id : ℕ
  pub created : List (QualityEvent Evidence)

pub record Tables (Evidence : Type 0) : Type 0 where
  pub coverage_intervals : List (Interval Evidence)
  pub data_quality_events : List (QualityEvent Evidence)
  pub next_event_id : ℕ

-- `checksum` is the hash of what identifies a transition: the request's target, status, reason and
-- manifest, and the transition. `event_evidence` adds the reason and the manifest to the evidence.
module _ {Evidence : Type 0} (checksum : Request Evidence → Transition → String)
    (event_evidence : Request Evidence → Evidence) where
  abbrev pub has_key : ℕ → String → QualityEvent Evidence → Bool
  has_key spec fingerprint e = (e.target_spec_id == spec) && str_eq e.fingerprint fingerprint

  -- The fingerprint is in the log already.
  abbrev pub is_logged : Request Evidence → List (QualityEvent Evidence) → Transition → Bool
  is_logged q events change = any (has_key q.target_spec_id (checksum q change)) events

  abbrev pub new_event : Request Evidence → ℕ → ℕ → Transition → QualityEvent Evidence
  new_event q assessed_at id change = record {
    id = id;
    target_spec_id = q.target_spec_id;
    event_type = q.reason_code;
    previous_status = change.previous_status;
    new_status = q.status;
    range_start_at = change.start_at;
    range_end_at = change.end_at;
    fingerprint = checksum q change;
    evidence = event_evidence q;
    fetch_manifest_id = q.manifest_id;
    detected_at = assessed_at;
  }

  unfoldable pub record_transition :
      Request Evidence → ℕ → Transition → EventLog Evidence → EventLog Evidence
  record_transition q assessed_at change log =
      if is_logged q log.events change then record log { next_id = log.next_id + 1 } else record {
        events = new_event q assessed_at log.next_id change ∷ log.events;
        next_id = log.next_id + 1;
        created = log.created ++ new_event q assessed_at log.next_id change ∷ [];
      }

  unfoldable pub record_transitions :
      Request Evidence → ℕ → List Transition → EventLog Evidence → EventLog Evidence
  unfolding record_transition
  record_transitions q assessed_at [] log = log
  record_transitions q assessed_at (change ∷ changes) log =
      record_transitions q assessed_at changes (record_transition q assessed_at change log)

  -- The call's effect on a non-empty range of a known target: the tables afterwards, and the events
  -- whose ranges it then has recomputed.
  unfoldable pub replace_known :
      ℕ → Request Evidence → Tables Evidence → Tables Evidence × List (QualityEvent Evidence)
  unfolding record_transitions transitions replace_intervals
  replace_known assessed_at q db =
      let log =
        record_transitions q assessed_at (transitions q db.coverage_intervals)
          record { events = db.data_quality_events; next_id = db.next_event_id; created = [] } in
      (
        record {
          coverage_intervals = replace_intervals q assessed_at db.coverage_intervals;
          data_quality_events = log.events;
          next_event_id = log.next_id;
        },
        log.created,
      )

  -- The whole call. `market_of` looks up `market_id` in `collection_target_specs`.
  unfoldable pub replace_coverage_with_classification :
      (ℕ → Option ℕ)
      → ℕ
      → Request Evidence
      → Tables Evidence
      → Tables Evidence × List (QualityEvent Evidence)
  unfolding replace_known
  replace_coverage_with_classification market_of assessed_at q db =
      if leb q.range_end_at q.range_start_at then (db, []) else elim (market_of q.target_spec_id) [
        | none ↦ (db, [])
        | some _ ↦ replace_known assessed_at q db
      ]
