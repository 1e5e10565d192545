-- ===== src/Coverage/Replace/Call.antt =====
-- What a whole call of replace_coverage_with_classification in coverage_transition.py does to the
-- table of intervals and to the log of quality events.
use Prim.Native.String.{String}
use mathlib.Core.Path.{subst}
use goodmoneying.Prelude.{
  ℕ, ◌≡◌, refl, sym, ap, ◌∙◌, ◌≤◌, ◌<◌, ◌⊎◌, inl, inr, Bool, true, false, Option, some, List, [],
  leb, if◌then◌else◌, arith, Bool-cases, Option-cases, All,
}
use goodmoneying.Coverage.Replace.{Request, Transition, transitions, Assessment, new_assessment}
use goodmoneying.Coverage.Replace.Table.{recorded, concerns, replace_intervals-recorded}
use goodmoneying.Coverage.Replace.Events.{
  QualityEvent, EventLog, Tables, is_logged, replace_known, replace_coverage_with_classification,
}
use goodmoneying.Coverage.Replace.Log.{
  LogIsValid, record_transitions-LogIsValid, changes_logged, nothing_logged,
}

module _ {Evidence : Type 0} (checksum : Request Evidence → Transition → String)
    (event_evidence : Request Evidence → Evidence) (market_of : ℕ → Option ℕ) (assessed_at : ℕ)
    (q : Request Evidence) (db : Tables Evidence) where
  abbrev call : Tables Evidence × List (QualityEvent Evidence)
  call = replace_coverage_with_classification checksum event_evidence market_of assessed_at q db

  abbrev log_before : EventLog Evidence
  log_before = record { events = db.data_quality_events; next_id = db.next_event_id; created = [] }

  abbrev known_call : Tables Evidence × List (QualityEvent Evidence)
  known_call = replace_known checksum event_evidence assessed_at q db

  call-known :
      (market : ℕ)
      → market_of q.target_spec_id ≡ some market
      → q.range_start_at < q.range_end_at
      → call ≡ known_call
  unfolding replace_coverage_with_classification
  call-known market known some_time =
      let nonempty : leb q.range_end_at q.range_start_at ≡ false = ground arith in
      rw (call, nonempty, known) refl

  call-empty : q.range_end_at ≤ q.range_start_at → call ≡ (db, [])
  unfolding replace_coverage_with_classification
  call-empty no_time =
      let empty : leb q.range_end_at q.range_start_at ≡ true = ground arith in rw (call, empty) refl

  call-cases : (call ≡ (db, [])) ⊎ (call ≡ known_call)
  unfolding replace_coverage_with_classification
  call-cases = elim (Bool-cases (leb q.range_end_at q.range_start_at)) [
    | inl no_time ↦ inl (rw (call, no_time) refl)
    | inr some_time ↦ elim (Option-cases (market_of q.target_spec_id)) [
      | inl unknown ↦ inl (rw (call, some_time, unknown) refl)
      | inr (_, known) ↦ inr (rw (call, some_time, known) refl)
    ]
  ]

  -- After a replacement for a known target the table says of every instant of the range what the
  -- request says, and of every other instant and target what it said before.
  pub replace_coverage-recorded :
      (market : ℕ)
      → market_of q.target_spec_id ≡ some market
      → (spec t : ℕ) → (p : Assessment Evidence → Bool)
      → recorded spec t p call.0.coverage_intervals ≡ (
          if concerns q spec t
          then p (new_assessment q assessed_at)
          else recorded spec t p db.coverage_intervals)
  unfolding replace_known
  replace_coverage-recorded market known spec t p =
      elim (Bool-cases (leb q.range_end_at q.range_start_at)) [
        | inl no_time ↦
            ap (λ c. recorded spec t p c.0.coverage_intervals) (call-empty (ground arith))
            ∙ ground arith
        | inr some_time ↦
            ap (λ c. recorded spec t p c.0.coverage_intervals)
              (call-known market known (ground arith))
            ∙ replace_intervals-recorded q assessed_at db.coverage_intervals spec t p
      ]

  -- A replacement keeps the ids and the pairs of target and fingerprint of the log unique, on every
  -- branch.
  pub replace_coverage-LogIsValid :
      LogIsValid db.next_event_id db.data_quality_events
      → LogIsValid call.0.next_event_id call.0.data_quality_events
  unfolding replace_known
  replace_coverage-LogIsValid h = elim call-cases [
    | inl nothing ↦
        subst (λ c. LogIsValid c.0.next_event_id c.0.data_quality_events) (sym nothing) h
    | inr known ↦
        subst (λ c. LogIsValid c.0.next_event_id c.0.data_quality_events) (sym known)
          (record_transitions-LogIsValid checksum event_evidence q assessed_at
            (transitions q db.coverage_intervals) log_before h)
  ]

  -- After a replacement of a non-empty range of a known target, each of its transitions has an event
  -- with its fingerprint.
  pub replace_coverage-logged :
      (market : ℕ)
      → market_of q.target_spec_id ≡ some market
      → q.range_start_at < q.range_end_at
      → All
          (λ change. is_logged checksum event_evidence q call.0.data_quality_events change ≡ true)
          (transitions q db.coverage_intervals)
  unfolding replace_known
  replace_coverage-logged market known some_time =
      subst
        (λ c.
          All (λ change. is_logged checksum event_evidence q c.0.data_quality_events change ≡ true)
            (transitions q db.coverage_intervals))
        (sym (call-known market known some_time))
        (changes_logged checksum event_evidence q assessed_at _ _)

  -- A replacement all of whose transitions have fingerprints that are in the log records no event
  -- and has nothing recomputed, whatever the table said in between.
  pub replace_coverage-repeated :
      All
        (λ change. is_logged checksum event_evidence q db.data_quality_events change ≡ true)
        (transitions q db.coverage_intervals)
      → (call.0.data_quality_events ≡ db.data_quality_events) × (call.1 ≡ [])
  unfolding replace_known
  replace_coverage-repeated h = elim call-cases [
    | inl nothing ↦ (ap (λ c. c.0.data_quality_events) nothing, ap (λ c. c.1) nothing)
    | inr known ↦
        let unchanged =
          nothing_logged checksum event_evidence q assessed_at (transitions q db.coverage_intervals)
            _ h in
        (ap (λ c. c.0.data_quality_events) known ∙ unchanged.0, ap (λ c. c.1) known ∙ unchanged.1)
  ]
