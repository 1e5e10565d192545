-- ===== src/Coverage/Replace/Log.antt =====
-- The log of quality events in replace_coverage_with_classification of coverage_transition.py: its
-- unique keys, and what a call's transitions add to it.
use Prim.Native.String.{String}
use text.Mathlib.Text.{◌==◌ as str_eq}
use text.Mathlib.TextPositions.{eq_refl as str_eq-refl}
use goodmoneying.Prelude.{
  ℕ, ◌+◌, ◌≡◌, refl, ◌≤◌, ◌<◌, inl, inr, true, false, ◌&&◌, List, [], ◌∷◌, ◌==◌, arith, Bool-cases,
  All, any,
}
use goodmoneying.Coverage.Replace.{Request, Transition}
use goodmoneying.Coverage.Replace.Events.{
  QualityEvent, EventLog, is_logged, record_transition, record_transitions,
}

module _ {Evidence : Type 0} where
  -- The unique keys of the log, newest first, and its sequence ahead of every id.
  abbrev pub LogIsValid : ℕ → List (QualityEvent Evidence) → Type 0
  LogIsValid next_id [] = Unit
  LogIsValid next_id (e ∷ events) =
      (e.id < next_id)
      × (any (λ f. (f.target_spec_id == e.target_spec_id) && str_eq f.fingerprint e.fingerprint)
            events
          ≡ false)
      × LogIsValid e.id events

  LogIsValid-later :
      (m n : ℕ) (events : List (QualityEvent Evidence))
      → m ≤ n
      → LogIsValid m events
      → LogIsValid n events
  LogIsValid-later m n [] le h = tt
  LogIsValid-later m n (e ∷ events) le h = (omega (arith, le, h.0), h.1, h.2)

module _ {Evidence : Type 0} (checksum : Request Evidence → Transition → String)
    (event_evidence : Request Evidence → Evidence) (q : Request Evidence) (assessed_at : ℕ) where
  record_transition-LogIsValid :
      (change : Transition) (log : EventLog Evidence)
      → LogIsValid log.next_id log.events
      → (let log' = record_transition checksum event_evidence q assessed_at change log in
          LogIsValid log'.next_id log'.events)
  unfolding record_transition
  record_transition-LogIsValid change log h =
      elim (Bool-cases (is_logged checksum event_evidence q log.events change)) [
        | inl logged ↦
            rw logged (LogIsValid-later log.next_id (log.next_id + 1) log.events (omega arith) h)
        | inr new ↦ rw new (omega arith, new, h)
      ]

  pub record_transitions-LogIsValid :
      (changes : List Transition) (log : EventLog Evidence)
      → LogIsValid log.next_id log.events
      → (let log' = record_transitions checksum event_evidence q assessed_at changes log in
          LogIsValid log'.next_id log'.events)
  unfolding record_transitions
  record_transitions-LogIsValid [] log h = h
  record_transitions-LogIsValid (change ∷ changes) log h =
      record_transitions-LogIsValid changes _ (record_transition-LogIsValid change log h)

  -- What is logged stays logged.
  still_logged :
      (key change : Transition) (log : EventLog Evidence)
      → is_logged checksum event_evidence q log.events key ≡ true
      → is_logged checksum event_evidence q
          (record_transition checksum event_evidence q assessed_at change log).events
          key
        ≡ true
  unfolding record_transition
  still_logged key change log h = ground arith

  always_logged :
      (key : Transition) (changes : List Transition) (log : EventLog Evidence)
      → is_logged checksum event_evidence q log.events key ≡ true
      → is_logged checksum event_evidence q
          (record_transitions checksum event_evidence q assessed_at changes log).events
          key
        ≡ true
  unfolding record_transitions
  always_logged key [] log h = h
  always_logged key (change ∷ changes) log h =
      always_logged key changes _ (still_logged key change log h)

  now_logged :
      (change : Transition) (log : EventLog Evidence)
      → is_logged checksum event_evidence q
          (record_transition checksum event_evidence q assessed_at change log).events
          change
        ≡ true
  unfolding record_transition
  now_logged change log =
      elim (Bool-cases (is_logged checksum event_evidence q log.events change)) [
        | inl logged ↦ rw logged logged
        | inr new ↦ rw new (ground (arith, str_eq-refl (checksum q change)))
      ]

  pub changes_logged :
      (changes : List Transition) (log : EventLog Evidence)
      → All
          (λ change.
            is_logged checksum event_evidence q
              (record_transitions checksum event_evidence q assessed_at changes log).events
              change
            ≡ true)
          changes
  unfolding record_transitions
  changes_logged [] log = tt
  changes_logged (change ∷ changes) log =
      (always_logged change changes _ (now_logged change log), changes_logged changes _)

  pub nothing_logged :
      (changes : List Transition) (log : EventLog Evidence)
      → All (λ change. is_logged checksum event_evidence q log.events change ≡ true) changes
      → (let log' = record_transitions checksum event_evidence q assessed_at changes log in
          (log'.events ≡ log.events) × (log'.created ≡ log.created))
  unfolding record_transitions record_transition
  nothing_logged [] log h = (refl, refl)
  nothing_logged (change ∷ changes) log h =
      let unchanged : record_transition checksum event_evidence q assessed_at change log
          ≡ record log { next_id = log.next_id + 1 } =
        rw (h.0) refl in
      rw (record_transitions, unchanged)
        (nothing_logged changes (record log { next_id = log.next_id + 1 }) h.1)
