-- ===== src/Coverage/State.antt =====
-- CoverageState, CoverageEvidence and classify_coverage of data_foundation.py, and can_claim_job, with instants in
-- UTC by their type.
use Prim.Native.String.{String}
use text.Mathlib.Text.{◌==◌ as str_eq}
use goodmoneying.Prelude.{
  ℕ, Bool, true, false, not, ◌&&◌, ◌||◌, Option, none, some, ltb, leb, if◌then◌else◌,
}

pub data CoverageState : Type 0 where
  available no_trade missing unavailable unverified : CoverageState

-- `==` on states, by their position in the list.
unfoldable pub state_eq : CoverageState → CoverageState → Bool
state_eq available available = true
state_eq no_trade no_trade = true
state_eq missing missing = true
state_eq unavailable unavailable = true
state_eq unverified unverified = true
state_eq _ _ = false

pub record CoverageEvidence : Type 0 where
  pub before_listing : Bool
  pub after_trading_end : Bool
  pub outside_source_retention : Bool
  pub source_row_count : ℕ
  pub manifest_checksum : Option String
  pub request_succeeded : Bool
  pub no_trade_corroborated : Bool
  pub attempted : Bool
  pub retry_budget_exhausted : Bool
  pub market_trading_resumed : Bool

-- The truth value of an optional text: `None` and the empty text are false.
abbrev pub is_true : Option String → Bool
is_true none = false
is_true (some text) = not (str_eq text "")

unfoldable pub classify_coverage : CoverageEvidence → CoverageState
classify_coverage e =
    if e.before_listing
      || e.outside_source_retention
      || e.after_trading_end && not e.market_trading_resumed
    then unavailable
    else if ltb 0 e.source_row_count && is_true e.manifest_checksum
    then available
    else if e.request_succeeded && e.no_trade_corroborated
    then no_trade
    else if e.attempted && e.retry_budget_exhausted
    then missing
    else unverified

pub data DurableJobStatus : Type 0 where
  pending leased running retry_wait succeeded failed dead_letter cancelled : DurableJobStatus

pub record DurableJobState : Type 0 where
  pub status : DurableJobStatus
  pub lease_owner : Option String
  pub lease_expires_at : Option ℕ

abbrev lease_over : Option ℕ → ℕ → Bool
lease_over none now = false
lease_over (some at) now = leb at now

abbrev claimable : DurableJobStatus → Option ℕ → ℕ → Bool
claimable pending lease_expires_at now = true
claimable retry_wait lease_expires_at now = true
claimable leased lease_expires_at now = lease_over lease_expires_at now
claimable running lease_expires_at now = lease_over lease_expires_at now
claimable _ lease_expires_at now = false

unfoldable pub can_claim_job : DurableJobState → ℕ → Bool
can_claim_job job now = claimable job.status job.lease_expires_at now
