-- ===== src/Coverage.antt =====
-- Which time ranges of a market are covered: the states and their evidence of data_foundation.py
-- (child State), the gaps in a page of candles (child Gaps), and the replacement of a range in
-- coverage_transition.py (child Replace) with the jobs that it has done anew (child Recompute); all in
-- packages/shared/goodmoneying_shared.
pub mod Fingerprints
pub mod State
pub mod Replace
pub mod Recompute
pub mod Gaps
mod Tests
