-- ===== src/LiveOrder.antt =====
-- The gates in front of a live Upbit order: packages/shared/goodmoneying_shared/live_capability.py
-- (child Capability) and upbit_safe_order_adapter.py (child Outbox). Child Gate is about
-- both gates together.
pub mod Capability
pub mod Outbox
pub mod Rehearsal
pub mod Binding
pub mod Identity
pub mod Derived
pub mod Again
pub mod Gate
mod Tests
