-- ===== src/Observability.antt =====
-- backend/src/observability: the structured logger and the log of state transitions.
pub mod Logger
pub mod Transitions
