-- ===== src/Quote.antt =====
-- backend/src/domain/provider-quote-service.ts: the quotes that a provider gives on an outbound
-- call. The repository is a parameter that answers in any way.
pub mod Types
pub mod Service
pub mod Arguments
pub mod Submission
