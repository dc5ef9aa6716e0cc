-- ===== src/Client.antt =====
-- backend/src/domain/client-operation-service.ts: the commands of an authenticated client.
-- The repository (SQL functions behind Supabase) is a parameter that answers in any way.
pub mod Types
pub mod Fields
pub mod Mandate
pub mod Authorization
pub mod Accepted
pub mod Windows
pub mod Commands
pub mod Submission
