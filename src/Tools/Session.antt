-- ===== src/Tools/Session.antt =====
-- backend/src/tango/tools/call-tool-session.ts: the tools of one call, by the state of its flow.
pub mod Definitions
pub mod Execution
pub mod Reads
pub mod Offers
pub mod Gate
pub mod Escalations
