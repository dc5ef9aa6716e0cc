-- ===== src/Tools.antt =====
-- backend/src/tango/tools: the tools of a call, and which of them may run when.
pub mod Registry
pub mod Session
