-- ===== src/Telephony.antt =====
-- backend/src/tango/telephony: whom a call is with, and the callbacks of the telephone network.
pub mod Formats
pub mod Routing
pub mod Scope
pub mod Admission
pub mod CallStatus
pub mod Refer
pub mod Recording
pub mod Stall
pub mod Correlation
pub mod Outbound
pub mod Persistence
