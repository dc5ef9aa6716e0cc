-- ===== src/Realtime.antt =====
-- backend/src/tango/realtime: the voice session of one call.
pub mod CallSession
