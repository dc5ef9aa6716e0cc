-- ===== src/Dashboard.antt =====
-- backend/src/tango/supabase/dashboard.ts and domain/call-evidence.ts: what the dashboard is shown.
-- `Readers` reads stored JSON, `Titles` and `Details` word an event, `Trace` lays out calls and events in
-- lanes, `Evidence` sets events beside transcript segments.
pub mod Readers
pub mod Titles
pub mod Details
pub mod Trace
pub mod Evidence
pub mod Pages
