-- ===== src/Workers.antt =====
-- backend/src/tango/workers: the jobs that run beside the calls.
pub mod Contact
pub mod Outbox
pub mod Retention
pub mod SmsGateway
