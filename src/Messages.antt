-- ===== src/Messages.antt =====
-- backend/src/tango/services/sms-templates.ts and email-templates.ts: the messages that the outbox
-- workers send. `Texts` has the operations on texts, `Payload` reads a stored payload, `Sms` and
-- `Email` render.
pub mod Texts
pub mod Payload
pub mod Sms
pub mod Email
