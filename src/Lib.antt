-- ===== src/Lib.antt =====
-- Verification of Tango, a backend that coordinates freight by telephone. Clients and carriers
-- (providers) talk to a voice model; the model acts only through tools, and everything it says to a
-- tool is untrusted. This library models the code that stands between the voice model or the
-- telephone network and the database.
--
-- How the parts interact. A call arrives (backend/src/tango/telephony/inbound-routing.ts), the
-- caller is identified and the call gets a scope (call-scope.ts). Under that scope a tool session
-- (backend/src/tango/tools/call-tool-session.ts) offers tools by the state of the call's flow; a tool
-- runs one of the services of backend/src/domain, which check the arguments and call a repository.
-- The SDK's session of the call (backend/src/tango/realtime/agents-call-session.ts) runs the tools.
-- An escalation to a person is first persisted (escalation-service.ts); then the call is transferred
-- (escalation-handoff-coordinator.ts), and the network's callback dials (handoff-refer-handler.ts).
-- Beside the calls run workers: one dials providers (provider-contact-worker.ts) and two send what
-- the outboxes hold (email-outbox-worker.ts, sms-outbox-worker.ts); provider-call-status-handler.ts
-- takes what the network says of a dialed call, recording-status-handler.ts what it says of a
-- recording, and call-evidence-retention-worker.ts deletes what has expired. A dialed call is admitted
-- by outbound-routing.ts, and sourcing-review-service.ts lets a round of offers be closed. The
-- dashboard (backend/src/tango/supabase/dashboard.ts) shows what has happened.
--
-- Files.
--   Prelude: the shared types, tests and lemmas. Prelude/Effects is the form of all code that waits:
--     a function from the calls made so far, the latest first, to a result and the calls made. Every
--     answer of a repository, gateway or host is a function of those calls, so it may be anything.
--   Js: values of type `unknown`, `trim`, date patterns and amounts; `Runtime` is the host's
--     arithmetic and dates, a parameter.
--   CallFlow, ToolError, ProviderState: domain/call-flow.ts, tool-error.ts, provider-call-state.ts.
--   Client (Types, Fields, Mandate): domain/client-operation-service.ts, `create`, `update`,
--     `cancel`, `confirm` and `getState` as `read`; Accepted, Windows and Commands describe the
--     accepted arguments apart from the code, Authorization and Submission hold the proofs.
--   Quote, Booking: domain/provider-quote-service.ts and provider-booking-service.ts in the same way.
--   Timestamps, Checks: `isTimestamp` and the checks that the services share.
--   Escalation, OperationRead: domain/escalation-service.ts and operation-read-service.ts.
--   Handoff: tango/telephony/escalation-handoff-coordinator.ts. A method that waits is cut at its
--     `await`; Handoff/System runs the pieces in any order.
--   Tools: tango/tools/realtime-tool.ts and call-tool-session.ts.
--   Realtime: tango/realtime/agents-call-session.ts, which runs the tools for the SDK's session. Its
--     `execute` is cut at its waits for the tool and for the refresh (`start_call`, `answer_call`,
--     `refresh_call`); `step` takes one event, and other calls' events may come in between.
--     `execute_call` is `execute` where nothing does.
--   Telephony: Formats (the patterns of numbers and identifiers), Routing, Scope, CallStatus, Refer,
--     Recording (recording-status-handler.ts), Stall (negotiation-stall-tracker.ts), Correlation and
--     Outbound (the two functions of outbound-routing.ts), Persistence (tango/supabase/
--     call-routing.ts).
--   Workers: Contact, Outbox with Outbox/Email and Outbox/Sms, and Retention, the disposal of expired
--     evidence (call-evidence-retention-worker.ts), and SmsGateway (tango/services/sms-gateway.ts).
--   Erp: of tango/supabase/erp.ts, `listActiveOperationsForProvider`.
--   Messages: tango/services/sms-templates.ts and email-templates.ts. Texts are lists of the UTF-16
--     units that JavaScript's strings hold; Email/Reading is a reader of HTML, apart from the code.
--   Sourcing: tango/services/sourcing-review-service.ts, with its map of retries as state.
--   Observability: observability/logger.ts and state-transition-log.ts.
--   Dashboard: domain/call-evidence.ts (Evidence) and, of tango/supabase/dashboard.ts, the readers of
--     stored JSON, the wording of events, the trace, and reading by pages (Readers, Titles, Details,
--     Trace, Pages).
--   Examples: the theorems at concrete inputs.
--
-- Bounds. One definition runs on fuel: Dashboard/Pages.read_all, whose source is a loop without
-- bound; one page more than the table fills is enough. All other loops recur on lists, texts or fields.
-- Counts and lengths are natural numbers; JavaScript's numbers are of a type of the host, compared by
-- the host. `length` counts UTF-16 units; texts with lone surrogates are left out.
--
-- Not modelled: which log lines are written where, the texts of errors and of TwiML, timers, the
-- other Supabase repositories and the SQL behind them, the mail gateway, the HTTP requests to Twilio,
-- the realtime SDK and what it is configured with, the prompts, the HTTP server, the dashboard's
-- queries and console, and the frontend.
-- Where the services hand their work to SQL (ownership, replay, revisions), nothing is said of it.
mod Prelude
pub mod Js
pub mod ToolError
pub mod CallFlow
mod Checks
mod Examples
mod Timestamps
pub mod Client
pub mod ProviderState
pub mod Quote
pub mod Realtime
pub mod Booking
pub mod Escalation
pub mod OperationRead
pub mod Handoff
pub mod Tools
pub mod Telephony
pub mod Erp
pub mod Messages
pub mod Sourcing
pub mod Observability
pub mod Dashboard
pub mod Workers
