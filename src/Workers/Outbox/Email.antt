-- ===== src/Workers/Outbox/Email.antt =====
-- backend/src/tango/workers/email-outbox-worker.ts. The templates that make a message of a payload,
-- the gateway and the database are parameters.
pub mod Settles
use ctrl_alt_ship.Prelude.{
  ℕ, String, Bool, true, false, List, ◌∷◌, Result, ok, err, Act, pure, lift, perform, try_catch,
  unless, not, ◌>>=◌, ◌>>◌,
}
use ctrl_alt_ship.Workers.Outbox.{
  OutboxError, OutboxJob, Failure, classify_failure, run_batch, run_once, Worker,
}

-- A rendered message with its recipient and template.
pub record EmailMessage : Type 0 where
  pub to : String
  pub subject : String
  pub text : String
  pub html : String
  pub template : String

pub record EmailDeliveryResult : Type 0 where
  pub provider_message_id : String
  pub preview : Bool

pub data EmailCall (Payload : Type 0) : Type 0 where
  claim : (limit : ℕ) → EmailCall Payload
  deliver : (idempotency_key operation_id : String) → EmailMessage → EmailCall Payload
  save_preview : OutboxJob Payload → EmailMessage → EmailCall Payload
  complete : OutboxJob Payload → (provider_message_id : String) → EmailCall Payload
  fail : OutboxJob Payload → Failure → EmailCall Payload

pub record EmailDependencies (Payload : Type 0) : Type 0 where
  -- `prepareBookingEmailPayload`, then `renderBookingEmail`
  pub render : Payload → Result OutboxError EmailMessage
  pub claim : List (EmailCall Payload) → Result OutboxError (List (OutboxJob Payload))
  pub deliver : List (EmailCall Payload) → Result OutboxError EmailDeliveryResult
  pub save_preview : List (EmailCall Payload) → Result OutboxError (Unit {0})
  pub complete : List (EmailCall Payload) → Result OutboxError (Unit {0})
  pub fail : List (EmailCall Payload) → Result OutboxError (Unit {0})

module _ {Payload : Type 0} (d : EmailDependencies Payload) where
  abbrev Run : Type 0 → Type 0
  Run A = Act OutboxError (EmailCall Payload) A

  abbrev pub failure_of : OutboxError → Failure
  failure_of error = classify_failure "email_delivery_unavailable" error

  module _ (job : OutboxJob Payload) where
    -- The `catch` of `deliver`; that the failure could not be recorded is not an error.
    unfoldable pub record_failure : OutboxError → Run Unit
    record_failure error =
        try_catch (perform (fail job (failure_of error)) d.fail) (λ mark_failure_error. pure tt)

    -- The calls of `deliver` once the gateway has answered.
    unfoldable pub recorded : EmailMessage → EmailDeliveryResult → Run Unit
    recorded message result = do
      unless (not result.preview) (perform (save_preview job message) d.save_preview)
      perform (complete job result.provider_message_id) d.complete

    -- The `try` of `deliver`.
    unfoldable pub attempt : Run Unit
    attempt = do
      message ← lift (d.render job.payload)
      result ← perform (deliver job.idempotency_key job.operation_id message) d.deliver
      recorded message result

    unfoldable pub deliver_job : Run Unit
    deliver_job = try_catch attempt record_failure

  abbrev pub email_batch : (batch_size : ℕ) → Run ℕ
  email_batch batch_size = run_batch (claim batch_size) d.claim deliver_job

  abbrev pub run_email_once :
      (batch_size : ℕ)
      → Worker (EmailCall Payload)
      → Result OutboxError ℕ × Worker (EmailCall Payload)
  run_email_once batch_size = run_once 0 (email_batch batch_size)
