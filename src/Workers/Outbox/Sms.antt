-- ===== src/Workers/Outbox/Sms.antt =====
-- backend/src/tango/workers/sms-outbox-worker.ts. The templates that make a message of a payload, the
-- gateway and the database are parameters.
pub mod Settles
use ctrl_alt_ship.Prelude.{
  ℕ, String, Bool, true, false, List, ◌∷◌, Result, ok, err, Act, pure, lift, perform, try_catch,
  ◌>>=◌, ◌>>◌,
}
use ctrl_alt_ship.Workers.Outbox.{
  OutboxError, OutboxJob, Failure, classify_failure, run_batch, run_once, Worker,
}

pub data PhoneType : Type 0 where
  mobile landline unknown_type : PhoneType

-- A rendered message with its recipient and template.
pub record SmsMessage : Type 0 where
  pub to : String
  pub phone_type : PhoneType
  pub body : String
  pub template : String

pub record SmsDeliveryResult : Type 0 where
  pub provider_message_id : String
  pub preview : Bool

pub data SmsCall (Payload : Type 0) : Type 0 where
  claim : (limit : ℕ) → SmsCall Payload
  deliver : (idempotency_key operation_id : String) → SmsMessage → SmsCall Payload
  complete : OutboxJob Payload → (provider_message_id : String) → SmsCall Payload
  fail : OutboxJob Payload → Failure → SmsCall Payload

pub record SmsDependencies (Payload : Type 0) : Type 0 where
  -- `prepareSmsPayload`, then `renderSms`
  pub render : Payload → Result OutboxError SmsMessage
  pub claim : List (SmsCall Payload) → Result OutboxError (List (OutboxJob Payload))
  pub deliver : List (SmsCall Payload) → Result OutboxError SmsDeliveryResult
  pub complete : List (SmsCall Payload) → Result OutboxError (Unit {0})
  pub fail : List (SmsCall Payload) → Result OutboxError (Unit {0})

module _ {Payload : Type 0} (d : SmsDependencies Payload) where
  abbrev Run : Type 0 → Type 0
  Run A = Act OutboxError (SmsCall Payload) A

  abbrev pub failure_of : OutboxError → Failure
  failure_of error = classify_failure "sms_delivery_unavailable" error

  module _ (job : OutboxJob Payload) where
    -- The `catch` of `deliver`; that the failure could not be recorded is not an error.
    unfoldable pub record_failure : OutboxError → Run Unit
    record_failure error =
        try_catch (perform (fail job (failure_of error)) d.fail) (λ mark_failure_error. pure tt)

    -- The `try` of `deliver`.
    unfoldable pub attempt : Run Unit
    attempt = do
      message ← lift (d.render job.payload)
      result ← perform (deliver job.idempotency_key job.operation_id message) d.deliver
      perform (complete job result.provider_message_id) d.complete

    unfoldable pub deliver_job : Run Unit
    deliver_job = try_catch attempt record_failure

  abbrev pub sms_batch : (batch_size : ℕ) → Run ℕ
  sms_batch batch_size = run_batch (claim batch_size) d.claim deliver_job

  abbrev pub run_sms_once :
      (batch_size : ℕ) → Worker (SmsCall Payload) → Result OutboxError ℕ × Worker (SmsCall Payload)
  run_sms_once batch_size = run_once 0 (sms_batch batch_size)
