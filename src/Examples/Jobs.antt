-- ===== src/Examples/Jobs.antt =====
-- Runs of the workers.
use ctrl_alt_ship.Prelude.{ℕ, String, ◌≡◌, true, false, [], ◌∷◌, none, some, ok, err}
use ctrl_alt_ship.CallFlow.{quote_request}
use ctrl_alt_ship.Workers.Contact.{
  ClaimedProviderContact, ContactDependencies, first, accepted, dispatch,
}
use ctrl_alt_ship.Workers.Contact.Traces.{Persists, dispatch-Persists, Counts, run_once-counts}
use ctrl_alt_ship.Workers.Outbox.{OutboxJob, delivery_error, Worker}
use ctrl_alt_ship.Workers.Outbox.Runs.{Runs}
use ctrl_alt_ship.Js.{Value, arr, nil, str, bool, cons, field, end}
use ctrl_alt_ship.Examples.Host.{arguments_of}
use ctrl_alt_ship.Workers.Outbox.Sms.{SmsMessage}
use ctrl_alt_ship.Workers.Retention.{
  RetentionDependencies, RetentionCall, claimed_jobs, delete_recording, run_retention_once,
}
use ctrl_alt_ship.Workers.Retention
use ctrl_alt_ship.Workers.Retention.Disposal.{
  Reports, reported, disposes_all, delete_recording-Reports, run_retention_once-Runs,
}
use ctrl_alt_ship.Workers.Outbox.Email.{EmailDependencies, EmailCall}
use ctrl_alt_ship.Workers.Outbox.Email
use ctrl_alt_ship.Workers.Outbox.Email.Settles as EmailSettles
use ctrl_alt_ship.Workers.Outbox.Sms.{SmsDependencies, SmsCall, mobile}
use ctrl_alt_ship.Workers.Outbox.Sms
use ctrl_alt_ship.Workers.Outbox.Sms.Settles as SmsSettles

abbrev contact : ClaimedProviderContact
contact = record {
  outbox_id = "o-1";
  call_id = "call-1";
  lock_token = "l-1";
  operation_id = "op-1";
  round_id = "r-1";
  quote_request_id = "qr-1";
  provider_id = "p-1";
  provider_phone = "+5491112345678";
  purpose = quote_request;
  attempt = first;
}

abbrev contacts : ContactDependencies
contacts = record {
  claim_next = λ log. ok (some contact);
  begin = λ log. ok true;
  dial = λ log. ok "CA1";
  finish = λ log. ok (record { dispatch_state = accepted; persisted = true });
  advance = λ log. ok tt;
  on_round_advanced = none;
}

dispatch-Persists_example :
    ((dispatch contacts contact []).0 ≡ ok tt)
    × Persists contacts contact [] (ok "CA1") (dispatch contacts contact []).1
dispatch-Persists_example = dispatch-Persists contacts contact []

run_once-counts_example : Counts contacts []
run_once-counts_example = run_once-counts contacts []

abbrev job : OutboxJob String
job = record {
  id = "j-1";
  operation_id = "op-1";
  payload = "booked";
  idempotency_key = "k-1";
  attempts = 0;
  lock_token = "l-1";
}

abbrev mails : EmailDependencies String
mails = record {
  render = λ text. ok (record {
    to = "ana@example.com";
    subject = "Booked";
    text = text;
    html = text;
    template = "booking";
  });
  claim = λ log. ok (job ∷ []);
  deliver = λ log. err (delivery_error "email_unavailable" true);
  save_preview = λ log. ok tt;
  complete = λ log. ok tt;
  fail = λ log. ok tt;
}

abbrev mail_worker : Worker (EmailCall String)
mail_worker = record { running = false; log = [] }

email_job-Settled_example :
    ((Email.deliver_job mails job []).0 ≡ ok tt)
    × EmailSettles.Settled mails job [] (Email.deliver_job mails job []).1
email_job-Settled_example = EmailSettles.email_job-Settled mails job []

run_email_once-Runs_example :
    Runs
      (EmailSettles.sent_keys mails)
      (EmailSettles.sends_once mails)
      (Email.claim 10)
      mails.claim
      mail_worker
      (Email.run_email_once mails 10 mail_worker)
run_email_once-Runs_example = EmailSettles.run_email_once-Runs mails 10 mail_worker

abbrev messages : SmsDependencies String
messages = record {
  render = λ text.
      ok (record { to = "+5491112345678"; phone_type = mobile; body = text; template = "booking" });
  claim = λ log. ok (job ∷ []);
  deliver = λ log. ok (record { provider_message_id = "SM1"; preview = false });
  complete = λ log. ok tt;
  fail = λ log. ok tt;
}

abbrev message_worker : Worker (SmsCall String)
message_worker = record { running = false; log = [] }

sms_job-Settled_example :
    ((Sms.deliver_job messages job []).0 ≡ ok tt)
    × SmsSettles.Settled messages job [] (Sms.deliver_job messages job []).1
sms_job-Settled_example = SmsSettles.sms_job-Settled messages job []

run_sms_once-Runs_example :
    Runs
      (SmsSettles.sent_keys messages)
      (SmsSettles.sends_once messages)
      (Sms.claim 10)
      messages.claim
      message_worker
      (Sms.run_sms_once messages 10 message_worker)
run_sms_once-Runs_example = SmsSettles.run_sms_once-Runs messages 10 message_worker

abbrev recording : String
recording = "RE0123456789abcdef0123456789abcdef"

abbrev expired_job : Value ℕ
expired_job = arguments_of (
    field "call_id" (str "call-1") (
      field "transcript_pending" (bool true) (
        field "recordings"
          (arr (cons (arguments_of (field "recording_sid" (str recording) end)) nil)) end)))

abbrev evidence : RetentionDependencies ℕ
evidence = record {
  has_credentials = true;
  is_timeout_valid = true;
  claim = λ log. ok (arr (cons expired_job nil));
  purge = λ log. ok tt;
  delete = λ log. ok 404;
  complete = λ log. ok true;
}

delete_recording-Reports_example :
    ((delete_recording evidence "call-1" recording []).0 ≡ ok tt)
    × Reports evidence "call-1" recording [] (delete_recording evidence "call-1" recording []).1
delete_recording-Reports_example = delete_recording-Reports evidence "call-1" recording []

abbrev disposer : Worker RetentionCall
disposer = record { running = false; log = [] }

run_retention_once-Runs_example :
    Runs
      (reported evidence)
      (disposes_all evidence)
      (Retention.claim 100)
      (λ log. claimed_jobs (evidence.claim log))
      disposer
      (run_retention_once evidence disposer)
run_retention_once-Runs_example = run_retention_once-Runs evidence disposer
