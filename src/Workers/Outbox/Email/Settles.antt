-- ===== src/Workers/Outbox/Email/Settles.antt =====
-- What becomes of a claimed email job, and of a whole run.
use ctrl_alt_ship.Prelude.{
  ℕ, String, List, [], ◌∷◌, ◌≡◌, refl, arith, Result, ok, err, Result-cases, ◌⊎◌, inl, inr, not,
  unless, perform,
}
use ctrl_alt_ship.Workers.Outbox.{OutboxError, OutboxJob, Worker}
use ctrl_alt_ship.Workers.Outbox.Runs.{Runs, run_once-Runs, then_perform-last}
use ctrl_alt_ship.Workers.Outbox.Email.{
  EmailMessage, EmailDeliveryResult, EmailCall, claim, deliver, save_preview, complete, fail,
  EmailDependencies, failure_of, record_failure, recorded, attempt, deliver_job, run_email_once,
}

module _ {Payload : Type 0} (d : EmailDependencies Payload) where
  module _ (job : OutboxJob Payload) (log : List (EmailCall Payload)) where
    abbrev pub deliver_call : EmailMessage → EmailCall Payload
    deliver_call message = deliver job.idempotency_key job.operation_id message

    -- The gateway has taken the rendered message, and its identifier is recorded last of all.
    abbrev pub Completed : List (EmailCall Payload) → Type 0
    Completed final =
        (message : EmailMessage) × (result : EmailDeliveryResult) × (calls : List
          (EmailCall Payload))
        × (d.render job.payload ≡ ok message)
        × (d.deliver (deliver_call message ∷ log) ≡ ok result)
        × (final ≡ complete job result.provider_message_id ∷ calls)
        × (d.complete final ≡ ok tt)

    -- Something threw, and last of all that is reported with its class.
    abbrev pub Reported : List (EmailCall Payload) → Type 0
    Reported final =
        (error : OutboxError) × ((attempt d job log).0 ≡ err error)
        × (final ≡ fail job (failure_of d error) ∷ (attempt d job log).1)

    abbrev pub Settled : List (EmailCall Payload) → Type 0
    Settled final = Completed final ⊎ Reported final

    record_failure-calls :
        (error : OutboxError) (calls : List (EmailCall Payload))
        → record_failure d job error calls ≡ (ok tt, fail job (failure_of d error) ∷ calls)
    unfolding record_failure
    record_failure-calls error calls = ground arith

    attempt-unrendered :
        (error : OutboxError) → d.render job.payload ≡ err error → (attempt d job log).0 ≡ err error
    unfolding attempt
    attempt-unrendered error e = rw e refl

    attempt-undelivered :
        (message : EmailMessage) (error : OutboxError)
        → d.render job.payload ≡ ok message
        → d.deliver (deliver_call message ∷ log) ≡ err error
        → (attempt d job log).0 ≡ err error
    unfolding attempt
    attempt-undelivered message error e f = rw (e, f) refl

    attempt-delivered :
        (message : EmailMessage) (result : EmailDeliveryResult)
        → d.render job.payload ≡ ok message
        → d.deliver (deliver_call message ∷ log) ≡ ok result
        → attempt d job log ≡ recorded d job message result (deliver_call message ∷ log)
    unfolding attempt
    attempt-delivered message result e f = rw (e, f) refl

    recorded-last :
        (message : EmailMessage) (result : EmailDeliveryResult) (calls : List (EmailCall Payload))
        → (recorded d job message result calls).0 ≡ ok tt
        → (rest : List (EmailCall Payload)) × ((recorded d job message result calls).1
            ≡ complete job result.provider_message_id ∷ rest)
          × (d.complete (recorded d job message result calls).1 ≡ ok tt)
    unfolding recorded
    recorded-last message result calls fine =
        let (rest, last, saved) =
          then_perform-last
            (unless (not result.preview) (perform (save_preview job message) d.save_preview))
            (complete job result.provider_message_id) d.complete calls tt fine in
        (rest, last, cc (last, saved))

    attempt-Completed : (attempt d job log).0 ≡ ok tt → Completed (attempt d job log).1
    attempt-Completed fine = elim (Result-cases (d.render job.payload)) [
      | inr (error, e) ↦ cc (attempt-unrendered error e)
      | inl (message, e) ↦ elim (Result-cases (d.deliver (deliver_call message ∷ log))) [
        | inr (error, f) ↦ cc (attempt-undelivered message error e f)
        | inl (result, f) ↦
            let same = attempt-delivered message result e f in
            let (rest, last, saved) =
              recorded-last message result (deliver_call message ∷ log) (cc (fine, same)) in
            (message, result, rest, e, f, cc (last, same), cc (saved, same))
      ]
    ]

    -- A claimed job never throws. Either the gateway has taken its rendered message, and the identifier
    -- that it gave is recorded last of all; or something threw, and that is reported last of all, under
    -- the code and the retry flag of its class.
    pub email_job-Settled : ((deliver_job d job log).0 ≡ ok tt) × Settled (deliver_job d job log).1
    unfolding deliver_job
    email_job-Settled = elim (Result-cases (attempt d job log).0) [
      | inl (tt, e) ↦ rw e (refl, inl (attempt-Completed e))
      | inr (error, e) ↦
          rw (e, record_failure-calls error (attempt d job log).1) (refl, inr (error, refl, refl))
    ]

  abbrev pub sends : EmailCall Payload → List String → List String
  sends (deliver key operation_id message) keys = key ∷ keys
  sends _ keys = keys

  -- The idempotency keys of the messages handed to the gateway, the latest first.
  abbrev pub sent_keys : List (EmailCall Payload) → List String
  sent_keys [] = []
  sent_keys (c ∷ log) = sends c (sent_keys log)

  abbrev pub key_if_rendered :
      Result OutboxError EmailMessage → OutboxJob Payload → List String → List String
  key_if_rendered (ok message) job keys = job.idempotency_key ∷ keys
  key_if_rendered (err error) job keys = keys

  -- One message for a job whose payload renders, and none for any other.
  abbrev pub sends_once : OutboxJob Payload → List String → List String
  sends_once job keys = key_if_rendered (d.render job.payload) job keys

  sent_keys-deliver_job :
      (job : OutboxJob Payload) (log : List (EmailCall Payload))
      → sent_keys (deliver_job d job log).1 ≡ sends_once job (sent_keys log)
  unfolding deliver_job attempt record_failure recorded
  sent_keys-deliver_job job log = ground arith

  -- A run that overlaps another does nothing. Any other run leaves the flag reset. It throws if the
  -- jobs cannot be claimed, and has then made no other call; else it returns their number, and has
  -- handed the gateway just one message for each job that renders, in the order of the jobs.
  pub run_email_once-Runs :
      (batch_size : ℕ) (worker : Worker (EmailCall Payload))
      → Runs sent_keys sends_once
          (claim batch_size)
          d.claim
          worker
          (run_email_once d batch_size worker)
  run_email_once-Runs batch_size worker =
      run_once-Runs (deliver_job d) (λ job log. (email_job-Settled job log).0) sent_keys sends_once
        sent_keys-deliver_job (claim batch_size) d.claim worker (λ log. refl)
