-- ===== src/Workers/Outbox.antt =====
-- backend/src/tango/workers: what email-outbox-worker.ts and sms-outbox-worker.ts share, which is
-- the loop over the claimed jobs, the flag against overlapping runs and the classes of failures.
-- Timers and log lines are left out.
pub mod Runs
pub mod Email
pub mod Sms
use ctrl_alt_ship.Prelude.{
  ℕ, zero, suc, String, Bool, true, false, List, [], ◌∷◌, Result, ok, err, length, Act, pure,
  perform, try_catch, ◌>>=◌, ◌>>◌,
}

-- What the code of a delivery can throw: a delivery error of the gateway, or anything else.
pub data OutboxError : Type 0 where
  delivery_error : (code : String) (retryable : Bool) → OutboxError
  other_error : String → OutboxError

-- A row of the outbox.
pub record OutboxJob (Payload : Type 0) : Type 0 where
  pub id : String
  pub operation_id : String
  pub payload : Payload
  pub idempotency_key : String
  pub attempts : ℕ
  pub lock_token : String

pub record Failure : Type 0 where
  pub code : String
  pub retryable : Bool

-- `classifyFailure`: an error that is not the gateway's own can be tried again.
abbrev pub classify_failure : (unavailable : String) → OutboxError → Failure
classify_failure unavailable (delivery_error code retryable) = record {
  code = code;
  retryable = retryable;
}
classify_failure unavailable (other_error text) = record { code = unavailable; retryable = true }

module _ {Job C : Type 0} where
  -- `for (const job of jobs) await this.deliver(job)`
  unfoldable pub deliver_all :
      (Job → Act OutboxError C (Unit {0})) → List Job → Act OutboxError C (Unit {0})
  deliver_all deliver [] = pure tt
  deliver_all deliver (job ∷ jobs) = do deliver job; deliver_all deliver jobs

  -- The `try` of `runOnce`, whose result is the number of the claimed jobs.
  unfoldable pub run_batch :
      C
      → (List C → Result OutboxError (List Job))
      → (Job → Act OutboxError C (Unit {0}))
      → Act OutboxError C ℕ
  run_batch claim answer deliver = do
    jobs ← perform claim answer
    deliver_all deliver jobs
    pure (length jobs)

-- The worker between two calls of its methods: `running`.
pub record Worker (C : Type 0) : Type 0 where
  pub running : Bool
  pub log : List C

module _ {C A : Type 0} where
  abbrev finished : Result OutboxError A × List C → Result OutboxError A × Worker C
  finished (r, log) = (r, record { running = false; log = log })

  -- `runOnce`: a run that overlaps another does nothing, and `finally` resets the flag.
  unfoldable pub run_once :
      (idle : A) → Act OutboxError C A → Worker C → Result OutboxError A × Worker C
  run_once idle batch worker = elim worker.running [
    | true ↦ (ok idle, worker)
    | false ↦ finished (batch worker.log)
  ]
