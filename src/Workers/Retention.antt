-- ===== src/Workers/Retention.antt =====
-- backend/src/tango/workers/call-evidence-retention-worker.ts: the disposal of expired evidence. The
-- database, `fetch` and its abort are parameters. Timers and log lines are left out; a rejected call of
-- the database and one that answers with an error are the same.
pub mod Disposal
use ctrl_alt_ship.Prelude.{
  ℕ, String, Bool, true, false, not, ◌&&◌, ◌||◌, List, [], ◌∷◌, Option, none, some, Result, ok, err,
  eqb, ◌==◌, if◌then◌else◌, Act, pure, throw, perform, try_catch, ◌>>=◌, ◌>>◌,
}
use ctrl_alt_ship.Js.{Value, undefined, bool, str, arr, obj, Fields, Items, items, get}
use ctrl_alt_ship.Telephony.Formats.{is_recording_sid}
use ctrl_alt_ship.Workers.Outbox.{
  OutboxError, other_error, deliver_all, run_batch, run_once, Worker,
}

pub record RetentionJob : Type 0 where
  pub call_id : String
  pub transcript_pending : Bool
  pub recordings : List String

-- `errorCode`
pub data DeletionError : Type 0 where
  credentials_missing delete_timeout delete_failed : DeletionError
  delete_http : (status : ℕ) → DeletionError

pub data RetentionCall : Type 0 where
  claim : (limit : ℕ) → RetentionCall
  purge_transcript : (call_id : String) → RetentionCall
  delete : (recording_sid : String) → RetentionCall
  complete : (call_id recording_sid : String) → Option DeletionError → RetentionCall

-- Why `fetch` throws.
pub data FetchError : Type 0 where
  aborted broken : FetchError

pub record RetentionDependencies (Num : Type 0) : Type 0 where
  -- `config.accountSid` and `config.authToken` are there and not empty
  pub has_credentials : Bool
  -- `Number.isFinite(timeoutMs) && timeoutMs > 0`
  pub is_timeout_valid : Bool
  pub claim : List RetentionCall → Result OutboxError (Value Num)
  pub purge : List RetentionCall → Result OutboxError (Unit {0})
  -- the response's status
  pub delete : List RetentionCall → Result FetchError ℕ
  -- `data.persisted === true`
  pub complete : List RetentionCall → Result OutboxError Bool

abbrev and_recording : Option String → Option (List String) → Option (List String)
and_recording (some sid) (some sids) = some (sid ∷ sids)
and_recording first rest = none

abbrev with_recordings : String → Bool → Option (List String) → Option RetentionJob
with_recordings call_id pending none = none
with_recordings call_id pending (some sids) =
    if call_id == ""
    then none
    else some (record { call_id = call_id; transcript_pending = pending; recordings = sids })

abbrev and_job : Option RetentionJob → Option (List RetentionJob) → Option (List RetentionJob)
and_job (some job) (some jobs) = some (job ∷ jobs)
and_job first rest = none

abbrev valid_jobs : Option (List RetentionJob) → Result OutboxError (List RetentionJob)
valid_jobs none = err (other_error "Invalid retention claim job")
valid_jobs (some jobs) = ok jobs

module _ {Num : Type 0} where
  -- `isRecord`
  abbrev pub record_fields : Value Num → Option (Fields Num)
  record_fields (obj prototype fs) = some fs
  record_fields v = none

  abbrev recording_of : Option (Fields Num) → Option String
  recording_of none = none
  recording_of (some fs) = elim (get fs "recording_sid") [
    | str sid ↦ if is_recording_sid sid then some sid else none
    | _ ↦ none
  ]

  abbrev recordings_of : List (Value Num) → Option (List String)
  recordings_of [] = some []
  recordings_of (v ∷ vs) = and_recording (recording_of (record_fields v)) (recordings_of vs)

  abbrev job_fields : (call_id transcript_pending recordings : Value Num) → Option RetentionJob
  job_fields (str call_id) (bool pending) (arr vs) =
      with_recordings call_id pending (recordings_of (items vs))
  job_fields call_id pending recordings = none

  -- `isJob`, with the job that it then is.
  unfoldable pub read_job : Value Num → Option RetentionJob
  read_job v = elim (record_fields v) [
    | none ↦ none
    | some fs ↦ job_fields (get fs "call_id") (get fs "transcript_pending") (get fs "recordings")
  ]

  unfoldable pub read_jobs : List (Value Num) → Option (List RetentionJob)
  read_jobs [] = some []
  read_jobs (v ∷ vs) = and_job (read_job v) (read_jobs vs)

  -- The checks of what was claimed: no job is used unless all are well formed.
  abbrev pub claimed_jobs : Result OutboxError (Value Num) → Result OutboxError (List RetentionJob)
  claimed_jobs (err error) = err error
  claimed_jobs (ok (arr vs)) = valid_jobs (read_jobs (items vs))
  claimed_jobs (ok v) = err (other_error "Invalid retention claim result")

abbrev pub response_error : ℕ → Option DeletionError
response_error status =
    if not (eqb status 204) && not (eqb status 404) then some (delete_http status) else none

abbrev pub fetch_error : Result FetchError ℕ → Option DeletionError
fetch_error (ok status) = response_error status
fetch_error (err aborted) = some delete_timeout
fetch_error (err broken) = some delete_failed

module _ {Num : Type 0} (d : RetentionDependencies Num) where
  abbrev Run : Type 0 → Type 0
  Run A = Act OutboxError RetentionCall A

  abbrev fetch_recording : String → Run (Option DeletionError)
  fetch_recording sid log = (ok (fetch_error (d.delete (delete sid ∷ log))), delete sid ∷ log)

  abbrev pub deletion_with :
      (has_credentials is_timeout_valid : Bool) → String → Run (Option DeletionError)
  deletion_with false is_timeout_valid sid = pure (some credentials_missing)
  deletion_with true false sid = pure (some delete_failed)
  deletion_with true true sid = fetch_recording sid

  -- The first half of `deleteRecording`: the error code of the deletion.
  unfoldable pub deletion : String → Run (Option DeletionError)
  deletion sid = deletion_with d.has_credentials d.is_timeout_valid sid

  abbrev demand_persisted : Bool → Run Unit
  demand_persisted true = pure tt
  demand_persisted false = throw (other_error "Recording deletion was not persisted")

  -- The second half; that it was not persisted is only logged.
  unfoldable pub report : String → String → Option DeletionError → Run Unit
  report call_id sid error_code =
      try_catch
        (do
          persisted ← perform (complete call_id sid error_code) d.complete
          demand_persisted persisted)
        (λ error. pure tt)

  unfoldable pub delete_recording : String → String → Run Unit
  delete_recording call_id sid = do error_code ← deletion sid; report call_id sid error_code

  unfoldable pub purge_transcript_of : RetentionJob → Run Unit
  purge_transcript_of job =
      if job.transcript_pending
      then try_catch (perform (purge_transcript job.call_id) d.purge) (λ error. pure tt)
      else pure tt

  unfoldable pub process_job : RetentionJob → Run Unit
  process_job job = do
    purge_transcript_of job
    deliver_all (delete_recording job.call_id) job.recordings

  -- `runOnce`, for `DEFAULT_BATCH_SIZE` jobs
  abbrev pub run_retention_once : Worker RetentionCall → Result OutboxError ℕ × Worker RetentionCall
  run_retention_once =
      run_once 0 (run_batch (claim 100) (λ log. claimed_jobs (d.claim log)) process_job)
