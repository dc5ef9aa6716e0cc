-- ===== src/Workers/Retention/Disposal.antt =====
-- What the disposal of evidence reports, and that no failure stops it.
use mathlib.Core.Path.{subst}
use ctrl_alt_ship.Prelude.{
  ℕ, String, ◌≡◌, refl, ap, ◌∙◌, ◌⊎◌, Bool, true, false, Option, none, List, [], ◌∷◌, arith, Result,
  ok, err,
}
use ctrl_alt_ship.Workers.Outbox.{OutboxError, Worker}
use ctrl_alt_ship.Workers.Outbox.Runs.{
  after_all, Runs, run_once-Runs, deliver_all-calm, deliver_all-view,
}
use ctrl_alt_ship.Workers.Retention.{
  RetentionJob, DeletionError, FetchError, aborted, broken, response_error, fetch_error,
  deletion_with, RetentionCall, claim, delete, complete, RetentionDependencies, claimed_jobs,
  deletion, report, delete_recording, purge_transcript_of, process_job, run_retention_once,
}

module _ {Num : Type 0} (d : RetentionDependencies Num) where
  -- The network has answered that the recording is deleted, or that there is none.
  abbrev pub Gone : String → List RetentionCall → Type 0
  Gone sid log =
      (d.has_credentials ≡ true)
      × (d.is_timeout_valid ≡ true)
      × (status : ℕ) × (d.delete (delete sid ∷ log) ≡ ok status)
      × ((status ≡ 204) ⊎ (status ≡ 404))

  -- The last call of a deletion reports it, with no error just if the recording is gone.
  abbrev pub Reports : String → String → List RetentionCall → List RetentionCall → Type 0
  Reports call_id sid log final =
      (error_code : Option DeletionError) × (calls : List RetentionCall) × (final
        ≡ complete call_id sid error_code ∷ calls)
      × (error_code ≡ none → Gone sid log)
      × (Gone sid log → error_code ≡ none)

  abbrev Decided : String → List RetentionCall → Result OutboxError (Option DeletionError) → Type 0
  Decided sid log r =
      (error_code : Option DeletionError) × (r ≡ ok error_code)
      × (error_code ≡ none → Gone sid log)
      × (Gone sid log → error_code ≡ none)

  is_deleted : (status : ℕ) → response_error status ≡ none → (status ≡ 204) ⊎ (status ≡ 404)
  is_deleted status h = ground arith

  deleted_status : (status : ℕ) → (status ≡ 204) ⊎ (status ≡ 404) → response_error status ≡ none
  deleted_status status h = ground arith

  fetched-Gone :
      (sid : String) (log : List RetentionCall)
      → d.has_credentials ≡ true
      → d.is_timeout_valid ≡ true
      → (r : Result FetchError ℕ) → d.delete (delete sid ∷ log) ≡ r
      → Decided sid log (ok (fetch_error r))
  fetched-Gone sid log a b (ok status) e = (
    _,
    refl,
    (λ h. (a, b, status, e, is_deleted status h)),
    λ g.
        let same : g.2 ≡ status = cc (g.3, e) in
        deleted_status status (subst (λ n. (n ≡ 204) ⊎ (n ≡ 404)) same g.4),
  )
  fetched-Gone sid log a b (err aborted) e = (_, refl, (λ h. cc h), λ g. cc (e, g.3))
  fetched-Gone sid log a b (err broken) e = (_, refl, (λ h. cc h), λ g. cc (e, g.3))

  deletion_with-Gone :
      (sid : String) (log : List RetentionCall) (a b : Bool)
      → d.has_credentials ≡ a
      → d.is_timeout_valid ≡ b
      → Decided sid log (deletion_with d a b sid log).0
  deletion_with-Gone sid log false b e f = (_, refl, (λ h. cc h), λ g. cc (e, g.0))
  deletion_with-Gone sid log true false e f = (_, refl, (λ h. cc h), λ g. cc (f, g.1))
  deletion_with-Gone sid log true true e f =
      fetched-Gone sid log e f (d.delete (delete sid ∷ log)) refl

  report-calm :
      (call_id sid : String) (error_code : Option DeletionError) (log : List RetentionCall)
      → report d call_id sid error_code log ≡ (ok tt, complete call_id sid error_code ∷ log)
  unfolding report
  report-calm call_id sid error_code log = ground arith

  -- A deletion never throws, and its last call reports how it ended: with no error just if there were
  -- credentials and a valid timeout and the network has answered with status 204 or 404.
  pub delete_recording-Reports :
      (call_id sid : String) (log : List RetentionCall)
      → ((delete_recording d call_id sid log).0 ≡ ok tt)
        × Reports call_id sid log (delete_recording d call_id sid log).1
  unfolding delete_recording deletion
  delete_recording-Reports call_id sid log =
      let (code, e, to, from) =
        deletion_with-Gone sid log d.has_credentials d.is_timeout_valid refl refl in
      let calls = (deletion_with d d.has_credentials d.is_timeout_valid sid log).1 in
      rw (e, report-calm call_id sid code calls) (refl, (code, calls, refl, to, from))

  abbrev pub reports : RetentionCall → List (String × String) → List (String × String)
  reports (complete call_id sid error_code) done = (call_id, sid) ∷ done
  reports _ done = done

  -- The recordings of which the end of the deletion was reported, the latest first.
  abbrev pub reported : List RetentionCall → List (String × String)
  reported [] = []
  reported (c ∷ log) = reports c (reported log)

  abbrev pub disposes : String → String → List (String × String) → List (String × String)
  disposes call_id sid done = (call_id, sid) ∷ done

  -- Each recording of the job, once and in order.
  abbrev pub disposes_all : RetentionJob → List (String × String) → List (String × String)
  disposes_all job done = after_all (disposes job.call_id) job.recordings done

  reported-deletion :
      (b c : Bool) (sid : String) (log : List RetentionCall)
      → reported (deletion_with d b c sid log).1 ≡ reported log
  reported-deletion false c sid log = refl
  reported-deletion true false sid log = refl
  reported-deletion true true sid log = refl

  reported-delete_recording :
      (call_id sid : String) (log : List RetentionCall)
      → reported (delete_recording d call_id sid log).1 ≡ disposes call_id sid (reported log)
  unfolding delete_recording deletion
  reported-delete_recording call_id sid log =
      let (code, e, to, from) =
        deletion_with-Gone sid log d.has_credentials d.is_timeout_valid refl refl in
      let calls = (deletion_with d d.has_credentials d.is_timeout_valid sid log).1 in
      rw (e, report-calm call_id sid code calls)
        (ap (disposes call_id sid) (reported-deletion d.has_credentials d.is_timeout_valid sid log))

  purge-calm :
      (job : RetentionJob) (log : List RetentionCall)
      → ((purge_transcript_of d job log).0 ≡ ok tt)
        × (reported (purge_transcript_of d job log).1 ≡ reported log)
  unfolding purge_transcript_of
  purge-calm job log = ground arith

  process_job-calm :
      (job : RetentionJob) (log : List RetentionCall) → (process_job d job log).0 ≡ ok tt
  unfolding process_job
  process_job-calm job log = rw ((purge-calm job log).0) (
      deliver_all-calm (delete_recording d job.call_id)
        (λ sid calls. (delete_recording-Reports job.call_id sid calls).0) job.recordings
        (purge_transcript_of d job log).1)

  reported-process_job :
      (job : RetentionJob) (log : List RetentionCall)
      → reported (process_job d job log).1 ≡ disposes_all job (reported log)
  unfolding process_job
  reported-process_job job log = rw ((purge-calm job log).0) (
      deliver_all-view (delete_recording d job.call_id)
        (λ sid calls. (delete_recording-Reports job.call_id sid calls).0) reported
        (disposes job.call_id) (reported-delete_recording job.call_id) job.recordings
        (purge_transcript_of d job log).1
      ∙ ap (after_all (disposes job.call_id) job.recordings) (purge-calm job log).1)

  -- A run that overlaps another does nothing. Any other run leaves the flag reset. It throws if the
  -- jobs cannot be claimed or one of them is malformed, and has then called nothing else; else it
  -- returns their number, and has reported the end of the deletion of each of their recordings, once
  -- and in order, whatever failed.
  pub run_retention_once-Runs :
      (worker : Worker RetentionCall)
      → Runs reported disposes_all
          (claim 100)
          (λ log. claimed_jobs (d.claim log))
          worker
          (run_retention_once d worker)
  run_retention_once-Runs worker =
      run_once-Runs (process_job d) process_job-calm reported disposes_all reported-process_job
        (claim 100) (λ log. claimed_jobs (d.claim log)) worker (λ log. refl)
