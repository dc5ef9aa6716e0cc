-- ===== src/Workers/Contact/Traces.antt =====
-- What one run of the worker can have called.
use ctrl_alt_ship.Prelude.{
  ℕ, ◌+◌, String, ◌≡◌, refl, ◌⊎◌, inl, inr, Bool, true, false, none, some, List, [], ◌∷◌, arith,
  Result, ok, err, Result-cases, if◌then◌else◌,
}
use ctrl_alt_ship.ToolError.{Thrown}
use ctrl_alt_ship.Workers.Contact.{
  ClaimedProviderContact, Dispatch, dialed, undialed, ContactCall, claim_next, begin, dial, finish,
  advance_round, ContactDependencies, FinishProviderContactResult, finish_dialed,
  finish_dispatch_failure, dispatched, contact, dispatch, advance, run_once,
}

abbrev is_dial : ContactCall → ℕ
is_dial (dial job) = 1
is_dial _ = 0

-- How often a provider was dialed.
abbrev pub dials : List ContactCall → ℕ
dials [] = 0
dials (c ∷ log) = is_dial c + dials log

abbrev is_advance : ContactCall → ℕ
is_advance (advance_round id) = 1
is_advance _ = 0

abbrev pub advances : List ContactCall → ℕ
advances [] = 0
advances (c ∷ log) = is_advance c + advances log

module _ (d : ContactDependencies) where
  module _ (job : ClaimedProviderContact) (log : List ContactCall) where
    -- The record of one dispatch.
    abbrev pub finish_of : Dispatch → ContactCall
    finish_of dispatch = finish job.outbox_id job.call_id job.lock_token dispatch

    -- The SID of a call that exists is persisted, and once more just if that failed.
    abbrev pub PersistsSid : String → List ContactCall → Type 0
    PersistsSid sid final =
        ((final ≡ finish_of (dialed sid) ∷ dial job ∷ log)
          × ((r : FinishProviderContactResult) × (d.finish (finish_of (dialed sid) ∷ dial job ∷ log)
                ≡ ok r)))
        ⊎ ((final ≡ finish_of (dialed sid) ∷ finish_of (dialed sid) ∷ dial job ∷ log)
            × ((e : Thrown) × (d.finish (finish_of (dialed sid) ∷ dial job ∷ log) ≡ err e)))

    abbrev pub Persists : Result Thrown String → List ContactCall → Type 0
    Persists (ok sid) final = PersistsSid sid final
    Persists (err error) final = final ≡ finish_of (undialed error) ∷ dial job ∷ log

    finish_dialed-Persists :
        (sid : String)
        → ((finish_dialed d job sid (dial job ∷ log)).0 ≡ ok tt)
          × PersistsSid sid (finish_dialed d job sid (dial job ∷ log)).1
    unfolding finish_dialed
    finish_dialed-Persists sid =
        elim (Result-cases (d.finish (finish_of (dialed sid) ∷ dial job ∷ log))) [
          | inl (r, e) ↦ rw e (refl, inl (refl, (r, refl)))
          | inr (error, e) ↦ (ground arith, inr (ground arith, (error, e)))
        ]

    finish_dispatch_failure-Persists :
        (error : Thrown)
        → ((finish_dispatch_failure d job error (dial job ∷ log)).0 ≡ ok tt)
          × ((finish_dispatch_failure d job error (dial job ∷ log)).1
              ≡ finish_of (undialed error) ∷ dial job ∷ log)
    unfolding finish_dispatch_failure
    finish_dispatch_failure-Persists error = ground arith

    dispatched-Persists :
        (r : Result Thrown String)
        → ((dispatched d job r (dial job ∷ log)).0 ≡ ok tt)
          × Persists r (dispatched d job r (dial job ∷ log)).1
    dispatched-Persists (ok sid) = finish_dialed-Persists sid
    dispatched-Persists (err error) = finish_dispatch_failure-Persists error

    -- A dispatch never throws. It dials once, first of all; then it persists the SID of the call
    -- that now exists, once more just if that failed, or it persists the error.
    pub dispatch-Persists :
        ((dispatch d job log).0 ≡ ok tt) × Persists (d.dial (dial job ∷ log)) (dispatch d job log).1
    unfolding dispatch
    dispatch-Persists = dispatched-Persists (d.dial (dial job ∷ log))

    dials-dispatch : dials (dispatch d job log).1 ≡ dials log + 1
    unfolding dispatch finish_dialed finish_dispatch_failure
    dials-dispatch = ground arith

    advances-dispatch : advances (dispatch d job log).1 ≡ advances log
    unfolding dispatch finish_dialed finish_dispatch_failure
    advances-dispatch = ground arith

  module _ (id : String) (log : List ContactCall) where
    dials-advance : dials (advance d id log).1 ≡ dials log
    unfolding advance
    dials-advance = ground arith

    advances-advance : advances (advance d id log).1 ≡ advances log + 1
    unfolding advance
    advances-advance = ground arith

  module _ (job : ClaimedProviderContact) (log : List ContactCall) where
    contact-counts :
        (should_dial : Bool)
        → (dials (contact d job should_dial log).1 ≡ dials log + (if should_dial then 1 else 0))
          × (advances (contact d job should_dial log).1 ≡ advances log + 1)
    contact-counts false =
        (omega (arith, dials-advance job.operation_id log), advances-advance job.operation_id log)
    contact-counts true =
        let (fine, _) = dispatch-Persists job log in
        let final = (dispatch d job log).1 in
        rw fine (
          omega (arith, dials-dispatch job log, dials-advance job.operation_id final),
          omega (arith, advances-dispatch job log, advances-advance job.operation_id final),
        )

  module _ (log : List ContactCall) where
    -- The run holds a job, and the repository has answered whether to dial.
    abbrev pub Begun : Bool → Type 0
    Begun should_dial =
        (job : ClaimedProviderContact) × (d.claim_next (claim_next ∷ log) ≡ ok (some job))
        × (d.begin (begin job.outbox_id job.call_id job.lock_token ∷ claim_next ∷ log)
            ≡ ok should_dial)

    -- The calls of a run that ends before a job has begun.
    abbrev pub Idle : Type 0
    Idle = (dials (run_once d log).1 ≡ dials log) × (advances (run_once d log).1 ≡ advances log)

    abbrev pub Counts : Type 0
    Counts =
        ((should_dial : Bool) × Begun should_dial
          × (dials (run_once d log).1 ≡ dials log + (if should_dial then 1 else 0))
          × (advances (run_once d log).1 ≡ advances log + 1))
        ⊎ (¬ ((should_dial : Bool) × Begun should_dial) × Idle)

    -- A run dials once, and only a job that it has claimed and was allowed to dial. Once the
    -- repository has answered that, the sourcing round is advanced just once, whatever becomes of
    -- the call. Without such an answer nobody is dialed and no round is advanced.
    pub run_once-counts : Counts
    unfolding run_once
    run_once-counts =
        let begun = λ (job : ClaimedProviderContact) (should_dial : Bool).
          contact-counts job (begin job.outbox_id job.call_id job.lock_token ∷ claim_next ∷ log)
            should_dial in
        elim (Result-cases (d.claim_next (claim_next ∷ log))) [
          | inr (error, e) ↦ inr (λ b. cc (b.1.1), rw e (omega arith, omega arith))
          | inl (none, e) ↦ inr (λ b. cc (b.1.1), rw e (omega arith, omega arith))
          | inl (some job, e) ↦
              elim (Result-cases
                (d.begin (begin job.outbox_id job.call_id job.lock_token ∷ claim_next ∷ log))) [
                  | inr (error, f) ↦ inr (λ b. cc (b.1.1), rw e (rw f (omega arith, omega arith)))
                  | inl (should_dial, f) ↦ inl (
                    should_dial,
                    (job, e, f),
                    rw e (rw f (omega (arith, (begun job should_dial).0))),
                    rw e (rw f (omega (arith, (begun job should_dial).1))),
                  )
                ]
        ]
