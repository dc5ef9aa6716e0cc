-- ===== src/Workers/Contact.antt =====
-- backend/src/tango/workers/provider-contact-worker.ts: one durable job that calls a provider.
-- The repository, the dialer and the hook are a parameter that answers in any way. Log lines are
-- left out.
pub mod Traces
use ctrl_alt_ship.Prelude.{
  ℕ, suc, String, Bool, true, false, Option, none, some, List, [], ◌∷◌, Result, ok, err, Act, pure,
  throw, perform, try_catch, ◌>>=◌, ◌>>◌,
}
use ctrl_alt_ship.ToolError.{Thrown}
use ctrl_alt_ship.CallFlow.{ProviderOutboundPurpose}

pub data ProviderAttempt : Type 0 where
  first second third : ProviderAttempt

pub data ProviderDispatchState : Type 0 where
  prepared dispatching accepted unknown failed : ProviderDispatchState

pub record ClaimedProviderContact : Type 0 where
  pub outbox_id : String
  pub call_id : String
  pub lock_token : String
  pub operation_id : String
  pub round_id : String
  pub quote_request_id : String
  pub provider_id : String
  pub provider_phone : String
  pub purpose : ProviderOutboundPurpose
  pub attempt : ProviderAttempt

pub record FinishProviderContactResult : Type 0 where
  pub dispatch_state : ProviderDispatchState
  pub persisted : Bool

-- How the dispatch ended: with the call's SID, or with an error, whose kind is always "ambiguous"
-- and of whose message the first 500 characters are sent.
pub data Dispatch : Type 0 where
  dialed : (sid : String) → Dispatch
  undialed : Thrown → Dispatch

pub data ContactCall : Type 0 where
  claim_next : ContactCall
  begin : (outbox_id call_id lock_token : String) → ContactCall
  dial : ClaimedProviderContact → ContactCall
  finish : (outbox_id call_id lock_token : String) → Dispatch → ContactCall
  advance_round : (operation_id : String) → ContactCall
  round_advanced : (operation_id : String) → ContactCall

pub record ContactDependencies : Type 0 where
  pub claim_next : List ContactCall → Result Thrown (Option ClaimedProviderContact)
  -- `should_dial`
  pub begin : List ContactCall → Result Thrown Bool
  -- the SID
  pub dial : List ContactCall → Result Thrown String
  pub finish : List ContactCall → Result Thrown FinishProviderContactResult
  pub advance : List ContactCall → Result Thrown (Unit {0})
  pub on_round_advanced : Option (List ContactCall → Result Thrown (Unit {0}))

module _ (d : ContactDependencies) where
  abbrev Run : Type 0 → Type 0
  Run A = Act Thrown ContactCall A

  abbrev hook : Option (List ContactCall → Result Thrown (Unit {0})) → String → Run Unit
  hook none operation_id = pure tt
  hook (some f) operation_id = perform (round_advanced operation_id) f

  unfoldable pub advance : String → Run Unit
  advance operation_id = do
    perform (advance_round operation_id) d.advance
    hook d.on_round_advanced operation_id

  abbrev pub finish_call : ClaimedProviderContact → Dispatch → ContactCall
  finish_call job dispatch = finish job.outbox_id job.call_id job.lock_token dispatch

  -- `repository.finish` where only the log tells what it answered.
  abbrev persist : ClaimedProviderContact → Dispatch → Run Unit
  persist job dispatch = do perform (finish_call job dispatch) d.finish; pure tt

  unfoldable pub finish_dispatch_failure : ClaimedProviderContact → Thrown → Run Unit
  finish_dispatch_failure job error =
      try_catch (persist job (undialed error)) (λ finish_error. pure tt)

  -- The call exists: persist its SID, and try once more with the same SID.
  unfoldable pub finish_dialed : ClaimedProviderContact → String → Run Unit
  finish_dialed job sid =
      try_catch (persist job (dialed sid))
        (λ error. try_catch (persist job (dialed sid)) (λ retry_error. pure tt))

  abbrev pub dispatched : ClaimedProviderContact → Result Thrown String → Run Unit
  dispatched job (ok sid) = finish_dialed job sid
  dispatched job (err error) = finish_dispatch_failure job error

  unfoldable pub dispatch : ClaimedProviderContact → Run Unit
  unfolding finish_dialed finish_dispatch_failure
  dispatch job log = let r = d.dial (dial job ∷ log) in dispatched job r (dial job ∷ log)

  abbrev pub contact : ClaimedProviderContact → Bool → Run Unit
  contact job false = advance job.operation_id
  contact job true = do dispatch job; advance job.operation_id

  abbrev pub handle : Option ClaimedProviderContact → Run Unit
  handle none = pure tt
  handle (some job) = do
    should_dial ← perform (begin job.outbox_id job.call_id job.lock_token) d.begin
    contact job should_dial

  unfoldable pub run_once : Run Unit
  run_once = do job ← perform claim_next d.claim_next; handle job
