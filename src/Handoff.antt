-- ===== src/Handoff.antt =====
-- backend/src/tango/telephony/escalation-handoff-coordinator.ts: the one-shot live transfer of a
-- call. A method that waits is cut at its `await`: `cancel` into `begin_cancel` and `finish_cancel`,
-- `onAudioStopped` into `on_audio_stopped` and `finish_refer`. Log lines are left out.
pub mod System
pub mod Invariant
pub mod Confirmation
use ctrl_alt_ship.Prelude.{
  String, Bool, true, false, not, ◌&&◌, ◌||◌, Option, none, some, is_some, ◌==◌, if◌then◌else◌,
  Result, ok, err,
}

pub record EscalationHandoff : Type 0 where
  pub realtime_call_id : String
  pub supervisor_target_uri : String

pub record EscalationHandoffCoordinator : Type 0 where
  pub handoff : Option EscalationHandoff
  pub farewell_response_id : Option String
  pub awaiting_farewell_response : Bool
  pub referred : Bool
  pub transfer_started : Bool
  pub cancelling : Bool

abbrev pub new_coordinator : EscalationHandoffCoordinator
new_coordinator = record {
  handoff = none;
  farewell_response_id = none;
  awaiting_farewell_response = false;
  referred = false;
  transfer_started = false;
  cancelling = false;
}

pub data HandoffError : Type 0 where
  transfer_started_or_cancelling already_prepared not_prepared : HandoffError
  already_tracked transfer_already_started : HandoffError

-- A method may throw behind a change of the object.
abbrev pub Outcome : Type 0 → Type 0
Outcome A = EscalationHandoffCoordinator × Result HandoffError A

-- A response id that counts as true: there is one and it is not empty.
abbrev pub is_tracked : Option String → Bool
is_tracked none = false
is_tracked (some id) = not (id == "")

abbrev pub is_farewell : Option String → String → Bool
is_farewell none id = false
is_farewell (some farewell) id = id == farewell

module _ (c : EscalationHandoffCoordinator) where
  unfoldable pub can_return : Bool
  can_return = not c.transfer_started && not c.cancelling

  unfoldable pub interrupt_farewell : EscalationHandoffCoordinator
  interrupt_farewell = record c { awaiting_farewell_response = false; farewell_response_id = none }

  -- `cancel` up to the wait for `persist`.
  unfoldable pub begin_cancel : Outcome Unit
  unfolding can_return interrupt_farewell
  begin_cancel =
      if not can_return
      then (c, err transfer_started_or_cancelling)
      else (record interrupt_farewell { cancelling = true }, ok tt)

  -- `cancel` behind the wait; `persisted` tells whether `persist` returned.
  unfoldable pub finish_cancel : Bool → EscalationHandoffCoordinator
  finish_cancel true = record c { handoff = none; cancelling = false }
  finish_cancel false = record c { cancelling = false }

  unfoldable pub prepare : EscalationHandoff → Outcome Unit
  prepare handoff =
      if is_some c.handoff
      then (c, err already_prepared)
      else (record c { handoff = some handoff }, ok tt)

  unfoldable pub track_farewell_response : String → Outcome Unit
  track_farewell_response id =
      if not (is_some c.handoff)
      then (c, err not_prepared)
      else if is_tracked c.farewell_response_id
      then (c, err already_tracked)
      else (record c { farewell_response_id = some id }, ok tt)

  unfoldable pub begin_farewell : Outcome Unit
  unfolding can_return interrupt_farewell
  begin_farewell =
      if not (is_some c.handoff)
      then (c, err not_prepared)
      else if not can_return
      then (c, err transfer_already_started)
      else (record interrupt_farewell { awaiting_farewell_response = true }, ok tt)

  -- `onAudioStopped` up to the request: the handoff for which REFER is asked, if any.
  unfoldable pub on_audio_stopped : String → EscalationHandoffCoordinator × Option EscalationHandoff
  on_audio_stopped id =
      if not (is_some c.handoff)
      then (c, none)
      else if c.transfer_started || c.cancelling || not (is_farewell c.farewell_response_id id)
      then (c, none)
      else (record c { transfer_started = true }, c.handoff)

  -- `onAudioStopped` behind the request; `accepted` tells whether it was answered.
  unfoldable pub finish_refer : Bool → EscalationHandoffCoordinator
  finish_refer true = record c { referred = true }
  finish_refer false = c

abbrev told : {A : Type 0} → A → Result HandoffError Unit → Result HandoffError A
told a (ok u) = ok a
told a (err e) = err e

unfoldable pub observe_response_created : EscalationHandoffCoordinator → String → Outcome Bool
unfolding track_farewell_response
observe_response_created c id =
    if not c.awaiting_farewell_response || is_tracked c.farewell_response_id
    then (c, ok false)
    else (let (c', r) =
          track_farewell_response (record c { awaiting_farewell_response = false }) id in
        (c', told true r))
