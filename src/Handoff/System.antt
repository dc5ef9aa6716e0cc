-- ===== src/Handoff/System.antt =====
-- The coordinator with what it waits for, under any order of events.
use ctrl_alt_ship.Prelude.{
  String, Bool, true, false, Option, none, some, List, [], ◌∷◌, if◌then◌else◌, Result, ok, err,
}
use ctrl_alt_ship.Handoff.{
  EscalationHandoff, EscalationHandoffCoordinator, HandoffError, new_coordinator, begin_cancel,
  finish_cancel, interrupt_farewell, prepare, track_farewell_response, begin_farewell,
  observe_response_created, on_audio_stopped, finish_refer,
}

-- A call of a method, or the end of a wait.
pub data Event : Type 0 where
  prepared : EscalationHandoff → Event
  farewell_begun speech_started interrupted cancel_asked : Event
  persisted : Bool → Event
  response_created audio_stopped tracked : String → Event
  refer_answered : Bool → Event

-- `persisting` and `referring` tell whether the wait of `cancel` and that of `onAudioStopped` are
-- open; `requests` are the handoffs for which REFER was asked, the latest first.
pub record System : Type 0 where
  pub coordinator : EscalationHandoffCoordinator
  pub persisting : Bool
  pub referring : Bool
  pub requests : List EscalationHandoff

abbrev pub initial : System
initial = record {
  coordinator = new_coordinator;
  persisting = false;
  referring = false;
  requests = [];
}

abbrev after_begin_cancel :
    System → EscalationHandoffCoordinator → Result HandoffError Unit → System
after_begin_cancel s c (ok u) = record s { coordinator = c; persisting = true }
after_begin_cancel s c (err e) = record s { coordinator = c }

abbrev after_audio : System → EscalationHandoffCoordinator → Option EscalationHandoff → System
after_audio s c none = record s { coordinator = c }
after_audio s c (some h) = record s { coordinator = c; referring = true; requests = h ∷ s.requests }

-- One event. The end of a wait that is not open does nothing.
unfoldable pub step : System → Event → System
unfolding begin_cancel finish_cancel interrupt_farewell prepare track_farewell_response
    begin_farewell observe_response_created on_audio_stopped finish_refer
step s (prepared h) = record s { coordinator = (prepare s.coordinator h).0 }
step s farewell_begun = record s { coordinator = (begin_farewell s.coordinator).0 }
step s speech_started = s
step s interrupted = record s { coordinator = interrupt_farewell s.coordinator }
step s cancel_asked = let (c, r) = begin_cancel s.coordinator in after_begin_cancel s c r
step s (persisted b) =
    if s.persisting
    then record s { coordinator = finish_cancel s.coordinator b; persisting = false }
    else s
step s (response_created id) = record s {
  coordinator = (observe_response_created s.coordinator id).0;
}
step s (tracked id) = record s { coordinator = (track_farewell_response s.coordinator id).0 }
step s (audio_stopped id) = let (c, h) = on_audio_stopped s.coordinator id in after_audio s c h
step s (refer_answered b) =
    if s.referring
    then record s { coordinator = finish_refer s.coordinator b; referring = false }
    else s

-- The events in order.
unfoldable pub run : System → List Event → System
run s [] = s
run s (e ∷ es) = run (step s e) es
