-- ===== src/Examples/Realtime.antt =====
-- The voice session of a client's call that is transferred.
use ctrl_alt_ship.Prelude.{ℕ, ◌≤◌, ◌≡◌, refl, true, false, List, [], ◌∷◌, keep, some, none, ok, err}
use ctrl_alt_ship.Js.{Value, null, bool, obj, object_prototype, field, end, get}
use ctrl_alt_ship.ToolError.{tool_error, operation_not_available}
use ctrl_alt_ship.Tools.Session.Definitions.{Setup, CallToolSession}
use ctrl_alt_ship.Tools.Session.Execution.{Services}
use ctrl_alt_ship.Realtime.CallSession.{
  Hooks, AgentsCallSession, Event, tool_called, tool_answered, tools_refreshed, tool_ended,
  interrupted, transcript_recorded, new_call_session, step, run, start_call, answer_call,
  refresh_call, conclude_at, conclude, note_progress, begin_execute, is_escalation, configure,
  end_tool, execute_call, evidence_segment, invocation_of,
}
use ctrl_alt_ship.Realtime.CallSession.Confirmed.{
  is_invoked, is_interrupt, IsConfirmed, run-IsStillConfirmed,
}
use ctrl_alt_ship.Realtime.CallSession.Farewell.{farewells, count, farewells-le}
use ctrl_alt_ship.Realtime.CallSession.Evidence.{evidence_segment-again}
use ctrl_alt_ship.Realtime.CallSession.Answers.{IsReported, tool_result, execute_call-IsReported}

abbrev setup : Setup
setup = record {
  tools = "create_quote" ∷ "escalate" ∷ "confirm_escalation" ∷ "cancel_escalation" ∷ [];
  client_service = false;
  provider_service = false;
  booking_service = false;
}

abbrev services : Services ℕ (Value ℕ)
services = record {
  client_state = λ log. err (tool_error operation_not_available);
  quote_state = λ log. err (tool_error operation_not_available);
  booking_state = λ log. err (tool_error operation_not_available);
  tool = λ log. ok (obj object_prototype (field "handoff_ready" (bool true) end));
}

abbrev hooks : Hooks
hooks = record { on_progress = some (λ before. ok tt); on_escalation_ready = true }

-- A person was asked for and is to be confirmed.
abbrev pending : CallToolSession ℕ
pending = record { ready = true; state = none; provider_state = none; pending_escalation = true }

abbrev handed_off : Value ℕ
handed_off = obj object_prototype (field "handoff_ready" (bool true) end)

abbrev confirmation : List (Event ℕ)
confirmation =
    tool_called "confirm_escalation" null "call-1"
    ∷ tool_answered "call-1" (ok handed_off) pending
    ∷ tools_refreshed "call-1" (ok tt) pending
    ∷ tool_ended "confirm_escalation"
    ∷ []

-- A quote is still under way when the transfer is confirmed.
abbrev overlapping : List (Event ℕ)
overlapping = tool_called "create_quote" null "call-0" ∷ confirmation

abbrev attempts : List (Event ℕ)
attempts =
    tool_answered "call-0" (ok null) pending
    ∷ tool_called "cancel_escalation" null "call-2"
    ∷ interrupted
    ∷ []

confirmed :
    (run setup services hooks (new_call_session setup pending) overlapping).handoff_confirmed ≡ true
unfolding run step new_call_session start_call evidence_segment answer_call note_progress
    refresh_call conclude_at conclude is_escalation configure end_tool get
confirmed = refl

run-IsStillConfirmed_example :
    let before = run setup services hooks (new_call_session setup pending) overlapping in
    IsConfirmed
      (keep is_invoked before.effects)
      (keep is_interrupt before.effects)
      (run setup services hooks before attempts)
run-IsStillConfirmed_example =
    run-IsStillConfirmed setup services hooks pending overlapping attempts confirmed

farewells-le_example :
    let after = run setup services hooks (new_call_session setup pending) confirmation in
    farewells after.effects ≤ count after.handoff_confirmed
unfolding new_call_session
farewells-le_example =
    farewells-le setup services hooks pending confirmation (refl, (tt, (tt, (tt, tt))))

abbrev heard : AgentsCallSession ℕ
unfolding new_call_session
heard = record (new_call_session setup pending) {
  latest_caller_transcript_segment_id = some "segment-1";
}

evidence_segment-again_example :
    evidence_segment "create_quote" "call-1" (
      run setup services hooks
        (step setup services hooks heard (tool_called "create_quote" null "call-1"))
        (transcript_recorded "segment-2" ∷ []))
    ≡ some "segment-1"
unfolding evidence_segment heard
evidence_segment-again_example =
    evidence_segment-again setup services hooks heard null "call-1" "segment-1"
      (transcript_recorded "segment-2" ∷ []) refl refl (refl, tt)

execute_call-IsReported_example :
    let invocation =
      invocation_of setup services hooks "call-1"
        (evidence_segment "confirm_escalation" "call-1" heard) in
    let (r, refreshed) =
      tool_result setup services hooks "confirm_escalation" null invocation heard.tools
        heard.calls in
    let begun = (begin_execute setup services hooks "confirm_escalation" null "call-1" heard).2 in
    let after =
      execute_call setup services hooks (λ s. false) "confirm_escalation" null "call-1" heard in
    IsReported hooks "confirm_escalation" r refreshed false after.0 after.1
unfolding heard
execute_call-IsReported_example =
    execute_call-IsReported setup services hooks (λ s. false) "confirm_escalation" null "call-1"
      heard refl
