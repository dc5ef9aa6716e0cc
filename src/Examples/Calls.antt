-- ===== src/Examples/Calls.antt =====
-- Escalations, lists and handoffs.
use ctrl_alt_ship.Prelude.{ℕ, ◌≤◌, ◌≡◌, refl, List, [], ◌∷◌, none, ok, err, length}
use ctrl_alt_ship.Js.{Value, str, end, field}
use ctrl_alt_ship.CallFlow.{client_inbound}
use ctrl_alt_ship.Examples.Host.{scope_of, arguments_of}
use ctrl_alt_ship.Escalation.{EscalationRepository, not_configured}
use ctrl_alt_ship.Escalation.Requests.{Starts, start-IsRequest}
use ctrl_alt_ship.Handoff.{
  EscalationHandoff, begin_cancel, can_return, transfer_started_or_cancelling,
}
use ctrl_alt_ship.Handoff.System.{
  System, Event, initial, step, run, prepared, farewell_begun, speech_started, cancel_asked,
  response_created, audio_stopped,
}
use ctrl_alt_ship.Handoff.Invariant.{
  run-IsValid, initial-IsValid, requests-le-one, started_is_final,
}
use ctrl_alt_ship.Handoff.Confirmation.{farewell_requests}

abbrev cases : EscalationRepository
cases = record {
  create = λ log. ok (record {
    escalation_id = "e-1";
    operation_reference = "OP-000001";
    handoff_status = not_configured;
    recipient = none;
  });
  cancel = λ log. ok tt;
}

abbrev plea : Value ℕ
plea = arguments_of (
    field "trigger" (str "explicit_human_request") (
      field "reason" (str "wants a person")
        (field "summary" (str " asked twice ") (field "requested_action" (str "call back") end))))

start-IsRequest_example : Starts cases (scope_of client_inbound) plea "tool-1" []
start-IsRequest_example = start-IsRequest cases (scope_of client_inbound) plea "tool-1" []

abbrev handoff : EscalationHandoff
handoff = record { realtime_call_id = "rtc-1"; supervisor_target_uri = "tel:+5491112345678" }

abbrev farewell : List Event
farewell =
    prepared handoff
    ∷ farewell_begun
    ∷ speech_started
    ∷ response_created "resp-1"
    ∷ audio_stopped "resp-1"
    ∷ audio_stopped "resp-1"
    ∷ cancel_asked
    ∷ []

requests-le-one_example : length (run initial farewell).requests ≤ 1
requests-le-one_example = requests-le-one farewell

abbrev transferring : System
transferring = run initial farewell

started_is_final_example :
    ((run transferring (cancel_asked ∷ [])).coordinator.handoff ≡ transferring.coordinator.handoff)
    × ((run transferring (cancel_asked ∷ [])).requests ≡ transferring.requests)
    × (begin_cancel (run transferring (cancel_asked ∷ [])).coordinator
        ≡ ((run transferring (cancel_asked ∷ [])).coordinator, err transfer_started_or_cancelling))
unfolding run step
started_is_final_example =
    started_is_final transferring (cancel_asked ∷ []) (run-IsValid initial farewell initial-IsValid)
      refl

abbrev holding : System
holding = run initial (prepared handoff ∷ [])

farewell_requests_example :
    (run holding (
      farewell_begun
      ∷ speech_started
      ∷ response_created "resp-1"
      ∷ speech_started
      ∷ audio_stopped "resp-1"
      ∷ [])).requests
    ≡ handoff ∷ []
unfolding run step can_return
farewell_requests_example = farewell_requests holding handoff "resp-1" refl refl
