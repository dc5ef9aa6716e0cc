-- ===== src/Examples/Network.antt =====
-- Calls from and to the telephone network.
use ctrl_alt_ship.Prelude.{List, ℕ, String, ◌≡◌, refl, true, false, [], ◌∷◌, none, some, ok}
use ctrl_alt_ship.Js.{str, end, field, trim, trim_start, trim_end, is_space, is_blank}
use ctrl_alt_ship.CallFlow.{client_inbound, inbound, operation_management}
use ctrl_alt_ship.Examples.Host.{host, arguments_of}
use ctrl_alt_ship.Telephony.Formats.{
  leading_phone, split_digits, behind, extract_e164_from_sip_value,
}
use ctrl_alt_ship.Telephony.Routing.{
  ContactIdentity, client_identity, IncomingCallEvent, RoutingDependencies, AcceptedRoutingDecision,
  accept, find_header, first_phone, extract_caller_phone, extract_twilio_call_sid, admit,
  route_incoming_call,
}
use ctrl_alt_ship.Telephony.Scope.{resolve_call_scope}
use ctrl_alt_ship.Telephony.Admission.{Admitted, route_incoming_call-Admitted, route-scope}
use ctrl_alt_ship.Telephony.CallStatus.{FormBody, ProviderCallStatusRequest, StatusDependencies}
use ctrl_alt_ship.Telephony.CallStatus.Genuine.{Records, handle-records}
use ctrl_alt_ship.Prelude.{◌↔◌}
use ctrl_alt_ship.Telephony.Stall.{
  NegotiationStallTracker, TrackerCall, caller_turn, progress, record_caller_turn, tracker_after,
  AreTurns, record_caller_turn-AreTurns,
}
use ctrl_alt_ship.Prelude.{keep}
use ctrl_alt_ship.Telephony.Formats.{is_uuid}
use ctrl_alt_ship.Telephony.Routing.{SipHeader}
use ctrl_alt_ship.Telephony.Correlation.{
  extract_outbound_call_record_id, AllHold, is_correlation, extract_outbound_call_record_id-AllHold,
}
use ctrl_alt_ship.Telephony.Recording.{RecordingStatusRequest, RecordingDependencies}
use ctrl_alt_ship.Telephony.Recording.Verified.{RecordsRecording, handle-records_recording}
use ctrl_alt_ship.Telephony.Refer.{ReferDependencies, ReferRequest, dial, handle, HandoffContext}
use ctrl_alt_ship.Telephony.Refer.Dialing.{MayDial, Dials, handle-Dials}

abbrev contact : ContactIdentity
contact = record {
  contact_id = "c-1";
  name = "Ana";
  phone = "+5491112345678";
  email = none;
  authorized = true;
  active = true;
}

abbrev directory : RoutingDependencies ℕ
directory = record {
  find_identity = λ log. ok (some (client_identity contact));
  list_client_operations = λ log. ok (1 ∷ []);
}

abbrev ringing : IncomingCallEvent
ringing = record {
  call_id = "rtc-1";
  sip_headers =
      record { name = "from"; value = "<sip:+5491112345678@pstn.example>;tag=1" }
      ∷ record { name = "X-Twilio-CallSid"; value = " CA1 " }
      ∷ [];
}

abbrev taken : AcceptedRoutingDecision ℕ
taken = record {
  call_id = "rtc-1";
  twilio_call_sid = "CA1";
  caller_phone = "+5491112345678";
  identity = client_identity contact;
  operations = 1 ∷ [];
  direction = inbound;
  purpose = operation_management;
  outbound = none;
}

accepts : (route_incoming_call directory ringing []).0 ≡ ok (accept taken)
unfolding route_incoming_call admit extract_caller_phone extract_twilio_call_sid first_phone
    find_header extract_e164_from_sip_value leading_phone split_digits behind trim trim_start
    trim_end is_space is_blank
accepts = refl

route_incoming_call-Admitted_example : Admitted directory ringing [] taken
route_incoming_call-Admitted_example =
    route_incoming_call-Admitted directory ringing [] taken accepts

route-scope_example :
    resolve_call_scope taken "call-1"
    ≡ ok (record {
      call_id = "call-1";
      realtime_call_id = "rtc-1";
      counterparty_id = "c-1";
      flow = client_inbound;
    })
route-scope_example = route-scope directory ringing [] taken "call-1" accepts refl

abbrev call_record : String
call_record = "0f0f0f0f-1111-2222-3333-444444444444"

abbrev call_sid : String
call_sid = "CA0123456789abcdef0123456789abcdef"

abbrev status_form : FormBody
status_form =
    ("AccountSid", "AC1")
    ∷ ("CallSid", call_sid)
    ∷ ("CallStatus", "answered")
    ∷ ("SequenceNumber", "2")
    ∷ ("Timestamp", "2026-07-01T10:00:00Z")
    ∷ []

abbrev status_request : ProviderCallStatusRequest
status_request = record {
  url = "https://tango.example/status";
  signature = some "s";
  account_sid = some "AC1";
  call_record_id = some call_record;
  body = status_form;
}

abbrev status_store : StatusDependencies ℕ
status_store = record {
  expected_account_sid = "AC1";
  url_parameters = λ url. some (call_record ∷ []);
  verify_signature = λ url body signature. true;
  record_status = λ log. ok 1;
}

handle-records_example : Records host status_store status_request []
handle-records_example = handle-records host status_store status_request []

abbrev person : HandoffContext
person = record {
  escalation_id = "e-1";
  source_call_id = call_record;
  twilio_call_sid = call_sid;
  phone = "+5491112345678";
  active = true;
  handoff_status = "pending";
}

abbrev handoffs : ReferDependencies
handoffs = record {
  account_sid = "AC1";
  url_parameter = λ url. some (some call_record);
  verify_signature = λ url body signature. true;
  find = λ log. ok (some person);
  mark_failed = λ log. ok tt;
}

abbrev refer_request : ReferRequest ℕ
refer_request = record {
  url = "https://tango.example/refer";
  signature = some "s";
  finished = false;
  body = arguments_of (
      field "AccountSid" (str "AC1") (
        field "CallSid" (str call_sid)
          (field "ReferTransferTarget" (str "<tel:+5491112345678;ext=1>") end)));
}

handle-Dials_example :
    ((handle handoffs refer_request []).0 ≡ ok (dial "+5491112345678" call_record)
      → MayDial handoffs refer_request [] "+5491112345678" call_record)
    × (MayDial handoffs refer_request [] "+5491112345678" call_record
        → Dials handoffs refer_request [] "+5491112345678" call_record)
handle-Dials_example = handle-Dials handoffs refer_request [] "+5491112345678" call_record

abbrev recording_request : RecordingStatusRequest ℕ
recording_request = record {
  url = "https://tango.example/recording";
  signature = some "s";
  body = arguments_of (
      field "AccountSid" (str "AC0123456789abcdef0123456789abcdef") (
        field "CallSid" (str call_sid) (
          field "RecordingStatus" (str "completed")
            (field "RecordingSid" (str "RE0123456789abcdef0123456789abcdef") end))));
}

abbrev recordings : RecordingDependencies
recordings = record {
  expected_account_sid = "AC0123456789abcdef0123456789abcdef";
  url_protocol = λ url. some "https:";
  verify_signature = λ url body signature. true;
  record_status = λ log. ok (record { persisted = true; expired = some false });
}

handle-records_recording_example : RecordsRecording recordings recording_request []
handle-records_recording_example = handle-records_recording recordings recording_request []

abbrev tracker : NegotiationStallTracker
tracker = record { consecutive_caller_turns = 0; threshold = 3 }

abbrev talk : List TrackerCall
talk = caller_turn ∷ caller_turn ∷ progress ∷ caller_turn ∷ []

record_caller_turn-AreTurns_example :
    ((record_caller_turn (tracker_after tracker talk)).0 ≡ true) ↔ AreTurns 3 (caller_turn ∷ talk)
record_caller_turn-AreTurns_example = record_caller_turn-AreTurns tracker refl talk

abbrev dialed_headers : List SipHeader
dialed_headers =
    record { name = "From"; value = "sip:+15550100@pstn" }
    ∷ record { name = "X-Tango-Call-Id"; value = call_record }
    ∷ []

extract_outbound_call_record_id-AllHold_example :
    (extract_outbound_call_record_id dialed_headers ≡ ok (some call_record))
    ↔ ((is_uuid call_record ≡ true) × AllHold call_record (keep is_correlation dialed_headers))
extract_outbound_call_record_id-AllHold_example =
    extract_outbound_call_record_id-AllHold dialed_headers call_record
