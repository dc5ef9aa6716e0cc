-- ===== src/Examples/Rounds.antt =====
-- A dialed call, and the review of a sourcing round.
use ctrl_alt_ship.Prelude.{ℕ, String, true, false, [], none, some, ok}
use ctrl_alt_ship.Js.{Value, null, bool, str, end, field}
use ctrl_alt_ship.Examples.Host.{host, arguments_of}
use ctrl_alt_ship.CallFlow.{outbound, outbound_purpose, renegotiation}
use ctrl_alt_ship.Telephony.Routing.{AcceptedRoutingDecision, provider_identity}
use ctrl_alt_ship.Telephony.Outbound.{CallRow, OutboundDependencies}
use ctrl_alt_ship.Telephony.Persistence.{Database}
use ctrl_alt_ship.Telephony.Persistence.Written.{Written}
use ctrl_alt_ship.Sourcing.{ReviewDependencies, Reviews, finalize}
use ctrl_alt_ship.Sourcing.Gate.{IsGated, finalize-IsGated}

abbrev call_row : CallRow
call_row = record {
  operation_id = some "o-1";
  provider_id = some "p-1";
  purpose = "renegotiation";
  quote_request_id = some "q-1";
  realtime_call_id = none;
  twilio_call_sid = none;
  outcome = "active";
  ended_at = none;
  outbound_attempt = some 2;
  dispatch_state = "accepted";
}

abbrev tables : OutboundDependencies
tables = record {
  find_call = λ log. ok (some call_row);
  find_provider = λ log. ok (
      some (record {
        id = "p-1";
        name = "Beto";
        phone = "+541112345678";
        email = none;
        active = true;
      }));
  find_operation = λ log. ok (
      some (record {
        id = "o-1";
        current_mandate_id = some "m-1";
        status = "sourcing";
        mandate_confirmation_required = false;
      }));
  find_request = λ log. ok (
      some (record {
        id = "q-1";
        operation_id = "o-1";
        provider_id = "p-1";
        round_id = some "r-1";
        mandate_id = some "m-1";
        status = "queued";
        expires_at = some "infinity";
      }));
  find_round = λ log. ok (
      some (record {
        operation_id = "o-1";
        mandate_id = some "m-1";
        status = "active";
        kind = "renegotiation";
      }));
  bind_call = λ log. ok (some tt);
  find_binding = λ log. ok none;
}

abbrev dialed : AcceptedRoutingDecision Unit
dialed = record {
  call_id = "rtc-1";
  twilio_call_sid = "CA1";
  caller_phone = "+541112345678";
  identity = provider_identity (record {
    provider_id = "p-1";
    name = "Beto";
    phone = "+541112345678";
    email = none;
    active = true;
  });
  operations = [];
  direction = outbound;
  purpose = outbound_purpose renegotiation;
  outbound = some (record {
    call_record_id = "call-1";
    quote_request_id = "q-1";
    round_id = "r-1";
    attempt = 2;
  });
}

abbrev identifier : String
identifier = "a"

abbrev prepared : Value ℕ
prepared = arguments_of (
    field "ready" (bool true) (
      field "input_hash" (str "h") (
        field "context"
          (arguments_of (
            field "operation_id" (str "a") (
              field "round_id" (str "b") (
                field "selected_quote" (arguments_of (field "id" (str "c") end))
                  (field "mandate" (arguments_of (field "id" (str "d") end)) end)))))
          end)))

abbrev reviewing : ReviewDependencies host
reviewing = record {
  prepare = λ log. ok prepared;
  find_review = λ log. ok none;
  judge = λ log. ok null;
  record_review = λ log. ok (arguments_of (field "saved" (bool true) end));
  finalize_sourcing = λ log. ok null;
  is_uuid = λ s. true;
  now = 0;
  retry_at = 60000;
}

abbrev fresh : Reviews ℕ
fresh = record { retries = []; log = [] }

finalize-IsGated_example :
    IsGated host reviewing identifier fresh (finalize host reviewing identifier fresh)
finalize-IsGated_example = finalize-IsGated host reviewing identifier fresh

abbrev database : Database
database = record {
  existing = λ log. ok (
      some (record {
        id = "call-1";
        operation_id = some "o-1";
        direction = "outbound";
        purpose = "renegotiation";
        persona = "provider";
        contact_id = none;
        provider_id = some "p-1";
        provider_intent = none;
        operation_intent = none;
        quote_request_id = some "q-1";
      }));
  inserted = λ log. ok (some "c-2");
  routed = λ log. ok none;
  stored = λ log. ok tt;
}
