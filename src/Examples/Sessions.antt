-- ===== src/Examples/Sessions.antt =====
-- The session of a client's call.
use ctrl_alt_ship.Prelude.{ℕ, String, true, false, [], ◌∷◌, none, ok, err}
use ctrl_alt_ship.Js.{null}
use ctrl_alt_ship.ToolError.{Thrown, tool_error, operation_not_available}
use ctrl_alt_ship.Tools.Session.Definitions.{Setup, CallToolSession}
use ctrl_alt_ship.Tools.Session.Execution.{Services, execute_in_flow}
use ctrl_alt_ship.Tools.Session.Gate.{Gated, flow-gate}

abbrev setup : Setup
setup = record {
  tools = "create_operation" ∷ "escalate" ∷ "cancel_escalation" ∷ [];
  client_service = true;
  provider_service = false;
  booking_service = false;
}

abbrev unreachable : Thrown
unreachable = tool_error operation_not_available

abbrev services : Services ℕ String
services = record {
  client_state = λ log. err unreachable;
  quote_state = λ log. err unreachable;
  booking_state = λ log. err unreachable;
  tool = λ log. ok "done";
}

abbrev session : CallToolSession ℕ
session = record { ready = true; state = none; provider_state = none; pending_escalation = false }

flow-gate_example :
    Gated setup services "create_operation" null none session []
      (execute_in_flow setup services "create_operation" null none session [])
flow-gate_example = flow-gate setup services "create_operation" null none session []
