-- ===== src/Telephony/Scope.antt =====
-- backend/src/tango/telephony/call-scope.ts: the scope in which a call's tools run.
use ctrl_alt_ship.Prelude.{String, Option, none, some, Result, ok, err, ◌==◌, if◌then◌else◌}
use ctrl_alt_ship.ToolError.{Thrown, other_error}
use ctrl_alt_ship.CallFlow.{
  Direction, inbound, outbound, CallPurpose, operation_management, booking_management,
  outbound_purpose, Flow, client_inbound, provider_inbound, provider_outbound, ToolCallScope,
}
use ctrl_alt_ship.Telephony.Routing.{
  AcceptedRoutingDecision, OutboundFields, CounterpartyIdentity, client_identity, provider_identity,
}

abbrev mismatch : Thrown
mismatch = other_error "Outbound routing decision does not match the persisted call"

abbrev no_inbound : Thrown
no_inbound = other_error "Inbound routing decision has no explicit inbound direction"

module _ {OperationContext : Type 0} (decision : AcceptedRoutingDecision OperationContext)
    (persisted_call_id : String) where
  abbrev scope : String → Flow → Result Thrown ToolCallScope
  scope counterparty_id flow = ok (record {
    call_id = persisted_call_id;
    realtime_call_id = decision.call_id;
    counterparty_id = counterparty_id;
    flow = flow;
  })

  abbrev outbound_scope :
      OutboundFields → Direction → CallPurpose → CounterpartyIdentity → Result Thrown ToolCallScope
  outbound_scope fields outbound (outbound_purpose purpose) (provider_identity p) =
      if fields.call_record_id == persisted_call_id
      then scope p.provider_id (provider_outbound purpose)
      else err mismatch
  outbound_scope fields direction purpose identity = err mismatch

  abbrev pub party_scope : CallPurpose → CounterpartyIdentity → Result Thrown ToolCallScope
  party_scope operation_management (client_identity c) = scope c.contact_id client_inbound
  party_scope purpose (client_identity c) =
      err (other_error "Client routing decision has an invalid purpose")
  party_scope booking_management (provider_identity p) = scope p.provider_id provider_inbound
  party_scope purpose (provider_identity p) =
      err (other_error "Provider inbound routing decision has an invalid purpose")

  abbrev inbound_scope :
      Direction → CallPurpose → CounterpartyIdentity → Result Thrown ToolCallScope
  inbound_scope inbound purpose identity = party_scope purpose identity
  inbound_scope outbound purpose identity = err no_inbound

  abbrev scope_of : Option OutboundFields → Result Thrown ToolCallScope
  scope_of (some fields) =
      outbound_scope fields decision.direction decision.purpose decision.identity
  scope_of none = inbound_scope decision.direction decision.purpose decision.identity

  unfoldable pub resolve_call_scope : Result Thrown ToolCallScope
  resolve_call_scope =
      if persisted_call_id == ""
      then err (other_error "A persisted call ID is required to build tool scope")
      else scope_of decision.outbound
