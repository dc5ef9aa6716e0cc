-- ===== src/Telephony/Outbound/Checked.antt =====
-- Which outbound calls are taken.
use ctrl_alt_ship.Prelude.{String, ◌≡◌, ◌⊎◌, List, Option, none, some, Result}
use ctrl_alt_ship.Js.{Runtime}
use ctrl_alt_ship.ToolError.{Thrown}
use ctrl_alt_ship.CallFlow.{outbound, outbound_purpose}
use ctrl_alt_ship.Telephony.Routing.{AcceptedRoutingDecision, provider_identity}
use ctrl_alt_ship.Telephony.Outbound.{
  CallRow, ProviderRow, OperationRow, RequestRow, RoundRow, BoundRow, OutboundCall,
  OutboundDependencies, AvailableCall, route_outbound_call, find_call, find_provider,
  find_operation, find_request, find_binding, bind_call, find_round,
}
use ctrl_alt_ship.Telephony.Outbound.Rows.{
  Answered, Holds, IsLive, IsRoundOf, IsBoundRow, IsCurrent,
}

module _ (js : Runtime) (now : js.Num) (d : OutboundDependencies)
    (call_record_id call_id : String) where
  -- The record names this call, or did so when it was read again.
  abbrev Bound : Option String → Type 0
  Bound realtime_call_id =
      (realtime_call_id ≡ some call_id)
      ⊎ (Answered (bind_call call_record_id call_id) d.bind_call tt)
      ⊎ ((row : BoundRow) × Answered (find_binding call_record_id) d.find_binding row
          × IsBoundRow call_id row)

  -- The network's identifier of the record, or else that of the call.
  abbrev pub IsSid : Option String → String → String → Type 0
  IsSid none sip_call_sid sid = sid ≡ sip_call_sid
  IsSid (some recorded) sip_call_sid sid = sid ≡ recorded

  -- The decision holds what the rows hold.
  pub record Carries (c : AvailableCall) (p : ProviderRow) (r : RequestRow)
      (round_id sip_call_sid : String) (dec : AcceptedRoutingDecision Unit) : Type 0 where
    pub call : dec.call_id ≡ call_id
    pub network_id : IsSid c.twilio_call_sid sip_call_sid dec.twilio_call_sid
    pub phone : dec.caller_phone ≡ p.phone
    pub party :
        dec.identity
        ≡ provider_identity (record {
          provider_id = p.id;
          name = p.name;
          phone = p.phone;
          email = p.email;
          active = p.active;
        })
    pub direction : dec.direction ≡ outbound
    pub purpose : dec.purpose ≡ outbound_purpose c.purpose
    pub fields :
        dec.outbound
        ≡ some (record {
          call_record_id = call_record_id;
          quote_request_id = r.id;
          round_id = round_id;
          attempt = c.attempt;
        })

  pub record Admitted (sip_call_sid : String) (dec : AcceptedRoutingDecision Unit) : Type 0 where
    pub row : CallRow
    pub call : AvailableCall
    pub provider : ProviderRow
    pub operation : OperationRow
    pub request : RequestRow
    pub round : RoundRow
    pub round_id : String
    pub row_found : Answered (find_call call_record_id) d.find_call row
    pub provider_found : Answered (find_provider call.provider_id) d.find_provider provider
    pub operation_found : Answered (find_operation call.operation_id) d.find_operation operation
    pub request_found : Answered (find_request call.quote_request_id) d.find_request request
    pub round_found : Answered (find_round round_id) d.find_round round
    pub live : IsLive call_id row call
    pub current : IsCurrent js now provider operation request
    pub same_round : Holds request.round_id round_id
    pub fits : IsRoundOf call.purpose operation round
    pub bound : Bound call.realtime_call_id
    pub decided : Carries call provider request round_id sip_call_sid dec

  abbrev Rows : Type 0
  Rows = ProviderRow × OperationRow × RequestRow

  abbrev route :
      (sip_call_sid : String) → List OutboundCall → Result Thrown (AcceptedRoutingDecision Unit)
  route sip_call_sid log = (route_outbound_call js now d call_record_id call_id sip_call_sid log).0
