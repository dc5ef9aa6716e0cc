-- ===== src/CallFlow.antt =====
-- backend/src/domain/call-flow.ts: whom a call is with, which way it goes and what it is for.
use ctrl_alt_ship.Prelude.{String, Bool, true, false, ◌||◌, ◌==◌}
use ctrl_alt_ship.Js.{Value, str}

pub data ProviderOutboundPurpose : Type 0 where
  quote_request renegotiation booking_replacement : ProviderOutboundPurpose

pub data Persona : Type 0 where
  client provider : Persona

pub data Direction : Type 0 where
  inbound outbound : Direction

pub data CallPurpose : Type 0 where
  operation_management booking_management : CallPurpose
  outbound_purpose : ProviderOutboundPurpose → CallPurpose

-- The three members of the union `ToolCallScope`.
pub data Flow : Type 0 where
  client_inbound provider_inbound : Flow
  provider_outbound : ProviderOutboundPurpose → Flow

pub record ToolCallScope : Type 0 where
  pub call_id : String
  pub realtime_call_id : String
  pub counterparty_id : String
  pub flow : Flow

abbrev pub persona : Flow → Persona
persona client_inbound = client
persona provider_inbound = provider
persona (provider_outbound p) = provider

abbrev pub direction : Flow → Direction
direction client_inbound = inbound
direction provider_inbound = inbound
direction (provider_outbound p) = outbound

abbrev pub purpose : Flow → CallPurpose
purpose client_inbound = operation_management
purpose provider_inbound = booking_management
purpose (provider_outbound p) = outbound_purpose p

abbrev pub is_client : Flow → Bool
is_client client_inbound = true
is_client _ = false

-- `isProviderOutboundPurpose`
unfoldable pub is_provider_outbound_purpose : {Num : Type 0} → Value Num → Bool
is_provider_outbound_purpose (str s) =
    s == "quote_request" || s == "renegotiation" || s == "booking_replacement"
is_provider_outbound_purpose v = false
