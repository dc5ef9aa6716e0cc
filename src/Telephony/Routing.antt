-- ===== src/Telephony/Routing.antt =====
-- backend/src/tango/telephony/inbound-routing.ts: who calls, and whether the call is taken.
-- The header names hold no letter that Unicode folds to in another way than ASCII does.
use ctrl_alt_ship.Prelude.{
  ℕ, String, Bool, true, false, not, ◌&&◌, List, [], ◌∷◌, map, Option, none, some, Result, eqb,
  if◌then◌else◌, ◌==◌, Act, pure, perform, need, ◌>>=◌,
}
use ctrl_alt_ship.Js.{codes, trim}
use ctrl_alt_ship.ToolError.{Thrown, other_error}
use ctrl_alt_ship.CallFlow.{
  Direction, inbound, CallPurpose, operation_management, booking_management,
}
use ctrl_alt_ship.Telephony.Formats.{lower, extract_e164_from_sip_value}

pub record SipHeader : Type 0 where
  pub name : String
  pub value : String

pub record ContactIdentity : Type 0 where
  pub contact_id : String
  pub name : String
  pub phone : String
  pub email : Option String
  pub authorized : Bool
  pub active : Bool

pub record ProviderIdentity : Type 0 where
  pub provider_id : String
  pub name : String
  pub phone : String
  pub email : Option String
  pub active : Bool

-- Its persona is the constructor.
pub data CounterpartyIdentity : Type 0 where
  client_identity : ContactIdentity → CounterpartyIdentity
  provider_identity : ProviderIdentity → CounterpartyIdentity

pub data RejectionReason : Type 0 where
  unknown_caller inactive_contact unauthorized_contact : RejectionReason

pub record OutboundFields : Type 0 where
  pub call_record_id : String
  pub quote_request_id : String
  pub round_id : String
  pub attempt : ℕ

-- The accepting decisions. The types of the source tie direction, purpose and `outbound` together,
-- which its code checks again.
pub record AcceptedRoutingDecision (OperationContext : Type 0) : Type 0 where
  pub call_id : String
  pub twilio_call_sid : String
  pub caller_phone : String
  pub identity : CounterpartyIdentity
  pub operations : List OperationContext
  pub direction : Direction
  pub purpose : CallPurpose
  -- `outbound`, with what only an outbound call has
  pub outbound : Option OutboundFields

pub data RoutingDecision (OperationContext : Type 0) : Type 0 where
  reject : (call_id caller_phone : String) → RejectionReason → RoutingDecision OperationContext
  accept : AcceptedRoutingDecision OperationContext → RoutingDecision OperationContext

pub record IncomingCallEvent : Type 0 where
  pub call_id : String
  pub sip_headers : List SipHeader

abbrev same_codes : List ℕ → List ℕ → Bool
same_codes [] [] = true
same_codes (a ∷ s) (b ∷ t) = eqb a b && same_codes s t
same_codes s t = false

abbrev pub same_name : String → String → Bool
same_name a b = same_codes (map lower (codes a)) (map lower (codes b))

unfoldable pub find_header : List SipHeader → String → Option String
find_header [] name = none
find_header (h ∷ headers) name =
    if same_name h.name name then some h.value else find_header headers name

abbrev phone_of : Option String → Option String
phone_of none = none
phone_of (some value) = extract_e164_from_sip_value value

unfoldable pub first_phone : List SipHeader → List String → Option String
unfolding find_header extract_e164_from_sip_value
first_phone headers [] = none
first_phone headers (name ∷ names) =
    let later = first_phone headers names in
    elim (phone_of (find_header headers name)) [ some phone ↦ some phone | none ↦ later ]

unfoldable pub extract_caller_phone : List SipHeader → Option String
unfolding first_phone
extract_caller_phone headers = first_phone headers ("P-Asserted-Identity" ∷ "From" ∷ "Contact" ∷ [])

abbrev unless_empty : String → Option String
unless_empty s = if s == "" then none else some s

abbrev trimmed : Option String → Option String
trimmed none = none
trimmed (some s) = unless_empty (trim s)

unfoldable pub extract_twilio_call_sid : List SipHeader → Option String
unfolding find_header trim
extract_twilio_call_sid headers = trimmed (find_header headers "X-Twilio-CallSid")

pub data RoutingCall : Type 0 where
  find_identity : (caller_phone : String) → RoutingCall
  list_client_operations : (contact_id : String) → RoutingCall

pub record RoutingDependencies (OperationContext : Type 0) : Type 0 where
  pub find_identity : List RoutingCall → Result Thrown (Option CounterpartyIdentity)
  pub list_client_operations : List RoutingCall → Result Thrown (List OperationContext)

abbrev pub is_active : CounterpartyIdentity → Bool
is_active (client_identity c) = c.active
is_active (provider_identity p) = p.active

abbrev pub inactive_reason : CounterpartyIdentity → RejectionReason
inactive_reason (client_identity c) = inactive_contact
inactive_reason (provider_identity p) = unknown_caller

-- `identity.persona === "client" && !identity.authorized`
abbrev pub is_unauthorized : CounterpartyIdentity → Bool
is_unauthorized (client_identity c) = not c.authorized
is_unauthorized (provider_identity p) = false

abbrev pub inbound_purpose : CounterpartyIdentity → CallPurpose
inbound_purpose (client_identity c) = operation_management
inbound_purpose (provider_identity p) = booking_management

module _ {OperationContext : Type 0} (d : RoutingDependencies OperationContext)
    (event : IncomingCallEvent) where
  abbrev Run : Type 0 → Type 0
  Run A = Act Thrown RoutingCall A

  abbrev pub operations_of : CounterpartyIdentity → Run (List OperationContext)
  operations_of (client_identity c) =
      perform (list_client_operations c.contact_id) d.list_client_operations
  operations_of (provider_identity p) = pure []

  abbrev pub accepted :
      String
      → CounterpartyIdentity
      → String
      → List OperationContext
      → AcceptedRoutingDecision OperationContext
  accepted caller_phone identity twilio_call_sid operations = record {
    call_id = event.call_id;
    twilio_call_sid = twilio_call_sid;
    caller_phone = caller_phone;
    identity = identity;
    operations = operations;
    direction = inbound;
    purpose = inbound_purpose identity;
    outbound = none;
  }

  -- The call of a caller who may call.
  unfoldable pub admit : String → CounterpartyIdentity → Run (RoutingDecision OperationContext)
  admit caller_phone identity = do
    twilio_call_sid ←
        need (extract_twilio_call_sid event.sip_headers)
          (other_error "Incoming SIP call has no X-Twilio-CallSid header")
    operations ← operations_of identity
    pure (accept (accepted caller_phone identity twilio_call_sid operations))

  abbrev pub judge : String → Option CounterpartyIdentity → Run (RoutingDecision OperationContext)
  judge caller_phone none = pure (reject event.call_id caller_phone unknown_caller)
  judge caller_phone (some identity) =
      if not (is_active identity)
      then pure (reject event.call_id caller_phone (inactive_reason identity))
      else (if is_unauthorized identity
          then pure (reject event.call_id caller_phone unauthorized_contact)
          else admit caller_phone identity)

  unfoldable pub route_incoming_call : Run (RoutingDecision OperationContext)
  route_incoming_call = do
    caller_phone ←
        need (extract_caller_phone event.sip_headers)
          (other_error "Incoming SIP call has no valid E.164 caller ID")
    identity ← perform (find_identity caller_phone) d.find_identity
    judge caller_phone identity
