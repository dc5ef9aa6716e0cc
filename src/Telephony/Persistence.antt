-- ===== src/Telephony/Persistence.antt =====
-- backend/src/tango/supabase/call-routing.ts: the record of a call that was routed. A query answers with
-- its error, or with the row where there is one.
pub mod Scope
pub mod Written
use ctrl_alt_ship.Prelude.{
  String, Bool, true, false, not, ◌&&◌, ◌||◌, List, [], ◌∷◌, map, Option, none, some, is_some,
  Result, ok, err, ◌==◌, if◌then◌else◌, Act, pure, demand, lift, perform, ◌>>=◌, ◌>>◌,
}
use ctrl_alt_ship.ToolError.{Thrown, other_error}
use ctrl_alt_ship.CallFlow.{
  Persona, client, provider, Direction, inbound, outbound, CallPurpose, operation_management,
  booking_management, outbound_purpose, ProviderOutboundPurpose, quote_request, renegotiation,
  booking_replacement,
}
use ctrl_alt_ship.Telephony.Routing.{
  CounterpartyIdentity, client_identity, provider_identity, RejectionReason, OutboundFields,
  AcceptedRoutingDecision,
}
use ctrl_alt_ship.Telephony.Outbound.{filled, same_id}

-- The row of `calls` with this realtime identifier, by the columns that are selected.
pub record ExistingCall : Type 0 where
  pub id : String
  pub operation_id : Option String
  pub direction : String
  pub purpose : String
  pub persona : String
  pub contact_id : Option String
  pub provider_id : Option String
  pub provider_intent : Option String
  pub operation_intent : Option String
  pub quote_request_id : Option String

-- The row that is inserted; its intent is undecided, its direction inbound and its outcome active.
pub record NewCall : Type 0 where
  pub contact_id : Option String
  pub provider_id : Option String
  pub twilio_call_sid : String
  pub realtime_call_id : String
  pub persona : Persona
  pub purpose : CallPurpose

-- An event "call.routed".
pub record RoutedEvent : Type 0 where
  pub operation_id : Option String
  pub call_id : String
  pub direction : Direction
  pub persona : Persona
  pub intent : String
  pub candidate_operation_references : List String

pub data PersistenceCall : Type 0 where
  find_call : (realtime_call_id : String) → PersistenceCall
  insert_call : NewCall → PersistenceCall
  find_routed_event : (call_id : String) → PersistenceCall
  insert_routed_event : RoutedEvent → PersistenceCall
  insert_rejected_event : (caller_phone : String) → RejectionReason → PersistenceCall

pub record Database : Type 0 where
  pub existing : List PersistenceCall → Result Thrown (Option ExistingCall)
  -- the identifier of the new row, where the database returns it
  pub inserted : List PersistenceCall → Result Thrown (Option String)
  pub routed : List PersistenceCall → Result Thrown (Option Unit)
  pub stored : List PersistenceCall → Result Thrown Unit

abbrev pub direction_text : Direction → String
direction_text inbound = "inbound"
direction_text outbound = "outbound"

abbrev pub purpose_text : CallPurpose → String
purpose_text operation_management = "operation_management"
purpose_text booking_management = "booking_management"
purpose_text (outbound_purpose quote_request) = "quote_request"
purpose_text (outbound_purpose renegotiation) = "renegotiation"
purpose_text (outbound_purpose booking_replacement) = "booking_replacement"

abbrev pub persona_of : CounterpartyIdentity → Persona
persona_of (client_identity c) = client
persona_of (provider_identity p) = provider

abbrev pub persona_text : Persona → String
persona_text client = "client"
persona_text provider = "provider"

-- The row's own column for the party holds that party.
abbrev pub party_matches : CounterpartyIdentity → ExistingCall → Bool
party_matches (client_identity c) row = same_id row.contact_id (some c.contact_id)
party_matches (provider_identity p) row = same_id row.provider_id (some p.provider_id)

abbrev pub contact_of : CounterpartyIdentity → Option String
contact_of (client_identity c) = some c.contact_id
contact_of (provider_identity p) = none

abbrev pub provider_of : CounterpartyIdentity → Option String
provider_of (client_identity c) = none
provider_of (provider_identity p) = some p.provider_id

abbrev pub or_text : Option String → String → String
or_text none text = text
or_text (some s) text = s

module _ {Operation : Type 0} (reference : Operation → String)
    (d : AcceptedRoutingDecision Operation) where
  unfoldable pub scope_matches : ExistingCall → Bool
  scope_matches row =
      row.direction == direction_text d.direction
      && row.purpose == purpose_text d.purpose
      && row.persona == persona_text (persona_of d.identity)
      && party_matches d.identity row

  unfoldable pub existing_matches : Option ExistingCall → Bool
  unfolding scope_matches
  existing_matches none = true
  existing_matches (some row) = scope_matches row

  -- An outbound call has its row and its request already.
  abbrev pub is_dialed_row : OutboundFields → Option ExistingCall → Bool
  is_dialed_row o none = false
  is_dialed_row o (some row) =
      row.id == o.call_record_id && same_id row.quote_request_id (some o.quote_request_id)

  unfoldable pub outbound_matches : Option OutboundFields → Option ExistingCall → Bool
  outbound_matches none row = true
  outbound_matches (some o) row = is_dialed_row o row

  unfoldable pub new_call : NewCall
  new_call = record {
    contact_id = contact_of d.identity;
    provider_id = provider_of d.identity;
    twilio_call_sid = d.twilio_call_sid;
    realtime_call_id = d.call_id;
    persona = persona_of d.identity;
    purpose = d.purpose;
  }

  -- `provider_intent ?? operation_intent ?? "undecided"`
  abbrev pub intent_of : Option ExistingCall → String
  intent_of none = "undecided"
  intent_of (some row) = or_text row.provider_intent (or_text row.operation_intent "undecided")

  unfoldable pub routed_event : Option ExistingCall → (id : String) → Option String → RoutedEvent
  routed_event row id operation_id = record {
    operation_id = operation_id;
    call_id = id;
    direction = d.direction;
    persona = persona_of d.identity;
    intent = intent_of row;
    candidate_operation_references = map reference d.operations;
  }

  module _ (db : Database) where
    abbrev pub Run : Type 0 → Type 0
    Run A = Act Thrown PersistenceCall A

    abbrev mismatch : Thrown
    mismatch = other_error "Persisted routing scope does not match authenticated call"

    abbrev not_dialed : Thrown
    not_dialed = other_error "Outbound call must already exist with its exact request"

    abbrev not_returned : Thrown
    not_returned = other_error "Supabase did not return the routed call"

    abbrev pub returned : Option String → Result Thrown String
    returned none = err not_returned
    returned (some id) = ok id

    unfoldable pub add_event :
        Option ExistingCall → String → Option String → Option (Unit {0}) → Run String
    unfolding routed_event
    add_event row id operation_id (some found) = pure id
    add_event row id operation_id none = do
      perform (insert_routed_event (routed_event row id operation_id)) db.stored
      pure id

    -- The event of a call that has its row.
    unfoldable pub announce : Option ExistingCall → String → Option String → Run String
    unfolding add_event
    announce row id operation_id = do
      found ← perform (find_routed_event id) db.routed
      add_event row id operation_id found

    unfoldable pub add_call : Option ExistingCall → Run String
    unfolding new_call announce
    add_call row = do
      answer ← perform (insert_call new_call) db.inserted
      id ← lift (returned answer)
      announce row id none

    -- `if (!callId)`: a row without an identifier is as none.
    unfoldable pub with_id : (missing : Bool) → ExistingCall → Run String
    unfolding announce add_call
    with_id true row = add_call (some row)
    with_id false row = announce (some row) row.id row.operation_id

    unfoldable pub with_row : Option ExistingCall → Run String
    unfolding add_call with_id
    with_row none = add_call none
    with_row (some row) = with_id (row.id == "") row

    unfoldable pub checked_row : Option ExistingCall → Run String
    unfolding outbound_matches existing_matches with_row
    checked_row row = do
      demand (existing_matches row) mismatch
      demand (outbound_matches d.outbound row) not_dialed
      with_row row

    unfoldable pub persist_routed_call : Run String
    unfolding checked_row
    persist_routed_call = do row ← perform (find_call d.call_id) db.existing; checked_row row

unfoldable pub persist_rejected_call :
    Database → (caller_phone : String) → RejectionReason → Act Thrown PersistenceCall Unit
persist_rejected_call db caller_phone reason =
    perform (insert_rejected_event caller_phone reason) db.stored
