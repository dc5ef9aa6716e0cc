-- ===== src/Tools/Session/Definitions.antt =====
-- The session's state, and the tools that it offers.
use ctrl_alt_ship.Prelude.{
  String, Bool, true, false, not, ◌||◌, Option, none, some, is_some, List, [], ◌∷◌, keep, includes,
  if◌then◌else◌,
}
use ctrl_alt_ship.Client.Types.{ClientFlowState, ClientProfile, client_entry, terminal}
use ctrl_alt_ship.ProviderState.{
  ProviderCallState, provider_inbound, provider_outbound, InboundProfile, OutboundProfile,
  provider_quote, provider_inbound_entry, provider_reschedule, provider_cancel_booking,
  provider_reschedule_alternatives, provider_booking_escalation, ProviderBookingSummary,
}

-- What a session is built with: its registered tools, and which services it has.
pub record Setup : Type 0 where
  pub tools : List String
  pub client_service : Bool
  pub provider_service : Bool
  pub booking_service : Bool

pub record CallToolSession (Num : Type 0) : Type 0 where
  pub ready : Bool
  pub state : Option (ClientFlowState Num)
  pub provider_state : Option (ProviderCallState Num)
  pub pending_escalation : Bool

abbrev pub has_service : Setup → Bool
has_service u = u.client_service || u.provider_service || u.booking_service

-- The constructor.
unfoldable pub new_session : {Num : Type 0} → Setup → CallToolSession Num
new_session u = record {
  ready = not (has_service u);
  state = none;
  provider_state = none;
  pending_escalation = false;
}

abbrev pub escalation_controls : List String
escalation_controls = "confirm_escalation" ∷ "cancel_escalation" ∷ []

abbrev selections : List ProviderBookingSummary → List String
selections [] = []
selections (b ∷ bs) = "select_booking_for_reschedule" ∷ "select_booking_for_cancellation" ∷ []

abbrev pub inbound_names : InboundProfile → List ProviderBookingSummary → List String
inbound_names provider_booking_escalation bookings = "escalate" ∷ []
inbound_names provider_reschedule_alternatives bookings =
    "reschedule_booking" ∷ "decline_reschedule_alternatives" ∷ []
inbound_names provider_reschedule bookings = "reschedule_booking" ∷ "escalate" ∷ []
inbound_names provider_cancel_booking bookings = "cancel_booking" ∷ "escalate" ∷ []
inbound_names provider_inbound_entry bookings = "list_provider_operations" ∷ selections bookings
inbound_names InboundProfile.inbound_unavailable bookings = []
inbound_names InboundProfile.inbound_terminal bookings = []

abbrev pub outbound_names : OutboundProfile → List String
outbound_names provider_quote =
    "record_provider_offer" ∷ "create_quote" ∷ "decline_quote_request" ∷ "escalate" ∷ []
outbound_names OutboundProfile.outbound_unavailable = []
outbound_names OutboundProfile.outbound_terminal = []

abbrev pub provider_names : {Num : Type 0} → Option (ProviderCallState Num) → List String
provider_names none = []
provider_names (some (provider_outbound s)) = outbound_names s.profile
provider_names (some (provider_inbound s)) = inbound_names s.profile s.bookings

abbrev operation_names : Bool → List String
operation_names true = "update_operation" ∷ "confirm_mandate" ∷ "escalate" ∷ []
operation_names false = "escalate" ∷ []

abbrev pub profile_names : ClientProfile → Bool → List String
profile_names client_entry selected =
    "list_open_operations" ∷ "create_operation" ∷ "update_operation" ∷ "cancel_operation"
    ∷ "escalate" ∷ []
profile_names terminal selected = []
profile_names _ selected = operation_names selected

abbrev pub client_names : {Num : Type 0} → Option (ClientFlowState Num) → List String
client_names none = "escalate" ∷ []
client_names (some s) = profile_names s.profile (is_some s.operation)

-- `definitions`: the names of the tools offered now.
unfoldable pub definitions : {Num : Type 0} → Setup → CallToolSession Num → List String
definitions u s =
    if not s.ready
    then []
    else if s.pending_escalation
    then keep (includes escalation_controls) u.tools
    else if u.provider_service || u.booking_service
    then keep (includes (provider_names s.provider_state)) u.tools
    else if not u.client_service
    then keep (λ name. not (includes escalation_controls name)) u.tools
    else keep (includes (client_names s.state)) u.tools
