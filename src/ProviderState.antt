-- ===== src/ProviderState.antt =====
-- backend/src/domain/provider-call-state.ts: what the server knows of a provider's call.
use ctrl_alt_ship.Prelude.{String, Bool, Option, List}

pub record PickupWindow : Type 0 where
  pub start_at : String
  pub end_at : String

pub record ProviderOperation (Num : Type 0) : Type 0 where
  pub operation_reference : String
  pub container_type : Option String
  pub gross_weight_kg : Option Num
  pub pickup_location : String
  pub delivery_location : String
  pub empty_return_depot : Option String
  pub operational_constraints : List String
  pub cargo_notes : Option String
  pub currency : Option String
  pub pickup_window : Option PickupWindow

pub record SummaryWindow : Type 0 where
  pub start_at : Option String
  pub end_at : Option String

pub record ProviderBookingSummary : Type 0 where
  pub operation_reference : String
  pub pickup_location : Option String
  pub delivery_location : Option String
  pub pickup_window : SummaryWindow

pub record ProviderBooking (Num : Type 0) : Type 0 where
  pub operation : ProviderOperation Num
  pub pickup_window : PickupWindow
  pub pickup_utc_offset : Option String
  pub confirmed_price : Num
  pub currency : String
  pub payment_term_days : Option Num
  pub requires_reconfirmation : Bool

pub record ProviderBookingTarget : Type 0 where
  pub booking_id : String
  pub operation_revision : String
  pub mandate_id : String

pub record ProviderCommandTarget : Type 0 where
  pub operation_revision : String
  pub quote_request_id : String
  pub mandate_id : String
  pub round_id : String
  pub previous_quote_id : Option String

pub data SelectionIntent : Type 0 where
  reschedule cancel_booking : SelectionIntent

pub record ProviderBookingSelectionResult : Type 0 where
  pub operation_reference : String
  pub intent : SelectionIntent

pub data OperationStatus : Type 0 where
  sourcing needs_follow_up : OperationStatus

pub data ProviderBookingResult : Type 0 where
  applied requires_escalation : (reason_code : Option String) → ProviderBookingResult
  alternatives_available :
      (available_pickup_local_windows : List PickupWindow) → ProviderBookingResult
  cancelled : OperationStatus → ProviderBookingResult

pub record PriceRange (Num : Type 0) : Type 0 where
  pub min : Num
  pub max : Num
  pub currency : String

pub record PriceLimit (Num : Type 0) : Type 0 where
  pub price_cap : Num
  pub currency : String

pub record FixedTerms (Num : Type 0) : Type 0 where
  pub proposed_pickup_window : PickupWindow
  pub payment_term_days : Option Num
  pub valid_until : Option String
  pub conditions : Option (List String)

pub record ProviderLastQuote (Num : Type 0) : Type 0 where
  pub quote_version : Num
  pub verdict : String
  pub accepted_above_budget : Option Bool
  pub negotiation_stopped_by_provider : Option Bool
  pub price_range : PriceRange Num
  pub negotiation_rounds_remaining : Num
  pub fixed_terms : Option (FixedTerms Num)

pub data InboundProfile : Type 0 where
  provider_inbound_entry provider_reschedule provider_cancel_booking : InboundProfile
  provider_reschedule_alternatives provider_booking_escalation : InboundProfile
  inbound_unavailable inbound_terminal : InboundProfile

pub data InboundIntent : Type 0 where
  undecided reschedule cancel_booking : InboundIntent

pub record ProviderInboundState (Num : Type 0) : Type 0 where
  pub profile : InboundProfile
  pub intent : InboundIntent
  pub bookings : List ProviderBookingSummary
  pub selected_booking : Option (ProviderBooking Num)
  pub command_target : Option ProviderBookingTarget
  pub last_result : Option ProviderBookingResult

pub data OutboundProfile : Type 0 where
  provider_quote outbound_unavailable outbound_terminal : OutboundProfile

pub record ProviderOutboundState (Num : Type 0) : Type 0 where
  pub profile : OutboundProfile
  pub operation : Option (ProviderOperation Num)
  pub command_target : Option ProviderCommandTarget
  pub private_price_limit : Option (PriceLimit Num)
  pub last_quote : Option (ProviderLastQuote Num)
  pub last_offer : Option (PriceRange Num)

-- `flow` tells the two apart.
pub data ProviderCallState (Num : Type 0) : Type 0 where
  provider_inbound : ProviderInboundState Num → ProviderCallState Num
  provider_outbound : ProviderOutboundState Num → ProviderCallState Num
