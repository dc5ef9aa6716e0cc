-- ===== src/Booking/Types.antt =====
-- The types of provider-booking-service.ts, and the calls of its repository.
use ctrl_alt_ship.Prelude.{String, Option, List, Result}
use ctrl_alt_ship.Js.{Fields}
use ctrl_alt_ship.ToolError.{Thrown}
use ctrl_alt_ship.CallFlow.{ToolCallScope}
use ctrl_alt_ship.ProviderState.{
  ProviderBookingResult, ProviderBookingSelectionResult, ProviderBookingTarget,
  ProviderInboundState,
}

pub data ProviderBookingToolName : Type 0 where
  reschedule_booking cancel_booking decline_reschedule_alternatives : ProviderBookingToolName

pub data ProviderBookingSelectionName : Type 0 where
  select_booking_for_reschedule select_booking_for_cancellation : ProviderBookingSelectionName

pub data BookingCall (Num : Type 0) : Type 0 where
  read_state : ToolCallScope → BookingCall Num
  command :
      ToolCallScope
      → ProviderBookingToolName
      → (id : String) → Fields Num
      → Option ProviderBookingTarget
      → BookingCall Num
  selection :
      ToolCallScope
      → ProviderBookingSelectionName
      → (id operation_reference : String) → BookingCall Num

pub record ProviderBookingRepository (Num : Type 0) : Type 0 where
  pub get_state : List (BookingCall Num) → Result Thrown (ProviderInboundState Num)
  pub execute : List (BookingCall Num) → Result Thrown ProviderBookingResult
  pub select : List (BookingCall Num) → Result Thrown ProviderBookingSelectionResult

pub record ProviderBookingService (Num : Type 0) : Type 0 where
  pub scope : ToolCallScope
  pub state : Option (ProviderInboundState Num)
