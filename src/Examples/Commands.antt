-- ===== src/Examples/Commands.antt =====
-- Commands of clients and providers.
use ctrl_alt_ship.Prelude.{ℕ, refl, true, false, [], none, some, ok, err}
use ctrl_alt_ship.Js.{str, num, Fields, end, field, is_blank, is_space}
use ctrl_alt_ship.ToolError.{tool_error, not_authorized}
use ctrl_alt_ship.CallFlow.{client_inbound, provider_inbound, provider_outbound, quote_request}
use ctrl_alt_ship.Examples.Host.{host, scope_of, arguments_of}
use ctrl_alt_ship.ProviderState
use ctrl_alt_ship.ProviderState.{
  ProviderOperation, ProviderOutboundState, ProviderInboundState, ProviderBooking,
  ProviderCommandTarget, ProviderBookingTarget,
}
use ctrl_alt_ship.Client.Types.{ClientRepository, ClientService, cancelled}
use ctrl_alt_ship.Client.Authorization.{ClientRequest, cancel_with}
use ctrl_alt_ship.Client.Submission.{Submits, handle-Submits}
use ctrl_alt_ship.Quote.Types.{
  ProviderQuoteRepository, ProviderQuoteService, declined, create_quote,
}
use ctrl_alt_ship.Quote.Submission.{QuoteSubmits, quote-submits}
use ctrl_alt_ship.Booking.Types.{ProviderBookingRepository, ProviderBookingService, cancel_booking}
use ctrl_alt_ship.Booking.Submission.{BookingSubmits, booking-submits}

abbrev clients : ClientRepository ℕ
clients = record {
  get_state = λ log. err (tool_error not_authorized);
  execute = λ log. ok (cancelled "OP-000001" true false);
}

abbrev client_service : ClientService ℕ
client_service = record { scope = scope_of client_inbound; state = none }

abbrev provider_as_client : ClientService ℕ
provider_as_client = record { scope = scope_of provider_inbound; state = none }

abbrev cancellation : ClientRequest ℕ
cancellation =
    cancel_with (
      arguments_of
        (field "operation_reference" (str "OP-000001") (field "reason" (str "late") end)))

handle-Submits_example : Submits host clients client_service cancellation "tool-1" []
unfolding is_blank is_space
handle-Submits_example =
    handle-Submits host clients client_service cancellation "tool-1" [] refl refl

abbrev quotes : ProviderQuoteRepository ℕ
quotes = record {
  get_state = λ log. err (tool_error not_authorized);
  execute = λ log. ok declined;
  record_offer = λ log. ok tt;
}

abbrev operation : ProviderOperation ℕ
operation = record {
  operation_reference = "OP-000001";
  container_type = none;
  gross_weight_kg = none;
  pickup_location = "Rosario";
  delivery_location = "Cordoba";
  empty_return_depot = none;
  operational_constraints = [];
  cargo_notes = none;
  currency = some "ARS";
  pickup_window = none;
}

abbrev command_of : ProviderCommandTarget
command_of = record {
  operation_revision = "7";
  quote_request_id = "qr-1";
  mandate_id = "m-1";
  round_id = "r-1";
  previous_quote_id = none;
}

abbrev quoting : ProviderOutboundState ℕ
quoting = record {
  profile = ProviderState.provider_quote;
  operation = some operation;
  command_target = some command_of;
  private_price_limit = none;
  last_quote = none;
  last_offer = none;
}

abbrev quote_service : ProviderQuoteService ℕ
quote_service = record { scope = scope_of (provider_outbound quote_request); state = some quoting }

abbrev quote_fields : Fields ℕ
quote_fields =
    field "price_range" (arguments_of (field "min" (num 900_000) (field "max" (num 950_000) end)))
      (field "operation_reference" (str "OP-000001") end)

quote-submits_example :
    QuoteSubmits host quotes quote_service create_quote (arguments_of quote_fields) "tool-1" none []
unfolding is_blank is_space
quote-submits_example =
    quote-submits host quotes quote_service create_quote (arguments_of quote_fields) "tool-1" none
      [] refl refl

abbrev client_as_quoter : ProviderQuoteService ℕ
client_as_quoter = record { scope = scope_of provider_inbound; state = none }

abbrev bookings : ProviderBookingRepository ℕ
bookings = record {
  get_state = λ log. err (tool_error not_authorized);
  execute = λ log. ok (ProviderState.cancelled ProviderState.sourcing);
  select = λ log. err (tool_error not_authorized);
}

abbrev booking : ProviderBooking ℕ
booking = record {
  operation = operation;
  pickup_window = record { start_at = "2026-07-01T10:00:00Z"; end_at = "2026-07-01T12:00:00Z" };
  pickup_utc_offset = none;
  confirmed_price = 900_000;
  currency = "ARS";
  payment_term_days = none;
  requires_reconfirmation = false;
}

abbrev target : ProviderBookingTarget
target = record { booking_id = "b-1"; operation_revision = "7"; mandate_id = "m-1" }

abbrev managing : ProviderInboundState ℕ
managing = record {
  profile = ProviderState.provider_cancel_booking;
  intent = ProviderState.InboundIntent.cancel_booking;
  bookings = [];
  selected_booking = some booking;
  command_target = some target;
  last_result = none;
}

abbrev booking_service : ProviderBookingService ℕ
booking_service = record { scope = scope_of provider_inbound; state = some managing }

abbrev cancel_fields : Fields ℕ
cancel_fields = field "reason" (str "no trucks") end

booking-submits_example :
    BookingSubmits host bookings booking_service cancel_booking
      (arguments_of cancel_fields)
      "tool-1"
      []
unfolding is_blank is_space
booking-submits_example =
    booking-submits host bookings booking_service cancel_booking (arguments_of cancel_fields)
      "tool-1" [] refl refl

abbrev client_as_booker : ProviderBookingService ℕ
client_as_booker = record { scope = scope_of client_inbound; state = none }
