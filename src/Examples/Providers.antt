-- ===== src/Examples/Providers.antt =====
-- The operations of a provider with a current booking.
use ctrl_alt_ship.Prelude.{refl, [], ◌∷◌, none, some, ok}
use ctrl_alt_ship.Examples.Host.{host}
use ctrl_alt_ship.Erp.{
  Tables, OperationRow, booking_confirmed, list_active_operations_for_provider, relationships,
  with_requests, with_bookings, read_operations, read_bookings, read_pointers,
}
use ctrl_alt_ship.Erp.Relationships.{IsRelated, list_active_operations-IsRelated}

abbrev operation : OperationRow
operation = record {
  id = "o-1";
  reference = "OP-000001";
  status = "sourcing";
  container_type = none;
  pickup_location = some "Zarate";
  delivery_location = some "Rosario";
  updated_at = "100";
}

abbrev tables : Tables
tables = record {
  requests = λ log. ok (
      (record { id = "q-1"; operation_id = "o-1"; status = "responded"; expires_at = "infinity" })
      ∷ []);
  quotes = λ log. ok ("t-1" ∷ []);
  bookings = λ log. ok ((record { id = "b-1"; operation_id = "o-1"; status = "confirmed" }) ∷ []);
  pointers = λ log. ok ((record { id = "o-1"; current_booking_id = some "b-1" }) ∷ []);
  operations = λ log. ok (operation ∷ []);
}

list_active_operations-IsRelated_example :
    IsRelated host 0 tables "p-1" ((operation, some booking_confirmed) ∷ [])
unfolding list_active_operations_for_provider relationships with_requests with_bookings
    read_operations read_bookings read_pointers
list_active_operations-IsRelated_example =
    list_active_operations-IsRelated host 0 tables "p-1" []
      ((operation, some booking_confirmed) ∷ []) refl
