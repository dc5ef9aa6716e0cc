-- ===== src/Booking/Service.antt =====
-- `getState`, `listBookings`, `execute` and `select`.
use mathlib.Core.Option
use Prim.Native.String.{◌++◌ as join}
use ctrl_alt_ship.Prelude.{
  String, Bool, true, false, not, ◌&&◌, ◌||◌, Option, none, some, List, [], ◌∷◌, eqb, ◌==◌,
  if◌then◌else◌, Act, pure, throw, need, perform, demand, ◌>>=◌, ◌>>◌,
}
use ctrl_alt_ship.Js.{
  Runtime, Value, undefined, str, Fields, get, has, only_keys, key_count, plain_object, is_blank,
  is_operation_reference, is_local_time, ge,
}
use ctrl_alt_ship.ToolError.{Thrown, tool_error, not_authorized}
use ctrl_alt_ship.Checks.{invalid}
use ctrl_alt_ship.Timestamps.{time_of, demand_timestamp}
use ctrl_alt_ship.CallFlow.{Flow, provider_inbound}
use ctrl_alt_ship.ProviderState.{
  ProviderBookingSummary, ProviderBookingTarget, ProviderBookingResult,
  ProviderBookingSelectionResult, ProviderInboundState,
}
use ctrl_alt_ship.Booking.Types.{
  ProviderBookingToolName, reschedule_booking, cancel_booking, decline_reschedule_alternatives,
  ProviderBookingSelectionName, BookingCall, read_state, command, selection,
  ProviderBookingRepository, ProviderBookingService,
}

-- A provider's inbound call, whose purpose is booking management.
abbrev pub is_provider_inbound : Flow → Bool
is_provider_inbound provider_inbound = true
is_provider_inbound _ = false

abbrev pub is_reschedule : ProviderBookingToolName → Bool
is_reschedule reschedule_booking = true
is_reschedule _ = false

abbrev pub allowed_keys : ProviderBookingToolName → List String
allowed_keys reschedule_booking =
    "operation_reference" ∷ "reason" ∷ "proposed_pickup_window" ∷ "proposed_pickup_local_window"
    ∷ []
allowed_keys _ = "operation_reference" ∷ "reason" ∷ []

abbrev pub is_text : {Num : Type 0} → Value Num → Bool
is_text (str s) = not (is_blank s)
is_text v = false

abbrev pub is_reference : {Num : Type 0} → Value Num → Bool
is_reference (str s) = is_operation_reference s
is_reference v = false

-- The tests of `execute` that every command shares.
unfoldable pub command_ok : {Num : Type 0} → ProviderBookingToolName → Fields Num → Bool
command_ok name fs =
    only_keys (allowed_keys name) fs
    && is_text (get fs "reason")
    && (not (has fs "operation_reference") || is_reference (get fs "operation_reference"))

-- `localTimestamp`: a clock time with no zone, read as if it were UTC.
unfoldable pub local_timestamp : {Num : Type 0} → Value Num → Value Num
local_timestamp (str s) = if is_local_time s then str (join s "Z") else undefined
local_timestamp v = undefined

-- The reference of the selected booking, and `none` where there is none.
abbrev pub selected_reference : {Num : Type 0} → Option (ProviderInboundState Num) → Option String
selected_reference none = none
selected_reference (some state) =
    Option.map (λ b. b.operation.operation_reference) state.selected_booking

abbrev pub given_reference : {Num : Type 0} → Value Num → Option String → Option String
given_reference (str s) selected = some s
given_reference v selected = selected

-- `reference && reference === selectedReference`
abbrev pub same_reference : Option String → Option String → Bool
same_reference (some r) (some selected) = not (r == "") && r == selected
same_reference _ _ = false

abbrev pub target_of :
    {Num : Type 0} → Option (ProviderInboundState Num) → Option ProviderBookingTarget
target_of none = none
target_of (some state) = state.command_target

unfoldable pub booking_target :
    {Num : Type 0} → Option (ProviderInboundState Num) → Fields Num → Option ProviderBookingTarget
booking_target state fs =
    if same_reference (given_reference (get fs "operation_reference") (selected_reference state))
      (selected_reference state)
    then target_of state
    else none

module _ (js : Runtime) where
  module _ {C : Type 0} where
    abbrev pub the_object : Value js.Num → Act Thrown C (Fields js.Num)
    the_object v = need (plain_object v) invalid

    -- The window of `reschedule_booking`; `convert` is `localTimestamp` or nothing.
    unfoldable pub check_window : (Value js.Num → Value js.Num) → Value js.Num → Act Thrown C Unit
    check_window convert v = do
      fs ← the_object v
      let start = convert (get fs "start_at")
      let stop = convert (get fs "end_at")
      demand (eqb (key_count fs) 2) invalid
      demand_timestamp js start
      demand_timestamp js stop
      demand (not (ge js (time_of js start) (time_of js stop))) invalid

    abbrev check_either : Bool → Bool → Fields js.Num → Act Thrown C Unit
    check_either true true fs log = demand false invalid log
    check_either false false fs log = demand false invalid log
    check_either true false fs log =
        check_window local_timestamp (get fs "proposed_pickup_local_window") log
    check_either false true fs log = check_window (λ v. v) (get fs "proposed_pickup_window") log

    unfoldable pub check_proposal : ProviderBookingToolName → Fields js.Num → Act Thrown C Unit
    check_proposal reschedule_booking fs =
        check_either (has fs "proposed_pickup_local_window") (has fs "proposed_pickup_window") fs
    check_proposal cancel_booking fs = pure tt
    check_proposal decline_reschedule_alternatives fs = pure tt

  module _ (repository : ProviderBookingRepository js.Num)
      (service : ProviderBookingService js.Num) where
    abbrev Run : Type 0 → Type 0
    Run A = Act Thrown (BookingCall js.Num) A

    abbrev pub authorize : Run Unit
    authorize = demand (is_provider_inbound service.scope.flow) (tool_error not_authorized)

    -- `getState`: the object with what it read, which the caller gets too.
    unfoldable pub read : Run (ProviderBookingService js.Num × ProviderInboundState js.Num)
    read = do
      authorize
      state ← perform (read_state service.scope) repository.get_state
      pure (record service { state = some state }, state)

    -- `listBookings` reads anew, whatever was read before.
    unfoldable pub list_bookings : Run (ProviderBookingService js.Num × List ProviderBookingSummary)
    unfolding read
    list_bookings = do found ← read; pure (found.0, found.1.bookings)

    unfoldable pub execute :
        ProviderBookingToolName → Value js.Num → String → Run ProviderBookingResult
    execute name args id = do
      authorize
      demand (not (is_blank id)) invalid
      fs ← the_object args
      demand (command_ok name fs) invalid
      check_proposal name fs
      perform (command service.scope name id fs (booking_target service.state fs))
          repository.execute

    abbrev select_given :
        ProviderBookingSelectionName → String → Value js.Num → Run ProviderBookingSelectionResult
    select_given name id (str s) = do
      demand (is_operation_reference s) invalid
      perform (selection service.scope name id s) repository.select
    select_given name id v = throw invalid

    unfoldable pub select :
        ProviderBookingSelectionName → Value js.Num → String → Run ProviderBookingSelectionResult
    select name reference id = do
      authorize
      demand (not (is_blank id)) invalid
      select_given name id reference
