-- ===== src/Booking/Submission.antt =====
-- What reaches the booking repository, and from which calls.
use ctrl_alt_ship.Prelude.{
  String, ◌≡◌, refl, ◌≢◌, ◌⊎◌, inl, inr, true, false, Option, none, some, List, ◌∷◌, arith, err,
  Bool-cases, Option-cases, eq_iff,
}
use ctrl_alt_ship.Js.{
  Runtime, Value, undefined, str, Fields, get, has, only_keys, plain_object, is_blank,
}
use ctrl_alt_ship.ToolError.{Thrown, tool_error, not_authorized}
use ctrl_alt_ship.Checks.{Object, Object-at, invalid}
use ctrl_alt_ship.CallFlow.{Flow, provider_inbound, purpose, booking_management}
use ctrl_alt_ship.ProviderState.{ProviderBookingTarget, ProviderInboundState}
use ctrl_alt_ship.Booking.Types.{
  ProviderBookingToolName, ProviderBookingSelectionName, BookingCall, command,
  ProviderBookingRepository, ProviderBookingService,
}
use ctrl_alt_ship.Booking.Service.{
  is_provider_inbound, allowed_keys, is_text, is_reference, command_ok, selected_reference,
  given_reference, same_reference, booking_target, read, list_bookings, execute, select,
}
use ctrl_alt_ship.Booking.Reschedule.{Proposal, Proposal-decides}

is_provider_inbound-eq-false :
    (flow : Flow) → purpose flow ≢ booking_management → is_provider_inbound flow ≡ false
is_provider_inbound-eq-false provider_inbound h = absurd (h refl)
is_provider_inbound-eq-false _ h = refl

same_reference-named :
    {Num : Type 0} (v : Value Num) (selected : Option String)
    → same_reference (given_reference v selected) selected ≡ true
    → (r : String) × (selected ≡ some r) × ((v ≡ str r) ⊎ ((s : String) → v ≢ str s))
same_reference-named (str s) none h = cc
same_reference-named (str s) (some r) h = (r, refl, inl (ground (arith, eq_iff s r)))
same_reference-named undefined none h = cc
same_reference-named _ none h = cc
same_reference-named undefined (some r) h = (r, refl, inr (λ s e. cc))
same_reference-named _ (some r) h = (r, refl, inr (λ s e. cc))

module _ (js : Runtime) (repository : ProviderBookingRepository js.Num)
    (service : ProviderBookingService js.Num) where
  -- A call whose purpose is not booking management is refused by every operation, and nothing is
  -- asked of the repository.
  pub bookings_unauthorized :
      (name : ProviderBookingToolName) (choice : ProviderBookingSelectionName) (args : Value js.Num)
      (id : String) (log : List (BookingCall js.Num))
      → purpose service.scope.flow ≢ booking_management
      → (execute js repository service name args id log ≡ (err (tool_error not_authorized), log))
        × (select js repository service choice args id log ≡ (err (tool_error not_authorized), log))
        × (read js repository service log ≡ (err (tool_error not_authorized), log))
        × (list_bookings js repository service log ≡ (err (tool_error not_authorized), log))
  unfolding execute select read list_bookings
  bookings_unauthorized name choice args id log h =
      rw (is_provider_inbound-eq-false service.scope.flow h) (refl, refl, refl, refl)

  -- The arguments of a command: no other key than its own, a reason, a well-formed reference if
  -- any, and for a new pickup time one window in order.
  pub record Documented (name : ProviderBookingToolName) (fs : Fields js.Num) : Type 0 where
    pub known : only_keys (allowed_keys name) fs ≡ true
    pub reason : is_text (get fs "reason") ≡ true
    pub reference :
        (has fs "operation_reference" ≡ false)
        ⊎ (is_reference (get fs "operation_reference") ≡ true)
    pub proposal : Proposal js name fs

  abbrev pub call_of : ProviderBookingToolName → String → Fields js.Num → BookingCall js.Num
  call_of name id fs = command service.scope name id fs (booking_target service.state fs)

  -- The arguments are documented and the command reaches the repository, or neither.
  abbrev pub BookingSubmits :
      ProviderBookingToolName → Value js.Num → String → List (BookingCall js.Num) → Type 0
  BookingSubmits name args id log =
      ((fs : Fields js.Num) × (plain_object args ≡ some fs)
        × Documented name fs
        × (execute js repository service name args id log
            ≡ (repository.execute (call_of name id fs ∷ log), call_of name id fs ∷ log)))
      ⊎ (¬ Object (Documented name) args
          × ((e : Thrown) × (execute js repository service name args id log ≡ (err e, log))))

  -- For a provider's inbound call and a tool call id that is not blank: a command with documented
  -- arguments makes the one repository call it stands for; any other throws and calls nothing.
  pub booking-submits :
      (name : ProviderBookingToolName) (args : Value js.Num) (id : String)
      (log : List (BookingCall js.Num))
      → is_provider_inbound service.scope.flow ≡ true
      → is_blank id ≡ false
      → BookingSubmits name args id log
  unfolding execute command_ok
  booking-submits name args id log scoped given = elim (Option-cases (plain_object args)) [
    | inl missing ↦ inr (λ d. cc (d.1), (invalid, rw (scoped, given, missing)))
    | inr (fs, e) ↦ elim (Bool-cases (command_ok name fs)) [
      | inr failed ↦ inr (
        λ d.
            let c = Object-at (Documented name) args fs e d in
            ground (arith, c.known, c.reason, c.reference),
        (invalid, rw (scoped, given, e, failed)),
      )
      | inl passed ↦ elim (Proposal-decides js log name fs) [
        | inr (other, (thrown, h)) ↦ inr (
          λ d. let c = Object-at (Documented name) args fs e d in other c.proposal,
          (thrown, rw (scoped, given, e, passed, h)),
        )
        | inl (proposal, h) ↦ inl (
          fs,
          e,
          record {
            known = ground arith;
            reason = ground arith;
            reference = ground arith;
            proposal = proposal;
          },
          rw (scoped, given, e, passed, h),
        )
      ]
    ]
  ]

  -- The saved command target accompanies a command only if a booking is selected and the command
  -- names its operation, or none.
  pub booking_target-some :
      (state : ProviderInboundState js.Num) (fs : Fields js.Num) (target : ProviderBookingTarget)
      → booking_target (some state) fs ≡ some target
      → (state.command_target ≡ some target)
        × ((reference : String) × (selected_reference (some state) ≡ some reference)
            × ((get fs "operation_reference" ≡ str reference)
                ⊎ ((s : String) → get fs "operation_reference" ≢ str s)))
  unfolding booking_target
  booking_target-some state fs target h = (
    ground arith,
    same_reference-named (get fs "operation_reference") (selected_reference (some state))
        (ground arith),
  )
