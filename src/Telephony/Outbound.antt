-- ===== src/Telephony/Outbound.antt =====
-- backend/src/tango/telephony/outbound-routing.ts, `routeOutboundCall`: the checks of the rows behind a
-- call that the program itself has dialed, and the binding of the call to its record. A query answers
-- with its error or a row, where there is one.
pub mod Rows
pub mod Checked
use ctrl_alt_ship.Prelude.{
  ℕ, String, Bool, true, false, not, ◌&&◌, ◌||◌, List, [], ◌∷◌, Option, none, some, is_some, Result,
  ok, err, eqb, includes, if◌then◌else◌, ◌==◌, check, given, Act, pure, lift, perform, ◌>>=◌, ◌>>◌,
}
use ctrl_alt_ship.Js.{Runtime, gt}
use ctrl_alt_ship.ToolError.{Thrown, other_error}
use ctrl_alt_ship.CallFlow.{
  outbound, ProviderOutboundPurpose, quote_request, renegotiation, booking_replacement,
  outbound_purpose,
}
use ctrl_alt_ship.Telephony.Routing.{AcceptedRoutingDecision, OutboundFields, provider_identity}

-- A row of `calls`, `providers`, `operations`, `quote_requests` and `sourcing_rounds`, by the columns
-- that are selected.
pub record CallRow : Type 0 where
  pub operation_id : Option String
  pub provider_id : Option String
  pub purpose : String
  pub quote_request_id : Option String
  pub realtime_call_id : Option String
  pub twilio_call_sid : Option String
  pub outcome : String
  pub ended_at : Option String
  pub outbound_attempt : Option ℕ
  pub dispatch_state : String

pub record ProviderRow : Type 0 where
  pub id : String
  pub name : String
  pub phone : String
  pub email : Option String
  pub active : Bool

pub record OperationRow : Type 0 where
  pub id : String
  pub current_mandate_id : Option String
  pub status : String
  pub mandate_confirmation_required : Bool

pub record RequestRow : Type 0 where
  pub id : String
  pub operation_id : String
  pub provider_id : String
  pub round_id : Option String
  pub mandate_id : Option String
  pub status : String
  pub expires_at : Option String

pub record RoundRow : Type 0 where
  pub operation_id : String
  pub mandate_id : Option String
  pub status : String
  pub kind : String

pub record BoundRow : Type 0 where
  pub realtime_call_id : Option String
  pub outcome : String
  pub ended_at : Option String

pub data OutboundCall : Type 0 where
  find_call find_provider find_operation find_request find_round : (id : String) → OutboundCall
  bind_call : (call_record_id call_id : String) → OutboundCall
  find_binding : (call_record_id : String) → OutboundCall

abbrev pub Answer : Type 0 → Type 0
Answer Row = List OutboundCall → Result Thrown (Option Row)

pub record OutboundDependencies : Type 0 where
  pub find_call : Answer CallRow
  pub find_provider : Answer ProviderRow
  pub find_operation : Answer OperationRow
  pub find_request : Answer RequestRow
  pub find_round : Answer RoundRow
  -- the updated row, or none where another call or an end came first
  pub bind_call : Answer Unit
  pub find_binding : Answer BoundRow

-- A text that is there and not empty.
abbrev pub filled : Option String → Option String
filled none = none
filled (some s) = if s == "" then none else some s

-- `a === b` of nullable columns
abbrev pub same_id : Option String → Option String → Bool
same_id none none = true
same_id (some a) (some b) = a == b
same_id a b = false

abbrev pub purpose_of : String → Option ProviderOutboundPurpose
purpose_of s =
    if s == "quote_request"
    then some quote_request
    else if s == "renegotiation"
    then some renegotiation
    else if s == "booking_replacement"
    then some booking_replacement
    else none

-- `[1, 2, 3].includes(attempt)`
abbrev pub is_attempt : ℕ → Bool
is_attempt n = eqb n 1 || eqb n 2 || eqb n 3

abbrev pub expected_kind : ProviderOutboundPurpose → String
expected_kind quote_request = "initial"
expected_kind renegotiation = "renegotiation"
expected_kind booking_replacement = "replacement"

-- `row.realtime_call_id && row.realtime_call_id !== callId`
abbrev pub bound_elsewhere : Option String → (call_id : String) → Bool
bound_elsewhere none call_id = false
bound_elsewhere (some id) call_id = not (id == call_id)

abbrev pub or_error : {Row : Type 0} → Thrown → Result Thrown (Option Row) → Result Thrown Row
or_error otherwise (err error) = err error
or_error otherwise (ok none) = err otherwise
or_error otherwise (ok (some row)) = ok row

-- What the first checks make of the call's row.
pub record AvailableCall : Type 0 where
  pub operation_id : String
  pub provider_id : String
  pub quote_request_id : String
  pub purpose : ProviderOutboundPurpose
  pub attempt : ℕ
  pub realtime_call_id : Option String
  pub twilio_call_sid : Option String

abbrev unavailable : Thrown
unavailable = other_error "Outbound call is not available"

unfoldable pub available : (call_id : String) → CallRow → Result Thrown AvailableCall
available call_id c = given (filled c.operation_id) unavailable (λ operation_id.
    given (filled c.provider_id) unavailable (λ provider_id.
      given (filled c.quote_request_id) unavailable (λ quote_request_id.
        given (purpose_of c.purpose) unavailable (λ purpose.
          check (c.outcome == "active") unavailable (
            check (not (is_some (filled c.ended_at))) unavailable (
              given c.outbound_attempt unavailable (λ attempt.
                check (is_attempt attempt) unavailable (
                  check (includes ("dispatching" ∷ "accepted" ∷ "unknown" ∷ []) c.dispatch_state)
                    unavailable
                    (check (not (bound_elsewhere (filled c.realtime_call_id) call_id)) unavailable (
                      ok (record {
                        operation_id = operation_id;
                        provider_id = provider_id;
                        quote_request_id = quote_request_id;
                        purpose = purpose;
                        attempt = attempt;
                        realtime_call_id = filled c.realtime_call_id;
                        twilio_call_sid = c.twilio_call_sid;
                      })))))))))))

abbrev no_context : Thrown
no_context = other_error "Outbound context unavailable"

module _ (js : Runtime) (now : js.Num) where
  -- `validExpiry`
  abbrev pub valid_expiry : Option String → Bool
  valid_expiry none = false
  valid_expiry (some s) =
      s == "infinity" || (js.is_finite (js.parse_date s) && gt js (js.parse_date s) now)

  unfoldable pub context_ok : ProviderRow → OperationRow → RequestRow → Result Thrown String
  context_ok p o r = check p.active no_context (
      check (not o.mandate_confirmation_required) no_context (
        given (filled r.round_id) no_context (λ round_id.
          check (r.operation_id == o.id) no_context (
            check (r.provider_id == p.id) no_context (
              check (same_id r.mandate_id o.current_mandate_id) no_context (
                check (includes ("pending" ∷ "queued" ∷ "contacted" ∷ "responded" ∷ []) r.status)
                  no_context
                  (check (valid_expiry r.expires_at) no_context (
                    check (includes ("sourcing" ∷ "quotes_received" ∷ []) o.status) no_context
                      (ok round_id)))))))))

unfoldable pub round_ok : ProviderOutboundPurpose → OperationRow → RoundRow → Bool
round_ok purpose o round =
    round.status == "active"
    && round.operation_id == o.id
    && same_id round.mandate_id o.current_mandate_id
    && round.kind == expected_kind purpose

unfoldable pub binding_ok : (call_id : String) → BoundRow → Bool
binding_ok call_id bound =
    same_id bound.realtime_call_id (some call_id)
    && bound.outcome == "active"
    && not (is_some (filled bound.ended_at))

abbrev pub or_sid : Option String → String → String
or_sid none sip_call_sid = sip_call_sid
or_sid (some sid) sip_call_sid = sid

-- `provider.error ?? operation.error ?? request.error ?? new Error(…)`
unfoldable pub context_rows :
    Result Thrown (Option ProviderRow)
    → Result Thrown (Option OperationRow)
    → Result Thrown (Option RequestRow)
    → Result Thrown (ProviderRow × OperationRow × RequestRow)
context_rows (err e) operation request = err e
context_rows (ok p) (err e) request = err e
context_rows (ok p) (ok o) (err e) = err e
context_rows (ok p) (ok o) (ok r) = given p no_context (λ provider.
    given o no_context
      (λ operation. given r no_context (λ request. ok (provider, operation, request))))

module _ (js : Runtime) (now : js.Num) (d : OutboundDependencies)
    (call_record_id call_id : String) where
  abbrev pub Run : Type 0 → Type 0
  Run A = Act Thrown OutboundCall A

  -- A query whose error is a value, as in `const { data, error }`.
  abbrev pub query : {Row : Type 0} → OutboundCall → Answer Row → Run (Result Thrown (Option Row))
  query c answer = perform c (λ log. ok (answer log))

  -- The three rows are asked for at once.
  unfoldable pub find_context : AvailableCall → Run (ProviderRow × OperationRow × RequestRow)
  unfolding context_rows
  find_context c = do
    provider ← query (find_provider c.provider_id) d.find_provider
    operation ← query (find_operation c.operation_id) d.find_operation
    request ← query (find_request c.quote_request_id) d.find_request
    lift (context_rows provider operation request)

  abbrev pub no_round : Thrown
  no_round = other_error "Outbound round does not match persisted purpose"

  abbrev pub already_bound : Thrown
  already_bound = other_error "Outbound call already bound"

  -- Where the row could not be updated, it may have been bound to this very call.
  abbrev pub recheck : Option (Unit {0}) → Run Unit
  recheck (some updated) = pure tt
  recheck none = do
    bound ←
        perform (find_binding call_record_id) (λ log. or_error already_bound (d.find_binding log))
    lift (check (binding_ok call_id bound) already_bound (ok tt))

  unfoldable pub bind : Option String → Run Unit
  unfolding binding_ok
  bind (some realtime_call_id) = pure tt
  bind none = do linked ← perform (bind_call call_record_id call_id) d.bind_call; recheck linked

  abbrev pub decision :
      AvailableCall
      → ProviderRow
      → RequestRow
      → (round_id sip_call_sid : String) → AcceptedRoutingDecision Unit
  decision c p r round_id sip_call_sid = record {
    call_id = call_id;
    twilio_call_sid = or_sid c.twilio_call_sid sip_call_sid;
    caller_phone = p.phone;
    identity = provider_identity (record {
      provider_id = p.id;
      name = p.name;
      phone = p.phone;
      email = p.email;
      active = p.active;
    });
    operations = [];
    direction = outbound;
    purpose = outbound_purpose c.purpose;
    outbound = some (record {
      call_record_id = call_record_id;
      quote_request_id = r.id;
      round_id = round_id;
      attempt = c.attempt;
    });
  }

  abbrev pub find_row : Run CallRow
  find_row = perform (find_call call_record_id) (λ log. or_error unavailable (d.find_call log))

  abbrev pub find_open_round :
      ProviderOutboundPurpose → OperationRow → (round_id : String) → Run Unit
  find_open_round purpose o round_id = do
    round ← perform (find_round round_id) (λ log. or_error no_round (d.find_round log))
    lift (check (round_ok purpose o round) no_round (ok tt))

  -- The end of the routing, once the rows are there.
  unfoldable pub take_call :
      AvailableCall
      → ProviderRow
      → OperationRow
      → RequestRow
      → (round_id sip_call_sid : String) → Run (AcceptedRoutingDecision Unit)
  unfolding round_ok bind
  take_call c p o r round_id sip_call_sid = do
    find_open_round c.purpose o round_id
    bind c.realtime_call_id
    pure (decision c p r round_id sip_call_sid)

  abbrev pub with_context :
      AvailableCall
      → (sip_call_sid : String) → ProviderRow × OperationRow × RequestRow
      → Run (AcceptedRoutingDecision Unit)
  with_context c sip_call_sid (p, o, r) = do
    round_id ← lift (context_ok js now p o r)
    take_call c p o r round_id sip_call_sid

  abbrev pub with_call :
      (sip_call_sid : String) → AvailableCall → Run (AcceptedRoutingDecision Unit)
  with_call sip_call_sid c = do rows ← find_context c; with_context c sip_call_sid rows

  unfoldable pub route_outbound_call : (sip_call_sid : String) → Run (AcceptedRoutingDecision Unit)
  unfolding available find_context context_ok take_call
  route_outbound_call sip_call_sid = do
    row ← find_row
    c ← lift (available call_id row)
    with_call sip_call_sid c
