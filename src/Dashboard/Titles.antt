-- ===== src/Dashboard/Titles.antt =====
-- dashboard.ts: the classes of events and their titles.
use ctrl_alt_ship.Prelude.{
  ℕ, ◌-◌, String, Bool, false, not, ◌&&◌, ◌||◌, List, [], ◌∷◌, map, Option, none, some, leb, eqb,
  if◌then◌else◌, ◌==◌,
}
use ctrl_alt_ship.Js.{is_digit, is_upper}
use ctrl_alt_ship.Messages.Texts.{Text, utf16}

-- CALL_LIFECYCLE_EVENTS
abbrev pub call_lifecycle_events : List String
call_lifecycle_events = "call.routed" ∷ "call.completed" ∷ "call.failed" ∷ []

-- OPERATION_STATE_EVENTS
abbrev pub operation_state_events : List String
operation_state_events =
    "operation.created" ∷ "operation.updated" ∷ "operation.cancelled" ∷ "mandate.confirmed"
    ∷ "sourcing.started" ∷ "quote.selected" ∷ "booking.pending" ∷ "booking.confirmed"
    ∷ "booking.declined" ∷ "booking.rescheduled" ∷ "booking.reschedule_declined"
    ∷ "booking.cancelled" ∷ "escalation.started" ∷ "escalation.supervisor_joined"
    ∷ "escalation.resolved" ∷ "escalation.failed" ∷ "email.queued" ∷ "email.sent" ∷ "email.failed"
    ∷ []

abbrev titles : List (String × String)
titles =
    ("operation.created", "Operation created")
    ∷ ("operation.updated", "Operation updated")
    ∷ ("operation.cancelled", "Operation cancelled")
    ∷ ("mandate.confirmed", "Mandate confirmed")
    ∷ ("sourcing.started", "Provider sourcing started")
    ∷ ("quote.requested", "Quote request issued")
    ∷ ("quote.received", "Quote received")
    ∷ ("quote.offered", "Provider price offered")
    ∷ ("quote.counteroffer_requested", "Counteroffer requested")
    ∷ ("quote.declined", "Quote declined")
    ∷ ("quote.expired", "Quote request expired")
    ∷ ("quote.selected", "Quote selected")
    ∷ ("booking.pending", "Booking confirmation requested")
    ∷ ("booking.confirmed", "Booking confirmed")
    ∷ ("booking.declined", "Booking declined")
    ∷ ("booking.rescheduled", "Booking rescheduled")
    ∷ ("booking.reschedule_declined", "Reschedule declined")
    ∷ ("booking.cancelled", "Booking cancelled")
    ∷ ("escalation.started", "Supervisor escalation started")
    ∷ ("escalation.supervisor_joined", "Supervisor joined")
    ∷ ("escalation.resolved", "Escalation resolved")
    ∷ ("escalation.failed", "Escalation follow-up required")
    ∷ ("email.queued", "Confirmation queued")
    ∷ ("email.sent", "Confirmation sent")
    ∷ ("email.failed", "Confirmation delivery failed")
    ∷ ("call.transferred", "Call transferred")
    ∷ []

abbrev pub find_text : List (String × String) → String → Option String
find_text [] key = none
find_text ((k, v) ∷ rest) key = if k == key then some v else find_text rest key

-- `text.replaceAll(old, " ")` for one unit `old`
abbrev pub blank_out : (old : ℕ) → Text → Text
blank_out old = map (λ c. if eqb c old then b' ' else c)

abbrev title_or : Option String → (event_type : String) → Text
title_or (some title) event_type = utf16 title
title_or none event_type = blank_out b'_' (blank_out b'.' (utf16 event_type))

unfoldable pub trace_event_title : (event_type : String) → Text
trace_event_title event_type = title_or (find_text titles event_type) event_type

abbrev is_lower : ℕ → Bool
is_lower c = leb b'a' c && leb c b'z'

-- `\w`
abbrev is_word : ℕ → Bool
is_word c = is_digit c || is_upper c || is_lower c || eqb c b'_'

abbrev capital : (inside : Bool) → ℕ → ℕ
capital inside c = if not inside && is_lower c then c - 32 else c

-- The units of word characters behind a boundary, in upper case.
unfoldable pub capitalize : (inside : Bool) → Text → Text
capitalize inside [] = []
capitalize inside (c ∷ cs) = capital inside c ∷ capitalize (is_word c) cs

unfoldable pub humanize : Text → Text
unfolding capitalize
humanize value = capitalize false (blank_out b'_' value)
