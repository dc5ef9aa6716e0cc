-- ===== src/Dashboard/Readers.antt =====
-- dashboard.ts: `asRecord`, `asNumber`, `readWindows`, `readWindow`, and the texts that both the trace and
-- the register show.
use ctrl_alt_ship.Prelude.{
  String, Bool, true, false, List, [], ◌∷◌, ◌++◌, Option, none, some, if◌then◌else◌, ◌==◌,
}
use ctrl_alt_ship.Js.{Value, num, str, arr, obj, Fields, end, get, items}

-- The host's numbers as the dashboard reads and shows them.
pub record NumberHost (Num : Type 0) : Type 0 where
  pub is_finite : Num → Bool
  -- `Number(text)`
  pub number_of : String → Num
  -- `String(number)`
  pub text_of : Num → String
  -- `new Intl.NumberFormat("en-US", { maximumFractionDigits }).format(number)`
  pub two_digits : Num → String
  pub three_digits : Num → String
  pub equal : Num → Num → Bool

module _ {Num : Type 0} where
  unfoldable pub as_record : Value Num → Fields Num
  as_record (obj prototype fields) = fields
  as_record v = end

  -- The text of a value that is one.
  abbrev pub as_text : Value Num → Option String
  as_text (str s) = some s
  as_text v = none

  abbrev pub as_plain_number : Value Num → Option Num
  as_plain_number (num n) = some n
  as_plain_number v = none

  module _ (host : NumberHost Num) where
    abbrev finite : Num → Option Num
    finite n = if host.is_finite n then some n else none

    unfoldable pub as_number : Value Num → Option Num
    as_number (num n) = finite n
    as_number (str s) = finite (host.number_of s)
    as_number v = none

pub record DashboardWindow : Type 0 where
  pub start_at : String
  pub end_at : String

abbrev window_of : Option String → Option String → List DashboardWindow
window_of (some start_at) (some end_at) = record { start_at = start_at; end_at = end_at } ∷ []
window_of start_at end_at = []

abbrev first : List DashboardWindow → Option DashboardWindow
first [] = none
first (w ∷ ws) = some w

module _ {Num : Type 0} where
  abbrev read_item : Value Num → List DashboardWindow
  read_item item =
      window_of (as_text (get (as_record item) "start_at"))
        (as_text (get (as_record item) "end_at"))

  abbrev read_items : List (Value Num) → List DashboardWindow
  read_items [] = []
  read_items (item ∷ rest) = read_item item ++ read_items rest

  unfoldable pub read_windows : Value Num → List DashboardWindow
  unfolding as_record
  read_windows (arr vs) = read_items (items vs)
  read_windows v = []

  unfoldable pub read_window : Value Num → Option DashboardWindow
  unfolding as_record
  read_window v = first (read_item v)

unfoldable pub next_step : (status : String) → (has_active_escalation : Bool) → String
next_step status true = "Review active escalation"
next_step status false =
    if status == "collecting_details"
    then "Collect missing shipment details"
    else if status == "sourcing"
    then "Request provider quotes"
    else if status == "quotes_received"
    then "Select a valid quote"
    else if status == "quote_selected"
    then "Request booking confirmation"
    else if status == "booking_pending"
    then "Await provider confirmation"
    else if status == "booking_confirmed"
    then "Send booking confirmations"
    else if status == "notifications_sent"
    then "Monitor confirmed pickup"
    else if status == "needs_follow_up"
    then "Review required follow-up"
    else "Review operation"
