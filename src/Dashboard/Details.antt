-- ===== src/Dashboard/Details.antt =====
-- dashboard.ts: `traceFieldValue`, `traceChanges` and `traceEventDetail`.
use ctrl_alt_ship.Prelude.{
  ℕ, String, Bool, false, ◌&&◌, List, [], ◌∷◌, ◌++◌, Option, none, some, includes, length, eqb,
  if◌then◌else◌, ◌==◌,
}
use ctrl_alt_ship.Js.{
  Value, undefined, null, bool, num, str, arr, Fields, get, items, entries, key_count, is_blank,
}
use ctrl_alt_ship.Messages.Texts.{Text, utf16}
use ctrl_alt_ship.Dashboard.Readers.{NumberHost, as_record, as_text, as_plain_number, as_number}
use ctrl_alt_ship.Dashboard.Titles.{find_text, humanize}

pub record TraceChange : Type 0 where
  pub label : Text
  pub before : Option Text
  pub after : Text

abbrev labels : List (String × String)
labels =
    ("container_type", "Container")
    ∷ ("gross_weight_kg", "Gross weight")
    ∷ ("pickup_location", "Pickup")
    ∷ ("delivery_location", "Delivery")
    ∷ ("empty_return_depot", "Empty return")
    ∷ ("operational_constraints", "Conditions")
    ∷ ("cargo_notes", "Cargo notes")
    ∷ []

abbrev label_or : Option String → (field : String) → Text
label_or (some label) field = utf16 label
label_or none field = humanize (utf16 field)

-- `text.trim() ? text : …`
abbrev said : Option String → Option String
said none = none
said (some s) = if is_blank s then none else some s

module _ {Num : Type 0} (host : NumberHost Num) (count_text : ℕ → String) where
  -- `${n} thing${n === 1 ? "" : "s"}`
  abbrev counted : ℕ → (one many : String) → Text
  counted n one many = utf16 (count_text n) ++ utf16 (if eqb n 1 then one else many)

  abbrev kilograms : Option Num → Option Text
  kilograms none = none
  kilograms (some n) = some (utf16 (host.three_digits n) ++ utf16 " kg")

  -- The value of any field but the weight, the constraints and the notes.
  abbrev plain_value : Value Num → Option Text
  plain_value (str s) = some (utf16 s)
  plain_value (num n) = some (utf16 (host.text_of n))
  plain_value v = none

  abbrev constraints_value : Value Num → Option Text
  constraints_value (arr vs) = some (counted (length (items vs)) " condition" " conditions")
  constraints_value v = plain_value v

  abbrev some_value : (field : String) → Value Num → Option Text
  some_value field v =
      if field == "gross_weight_kg"
      then kilograms (as_number host v)
      else if field == "operational_constraints"
      then constraints_value v
      else plain_value v

  unfoldable pub trace_field_value : (field : String) → Value Num → Option Text
  unfolding as_number
  trace_field_value field undefined = none
  trace_field_value field null = none
  trace_field_value field v = some_value field v

  abbrev change_of : (field : String) → (before after : Option Text) → List TraceChange
  change_of field before none = []
  change_of field before (some []) = []
  change_of field before (some (c ∷ cs)) =
      record { label = label_or (find_text labels field) field; before = before; after = c ∷ cs }
      ∷ []

  abbrev changes_of : List (String × Value Num) → List TraceChange
  changes_of [] = []
  changes_of ((field, v) ∷ rest) =
      let change = as_record v in
      change_of field (trace_field_value field (get change "before"))
        (trace_field_value field (get change "after"))
      ++ changes_of rest

  unfoldable pub trace_changes : Value Num → List TraceChange
  unfolding trace_field_value humanize as_record
  trace_changes payload = changes_of (entries (as_record (get (as_record payload) "changes")))

  abbrev is_true : Value Num → Bool
  is_true (bool b) = b
  is_true v = false

  abbrev classification : Value Num → Text
  classification (str s) =
      if s == "within"
      then utf16 "Within range"
      else if s == "outside"
      then utf16 "Outside range"
      else utf16 "Unassessed"
  classification v = utf16 "Unassessed"

  abbrev not_an_approval : Text → Text
  not_an_approval t = t ++ utf16 " · Not an approval"

  abbrev amount : Num → Num → Text
  amount min max =
      if host.equal min max
      then utf16 (host.two_digits min)
      else utf16 (host.two_digits min) ++ (utf16 "–" ++ utf16 (host.two_digits max))

  -- `min === null || max === null || !currency`
  abbrev offer_detail : Option Num → Option Num → Option String → Text → Text
  offer_detail (some min) (some max) (some currency) class =
      if currency == ""
      then not_an_approval class
      else not_an_approval
          (amount min max ++ (utf16 " " ++ (utf16 currency ++ (utf16 " · " ++ class))))
  offer_detail min max currency class = not_an_approval class

  abbrev created_detail : Option String → Option ℕ → Option Text
  created_detail (some status) (some missing) =
      if status == ""
      then some []
      else some (
          humanize (utf16 status)
          ++ (utf16 " · " ++ counted missing " detail still required" " details still required"))
  created_detail (some status) none = some (humanize (utf16 status))
  created_detail none missing = none

  abbrev item_count : Value Num → Option ℕ
  item_count (arr vs) = some (length (items vs))
  item_count v = none

  abbrev providers_detail : Option Num → Option Text
  providers_detail none = none
  providers_detail (some n) = some (
      utf16 (host.text_of n)
      ++ utf16 (
          if host.equal n (host.number_of "1")
          then " provider in scope"
          else " providers in scope"))

  abbrev reasons : Option String → Option String → Option Num → Option Text
  reasons (some reason) selection_reason provider_count = some (utf16 reason)
  reasons none (some selection_reason) provider_count = some (utf16 selection_reason)
  reasons none none provider_count = providers_detail provider_count

  -- The last of the cases, which any other type of event falls into.
  abbrev other_detail : Fields Num → Option Text
  other_detail payload =
      reasons (said (as_text (get payload "reason")))
        (said (as_text (get payload "selection_reason")))
        (as_plain_number (get payload "provider_count"))

  abbrev mandate_detail : Option Num → Fields Num → Option Text
  mandate_detail (some version) payload = some (utf16 "Mandate v" ++ utf16 (host.text_of version))
  mandate_detail none payload = other_detail payload

  abbrev updated_detail : ℕ → Option Text
  updated_detail n = if eqb n 0 then none else some (counted n " field changed" " fields changed")

  unfoldable pub trace_event_detail : (event_type : String) → Value Num → Option Text
  unfolding humanize as_record
  trace_event_detail event_type value =
      let payload = as_record value in
      let price = as_record (get payload "price_range") in
      if includes ("quote.received" ∷ "quote.selected" ∷ "booking.confirmed" ∷ []) event_type
        && is_true (get payload "accepted_above_budget")
      then some (utf16 "Explicitly accepted above budget")
      else if event_type == "quote.offered"
      then some (
          offer_detail (as_plain_number (get price "min")) (as_plain_number (get price "max"))
            (as_text (get price "currency")) (classification (get payload "range_status")))
      else if event_type == "operation.created"
      then created_detail (as_text (get payload "status"))
          (item_count (get payload "missing_fields"))
      else if event_type == "operation.updated"
      then updated_detail (key_count (as_record (get payload "changes")))
      else if event_type == "mandate.confirmed"
      then mandate_detail (as_plain_number (get payload "mandate_version")) payload
      else other_detail payload
