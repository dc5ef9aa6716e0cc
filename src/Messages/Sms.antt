-- ===== src/Messages/Sms.antt =====
-- `renderSms` of sms-templates.ts and the three templates behind it, by the lines of each.
pub mod Bounds
use ctrl_alt_ship.Prelude.{
  ℕ, String, Bool, List, [], ◌∷◌, ◌++◌, Option, none, some, ◌==◌, ◌&&◌, ◌||◌, if◌then◌else◌,
}
use ctrl_alt_ship.Messages.Texts.{
  Text, utf16, trim_text, compact, limit_body, join, shown, shown?, truthy, present,
}
use ctrl_alt_ship.Messages.Payload.{BookingDetails, SmsPayload}

-- `value ? before + f(value) + after : null`
abbrev labelled : (before : String) → Option Text → (Text → Text) → (after : String) → Option Text
labelled before none f after = none
labelled before (some value) f after = some (utf16 before ++ (f value ++ utf16 after))

-- `[a, b].filter(Boolean).join(separator)`
abbrev pub joined : (separator : String) → (a b : Option Text) → Text
joined separator a b = join (utf16 separator) (present (a ∷ b ∷ []))

abbrev weight : Option String → Option Text
weight none = none
weight (some kg) = some (utf16 kg ++ utf16 " kg")

module _ (b : BookingDetails) where
  unfoldable pub route : Text
  route = joined " -> " (shown b.pickup_location) (shown b.delivery_location)

  unfoldable pub cargo : Text
  cargo = joined ", " (shown? b.container_type) (weight b.gross_weight_kg)

unfoldable pub date_range : (start end : String) → Option Text
date_range start end =
    if start == "" && end == ""
    then none
    else some (compact 96 (joined " to " (shown start) (shown end)))

abbrev truthy? : Option Text → Option Text
truthy? none = none
truthy? (some t) = truthy t

-- `Number(value).toFixed(2)`, or none where the number is not finite: the host's arithmetic.
module _ (fixed : String → Option Text) where
  unfoldable pub amount_text : String → Text
  amount_text value = elim (fixed value) [ none ↦ utf16 value | some t ↦ t ]

  unfoldable pub money : Option String → (currency : String) → Option Text
  unfolding amount_text
  money none currency = none
  money (some value) currency =
      some (compact 96 (trim_text (utf16 currency ++ (utf16 " " ++ amount_text value))))

-- The terms of a payment are shown also where the text is empty, unlike the other fields.
abbrev term_line : Option String → Option Text
term_line none = none
term_line (some days) =
    some (utf16 "Payment term: " ++ (compact 32 (utf16 days) ++ utf16 " days from invoice."))

abbrev is_provider : SmsPayload → Bool
is_provider p =
    p.common.template == "booking_confirmation_provider" || p.common.recipient_type == "provider"

-- The lines of each template between the reference, where each has one, and its end.
module _ (p : SmsPayload) where
  abbrev route_line : Option Text
  route_line = labelled "Route: " (truthy (route p.common.booking)) (compact 180) ""

  abbrev pickup_line : Option Text
  pickup_line =
      labelled "Pickup: "
        (truthy?
          (date_range p.common.booking.pickup_window_start p.common.booking.pickup_window_end))
        (λ t. t) ""

  abbrev confirmation_line : Option Text
  confirmation_line =
      labelled "Confirmation: " (shown? p.common.booking.confirmation_reference) (compact 64) ""

  abbrev client_line : Option Text
  client_line = labelled "Client: " (shown p.common.booking.client_name) (compact 96) ""

  abbrev provider_line : Option Text
  provider_line = labelled "Provider: " (shown p.common.booking.provider_name) (compact 96) ""

  abbrev reason_line : Option Text
  reason_line = labelled "Reason: " (shown? p.reason) (compact 120) ""

  unfoldable pub booking_lines : (fixed : String → Option Text) → List (Option Text)
  unfolding route cargo date_range money
  booking_lines fixed =
      (if is_provider p then client_line else provider_line)
      ∷ route_line
      ∷ pickup_line
      ∷ labelled "Cargo: " (truthy (cargo p.common.booking)) (compact 100) ""
      ∷ labelled "Confirmed price: "
          (truthy? (money fixed p.common.booking.confirmed_price p.common.booking.currency))
          (λ t. t) ""
      ∷ term_line p.common.booking.payment_term_days
      ∷ confirmation_line
      ∷ some (
          utf16 (
            if is_provider p
            then "Use these terms for dispatch."
            else "Keep this confirmation for your records."))
      ∷ []

  unfoldable pub client_cancellation_lines : List (Option Text)
  client_cancellation_lines =
      reason_line ∷ some (utf16 "Your operation is cancelled. No further action is required.") ∷ []

  unfoldable pub provider_cancellation_lines : List (Option Text)
  unfolding route date_range
  provider_cancellation_lines =
      client_line
      ∷ route_line
      ∷ pickup_line
      ∷ confirmation_line
      ∷ reason_line
      ∷ some (utf16 "The client cancelled the operation.")
      ∷ []

abbrev pub reference_line : String → Option Text
reference_line reference = labelled "Reference: " (shown reference) (compact 64) ""

-- `limitBody(lines.join("\n"))` for the lines that are there.
unfoldable pub body_of : (title reference : String) → List (Option Text) → Text
unfolding limit_body compact
body_of title reference lines =
    limit_body 459 (join (utf16 "\n") (utf16 title ∷ present (reference_line reference ∷ lines)))

module _ (fixed : String → Option Text) (p : SmsPayload) where
  unfoldable pub render_booking_sms : Text
  unfolding booking_lines body_of
  render_booking_sms =
      body_of "Tango: booking confirmed." p.common.operation_reference (booking_lines p fixed)

  unfoldable pub render_client_cancellation_sms : Text
  unfolding client_cancellation_lines body_of
  render_client_cancellation_sms =
      body_of "Tango: cancellation confirmed." p.common.operation_reference
        (client_cancellation_lines p)

  unfoldable pub render_provider_cancellation_sms : Text
  unfolding provider_cancellation_lines body_of
  render_provider_cancellation_sms =
      body_of "Tango: booking cancelled. Do not dispatch." p.common.operation_reference
        (provider_cancellation_lines p)

  unfoldable pub render_sms : Text
  unfolding render_booking_sms render_client_cancellation_sms render_provider_cancellation_sms
  render_sms =
      if p.common.template == "operation_cancellation_client"
      then render_client_cancellation_sms
      else if p.common.template == "booking_cancellation_provider"
      then render_provider_cancellation_sms
      else render_booking_sms
