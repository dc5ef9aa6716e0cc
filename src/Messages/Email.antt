-- ===== src/Messages/Email.antt =====
-- `renderBookingEmail` of email-templates.ts: subject, plain text and HTML of a booking confirmation.
pub mod Reading
pub mod Escaping
use ctrl_alt_ship.Prelude.{
  ℕ, String, Bool, true, false, List, [], ◌∷◌, ◌++◌, map, Option, none, some, ◌==◌, ◌||◌, eqb,
  is_some, if◌then◌else◌,
}
use ctrl_alt_ship.Messages.Texts.{Text, utf16, trim_text, join, shown, shown?, present}
use ctrl_alt_ship.Messages.Payload.{BookingDetails, BookingEmailPayload}

pub record RenderedEmail : Type 0 where
  pub subject : Text
  pub text : Text
  pub html : Text

-- What stands for a character of a text in HTML.
unfoldable pub escape_unit : ℕ → Text
escape_unit c =
    if eqb c b'&'
    then utf16 "&amp;"
    else if eqb c b'<'
    then utf16 "&lt;"
    else if eqb c b'>'
    then utf16 "&gt;"
    else if eqb c b'\''
    then utf16 "&#39;"
    else if eqb c b'"'
    then utf16 "&quot;"
    else c ∷ []

unfoldable pub escape_html : Text → Text
unfolding escape_unit
escape_html [] = []
escape_html (c ∷ cs) = escape_unit c ++ escape_html cs

-- The host's numbers: `Number(value)` where it is finite, by its text of two decimals, and
-- `Intl.NumberFormat`, which throws for a text that is no currency.
pub record MoneyFormat : Type 0 where
  pub fixed : String → Option Text
  pub localized : (value currency : String) → Option Text

abbrev plain_money : (currency : String) → Text → Text
plain_money currency amount = utf16 currency ++ (utf16 " " ++ amount)

module _ (host : MoneyFormat) where
  -- The `catch` of `formatMoney`.
  abbrev localized_or : Option Text → Text → Text
  localized_or none otherwise = otherwise
  localized_or (some t) otherwise = t

  unfoldable pub format_money : (value currency : String) → Text
  format_money value currency = elim (host.fixed value) [
    | none ↦ trim_text (plain_money currency (utf16 value))
    | some amount ↦
        if currency == ""
        then trim_text (plain_money currency (utf16 value))
        else localized_or (host.localized value currency) (plain_money currency amount)
  ]

  -- `...(value ? [line] : [])`
  abbrev line_of : (label : String) → Option Text → (after : String) → List Text
  line_of label none after = []
  line_of label (some t) after = (utf16 label ++ (t ++ utf16 after)) ∷ []

  -- Two parts of which one at least is there: `[a, b].filter(Boolean).join(separator)`.
  abbrev pair_line : (label separator : String) → Bool → (a b : Option Text) → List Text
  pair_line label separator false a b = []
  pair_line label separator true a b =
      (utf16 label ++ join (utf16 separator) (present (a ∷ b ∷ []))) ∷ []

  abbrev weight : Option String → Option Text
  weight none = none
  weight (some kg) = some (utf16 kg ++ utf16 " kg")

  abbrev price : (currency : String) → Option String → Option Text
  price currency none = none
  price currency (some value) = some (format_money value currency)

  abbrev days : Option String → Option Text
  days none = none
  days (some d) = some (utf16 d)

  unfoldable pub booking_details : BookingEmailPayload → List Text
  unfolding format_money
  booking_details payload =
      let b = payload.booking in
      line_of "Operation: " (shown payload.operation_reference) ""
      ++ (pair_line "Cargo: " ", " (is_some b.container_type || is_some b.gross_weight_kg)
            (shown? b.container_type) (weight b.gross_weight_kg)
          ++ (pair_line "Route: " " → "
                (is_some (shown b.pickup_location) || is_some (shown b.delivery_location))
                (shown b.pickup_location) (shown b.delivery_location)
              ++ (pair_line "Pickup window: " " to "
                    (is_some (shown b.pickup_window_start) || is_some (shown b.pickup_window_end))
                    (shown b.pickup_window_start) (shown b.pickup_window_end)
                  ++ (line_of "Confirmed price: " (price b.currency b.confirmed_price) ""
                      ++ (line_of "Payment term: " (days b.payment_term_days)
                            " days from invoice date"
                          ++ line_of "Confirmation reference: " (shown? b.confirmation_reference)
                              "")))))

abbrev item : Text → Text
item t = utf16 "<li>" ++ (escape_html t ++ utf16 "</li>")

unfoldable pub html_items : List Text → Text
unfolding escape_html
html_items [] = []
html_items (t ∷ ts) = item t ++ html_items ts

unfoldable pub html_list : List Text → Text
unfolding html_items
html_list items = utf16 "<ul>" ++ (html_items items ++ utf16 "</ul>")

-- The other party, as `before name` in the text and in bold in the HTML, or nothing.
abbrev party_text : (before : String) → Option Text → Text
party_text before none = []
party_text before (some name) = utf16 before ++ name

abbrev party_html : (before : String) → Option Text → Text
party_html before none = []
party_html before (some name) =
    utf16 before ++ (utf16 "<strong>" ++ (escape_html name ++ utf16 "</strong>"))

-- `payload.recipient_name ?? (name || "there")`
abbrev greeting_of : (recipient : Option String) → (name : Option Text) → Text
greeting_of (some recipient) name = utf16 recipient
greeting_of none (some name) = name
greeting_of none none = utf16 "there"

-- A template: the words before and behind the other party, and the closing sentence.
pub record Wording : Type 0 where
  pub opening : String
  pub party : String
  pub closing : String

abbrev client_wording : Wording
client_wording = record {
  opening = "Your freight booking";
  party = " with ";
  closing = "This is a confirmation of the agreed booking; no reply is required.";
}

abbrev provider_wording : Wording
provider_wording = record {
  opening = "The booking";
  party = " for ";
  closing = "Please use the confirmed terms above for dispatch.";
}

module _ (w : Wording) (greeting : Text) (party : Option Text) (details : List Text) where
  unfoldable pub text_body : Text
  text_body = join (utf16 "\n") (
      (utf16 "Hi " ++ (greeting ++ utf16 ","))
      ∷ []
      ∷ (utf16 w.opening ++ (party_text w.party party ++ utf16 " is confirmed."))
      ∷ []
      ∷ (details ++ ([] ∷ utf16 w.closing ∷ [] ∷ utf16 "Tango Logistics" ∷ [])))

  unfoldable pub html_body : Text
  unfolding html_list
  html_body =
      utf16 "<p>Hi "
      ++ (escape_html greeting
          ++ (utf16 ",</p><p>"
              ++ (utf16 w.opening
                  ++ (party_html w.party party
                      ++ (utf16 " is confirmed.</p>"
                          ++ (html_list details
                              ++ (utf16 "<p>"
                                  ++ (utf16 w.closing ++ utf16 "</p><p>Tango Logistics</p>"))))))))

module _ (host : MoneyFormat) (payload : BookingEmailPayload) where
  abbrev subject_line : Text
  subject_line = utf16 "Booking confirmed" ++ party_text " — " (shown payload.operation_reference)

  unfoldable pub render_with : Wording → (party greeted : Option Text) → RenderedEmail
  unfolding booking_details text_body html_body
  render_with w party greeted =
      let greeting = greeting_of payload.recipient_name greeted in
      let details = booking_details host payload in
      record {
        subject = subject_line;
        text = text_body w greeting party details;
        html = html_body w greeting party details;
      }

  unfoldable pub render_booking_email : RenderedEmail
  unfolding render_with
  render_booking_email =
      let client = shown payload.booking.client_name in
      let provider = shown payload.booking.provider_name in
      if payload.template == "booking_confirmation_client" || payload.recipient_type == "client"
      then render_with client_wording provider client
      else render_with provider_wording client provider
