-- ===== src/Messages/Email/Escaping.antt =====
-- What the HTML of a mail keeps of the texts that it shows: a reader sees the tags of the template,
-- and every text of the payload as it is.
use ctrl_alt_ship.Prelude.{
  ℕ, ◌≡◌, refl, String, Bool, true, false, List, [], ◌∷◌, ◌++◌, inl, inr, Option, none, some, ◌==◌,
  ◌||◌, arith, Bool-cases,
}
use ctrl_alt_ship.Messages.Texts.{Text, utf16, shown}
use ctrl_alt_ship.Messages.Payload.{BookingEmailPayload}
use ctrl_alt_ship.Messages.Email.{
  MoneyFormat, escape_unit, escape_html, html_items, html_list, html_body, party_html,
  booking_details, greeting_of, Wording, client_wording, provider_wording, render_booking_email,
}
use ctrl_alt_ship.Messages.Email.Reading.{
  Token, outside, tag, unit, words, read_from, read_html, Reads, ◌then_reads◌, Reads-read_html,
}

Reads-escape_unit : (c : ℕ) → Reads (escape_unit c) (unit c ∷ [])
unfolding escape_unit read_from
Reads-escape_unit c = record { reads = λ rest. ground arith }

Reads-nothing : Reads [] []
Reads-nothing = record { reads = λ rest. refl }

Reads-escape_html : (s : Text) → Reads (escape_html s) (words s)
unfolding escape_html
Reads-escape_html [] = Reads-nothing
Reads-escape_html (c ∷ cs) =
    ◌then_reads◌ {ts = unit c ∷ []} (Reads-escape_unit c) (Reads-escape_html cs)

abbrev tags : String → List Token
tags name = tag (utf16 name) ∷ []

abbrev list_items : List Text → List Token
list_items [] = []
list_items (t ∷ ts) = (tags "li" ++ (words t ++ tags "/li")) ++ list_items ts

abbrev party_shown : (before : String) → Option Text → List Token
party_shown before none = []
party_shown before (some name) =
    words (utf16 before) ++ (tags "strong" ++ (words name ++ tags "/strong"))

-- The document that a template describes.
abbrev document : Wording → (greeting : Text) → (party : Option Text) → List Text → List Token
document w greeting party details =
    (tags "p" ++ words (utf16 "Hi "))
    ++ (words greeting
        ++ ((words (utf16 ",") ++ (tags "/p" ++ tags "p"))
            ++ (words (utf16 w.opening)
                ++ (party_shown w.party party
                    ++ ((words (utf16 " is confirmed.") ++ tags "/p")
                        ++ ((tags "ul" ++ (list_items details ++ tags "/ul"))
                            ++ (tags "p"
                                ++ (words (utf16 w.closing)
                                    ++ (tags "/p"
                                        ++ (tags "p"
                                            ++ (words (utf16 "Tango Logistics")
                                                ++ tags "/p")))))))))))

-- `refl` at the literal parts of the templates.
module _ (html : String) (ts : List Token) where
  abbrev Literal : Type 0
  Literal = (rest : Text) → read_from outside (utf16 html ++ rest) ≡ ts ++ read_from outside rest

  literal : Literal → Reads (utf16 html) ts
  literal h = record { reads = h }

Reads-html_items : (ts : List Text) → Reads (html_items ts) (list_items ts)
unfolding html_items read_from
Reads-html_items [] = Reads-nothing
Reads-html_items (t ∷ ts) =
    (literal "<li>" (tags "li") (λ rest. refl)
      then_reads Reads-escape_html t
      then_reads literal "</li>" (tags "/li") (λ rest. refl))
    then_reads Reads-html_items ts

Reads-html_list :
    (ts : List Text) → Reads (html_list ts) (tags "ul" ++ (list_items ts ++ tags "/ul"))
unfolding html_list read_from
Reads-html_list ts =
    literal "<ul>" (tags "ul") (λ rest. refl)
    then_reads Reads-html_items ts
    then_reads literal "</ul>" (tags "/ul") (λ rest. refl)

Reads-party_html :
    (before : String) (party : Option Text)
    → Reads (utf16 before) (words (utf16 before))
    → Reads (party_html before party) (party_shown before party)
unfolding read_from
Reads-party_html before none h = Reads-nothing
Reads-party_html before (some name) h =
    h
    then_reads literal "<strong>" (tags "strong") (λ rest. refl)
    then_reads Reads-escape_html name
    then_reads literal "</strong>" (tags "/strong") (λ rest. refl)

module _ (w : Wording) (opening : Reads (utf16 w.opening) (words (utf16 w.opening)))
    (party : Reads (utf16 w.party) (words (utf16 w.party)))
    (closing : Reads (utf16 w.closing) (words (utf16 w.closing))) where
  Reads-html_body :
      (greeting : Text) (name : Option Text) (details : List Text)
      → Reads (html_body w greeting name details) (document w greeting name details)
  unfolding html_body read_from
  Reads-html_body greeting name details =
      literal "<p>Hi " (tags "p" ++ words (utf16 "Hi ")) (λ rest. refl)
      then_reads Reads-escape_html greeting
      then_reads literal ",</p><p>" (words (utf16 ",") ++ (tags "/p" ++ tags "p")) (λ rest. refl)
      then_reads opening
      then_reads Reads-party_html w.party name party
      then_reads literal " is confirmed.</p>" (words (utf16 " is confirmed.") ++ tags "/p")
          (λ rest. refl)
      then_reads Reads-html_list details
      then_reads literal "<p>" (tags "p") (λ rest. refl)
      then_reads closing
      then_reads literal "</p><p>Tango Logistics</p>"
          (tags "/p" ++ (tags "p" ++ (words (utf16 "Tango Logistics") ++ tags "/p"))) (λ rest. refl)

-- The words of a template have no tag or reference.
abbrev IsPlain : String → Type 0
IsPlain t = Reads (utf16 t) (words (utf16 t))

client_words :
    IsPlain client_wording.opening × IsPlain client_wording.party × IsPlain client_wording.closing
unfolding read_from
client_words = (
  literal client_wording.opening _ (λ rest. refl),
  literal client_wording.party _ (λ rest. refl),
  literal client_wording.closing _ (λ rest. refl),
)

provider_words :
    IsPlain provider_wording.opening
    × IsPlain provider_wording.party
    × IsPlain provider_wording.closing
unfolding read_from
provider_words = (
  literal provider_wording.opening _ (λ rest. refl),
  literal provider_wording.party _ (λ rest. refl),
  literal provider_wording.closing _ (λ rest. refl),
)

abbrev pub for_client : BookingEmailPayload → Bool
for_client payload =
    payload.template == "booking_confirmation_client" || payload.recipient_type == "client"

-- What the mail for a payload is to show.
abbrev pub described : MoneyFormat → BookingEmailPayload → (client : Bool) → List Token
described host payload true =
    document client_wording (greeting_of payload.recipient_name (shown payload.booking.client_name))
      (shown payload.booking.provider_name) (booking_details host payload)
described host payload false =
    document provider_wording
      (greeting_of payload.recipient_name (shown payload.booking.provider_name))
      (shown payload.booking.client_name) (booking_details host payload)

-- A reader of the HTML of a confirmation sees just the tags of the template, and in their places the
-- greeting, the other party's name and the lines of details, character by character as in the payload.
pub render_booking_email-described :
    (host : MoneyFormat) (payload : BookingEmailPayload)
    → read_html (render_booking_email host payload).html
      ≡ described host payload (for_client payload)
unfolding render_booking_email read_from
render_booking_email-described host payload = elim (Bool-cases (for_client payload)) [
  | inl e ↦ rw e (
      Reads-read_html
        (Reads-html_body client_wording client_words.0 client_words.1 client_words.2 _ _ _))
  | inr e ↦ rw e (
      Reads-read_html
        (Reads-html_body provider_wording provider_words.0 provider_words.1 provider_words.2 _ _ _))
]
