-- ===== src/Workers/SmsGateway.antt =====
-- backend/src/tango/services/sms-gateway.ts: the preview gateway and the one over Twilio. The transport
-- and the text of a status are parameters; the classes of the errors are the code's own.
pub mod Sending
use Prim.Native.String.{◌++◌ as join, [] as empty, ◌∷◌ as char}
use ctrl_alt_ship.Prelude.{
  ℕ, String, Bool, true, false, not, ◌&&◌, ◌||◌, List, [], ◌∷◌, Option, none, some, Result, ok, err,
  eqb, leb, all, length, is_some, if◌then◌else◌, ◌==◌, Act, pure, throw, lift, perform, ◌>>=◌, ◌>>◌,
}
use ctrl_alt_ship.Js.{codes, trim, is_blank, is_digit, is_upper, strip_prefix}
use ctrl_alt_ship.Telephony.Formats.{lower}
use ctrl_alt_ship.Workers.Outbox.{OutboxError, delivery_error, other_error}
use ctrl_alt_ship.Workers.Outbox.Sms.{
  PhoneType, mobile, landline, unknown_type, SmsMessage, SmsDeliveryResult,
}

-- `s.startsWith(p)`
unfoldable pub starts_with : String → String → Bool
starts_with p s = is_some (strip_prefix (codes p) (codes s))

-- `s.slice(3)`, of a text whose first three characters are ASCII
abbrev pub behind_three : String → String
behind_three (char a (char b (char c s))) = s
behind_three s = empty

unfoldable pub format_outbound_sms_destination : String → PhoneType → Result OutboxError String
unfolding starts_with
format_outbound_sms_destination phone landline =
    err (delivery_error "sms_destination_not_mobile" false)
format_outbound_sms_destination phone unknown_type = ok phone
format_outbound_sms_destination phone mobile =
    if starts_with "+549" phone
    then ok phone
    else (if starts_with "+54" phone then ok (join "+549" (behind_three phone)) else ok phone)

-- `PreviewSmsGateway.deliver`
unfoldable pub deliver_preview : (idempotency_key : String) → SmsDeliveryResult
deliver_preview key = record { provider_message_id = join "preview:" key; preview = true }

-- What is read of a thrown value: its `status` if that is a number, and the text of its `code` if
-- that is a number or a text.
pub record TransportError : Type 0 where
  pub status : Option ℕ
  pub provider_code : Option String

pub record Transport : Type 0 where
  pub from : String
  -- `sid`, if it is a text
  pub send : (to from body : String) → Result TransportError (Option String)
  -- the text of a number
  pub number_text : ℕ → String
  -- `toLowerCase()`
  pub lower_text : String → String

-- [A-Z0-9_-] under the flag `i`
abbrev is_code_char : ℕ → Bool
is_code_char c = is_upper c || (leb b'a' c && leb c b'z') || is_digit c || eqb c b'_' || eqb c b'-'

-- /^[A-Z0-9_-]{1,100}$/i
abbrev pub is_provider_code : String → Bool
is_provider_code s =
    leb 1 (length (codes s)) && leb (length (codes s)) 100 && all is_code_char (codes s)

abbrev pub is_retryable : Option ℕ → Bool
is_retryable none = true
is_retryable (some status) = eqb status 408 || eqb status 429 || leb 500 status

module _ (t : Transport) where
  -- A status of 0 counts as none.
  abbrev status_code : Option ℕ → String
  status_code none = "sms_delivery_unavailable"
  status_code (some status) =
      if eqb status 0
      then "sms_delivery_unavailable"
      else join "sms_response_" (t.number_text status)

  abbrev error_code : Option String → Option ℕ → String
  error_code none status = status_code status
  error_code (some code) status =
      if is_provider_code code then join "sms_twilio_" (t.lower_text code) else status_code status

  -- `deliveryError`
  unfoldable pub delivery_error_of : TransportError → OutboxError
  delivery_error_of e = delivery_error (error_code e.provider_code e.status) (is_retryable e.status)

  abbrev pub checked_sid : Option String → Result OutboxError SmsDeliveryResult
  checked_sid none = err (delivery_error "sms_invalid_response" true)
  checked_sid (some sid) =
      if is_blank sid
      then err (delivery_error "sms_invalid_response" true)
      else ok (record { provider_message_id = sid; preview = false })

  abbrev pub answered : Result TransportError (Option String) → Result OutboxError SmsDeliveryResult
  answered (ok sid) = checked_sid sid
  answered (err e) = err (delivery_error_of e)

  abbrev pub send_to : Result OutboxError String → String → Result OutboxError SmsDeliveryResult
  send_to (ok to) body = answered (t.send to t.from body)
  send_to (err e) body = err e

  -- `TwilioSmsGateway.deliver`
  unfoldable pub deliver_twilio : SmsMessage → Result OutboxError SmsDeliveryResult
  deliver_twilio message =
      if trim message.body == ""
      then err (delivery_error "sms_empty_body" false)
      else send_to (format_outbound_sms_destination message.to message.phone_type)
          (trim message.body)
