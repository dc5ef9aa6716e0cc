-- ===== src/Messages/Payload.antt =====
-- `prepareBookingEmailPayload`, `prepareBookingSmsPayload` and `prepareSmsPayload`: what is read of the
-- value that an outbox row holds. Nothing is refused; a field that is not usable is absent.
use Prim.Native.String.{[] as empty, ◌∷◌ as char}
use ctrl_alt_ship.Prelude.{String, true, false, Option, none, some, ◌==◌, if◌then◌else◌}
use ctrl_alt_ship.Js.{
  Value, undefined, null, bool, num, str, arr, obj, opaque, Fields, end, get, trim,
}

pub record BookingDetails : Type 0 where
  pub confirmed_price : Option String
  pub currency : String
  pub pickup_window_start : String
  pub pickup_window_end : String
  pub payment_term_days : Option String
  pub confirmation_reference : Option String
  pub container_type : Option String
  pub gross_weight_kg : Option String
  pub pickup_location : String
  pub delivery_location : String
  pub client_name : String
  pub provider_name : String

pub record BookingEmailPayload : Type 0 where
  pub template : String
  pub recipient_type : String
  pub recipient_name : Option String
  pub recipient_email : Option String
  pub operation_reference : String
  pub booking_id : String
  pub booking : BookingDetails

pub data RecipientPhoneType : Type 0 where
  mobile landline no_type : RecipientPhoneType

-- `SmsPayload`, with the fields of `BookingEmailPayload` as one field.
pub record SmsPayload : Type 0 where
  pub common : BookingEmailPayload
  pub recipient_phone : Option String
  pub recipient_phone_type : RecipientPhoneType
  pub reason : Option String

-- `text || null`
abbrev pub or_null : String → Option String
or_null empty = none
or_null (char c s) = some (char c s)

-- `text ?? ""`
abbrev pub or_empty : Option String → String
or_empty none = empty
or_empty (some s) = s

-- A payload is read from JSON. `number_text` is the host's `String(n)`.
module _ {Num : Type 0} (number_text : Num → String) where
  -- `optionalText`, and `text` of sms-templates.ts. Stored JSON has no functions or symbols.
  unfoldable pub optional_text : Value Num → Option String
  optional_text undefined = none
  optional_text null = none
  optional_text (bool true) = some "true"
  optional_text (bool false) = some "false"
  optional_text (num n) = or_null (trim (number_text n))
  optional_text (str s) = or_null (trim s)
  optional_text (arr items) = none
  optional_text (obj prototype fields) = none
  optional_text opaque = none

  -- `fields`: an array has none of the names that are read.
  unfoldable pub fields_of : Value Num → Fields Num
  fields_of (obj prototype fields) = fields
  fields_of v = end

  abbrev pub field_text : Fields Num → String → Option String
  field_text source name = optional_text (get source name)

  unfoldable pub prepare_booking_email_payload : Value Num → BookingEmailPayload
  unfolding fields_of
  prepare_booking_email_payload value =
      let source = fields_of value in
      let booking = fields_of (get source "booking") in
      record {
        template = or_empty (field_text source "template");
        recipient_type = or_empty (field_text source "recipient_type");
        recipient_name = field_text source "recipient_name";
        recipient_email = field_text source "recipient_email";
        operation_reference = or_empty (field_text source "operation_reference");
        booking_id = or_empty (field_text source "booking_id");
        booking = record {
          confirmed_price = field_text booking "confirmed_price";
          currency = or_empty (field_text booking "currency");
          pickup_window_start = or_empty (field_text booking "pickup_window_start");
          pickup_window_end = or_empty (field_text booking "pickup_window_end");
          payment_term_days = field_text booking "payment_term_days";
          confirmation_reference = field_text booking "confirmation_reference";
          container_type = field_text booking "container_type";
          gross_weight_kg = field_text booking "gross_weight_kg";
          pickup_location = or_empty (field_text booking "pickup_location");
          delivery_location = or_empty (field_text booking "delivery_location");
          client_name = or_empty (field_text booking "client_name");
          provider_name = or_empty (field_text booking "provider_name");
        };
      }

  unfoldable pub phone_type_of : Option String → RecipientPhoneType
  phone_type_of none = no_type
  phone_type_of (some t) =
      if t == "mobile" then mobile else if t == "landline" then landline else no_type

  unfoldable pub prepare_sms_payload : Value Num → SmsPayload
  unfolding fields_of phone_type_of prepare_booking_email_payload
  prepare_sms_payload value =
      let source = fields_of value in
      record {
        common = prepare_booking_email_payload value;
        recipient_phone = field_text source "recipient_phone";
        recipient_phone_type = phone_type_of (field_text source "recipient_phone_type");
        reason = field_text source "reason";
      }
