-- ===== src/Observability/Logger.antt =====
-- backend/src/observability/logger.ts: what a log line holds. `as_error` is the host's
-- `value instanceof Error`; a value that holds itself, which the code does not end on, is left out.
pub mod Redaction
use ctrl_alt_ship.Prelude.{
  ℕ, String, Bool, true, false, ◌&&◌, ◌||◌, List, [], ◌∷◌, Option, none, some, is_some, ltb, eqb,
  if◌then◌else◌, ◌==◌, map,
}
use ctrl_alt_ship.Js.{
  Value, undefined, null, bool, num, str, arr, obj, opaque, Items, nil, cons, Fields, end, field,
  object_prototype, Pattern, match_prefix, codes,
}
use ctrl_alt_ship.Telephony.Formats.{letter}

pub data LogLevel : Type 0 where
  debug info warn error : LogLevel

-- LEVEL_WEIGHT
unfoldable pub level_weight : LogLevel → ℕ
level_weight debug = 10
level_weight info = 20
level_weight warn = 30
level_weight error = 40

abbrev level_name : LogLevel → String
level_name debug = "debug"
level_name info = "info"
level_name warn = "warn"
level_name error = "error"

-- A text under the flag `i`
abbrev literally : String → Pattern
literally s = map letter (codes s)

-- The pattern holds somewhere in the text.
unfoldable pub occurs : Pattern → List ℕ → Bool
occurs p [] = is_some (match_prefix p [])
occurs p (c ∷ cs) = is_some (match_prefix p (c ∷ cs)) || occurs p cs

-- /(authorization|api[-_]?key|secret|password|token)/i
unfoldable pub is_redacted : String → Bool
unfolding occurs match_prefix
is_redacted key =
    occurs (literally "authorization") (codes key)
    || occurs (literally "apikey") (codes key)
    || occurs (literally "api-key") (codes key)
    || occurs (literally "api_key") (codes key)
    || occurs (literally "secret") (codes key)
    || occurs (literally "password") (codes key)
    || occurs (literally "token") (codes key)

pub record ErrorTexts : Type 0 where
  pub name : String
  pub message : String
  pub stack : Option String

module _ {Num : Type 0} where
  abbrev pub redaction : Value Num
  redaction = str "[REDACTED]"

  abbrev pub text_or_undefined : Option String → Value Num
  text_or_undefined none = undefined
  text_or_undefined (some s) = str s

  abbrev pub error_object : ErrorTexts → Value Num
  error_object e = obj object_prototype (
      field "name" (str e.name)
        (field "message" (str e.message) (field "stack" (text_or_undefined e.stack) end)))

  abbrev pub or_error_object : Option ErrorTexts → Value Num → Value Num
  or_error_object none v = v
  or_error_object (some e) v = error_object e

module _ {Num : Type 0} (as_error : Value Num → Option ErrorTexts) where
  -- `serialize` behind the test of the key.
  unfoldable mutual
    pub serialize_value : Value Num → Value Num
    serialize_value (arr items) =
        or_error_object (as_error (arr items)) (arr (serialize_items items))
    serialize_value (obj prototype fields) =
        or_error_object (as_error (obj prototype fields))
          (obj object_prototype (serialize_fields fields))
    serialize_value undefined = undefined
    serialize_value null = null
    serialize_value (bool b) = bool b
    serialize_value (num n) = num n
    serialize_value (str s) = str s
    serialize_value opaque = opaque

    pub serialize_items : Items Num → Items Num
    serialize_items nil = nil
    serialize_items (cons v vs) = cons (serialize_value v) (serialize_items vs)

    pub serialize_fields : Fields Num → Fields Num
    serialize_fields end = end
    serialize_fields (field k v fs) =
        field k (if is_redacted k then redaction else serialize_value v) (serialize_fields fs)

-- `{ ...object, key: value }`
unfoldable pub with_field : {Num : Type 0} → Fields Num → String → Value Num → Fields Num
with_field end key v = field key v end
with_field (field k old fs) key v =
    if k == key then field k v fs else field k old (with_field fs key v)

-- `{ ...object, ...more }`
unfoldable pub spread : {Num : Type 0} → Fields Num → Fields Num → Fields Num
unfolding with_field
spread object end = object
spread object (field k v more) = spread (with_field object k v) more

pub record StructuredLogger (Num : Type 0) : Type 0 where
  pub minimum_level : LogLevel
  pub component : String
  pub context : Fields Num

unfoldable pub child : {Num : Type 0} → StructuredLogger Num → Fields Num → StructuredLogger Num
unfolding spread
child logger context = record logger { context = spread logger.context context }

-- A line of the log, before `JSON.stringify`, and where it goes.
pub data Channel : Type 0 where
  console_log console_warn console_error : Channel

abbrev channel_of : LogLevel → Channel
channel_of error = console_error
channel_of warn = console_warn
channel_of _ = console_log

module _ {Num : Type 0} (as_error : Value Num → Option ErrorTexts)
    (logger : StructuredLogger Num) where
  abbrev pub log_record :
      (timestamp : String) → LogLevel → (event : String) → Fields Num → Fields Num
  log_record timestamp level event fields =
      spread
        (spread
          (field "timestamp" (str timestamp) (
            field "level" (str (level_name level))
              (field "component" (str logger.component) (field "event" (str event) end))))
          logger.context)
        fields

  unfoldable pub write :
      (timestamp : String) → LogLevel → (event : String) → Fields Num → Option (Channel × Value Num)
  unfolding level_weight spread serialize_value
  write timestamp level event fields =
      if ltb (level_weight level) (level_weight logger.minimum_level)
      then none
      else some (
        channel_of level,
        serialize_value as_error (obj object_prototype (log_record timestamp level event fields)),
      )
