-- ===== src/Observability/Logger/Redaction.antt =====
-- What no log line holds.
use ctrl_alt_ship.Prelude.{
  String, false, Option, none, some, ltb, ◌≡◌, ◌≤◌, ◌<◌, refl, inl, inr, ◌⊎◌, Bool-cases, arith,
  if◌then◌else◌,
}
use ctrl_alt_ship.Js.{
  Value, undefined, null, bool, num, str, arr, obj, opaque, Items, nil, cons, Fields, end, field,
  object_prototype, match_prefix,
}
use ctrl_alt_ship.Observability.Logger.{
  LogLevel, level_weight, is_redacted, occurs, ErrorTexts, redaction, error_object,
  text_or_undefined, or_error_object, serialize_value, serialize_items, serialize_fields,
  StructuredLogger, Channel, log_record, write,
}

module _ {Num : Type 0} where
  -- At every depth, a field whose key is to be redacted holds nothing but the mark of that.
  abbrev mutual
    pub HidesSecrets : Value Num → Type 0
    HidesSecrets (arr items) = ItemsHide items
    HidesSecrets (obj prototype fields) = FieldsHide fields
    HidesSecrets undefined = Unit
    HidesSecrets null = Unit
    HidesSecrets (bool b) = Unit
    HidesSecrets (num n) = Unit
    HidesSecrets (str s) = Unit
    HidesSecrets opaque = Unit

    pub ItemsHide : Items Num → Type 0
    ItemsHide nil = Unit
    ItemsHide (cons v vs) = HidesSecrets v × ItemsHide vs

    pub FieldsHide : Fields Num → Type 0
    FieldsHide end = Unit
    FieldsHide (field k v fs) =
        ((is_redacted k ≡ false) ⊎ (v ≡ redaction)) × HidesSecrets v × FieldsHide fs

text_or_undefined-HidesSecrets :
    (Num : Type 0) (o : Option String) → HidesSecrets {Num = Num} (text_or_undefined o)
text_or_undefined-HidesSecrets Num none = tt
text_or_undefined-HidesSecrets Num (some s) = tt

error_object-HidesSecrets :
    (Num : Type 0) (e : ErrorTexts) → HidesSecrets {Num = Num} (error_object e)
unfolding is_redacted occurs match_prefix
error_object-HidesSecrets Num e =
    (inl refl, tt, (inl refl, tt, (inl refl, text_or_undefined-HidesSecrets Num e.stack, tt)))

module _ {Num : Type 0} (as_error : Value Num → Option ErrorTexts) where
  or_error_object-HidesSecrets :
      (o : Option ErrorTexts) (v : Value Num) → HidesSecrets v → HidesSecrets (or_error_object o v)
  or_error_object-HidesSecrets none v h = h
  or_error_object-HidesSecrets (some e) v h = error_object-HidesSecrets Num e

  redacted_field :
      (k : String) (v : Value Num)
      → HidesSecrets v
      → ((is_redacted k ≡ false) ⊎ ((if is_redacted k then redaction else v) ≡ redaction))
        × HidesSecrets (if is_redacted k then redaction else v)
  redacted_field k v h = elim (Bool-cases (is_redacted k)) [
    | inl secret ↦ rw secret (inr refl, tt)
    | inr plain ↦ rw plain (inl refl, h)
  ]

  mutual
    unfolding serialize_value

    serialize_value-HidesSecrets : (v : Value Num) → HidesSecrets (serialize_value as_error v)
    serialize_value-HidesSecrets (arr items) =
        or_error_object-HidesSecrets _ (arr (serialize_items as_error items))
          (serialize_items-Hide items)
    serialize_value-HidesSecrets (obj prototype fields) =
        or_error_object-HidesSecrets _ (obj object_prototype (serialize_fields as_error fields))
          (serialize_fields-Hide fields)
    serialize_value-HidesSecrets undefined = tt
    serialize_value-HidesSecrets null = tt
    serialize_value-HidesSecrets (bool b) = tt
    serialize_value-HidesSecrets (num n) = tt
    serialize_value-HidesSecrets (str s) = tt
    serialize_value-HidesSecrets opaque = tt

    serialize_items-Hide : (vs : Items Num) → ItemsHide (serialize_items as_error vs)
    serialize_items-Hide nil = tt
    serialize_items-Hide (cons v vs) = (serialize_value-HidesSecrets v, serialize_items-Hide vs)

    serialize_fields-Hide : (fs : Fields Num) → FieldsHide (serialize_fields as_error fs)
    serialize_fields-Hide end = tt
    serialize_fields-Hide (field k v fs) =
        let (secret, hides) =
          redacted_field k (serialize_value as_error v) (serialize_value-HidesSecrets v) in
        (secret, hides, serialize_fields-Hide fs)

  -- Below the least level nothing is written. Otherwise one line is, and in it a field whose key is to be
  -- redacted holds nothing but the mark of that, at every depth and whatever the code has passed.
  pub write-HidesSecrets :
      (logger : StructuredLogger Num) (timestamp : String) (level : LogLevel) (event : String)
      (fields : Fields Num)
      → ((level_weight level < level_weight logger.minimum_level)
          × (write as_error logger timestamp level event fields ≡ none))
        ⊎ ((level_weight logger.minimum_level ≤ level_weight level)
            × (channel : Channel) × (line : Value Num) × (write as_error logger timestamp level
                  event fields
                ≡ some (channel, line))
            × HidesSecrets line)
  unfolding write
  write-HidesSecrets logger timestamp level event fields =
      elim (Bool-cases (ltb (level_weight level) (level_weight logger.minimum_level))) [
        | inl low ↦ rw low (inl (ground arith, refl))
        | inr high ↦ rw high (
            inr (
              ground arith,
              _,
              _,
              refl,
              serialize_value-HidesSecrets
                  (obj object_prototype (log_record as_error logger timestamp level event fields)),
            ))
      ]
