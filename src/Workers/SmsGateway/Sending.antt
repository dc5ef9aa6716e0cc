-- ===== src/Workers/SmsGateway/Sending.antt =====
-- What the gateway sends, and how it fails.
use mathlib.Core.Path.{subst}
use Prim.Native.Char.{code}
use Prim.Native.String.append
use Prim.Native.String.{◌++◌ as join, [] as empty, ◌∷◌ as char}
use ctrl_alt_ship.Prelude.{
  ◌≡◌, refl, ap, ◌∙◌, sym, ◌⊎◌, inl, inr, String, Bool, true, false, ◌∷◌, ◌++◌, none, some, Result,
  ok, err, Result-cases, Bool-cases, ◌==◌, arith,
}
use ctrl_alt_ship.Js.{codes, trim, is_blank, strip_prefix}
use ctrl_alt_ship.Workers.Outbox.{OutboxError, delivery_error}
use ctrl_alt_ship.Workers.Outbox.Sms.{
  PhoneType, mobile, landline, unknown_type, SmsMessage, SmsDeliveryResult,
}
use ctrl_alt_ship.Workers.SmsGateway.{
  starts_with, behind_three, format_outbound_sms_destination, Transport, delivery_error_of,
  answered, deliver_twilio,
}

codes-join : (a b : String) → codes (join a b) ≡ codes a ++ codes b
codes-join empty b = ap codes (append.nil b)
codes-join (char c a) b = ap codes (append.cons c a b) ∙ ap (λ cs. code c ∷ cs) (codes-join a b)

starts_with-join : (s : String) → starts_with "+549" (join "+549" s) ≡ true
unfolding starts_with strip_prefix
starts_with-join s = rw (codes-join "+549" s) refl

abbrev IsOwn : String → Type 0
IsOwn to = format_outbound_sms_destination to mobile ≡ ok to

-- A formatted destination is formatted to itself.
destination_idempotent :
    (phone : String) (type : PhoneType) (to : String)
    → format_outbound_sms_destination phone type ≡ ok to
    → format_outbound_sms_destination to type ≡ ok to
unfolding format_outbound_sms_destination
destination_idempotent phone landline to = λ h. cc h
destination_idempotent phone unknown_type to = λ h. refl
destination_idempotent phone mobile to = elim (Bool-cases (starts_with "+549" phone)) [
  | inl e ↦ rw e (λ h. let same : phone ≡ to = cc h in subst IsOwn same (rw e refl))
  | inr e ↦ elim (Bool-cases (starts_with "+54" phone)) [
    | inl f ↦
        rw (e, f)
          (λ h.
            let same : join "+549" (behind_three phone) ≡ to = cc h in
            subst IsOwn same (rw (starts_with-join (behind_three phone)) refl))
    | inr f ↦ rw (e, f) (λ h. let same : phone ≡ to = cc h in subst IsOwn same (rw (e, f) refl))
  ]
]

format_landline :
    (phone : String) (type : PhoneType)
    → type ≡ landline
    → format_outbound_sms_destination phone type
      ≡ err (delivery_error "sms_destination_not_mobile" false)
unfolding format_outbound_sms_destination
format_landline phone landline h = refl
format_landline phone mobile h = cc h
format_landline phone unknown_type h = cc h

format_error :
    (phone : String) (type : PhoneType) (error : OutboxError)
    → format_outbound_sms_destination phone type ≡ err error
    → error ≡ delivery_error "sms_destination_not_mobile" false
unfolding format_outbound_sms_destination
format_error phone landline error h = cc h
format_error phone unknown_type error h = cc h
format_error phone mobile error h = ground arith

module _ (t : Transport) (message : SmsMessage) where
  -- The transport has taken the trimmed text for the formatted destination, and its identifier is given.
  abbrev pub Sent : Result OutboxError SmsDeliveryResult → Type 0
  Sent r =
      (to sid : String) × (format_outbound_sms_destination message.to message.phone_type ≡ ok to)
      × (trim message.body == "" ≡ false)
      × (t.send to t.from (trim message.body) ≡ ok (some sid))
      × (is_blank sid ≡ false)
      × (r ≡ ok (record { provider_message_id = sid; preview = false }))

  -- What can never be sent is not to be tried again.
  abbrev pub Fails : Result OutboxError SmsDeliveryResult → Type 0
  Fails r =
      (code : String) × (retryable : Bool) × (r ≡ err (delivery_error code retryable))
      × ((trim message.body == "" ≡ true) ⊎ (message.phone_type ≡ landline) → retryable ≡ false)

  module _ (to : String)
      (formatted : format_outbound_sms_destination message.to message.phone_type ≡ ok to)
      (given_text : trim message.body == "" ≡ false) where
    abbrev outcome : Result OutboxError SmsDeliveryResult
    outcome = answered t (t.send to t.from (trim message.body))

    can_be_sent : ¬ ((trim message.body == "" ≡ true) ⊎ (message.phone_type ≡ landline))
    can_be_sent (inl blank) = cc (blank, given_text)
    can_be_sent (inr fixed) = cc (formatted, format_landline message.to message.phone_type fixed)

    answered-Sent :
        (sid : String)
        → t.send to t.from (trim message.body) ≡ ok (some sid)
        → is_blank sid ≡ false
        → Sent outcome
    answered-Sent sid g h = (to, sid, formatted, given_text, g, h, ap (answered t) g ∙ rw h refl)

    answered-Sent_or_Fails : Sent outcome ⊎ Fails outcome
    unfolding delivery_error_of
    answered-Sent_or_Fails = elim (Result-cases (t.send to t.from (trim message.body))) [
      | inr (error, g) ↦ inr (_, _, ap (answered t) g, λ s. absurd (can_be_sent s))
      | inl (none, g) ↦ inr (_, _, ap (answered t) g, λ s. absurd (can_be_sent s))
      | inl (some sid, g) ↦ elim (Bool-cases (is_blank sid)) [
        | inl blank ↦ inr (
          "sms_invalid_response",
          true,
          ap (answered t) g ∙ rw blank refl,
          λ s. absurd (can_be_sent s),
        )
        | inr h ↦ inl (answered-Sent sid g h)
      ]
    ]

  -- The gateway sends the trimmed text to the formatted destination and gives the identifier of the
  -- answer, or it throws a delivery error, and nothing but a delivery error; that of a text that is empty
  -- when trimmed, or of a landline, is not to be tried again.
  deliver_twilio-Sent : Sent (deliver_twilio t message) ⊎ Fails (deliver_twilio t message)
  unfolding deliver_twilio
  deliver_twilio-Sent = elim (Bool-cases (trim message.body == "")) [
    | inl blank ↦ inr ("sms_empty_body", false, rw blank refl, λ s. refl)
    | inr given_text ↦
        elim (Result-cases (format_outbound_sms_destination message.to message.phone_type)) [
          | inl (to, e) ↦
              subst (λ r. Sent r ⊎ Fails r) (sym (rw (given_text, e) refl))
                (answered-Sent_or_Fails to e given_text)
          | inr (error, e) ↦
              let same = format_error message.to message.phone_type error e in
              inr ("sms_destination_not_mobile", false, rw (given_text, e, same) refl, λ s. refl)
        ]
  ]
