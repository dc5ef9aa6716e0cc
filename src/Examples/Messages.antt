-- ===== src/Examples/Messages.antt =====
-- Messages and log lines.
use ctrl_alt_ship.Prelude.{ℕ, ◌≡◌, List, [], ◌∷◌, none, some, ◌⊎◌, ◌≤◌, ◌<◌}
use ctrl_alt_ship.Js.{Value, str, num, Fields, end, field}
use ctrl_alt_ship.Examples.Host.{arguments_of}
use ctrl_alt_ship.Messages.Texts.{utf16}
use ctrl_alt_ship.Messages.Payload.{SmsPayload, prepare_sms_payload}
use ctrl_alt_ship.Messages.Sms.{render_sms}
use ctrl_alt_ship.Messages.Sms.Bounds.{IsSmsBody, title_of, render_sms-IsSmsBody}
use ctrl_alt_ship.Messages.Email.{MoneyFormat, render_booking_email}
use ctrl_alt_ship.Messages.Email.Reading.{read_html}
use ctrl_alt_ship.Messages.Email.Escaping.{described, for_client, render_booking_email-described}
use ctrl_alt_ship.Observability.Logger.{StructuredLogger, warn, info, write, level_weight, Channel}
use ctrl_alt_ship.Observability.Logger.Redaction.{HidesSecrets, write-HidesSecrets}
use ctrl_alt_ship.Observability.Transitions.History.{
  Action, observing, retaining, run, LogsChanges, run-LogsChanges,
}

-- A stored payload with a name that looks like markup.
abbrev stored : Value ℕ
stored = arguments_of (
    field "template" (str "booking_cancellation_provider") (
      field "operation_reference" (str " OP-000001 ")
        (field "booking" (arguments_of (field "client_name" (str "<b>A & B</b>") end)) end)))

abbrev payload : SmsPayload
payload = prepare_sms_payload (λ n. "1") stored

render_sms-IsSmsBody_example :
    IsSmsBody
      (title_of payload.common.template)
      payload.common.operation_reference
      (render_sms (λ value. none) payload)
render_sms-IsSmsBody_example = render_sms-IsSmsBody (λ value. none) payload

abbrev money : MoneyFormat
money = record { fixed = λ value. some (utf16 value); localized = λ value currency. none }

render_booking_email-described_example :
    read_html (render_booking_email money payload.common).html
    ≡ described money payload.common (for_client payload.common)
render_booking_email-described_example = render_booking_email-described money payload.common

abbrev logger : StructuredLogger ℕ
logger = record { minimum_level = info; component = "sms"; context = field "job" (num 1) end }

abbrev secrets : Fields ℕ
secrets = field "smtp" (arguments_of (field "Password" (str "hunter2") end)) end

write-HidesSecrets_example :
    ((level_weight warn < level_weight info)
      × (write (λ v. none) logger "now" warn "sms.sent" secrets ≡ none))
    ⊎ ((level_weight info ≤ level_weight warn)
        × (channel : Channel) × (line : Value ℕ) × (write
              (λ v. none)
              logger
              "now"
              warn
              "sms.sent"
              secrets
            ≡ some (channel, line))
        × HidesSecrets line)
write-HidesSecrets_example = write-HidesSecrets (λ v. none) logger "now" warn "sms.sent" secrets

abbrev polled : List Action
polled =
    observing "queue" (record { signature = "1"; at = 0 })
    ∷ observing "queue" (record { signature = "1"; at = 59999 })
    ∷ observing "queue" (record { signature = "1"; at = 60000 })
    ∷ retaining ("other" ∷ [])
    ∷ observing "queue" (record { signature = "1"; at = 60001 })
    ∷ []

run-LogsChanges_example : LogsChanges (run polled).history
run-LogsChanges_example = run-LogsChanges polled
