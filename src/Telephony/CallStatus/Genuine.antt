-- ===== src/Telephony/CallStatus/Genuine.antt =====
-- Which status callbacks are recorded.
use mathlib.Core.Path.{subst}
use ctrl_alt_ship.Prelude.{
  String, ◌≡◌, refl, sym, ◌⊎◌, inl, inr, true, some, List, ◌∷◌, ok, err, Result-cases, check-ok,
  check, given, given-ok, includes, ◌==◌,
}
use ctrl_alt_ship.Js.{Runtime}
use ctrl_alt_ship.Telephony.Formats.{is_uuid, is_call_sid, is_number}
use ctrl_alt_ship.Telephony.CallStatus.{
  CallbackError, form_field, present, is_only, is_same, status_name, statuses, number_of, in_range,
  ProviderCallStatusRequest, StatusArguments, StatusCall, record_status, StatusDependencies,
  correlated, authentic, reported, answered, handle,
}

module _ (js : Runtime) {Answer : Type 0} (d : StatusDependencies Answer)
    (request : ProviderCallStatusRequest) where
  -- A signed request of the expected account about one call, all of whose fields are well formed and
  -- are those that are recorded.
  pub record Genuine (arguments : StatusArguments) : Type 0 where
    pub call : present request.call_record_id ≡ some arguments.call_id
    pub call_form : is_uuid arguments.call_id ≡ true
    pub correlation :
        (ids : List String) × (d.url_parameters request.url ≡ some ids)
        × (is_only ids arguments.call_id ≡ true)
    pub account :
        (account_sid : String) × (present request.account_sid ≡ some account_sid)
        × (account_sid == d.expected_account_sid ≡ true)
        × (is_same (form_field request.body "AccountSid") account_sid ≡ true)
    pub signed : d.verify_signature request.url request.body request.signature ≡ true
    pub sid : present (form_field request.body "CallSid") ≡ some arguments.twilio_call_sid
    pub sid_form : is_call_sid arguments.twilio_call_sid ≡ true
    pub status :
        (raw : String) × (present (form_field request.body "CallStatus") ≡ some raw)
        × (arguments.status ≡ status_name raw)
        × (includes statuses arguments.status ≡ true)
    pub sequence :
        (digits : String) × (present (form_field request.body "SequenceNumber") ≡ some digits)
        × (is_number digits ≡ true)
        × (arguments.sequence ≡ number_of digits)
        × (in_range arguments.sequence ≡ true)
    pub time :
        (timestamp : String) × (present (form_field request.body "Timestamp") ≡ some timestamp)
        × (js.is_finite (js.parse_date timestamp) ≡ true)
        × (js.iso_date timestamp ≡ some arguments.event_at)

  correlated-ok :
      (id : String)
      → correlated js d request ≡ ok id
      → (present request.call_record_id ≡ some id)
        × (is_uuid id ≡ true)
        × (ids : List String) × (d.url_parameters request.url ≡ some ids)
        × (is_only ids id ≡ true)
  unfolding correlated
  correlated-ok id h =
      let (given_id, e, h₁) = given-ok _ h in
      let (form, h₂) = check-ok _ h₁ in
      let (ids, f, h₃) = given-ok _ h₂ in
      let (only, h₄) = check-ok _ h₃ in (cc (e, h₄), cc (form, h₄), ids, f, cc (only, h₄))

  authentic-ok :
      authentic js d request ≡ ok tt
      → ((account_sid : String) × (present request.account_sid ≡ some account_sid)
          × (account_sid == d.expected_account_sid ≡ true)
          × (is_same (form_field request.body "AccountSid") account_sid ≡ true))
        × (d.verify_signature request.url request.body request.signature ≡ true)
  unfolding authentic
  authentic-ok h =
      let (account_sid, e, h₁) = given-ok _ h in
      let (expected, h₂) = check-ok _ h₁ in
      let (same, h₃) = check-ok _ h₂ in
      let (signed, h₄) = check-ok _ h₃ in ((account_sid, e, expected, same), signed)

  reported-ok :
      (id : String) (arguments : StatusArguments)
      → reported js d request id ≡ ok arguments
      → present request.call_record_id ≡ some id
      → is_uuid id ≡ true
      → (ids : List String) → d.url_parameters request.url ≡ some ids
      → is_only ids id ≡ true
      → (account_sid : String) → present request.account_sid ≡ some account_sid
      → account_sid == d.expected_account_sid ≡ true
      → is_same (form_field request.body "AccountSid") account_sid ≡ true
      → d.verify_signature request.url request.body request.signature ≡ true
      → Genuine arguments
  unfolding reported
  reported-ok id arguments h call call_form ids correlation only account_sid account expected same
        signed =
      let (sid, e₁, h₁) = given-ok _ h in
      let (sid_form, h₂) = check-ok _ h₁ in
      let (raw, e₂, h₃) = given-ok _ h₂ in
      let (known, h₄) = check-ok _ h₃ in
      let (digits, e₃, h₅) = given-ok _ h₄ in
      let (number, h₆) = check-ok _ h₅ in
      let (ranged, h₇) = check-ok _ h₆ in
      let (timestamp, e₄, h₈) = given-ok _ h₇ in
      let (readable, h₉) = check-ok _ h₈ in
      let (event_at, e₅, final) = given-ok _ h₉ in
      subst Genuine (cc final) (record {
        call = call;
        call_form = call_form;
        correlation = (ids, correlation, only);
        account = (account_sid, account, expected, same);
        signed = signed;
        sid = e₁;
        sid_form = sid_form;
        status = (raw, e₂, refl, known);
        sequence = (digits, e₃, number, refl, ranged);
        time = (timestamp, e₄, readable, e₅);
      })

  correlated-accepts :
      (arguments : StatusArguments)
      → Genuine arguments
      → correlated js d request ≡ ok arguments.call_id
  unfolding correlated check given
  correlated-accepts arguments g =
      let (ids, parameters, only) = g.correlation in rw (g.call, g.call_form, parameters, only) refl

  authentic-accepts :
      (arguments : StatusArguments) → Genuine arguments → authentic js d request ≡ ok tt
  unfolding authentic check given
  authentic-accepts arguments g =
      let (account_sid, given_sid, expected, same) = g.account in
      rw (given_sid, expected, same, g.signed) refl

  reported-accepts :
      (arguments : StatusArguments)
      → Genuine arguments
      → reported js d request arguments.call_id ≡ ok arguments
  unfolding reported check given
  reported-accepts arguments g =
      let (raw, e, named, known) = g.status in
      let (digits, f, number, valued, ranged) = g.sequence in
      let (timestamp, t, readable, written) = g.time in
      rw
        (
          g.sid,
          g.sid_form,
          e,
          sym named,
          known,
          f,
          number,
          sym valued,
          ranged,
          t,
          readable,
          written,
        )
        refl

  module _ (log : List StatusCall) where
    -- The request is recorded, and the answer is the database's.
    abbrev pub Recorded : StatusArguments → Type 0
    Recorded arguments = handle js d request log ≡ (
      answered (d.record_status (record_status arguments ∷ log)),
      record_status arguments ∷ log,
    )

    handle-accepts : (arguments : StatusArguments) → Genuine arguments → Recorded arguments
    unfolding handle
    handle-accepts arguments g =
        rw
          (
            correlated-accepts arguments g,
            authentic-accepts arguments g,
            reported-accepts arguments g,
          )
          refl

    abbrev pub Records : Type 0
    Records =
        ((arguments : StatusArguments) × Genuine arguments × Recorded arguments)
        ⊎ (((arguments : StatusArguments) → ¬ Genuine arguments)
            × (error : CallbackError) × (handle js d request log ≡ (err error, log)))

    -- A callback is recorded just if it is signed by the expected account, is about the one call that
    -- its URL names, and is well formed; then it is recorded once, with the fields of the request, and
    -- a failure to record it is an error 500. No other callback reaches the database.
    pub handle-records : Records
    unfolding handle
    handle-records = elim (Result-cases (correlated js d request)) [
      | inr (error, e) ↦ inr (λ arguments g. cc (correlated-accepts arguments g), error, rw e refl)
      | inl (id, e) ↦ elim (Result-cases (authentic js d request)) [
        | inr (error, f) ↦
            inr (λ arguments g. cc (authentic-accepts arguments g), error, rw (e, f) refl)
        | inl (unit, f) ↦ elim (Result-cases (reported js d request id)) [
          | inr (error, r) ↦ inr (
            λ arguments g. cc (correlated-accepts arguments g, reported-accepts arguments g),
            error,
            rw (e, f, r) refl,
          )
          | inl (arguments, r) ↦
              let (call, form, ids, correlation, only) = correlated-ok id e in
              let ((account_sid, account, expected, same), signed) = authentic-ok f in
              let g =
                reported-ok id arguments r call form ids correlation only account_sid account
                  expected same signed in
              inl (arguments, g, rw (e, f, r) refl)
        ]
      ]
    ]
