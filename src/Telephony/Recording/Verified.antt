-- ===== src/Telephony/Recording/Verified.antt =====
-- Which recording callbacks are recorded.
use mathlib.Core.Path.{subst}
use ctrl_alt_ship.Prelude.{
  String, ◌≡◌, refl, ◌⊎◌, inl, inr, Bool, true, false, not, ◌&&◌, some, is_some, List, ◌∷◌, arith,
  ok, err, Result-cases, check-ok, check, given, given-ok, includes, &&-eq-true, ◌==◌,
}
use ctrl_alt_ship.Telephony.Formats.{is_call_sid, is_account_sid}
use ctrl_alt_ship.Telephony.CallStatus.{CallbackError, FormBody, form_field, present}
use ctrl_alt_ship.Telephony.Refer.{form}
use ctrl_alt_ship.Telephony.Recording.{
  RecordingStatusRequest, RecordingArguments, RecordingCall, record_status, RecordingDependencies,
  recording_statuses, is_http, is_recorded, is_valid_recording, persisted_answer, verified,
  reported, handle,
}

module _ {Num : Type 0} (d : RecordingDependencies) (request : RecordingStatusRequest Num) where
  -- The form of a request over HTTP that the expected account has signed.
  pub record Verified (body : FormBody) : Type 0 where
    pub address : is_some (present (some request.url)) ≡ true
    pub protocol : (p : String) × (d.url_protocol request.url ≡ some p) × (is_http p ≡ true)
    pub formed : form request.body ≡ some body
    pub account :
        (account_sid : String) × (present (form_field body "AccountSid") ≡ some account_sid)
        × (is_account_sid account_sid ≡ true)
        × (account_sid == d.expected_account_sid ≡ true)
    pub signed : d.verify_signature request.url body request.signature ≡ true

  -- A known status of a call, and its recording, which there is where the status asks for one.
  pub record Reported (body : FormBody) (arguments : RecordingArguments) : Type 0 where
    pub call : present (form_field body "CallSid") ≡ some arguments.twilio_call_sid
    pub call_form : is_call_sid arguments.twilio_call_sid ≡ true
    pub status : present (form_field body "RecordingStatus") ≡ some arguments.status
    pub status_known : includes recording_statuses arguments.status ≡ true
    pub recording : present (form_field body "RecordingSid") ≡ arguments.recording_sid
    pub recording_given :
        (is_recorded arguments.status ≡ false) ⊎ (is_some arguments.recording_sid ≡ true)
    pub recording_form : is_valid_recording arguments.recording_sid ≡ true

  verified-Verified : (body : FormBody) → verified d request ≡ ok body → Verified body
  unfolding verified
  verified-Verified body h =
      let (address, h₁) = check-ok _ h in
      let (protocol, e₁, h₂) = given-ok _ h₁ in
      let (http, h₃) = check-ok _ h₂ in
      let (formed, e₂, h₄) = given-ok _ h₃ in
      let (account_sid, e₃, h₅) = given-ok _ h₄ in
      let (same, h₆) = check-ok _ h₅ in
      let (signed, final) = check-ok _ h₆ in
      let (account_form, expected) = (&&-eq-true _ _).0 same in
      subst Verified (cc final) (record {
        address = address;
        protocol = (protocol, e₁, http);
        formed = e₂;
        account = (account_sid, e₃, account_form, expected);
        signed = signed;
      })

  verified-accepts : (body : FormBody) → Verified body → verified d request ≡ ok body
  unfolding verified check given
  verified-accepts body v =
      let (protocol, e, http) = v.protocol in
      let (account_sid, f, account_form, expected) = v.account in
      rw (v.address, e, http, v.formed, f, account_form, expected, v.signed) refl

  recorded-given : (a b : Bool) → not (a && not b) ≡ true → (a ≡ false) ⊎ (b ≡ true)
  recorded-given a b h = ground arith

  recorded-accepts : (a b : Bool) → (a ≡ false) ⊎ (b ≡ true) → not (a && not b) ≡ true
  recorded-accepts a b h = ground arith

  reported-Reported :
      (body : FormBody) (arguments : RecordingArguments)
      → reported d request body ≡ ok arguments
      → Reported body arguments
  unfolding reported
  reported-Reported body arguments h =
      let (call_sid, e₁, h₁) = given-ok _ h in
      let (call_form, h₂) = check-ok _ h₁ in
      let (status, e₂, h₃) = given-ok _ h₂ in
      let (known, h₄) = check-ok _ h₃ in
      let (recorded, h₅) = check-ok _ h₄ in
      let (recording_form, final) = check-ok _ h₅ in
      subst (Reported body) (cc final) (record {
        call = e₁;
        call_form = call_form;
        status = e₂;
        status_known = known;
        recording = refl;
        recording_given = recorded-given _ _ recorded;
        recording_form = recording_form;
      })

  reported-accepts :
      (body : FormBody) (arguments : RecordingArguments)
      → Reported body arguments
      → reported d request body ≡ ok arguments
  unfolding reported check given
  reported-accepts body arguments r =
      let given_recording =
        recorded-accepts (is_recorded arguments.status) (is_some arguments.recording_sid)
          r.recording_given in
      rw
        (
          r.call, r.call_form, r.status, r.status_known, r.recording, r.recording_form,
          given_recording,
        )
        refl

  module _ (log : List RecordingCall) where
    abbrev pub Recorded : RecordingArguments → Type 0
    Recorded arguments = handle d request log ≡ (
      persisted_answer (d.record_status (record_status arguments ∷ log)),
      record_status arguments ∷ log,
    )

    abbrev pub Acceptable : Type 0
    Acceptable =
        (body : FormBody) × (arguments : RecordingArguments) × Verified body
        × Reported body arguments

    abbrev pub RecordsRecording : Type 0
    RecordsRecording =
        ((body : FormBody) × (arguments : RecordingArguments) × Verified body
          × Reported body arguments
          × Recorded arguments)
        ⊎ (¬ Acceptable × (error : CallbackError) × (handle d request log ≡ (err error, log)))

    -- A recording callback is recorded just if the expected account has signed it and it reports a
    -- known status of a call, with a recording where the status asks for one; then it is recorded once,
    -- with the fields of its form, and an answer that does not say that it is persisted is an error 500.
    -- No other callback reaches the database.
    pub handle-records_recording : RecordsRecording
    unfolding handle
    handle-records_recording = elim (Result-cases (verified d request)) [
      | inr (error, e) ↦ inr (λ a. cc (verified-accepts a.0 a.2), error, rw e refl)
      | inl (body, e) ↦ elim (Result-cases (reported d request body)) [
        | inr (error, f) ↦ inr (
          λ a. cc (verified-accepts a.0 a.2, reported-accepts a.0 a.1 a.3),
          error,
          rw (e, f) refl,
        )
        | inl (arguments, f) ↦ inl (
          body,
          arguments,
          verified-Verified body e,
          reported-Reported body arguments f,
          rw (e, f) refl,
        )
      ]
    ]
