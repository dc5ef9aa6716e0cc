-- ===== src/Telephony/Recording.antt =====
-- backend/src/tango/telephony/recording-status-handler.ts: what the network says of a recording.
-- Reading a URL, checking a signature and the database are parameters. The texts of errors are left out.
pub mod Verified
use ctrl_alt_ship.Prelude.{
  String, Bool, true, false, not, ◌&&◌, ◌||◌, List, [], ◌∷◌, Option, none, some, Result, ok, err,
  check, given, if◌then◌else◌, includes, is_some, ◌==◌, Act, lift, ◌>>=◌, ◌>>◌,
}
use ctrl_alt_ship.Js.{Value}
use ctrl_alt_ship.ToolError.{Thrown}
use ctrl_alt_ship.Telephony.Formats.{is_call_sid, is_account_sid, is_recording_sid}
use ctrl_alt_ship.Telephony.CallStatus.{
  CallbackError, bad_request, forbidden, server_error, FormBody, form_field, present,
}
use ctrl_alt_ship.Telephony.Refer.{form}

pub record RecordingStatusRequest (Num : Type 0) : Type 0 where
  pub url : String
  pub signature : Option String
  pub body : Value Num

pub record RecordingArguments : Type 0 where
  pub twilio_call_sid : String
  pub recording_sid : Option String
  pub status : String

pub data RecordingCall : Type 0 where
  record_status : RecordingArguments → RecordingCall

-- What the database answers with, which the handler checks: `expired` is there if it is a boolean.
pub record RecordingAnswer : Type 0 where
  pub persisted : Bool
  pub expired : Option Bool

pub record RecordingDependencies : Type 0 where
  pub expected_account_sid : String
  -- `new URL(url).protocol`; `none` where the URL is invalid
  pub url_protocol : String → Option String
  pub verify_signature : String → FormBody → Option String → Bool
  pub record_status : List RecordingCall → Result Thrown RecordingAnswer

abbrev pub recording_statuses : List String
recording_statuses = "in-progress" ∷ "completed" ∷ "absent" ∷ "failed" ∷ []

abbrev pub is_http : String → Bool
is_http protocol = protocol == "http:" || protocol == "https:"

-- Whether there must be a recording.
abbrev pub is_recorded : String → Bool
is_recorded status = status == "completed" || status == "in-progress"

abbrev pub is_valid_recording : Option String → Bool
is_valid_recording none = true
is_valid_recording (some sid) = is_recording_sid sid

abbrev confirmed : Bool → Option Bool → Result CallbackError Bool
confirmed true (some expired) = ok expired
confirmed persisted expired = err server_error

-- The answer, if it says that the status is persisted, and whether the call's evidence is expired.
abbrev pub persisted_answer : Result Thrown RecordingAnswer → Result CallbackError Bool
persisted_answer (ok answer) = confirmed answer.persisted answer.expired
persisted_answer (err error) = err server_error

module _ {Num : Type 0} (d : RecordingDependencies) (request : RecordingStatusRequest Num) where
  -- The form of a request that the network has signed.
  unfoldable pub verified : Result CallbackError FormBody
  verified = check (is_some (present (some request.url))) bad_request (
      given (d.url_protocol request.url) bad_request (λ protocol.
        check (is_http protocol) bad_request (
          given (form request.body) bad_request (λ body.
            given (present (form_field body "AccountSid")) bad_request (λ account_sid.
              check (is_account_sid account_sid && account_sid == d.expected_account_sid) forbidden
                (check (d.verify_signature request.url body request.signature) forbidden
                  (ok body)))))))

  unfoldable pub reported : FormBody → Result CallbackError RecordingArguments
  reported body = given (present (form_field body "CallSid")) bad_request (λ call_sid.
      check (is_call_sid call_sid) bad_request (
        given (present (form_field body "RecordingStatus")) bad_request (λ status.
          check (includes recording_statuses status) bad_request (
            check
              (not (is_recorded status && not (is_some (present (form_field body "RecordingSid")))))
              bad_request
              (check (is_valid_recording (present (form_field body "RecordingSid"))) bad_request (
                ok (record {
                  twilio_call_sid = call_sid;
                  recording_sid = present (form_field body "RecordingSid");
                  status = status;
                })))))))

  abbrev persist : RecordingArguments → Act CallbackError RecordingCall Bool
  persist arguments log =
      let r = d.record_status (record_status arguments ∷ log) in
      (persisted_answer r, record_status arguments ∷ log)

  -- Its result is `expired`.
  unfoldable pub handle : Act CallbackError RecordingCall Bool
  handle = do body ← lift verified; arguments ← lift (reported body); persist arguments
