-- ===== src/Telephony/CallStatus.antt =====
-- backend/src/tango/telephony/provider-call-status-handler.ts: what the telephone network says of a
-- call that the program has made. Reading a URL, checking a signature and the database are parameters.
-- The texts of the errors are left out.
pub mod Genuine
use ctrl_alt_ship.Prelude.{
  ℕ, ◌+◌, ◌*◌, ◌-◌, String, Bool, true, false, ◌&&◌, ◌||◌, List, [], ◌∷◌, Option, none, some,
  Result, ok, err, check, given, leb, if◌then◌else◌, includes, ◌==◌, Act, throw, lift, perform,
  try_catch, ◌>>=◌, ◌>>◌,
}
use ctrl_alt_ship.Js.{Runtime, codes}
use ctrl_alt_ship.ToolError.{Thrown}
use ctrl_alt_ship.Telephony.Formats.{is_uuid, is_call_sid, is_number}

-- The status code of an error, or an error of another kind.
pub data CallbackError : Type 0 where
  bad_request forbidden server_error unexpected : CallbackError

abbrev pub FormBody : Type 0
FormBody = List (String × String)

-- `body.key`
abbrev pub form_field : FormBody → String → Option String
form_field [] k = none
form_field ((j, v) ∷ body) k = if j == k then some v else form_field body k

pub record ProviderCallStatusRequest : Type 0 where
  pub url : String
  pub signature : Option String
  pub account_sid : Option String
  pub call_record_id : Option String
  pub body : FormBody

-- `RecordProviderCallStatusArguments`
pub record StatusArguments : Type 0 where
  pub call_id : String
  pub twilio_call_sid : String
  pub status : String
  pub sequence : ℕ
  pub event_at : String

pub data StatusCall : Type 0 where
  record_status : StatusArguments → StatusCall

pub record StatusDependencies (Answer : Type 0) : Type 0 where
  pub expected_account_sid : String
  -- `new URL(url).searchParams.getAll("call_record_id")`; `none` where the URL is invalid
  pub url_parameters : String → Option (List String)
  pub verify_signature : String → FormBody → Option String → Bool
  pub record_status : List StatusCall → Result Thrown Answer

abbrev pub statuses : List String
statuses =
    "queued" ∷ "initiated" ∷ "ringing" ∷ "in-progress" ∷ "completed" ∷ "busy" ∷ "failed"
    ∷ "no-answer" ∷ "canceled" ∷ []

abbrev nonempty : String → Option String
nonempty s = if s == "" then none else some s

-- The test of `requiredString`.
abbrev pub present : Option String → Option String
present none = none
present (some s) = nonempty s

abbrev pub is_only : List String → String → Bool
is_only (s ∷ []) t = s == t
is_only ss t = false

abbrev pub is_same : Option String → String → Bool
is_same none t = false
is_same (some s) t = s == t

abbrev pub status_name : String → String
status_name raw = if raw == "answered" then "in-progress" else raw

abbrev value_from : ℕ → List ℕ → ℕ
value_from n [] = n
value_from n (c ∷ cs) = value_from (10 * n + (c - b'0')) cs

-- `Number(sequence)` of a text of digits
unfoldable pub number_of : String → ℕ
number_of s = value_from 0 (codes s)

abbrev pub in_range : ℕ → Bool
in_range n = leb n 2147483647

-- The `catch` around the database.
abbrev pub answered : {Answer : Type 0} → Result Thrown Answer → Result CallbackError Answer
answered (ok answer) = ok answer
answered (err error) = err server_error

module _ (js : Runtime) {Answer : Type 0} (d : StatusDependencies Answer)
    (request : ProviderCallStatusRequest) where
  -- The call that the request is about.
  unfoldable pub correlated : Result CallbackError String
  correlated = given (present request.call_record_id) bad_request (λ id.
      check (is_uuid id) bad_request (
        given (d.url_parameters request.url) bad_request
          (λ ids. check (is_only ids id) bad_request (ok id))))

  -- That the request is one of the telephone network.
  unfoldable pub authentic : Result CallbackError (Unit {0})
  authentic = given (present request.account_sid) bad_request (λ account_sid.
      check (account_sid == d.expected_account_sid) forbidden (
        check (is_same (form_field request.body "AccountSid") account_sid) forbidden (
          check (d.verify_signature request.url request.body request.signature) forbidden (ok tt))))

  abbrev pub sequence_of :
      (ℕ → Result CallbackError StatusArguments) → Result CallbackError StatusArguments
  sequence_of rest =
      given (present (form_field request.body "SequenceNumber")) bad_request (λ sequence.
        check (is_number sequence) bad_request
          (check (in_range (number_of sequence)) bad_request (rest (number_of sequence))))

  abbrev pub timestamp_of :
      (String → Result CallbackError StatusArguments) → Result CallbackError StatusArguments
  timestamp_of rest =
      given (present (form_field request.body "Timestamp")) bad_request (λ timestamp.
        check (js.is_finite (js.parse_date timestamp)) bad_request
          (given (js.iso_date timestamp) unexpected rest))

  -- What the request reports of the call.
  unfoldable pub reported : String → Result CallbackError StatusArguments
  reported id = given (present (form_field request.body "CallSid")) bad_request (λ sid.
      check (is_call_sid sid) bad_request (
        given (present (form_field request.body "CallStatus")) bad_request (λ raw.
          check (includes statuses (status_name raw)) bad_request (
            sequence_of (λ sequence. timestamp_of (λ event_at. ok (record {
              call_id = id;
              twilio_call_sid = sid;
              status = status_name raw;
              sequence = sequence;
              event_at = event_at;
            })))))))

  abbrev pub persist : StatusArguments → Act CallbackError StatusCall Answer
  persist arguments log =
      let r = d.record_status (record_status arguments ∷ log) in
      (answered r, record_status arguments ∷ log)

  unfoldable pub handle : Act CallbackError StatusCall Answer
  unfolding correlated authentic reported
  handle = do
    id ← lift correlated
    lift authentic
    arguments ← lift (reported id)
    persist arguments
