-- ===== src/Telephony/Refer.antt =====
-- backend/src/tango/telephony/handoff-refer-handler.ts: the callback that may dial a person, and the one
-- at the end of that call. Reading a URL, checking a signature and the database are parameters; log lines
-- and the wording of the answers are left out.
pub mod Dialing
use ctrl_alt_ship.Prelude.{
  String, Bool, true, false, not, ◌&&◌, ◌||◌, List, [], ◌∷◌, Option, none, some, Result, ok, err,
  check, given, if◌then◌else◌, includes, ◌==◌, Act, pure, throw, lift, perform, unless, try_catch,
  ◌>>=◌, ◌>>◌,
}
use ctrl_alt_ship.Js.{Value, undefined, null, bool, num, str, arr, obj, opaque, Fields, end, field}
use ctrl_alt_ship.Telephony.Formats.{is_uuid, is_phone, transfer_target_phone}
use ctrl_alt_ship.Telephony.CallStatus.{
  CallbackError, bad_request, forbidden, unexpected, FormBody, form_field, is_same,
}

pub record HandoffContext : Type 0 where
  pub escalation_id : String
  pub source_call_id : String
  pub twilio_call_sid : String
  pub phone : String
  pub active : Bool
  pub handoff_status : String

-- The TwiML that the network is answered with.
pub data ReferAnswer : Type 0 where
  -- dials the phone, and calls back about this call record
  dial : (phone call_id : String) → ReferAnswer
  hang_up : ReferAnswer
  apologize_and_hang_up : ReferAnswer

pub data ReferCall : Type 0 where
  find : (call_id : String) → ReferCall
  mark_failed : HandoffContext → ReferCall

pub record ReferDependencies : Type 0 where
  pub account_sid : String
  -- `new URL(url).searchParams.get('call_record_id')`; `none` where the URL is invalid
  pub url_parameter : String → Option (Option String)
  pub verify_signature : String → FormBody → Option String → Bool
  pub find : List ReferCall → Result CallbackError (Option HandoffContext)
  pub mark_failed : List ReferCall → Result CallbackError (Unit {0})

pub record ReferRequest (Num : Type 0) : Type 0 where
  pub url : String
  pub signature : Option String
  pub body : Value Num
  pub finished : Bool

module _ {Num : Type 0} where
  abbrev add_field : String → Value Num → Option FormBody → Option FormBody
  add_field k (str s) (some body) = some ((k, s) ∷ body)
  add_field k v rest = none

  abbrev form_fields : Fields Num → Option FormBody
  form_fields end = some []
  form_fields (field k v fs) = add_field k v (form_fields fs)

  -- An object, all of whose values are texts.
  abbrev pub form : Value Num → Option FormBody
  form (obj prototype fs) = form_fields fs
  form v = none

abbrev pub or_empty : Option String → String
or_empty none = ""
or_empty (some s) = s

abbrev pub dial_statuses : List String
dial_statuses = "completed" ∷ "busy" ∷ "no-answer" ∷ "failed" ∷ "canceled" ∷ []

abbrev pub open_statuses : List String
open_statuses = "pending" ∷ "transfer_requested" ∷ []

module _ {Num : Type 0} (d : ReferDependencies) (request : ReferRequest Num) where
  abbrev Run : Type 0 → Type 0
  Run A = Act CallbackError ReferCall A

  -- The form and the call record of a request that the network has signed.
  unfoldable pub signed_call : Result CallbackError (FormBody × String)
  signed_call = given (form request.body) bad_request (λ body.
      check
        (is_same (form_field body "AccountSid") d.account_sid
          && d.verify_signature request.url body request.signature)
        forbidden
        (given (d.url_parameter request.url) unexpected (λ parameter.
          check (is_uuid (or_empty parameter)) bad_request (ok (body, or_empty parameter)))))

  -- The handoff that the request is about.
  unfoldable pub durable : FormBody → Option HandoffContext → Result CallbackError HandoffContext
  durable body found = given found forbidden (λ context.
      check (is_same (form_field body "CallSid") context.twilio_call_sid) forbidden (ok context))

  abbrev report : HandoffContext → Bool → Run ReferAnswer
  report context true = pure hang_up
  report context false = do perform (mark_failed context) d.mark_failed; pure apologize_and_hang_up

  unfoldable pub finish : FormBody → HandoffContext → Run ReferAnswer
  finish body context = do
    status ← lift (
        given (form_field body "DialCallStatus") bad_request
          (λ s. check (includes dial_statuses s) bad_request (ok s)))
    report context (status == "completed")

  -- The recipient can be dialed now.
  abbrev pub reachable : HandoffContext → Bool
  reachable context =
      context.active && is_phone context.phone && includes open_statuses context.handoff_status

  abbrev pub target_is_authorized : FormBody → HandoffContext → Bool
  target_is_authorized body context =
      is_same (transfer_target_phone (or_empty (form_field body "ReferTransferTarget")))
        context.phone

  -- The handoff of a request for another target is marked; an error of that is only logged.
  unfoldable pub reject : Bool → HandoffContext → Run ReferAnswer
  reject misdirected context = do
    unless (not misdirected)
        (try_catch (perform (mark_failed context) d.mark_failed) (λ error. pure tt))
    throw forbidden

  unfoldable pub transfer : FormBody → String → HandoffContext → Run ReferAnswer
  transfer body call_id context =
      if reachable context && target_is_authorized body context
      then pure (dial context.phone call_id)
      else reject (not (target_is_authorized body context) && reachable context) context

  abbrev pub answer : FormBody → String → HandoffContext → (finished : Bool) → Run ReferAnswer
  answer body call_id context true = finish body context
  answer body call_id context false = transfer body call_id context

  unfoldable pub handle : Run ReferAnswer
  handle = do
    (body, call_id) ← lift signed_call
    found ← perform (find call_id) d.find
    context ← lift (durable body found)
    answer body call_id context request.finished
