-- ===== src/Escalation.antt =====
-- backend/src/domain/escalation-service.ts: a case for a human, opened before any transfer.
-- The repository is a parameter that answers in any way.
pub mod Requests
use ctrl_alt_ship.Prelude.{
  ℕ, String, Bool, true, false, not, ◌&&◌, ◌||◌, Option, none, some, List, [], ◌∷◌, includes, leb,
  if◌then◌else◌, Result, Act, pure, need, perform, demand, ◌>>=◌, ◌>>◌, ◌==◌,
}
use ctrl_alt_ship.Js.{
  Value, undefined, str, Fields, get, only_keys, plain_object, is_blank, trim, text_length,
  is_operation_reference,
}
use ctrl_alt_ship.ToolError.{Thrown}
use ctrl_alt_ship.Checks.{invalid}
use ctrl_alt_ship.CallFlow.{ToolCallScope}

pub data Trigger : Type 0 where
  explicit_human_request outside_mandate negotiation_stalled : Trigger

pub record EscalationRequest : Type 0 where
  pub operation_reference : Option String
  pub trigger : Trigger
  pub reason : String
  pub summary : String
  pub requested_action : String

pub data HandoffStatus : Type 0 where
  pending not_configured : HandoffStatus

pub data RecipientRole : Type 0 where
  supervisor operator : RecipientRole

pub record Recipient : Type 0 where
  pub id : String
  pub name : String
  pub phone : String
  pub role : RecipientRole

pub record CreatedEscalation : Type 0 where
  pub escalation_id : String
  pub operation_reference : String
  pub handoff_status : HandoffStatus
  pub recipient : Option Recipient

pub data EscalationCall : Type 0 where
  create : ToolCallScope → EscalationRequest → (tool_call_id : String) → EscalationCall
  withdraw : ToolCallScope → (escalation_id : String) → EscalationCall

pub record EscalationRepository : Type 0 where
  pub create : List EscalationCall → Result Thrown CreatedEscalation
  pub cancel : List EscalationCall → Result Thrown (Unit {0})

-- The set `triggers`.
unfoldable pub read_trigger : {Num : Type 0} → Value Num → Option Trigger
read_trigger (str s) =
    if s == "explicit_human_request"
    then some explicit_human_request
    else if s == "outside_mandate"
    then some outside_mandate
    else if s == "negotiation_stalled"
    then some negotiation_stalled
    else none
read_trigger v = none

-- `text`: the trimmed text, if it is not blank and its length before trimming is at most `maximum`.
unfoldable pub read_text : {Num : Type 0} → Value Num → ℕ → Option String
read_text (str s) maximum =
    if is_blank s || not (leb (text_length s) maximum) then none else some (trim s)
read_text v maximum = none

-- `operation_reference`: left out, or well formed.
unfoldable pub read_reference : {Num : Type 0} → Value Num → Option (Option String)
read_reference undefined = some none
read_reference (str s) = if is_operation_reference s then some (some s) else none
read_reference v = none

abbrev pub escalation_keys : List String
escalation_keys = "operation_reference" ∷ "trigger" ∷ "reason" ∷ "summary" ∷ "requested_action" ∷ []

module _ {Num C : Type 0} where
  -- `request`
  unfoldable pub read_request : Value Num → Act Thrown C EscalationRequest
  read_request v = do
    input ← need (plain_object v) invalid
    demand (only_keys escalation_keys input) invalid
    reference ← need (read_reference (get input "operation_reference")) invalid
    trigger ← need (read_trigger (get input "trigger")) invalid
    reason ← need (read_text (get input "reason") 500) invalid
    summary ← need (read_text (get input "summary") 2_000) invalid
    action ← need (read_text (get input "requested_action") 500) invalid
    pure (record {
      operation_reference = reference;
      trigger = trigger;
      reason = reason;
      summary = summary;
      requested_action = action;
    })

module _ (repository : EscalationRepository) (scope : ToolCallScope) where
  unfoldable pub start :
      {Num : Type 0} → Value Num → String → Act Thrown EscalationCall CreatedEscalation
  start v tool_call_id = do
    demand (not (is_blank tool_call_id)) invalid
    request ← read_request v
    perform (create scope request tool_call_id) repository.create

  unfoldable pub cancel : String → Act Thrown EscalationCall Unit
  cancel escalation_id = perform (withdraw scope escalation_id) repository.cancel
