-- ===== src/Client/Types.antt =====
-- The types of client-operation-service.ts, and the calls of its repository.
use ctrl_alt_ship.Prelude.{String, Bool, Option, List, Result}
use ctrl_alt_ship.Js.{Fields}
use ctrl_alt_ship.ToolError.{Thrown}
use ctrl_alt_ship.CallFlow.{ToolCallScope}

pub data ClientToolName : Type 0 where
  create_operation update_operation confirm_mandate cancel_operation : ClientToolName

pub data ClientProfile : Type 0 where
  client_entry client_create client_update client_confirm terminal : ClientProfile

pub data Intent : Type 0 where
  undecided create update cancel : Intent

pub record ActionWindow : Type 0 where
  pub start_at : String
  pub end_at : String

pub record MandateTerms (Num : Type 0) : Type 0 where
  pub price_cap : Num
  pub currency : String
  pub action_windows : List ActionWindow
  pub minimum_payment_term_days : Num
  pub version : Num

-- The operation's own descriptive fields are read by no code modelled here.
pub record ClientOperation : Type 0 where
  pub operation_reference : String
  pub status : String
  pub missing_fields : List String
  pub mandate_confirmation_required : Bool

pub record ClientFlowState (Num : Type 0) : Type 0 where
  pub operation_revision : Option String
  pub current_mandate : Option (MandateTerms Num)
  pub profile : ClientProfile
  pub intent : Intent
  pub operation : Option ClientOperation

pub data ClientMutationResult (Num : Type 0) : Type 0 where
  saved :
      (operation_reference status : String) (missing_fields : List String) (next : ClientProfile)
      (mandate_confirmation_required : Option Bool)
      → ClientMutationResult Num
  sourcing : (operation_reference : String) (mandate_version : Num) → ClientMutationResult Num
  cancelled :
      (operation_reference : String) (client_sms_queued provider_sms_queued : Bool)
      → ClientMutationResult Num

-- The calls of `ClientOperationRepository`. The last argument of a command is the context, where
-- the outer `none` is no context and the inner one is `expected_operation_revision: null`.
pub data ClientCall (Num : Type 0) : Type 0 where
  read_state : ToolCallScope → ClientCall Num
  command :
      ToolCallScope
      → ClientToolName
      → (tool_call_id : String) → Fields Num
      → (expected_operation_revision : Option (Option String)) → ClientCall Num

pub record ClientRepository (Num : Type 0) : Type 0 where
  pub get_state : List (ClientCall Num) → Result Thrown (ClientFlowState Num)
  pub execute : List (ClientCall Num) → Result Thrown (ClientMutationResult Num)

-- The object: its frozen scope and the state that it read last.
pub record ClientService (Num : Type 0) : Type 0 where
  pub scope : ToolCallScope
  pub state : Option (ClientFlowState Num)
