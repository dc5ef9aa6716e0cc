-- ===== src/ToolError.antt =====
-- backend/src/domain/tool-error.ts: what the services throw, and what the voice model is told.
-- The messages are fixed texts of the place that throws, and are left out.
use ctrl_alt_ship.Prelude.{String}

pub data ToolErrorCode : Type 0 where
  invalid_arguments not_authorized tool_unavailable intent_locked : ToolErrorCode
  idempotency_conflict operation_not_available invalid_transition : ToolErrorCode
  stale_operation confirmation_not_ready fixed_terms_conflict negotiation_required : ToolErrorCode

-- Anything that JavaScript can throw: a `ToolError`, or another error with its text.
pub data Thrown : Type 0 where
  tool_error : ToolErrorCode → Thrown
  other_error : String → Thrown

pub data PublicCode : Type 0 where
  tool_code : ToolErrorCode → PublicCode
  temporarily_unavailable : PublicCode

-- `publicToolError`: other errors become one code, with no detail.
unfoldable pub public_tool_error : Thrown → PublicCode
public_tool_error (tool_error code) = tool_code code
public_tool_error (other_error detail) = temporarily_unavailable
