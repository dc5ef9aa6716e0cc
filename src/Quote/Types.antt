-- ===== src/Quote/Types.antt =====
-- The types of provider-quote-service.ts, and the calls of its repository.
use ctrl_alt_ship.Prelude.{String, Bool, Option, List, Result}
use ctrl_alt_ship.Js.{Fields}
use ctrl_alt_ship.ToolError.{Thrown}
use ctrl_alt_ship.CallFlow.{ToolCallScope}
use ctrl_alt_ship.ProviderState.{ProviderCommandTarget, ProviderOutboundState}

pub data ProviderQuoteToolName : Type 0 where
  create_quote decline_quote_request : ProviderQuoteToolName

pub data Verdict : Type 0 where
  dentro contraoferta fuera : Verdict

pub data ProviderQuoteResult (Num : Type 0) : Type 0 where
  quoted :
      (operation_reference : String) (quote_version : Num)
      → Verdict
      → (reason_codes : List String) (negotiation_remaining : Bool)
        (negotiation_rounds_remaining : Num)
        (accepted_above_budget negotiation_stopped_by_provider : Option Bool)
      → ProviderQuoteResult Num
  declined : ProviderQuoteResult Num

pub data QuoteCall (Num : Type 0) : Type 0 where
  read_state : ToolCallScope → QuoteCall Num
  command :
      ToolCallScope
      → ProviderQuoteToolName
      → (id : String) → Fields Num
      → Option ProviderCommandTarget
      → (evidence_segment_id : Option String) → QuoteCall Num
  offer : ToolCallScope → (id : String) → Fields Num → QuoteCall Num

pub record ProviderQuoteRepository (Num : Type 0) : Type 0 where
  pub get_state : List (QuoteCall Num) → Result Thrown (ProviderOutboundState Num)
  pub execute : List (QuoteCall Num) → Result Thrown (ProviderQuoteResult Num)
  pub record_offer : List (QuoteCall Num) → Result Thrown (Unit {0})

pub record ProviderQuoteService (Num : Type 0) : Type 0 where
  pub scope : ToolCallScope
  pub state : Option (ProviderOutboundState Num)
