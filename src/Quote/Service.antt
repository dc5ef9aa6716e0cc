-- ===== src/Quote/Service.antt =====
-- `getState`, `execute` and `recordOffer`.
use ctrl_alt_ship.Prelude.{
  String, Bool, true, false, not, ◌&&◌, ◌||◌, Option, none, some, List, [], ◌∷◌, includes, eqb,
  ◌==◌, if◌then◌else◌, Act, pure, need, perform, demand, ◌>>=◌, ◌>>◌,
}
use mathlib.Core.Option
use ctrl_alt_ship.Js.{
  Runtime, Value, bool, num, str, arr, obj, Items, nil, cons, Fields, object_prototype,
  null_prototype, get, has, only_keys, key_count, plain_object, is_amount, is_blank,
  is_operation_reference, gt,
}
use ctrl_alt_ship.ToolError.{Thrown, tool_error, other_error, not_authorized}
use ctrl_alt_ship.Checks.{invalid}
use ctrl_alt_ship.CallFlow.{Flow, provider_outbound}
use ctrl_alt_ship.ProviderState.{ProviderOutboundState, ProviderCommandTarget}
use ctrl_alt_ship.Quote.Types.{
  ProviderQuoteToolName, create_quote, decline_quote_request, QuoteCall, read_state, command, offer,
  ProviderQuoteRepository, ProviderQuoteService, ProviderQuoteResult,
}

-- A provider's outbound call.
abbrev pub is_outbound : Flow → Bool
is_outbound (provider_outbound p) = true
is_outbound _ = false

abbrev pub is_true : {Num : Type 0} → Value Num → Bool
is_true (bool b) = b
is_true v = false

abbrev pub is_boolean : {Num : Type 0} → Value Num → Bool
is_boolean (bool b) = true
is_boolean v = false

abbrev pub is_text : {Num : Type 0} → Value Num → Bool
is_text (str s) = not (is_blank s)
is_text v = false

-- `!("operation_reference" in args) || /^OP-…$/.test(args.operation_reference)`
abbrev pub reference_ok : {Num : Type 0} → Value Num → Bool
reference_ok (str s) = is_operation_reference s
reference_ok v = false

abbrev pub reasons : List String
reasons =
    "no_capacity" ∷ "unavailable_window" ∷ "price_terms" ∷ "route_unsupported"
    ∷ "operational_constraints" ∷ "other" ∷ []

abbrev pub is_reason : {Num : Type 0} → Value Num → Bool
is_reason (str s) = includes reasons s
is_reason v = false

-- `String(value)` throws for an object that has no method to turn itself into a text. Objects with
-- prototypes or methods of their own are left out.
abbrev mutual
  pub string_throws : {Num : Type 0} → Value Num → Bool
  string_throws (obj null_prototype fs) = true
  string_throws (obj object_prototype fs) = has fs "toString"
  string_throws (arr vs) = any_throws vs
  string_throws v = false

  pub any_throws : {Num : Type 0} → Items Num → Bool
  any_throws nil = false
  any_throws (cons v vs) = string_throws v || any_throws vs

-- The reference that a command is about, and `null`, "" or none where it has none.
abbrev pub own_reference : {Num : Type 0} → Option (ProviderOutboundState Num) → Option String
own_reference none = none
own_reference (some state) = Option.map (λ o. o.operation_reference) state.operation

abbrev pub given_reference : {Num : Type 0} → Value Num → Option String → Option String
given_reference (str s) own = some s
given_reference v own = own

-- `reference && reference === own`
abbrev pub same_reference : Option String → Option String → Bool
same_reference (some r) (some own) = not (r == "") && r == own
same_reference _ _ = false

abbrev pub target_of :
    {Num : Type 0} → Option (ProviderOutboundState Num) → Option ProviderCommandTarget
target_of none = none
target_of (some state) = state.command_target

-- `target` of `execute`: the saved target, if the command is about the saved operation.
unfoldable pub command_target :
    {Num : Type 0} → Option (ProviderOutboundState Num) → Fields Num → Option ProviderCommandTarget
command_target state fs =
    if same_reference (given_reference (get fs "operation_reference") (own_reference state))
      (own_reference state)
    then target_of state
    else none

module _ (js : Runtime) where
  abbrev pub money : Value js.Num → Bool
  money (num x) = is_amount js 2 999_999_999_999_990 x
  money v = false

  abbrev pub above : Value js.Num → Value js.Num → Bool
  above (num a) (num b) = gt js a b
  above v w = false

  abbrev pub range_ok : Fields js.Num → Bool
  range_ok price =
      money (get price "min")
      && money (get price "max")
      && not (above (get price "min") (get price "max"))

  abbrev pub quote_keys : List String
  quote_keys =
      "price_range" ∷ "operation_reference" ∷ "accept_above_budget"
      ∷ "negotiation_stopped_by_provider" ∷ []

  -- The tests of `validateQuote` before the price.
  unfoldable pub flags_ok : Fields js.Num → Bool
  flags_ok fs =
      has fs "price_range"
      && only_keys quote_keys fs
      && (not (has fs "accept_above_budget") || is_boolean (get fs "accept_above_budget"))
      && (not (has fs "negotiation_stopped_by_provider")
          || is_boolean (get fs "negotiation_stopped_by_provider"))
      && not (
          is_true (get fs "negotiation_stopped_by_provider")
          && not (is_true (get fs "accept_above_budget")))

  abbrev pub optional_reference : Fields js.Num → Bool
  optional_reference fs =
      not (has fs "operation_reference") || reference_ok (get fs "operation_reference")

  module _ {C : Type 0} where
    abbrev pub the_object : Value js.Num → Act Thrown C (Fields js.Num)
    the_object v = need (plain_object v) invalid

    unfoldable pub validate_quote : Fields js.Num → Act Thrown C Unit
    validate_quote fs = do
      demand (flags_ok fs) invalid
      price ← the_object (get fs "price_range")
      demand (eqb (key_count price) 2 && range_ok price) invalid

    unfoldable pub validate_decline : Fields js.Num → Act Thrown C Unit
    validate_decline fs = do
      demand (only_keys ("operation_reference" ∷ "reason" ∷ "details" ∷ []) fs) invalid
      demand (not (string_throws (get fs "reason"))) (other_error "TypeError")
      demand (is_reason (get fs "reason") && (not (has fs "details") || is_text (get fs "details")))
          invalid

    abbrev pub validate : ProviderQuoteToolName → Fields js.Num → Act Thrown C Unit
    validate create_quote fs = validate_quote fs
    validate decline_quote_request fs = validate_decline fs

  module _ (repository : ProviderQuoteRepository js.Num)
      (service : ProviderQuoteService js.Num) where
    abbrev Run : Type 0 → Type 0
    Run A = Act Thrown (QuoteCall js.Num) A

    abbrev pub authorize : Run Unit
    authorize = demand (is_outbound service.scope.flow) (tool_error not_authorized)

    -- `getState`: the object with what it read, which the caller gets too.
    unfoldable pub read : Run (ProviderQuoteService js.Num × ProviderOutboundState js.Num)
    read = do
      authorize
      state ← perform (read_state service.scope) repository.get_state
      pure (record service { state = some state }, state)

    unfoldable pub execute :
        ProviderQuoteToolName
        → Value js.Num
        → String
        → Option String
        → Run (ProviderQuoteResult js.Num)
    execute name args id evidence = do
      authorize
      demand (not (is_blank id)) invalid
      fs ← the_object args
      demand (optional_reference fs) invalid
      validate name fs
      perform (command service.scope name id fs (command_target service.state fs) evidence)
          repository.execute

    unfoldable pub record_offer : Value js.Num → String → Run Unit
    record_offer args id = do
      authorize
      demand (not (is_blank id)) invalid
      fs ← the_object args
      price ← the_object (get fs "price_range")
      demand
          (only_keys ("price_range" ∷ "currency" ∷ []) fs
            && only_keys ("min" ∷ "max" ∷ []) price
            && range_ok price
            && (not (has fs "currency") || is_text (get fs "currency")))
          invalid
      perform (offer service.scope id fs) repository.record_offer
