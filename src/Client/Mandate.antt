-- ===== src/Client/Mandate.antt =====
-- `confirm`: the mandate that a client approves.
use ctrl_alt_ship.Prelude.{
  String, Bool, true, false, not, ◌&&◌, ◌||◌, Option, none, some, List, [], ◌∷◌, is_some, eqb,
  length, Act, pure, demand, ◌>>=◌, ◌>>◌,
}
use ctrl_alt_ship.Js.{
  Runtime, Value, str, num, arr, Fields, items, get, has, only_keys, key_count, is_amount,
  is_currency, gt, ge,
}
use ctrl_alt_ship.ToolError.{Thrown}
use ctrl_alt_ship.Checks.{invalid}
use ctrl_alt_ship.Timestamps.{time_of, demand_timestamp}
use ctrl_alt_ship.Client.Types.{
  ClientFlowState, ClientService, ClientRepository, ClientMutationResult, confirm_mandate, Intent,
}
use ctrl_alt_ship.Client.Fields.{the_object, Run, assert_client, assert_tool_call_id, submit}

abbrev is_update : Intent → Bool
is_update Intent.update = true
is_update _ = false

-- `this.state?.intent === "update" && Boolean(this.state.currentMandate)`
abbrev pub can_inherit : {Num : Type 0} → Option (ClientFlowState Num) → Bool
can_inherit none = false
can_inherit (some state) = is_update state.intent && is_some state.current_mandate

-- `this.state?.operationRevision ?? null`
abbrev pub expected_revision : {Num : Type 0} → Option (ClientFlowState Num) → Option String
expected_revision none = none
expected_revision (some state) = state.operation_revision

module _ (js : Runtime) where
  abbrev pub is_price : Value js.Num → Bool
  is_price (num x) = is_amount js 2 999_999_999_999_990 x
  is_price v = false

  abbrev pub is_currency_code : Value js.Num → Bool
  is_currency_code (str s) = is_currency s
  is_currency_code v = false

  abbrev pub are_days : Value js.Num → Bool
  are_days (num x) =
      js.is_integer x
      && not (js.lt x (js.thousandths 0))
      && not (gt js x (js.thousandths 2_147_483_647_000))
  are_days v = false

  abbrev pub is_full_list : Value js.Num → Bool
  is_full_list (arr vs) = not (eqb (length (items vs)) 0)
  is_full_list v = false

  -- `args.action_windows ?? []`, once it is known to be a list or left out
  abbrev pub window_list : Value js.Num → List (Value js.Num)
  window_list (arr vs) = items vs
  window_list v = []

  abbrev pub mandate_keys : List String
  mandate_keys = "price_cap" ∷ "currency" ∷ "action_windows" ∷ "minimum_payment_term_days" ∷ []

  -- The tests of `confirm` up to the windows.
  unfoldable pub terms_ok : Option (ClientFlowState js.Num) → Fields js.Num → Bool
  terms_ok state fs =
      (can_inherit state || (has fs "price_cap" && has fs "currency" && has fs "action_windows"))
      && only_keys mandate_keys fs
      && (not (has fs "price_cap") || is_price (get fs "price_cap"))
      && (not (has fs "currency") || is_currency_code (get fs "currency"))
      && (not (has fs "minimum_payment_term_days") || are_days (get fs "minimum_payment_term_days"))
      && (not (has fs "action_windows") || is_full_list (get fs "action_windows"))

  module _ {C : Type 0} where
    unfoldable pub check_window : Value js.Num → Act Thrown C Unit
    check_window v = do
      fs ← the_object js v
      demand (eqb (key_count fs) 2) invalid
      demand_timestamp js (get fs "start_at")
      demand_timestamp js (get fs "end_at")
      demand (not (ge js (time_of js (get fs "start_at")) (time_of js (get fs "end_at")))) invalid

    unfoldable pub check_windows : List (Value js.Num) → Act Thrown C Unit
    check_windows [] = pure tt
    check_windows (w ∷ ws) = do check_window w; check_windows ws

  module _ (repository : ClientRepository js.Num) (service : ClientService js.Num) where
    unfoldable pub confirm :
        Value js.Num → String → Run js repository service (ClientMutationResult js.Num)
    unfolding terms_ok
    confirm args id = do
      assert_client js repository service
      assert_tool_call_id js repository service id
      fs ← the_object js args
      demand (terms_ok service.state fs) invalid
      check_windows (window_list (get fs "action_windows"))
      submit js repository service confirm_mandate id fs (some (expected_revision service.state))
