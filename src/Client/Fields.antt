-- ===== src/Client/Fields.antt =====
-- The operations that carry operation fields: `create`, `update`, `cancel` and `getState`.
use ctrl_alt_ship.Prelude.{
  String, Bool, true, false, not, ◌&&◌, ◌||◌, Option, none, some, List, [], ◌∷◌, includes, eqb,
  ◌==◌, if◌then◌else◌, Act, pure, need, perform, demand, ◌>>=◌, ◌>>◌,
}
use ctrl_alt_ship.Js.{
  Runtime, Value, null, str, num, arr, Fields, items, entries, get, has, only_keys, key_count,
  plain_object, is_amount, is_blank, is_operation_reference,
}
use ctrl_alt_ship.ToolError.{Thrown, tool_error, not_authorized}
use ctrl_alt_ship.Checks.{invalid}
use ctrl_alt_ship.CallFlow.{is_client}
use ctrl_alt_ship.Client.Types.{
  ClientToolName, create_operation, update_operation, cancel_operation, ClientCall, read_state,
  command, ClientRepository, ClientService, ClientFlowState, ClientMutationResult,
}

abbrev text_fields : List String
text_fields = "container_type" ∷ "pickup_location" ∷ "delivery_location" ∷ "empty_return_depot" ∷ []

-- `typeof v === "string" && v.trim() !== ""`
abbrev pub is_text : {Num : Type 0} → Value Num → Bool
is_text (str s) = not (is_blank s)
is_text v = false

abbrev is_null : {Num : Type 0} → Value Num → Bool
is_null null = true
is_null v = false

abbrev pub is_reference : {Num : Type 0} → Value Num → Bool
is_reference (str s) = is_operation_reference s
is_reference v = false

-- The texts of a list, `none` if an element is no text or is blank.
abbrev pub texts : {Num : Type 0} → List (Value Num) → Option (List String)
texts [] = some []
texts (str s ∷ vs) = elim (texts vs) [
  | none ↦ none
  | some ss ↦ if is_blank s then none else some (s ∷ ss)
]
texts (v ∷ vs) = none

-- `new Set(field).size === field.length`
abbrev pub all_distinct : List String → Bool
all_distinct [] = true
all_distinct (s ∷ ss) = not (includes ss s) && all_distinct ss

abbrev pub distinct_texts : Option (List String) → Bool
distinct_texts none = false
distinct_texts (some ss) = all_distinct ss

abbrev pub are_constraints : {Num : Type 0} → Value Num → Bool
are_constraints (arr vs) = distinct_texts (texts (items vs))
are_constraints v = false

module _ (js : Runtime) where
  abbrev is_weight : Value js.Num → Bool
  is_weight (num x) = is_amount js 3 999_999_999_999 x
  is_weight v = false

  -- One round of the loop of `validateFields`.
  unfoldable pub field_ok : Bool → String → Value js.Num → Bool
  field_ok allow_null_notes key v =
      if includes text_fields key || key == "cargo_notes"
      then (key == "cargo_notes" && allow_null_notes && is_null v) || is_text v
      else if key == "gross_weight_kg"
      then is_weight v
      else key == "operational_constraints" && are_constraints v

  abbrev pub fields_ok : Bool → List (String × Value js.Num) → Bool
  fields_ok allow_null_notes [] = true
  fields_ok allow_null_notes ((key, v) ∷ fs) =
      field_ok allow_null_notes key v && fields_ok allow_null_notes fs

  module _ {C : Type 0} where
    -- `assertObject`
    abbrev pub the_object : Value js.Num → Act Thrown C (Fields js.Num)
    the_object v = need (plain_object v) invalid

    unfoldable pub validate_fields : Value js.Num → Bool → Act Thrown C (Fields js.Num)
    unfolding field_ok
    validate_fields v allow_null_notes = do
      fs ← the_object v
      demand (fields_ok allow_null_notes (entries fs)) invalid
      pure fs

  module _ (repository : ClientRepository js.Num) (service : ClientService js.Num) where
    abbrev pub Run : Type 0 → Type 0
    Run A = Act Thrown (ClientCall js.Num) A

    abbrev pub assert_client : Run Unit
    assert_client = demand (is_client service.scope.flow) (tool_error not_authorized)

    abbrev pub assert_tool_call_id : String → Run Unit
    assert_tool_call_id id = demand (not (is_blank id)) invalid

    abbrev pub submit :
        ClientToolName
        → String
        → Fields js.Num
        → Option (Option String)
        → Run (ClientMutationResult js.Num)
    submit name id args context =
        perform (command service.scope name id args context) repository.execute

    -- `getState`: the object with what it read, which the caller gets too.
    unfoldable pub read : Run (ClientService js.Num × ClientFlowState js.Num)
    read = do
      assert_client
      state ← perform (read_state service.scope) repository.get_state
      pure (record service { state = some state }, state)

    unfoldable pub create : Value js.Num → String → Run (ClientMutationResult js.Num)
    unfolding validate_fields
    create args id = do
      assert_client
      assert_tool_call_id id
      fs ← validate_fields args false
      submit create_operation id fs none

    unfoldable pub update : Value js.Num → String → Run (ClientMutationResult js.Num)
    unfolding validate_fields
    update args id = do
      assert_client
      assert_tool_call_id id
      fs ← the_object args
      demand (only_keys ("operation_reference" ∷ "changes" ∷ []) fs) invalid
      demand (not (has fs "operation_reference") || is_reference (get fs "operation_reference"))
          invalid
      changes ← validate_fields (get fs "changes") true
      demand (not (eqb (key_count changes) 0)) invalid
      submit update_operation id fs none

    unfoldable pub cancel : Value js.Num → String → Run (ClientMutationResult js.Num)
    cancel args id = do
      assert_client
      assert_tool_call_id id
      fs ← the_object args
      demand
          (eqb (key_count fs) 2
            && is_reference (get fs "operation_reference")
            && is_text (get fs "reason"))
          invalid
      submit cancel_operation id fs none
