-- ===== src/Client/Commands.antt =====
-- The arguments that the service accepts for each command, and the repository call that it stands for.
use ctrl_alt_ship.Prelude.{
  String, ◌≡◌, ◌≢◌, ◌⊎◌, true, false, Option, none, some, List, [], ◌∷◌, err, All,
}
use ctrl_alt_ship.Js.{Runtime, Value, Fields, entries, get, has, only_keys, key_count}
use ctrl_alt_ship.ToolError.{Thrown}
use ctrl_alt_ship.Client.Types.{
  create_operation, update_operation, cancel_operation, confirm_mandate, ClientCall, command,
  ClientRepository, ClientService, ClientFlowState,
}
use ctrl_alt_ship.Client.Fields.{is_reference, is_text}
use ctrl_alt_ship.Client.Mandate.{
  can_inherit, expected_revision, mandate_keys, is_price, is_currency_code, are_days, is_full_list,
  window_list,
}
use ctrl_alt_ship.Client.Accepted.{FieldsAre}
use ctrl_alt_ship.Checks.{Object}
use ctrl_alt_ship.Client.Windows.{WindowFields}
use ctrl_alt_ship.Client.Authorization.{
  ClientRequest, create_with, update_with, cancel_with, confirm_with, handle,
}

abbrev pub ReferenceOrNone : {Num : Type 0} → Fields Num → Type 0
ReferenceOrNone fs =
    (has fs "operation_reference" ≡ false) ⊎ (is_reference (get fs "operation_reference") ≡ true)

module _ (js : Runtime) where
  pub record ChangedFields (fs : Fields js.Num) : Type 0 where
    pub accepted : FieldsAre js true (entries fs)
    pub some_change : key_count fs ≢ 0

  pub record UpdateFields (fs : Fields js.Num) : Type 0 where
    pub known : only_keys ("operation_reference" ∷ "changes" ∷ []) fs ≡ true
    pub reference : ReferenceOrNone fs
    pub changes : Object ChangedFields (get fs "changes")

  pub record CancelFields (fs : Fields js.Num) : Type 0 where
    pub two : key_count fs ≡ 2
    pub reference : is_reference (get fs "operation_reference") ≡ true
    pub reason : is_text (get fs "reason") ≡ true

  -- The terms given are valid, and those left out can be inherited from the mandate in force.
  pub record TermFields (state : Option (ClientFlowState js.Num)) (fs : Fields js.Num)
      : Type 0 where
    pub complete :
        (can_inherit state ≡ true)
        ⊎ ((has fs "price_cap" ≡ true)
            × (has fs "currency" ≡ true)
            × (has fs "action_windows" ≡ true))
    pub known : only_keys (mandate_keys js) fs ≡ true
    pub price : (has fs "price_cap" ≡ false) ⊎ (is_price js (get fs "price_cap") ≡ true)
    pub currency : (has fs "currency" ≡ false) ⊎ (is_currency_code js (get fs "currency") ≡ true)
    pub days :
        (has fs "minimum_payment_term_days" ≡ false)
        ⊎ (are_days js (get fs "minimum_payment_term_days") ≡ true)
    pub listed :
        (has fs "action_windows" ≡ false) ⊎ (is_full_list js (get fs "action_windows") ≡ true)

  module _ (repository : ClientRepository js.Num) (service : ClientService js.Num) where
    abbrev pub arguments : ClientRequest js.Num → Value js.Num
    arguments (create_with v) = v
    arguments (update_with v) = v
    arguments (cancel_with v) = v
    arguments (confirm_with v) = v

    abbrev pub Accepted : ClientRequest js.Num → Fields js.Num → Type 0
    Accepted (create_with v) fs = FieldsAre js false (entries fs)
    Accepted (update_with v) fs = UpdateFields fs
    Accepted (cancel_with v) fs = CancelFields fs
    Accepted (confirm_with v) fs =
        TermFields service.state fs
        × All (Object (WindowFields js)) (window_list js (get fs "action_windows"))

    -- The repository call that a request stands for: under the call's own scope, with the revision
    -- that was read last for a mandate.
    abbrev pub call_of : ClientRequest js.Num → String → Fields js.Num → ClientCall js.Num
    call_of (create_with v) id fs = command service.scope create_operation id fs none
    call_of (update_with v) id fs = command service.scope update_operation id fs none
    call_of (cancel_with v) id fs = command service.scope cancel_operation id fs none
    call_of (confirm_with v) id fs =
        command service.scope confirm_mandate id fs (some (expected_revision service.state))

    module _ (request : ClientRequest js.Num) (id : String) (log : List (ClientCall js.Num)) where
      abbrev pub Reaches : Fields js.Num → Type 0
      Reaches fs =
          handle js repository service request id log
          ≡ (repository.execute (call_of request id fs ∷ log), call_of request id fs ∷ log)

      abbrev pub Refuses : Type 0
      Refuses = (e : Thrown) × (handle js repository service request id log ≡ (err e, log))

      abbrev pub SubmitsAt : Fields js.Num → Type 0
      SubmitsAt fs = (Accepted request fs × Reaches fs) ⊎ (¬ Accepted request fs × Refuses)
