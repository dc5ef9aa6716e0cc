-- ===== src/Client/Authorization.antt =====
-- Who may use the client's commands.
use ctrl_alt_ship.Prelude.{String, ◌≡◌, refl, ◌≢◌, Result, err, List, false}
use ctrl_alt_ship.Js.{Runtime, Value}
use ctrl_alt_ship.ToolError.{Thrown, tool_error, not_authorized}
use ctrl_alt_ship.CallFlow.{client, persona, is_client, Flow, client_inbound}
use ctrl_alt_ship.Client.Types.{ClientRepository, ClientService, ClientCall, ClientMutationResult}
use ctrl_alt_ship.Client.Fields.{read, create, update, cancel}
use ctrl_alt_ship.Client.Mandate.{confirm}

-- The commands that change an operation.
pub data ClientRequest (Num : Type 0) : Type 0 where
  create_with update_with cancel_with confirm_with : Value Num → ClientRequest Num

is_client-eq-false : (flow : Flow) → persona flow ≢ client → is_client flow ≡ false
is_client-eq-false client_inbound h = absurd (h refl)
is_client-eq-false _ h = refl

module _ (js : Runtime) (repository : ClientRepository js.Num)
    (service : ClientService js.Num) where
  abbrev pub handle :
      ClientRequest js.Num
      → String
      → List (ClientCall js.Num)
      → Result Thrown (ClientMutationResult js.Num) × List (ClientCall js.Num)
  handle (create_with args) = create js repository service args
  handle (update_with args) = update js repository service args
  handle (cancel_with args) = cancel js repository service args
  handle (confirm_with args) = confirm js repository service args

  -- A call that is not a client's is refused by every command and by the read of the state, before
  -- any argument is looked at, and nothing is asked of the repository.
  handle_unauthorized :
      (request : ClientRequest js.Num) (id : String) (log : List (ClientCall js.Num))
      → persona service.scope.flow ≢ client
      → (handle request id log ≡ (err (tool_error not_authorized), log))
        × (read js repository service log ≡ (err (tool_error not_authorized), log))
  unfolding create update cancel confirm read
  handle_unauthorized (create_with args) id log h =
      rw (is_client-eq-false service.scope.flow h) (refl, refl)
  handle_unauthorized (update_with args) id log h =
      rw (is_client-eq-false service.scope.flow h) (refl, refl)
  handle_unauthorized (cancel_with args) id log h =
      rw (is_client-eq-false service.scope.flow h) (refl, refl)
  handle_unauthorized (confirm_with args) id log h =
      rw (is_client-eq-false service.scope.flow h) (refl, refl)
