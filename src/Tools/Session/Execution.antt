-- ===== src/Tools/Session/Execution.antt =====
-- `refresh` and `execute`. The services' `getState` and the tools' own `execute` are calls, whose
-- answers are a parameter. Log lines are left out.
use ctrl_alt_ship.Prelude.{
  String, Bool, true, false, ◌&&◌, ◌||◌, Option, some, List, [], ◌∷◌, includes, ◌==◌, if◌then◌else◌,
  Result, ok, err, ◌≡◌, refl,
}
use ctrl_alt_ship.Js.{Value}
use ctrl_alt_ship.ToolError.{Thrown, tool_error, tool_unavailable}
use ctrl_alt_ship.Client.Types.{ClientFlowState}
use ctrl_alt_ship.ProviderState.{
  ProviderInboundState, ProviderOutboundState, provider_inbound, provider_outbound,
}
use ctrl_alt_ship.Tools.Session.Definitions.{Setup, CallToolSession, has_service, definitions}

pub record ToolInvocation : Type 0 where
  pub tool_call_id : String
  pub evidence_segment_id : Option String

pub data SessionCall (Num : Type 0) : Type 0 where
  read_client read_quote read_booking : SessionCall Num
  invoke : (name : String) → Value Num → Option ToolInvocation → SessionCall Num

pub record Services (Num Output : Type 0) : Type 0 where
  pub client_state : List (SessionCall Num) → Result Thrown (ClientFlowState Num)
  pub quote_state : List (SessionCall Num) → Result Thrown (ProviderOutboundState Num)
  pub booking_state : List (SessionCall Num) → Result Thrown (ProviderInboundState Num)
  pub tool : List (SessionCall Num) → Result Thrown Output

abbrev pub client_commands : List String
client_commands =
    "create_operation" ∷ "update_operation" ∷ "confirm_mandate" ∷ "cancel_operation" ∷ []

abbrev pub quote_commands : List String
quote_commands = "create_quote" ∷ "decline_quote_request" ∷ "record_provider_offer" ∷ []

abbrev pub booking_commands : List String
booking_commands =
    "reschedule_booking" ∷ "cancel_booking" ∷ "decline_reschedule_alternatives"
    ∷ "select_booking_for_reschedule" ∷ "select_booking_for_cancellation" ∷ []

-- A method: its result, the session behind it and the calls made.
abbrev pub Method : Type 0 → Type 0 → Type 0
Method Num A =
    CallToolSession Num
    → List (SessionCall Num)
    → Result Thrown A × CallToolSession Num × List (SessionCall Num)

abbrev pub next : {Num A B : Type 0} → Result Thrown A → (A → Method Num B) → Method Num B
next (ok a) f s log = f a s log
next (err e) f s log = (err e, s, log)

infixl 5 ◌>>=◌ ◌>>◌
abbrev pub ◌>>=◌ : {Num A B : Type 0} → Method Num A → (A → Method Num B) → Method Num B
◌>>=◌ m f s log = let (r, s', log') = m s log in next r f s' log'

abbrev pub ◌>>◌ : {Num A B : Type 0} → Method Num A → Method Num B → Method Num B
m >> k = m >>= λ _. k

abbrev pub update : {Num : Type 0} → (CallToolSession Num → CallToolSession Num) → Method Num Unit
update f s log = (ok tt, f s, log)

abbrev pub perform :
    {Num A : Type 0} → SessionCall Num → (List (SessionCall Num) → Result Thrown A) → Method Num A
perform c answer s log = (answer (c ∷ log), s, c ∷ log)

abbrev pub demand : {Num : Type 0} → Bool → Method Num Unit
demand true s log = (ok tt, s, log)
demand false s log = (err (tool_error tool_unavailable), s, log)

abbrev pub when : {Num : Type 0} → Bool → Method Num Unit → Method Num Unit
when true m s log = m s log
when false m s log = (ok tt, s, log)

abbrev pub choose : {Num A : Type 0} → Bool → Method Num A → Method Num A → Method Num A
choose true m n s log = m s log
choose false m n s log = n s log

module _ {Num Output : Type 0} (u : Setup) (services : Services Num Output) where
  -- `super.execute`: only a registered tool can be called.
  unfoldable pub registry_execute : String → Value Num → Option ToolInvocation → Method Num Output
  registry_execute name args invocation = do
    demand (includes u.tools name)
    perform (invoke name args invocation) services.tool

  abbrev pub read_client_state : Method Num Unit
  read_client_state = do
    found ← perform read_client services.client_state
    update (λ s. record s { state = some found })

  abbrev pub read_quote_state : Method Num Unit
  read_quote_state = do
    found ← perform read_quote services.quote_state
    update (λ s. record s { provider_state = some (provider_outbound found) })

  abbrev pub read_booking_state : Method Num Unit
  read_booking_state = do
    found ← perform read_booking services.booking_state
    update (λ s. record s { provider_state = some (provider_inbound found) })

  unfoldable pub refresh : Method Num Unit
  refresh = when (has_service u) (do
    update (λ s. record s { ready = false })
    when u.client_service read_client_state
    when u.provider_service read_quote_state
    when u.booking_service read_booking_state
    update (λ s. record s { ready = true }))

  -- `definitions.some((tool) => tool.name === name)`
  unfoldable pub is_offered : String → CallToolSession Num → Bool
  unfolding definitions
  is_offered name s = includes (definitions u s) name

  abbrev pub demand_offered : String → Method Num Unit
  demand_offered name s log = demand (is_offered name s) s log

  -- The commands of the session's own service, which SQL checks.
  abbrev pub is_own_command : String → Bool
  is_own_command name =
      (u.provider_service && includes quote_commands name)
      || (u.booking_service && includes booking_commands name)
      || (u.client_service && includes client_commands name)

  abbrev pub if_controlled : CallToolSession Num → String → Bool
  if_controlled s name =
      s.pending_escalation || name == "confirm_escalation" || name == "cancel_escalation"

  unfoldable pub execute_in_flow : String → Value Num → Option ToolInvocation → Method Num Output
  execute_in_flow name args invocation s log =
      choose (if_controlled s name) (do demand_offered name; registry_execute name args invocation)
        (choose (is_own_command name) (registry_execute name args invocation)
          (do refresh; demand_offered name; registry_execute name args invocation))
        s log

  -- What `execute` notes of a tool that returned.
  unfoldable pub note_escalation : String → CallToolSession Num → CallToolSession Num
  note_escalation name s =
      if name == "escalate"
      then record s { pending_escalation = true }
      else if name == "cancel_escalation"
      then record s { pending_escalation = false }
      else s

  abbrev pub noted : String → Output → Method Num Output
  noted name result s log = (ok result, note_escalation name s, log)

  unfoldable pub execute : String → Value Num → Option ToolInvocation → Method Num Output
  execute name args invocation = do result ← execute_in_flow name args invocation; noted name result

module _ {Num A : Type 0} (m n : Method Num A) (s : CallToolSession Num)
    (log : List (SessionCall Num)) where
  pub choose-true : (b : Bool) → b ≡ true → choose b m n s log ≡ m s log
  choose-true true h = refl
  choose-true false h = cc

  pub choose-false : (b : Bool) → b ≡ false → choose b m n s log ≡ n s log
  choose-false true h = cc
  choose-false false h = refl
