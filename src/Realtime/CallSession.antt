-- ===== src/Realtime/CallSession.antt =====
-- backend/src/tango/realtime/agents-call-session.ts: the SDK session of one SIP call, and the tools
-- that it runs. The SDK (the transport, the agent and the session's own events) is outside: what it
-- emits are the events of `step`, and the answer of its `updateAgent` is a parameter. Log lines are
-- left out. `hooks` tells which of the optional callbacks are given.
use ctrl_alt_ship.Prelude.{
  String, ℕ, Bool, true, false, ◌&&◌, ◌||◌, not, Option, none, some, is_some, List, [], ◌∷◌, length,
  ltb, ◌==◌, if◌then◌else◌, Result, ok, err,
}
use ctrl_alt_ship.Js.{Value, obj, bool, Fields, Prototype, get, find_key, set_key, delete_first}
use ctrl_alt_ship.ToolError.{Thrown, tool_error, invalid_transition, PublicCode, public_tool_error}
use ctrl_alt_ship.Client.Types.{ClientFlowState}
use ctrl_alt_ship.ProviderState.{ProviderCallState}
use ctrl_alt_ship.Tools.Session.Definitions.{Setup, CallToolSession, definitions}
use ctrl_alt_ship.Tools.Session.Execution.{ToolInvocation, SessionCall, Services}
use ctrl_alt_ship.Tools.Session.Execution
pub mod Keeps
pub mod Confirmed
pub mod Farewell
pub mod Evidence
pub mod Answers

-- What the agent is told; the texts are fixed, or made by the factory from the states of the flow.
pub data Instructions (Num : Type 0) : Type 0 where
  farewell_only no_further_actions review_pending : Instructions Num
  of_flow : Option (ClientFlowState Num) → Option (ProviderCallState Num) → Instructions Num

-- What the session asks of the others: a callback, the SDK, or `execute` of the tools.
pub data Effect : Type 0 where
  progress farewell interrupt close : Effect
  invoked : (name call_id : String) → Effect

-- The optional callbacks. One that reports progress answers or throws, by what came before.
pub record Hooks : Type 0 where
  pub on_progress : Option (List Effect → Result Thrown Unit)
  pub on_escalation_ready : Bool

-- Where a call of `execute` waits: for the tool, or for the refresh after it, with its result.
pub data Stage (Num : Type 0) : Type 0 where
  executing : Stage Num
  refreshing : Result Thrown (Value Num) → Stage Num

pub record Running (Num : Type 0) : Type 0 where
  pub name : String
  pub call_id : String
  pub stage : Stage Num

pub record AgentsCallSession (Num : Type 0) : Type 0 where
  pub tools : CallToolSession Num
  -- the calls of `execute` that wait, in any order
  pub running : List (Running Num)
  -- the calls made for the tools, the latest first
  pub calls : List (SessionCall Num)
  pub response_by_tool_call : List (String × String)
  pub evidence_by_tool_call : List (String × String)
  pub latest_caller_transcript_segment_id : Option String
  pub update_tool_call_id : String
  pub escalation_ready : Bool
  pub handoff_confirmed : Bool
  pub agent_tools : List String
  pub agent_instructions : Instructions Num
  pub effects : List Effect

abbrev is_true : {Num : Type 0} → Value Num → Bool
is_true (bool true) = true
is_true _ = false

-- `isHandoffReady`
unfoldable pub is_handoff_ready : {Num : Type 0} → Value Num → Bool
is_handoff_ready (obj p fs) =
    is_true (get fs "handoff_ready") || is_true (get fs "supervisor_notified")
is_handoff_ready _ = false

-- What the SDK gets for a call of a tool. `background` asks for no response of its own.
pub data Answer (Num : Type 0) : Type 0 where
  plain background : Result PublicCode (Value Num) → Answer Num

abbrev pub to_public : {Num : Type 0} → Result Thrown (Value Num) → Result PublicCode (Value Num)
unfolding public_tool_error
to_public (ok result) = ok result
to_public (err e) = err (public_tool_error e)

-- `left ?? right`
abbrev pub or_else {ℓ} : {A : Type ℓ} → Option A → Option A → Option A
or_else none right = right
or_else (some a) right = some a

-- The constructor.
unfoldable pub new_call_session :
    {Num : Type 0} → Setup → CallToolSession Num → AgentsCallSession Num
unfolding definitions
new_call_session u tools = record {
  tools = tools;
  running = [];
  calls = [];
  response_by_tool_call = [];
  evidence_by_tool_call = [];
  latest_caller_transcript_segment_id = none;
  update_tool_call_id = "sdk_connect";
  escalation_ready = false;
  handoff_confirmed = false;
  agent_tools = definitions u tools;
  agent_instructions = of_flow tools.state tools.provider_state;
  effects = [];
}

module _ {Num : Type 0} where
  abbrev pub emit : Effect → AgentsCallSession Num → AgentsCallSession Num
  emit e s = record s { effects = e ∷ s.effects }

  -- `transport_event`, of a function call.
  unfoldable pub observe_function_call :
      String → String → AgentsCallSession Num → AgentsCallSession Num
  observe_function_call call_id response_id s =
      let responses = set_key call_id response_id s.response_by_tool_call in
      record s {
        response_by_tool_call =
            if ltb 128 (length responses) then delete_first responses else responses;
      }

  unfoldable pub record_caller_transcript_segment :
      String → AgentsCallSession Num → AgentsCallSession Num
  record_caller_transcript_segment id s = record s { latest_caller_transcript_segment_id = some id }

  -- `connection_change` to "disconnected"
  unfoldable pub disconnect : AgentsCallSession Num → AgentsCallSession Num
  disconnect s = record s { response_by_tool_call = []; evidence_by_tool_call = [] }

  -- `interrupt` of the transport
  unfoldable pub interrupt_audio : AgentsCallSession Num → AgentsCallSession Num
  interrupt_audio s = if s.handoff_confirmed then s else emit interrupt s

  -- The caller's words behind a quote.
  unfoldable pub evidence_segment : String → String → AgentsCallSession Num → Option String
  evidence_segment name call_id s =
      if name == "create_quote"
      then or_else (find_key call_id s.evidence_by_tool_call) s.latest_caller_transcript_segment_id
      else none

  abbrev pub keep_evidence : String → Option String → AgentsCallSession Num → AgentsCallSession Num
  keep_evidence call_id none s = s
  keep_evidence call_id (some id) s =
      if id == ""
      then s
      else record s { evidence_by_tool_call = set_key call_id id s.evidence_by_tool_call }

-- One thing that happens between two waits. A call of `execute` is cut at its waits: it begins, its
-- tool answers, and the refresh after that ends; any other event may come in between, other calls'
-- too. An end of a wait carries the answer and the tool session as the wait has left it, which may be
-- anything. The wait for `updateAgent` that follows matters only where it fails.
pub data Event (Num : Type 0) : Type 0 where
  tool_called : (name : String) → Value Num → (call_id : String) → Event Num
  tool_answered : (call_id : String) → Result Thrown (Value Num) → CallToolSession Num → Event Num
  tools_refreshed : (call_id : String) → Result Thrown Unit → CallToolSession Num → Event Num
  tool_ended : (name : String) → Event Num
  update_failed disconnected interrupted : Event Num
  function_call : (call_id response_id : String) → Event Num
  transcript_recorded : (segment_id : String) → Event Num

module _ {Num : Type 0} where
  abbrev pub at_tool : Stage Num → Bool
  at_tool executing = true
  at_tool (refreshing r) = false

  abbrev pub is_executing : String → Running Num → Bool
  is_executing call_id c = c.call_id == call_id && at_tool c.stage

  abbrev pub is_refreshing : String → Running Num → Bool
  is_refreshing call_id c = c.call_id == call_id && not (at_tool c.stage)

  abbrev pub pick :
      Bool
      → Running Num
      → List (Running Num)
      → Option (Running Num × List (Running Num))
      → Option (Running Num × List (Running Num))
  pick true c cs later = some (c, cs)
  pick false c cs none = none
  pick false c cs (some (d, ds)) = some (d, c ∷ ds)

  -- The first that passes the test, and the others.
  abbrev pub take_first :
      (Running Num → Bool) → List (Running Num) → Option (Running Num × List (Running Num))
  take_first test [] = none
  take_first test (c ∷ cs) = pick (test c) c cs (take_first test cs)

module _ {Num : Type 0} (u : Setup) (services : Services Num (Value Num)) (hooks : Hooks) where
  -- `agent_tool_end`
  unfoldable pub end_tool : String → AgentsCallSession Num → AgentsCallSession Num
  end_tool name s =
      if name == "confirm_escalation" && s.escalation_ready
      then if hooks.on_escalation_ready
        then emit farewell (record s { escalation_ready = false })
        else record s { escalation_ready = false }
      else s

  -- The tool itself, which a confirmed transfer refuses.
  abbrev pub run_tool :
      Bool
      → String
      → Value Num
      → ToolInvocation
      → AgentsCallSession Num
      → Result Thrown (Value Num) × AgentsCallSession Num
  run_tool true name args invocation s = (err (tool_error invalid_transition), s)
  run_tool false name args invocation s =
      let (r, tools, calls) =
        Execution.execute u services name args (some invocation) s.tools s.calls in
      (
        r,
        record s {
          tools = tools;
          calls = calls;
          effects = invoked name invocation.tool_call_id ∷ s.effects;
        },
      )

  abbrev pub hook_answer :
      Value Num
      → Result Thrown Unit
      → AgentsCallSession Num
      → Result Thrown (Value Num) × AgentsCallSession Num
  hook_answer result (ok x) s = (ok result, s)
  hook_answer result (err e) s = (err e, s)

  abbrev pub with_hook :
      Option (List Effect → Result Thrown Unit)
      → Value Num
      → AgentsCallSession Num
      → Result Thrown (Value Num) × AgentsCallSession Num
  with_hook none result s = (ok result, s)
  with_hook (some answer) result s =
      hook_answer result (answer (progress ∷ s.effects)) (emit progress s)

  -- `if (name !== "escalate") this.hooks.onProgress?.()`, inside the `try`: where the callback throws,
  -- its error is the result.
  unfoldable pub note_progress :
      String
      → Result Thrown (Value Num)
      → AgentsCallSession Num
      → Result Thrown (Value Num) × AgentsCallSession Num
  note_progress name (ok result) s =
      with_hook (if name == "escalate" then none else hooks.on_progress) result s
  note_progress name (err e) s = (err e, s)

  unfoldable pub is_escalation : String → Result Thrown (Value Num) → Bool
  unfolding is_handoff_ready
  is_escalation name (ok result) =
      name == "confirm_escalation" && is_handoff_ready result && hooks.on_escalation_ready
  is_escalation name (err e) = false

  abbrev pub failed : Result Thrown Unit → Bool
  failed (ok x) = false
  failed (err e) = true

  -- `tools.refresh`, and whether it failed.
  abbrev pub refresh_tools : AgentsCallSession Num → Bool × AgentsCallSession Num
  refresh_tools s =
      let (r, tools, calls) = Execution.refresh u services s.tools s.calls in
      (failed r, record s { tools = tools; calls = calls })

  abbrev pub arm : Bool → AgentsCallSession Num → AgentsCallSession Num
  arm escalation s = record s {
    escalation_ready = escalation;
    handoff_confirmed = escalation || s.handoff_confirmed;
  }

  -- What the agent is given, by whether the refresh failed.
  unfoldable pub configure : Bool → AgentsCallSession Num → AgentsCallSession Num
  unfolding definitions
  configure refresh_failed s = record s {
    agent_tools = if refresh_failed || s.handoff_confirmed then [] else definitions u s.tools;
    agent_instructions =
        if s.handoff_confirmed
        then farewell_only
        else if refresh_failed
        then no_further_actions
        else if s.tools.pending_escalation
        then review_pending
        else of_flow s.tools.state s.tools.provider_state;
  }

  -- `execute` between the refresh and `updateAgent`.
  unfoldable pub conclude :
      String
      → String
      → Result Thrown (Value Num)
      → Bool
      → AgentsCallSession Num
      → Bool × AgentsCallSession Num
  unfolding is_escalation configure
  conclude name call_id result refresh_failed s =
      let escalation = is_escalation name result in
      let configured = configure refresh_failed (arm escalation s) in
      (escalation, record configured { update_tool_call_id = call_id })

  -- `execute` between the tool and `updateAgent`, where nothing comes in between.
  unfoldable pub settle :
      String
      → String
      → Result Thrown (Value Num)
      → AgentsCallSession Num
      → Result Thrown (Value Num) × Bool × AgentsCallSession Num
  unfolding note_progress conclude
  settle name call_id result ran =
      let (reported, noted) = note_progress name result ran in
      let (refresh_failed, refreshed) = refresh_tools noted in
      let (escalation, concluded) = conclude name call_id reported refresh_failed refreshed in
      (reported, escalation, concluded)

  abbrev pub invocation_of : String → Option String → ToolInvocation
  invocation_of call_id evidence = record { tool_call_id = call_id; evidence_segment_id = evidence }

  -- `execute` up to the `updateAgent` that it waits for, where nothing comes in between its waits: the
  -- result, whether it is the confirmed escalation, and the session. `step` has it in pieces.
  unfoldable pub begin_execute :
      String
      → Value Num
      → String
      → AgentsCallSession Num
      → Result Thrown (Value Num) × Bool × AgentsCallSession Num
  unfolding evidence_segment settle
  begin_execute name args call_id s =
      let evidence = evidence_segment name call_id s in
      let (result, ran) =
        run_tool s.handoff_confirmed name args (invocation_of call_id evidence)
          (keep_evidence call_id evidence s) in
      settle name call_id result ran

  -- `updateAgent` failed.
  unfoldable pub fail_update : AgentsCallSession Num → AgentsCallSession Num
  fail_update s = emit close (record s { escalation_ready = false })

  -- How `execute` ends, by whether `updateAgent` succeeded.
  unfoldable pub finish_execute :
      Bool
      → Result Thrown (Value Num)
      → Bool
      → AgentsCallSession Num
      → Answer Num × AgentsCallSession Num
  unfolding fail_update
  finish_execute false result escalation s = (background (to_public result), fail_update s)
  finish_execute true result true s = (background (to_public result), s)
  finish_execute true result false s = (plain (to_public result), s)

  -- `execute`, where `updated` is the answer of `updateAgent`.
  unfoldable pub execute_call :
      (AgentsCallSession Num → Bool)
      → String
      → Value Num
      → String
      → AgentsCallSession Num
      → Answer Num × AgentsCallSession Num
  unfolding begin_execute finish_execute
  execute_call updated name args call_id s =
      let (result, escalation, begun) = begin_execute name args call_id s in
      finish_execute (updated begun) result escalation begun

  -- `execute` up to its first wait.
  abbrev pub with_check : Bool → String → String → AgentsCallSession Num → AgentsCallSession Num
  with_check true name call_id s = record s {
    running =
        record {
          name = name;
          call_id = call_id;
          stage = refreshing (err (tool_error invalid_transition));
        }
        ∷ s.running;
  }
  with_check false name call_id s = record s {
    running = record { name = name; call_id = call_id; stage = executing } ∷ s.running;
    effects = invoked name call_id ∷ s.effects;
  }

  unfoldable pub start_call : String → String → AgentsCallSession Num → AgentsCallSession Num
  unfolding evidence_segment
  start_call name call_id s =
      with_check s.handoff_confirmed name call_id
        (keep_evidence call_id (evidence_segment name call_id s) s)

  -- From the tool's answer to the next wait, for the call that was waiting.
  unfoldable pub answer_call :
      Option (Running Num × List (Running Num))
      → Result Thrown (Value Num)
      → AgentsCallSession Num
      → AgentsCallSession Num
  unfolding note_progress
  answer_call none result s = s
  answer_call (some (c, others)) result s =
      let (reported, noted) = note_progress c.name result s in
      record noted {
        running =
            record { name = c.name; call_id = c.call_id; stage = refreshing reported } ∷ others;
      }

  unfoldable pub conclude_at :
      Stage Num → Running Num → Result Thrown Unit → AgentsCallSession Num → AgentsCallSession Num
  unfolding conclude
  conclude_at executing c refreshed s = s
  conclude_at (refreshing result) c refreshed s =
      (conclude c.name c.call_id result (failed refreshed) s).1

  -- From the end of the refresh to the wait for `updateAgent`.
  unfoldable pub refresh_call :
      Option (Running Num × List (Running Num))
      → Result Thrown Unit
      → AgentsCallSession Num
      → AgentsCallSession Num
  unfolding conclude_at
  refresh_call none refreshed s = s
  refresh_call (some (c, others)) refreshed s =
      conclude_at c.stage c refreshed (record s { running = others })

  unfoldable pub step : AgentsCallSession Num → Event Num → AgentsCallSession Num
  unfolding start_call answer_call refresh_call end_tool fail_update disconnect interrupt_audio
      observe_function_call record_caller_transcript_segment
  step s (tool_called name args call_id) = start_call name call_id s
  step s (tool_answered call_id result tools) =
      answer_call (take_first (is_executing call_id) s.running) result (record s { tools = tools })
  step s (tools_refreshed call_id refreshed tools) =
      refresh_call (take_first (is_refreshing call_id) s.running) refreshed
        (record s { tools = tools })
  step s (tool_ended name) = end_tool name s
  step s update_failed = fail_update s
  step s disconnected = disconnect s
  step s interrupted = interrupt_audio s
  step s (function_call call_id response_id) = observe_function_call call_id response_id s
  step s (transcript_recorded segment_id) = record_caller_transcript_segment segment_id s

  unfoldable pub run : AgentsCallSession Num → List (Event Num) → AgentsCallSession Num
  run s [] = s
  run s (e ∷ es) = run (step s e) es
