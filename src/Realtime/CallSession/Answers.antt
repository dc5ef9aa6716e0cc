-- ===== src/Realtime/CallSession/Answers.antt =====
-- What the SDK is answered for a tool.
use ctrl_alt_ship.Prelude.{
  String, ◌≡◌, refl, ◌∙◌, some, none, Bool, true, false, Bool-cases, inl, inr, List, [], ◌∷◌,
  Option, ◌==◌, Result, ok, err, arith,
}
use mathlib.Core.Path.{subst}
use ctrl_alt_ship.Js.{Value}
use ctrl_alt_ship.ToolError.{Thrown, PublicCode}
use ctrl_alt_ship.Tools.Session.Definitions.{Setup, CallToolSession}
use ctrl_alt_ship.Tools.Session.Execution.{ToolInvocation, Services, SessionCall}
use ctrl_alt_ship.Tools.Session.Execution
use ctrl_alt_ship.Realtime.CallSession.{
  Hooks, Effect, progress, close, emit, AgentsCallSession, Answer, plain, background, to_public,
  begin_execute, execute_call, finish_execute, keep_evidence, run_tool, settle, conclude,
  invocation_of, hook_answer, with_hook, note_progress, evidence_segment, configure, fail_update,
}

abbrev pub result_of : {Num : Type 0} → Answer Num → Result PublicCode (Value Num)
result_of (plain r) = r
result_of (background r) = r

-- What a tool's answer has become: itself, or where it is a result and the hook that reports progress
-- threw, the error of that.
pub data Reported {Num : Type 0} (hooks : Hooks) (name : String)
    : Result Thrown (Value Num) → Result Thrown (Value Num) → Type 0 where
  as_answered : {r : Result Thrown (Value Num)} → Reported hooks name r r
  thrown_by_hook :
      {v : Value Num} {e : Thrown} (hook : List Effect → Result Thrown Unit) (before : List Effect)
      → hooks.on_progress ≡ some hook
      → hook (progress ∷ before) ≡ err e
      → (name == "escalate") ≡ false
      → Reported hooks name (ok v) (err e)

-- How an execution ended: the result, whether the refresh failed, and whether `updateAgent` did.
pub record IsReported {Num : Type 0} (hooks : Hooks) (name : String)
    (result : Result Thrown (Value Num)) (refreshed : Result Thrown Unit) (updated : Bool)
    (answer : Answer Num) (after : AgentsCallSession Num) : Type 0 where
  pub reported :
      (r : Result Thrown (Value Num)) × Reported hooks name result r
      × (result_of answer ≡ to_public r)
  pub stripped : (e : Thrown) → refreshed ≡ err e → after.agent_tools ≡ []
  pub closed :
      updated ≡ false
      → (after.escalation_ready ≡ false)
        × ((before : List Effect) × (after.effects ≡ close ∷ before))

module _ {Num : Type 0} (u : Setup) (services : Services Num (Value Num)) (hooks : Hooks) where
  finish_execute-reported :
      (updated : Bool) (r : Result Thrown (Value Num)) (escalation : Bool)
      (s : AgentsCallSession Num)
      → (result_of (finish_execute u services hooks updated r escalation s).0 ≡ to_public r)
        × ((finish_execute u services hooks updated r escalation s).1.agent_tools ≡ s.agent_tools)
        × (updated ≡ false
            → ((finish_execute u services hooks updated r escalation s).1.escalation_ready ≡ false)
              × ((before : List Effect) × ((finish_execute u services hooks updated r escalation
                      s).1.effects
                    ≡ close ∷ before)))
  unfolding finish_execute fail_update
  finish_execute-reported false r escalation s = (refl, refl, λ h. (refl, (s.effects, refl)))
  finish_execute-reported true r true s = (refl, refl, λ h. cc)
  finish_execute-reported true r false s = (refl, refl, λ h. cc)

  -- The tool session is as it was, and the result is reported.
  abbrev Noted :
      String
      → Result Thrown (Value Num)
      → AgentsCallSession Num
      → Result Thrown (Value Num) × AgentsCallSession Num
      → Type 0
  Noted name r s (reported, noted) =
      Reported hooks name r reported × (noted.tools ≡ s.tools) × (noted.calls ≡ s.calls)

  hook_answer-Noted :
      (name : String) (v : Value Num) (s : AgentsCallSession Num)
      (hook : List Effect → Result Thrown Unit)
      → hooks.on_progress ≡ some hook
      → (name == "escalate") ≡ false
      → (answer : Result Thrown Unit) → hook (progress ∷ s.effects) ≡ answer
      → Noted name (ok v) s (hook_answer u services hooks v answer (emit progress s))
  hook_answer-Noted name v s hook h n (ok x) g = (as_answered, refl, refl)
  hook_answer-Noted name v s hook h n (err e) g = (thrown_by_hook hook s.effects h g n, refl, refl)

  with_hook-Noted :
      (name : String) (v : Value Num) (s : AgentsCallSession Num)
      (hook : Option (List Effect → Result Thrown Unit))
      → hooks.on_progress ≡ hook
      → (name == "escalate") ≡ false
      → Noted name (ok v) s (with_hook u services hooks hook v s)
  with_hook-Noted name v s none h n = (as_answered, refl, refl)
  with_hook-Noted name v s (some hook) h n =
      hook_answer-Noted name v s hook h n (hook (progress ∷ s.effects)) refl

  note_progress-Noted :
      (name : String) (r : Result Thrown (Value Num)) (s : AgentsCallSession Num)
      → Noted name r s (note_progress u services hooks name r s)
  unfolding note_progress
  note_progress-Noted name (err e) s = (as_answered, refl, refl)
  note_progress-Noted name (ok v) s = elim (Bool-cases (name == "escalate")) [
    | inl is ↦ rw is (as_answered, refl, refl)
    | inr is_not ↦ rw is_not (with_hook-Noted name v s hooks.on_progress refl is_not)
  ]

  settle-stripped :
      (name call_id : String) (r : Result Thrown (Value Num)) (s : AgentsCallSession Num)
      (e : Thrown)
      → (Execution.refresh u services s.tools s.calls).0 ≡ err e
      → (settle u services hooks name call_id r s).2.agent_tools ≡ []
  unfolding settle conclude configure
  settle-stripped name call_id r s e h =
      let (reported, t, c) = note_progress-Noted name r s in rw (t, c, h) refl

  keep_evidence-tools :
      (call_id : String) (evidence : Option String) (s : AgentsCallSession Num)
      → ((keep_evidence call_id evidence s).tools ≡ s.tools)
        × ((keep_evidence call_id evidence s).calls ≡ s.calls)
        × ((keep_evidence call_id evidence s).handoff_confirmed ≡ s.handoff_confirmed)
  keep_evidence-tools call_id none s = (refl, refl, refl)
  keep_evidence-tools call_id (some id) s = ground arith

  -- The tool's own answer, and that of the refresh after it.
  abbrev pub tool_result :
      String
      → Value Num
      → ToolInvocation
      → CallToolSession Num
      → List (SessionCall Num)
      → Result Thrown (Value Num) × Result Thrown Unit
  tool_result name args invocation tools calls =
      let (r, tools', calls') =
        Execution.execute u services name args (some invocation) tools calls in
      (r, (Execution.refresh u services tools' calls').0)

  settled-IsReported :
      (updated : AgentsCallSession Num → Bool) (name call_id : String)
      (r : Result Thrown (Value Num)) (ran : AgentsCallSession Num)
      → (let (result, escalation, begun) = settle u services hooks name call_id r ran in
          let after = finish_execute u services hooks (updated begun) result escalation begun in
          IsReported hooks name r
            (Execution.refresh u services ran.tools ran.calls).0
            (updated begun)
            after.0
            after.1)
  unfolding settle
  settled-IsReported updated name call_id r ran =
      let (result, escalation, begun) = settle u services hooks name call_id r ran in
      let (reported, tools, closed) =
        finish_execute-reported (updated begun) result escalation begun in
      record {
        reported = (result, (note_progress-Noted name r ran).0, reported);
        stripped = λ e h. tools ∙ settle-stripped name call_id r ran e h;
        closed = closed;
      }

  run_from :
      (b : Bool) (updated : AgentsCallSession Num → Bool) (name : String) (args : Value Num)
      (call_id : String) (invocation : ToolInvocation) (kept : AgentsCallSession Num)
      → b ≡ false
      → (let (r, refreshed) = tool_result name args invocation kept.tools kept.calls in
          let ran = run_tool u services hooks b name args invocation kept in
          let (result, escalation, begun) = settle u services hooks name call_id ran.0 ran.1 in
          let after = finish_execute u services hooks (updated begun) result escalation begun in
          IsReported hooks name r refreshed (updated begun) after.0 after.1)
  run_from true updated name args call_id invocation kept h = cc
  run_from false updated name args call_id invocation kept h =
      let ran = run_tool u services hooks false name args invocation kept in
      settled-IsReported updated name call_id ran.0 ran.1

  -- While no transfer is confirmed, and no other call comes in between, a tool's own answer is what
  -- the SDK gets, also if the refresh after it or the update of the agent fails, save that the error
  -- of a hook that throws when it is told of progress takes a result's place; if the refresh fails
  -- the agent has no tool left, and if the update fails the session is closed and no farewell is to
  -- come.
  pub execute_call-IsReported :
      (updated : AgentsCallSession Num → Bool) (name : String) (args : Value Num) (call_id : String)
      (s : AgentsCallSession Num)
      → s.handoff_confirmed ≡ false
      → (let evidence = evidence_segment name call_id s in
          let invocation = invocation_of u services hooks call_id evidence in
          let (r, refreshed) = tool_result name args invocation s.tools s.calls in
          let begun = (begin_execute u services hooks name args call_id s).2 in
          let after = execute_call u services hooks updated name args call_id s in
          IsReported hooks name r refreshed (updated begun) after.0 after.1)
  unfolding execute_call begin_execute
  execute_call-IsReported updated name args call_id s h =
      let evidence = evidence_segment name call_id s in
      let invocation = invocation_of u services hooks call_id evidence in
      let kept = keep_evidence call_id evidence s in
      let (t, c, confirmed) = keep_evidence-tools call_id evidence s in
      let begun = (begin_execute u services hooks name args call_id s).2 in
      let after = execute_call u services hooks updated name args call_id s in
      let Told : CallToolSession Num → List (SessionCall Num) → Type 0 = λ tools calls.
        (let (r, refreshed) = tool_result name args invocation tools calls in
          IsReported hooks name r refreshed (updated begun) after.0 after.1) in
      subst (λ calls. Told s.tools calls) c
        (subst (λ tools. Told tools kept.calls) t
          (run_from s.handoff_confirmed updated name args call_id invocation kept h))
