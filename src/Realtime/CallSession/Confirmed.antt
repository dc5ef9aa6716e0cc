-- ===== src/Realtime/CallSession/Confirmed.antt =====
-- After the transfer is confirmed.
use ctrl_alt_ship.Prelude.{
  String, ◌≡◌, refl, ◌∙◌, ◌⊎◌, Bool, true, false, ◌||◌, List, [], ◌∷◌, keep, Option, none, some,
  Bool-cases, inl, inr, Result, arith,
}
use ctrl_alt_ship.Js.{Value}
use ctrl_alt_ship.ToolError.{Thrown}
use ctrl_alt_ship.Tools.Session.Definitions.{Setup, CallToolSession}
use ctrl_alt_ship.Tools.Session.Execution.{Services}
use ctrl_alt_ship.Realtime.CallSession.{
  Hooks, Effect, interrupt, invoked, AgentsCallSession, new_call_session, Stage, executing,
  refreshing, Running, Event, tool_called, tool_answered, tools_refreshed, tool_ended,
  update_failed, disconnected, interrupted, function_call, transcript_recorded, step, run,
  start_call, with_check, refresh_call, conclude_at, conclude, is_escalation, failed, take_first,
  is_executing, is_refreshing, keep_evidence, end_tool, configure, fail_update, disconnect,
  interrupt_audio, observe_function_call, record_caller_transcript_segment, evidence_segment,
}
use ctrl_alt_ship.Realtime.CallSession.Keeps.{keep_evidence_keeps, answer_call_keeps}

abbrev pub is_interrupt : Effect → Bool
is_interrupt interrupt = true
is_interrupt _ = false

-- A call of `tools.execute`.
abbrev pub is_invoked : Effect → Bool
is_invoked (invoked name call_id) = true
is_invoked _ = false

-- The transfer is confirmed, the agent has no tool, and since then none was called and no audio cut.
pub record IsConfirmed {Num : Type 0} (ran cut : List Effect) (s : AgentsCallSession Num)
    : Type 0 where
  pub confirmed : s.handoff_confirmed ≡ true
  pub no_tools : s.agent_tools ≡ []
  pub none_ran : keep is_invoked s.effects ≡ ran
  pub none_cut : keep is_interrupt s.effects ≡ cut

or_true : (a b : Bool) → b ≡ true → (a || b) ≡ true
or_true a b h = ground arith

module _ {Num : Type 0} (u : Setup) (services : Services Num (Value Num)) (hooks : Hooks) where
  module _ (ran cut : List Effect) where
    -- Only these four fields matter.
    alike :
        {s t : AgentsCallSession Num}
        → t.handoff_confirmed ≡ s.handoff_confirmed
        → t.agent_tools ≡ s.agent_tools
        → keep is_invoked t.effects ≡ keep is_invoked s.effects
        → keep is_interrupt t.effects ≡ keep is_interrupt s.effects
        → IsConfirmed ran cut s
        → IsConfirmed ran cut t
    alike c n r i v = record {
      confirmed = c ∙ v.confirmed;
      no_tools = n ∙ v.no_tools;
      none_ran = r ∙ v.none_ran;
      none_cut = i ∙ v.none_cut;
    }

    with_check-IsConfirmed :
        (b : Bool) (name call_id : String) (s : AgentsCallSession Num)
        → b ≡ true
        → IsConfirmed ran cut s
        → IsConfirmed ran cut (with_check u services hooks b name call_id s)
    with_check-IsConfirmed true name call_id s h v = alike {s = s} refl refl refl refl v
    with_check-IsConfirmed false name call_id s h v = cc

    conclude-IsConfirmed :
        (name call_id : String) (r : Result Thrown (Value Num)) (refresh_failed : Bool)
        (s : AgentsCallSession Num)
        → IsConfirmed ran cut s
        → IsConfirmed ran cut (conclude u services hooks name call_id r refresh_failed s).1
    unfolding conclude configure
    conclude-IsConfirmed name call_id r refresh_failed s v =
        let confirmed =
          or_true (is_escalation u services hooks name r) s.handoff_confirmed v.confirmed in
        record {
          confirmed = confirmed;
          no_tools = rw (confirmed, or_true refresh_failed true refl) refl;
          none_ran = v.none_ran;
          none_cut = v.none_cut;
        }

    conclude_at-IsConfirmed :
        (stage : Stage Num) (c : Running Num) (refreshed : Result Thrown Unit)
        (s : AgentsCallSession Num)
        → IsConfirmed ran cut s
        → IsConfirmed ran cut (conclude_at u services hooks stage c refreshed s)
    unfolding conclude_at
    conclude_at-IsConfirmed executing c refreshed s v = v
    conclude_at-IsConfirmed (refreshing r) c refreshed s v =
        conclude-IsConfirmed c.name c.call_id r (failed u services hooks refreshed) s v

    refresh_call-IsConfirmed :
        (waiting : Option (Running Num × List (Running Num))) (refreshed : Result Thrown Unit)
        (s : AgentsCallSession Num)
        → IsConfirmed ran cut s
        → IsConfirmed ran cut (refresh_call u services hooks waiting refreshed s)
    unfolding refresh_call
    refresh_call-IsConfirmed none refreshed s v = v
    refresh_call-IsConfirmed (some (c, others)) refreshed s v =
        conclude_at-IsConfirmed c.stage c refreshed (record s { running = others })
          (alike {s = s} refl refl refl refl v)

    step-IsConfirmed :
        (s : AgentsCallSession Num) (e : Event Num)
        → IsConfirmed ran cut s
        → IsConfirmed ran cut (step u services hooks s e)
    unfolding step start_call end_tool fail_update disconnect interrupt_audio observe_function_call
        record_caller_transcript_segment
    step-IsConfirmed s (tool_called name args call_id) v =
        let evidence = evidence_segment name call_id s in
        with_check-IsConfirmed s.handoff_confirmed name call_id (keep_evidence call_id evidence s)
          v.confirmed
          (keep_evidence_keeps (IsConfirmed ran cut) (λ t m h. alike {s = t} refl refl refl refl h)
            call_id evidence s v)
    step-IsConfirmed s (tool_answered call_id r tools) v =
        answer_call_keeps (IsConfirmed ran cut) u services hooks
          (λ t h. alike {s = t} refl refl refl refl h)
          (λ t cs h. alike {s = t} refl refl refl refl h)
          (take_first (is_executing call_id) s.running) r (record s { tools = tools })
          (alike {s = s} refl refl refl refl v)
    step-IsConfirmed s (tools_refreshed call_id refreshed tools) v =
        refresh_call-IsConfirmed (take_first (is_refreshing call_id) s.running) refreshed
          (record s { tools = tools }) (alike {s = s} refl refl refl refl v)
    step-IsConfirmed s interrupted v = rw (v.confirmed) (record {
      confirmed = refl;
      no_tools = v.no_tools;
      none_ran = v.none_ran;
      none_cut = v.none_cut;
    })
    step-IsConfirmed s (tool_ended name) v = ground arith
    step-IsConfirmed s update_failed v = ground arith
    step-IsConfirmed s disconnected v = ground arith
    step-IsConfirmed s (function_call call_id response_id) v = ground arith
    step-IsConfirmed s (transcript_recorded segment_id) v = ground arith

    run-IsConfirmed :
        (s : AgentsCallSession Num) (es : List (Event Num))
        → IsConfirmed ran cut s
        → IsConfirmed ran cut (run u services hooks s es)
    unfolding run
    run-IsConfirmed s [] v = v
    run-IsConfirmed s (e ∷ es) v =
        run-IsConfirmed (step u services hooks s e) es (step-IsConfirmed s e v)

  -- Once confirmed, no tool.
  abbrev NoTools : AgentsCallSession Num → Type 0
  NoTools s = (s.handoff_confirmed ≡ false) ⊎ (s.agent_tools ≡ [])

  with_check-NoTools :
      (b : Bool) (name call_id : String) (s : AgentsCallSession Num)
      → NoTools s
      → NoTools (with_check u services hooks b name call_id s)
  with_check-NoTools true name call_id s v = v
  with_check-NoTools false name call_id s v = v

  conclude_at-NoTools :
      (stage : Stage Num) (c : Running Num) (refreshed : Result Thrown Unit)
      (s : AgentsCallSession Num)
      → NoTools s
      → NoTools (conclude_at u services hooks stage c refreshed s)
  unfolding conclude_at conclude configure
  conclude_at-NoTools executing c refreshed s v = v
  conclude_at-NoTools (refreshing r) c refreshed s v =
      let escalation = is_escalation u services hooks c.name r in
      elim (Bool-cases (escalation || s.handoff_confirmed)) [
        | inl is ↦ inr (rw (is, or_true (failed u services hooks refreshed) true refl) refl)
        | inr is_not ↦ inl is_not
      ]

  refresh_call-NoTools :
      (waiting : Option (Running Num × List (Running Num))) (refreshed : Result Thrown Unit)
      (s : AgentsCallSession Num)
      → NoTools s
      → NoTools (refresh_call u services hooks waiting refreshed s)
  unfolding refresh_call
  refresh_call-NoTools none refreshed s v = v
  refresh_call-NoTools (some (c, others)) refreshed s v =
      conclude_at-NoTools c.stage c refreshed (record s { running = others }) v

  step-NoTools :
      (s : AgentsCallSession Num) (e : Event Num) → NoTools s → NoTools (step u services hooks s e)
  unfolding step start_call end_tool fail_update disconnect interrupt_audio observe_function_call
      record_caller_transcript_segment
  step-NoTools s (tool_called name args call_id) v =
      let evidence = evidence_segment name call_id s in
      with_check-NoTools s.handoff_confirmed name call_id (keep_evidence call_id evidence s)
        (keep_evidence_keeps NoTools (λ t m h. h) call_id evidence s v)
  step-NoTools s (tool_answered call_id r tools) v =
      answer_call_keeps NoTools u services hooks (λ t h. h) (λ t cs h. h)
        (take_first (is_executing call_id) s.running) r (record s { tools = tools }) v
  step-NoTools s (tools_refreshed call_id refreshed tools) v =
      refresh_call-NoTools (take_first (is_refreshing call_id) s.running) refreshed
        (record s { tools = tools }) v
  step-NoTools s interrupted v = ground arith
  step-NoTools s (tool_ended name) v = ground arith
  step-NoTools s update_failed v = v
  step-NoTools s disconnected v = v
  step-NoTools s (function_call call_id response_id) v = v
  step-NoTools s (transcript_recorded segment_id) v = v

  run-NoTools :
      (s : AgentsCallSession Num) (es : List (Event Num))
      → NoTools s
      → NoTools (run u services hooks s es)
  unfolding run
  run-NoTools s [] v = v
  run-NoTools s (e ∷ es) v = run-NoTools (step u services hooks s e) es (step-NoTools s e v)

  -- In a session in which the transfer was confirmed, whatever happens next, with other calls still
  -- under way or not: it stays confirmed, the agent has no tool, no further tool is called, and the
  -- audio is not interrupted.
  pub run-IsStillConfirmed :
      (tools : CallToolSession Num) (es later : List (Event Num))
      → (run u services hooks (new_call_session u tools) es).handoff_confirmed ≡ true
      → (let before = run u services hooks (new_call_session u tools) es in
          IsConfirmed
            (keep is_invoked before.effects)
            (keep is_interrupt before.effects)
            (run u services hooks before later))
  unfolding new_call_session
  run-IsStillConfirmed tools es later h =
      let before = run u services hooks (new_call_session u tools) es in
      run-IsConfirmed (keep is_invoked before.effects) (keep is_interrupt before.effects) before
        later
        (record {
          confirmed = h;
          no_tools = ground (arith, run-NoTools (new_call_session u tools) es (inl refl));
          none_ran = refl;
          none_cut = refl;
        })
