-- ===== src/Realtime/CallSession/Evidence.antt =====
-- What the session remembers by the identifiers of tool calls.
use ctrl_alt_ship.Prelude.{
  String, ◌≡◌, refl, ap, ◌∙◌, ◌⊎◌, Bool, true, false, List, [], ◌∷◌, Option, none, some, Bool-cases,
  All, inl, inr, ◌==◌, eq_iff, Result, arith,
}
use ctrl_alt_ship.Js.{Value, find_key, find_key-set_key, find_key-set_other}
use ctrl_alt_ship.ToolError.{Thrown}
use ctrl_alt_ship.Tools.Session.Definitions.{Setup}
use ctrl_alt_ship.Tools.Session.Execution.{Services}
use ctrl_alt_ship.Realtime.CallSession.{
  Hooks, AgentsCallSession, Stage, executing, refreshing, Running, Event, tool_called,
  tool_answered, tools_refreshed, tool_ended, update_failed, disconnected, interrupted,
  function_call, transcript_recorded, step, run, start_call, with_check, answer_call, refresh_call,
  conclude_at, conclude, take_first, is_executing, is_refreshing, keep_evidence, evidence_segment,
  end_tool, configure, fail_update, disconnect, interrupt_audio, observe_function_call,
  record_caller_transcript_segment,
}
use ctrl_alt_ship.Realtime.CallSession.Keeps.{answer_call_keeps}

abbrev pub keeps_connection : {Num : Type 0} → Event Num → Bool
keeps_connection disconnected = false
keeps_connection _ = true

module _ {Num : Type 0} (u : Setup) (services : Services Num (Value Num)) (hooks : Hooks) where
  -- The two memories.
  abbrev SameMemory : AgentsCallSession Num → AgentsCallSession Num → Type 0
  SameMemory s t =
      (t.evidence_by_tool_call ≡ s.evidence_by_tool_call)
      × (t.response_by_tool_call ≡ s.response_by_tool_call)

  with_check-memory :
      (b : Bool) (name call_id : String) (s : AgentsCallSession Num)
      → SameMemory s (with_check u services hooks b name call_id s)
  with_check-memory true name call_id s = (refl, refl)
  with_check-memory false name call_id s = (refl, refl)

  start_call-memory :
      (name call_id : String) (s : AgentsCallSession Num)
      → SameMemory
          (keep_evidence call_id (evidence_segment name call_id s) s)
          (start_call u services hooks name call_id s)
  unfolding start_call
  start_call-memory name call_id s =
      with_check-memory s.handoff_confirmed name call_id
        (keep_evidence call_id (evidence_segment name call_id s) s)

  answer_call-memory :
      (waiting : Option (Running Num × List (Running Num))) (r : Result Thrown (Value Num))
      (s : AgentsCallSession Num)
      → SameMemory s (answer_call u services hooks waiting r s)
  answer_call-memory waiting r s =
      answer_call_keeps (SameMemory s) u services hooks (λ t h. h) (λ t cs h. h) waiting r s
        (refl, refl)

  conclude_at-memory :
      (stage : Stage Num) (c : Running Num) (refreshed : Result Thrown Unit)
      (s : AgentsCallSession Num)
      → SameMemory s (conclude_at u services hooks stage c refreshed s)
  unfolding conclude_at conclude configure
  conclude_at-memory executing c refreshed s = (refl, refl)
  conclude_at-memory (refreshing r) c refreshed s = (refl, refl)

  refresh_call-memory :
      (waiting : Option (Running Num × List (Running Num))) (refreshed : Result Thrown Unit)
      (s : AgentsCallSession Num)
      → SameMemory s (refresh_call u services hooks waiting refreshed s)
  unfolding refresh_call
  refresh_call-memory none refreshed s = (refl, refl)
  refresh_call-memory (some (c, others)) refreshed s =
      conclude_at-memory c.stage c refreshed (record s { running = others })

  module _ (call_id id : String) where
    abbrev Remembers : AgentsCallSession Num → Type 0
    Remembers s = find_key call_id s.evidence_by_tool_call ≡ some id

    evidence_segment-remembered :
        (s : AgentsCallSession Num)
        → Remembers s
        → evidence_segment "create_quote" call_id s ≡ some id
    unfolding evidence_segment
    evidence_segment-remembered s h = rw h refl

    keep_evidence-Remembers :
        (key : String) (evidence : Option String) (s : AgentsCallSession Num)
        → Remembers s
        → ((key == call_id) ≡ true → (evidence ≡ none) ⊎ (evidence ≡ some id))
        → Remembers (keep_evidence key evidence s)
    keep_evidence-Remembers key none s h k = h
    keep_evidence-Remembers key (some e) s h k = elim (Bool-cases (e == "")) [
      | inl empty ↦ rw empty h
      | inr given ↦ elim (Bool-cases (key == call_id)) [
        | inl same ↦ elim (k same) [
          | inl absent ↦ cc
          | inr found ↦
              rw (given, (eq_iff key call_id).0 same)
                (find_key-set_key call_id e s.evidence_by_tool_call ∙ found)
        ]
        | inr other ↦ rw given (find_key-set_other key call_id e s.evidence_by_tool_call other ∙ h)
      ]
    ]

    evidence_segment-ok :
        (name key : String) (s : AgentsCallSession Num)
        → Remembers s
        → (key == call_id) ≡ true
        → (evidence_segment name key s ≡ none) ⊎ (evidence_segment name key s ≡ some id)
    unfolding evidence_segment
    evidence_segment-ok name key s h same = elim (Bool-cases (name == "create_quote")) [
      | inl is ↦ inr (rw (is, (eq_iff key call_id).0 same, h) refl)
      | inr is_not ↦ inl (rw is_not refl)
    ]

    step-Remembers :
        (s : AgentsCallSession Num) (e : Event Num)
        → keeps_connection e ≡ true
        → Remembers s
        → Remembers (step u services hooks s e)
    unfolding step end_tool fail_update disconnect interrupt_audio observe_function_call
        record_caller_transcript_segment
    step-Remembers s (tool_called name args key) c h =
        ap (find_key call_id) (start_call-memory name key s).0
        ∙ keep_evidence-Remembers key (evidence_segment name key s) s h
            (evidence_segment-ok name key s h)
    step-Remembers s (tool_answered key r tools) c h =
        ap (find_key call_id)
          (answer_call-memory (take_first (is_executing key) s.running) r
            (record s { tools = tools })).0
        ∙ h
    step-Remembers s (tools_refreshed key r tools) c h =
        ap (find_key call_id)
          (refresh_call-memory (take_first (is_refreshing key) s.running) r
            (record s { tools = tools })).0
        ∙ h
    step-Remembers s (tool_ended name) c h = ground arith
    step-Remembers s update_failed c h = h
    step-Remembers s disconnected c h = cc
    step-Remembers s interrupted c h = ground arith
    step-Remembers s (function_call key response_id) c h = h
    step-Remembers s (transcript_recorded segment_id) c h = h

    run-Remembers :
        (s : AgentsCallSession Num) (es : List (Event Num))
        → All (λ e. keeps_connection e ≡ true) es
        → Remembers s
        → Remembers (run u services hooks s es)
    unfolding run
    run-Remembers s [] c h = h
    run-Remembers s (e ∷ es) (c, cs) h =
        run-Remembers (step u services hooks s e) es cs (step-Remembers s e c h)

  keep_evidence-given :
      (call_id id : String) (s : AgentsCallSession Num)
      → (id == "") ≡ false
      → Remembers call_id id (keep_evidence call_id (some id) s)
  keep_evidence-given call_id id s given =
      rw given (find_key-set_key call_id id s.evidence_by_tool_call)

  -- While the call stays connected, a quote that is sent again under the same tool call carries the
  -- caller's words that it carried at first, whatever was said and done in between.
  pub evidence_segment-again :
      (s : AgentsCallSession Num) (args : Value Num) (call_id id : String) (es : List (Event Num))
      → evidence_segment "create_quote" call_id s ≡ some id
      → (id == "") ≡ false
      → All (λ e. keeps_connection e ≡ true) es
      → evidence_segment "create_quote" call_id (
          run u services hooks
            (step u services hooks s (tool_called "create_quote" args call_id))
            es)
        ≡ some id
  unfolding step
  evidence_segment-again s args call_id id es first given c =
      let begun = start_call u services hooks "create_quote" call_id s in
      evidence_segment-remembered call_id id (run u services hooks begun es) (
        run-Remembers call_id id begun es c (
          ap (find_key call_id) ((start_call-memory "create_quote" call_id s).0)
          ∙ rw first (keep_evidence-given call_id id s given)))
