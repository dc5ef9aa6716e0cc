-- ===== src/Realtime/CallSession/Keeps.antt =====
-- What holds of a session through the steps that change little of it.
use ctrl_alt_ship.Prelude.{
  String, Bool-cases, inl, inr, ◌==◌, if◌then◌else◌, List, ◌∷◌, Option, none, some, Result, ok, err,
}
use ctrl_alt_ship.Js.{Value}
use ctrl_alt_ship.ToolError.{Thrown}
use ctrl_alt_ship.Tools.Session.Definitions.{Setup}
use ctrl_alt_ship.Tools.Session.Execution.{Services}
use ctrl_alt_ship.Realtime.CallSession.{
  Hooks, Effect, progress, emit, AgentsCallSession, Running, keep_evidence, hook_answer, with_hook,
  note_progress, answer_call,
}

module _ {Num : Type 0} (P : AgentsCallSession Num → Type 0) where
  pub keep_evidence_keeps :
      ((s : AgentsCallSession Num) (m : List (String × String))
        → P s
        → P (record s { evidence_by_tool_call = m }))
      → (call_id : String) (evidence : Option String) (s : AgentsCallSession Num) → P s
      → P (keep_evidence call_id evidence s)
  keep_evidence_keeps k call_id none s h = h
  keep_evidence_keeps k call_id (some id) s h = elim (Bool-cases (id == "")) [
    | inl empty ↦ rw empty h
    | inr other ↦ rw other (k s _ h)
  ]

  module _ (u : Setup) (services : Services Num (Value Num)) (hooks : Hooks)
      (noted : (s : AgentsCallSession Num) → P s → P (emit progress s)) where
    hook_answer_keeps :
        (result : Value Num) (answer : Result Thrown Unit) (s : AgentsCallSession Num)
        → P s
        → P (hook_answer u services hooks result answer s).1
    hook_answer_keeps result (ok x) s h = h
    hook_answer_keeps result (err e) s h = h

    with_hook_keeps :
        (hook : Option (List Effect → Result Thrown Unit)) (result : Value Num)
        (s : AgentsCallSession Num)
        → P s
        → P (with_hook u services hooks hook result s).1
    with_hook_keeps none result s h = h
    with_hook_keeps (some answer) result s h =
        hook_answer_keeps result (answer (progress ∷ s.effects)) (emit progress s) (noted s h)

    pub note_progress_keeps :
        (name : String) (r : Result Thrown (Value Num)) (s : AgentsCallSession Num)
        → P s
        → P (note_progress u services hooks name r s).1
    unfolding note_progress
    note_progress_keeps name (ok result) s h =
        with_hook_keeps (if name == "escalate" then none else hooks.on_progress) result s h
    note_progress_keeps name (err e) s h = h

    -- Where the calls under way do not matter.
    pub answer_call_keeps :
        ((s : AgentsCallSession Num) (cs : List (Running Num))
          → P s
          → P (record s { running = cs }))
        → (waiting : Option (Running Num × List (Running Num))) (r : Result Thrown (Value Num))
          (s : AgentsCallSession Num)
        → P s
        → P (answer_call u services hooks waiting r s)
    unfolding answer_call
    answer_call_keeps k none r s h = h
    answer_call_keeps k (some (c, others)) r s h =
        k (note_progress u services hooks c.name r s).1 _ (note_progress_keeps c.name r s h)
