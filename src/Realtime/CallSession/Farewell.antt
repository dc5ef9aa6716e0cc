-- ===== src/Realtime/CallSession/Farewell.antt =====
-- The farewell before the transfer.
use ctrl_alt_ship.Prelude.{
  String, ℕ, ◌≤◌, ◌+◌, ◌≡◌, refl, ap, sym, ◌∙◌, ◌⊎◌, Bool, true, false, ◌&&◌, ◌==◌, List, [], ◌∷◌,
  if◌then◌else◌, none, some, Bool-cases, inl, inr, Result, ok, err, arith,
}
use mathlib.Core.Path.{subst}
use ctrl_alt_ship.Js.{Value}
use ctrl_alt_ship.ToolError.{Thrown}
use ctrl_alt_ship.Tools.Session.Definitions.{Setup, CallToolSession}
use ctrl_alt_ship.Tools.Session.Execution.{Services}
use ctrl_alt_ship.Realtime.CallSession.{
  Hooks, Effect, farewell, interrupt, emit, AgentsCallSession, new_call_session, Stage, executing,
  refreshing, Running, Event, tool_called, tool_answered, tools_refreshed, tool_ended,
  update_failed, disconnected, interrupted, function_call, transcript_recorded, step, run,
  start_call, with_check, answer_call, refresh_call, conclude_at, conclude, is_escalation, pick,
  take_first, at_tool, is_executing, is_refreshing, keep_evidence, note_progress, evidence_segment,
  end_tool, configure, fail_update, disconnect, interrupt_audio, observe_function_call,
  record_caller_transcript_segment,
}
use ctrl_alt_ship.Realtime.CallSession.Keeps.{keep_evidence_keeps, note_progress_keeps}

abbrev pub farewells : List Effect → ℕ
farewells [] = 0
farewells (farewell ∷ es) = 1 + farewells es
farewells (_ ∷ es) = farewells es

abbrev pub count : Bool → ℕ
count b = if b then 1 else 0

-- A call whose end confirms nothing: its result is an error.
abbrev Harmless : {Num : Type 0} → Stage Num → Type 0
Harmless executing = ⊥
Harmless (refreshing (ok result)) = ⊥
Harmless (refreshing (err e)) = Unit

-- At most one call is under way; while it may confirm the transfer, nothing else has.
abbrev OneInFlight : {Num : Type 0} → Bool → List (Running Num) → Type 0
OneInFlight confirmed [] = Unit
OneInFlight confirmed (c ∷ []) = Harmless c.stage ⊎ (confirmed ≡ false)
OneInFlight confirmed (c ∷ d ∷ cs) = ⊥

-- The farewells asked for and the one that is to come are at most one, and none before the transfer
-- is confirmed.
record FarewellsFit {Num : Type 0} (s : AgentsCallSession Num) : Type 0 where
  counted : farewells s.effects + count s.escalation_ready ≤ count s.handoff_confirmed
  one : OneInFlight s.handoff_confirmed s.running

take-one :
    {Num : Type 0} (test : Running Num → Bool) (b : Bool) (cs : List (Running Num))
    → OneInFlight b cs
    → (take_first test cs ≡ none)
      ⊎ ((c : Running Num) × (take_first test cs ≡ some (c, []))
          × (test c ≡ true)
          × (Harmless c.stage ⊎ (b ≡ false)))
take-one test b [] h = inl refl
take-one test b (c ∷ []) h = elim (Bool-cases (test c)) [
  | inl passes ↦ inr (c, ap (λ t. pick t c [] none) passes, passes, h)
  | inr fails ↦ inl (ap (λ t. pick t c [] none) fails)
]
take-one test b (c ∷ d ∷ cs) h = elim h [ ]

and_right : (a b : Bool) → (a && b) ≡ true → b ≡ true
and_right a b h = ground (arith, h)

executing-false :
    {Num : Type 0} (a b : Bool) (stage : Stage Num)
    → (a && at_tool stage) ≡ true
    → Harmless stage ⊎ (b ≡ false)
    → b ≡ false
executing-false a b executing h (inl x) = elim x [ ]
executing-false a b executing h (inr f) = f
executing-false a b (refreshing r) h v = ground (arith, h)

-- A call of a tool begins only where no other waits.
abbrev BeginsAlone : {Num : Type 0} → List (Running Num) → Event Num → Type 0
BeginsAlone running (tool_called name args call_id) = running ≡ []
BeginsAlone running _ = Unit

module _ {Num : Type 0} (u : Setup) (services : Services Num (Value Num)) (hooks : Hooks) where
  -- The SDK runs no calls of tools in parallel, as it is told (`parallelToolCalls: false`).
  abbrev pub Sequential : AgentsCallSession Num → List (Event Num) → Type 0
  Sequential s [] = Unit
  Sequential s (e ∷ es) = BeginsAlone s.running e × Sequential (step u services hooks s e) es

  -- The session after is as before in what counts here, up to the calls under way.
  abbrev Alike : AgentsCallSession Num → AgentsCallSession Num → Type 0
  Alike s t =
      (farewells t.effects ≡ farewells s.effects)
      × (t.escalation_ready ≡ s.escalation_ready)
      × (t.handoff_confirmed ≡ s.handoff_confirmed)

  counted-Alike :
      (s t : AgentsCallSession Num)
      → Alike s t
      → farewells s.effects + count s.escalation_ready ≤ count s.handoff_confirmed
      → farewells t.effects + count t.escalation_ready ≤ count t.handoff_confirmed
  counted-Alike s t (e, r, c) h = omega (arith, e, ap count r, ap count c, h)

  with_check-FarewellsFit :
      (b : Bool) (name call_id : String) (s : AgentsCallSession Num)
      → s.handoff_confirmed ≡ b
      → s.running ≡ []
      → farewells s.effects + count s.escalation_ready ≤ count s.handoff_confirmed
      → FarewellsFit (with_check u services hooks b name call_id s)
  with_check-FarewellsFit true name call_id s h alone v = record {
    counted = v;
    one = rw alone (inl tt);
  }
  with_check-FarewellsFit false name call_id s h alone v = record {
    counted = v;
    one = rw alone (inr h);
  }

  answer_one :
      (a : Bool) (c : Running Num) (r : Result Thrown (Value Num)) (s : AgentsCallSession Num)
      → (a && at_tool c.stage) ≡ true
      → Harmless c.stage ⊎ (s.handoff_confirmed ≡ false)
      → farewells s.effects + count s.escalation_ready ≤ count s.handoff_confirmed
      → FarewellsFit (answer_call u services hooks (some (c, [])) r s)
  unfolding answer_call
  answer_one a c r s t h v =
      let noted =
        note_progress_keeps (Alike s) u services hooks (λ t h. h) c.name r s (refl, refl, refl) in
      record {
        counted = counted-Alike s (note_progress u services hooks c.name r s).1 noted v;
        one = inr (noted.2 ∙ executing-false a s.handoff_confirmed c.stage t h);
      }

  conclude_one :
      (stage : Stage Num) (c : Running Num) (refreshed : Result Thrown Unit)
      (s : AgentsCallSession Num)
      → s.running ≡ []
      → Harmless stage ⊎ (s.handoff_confirmed ≡ false)
      → farewells s.effects + count s.escalation_ready ≤ count s.handoff_confirmed
      → FarewellsFit (conclude_at u services hooks stage c refreshed s)
  unfolding conclude_at conclude configure is_escalation
  conclude_one executing c refreshed s alone h v = record { counted = v; one = rw alone tt }
  conclude_one (refreshing (err e)) c refreshed s alone h v = record {
    counted = omega (arith, v);
    one = rw alone tt;
  }
  conclude_one (refreshing (ok result)) c refreshed s alone (inl x) v = elim x [ ]
  conclude_one (refreshing (ok result)) c refreshed s alone (inr f) v =
      elim (Bool-cases (is_escalation u services hooks c.name (ok result))) [
        | inl is ↦ record { counted = rw is (omega (arith, v, ap count f)); one = rw alone tt }
        | inr is_not ↦ record {
          counted = rw is_not (omega (arith, v, ap count f));
          one = rw alone tt;
        }
      ]

  answer_none :
      (r : Result Thrown (Value Num)) (s : AgentsCallSession Num)
      → FarewellsFit s
      → FarewellsFit (answer_call u services hooks none r s)
  unfolding answer_call
  answer_none r s v = v

  refresh_none :
      (r : Result Thrown Unit) (s : AgentsCallSession Num)
      → FarewellsFit s
      → FarewellsFit (refresh_call u services hooks none r s)
  unfolding refresh_call
  refresh_none r s v = v

  refresh_one :
      (c : Running Num) (r : Result Thrown Unit) (s : AgentsCallSession Num)
      → Harmless c.stage ⊎ (s.handoff_confirmed ≡ false)
      → farewells s.effects + count s.escalation_ready ≤ count s.handoff_confirmed
      → FarewellsFit (refresh_call u services hooks (some (c, [])) r s)
  unfolding refresh_call
  refresh_one c r s h v = conclude_one c.stage c r (record s { running = [] }) refl h v

  step-answered :
      (s : AgentsCallSession Num) (call_id : String) (r : Result Thrown (Value Num))
      (tools : CallToolSession Num)
      → FarewellsFit s
      → FarewellsFit (step u services hooks s (tool_answered call_id r tools))
  unfolding step
  step-answered s call_id r tools v =
      let s' : AgentsCallSession Num = record s { tools = tools } in
      elim (take-one (is_executing call_id) s.handoff_confirmed s.running v.one) [
        | inl absent ↦
            subst (λ w. FarewellsFit (answer_call u services hooks w r s')) (sym absent)
              (answer_none r s' (record { counted = v.counted; one = v.one }))
        | inr (c, found, passes, h) ↦
            subst (λ w. FarewellsFit (answer_call u services hooks w r s')) (sym found)
              (answer_one (c.call_id == call_id) c r s' passes h v.counted)
      ]

  step-refreshed :
      (s : AgentsCallSession Num) (call_id : String) (r : Result Thrown Unit)
      (tools : CallToolSession Num)
      → FarewellsFit s
      → FarewellsFit (step u services hooks s (tools_refreshed call_id r tools))
  unfolding step
  step-refreshed s call_id r tools v =
      let s' : AgentsCallSession Num = record s { tools = tools } in
      elim (take-one (is_refreshing call_id) s.handoff_confirmed s.running v.one) [
        | inl absent ↦
            subst (λ w. FarewellsFit (refresh_call u services hooks w r s')) (sym absent)
              (refresh_none r s' (record { counted = v.counted; one = v.one }))
        | inr (c, found, passes, h) ↦
            subst (λ w. FarewellsFit (refresh_call u services hooks w r s')) (sym found)
              (refresh_one c r s' h v.counted)
      ]

  end_tool-FarewellsFit :
      (name : String) (s : AgentsCallSession Num)
      → FarewellsFit s
      → FarewellsFit (end_tool u services hooks name s)
  unfolding end_tool
  end_tool-FarewellsFit name s v =
      elim (Bool-cases (name == "confirm_escalation" && s.escalation_ready)) [
        | inl is ↦ elim (Bool-cases hooks.on_escalation_ready) [
          | inl hook ↦
              rw (is, hook)
                (record {
                  counted = omega (
                    arith,
                    v.counted,
                    ap count (and_right (name == "confirm_escalation") s.escalation_ready is),
                  );
                  one = v.one;
                })
          | inr no_hook ↦
              rw (is, no_hook) (record { counted = omega (arith, v.counted); one = v.one })
        ]
        | inr is_not ↦ rw is_not v
      ]

  step-FarewellsFit :
      (s : AgentsCallSession Num) (e : Event Num)
      → BeginsAlone s.running e
      → FarewellsFit s
      → FarewellsFit (step u services hooks s e)
  unfolding step start_call fail_update disconnect interrupt_audio observe_function_call
      record_caller_transcript_segment
  step-FarewellsFit s (tool_called name args call_id) alone v =
      let evidence = evidence_segment name call_id s in
      let kept = keep_evidence call_id evidence s in
      let alike =
        keep_evidence_keeps (Alike s) (λ t m h. h) call_id evidence s (refl, refl, refl) in
      with_check-FarewellsFit s.handoff_confirmed name call_id kept alike.2
        (keep_evidence_keeps (λ t. t.running ≡ []) (λ t m h. h) call_id evidence s alone)
        (counted-Alike s kept alike v.counted)
  step-FarewellsFit s (tool_answered call_id r tools) alone v = step-answered s call_id r tools v
  step-FarewellsFit s (tools_refreshed call_id r tools) alone v = step-refreshed s call_id r tools v
  step-FarewellsFit s (tool_ended name) alone v = end_tool-FarewellsFit name s v
  step-FarewellsFit s update_failed alone v = record {
    counted = omega (arith, v.counted);
    one = v.one;
  }
  step-FarewellsFit s disconnected alone v = record { counted = v.counted; one = v.one }
  step-FarewellsFit s interrupted alone v = elim (Bool-cases s.handoff_confirmed) [
    | inl is ↦ subst (λ b. FarewellsFit (if b then s else emit interrupt s)) (sym is) v
    | inr is_not ↦
        subst (λ b. FarewellsFit (if b then s else emit interrupt s)) (sym is_not)
          (record { counted = v.counted; one = v.one })
  ]
  step-FarewellsFit s (function_call call_id response_id) alone v = record {
    counted = v.counted;
    one = v.one;
  }
  step-FarewellsFit s (transcript_recorded segment_id) alone v = record {
    counted = v.counted;
    one = v.one;
  }

  run-FarewellsFit :
      (s : AgentsCallSession Num) (es : List (Event Num))
      → Sequential s es
      → FarewellsFit s
      → FarewellsFit (run u services hooks s es)
  unfolding run
  run-FarewellsFit s [] q v = v
  run-FarewellsFit s (e ∷ es) (alone, q) v =
      run-FarewellsFit (step u services hooks s e) es q (step-FarewellsFit s e alone v)

  -- Where the SDK begins no call of a tool while another waits for its tool or its refresh: whatever
  -- a new session goes through, the farewell is asked for at most once, and not before a transfer is
  -- confirmed.
  pub farewells-le :
      (tools : CallToolSession Num) (es : List (Event Num))
      → Sequential (new_call_session u tools) es
      → (let after = run u services hooks (new_call_session u tools) es in
          farewells after.effects ≤ count after.handoff_confirmed)
  unfolding new_call_session
  farewells-le tools es q =
      let v =
        run-FarewellsFit (new_call_session u tools) es q
          (record { counted = omega arith; one = tt }) in
      omega (arith, v.counted)
