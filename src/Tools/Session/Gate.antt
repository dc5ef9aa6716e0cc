-- ===== src/Tools/Session/Gate.antt =====
-- Which tools can run: those offered, and the own commands of the session's service.
use ctrl_alt_ship.Prelude.{
  String, ◌≡◌, refl, ◌⊎◌, inl, inr, true, false, ◌||◌, Option, List, ◌∷◌, arith, includes, ◌==◌,
  eq_iff, Bool-cases, Result, ok, err, ◌∙◌, sym,
}
use mathlib.Core.Path.{subst}
use ctrl_alt_ship.Js.{Value}
use ctrl_alt_ship.ToolError.{Thrown, tool_error, tool_unavailable}
use ctrl_alt_ship.Tools.Session.Definitions.{
  Setup, CallToolSession, escalation_controls, definitions,
}
use ctrl_alt_ship.Tools.Session.Reads.{Quiet, same, refresh-IsRead}
use ctrl_alt_ship.Tools.Session.Offers.{offered-pending, offered-free}
use ctrl_alt_ship.Tools.Session.Execution.{
  ToolInvocation, SessionCall, invoke, Services, next, ◌>>◌, registry_execute, refresh, is_offered,
  is_own_command, if_controlled, choose-true, choose-false, execute_in_flow, demand_offered,
}

module _ {Num Output : Type 0} (u : Setup) (services : Services Num Output) where
  -- Why a tool may run: a control of the pending escalation, an own command of the session's
  -- service, or a tool that the session, as just read, offers.
  pub data MayRun (before after : CallToolSession Num) (name : String) : Type 0 where
    as_control :
        before.pending_escalation ≡ true
        → includes escalation_controls name ≡ true
        → MayRun before after name
    as_command :
        before.pending_escalation ≡ false
        → includes escalation_controls name ≡ false
        → is_own_command u services name ≡ true
        → MayRun before after name
    as_offered :
        before.pending_escalation ≡ false
        → includes escalation_controls name ≡ false
        → includes (definitions u after) name ≡ true
        → MayRun before after name

  module _ (name : String) (args : Value Num) (invocation : Option ToolInvocation)
      (s : CallToolSession Num) (log : List (SessionCall Num)) where
    -- It throws and has at most read states.
    abbrev pub Stops : Result Thrown Output × CallToolSession Num × List (SessionCall Num) → Type 0
    Stops out =
        ((e : Thrown) × (out.0 ≡ err e))
        × Quiet log out.2
        × (out.1.pending_escalation ≡ s.pending_escalation)

    -- It has called the registered tool `name` once, and last, and gives that tool's answer.
    abbrev pub Runs : Result Thrown Output × CallToolSession Num × List (SessionCall Num) → Type 0
    Runs out =
        (l : List (SessionCall Num)) × Quiet log l
        × (out.2 ≡ invoke name args invocation ∷ l)
        × (out.0 ≡ services.tool (invoke name args invocation ∷ l))
        × (out.1.pending_escalation ≡ s.pending_escalation)
        × (includes u.tools name ≡ true)
        × MayRun s out.1 name

    call-gate :
        (s' : CallToolSession Num) (l : List (SessionCall Num))
        → Quiet log l
        → s'.pending_escalation ≡ s.pending_escalation
        → (includes u.tools name ≡ true → MayRun s s' name)
        → Stops (registry_execute u services name args invocation s' l)
          ⊎ Runs (registry_execute u services name args invocation s' l)
    unfolding registry_execute
    call-gate s' l q p may = elim (Bool-cases (includes u.tools name)) [
      | inl registered ↦ inr (rw registered (l, q, refl, refl, p, refl, may registered))
      | inr unknown ↦ inl (rw unknown ((tool_error tool_unavailable, refl), q, p))
    ]

    offered-gate :
        (s' : CallToolSession Num) (l : List (SessionCall Num))
        → Quiet log l
        → s'.pending_escalation ≡ s.pending_escalation
        → (includes (definitions u s') name ≡ true → MayRun s s' name)
        → Stops (
            (demand_offered u services name >> registry_execute u services name args invocation) s'
              l)
          ⊎ Runs (
              (demand_offered u services name >> registry_execute u services name args invocation)
                s' l)
    unfolding is_offered
    offered-gate s' l q p may = elim (Bool-cases (includes (definitions u s') name)) [
      | inl offered ↦ rw offered (call-gate s' l q p (λ _. may offered))
      | inr hidden ↦ inl (rw hidden ((tool_error tool_unavailable, refl), q, p))
    ]

    after_refresh-gate :
        (r : Result Thrown Unit) (s' : CallToolSession Num) (l : List (SessionCall Num))
        → Quiet log l
        → s'.pending_escalation ≡ s.pending_escalation
        → (includes (definitions u s') name ≡ true → MayRun s s' name)
        → Stops (
            next r
              (λ _.
                demand_offered u services name >> registry_execute u services name args invocation)
              s'
              l)
          ⊎ Runs (
              next r
                (λ _.
                  demand_offered u services name
                  >> registry_execute u services name args invocation)
                s'
                l)
    after_refresh-gate (ok x) s' l q p may = offered-gate s' l q p may
    after_refresh-gate (err e) s' l q p may = inl ((e, refl), q, p)

    not_control :
        (name == "confirm_escalation" || name == "cancel_escalation") ≡ false
        → includes escalation_controls name ≡ false
    not_control h = ground (
      arith,
      eq_iff "confirm_escalation" name,
      eq_iff "cancel_escalation" name,
      eq_iff name "confirm_escalation",
      eq_iff name "cancel_escalation",
    )

    abbrev pub Gated : Result Thrown Output × CallToolSession Num × List (SessionCall Num) → Type 0
    Gated out = Stops out ⊎ Runs out

    -- A call through the flow either throws, having at most read states, or has called the registered
    -- tool of that name once, and last, and gives its answer. It has then run a control of the pending
    -- escalation, or, with none pending, a command of the session's own service or a tool offered by the
    -- state as last read. The pending escalation itself is left alone.
    pub flow-gate : Gated (execute_in_flow u services name args invocation s log)
    unfolding execute_in_flow
    flow-gate = elim (Bool-cases s.pending_escalation) [
      | inl pending ↦
          subst Gated (sym (choose-true _ _ s log (if_controlled u services s name) (ground arith)))
            (offered-gate s log same refl
              (λ offered. as_control pending (offered-pending u s name pending offered)))
      | inr free ↦ elim (Bool-cases (name == "confirm_escalation" || name == "cancel_escalation")) [
        | inl control ↦
            subst Gated
              (sym (choose-true _ _ s log (if_controlled u services s name) (ground arith)))
              (offered-gate s log same refl
                (λ offered. as_offered free (offered-free u s name free offered) offered))
        | inr other ↦ elim (Bool-cases (is_own_command u services name)) [
          | inl own ↦
              subst Gated
                (sym (
                  choose-false _ _ s log (if_controlled u services s name) (ground arith)
                  ∙ choose-true _ _ s log (is_own_command u services name) own))
                (call-gate s log same refl (λ _. as_command free (not_control other) own))
          | inr foreign ↦
              let (q, p) = (refresh-IsRead u services).at log s log same in
              subst Gated
                (sym (
                  choose-false _ _ s log (if_controlled u services s name) (ground arith)
                  ∙ choose-false _ _ s log (is_own_command u services name) foreign))
                (after_refresh-gate (refresh u services s log).0 (refresh u services s log).1
                  (refresh u services s log).2 q p
                  (λ offered.
                    as_offered free
                      (offered-free u (refresh u services s log).1 name (p ∙ free) offered)
                      offered))
        ]
      ]
    ]

    pub pending_kept :
        (execute_in_flow u services name args invocation s log).1.pending_escalation
        ≡ s.pending_escalation
    pending_kept = elim flow-gate [ inl stops ↦ stops.2 | inr runs ↦ runs.4 ]
