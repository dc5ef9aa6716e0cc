-- ===== src/Tools/Session/Escalations.antt =====
-- The pending escalation of a session, and what a failed refresh leaves.
use ctrl_alt_ship.Prelude.{
  String, ◌≡◌, refl, ◌⊎◌, inl, inr, Bool, true, false, Option, List, [], arith, ◌==◌, if◌then◌else◌,
  Result, ok, err,
}
use mathlib.Core.Path.{subst}
use ctrl_alt_ship.Js.{Value}
use ctrl_alt_ship.Tools.Session.Gate.{pending_kept}
use ctrl_alt_ship.ToolError.{Thrown}
use ctrl_alt_ship.Tools.Session.Definitions.{Setup, CallToolSession, definitions}
use ctrl_alt_ship.Tools.Session.Execution.{
  ToolInvocation, SessionCall, Services, next, noted, refresh, execute_in_flow, execute,
  note_escalation,
}

module _ {Num Output : Type 0} (u : Setup) (services : Services Num Output) where
  -- A refresh that fails leaves a session that offers no tool.
  definitions-refresh_failed :
      (s : CallToolSession Num) (log : List (SessionCall Num)) (e : Thrown)
      → (refresh u services s log).0 ≡ err e
      → definitions u (refresh u services s log).1 ≡ []
  unfolding refresh definitions
  definitions-refresh_failed s log e h = ground arith

  abbrev pub NotedAs : Result Thrown Output → String → Bool → Bool → Type 0
  NotedAs r name before after =
      ((e : Thrown) × (r ≡ err e) × (after ≡ before))
      ⊎ ((result : Output) × (r ≡ ok result)
          × (after ≡ (
              if name == "escalate"
              then true
              else if name == "cancel_escalation"
              then false
              else before)))

  module _ (name : String) (args : Value Num) (invocation : Option ToolInvocation) where
    noted-cases :
        (r : Result Thrown Output) (s : CallToolSession Num) (log : List (SessionCall Num))
        → ((next r (noted u services name) s log).0 ≡ r)
          × ((next r (noted u services name) s log).2 ≡ log)
          × NotedAs r name s.pending_escalation
              (next r (noted u services name) s log).1.pending_escalation
    unfolding note_escalation
    noted-cases (ok result) s log = (refl, refl, inr (result, refl, ground arith))
    noted-cases (err e) s log = (refl, refl, inl (e, refl, refl))

    -- `execute` gives the result and makes the calls of the flow's gate; an escalation is pending
    -- behind it just if `escalate` returned, or it was pending and no `cancel_escalation` returned.
    execute-noted :
        (s : CallToolSession Num) (log : List (SessionCall Num))
        → ((execute u services name args invocation s log).0
            ≡ (execute_in_flow u services name args invocation s log).0)
          × ((execute u services name args invocation s log).2
              ≡ (execute_in_flow u services name args invocation s log).2)
          × NotedAs
              (execute_in_flow u services name args invocation s log).0
              name
              s.pending_escalation
              (execute u services name args invocation s log).1.pending_escalation
    unfolding execute
    execute-noted s log =
        let out = execute_in_flow u services name args invocation s log in
        let (r, l, noted_as) = noted-cases out.0 out.1 out.2 in
        (
          r,
          l,
          subst
              (λ b.
                NotedAs out.0 name b
                  (next out.0 (noted u services name) out.1 out.2).1.pending_escalation)
              (pending_kept u services name args invocation s log) noted_as,
        )
