-- ===== src/Handoff/Confirmation.antt =====
-- When a transfer is asked for: after a confirmation, and never for a cancelled handoff.
use ctrl_alt_ship.Prelude.{
  String, ◌≡◌, refl, Bool, true, false, none, some, List, [], ◌∷◌, arith, All, eq_iff,
}
use ctrl_alt_ship.Handoff.{EscalationHandoff, can_return}
use ctrl_alt_ship.Handoff.System.{
  System, Event, initial, step, run, prepared, farewell_begun, speech_started, persisted,
  response_created, audio_stopped, tracked,
}
use ctrl_alt_ship.Handoff.Invariant.{IsValid}

-- The events by which the caller's confirmation reaches the coordinator.
abbrev pub confirms : Event → Bool
confirms farewell_begun = true
confirms (tracked id) = true
confirms _ = false

record IsUnconfirmed (s : System) : Type 0 where
  silent : s.coordinator.awaiting_farewell_response ≡ false
  untracked : s.coordinator.farewell_response_id ≡ none
  unasked : s.requests ≡ []

step-IsUnconfirmed :
    (s : System) (e : Event) → confirms e ≡ false → IsUnconfirmed s → IsUnconfirmed (step s e)
unfolding step
step-IsUnconfirmed s (prepared h) n v = ground arith
step-IsUnconfirmed s _ n v = ground arith

run-IsUnconfirmed :
    (s : System) (es : List Event)
    → All (λ e. confirms e ≡ false) es
    → IsUnconfirmed s
    → IsUnconfirmed (run s es)
unfolding run
run-IsUnconfirmed s [] n v = v
run-IsUnconfirmed s (e ∷ es) n v =
    run-IsUnconfirmed (step s e) es n.1 (step-IsUnconfirmed s e n.0 v)

-- Without a farewell that was begun or a response that was tracked, no transfer is ever asked for.
unconfirmed_no_request :
    (es : List Event) → All (λ e. confirms e ≡ false) es → (run initial es).requests ≡ []
unconfirmed_no_request es n =
    (run-IsUnconfirmed initial es n
      (record { silent = refl; untracked = refl; unasked = refl })).unasked

abbrev pub prepares : Event → Bool
prepares (prepared h) = true
prepares _ = false

record IsEmpty (s : System) : Type 0 where
  no_handoff : s.coordinator.handoff ≡ none
  unasked : s.requests ≡ []

step-IsEmpty : (s : System) (e : Event) → prepares e ≡ false → IsEmpty s → IsEmpty (step s e)
unfolding step
step-IsEmpty s (prepared h) n v = cc
step-IsEmpty s _ n v = ground arith

run-IsEmpty :
    (s : System) (es : List Event)
    → All (λ e. prepares e ≡ false) es
    → IsEmpty s
    → IsEmpty (run s es)
unfolding run
run-IsEmpty s [] n v = v
run-IsEmpty s (e ∷ es) n v = run-IsEmpty (step s e) es n.1 (step-IsEmpty s e n.0 v)

-- Once a cancellation is persisted, no transfer has been asked for, and none is until another
-- handoff is prepared.
cancelled_no_request :
    (s : System) (es : List Event)
    → IsValid s
    → s.persisting ≡ true
    → All (λ e. prepares e ≡ false) es
    → (run (step s (persisted true)) es).requests ≡ []
unfolding step
cancelled_no_request s es v h n =
    (run-IsEmpty (step s (persisted true)) es n
      (record { no_handoff = ground arith; unasked = ground arith })).unasked

-- A prepared handoff whose farewell is begun, answered by a response and spoken to its end is asked
-- for, also if the caller speaks meanwhile.
pub farewell_requests :
    (s : System) (h : EscalationHandoff) (id : String)
    → s.coordinator.handoff ≡ some h
    → can_return s.coordinator ≡ true
    → (run s (
        farewell_begun
        ∷ speech_started
        ∷ response_created id
        ∷ speech_started
        ∷ audio_stopped id
        ∷ [])).requests
      ≡ h ∷ s.requests
unfolding run step
farewell_requests s h id held free = ground (arith, eq_iff id id)
