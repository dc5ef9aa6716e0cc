-- ===== src/Handoff/Invariant.antt =====
-- At most one transfer is asked for, and none that was cancelled.
use ctrl_alt_ship.Prelude.{
  ◌≤◌, ◌≡◌, refl, ◌⊎◌, inl, inr, true, false, Option, none, some, List, [], ◌∷◌, arith, length,
  is_some, Option-cases, if◌then◌else◌, err,
}
use ctrl_alt_ship.Handoff.{EscalationHandoff, transfer_started_or_cancelling, begin_cancel}
use ctrl_alt_ship.Handoff.System.{System, Event, initial, step, run, prepared}

abbrev pub held : Option EscalationHandoff → List EscalationHandoff
held none = []
held (some h) = h ∷ []

-- REFER is asked for nothing before the transfer starts, and then for just the handoff that is held.
pub record IsValid (s : System) : Type 0 where
  pub waits : s.persisting ≡ s.coordinator.cancelling
  pub exclusive : (s.coordinator.cancelling ≡ false) ⊎ (s.coordinator.transfer_started ≡ false)
  pub accepted : (s.coordinator.referred ≡ false) ⊎ (s.coordinator.transfer_started ≡ true)
  pub open_request : (s.referring ≡ false) ⊎ (s.coordinator.transfer_started ≡ true)
  pub kept : (s.coordinator.transfer_started ≡ false) ⊎ (is_some s.coordinator.handoff ≡ true)
  pub requested :
      s.requests ≡ (if s.coordinator.transfer_started then held s.coordinator.handoff else [])

pub step-IsValid : (s : System) (e : Event) → IsValid s → IsValid (step s e)
unfolding step
step-IsValid s (prepared h) v = ground arith
step-IsValid s _ v = ground arith

pub run-IsValid : (s : System) (es : List Event) → IsValid s → IsValid (run s es)
unfolding run
run-IsValid s [] v = v
run-IsValid s (e ∷ es) v = run-IsValid (step s e) es (step-IsValid s e v)

pub initial-IsValid : IsValid initial
initial-IsValid = record {
  waits = refl;
  exclusive = inl refl;
  accepted = inl refl;
  open_request = inl refl;
  kept = inl refl;
  requested = refl;
}

length-requests : {s : System} → IsValid s → length s.requests ≤ 1
length-requests {s} v = elim (Option-cases s.coordinator.handoff) [
  | inl e ↦ ground (arith, v.requested)
  | inr (h, e) ↦ ground (arith, v.requested)
]

-- Whatever happens to a coordinator, and in whatever order, REFER is asked for at most once.
pub requests-le-one : (es : List Event) → length (run initial es).requests ≤ 1
requests-le-one es = length-requests (run-IsValid initial es initial-IsValid)

-- What no event changes once the transfer has started.
pub record IsStarted (h : Option EscalationHandoff) (requests : List EscalationHandoff) (s : System)
    : Type 0 where
  pub started : s.coordinator.transfer_started ≡ true
  pub not_cancelling : s.coordinator.cancelling ≡ false
  pub not_persisting : s.persisting ≡ false
  pub holds : is_some s.coordinator.handoff ≡ true
  pub same : s.coordinator.handoff ≡ h
  pub asked : s.requests ≡ requests

step-IsStarted :
    (h : Option EscalationHandoff) (requests : List EscalationHandoff) (s : System) (e : Event)
    → IsStarted h requests s
    → IsStarted h requests (step s e)
unfolding step
step-IsStarted h requests s (prepared h') v = ground arith
step-IsStarted h requests s _ v = ground arith

run-IsStarted :
    (h : Option EscalationHandoff) (requests : List EscalationHandoff) (s : System)
    (es : List Event)
    → IsStarted h requests s
    → IsStarted h requests (run s es)
unfolding run
run-IsStarted h requests s [] v = v
run-IsStarted h requests s (e ∷ es) v =
    run-IsStarted h requests (step s e) es (step-IsStarted h requests s e v)

-- From the moment the transfer has started, the handoff stays, no second REFER is asked for, and
-- every attempt to cancel is refused, whatever happens.
pub started_is_final :
    (s : System) (es : List Event)
    → IsValid s
    → s.coordinator.transfer_started ≡ true
    → ((run s es).coordinator.handoff ≡ s.coordinator.handoff)
      × ((run s es).requests ≡ s.requests)
      × (begin_cancel (run s es).coordinator
          ≡ ((run s es).coordinator, err transfer_started_or_cancelling))
unfolding begin_cancel
started_is_final s es v h =
    let r = run-IsStarted s.coordinator.handoff s.requests s es (record {
      started = h;
      not_cancelling = ground arith;
      not_persisting = ground arith;
      holds = ground arith;
      same = refl;
      asked = refl;
    }) in
    (r.same, r.asked, rw (r.started) refl)
