-- ===== src/Telephony/Stall.antt =====
-- backend/src/tango/telephony/negotiation-stall-tracker.ts: when a negotiation makes no progress.
-- Thresholds that are no natural numbers are left out.
use ctrl_alt_ship.Prelude.{
  ℕ, zero, suc, ◌+◌, ◌≤◌, ◌≡◌, refl, sym, ◌↔◌, Bool, true, List, [], ◌∷◌, arith, leb, if◌then◌else◌,
  Result, ok, err,
}
use ctrl_alt_ship.ToolError.{Thrown, other_error}

pub record NegotiationStallTracker : Type 0 where
  pub consecutive_caller_turns : ℕ
  pub threshold : ℕ

-- The constructor.
unfoldable pub new_tracker : ℕ → Result Thrown NegotiationStallTracker
new_tracker threshold =
    if leb 1 threshold
    then ok (record { consecutive_caller_turns = 0; threshold = threshold })
    else err (other_error "Stall threshold must be a positive integer")

unfoldable pub record_caller_turn : NegotiationStallTracker → Bool × NegotiationStallTracker
record_caller_turn t =
    let turns = t.consecutive_caller_turns + 1 in
    (leb t.threshold turns, record t { consecutive_caller_turns = turns })

unfoldable pub record_progress : NegotiationStallTracker → NegotiationStallTracker
record_progress t = record t { consecutive_caller_turns = 0 }

pub data TrackerCall : Type 0 where
  caller_turn progress : TrackerCall

-- The tracker behind the calls, the latest first.
unfoldable pub tracker_after : NegotiationStallTracker → List TrackerCall → NegotiationStallTracker
unfolding record_caller_turn record_progress
tracker_after t [] = t
tracker_after t (caller_turn ∷ calls) = (record_caller_turn (tracker_after t calls)).1
tracker_after t (progress ∷ calls) = record_progress (tracker_after t calls)

-- The latest `n` calls are all turns of the caller.
abbrev pub AreTurns : ℕ → List TrackerCall → Type 0
AreTurns zero calls = Unit
AreTurns (suc n) [] = ⊥
AreTurns (suc n) (caller_turn ∷ calls) = AreTurns n calls
AreTurns (suc n) (progress ∷ calls) = ⊥

module _ (t : NegotiationStallTracker) (fresh : t.consecutive_caller_turns ≡ 0) where
  threshold_kept : (calls : List TrackerCall) → (tracker_after t calls).threshold ≡ t.threshold
  unfolding tracker_after record_caller_turn record_progress
  threshold_kept [] = refl
  threshold_kept (caller_turn ∷ calls) = threshold_kept calls
  threshold_kept (progress ∷ calls) = threshold_kept calls

  turns-AreTurns :
      (n : ℕ) (calls : List TrackerCall)
      → (n ≤ (tracker_after t calls).consecutive_caller_turns → AreTurns n calls)
        × (AreTurns n calls → n ≤ (tracker_after t calls).consecutive_caller_turns)
  unfolding tracker_after record_caller_turn record_progress
  turns-AreTurns zero calls = ((λ h. tt), λ a. omega arith)
  turns-AreTurns (suc n) [] = ((λ h. omega arith), λ a. absurd a)
  turns-AreTurns (suc n) (caller_turn ∷ calls) =
      let (to, from) = turns-AreTurns n calls in
      ((λ h. to (omega arith)), λ a. let h = from a in omega arith)
  turns-AreTurns (suc n) (progress ∷ calls) = ((λ h. omega arith), λ a. absurd a)

  leb_iff : (a b : ℕ) → (leb a b ≡ true → a ≤ b) × (a ≤ b → leb a b ≡ true)
  leb_iff a b = (λ h. ground arith, λ h. ground arith)

  turn_counted :
      (calls : List TrackerCall)
      → (tracker_after t (caller_turn ∷ calls)).consecutive_caller_turns
        ≡ (tracker_after t calls).consecutive_caller_turns + 1
  unfolding tracker_after record_caller_turn record_progress
  turn_counted calls = refl

  -- A turn of the caller reports a stall just if, this turn included, the latest calls, as many as the
  -- threshold, were all turns of the caller, with no progress among them.
  pub record_caller_turn-AreTurns :
      (calls : List TrackerCall)
      → ((record_caller_turn (tracker_after t calls)).0 ≡ true)
        ↔ AreTurns t.threshold (caller_turn ∷ calls)
  unfolding record_caller_turn
  record_caller_turn-AreTurns calls =
      let (to, from) = turns-AreTurns t.threshold (caller_turn ∷ calls) in
      let (up, down) = leb_iff t.threshold ((tracker_after t calls).consecutive_caller_turns + 1) in
      rw (threshold_kept calls) (
        λ h. to (rw (turn_counted calls) (up h)),
        λ a. down (rw (sym (turn_counted calls)) (from a)),
      )
