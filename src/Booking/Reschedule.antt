-- ===== src/Booking/Reschedule.antt =====
-- The window that `reschedule_booking` proposes.
use ctrl_alt_ship.Prelude.{
  ◌≡◌, refl, ◌⊎◌, inl, inr, Bool, true, false, some, List, arith, eqb, Bool-cases, Option-cases,
}
use ctrl_alt_ship.Js.{Runtime, Value, Fields, get, has, key_count, plain_object, ge}
use ctrl_alt_ship.Checks.{Object, Object-at, Decides, invalid}
use ctrl_alt_ship.Timestamps.{IsTimestamp, timestamp-decides, time_of}
use ctrl_alt_ship.Booking.Types.{
  ProviderBookingToolName, reschedule_booking, cancel_booking, decline_reschedule_alternatives,
}
use ctrl_alt_ship.Booking.Service.{local_timestamp, check_window, check_proposal}

module _ (js : Runtime) where
  -- Two times, converted to timestamps, the first before the second, and no other field.
  pub record WindowFields (convert : Value js.Num → Value js.Num) (fs : Fields js.Num)
      : Type 0 where
    pub two : key_count fs ≡ 2
    pub starts : IsTimestamp js (convert (get fs "start_at"))
    pub ends : IsTimestamp js (convert (get fs "end_at"))
    pub ordered :
        ge js (time_of js (convert (get fs "start_at"))) (time_of js (convert (get fs "end_at")))
        ≡ false

  -- Just one of the two windows, and that one in order; no window for the other commands.
  abbrev pub Proposal : ProviderBookingToolName → Fields js.Num → Type 0
  Proposal reschedule_booking fs =
      ((has fs "proposed_pickup_local_window" ≡ true)
        × (has fs "proposed_pickup_window" ≡ false)
        × Object (WindowFields local_timestamp) (get fs "proposed_pickup_local_window"))
      ⊎ ((has fs "proposed_pickup_local_window" ≡ false)
          × (has fs "proposed_pickup_window" ≡ true)
          × Object (WindowFields (λ v. v)) (get fs "proposed_pickup_window"))
  Proposal cancel_booking fs = Unit
  Proposal decline_reschedule_alternatives fs = Unit

  module _ {C : Type 0} (log : List C) where
    WindowFields-decides :
        (convert : Value js.Num → Value js.Num) (v : Value js.Num) (fs : Fields js.Num)
        → plain_object v ≡ some fs
        → Decides log (check_window js convert v log) (WindowFields convert fs)
    unfolding check_window
    WindowFields-decides convert v fs e = elim (Bool-cases (eqb (key_count fs) 2)) [
      | inr other ↦ inr (λ w. ground (arith, w.two), (invalid, rw (e, other)))
      | inl two ↦ elim (timestamp-decides js log (convert (get fs "start_at"))) [
        | inr (no_start, (thrown, s)) ↦ inr (λ w. no_start w.starts, (thrown, rw (e, two, s)))
        | inl (starts, s) ↦ elim (timestamp-decides js log (convert (get fs "end_at"))) [
          | inr (no_end, (thrown, t)) ↦ inr (λ w. no_end w.ends, (thrown, rw (e, two, s, t)))
          | inl (ends, t) ↦
              elim (Bool-cases (
                ge js (time_of js (convert (get fs "start_at")))
                  (time_of js (convert (get fs "end_at"))))) [
                    | inl late ↦ inr (λ w. cc (w.ordered), (invalid, rw (e, two, s, t, late)))
                    | inr ordered ↦ inl (
                      record {
                        two = ground arith;
                        starts = starts;
                        ends = ends;
                        ordered = ordered;
                      },
                      rw (e, two, s, t, ordered),
                    )
                  ]
        ]
      ]
    ]

    window-decides :
        (convert : Value js.Num → Value js.Num) (v : Value js.Num)
        → Decides log (check_window js convert v log) (Object (WindowFields convert) v)
    window-decides convert v = elim (Option-cases (plain_object v)) [
      | inl e ↦ inr (λ w. cc (w.1), (invalid, unfold check_window in rw e))
      | inr (fs, e) ↦ elim (WindowFields-decides convert v fs e) [
        | inl (w, h) ↦ inl ((fs, e, w), h)
        | inr (other, h) ↦ inr (λ w. other (Object-at (WindowFields convert) v fs e w), h)
      ]
    ]

    reschedule-decides :
        (fs : Fields js.Num) (local zoned : Bool)
        → has fs "proposed_pickup_local_window" ≡ local
        → has fs "proposed_pickup_window" ≡ zoned
        → Decides log (check_proposal js reschedule_booking fs log) (Proposal reschedule_booking fs)
    unfolding check_proposal
    reschedule-decides fs true true e e' = inr (λ p. ground arith, (invalid, rw (e, e')))
    reschedule-decides fs false false e e' = inr (λ p. ground arith, (invalid, rw (e, e')))
    reschedule-decides fs true false e e' =
        elim (window-decides local_timestamp (get fs "proposed_pickup_local_window")) [
          | inl (w, h) ↦ inl (inl (e, e', w), rw (e, e') h)
          | inr (other, (thrown, h)) ↦
              inr (λ p. elim p [ inl q ↦ other q.2 | inr q ↦ cc (q.0) ], (thrown, rw (e, e') h))
        ]
    reschedule-decides fs false true e e' =
        elim (window-decides (λ v. v) (get fs "proposed_pickup_window")) [
          | inl (w, h) ↦ inl (inr (e, e', w), rw (e, e') h)
          | inr (other, (thrown, h)) ↦
              inr (λ p. elim p [ inl q ↦ cc (q.0) | inr q ↦ other q.2 ], (thrown, rw (e, e') h))
        ]

    pub Proposal-decides :
        (name : ProviderBookingToolName) (fs : Fields js.Num)
        → Decides log (check_proposal js name fs log) (Proposal name fs)
    Proposal-decides reschedule_booking fs = reschedule-decides fs _ _ refl refl
    Proposal-decides cancel_booking fs = unfold check_proposal in inl (tt, refl)
    Proposal-decides decline_reschedule_alternatives fs = unfold check_proposal in inl (tt, refl)
