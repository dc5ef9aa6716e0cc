-- ===== src/Client/Windows.antt =====
-- The pickup windows of a mandate: the loop of `confirm`.
use ctrl_alt_ship.Prelude.{
  ◌≡◌, refl, inl, inr, false, some, List, [], ◌∷◌, arith, eqb, All, Bool-cases, Option-cases,
}
use ctrl_alt_ship.Js.{Runtime, Value, Fields, get, key_count, plain_object, ge}
use ctrl_alt_ship.Checks.{Object, Object-at, Decides, invalid}
use ctrl_alt_ship.Timestamps.{IsTimestamp, timestamp-decides, time_of}
use ctrl_alt_ship.Client.Mandate.{check_window, check_windows}

module _ (js : Runtime) where
  -- Two timestamps, the first before the second, and no other field.
  pub record WindowFields (fs : Fields js.Num) : Type 0 where
    pub two : key_count fs ≡ 2
    pub starts : IsTimestamp js (get fs "start_at")
    pub ends : IsTimestamp js (get fs "end_at")
    pub ordered : ge js (time_of js (get fs "start_at")) (time_of js (get fs "end_at")) ≡ false

module _ (js : Runtime) {C : Type 0} (log : List C) where
  WindowFields-decides :
      (v : Value js.Num) (fs : Fields js.Num)
      → plain_object v ≡ some fs
      → Decides log (check_window js v log) (WindowFields js fs)
  unfolding check_window
  WindowFields-decides v fs e = elim (Bool-cases (eqb (key_count fs) 2)) [
    | inr other ↦ inr (λ w. ground (arith, w.two), (invalid, rw (e, other)))
    | inl two ↦ elim (timestamp-decides js log (get fs "start_at")) [
      | inr (no_start, (thrown, s)) ↦ inr (λ w. no_start w.starts, (thrown, rw (e, two, s)))
      | inl (starts, s) ↦ elim (timestamp-decides js log (get fs "end_at")) [
        | inr (no_end, (thrown, t)) ↦ inr (λ w. no_end w.ends, (thrown, rw (e, two, s, t)))
        | inl (ends, t) ↦
            elim (Bool-cases
              (ge js (time_of js (get fs "start_at")) (time_of js (get fs "end_at")))) [
                | inl late ↦ inr (λ w. cc (w.ordered), (invalid, rw (e, two, s, t, late)))
                | inr ordered ↦ inl (
                  record { two = ground arith; starts = starts; ends = ends; ordered = ordered },
                  rw (e, two, s, t, ordered),
                )
              ]
      ]
    ]
  ]

  window-decides :
      (v : Value js.Num) → Decides log (check_window js v log) (Object (WindowFields js) v)
  window-decides v = elim (Option-cases (plain_object v)) [
    | inl e ↦ inr (λ w. cc (w.1), (invalid, unfold check_window in rw e))
    | inr (fs, e) ↦ elim (WindowFields-decides v fs e) [
      | inl (w, h) ↦ inl ((fs, e, w), h)
      | inr (other, h) ↦ inr (λ w. other (Object-at (WindowFields js) v fs e w), h)
    ]
  ]

  -- The loop over the windows.
  pub windows-decides :
      (ws : List (Value js.Num))
      → Decides log (check_windows js ws log) (All (Object (WindowFields js)) ws)
  unfolding check_windows
  windows-decides [] = inl (tt, refl)
  windows-decides (w ∷ ws) = elim (window-decides w) [
    | inr (other, (thrown, h)) ↦ inr (λ all. other all.0, (thrown, rw h))
    | inl (ok_w, h) ↦ elim (windows-decides ws) [
      | inr (other, (thrown, k)) ↦ inr (λ all. other all.1, (thrown, rw (h, k)))
      | inl (ok_ws, k) ↦ inl ((ok_w, ok_ws), rw (h, k))
    ]
  ]
