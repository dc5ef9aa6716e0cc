-- ===== src/Timestamps.antt =====
-- `isTimestamp` of client-operation-service.ts, which provider-booking-service.ts repeats as
-- `timestamp`: a date and time with a zone, on a day of the calendar.
use ctrl_alt_ship.Prelude.{
  String, ◌≡◌, refl, inl, inr, Bool, true, false, ◌&&◌, Option, none, some, List, arith, &&-eq-true,
  Bool-cases, Option-cases, ◌==◌, eq_iff, Act, pure, throw, demand, ◌>>=◌,
}
use ctrl_alt_ship.Js.{Runtime, Value, undefined, str, is_zoned_time, take_text, midnight}
use ctrl_alt_ship.ToolError.{Thrown, other_error}
use ctrl_alt_ship.Checks.{Decides, invalid}

module _ (js : Runtime) where
  -- `Date.parse`; of what is no text the source has thrown before
  abbrev pub time_of : Value js.Num → js.Num
  time_of (str s) = js.parse_date s
  time_of v = js.parse_date ""

  module _ {C : Type 0} where
    -- The second half of `isTimestamp`: the calendar date is one that exists.
    abbrev same_date : String → Option String → Act Thrown C Bool
    same_date s none = throw (other_error "RangeError: Invalid time value")
    same_date s (some iso) = pure (take_text 10 iso == take_text 10 s)

    abbrev date_exists : Bool → String → Act Thrown C Bool
    date_exists false s = pure false
    date_exists true s = same_date s (js.iso_date (midnight s))

    -- `isTimestamp`
    unfoldable pub is_timestamp : Value js.Num → Act Thrown C Bool
    is_timestamp (str s) = date_exists (is_zoned_time s && js.is_finite (js.parse_date s)) s
    is_timestamp v = pure false

    -- `if (!this.isTimestamp(v)) this.invalidMandate()`
    unfoldable pub demand_timestamp : Value js.Num → Act Thrown C Unit
    unfolding is_timestamp
    demand_timestamp v = do stands ← is_timestamp v; demand stands invalid

  -- A text with date, time and zone that the host reads, whose date is one of the calendar.
  pub record IsTimestamp (v : Value js.Num) : Type 0 where
    pub text : String
    pub is_text : v ≡ str text
    pub shaped : is_zoned_time text ≡ true
    pub finite : js.is_finite (js.parse_date text) ≡ true
    pub iso : String
    pub parsed : js.iso_date (midnight text) ≡ some iso
    pub same_day : take_text 10 iso ≡ take_text 10 text

str-injective : {Num : Type 0} {s t : String} → ◌≡◌ {A = Value Num} (str s) (str t) → s ≡ t
str-injective h = cc

IsTimestamp-str :
    (js : Runtime) (s : String)
    → IsTimestamp js (str s)
    → ((is_zoned_time s && js.is_finite (js.parse_date s)) ≡ true)
      × ((iso : String) × (js.iso_date (midnight s) ≡ some iso)
          × (take_text 10 iso ≡ take_text 10 s))
IsTimestamp-str js s t =
    rw (str-injective t.is_text)
      ((&&-eq-true _ _).1 (t.shaped, t.finite), (t.iso, t.parsed, t.same_day))

module _ (js : Runtime) {C : Type 0} (log : List C) where
  pub timestamp-decides :
      (v : Value js.Num) → Decides log (demand_timestamp js v log) (IsTimestamp js v)
  unfolding demand_timestamp
  timestamp-decides (str s) =
      elim (Bool-cases (is_zoned_time s && js.is_finite (js.parse_date s))) [
        | inl shaped ↦ elim (Option-cases (js.iso_date (midnight s))) [
          | inl e ↦ inr (
            λ t. let (_, (iso, parsed, _)) = IsTimestamp-str js s t in cc,
            (other_error "RangeError: Invalid time value", rw (shaped, e)),
          )
          | inr (iso, e) ↦ elim (Bool-cases (take_text 10 iso == take_text 10 s)) [
            | inl same ↦ inl (
              record {
                text = s;
                is_text = refl;
                shaped = ground arith;
                finite = ground arith;
                iso = iso;
                parsed = e;
                same_day = (eq_iff _ _).0 same;
              },
              rw (shaped, e, same),
            )
            | inr other ↦ inr (
              λ t.
                  let (_, (iso', parsed, same)) = IsTimestamp-str js s t in
                  ground (arith, eq_iff (take_text 10 iso) (take_text 10 s)),
              (invalid, rw (shaped, e, other)),
            )
          ]
        ]
        | inr other ↦ inr (λ t. let (shaped, _) = IsTimestamp-str js s t in cc, (invalid, rw other))
      ]
  timestamp-decides undefined = inr (λ t. cc (t.is_text), (invalid, refl))
  timestamp-decides _ = inr (λ t. cc (t.is_text), (invalid, refl))
