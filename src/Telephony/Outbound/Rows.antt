-- ===== src/Telephony/Outbound/Rows.antt =====
-- What the checks of the single rows say.
use mathlib.Core.Path.{subst}
use ctrl_alt_ship.Prelude.{
  ℕ, ◌≤◌, String, ◌≡◌, ◌≢◌, refl, sym, ap, ◌∙◌, [], ◌∷◌, includes, false, Bool-cases, &&-eq-true,
  ◌⊎◌, inl, inr, true, false, not-eq-true, is_some, List, Option, none, some, Result, ok, err,
  check-ok, given-ok, ◌==◌, eq_iff, arith,
}
use ctrl_alt_ship.Js.{Runtime}
use ctrl_alt_ship.ToolError.{Thrown}
use ctrl_alt_ship.CallFlow.{
  ProviderOutboundPurpose, quote_request, renegotiation, booking_replacement,
}
use ctrl_alt_ship.Telephony.Outbound.{
  CallRow, ProviderRow, OperationRow, RequestRow, RoundRow, BoundRow, OutboundCall, Answer, filled,
  same_id, purpose_of, is_attempt, bound_elsewhere, AvailableCall, available, valid_expiry,
  context_ok, round_ok, binding_ok, context_rows, or_error, expected_kind,
}

-- This query has been answered with this row.
abbrev pub Answered : {Row : Type 0} → OutboundCall → Answer Row → Row → Type 0
Answered call answer row = (log : List OutboundCall) × (answer (call ∷ log) ≡ ok (some row))

pub or_error-ok :
    {Row : Type 0} (e : Thrown) (r : Result Thrown (Option Row)) {row : Row}
    → or_error e r ≡ ok row
    → r ≡ ok (some row)
or_error-ok e (err error) h = cc h
or_error-ok e (ok none) h = cc h
or_error-ok e (ok (some row)) h = cc h

-- The column holds this text, which is not empty.
abbrev pub Holds : Option String → String → Type 0
Holds column s = (column ≡ some s) × (s ≢ "")

pub filled-Holds : (column : Option String) (s : String) → filled column ≡ some s → Holds column s
filled-Holds none s h = cc h
filled-Holds (some t) s h = elim (Bool-cases (t == "")) [
  | inl empty ↦ let h' = rw empty at h in cc h'
  | inr there ↦
      let h' : some t ≡ some s = rw there at h in
      let same : t ≡ s = cc h' in (h', λ e. cc (there, (eq_iff t "").1 (same ∙ e)))
]

-- No time is in the column.
abbrev pub IsOpen : Option String → Type 0
IsOpen column = (column ≡ none) ⊎ (column ≡ some "")

pub filled-IsOpen : (column : Option String) → is_some (filled column) ≡ false → IsOpen column
filled-IsOpen none h = inl refl
filled-IsOpen (some t) h = elim (Bool-cases (t == "")) [
  | inl empty ↦ inr (ap some ((eq_iff t "").0 empty))
  | inr there ↦ let h' = rw there at h in cc h'
]

pub same_id-true : (a b : Option String) → same_id a b ≡ true → a ≡ b
same_id-true none none h = refl
same_id-true none (some b) h = cc h
same_id-true (some a) none h = cc h
same_id-true (some a) (some b) h = ap some ((eq_iff a b).0 h)

-- The column and what it stands for.
pub data PurposeIs : String → ProviderOutboundPurpose → Type 0 where
  asks_quote : PurposeIs "quote_request" quote_request
  renegotiates : PurposeIs "renegotiation" renegotiation
  replaces : PurposeIs "booking_replacement" booking_replacement

pub purpose_same :
    (s key : String) (p q : ProviderOutboundPurpose)
    → s == key ≡ true
    → PurposeIs key q
    → some q ≡ some p
    → PurposeIs s p
purpose_same s key p q same k e =
    let same_purpose : q ≡ p = cc e in
    subst (PurposeIs s) same_purpose (subst (λ x. PurposeIs x q) (sym ((eq_iff s key).0 same)) k)

pub purpose_of-PurposeIs :
    (s : String) (p : ProviderOutboundPurpose) → purpose_of s ≡ some p → PurposeIs s p
purpose_of-PurposeIs s p h = elim (Bool-cases (s == "quote_request")) [
  | inl a ↦ purpose_same s "quote_request" p quote_request a asks_quote (rw a at h)
  | inr a ↦ elim (Bool-cases (s == "renegotiation")) [
    | inl b ↦ purpose_same s "renegotiation" p renegotiation b renegotiates (rw (a, b) at h)
    | inr b ↦ elim (Bool-cases (s == "booking_replacement")) [
      | inl c ↦
          purpose_same s "booking_replacement" p booking_replacement c replaces (rw (a, b, c) at h)
      | inr c ↦ let h' = rw (a, b, c) at h in cc h'
    ]
  ]
]

-- The kind of round that a call of this purpose belongs to.
abbrev pub kind_for : ProviderOutboundPurpose → String
kind_for quote_request = "initial"
kind_for renegotiation = "renegotiation"
kind_for booking_replacement = "replacement"

pub kind_for-expected : (p : ProviderOutboundPurpose) → expected_kind p ≡ kind_for p
kind_for-expected quote_request = refl
kind_for-expected renegotiation = refl
kind_for-expected booking_replacement = refl

pub bound_elsewhere-false :
    (id : Option String) (call_id : String)
    → bound_elsewhere id call_id ≡ false
    → (id ≡ none) ⊎ (id ≡ some call_id)
bound_elsewhere-false none call_id h = inl refl
bound_elsewhere-false (some id) call_id h = inr (ground (arith, eq_iff id call_id))

pub filled-free :
    (column : Option String) (s : String)
    → (filled column ≡ none) ⊎ (filled column ≡ some s)
    → IsOpen column ⊎ (column ≡ some s)
filled-free column s (inl e) = inl (filled-IsOpen column (rw e refl))
filled-free column s (inr e) = inr (filled-Holds column s e).0

-- A call that is not over, in one of its attempts, and not bound to another call.
pub record IsLive (call_id : String) (row : CallRow) (c : AvailableCall) : Type 0 where
  pub purpose : PurposeIs row.purpose c.purpose
  pub operation : Holds row.operation_id c.operation_id
  pub provider : Holds row.provider_id c.provider_id
  pub request : Holds row.quote_request_id c.quote_request_id
  pub active : row.outcome ≡ "active"
  pub open_ended : IsOpen row.ended_at
  pub attempt : (row.outbound_attempt ≡ some c.attempt) × (1 ≤ c.attempt) × (c.attempt ≤ 3)
  pub dispatched : includes ("dispatching" ∷ "accepted" ∷ "unknown" ∷ []) row.dispatch_state ≡ true
  pub network_id : c.twilio_call_sid ≡ row.twilio_call_sid
  pub free : IsOpen row.realtime_call_id ⊎ (row.realtime_call_id ≡ some call_id)
  pub unbound : (c.realtime_call_id ≡ none) ⊎ (c.realtime_call_id ≡ some call_id)

pub attempt_bounds : (n : ℕ) → is_attempt n ≡ true → (1 ≤ n) × (n ≤ 3)
attempt_bounds n h = ground arith

pub available-IsLive :
    (call_id : String) (row : CallRow) (c : AvailableCall)
    → available call_id row ≡ ok c
    → IsLive call_id row c
unfolding available
available-IsLive call_id row c h =
    let (operation_id, e₁, h₁) = given-ok _ h in
    let (provider_id, e₂, h₂) = given-ok _ h₁ in
    let (quote_request_id, e₃, h₃) = given-ok _ h₂ in
    let (purpose, e₄, h₄) = given-ok _ h₃ in
    let (active, h₅) = check-ok _ h₄ in
    let (open_ended, h₆) = check-ok _ h₅ in
    let (attempt, e₅, h₇) = given-ok _ h₆ in
    let (counted, h₈) = check-ok _ h₇ in
    let (known, h₉) = check-ok _ h₈ in
    let (unbound, final) = check-ok _ h₉ in
    let made : AvailableCall = record {
      operation_id = operation_id;
      provider_id = provider_id;
      quote_request_id = quote_request_id;
      purpose = purpose;
      attempt = attempt;
      realtime_call_id = filled row.realtime_call_id;
      twilio_call_sid = row.twilio_call_sid;
    } in
    let same : made ≡ c = cc final in
    subst (IsLive call_id row) same (record {
      purpose = purpose_of-PurposeIs row.purpose purpose e₄;
      operation = filled-Holds row.operation_id operation_id e₁;
      provider = filled-Holds row.provider_id provider_id e₂;
      request = filled-Holds row.quote_request_id quote_request_id e₃;
      active = (eq_iff _ _).0 active;
      open_ended = filled-IsOpen row.ended_at ((not-eq-true _).0 open_ended);
      attempt = (let (least, most) = attempt_bounds attempt counted in (e₅, least, most));
      dispatched = known;
      network_id = refl;
      free =
          filled-free row.realtime_call_id call_id (
            bound_elsewhere-false (filled row.realtime_call_id) call_id
              ((not-eq-true _).0 unbound));
      unbound =
          bound_elsewhere-false (filled row.realtime_call_id) call_id ((not-eq-true _).0 unbound);
    })

pub context_rows-ok :
    (p : Result Thrown (Option ProviderRow)) (o : Result Thrown (Option OperationRow))
    (r : Result Thrown (Option RequestRow)) (provider : ProviderRow) (operation : OperationRow)
    (request : RequestRow)
    → context_rows p o r ≡ ok (provider, operation, request)
    → (p ≡ ok (some provider)) × (o ≡ ok (some operation)) × (r ≡ ok (some request))
unfolding context_rows
context_rows-ok (err e) o r provider operation request h = cc h
context_rows-ok (ok p) (err e) r provider operation request h = cc h
context_rows-ok (ok p) (ok o) (err e) provider operation request h = cc h
context_rows-ok (ok p) (ok o) (ok r) provider operation request h =
    let (p', e₁, h₁) = given-ok _ h in
    let (o', e₂, h₂) = given-ok _ h₁ in
    let (r', e₃, h₃) = given-ok _ h₂ in (cc (e₁, h₃), cc (e₂, h₃), cc (e₃, h₃))

-- An active round of the operation and its mandate, of the purpose's kind.
pub record IsRoundOf (purpose : ProviderOutboundPurpose) (o : OperationRow) (round : RoundRow)
    : Type 0 where
  pub active : round.status ≡ "active"
  pub operation : round.operation_id ≡ o.id
  pub mandate : round.mandate_id ≡ o.current_mandate_id
  pub kind : round.kind ≡ kind_for purpose

pub round_ok-IsRoundOf :
    (purpose : ProviderOutboundPurpose) (o : OperationRow) (round : RoundRow)
    → round_ok purpose o round ≡ true
    → IsRoundOf purpose o round
unfolding round_ok
round_ok-IsRoundOf purpose o round h =
    let (h₁, kind) = (&&-eq-true _ _).0 h in
    let (h₂, mandate) = (&&-eq-true _ _).0 h₁ in
    let (active, operation) = (&&-eq-true _ _).0 h₂ in
    record {
      active = (eq_iff _ _).0 active;
      operation = (eq_iff _ _).0 operation;
      mandate = same_id-true _ _ mandate;
      kind = (eq_iff _ _).0 kind ∙ kind_for-expected purpose;
    }

-- The record names this call, and the call is not over.
pub record IsBoundRow (call_id : String) (row : BoundRow) : Type 0 where
  pub same_call : row.realtime_call_id ≡ some call_id
  pub active : row.outcome ≡ "active"
  pub open_ended : IsOpen row.ended_at

pub binding_ok-IsBoundRow :
    (call_id : String) (row : BoundRow) → binding_ok call_id row ≡ true → IsBoundRow call_id row
unfolding binding_ok
binding_ok-IsBoundRow call_id row h =
    let (h₁, open_ended) = (&&-eq-true _ _).0 h in
    let (same, active) = (&&-eq-true _ _).0 h₁ in
    record {
      same_call = same_id-true _ _ same;
      active = (eq_iff _ _).0 active;
      open_ended = filled-IsOpen row.ended_at ((not-eq-true _).0 open_ended);
    }

module _ (js : Runtime) (now : js.Num) where
  -- It never expires, or at a time that is still to come.
  abbrev pub IsUnexpired : Option String → Type 0
  IsUnexpired expires_at =
      (expires_at ≡ some "infinity")
      ⊎ ((s : String) × (expires_at ≡ some s)
          × (js.is_finite (js.parse_date s) ≡ true)
          × (js.lt now (js.parse_date s) ≡ true))

  pub valid_expiry-IsUnexpired :
      (expires_at : Option String) → valid_expiry js now expires_at ≡ true → IsUnexpired expires_at
  valid_expiry-IsUnexpired none h = cc h
  valid_expiry-IsUnexpired (some s) h = elim (Bool-cases (s == "infinity")) [
    | inl never ↦ inl (ap some ((eq_iff s "infinity").0 never))
    | inr other ↦ inr (s, refl, ground arith, ground arith)
  ]

  -- The rows fit together: an active provider, a confirmed mandate that is still the operation's, a
  -- request that is open and has not expired.
  pub record IsCurrent (p : ProviderRow) (o : OperationRow) (r : RequestRow) : Type 0 where
    pub active : p.active ≡ true
    pub confirmed : o.mandate_confirmation_required ≡ false
    pub same_operation : r.operation_id ≡ o.id
    pub same_provider : r.provider_id ≡ p.id
    pub same_mandate : r.mandate_id ≡ o.current_mandate_id
    pub request_open :
        includes ("pending" ∷ "queued" ∷ "contacted" ∷ "responded" ∷ []) r.status ≡ true
    pub operation_open : includes ("sourcing" ∷ "quotes_received" ∷ []) o.status ≡ true
    pub unexpired : IsUnexpired r.expires_at

  pub context_ok-IsCurrent :
      (p : ProviderRow) (o : OperationRow) (r : RequestRow) (round_id : String)
      → context_ok js now p o r ≡ ok round_id
      → IsCurrent p o r × Holds r.round_id round_id
  unfolding context_ok
  context_ok-IsCurrent p o r round_id h =
      let (active, h₁) = check-ok _ h in
      let (confirmed, h₂) = check-ok _ h₁ in
      let (round, e, h₃) = given-ok _ h₂ in
      let (same_operation, h₄) = check-ok _ h₃ in
      let (same_provider, h₅) = check-ok _ h₄ in
      let (same_mandate, h₆) = check-ok _ h₅ in
      let (known, h₇) = check-ok _ h₆ in
      let (unexpired, h₈) = check-ok _ h₇ in
      let (status, final) = check-ok _ h₈ in
      (
        record {
          active = active;
          confirmed = (not-eq-true _).0 confirmed;
          same_operation = (eq_iff _ _).0 same_operation;
          same_provider = (eq_iff _ _).0 same_provider;
          same_mandate = same_id-true _ _ same_mandate;
          request_open = known;
          operation_open = status;
          unexpired = valid_expiry-IsUnexpired r.expires_at unexpired;
        },
        (let same : round ≡ round_id = cc final in
            filled-Holds r.round_id round_id (e ∙ ap some same)),
      )
