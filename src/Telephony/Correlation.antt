-- ===== src/Telephony/Correlation.antt =====
-- backend/src/tango/telephony/outbound-routing.ts, `extractOutboundCallRecordId`: which call record an
-- outbound call belongs to. The header's name holds no letter that Unicode folds in another way than ASCII.
use mathlib.Core.Path.{subst}
use ctrl_alt_ship.Prelude.{
  String, ◌≡◌, ◌≢◌, refl, ap, ◌∙◌, sym, ◌↔◌, Bool, true, ◌&&◌, List, [], ◌∷◌, All, keep, Option,
  none, some, arith, Result, ok, check, check-ok, &&-eq-true, ◌==◌, eq_iff,
}
use ctrl_alt_ship.Js.{trim}
use ctrl_alt_ship.ToolError.{Thrown, other_error}
use ctrl_alt_ship.Telephony.Formats.{is_uuid}
use ctrl_alt_ship.Telephony.Routing.{SipHeader, same_name}

-- The values of the headers of that name, trimmed.
abbrev pub is_correlation : SipHeader → Bool
is_correlation h = same_name h.name "x-tango-call-id"

abbrev pub agree : String → List SipHeader → Bool
agree value [] = true
agree value (h ∷ matches) = trim h.value == value && agree value matches

abbrev pub correlated : List SipHeader → Result Thrown (Option String)
correlated [] = ok none
correlated (h ∷ matches) =
    check (is_uuid (trim h.value) && agree (trim h.value) (h ∷ matches))
      (other_error "Invalid outbound call correlation header") (ok (some (trim h.value)))

unfoldable pub extract_outbound_call_record_id : List SipHeader → Result Thrown (Option String)
extract_outbound_call_record_id headers = correlated (keep is_correlation headers)

-- The headers of that name, of which there is one, all hold the identifier.
abbrev pub AllHold : String → List SipHeader → Type 0
AllHold id matches = (matches ≢ []) × All (λ h. trim h.value ≡ id) matches

agree_iff :
    (id : String) (matches : List SipHeader)
    → (agree id matches ≡ true) ↔ All (λ h. trim h.value ≡ id) matches
agree_iff id [] = (λ h. tt, λ h. refl)
agree_iff id (h ∷ matches) =
    let (to, from) = agree_iff id matches in
    (
      λ e. (ground (arith, eq_iff (trim h.value) id), to (ground arith)),
      λ a. ground (arith, eq_iff (trim h.value) id, a.0, from a.1),
    )

accepted :
    (h : SipHeader) (matches : List SipHeader)
    → is_uuid (trim h.value) ≡ true
    → agree (trim h.value) (h ∷ matches) ≡ true
    → correlated (h ∷ matches) ≡ ok (some (trim h.value))
unfolding check
accepted h matches form agrees = rw (form, agrees) refl

correlated-AllHold :
    (id : String) (matches : List SipHeader)
    → (correlated matches ≡ ok (some id)) ↔ ((is_uuid id ≡ true) × AllHold id matches)
correlated-AllHold id [] = (λ h. cc h, λ a. absurd (a.1.0 refl))
correlated-AllHold id (h ∷ matches) = (
  λ e.
      let (passed, final) = check-ok _ e in
      let same : trim h.value ≡ id = cc final in
      let (form, agrees) = (&&-eq-true _ _).0 passed in
      (
        subst (λ s. is_uuid s ≡ true) same form,
        (
          (λ nothing. cc nothing),
          (agree_iff id (h ∷ matches)).0 (subst (λ s. agree s (h ∷ matches) ≡ true) same agrees),
        ),
      ),
  λ a.
      let agrees : agree (trim h.value) (h ∷ matches) ≡ true =
        subst (λ s. agree s (h ∷ matches) ≡ true) (sym a.1.1.0)
          ((agree_iff id (h ∷ matches)).1 a.1.1) in
      let form : is_uuid (trim h.value) ≡ true = subst (λ s. is_uuid s ≡ true) (sym a.1.1.0) a.0 in
      accepted h matches form agrees ∙ ap (λ s. ok (some s)) a.1.1.0,
)

-- An outbound call belongs to a call record just if the record's identifier is well formed, there is a
-- header that names it, and every header of that name holds it.
pub extract_outbound_call_record_id-AllHold :
    (headers : List SipHeader) (id : String)
    → (extract_outbound_call_record_id headers ≡ ok (some id))
      ↔ ((is_uuid id ≡ true) × AllHold id (keep is_correlation headers))
unfolding extract_outbound_call_record_id
extract_outbound_call_record_id-AllHold headers id =
    correlated-AllHold id (keep is_correlation headers)
