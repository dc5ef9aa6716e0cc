-- ===== src/Escalation/Requests.antt =====
-- What an escalation carries to its repository.
use ctrl_alt_ship.Prelude.{
  ℕ, ◌≤◌, String, sym, leb, refl, ◌↔◌, ◌==◌, eq_iff, ◌≡◌, ◌⊎◌, inl, inr, true, false, Option, none,
  some, List, ◌∷◌, arith, ok, err, Bool-cases, Option-cases,
}
use mathlib.Core.Path.{subst}
use ctrl_alt_ship.Js.{
  Value, undefined, str, Fields, get, only_keys, plain_object, is_blank, trim, text_length,
  is_operation_reference,
}
use ctrl_alt_ship.Js.Trim.{text_length-trim, is_blank-trim}
use ctrl_alt_ship.ToolError.{Thrown}
use ctrl_alt_ship.Checks.{Object, Object-at, invalid}
use ctrl_alt_ship.CallFlow.{ToolCallScope}
use ctrl_alt_ship.Escalation.{
  Trigger, explicit_human_request, outside_mandate, negotiation_stalled, EscalationRequest,
  EscalationCall, create, EscalationRepository, escalation_keys, read_trigger, read_text,
  read_reference, read_request, start,
}

-- A text of at most `maximum` code units that is not blank.
abbrev pub IsText : String → ℕ → Type 0
IsText s maximum = (is_blank s ≡ false) × (text_length s ≤ maximum)

read_text-IsText :
    {Num : Type 0} (v : Value Num) (maximum : ℕ) (s : String)
    → read_text v maximum ≡ some s
    → IsText s maximum
unfolding read_text
read_text-IsText (str t) maximum s h = ground (arith, text_length-trim t, is_blank-trim t)
read_text-IsText undefined maximum s h = cc
read_text-IsText _ maximum s h = cc

abbrev pub IsReference : Option String → Type 0
IsReference none = Unit
IsReference (some s) = is_operation_reference s ≡ true

read_reference-IsReference :
    {Num : Type 0} (v : Value Num) (r : Option String) → read_reference v ≡ some r → IsReference r
unfolding read_reference
read_reference-IsReference undefined none h = tt
read_reference-IsReference undefined (some r) h = cc
read_reference-IsReference (str s) none h = tt
read_reference-IsReference (str s) (some r) h = ground arith
read_reference-IsReference _ none h = tt
read_reference-IsReference _ (some r) h = cc

-- The trimmed text, of one that is not blank and within its bound.
pub data TextOf {Num : Type 0} (maximum : ℕ) : Value Num → String → Type 0 where
  trimmed :
      (t : String) → is_blank t ≡ false → text_length t ≤ maximum → TextOf maximum (str t) (trim t)

pub data TriggerOf {Num : Type 0} : Value Num → Trigger → Type 0 where
  by_request : TriggerOf (str "explicit_human_request") explicit_human_request
  by_mandate : TriggerOf (str "outside_mandate") outside_mandate
  by_stall : TriggerOf (str "negotiation_stalled") negotiation_stalled

pub data ReferenceOf {Num : Type 0} : Value Num → Option String → Type 0 where
  left_out : ReferenceOf undefined none
  given : (s : String) → is_operation_reference s ≡ true → ReferenceOf (str s) (some s)

read_text-TextOf :
    {Num : Type 0} (v : Value Num) (maximum : ℕ) (s : String)
    → read_text v maximum ≡ some s
    → TextOf maximum v s
unfolding read_text
read_text-TextOf (str t) maximum s h = elim (Bool-cases (is_blank t)) [
  | inl blank ↦ let h' = rw blank at h in cc h'
  | inr shown ↦ elim (Bool-cases (leb (text_length t) maximum)) [
    | inl fits ↦
        let h' = rw (shown, fits) at h in
        let same : trim t ≡ s = cc h' in
        subst (TextOf maximum (str t)) same (trimmed t shown (ground arith))
    | inr long ↦ let h' = rw (shown, long) at h in cc h'
  ]
]
read_text-TextOf undefined maximum s h = cc
read_text-TextOf _ maximum s h = cc

TextOf-read_text :
    {Num : Type 0} {v : Value Num} {maximum : ℕ} {s : String}
    → TextOf maximum v s
    → read_text v maximum ≡ some s
unfolding read_text
TextOf-read_text (trimmed t shown fits) = ground arith

TriggerOf-same :
    {Num : Type 0} (s key : String) (t u : Trigger)
    → s == key ≡ true
    → TriggerOf {Num = Num} (str key) u
    → some u ≡ some t
    → TriggerOf {Num = Num} (str s) t
TriggerOf-same {Num} s key t u same k e =
    let same_text : key ≡ s = sym ((eq_iff s key).0 same) in
    let same_trigger : u ≡ t = cc e in
    subst (TriggerOf {Num = Num} (str s)) same_trigger
      (subst (λ x. TriggerOf {Num = Num} (str x) u) same_text k)

read_trigger-TriggerOf :
    {Num : Type 0} (v : Value Num) (t : Trigger) → read_trigger v ≡ some t → TriggerOf v t
unfolding read_trigger
read_trigger-TriggerOf {Num} (str s) t h = elim (Bool-cases (s == "explicit_human_request")) [
  | inl a ↦
      TriggerOf-same s "explicit_human_request" t explicit_human_request a by_request (rw a at h)
  | inr a ↦ elim (Bool-cases (s == "outside_mandate")) [
    | inl b ↦ TriggerOf-same s "outside_mandate" t outside_mandate b by_mandate (rw (a, b) at h)
    | inr b ↦ elim (Bool-cases (s == "negotiation_stalled")) [
      | inl c ↦
          TriggerOf-same s "negotiation_stalled" t negotiation_stalled c by_stall
            (rw (a, b, c) at h)
      | inr c ↦ let h' = rw (a, b, c) at h in cc h'
    ]
  ]
]
read_trigger-TriggerOf _ t h = cc

TriggerOf-read_trigger :
    {Num : Type 0} {v : Value Num} {t : Trigger} → TriggerOf v t → read_trigger v ≡ some t
unfolding read_trigger
TriggerOf-read_trigger by_request = refl
TriggerOf-read_trigger by_mandate = refl
TriggerOf-read_trigger by_stall = refl

read_reference-ReferenceOf :
    {Num : Type 0} (v : Value Num) (r : Option String) → read_reference v ≡ some r → ReferenceOf v r
unfolding read_reference
read_reference-ReferenceOf undefined r h = subst (ReferenceOf undefined) (cc h) left_out
read_reference-ReferenceOf (str s) r h = elim (Bool-cases (is_operation_reference s)) [
  | inl well_formed ↦
      let h' = rw well_formed at h in
      let same : some s ≡ r = cc h' in subst (ReferenceOf (str s)) same (given s well_formed)
  | inr other ↦ let h' = rw other at h in cc h'
]
read_reference-ReferenceOf _ r h = cc

ReferenceOf-read_reference :
    {Num : Type 0} {v : Value Num} {r : Option String} → ReferenceOf v r → read_reference v ≡ some r
unfolding read_reference
ReferenceOf-read_reference left_out = refl
ReferenceOf-read_reference (given s well_formed) = rw well_formed refl

-- What every request that reaches the repository satisfies.
pub record IsRequest (request : EscalationRequest) : Type 0 where
  pub reference : IsReference request.operation_reference
  pub reason : IsText request.reason 500
  pub summary : IsText request.summary 2_000
  pub action : IsText request.requested_action 500

-- What the code's readers find.
record Finds {Num : Type 0} (input : Fields Num) (request : EscalationRequest) : Type 0 where
  pub known : only_keys escalation_keys input ≡ true
  pub reference :
      read_reference (get input "operation_reference") ≡ some request.operation_reference
  pub trigger : read_trigger (get input "trigger") ≡ some request.trigger
  pub reason : read_text (get input "reason") 500 ≡ some request.reason
  pub summary : read_text (get input "summary") 2_000 ≡ some request.summary
  pub action : read_text (get input "requested_action") 500 ≡ some request.requested_action

-- How the input gives the request: no other key, and each part from its own field.
pub record Reads {Num : Type 0} (input : Fields Num) (request : EscalationRequest) : Type 0 where
  pub known : only_keys escalation_keys input ≡ true
  pub reference : ReferenceOf (get input "operation_reference") request.operation_reference
  pub trigger : TriggerOf (get input "trigger") request.trigger
  pub reason : TextOf 500 (get input "reason") request.reason
  pub summary : TextOf 2_000 (get input "summary") request.summary
  pub action : TextOf 500 (get input "requested_action") request.requested_action

Finds-Reads :
    {Num : Type 0} (input : Fields Num) (request : EscalationRequest)
    → Finds input request ↔ Reads input request
Finds-Reads input request = (
  λ f. record {
    known = f.known;
    reference = read_reference-ReferenceOf _ _ f.reference;
    trigger = read_trigger-TriggerOf _ _ f.trigger;
    reason = read_text-TextOf _ _ _ f.reason;
    summary = read_text-TextOf _ _ _ f.summary;
    action = read_text-TextOf _ _ _ f.action;
  },
  λ r. record {
    known = r.known;
    reference = ReferenceOf-read_reference r.reference;
    trigger = TriggerOf-read_trigger r.trigger;
    reason = TextOf-read_text r.reason;
    summary = TextOf-read_text r.summary;
    action = TextOf-read_text r.action;
  },
)

Finds-IsRequest :
    {Num : Type 0} {input : Fields Num} {request : EscalationRequest}
    → Finds input request
    → IsRequest request
Finds-IsRequest {input} {request} r = record {
  reference =
      read_reference-IsReference (get input "operation_reference") request.operation_reference
        r.reference;
  reason = read_text-IsText (get input "reason") 500 request.reason r.reason;
  summary = read_text-IsText (get input "summary") 2_000 request.summary r.summary;
  action = read_text-IsText (get input "requested_action") 500 request.requested_action r.action;
}

abbrev pub Readable : {Num : Type 0} → Fields Num → Type 0
Readable input = (request : EscalationRequest) × Reads input request

module _ {Num C : Type 0} (v : Value Num) (log : List C) where
  abbrev Reading : Type 0
  Reading =
      ((input : Fields Num) × (plain_object v ≡ some input)
        × ((request : EscalationRequest) × Finds input request
            × (read_request v log ≡ (ok request, log))))
      ⊎ (¬ Object Readable v × ((e : Thrown) × (read_request v log ≡ (err e, log))))

  -- One part is missing, so there is no request.
  lacks :
      (input : Fields Num)
      → plain_object v ≡ some input
      → ((request : EscalationRequest) → ¬ Finds input request)
      → ¬ Object Readable v
  lacks input e none_reads o =
      let (q, r) = Object-at Readable v input e o in none_reads q ((Finds-Reads input q).1 r)

  read_request-cases : Reading
  unfolding read_request
  read_request-cases = elim (Option-cases (plain_object v)) [
    | inl h ↦ inr (λ o. cc (o.1), (invalid, rw h))
    | inr (input, e) ↦ elim (Bool-cases (only_keys escalation_keys input)) [
      | inr k ↦ inr (lacks input e (λ q r. cc (r.known)), (invalid, rw (e, k)))
      | inl k ↦ elim (Option-cases (read_reference (get input "operation_reference"))) [
        | inl h ↦ inr (lacks input e (λ q r. cc (r.reference)), (invalid, rw (e, k, h)))
        | inr (r, hr) ↦ elim (Option-cases (read_trigger (get input "trigger"))) [
          | inl h ↦ inr (lacks input e (λ q r. cc (r.trigger)), (invalid, rw (e, k, hr, h)))
          | inr (t, ht) ↦ elim (Option-cases (read_text (get input "reason") 500)) [
            | inl h ↦ inr (lacks input e (λ q r. cc (r.reason)), (invalid, rw (e, k, hr, ht, h)))
            | inr (a, ha) ↦ elim (Option-cases (read_text (get input "summary") 2_000)) [
              | inl h ↦
                  inr (lacks input e (λ q r. cc (r.summary)), (invalid, rw (e, k, hr, ht, ha, h)))
              | inr (b, hb) ↦ elim (Option-cases (read_text (get input "requested_action") 500)) [
                | inl h ↦
                    inr (
                      lacks input e (λ q r. cc (r.action)),
                      (invalid, rw (e, k, hr, ht, ha, hb, h)),
                    )
                | inr (c, hc) ↦ inl (
                  input,
                  e,
                  (
                    _,
                    record {
                      known = k;
                      reference = hr;
                      trigger = ht;
                      reason = ha;
                      summary = hb;
                      action = hc;
                    },
                    rw (e, k, hr, ht, ha, hb, hc),
                  ),
                )
              ]
            ]
          ]
        ]
      ]
    ]
  ]

module _ (repository : EscalationRepository) (scope : ToolCallScope) {Num : Type 0} where
  -- A request is read and reaches the repository, or neither.
  abbrev pub Starts : Value Num → String → List EscalationCall → Type 0
  Starts v id log =
      ((input : Fields Num) × (plain_object v ≡ some input)
        × ((request : EscalationRequest) × Reads input request
            × IsRequest request
            × (is_blank id ≡ false)
            × (start repository scope v id log ≡ (
              repository.create (create scope request id ∷ log),
              create scope request id ∷ log,
            ))))
      ⊎ (((is_blank id ≡ true) ⊎ (¬ Object Readable v))
          × ((e : Thrown) × (start repository scope v id log ≡ (err e, log))))

  -- A case that is opened is opened by one call of the repository, under the caller's own scope,
  -- with a request read field by field from the input: a well-formed reference if any, and trimmed
  -- texts that are not blank and within their bounds. Where the tool call id is blank or no request
  -- can be read, `start` throws and calls nothing.
  pub start-IsRequest : (v : Value Num) (id : String) (log : List EscalationCall) → Starts v id log
  unfolding start
  start-IsRequest v id log = elim (Bool-cases (is_blank id)) [
    | inl blank ↦ inr (inl blank, (invalid, rw blank))
    | inr there ↦ elim (read_request-cases v log) [
      | inr (none_reads, (e, h)) ↦ inr (inr none_reads, (e, rw (there, h)))
      | inl (input, e, (request, r, h)) ↦ inl (
        input,
        e,
        (request, (Finds-Reads input request).0 r, Finds-IsRequest r, there, rw (there, h)),
      )
    ]
  ]
