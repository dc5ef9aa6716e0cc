-- ===== src/Telephony/Persistence/Scope.antt =====
-- What belongs to a routed call, apart from the code's tests.
use ctrl_alt_ship.Prelude.{
  String, ◌≡◌, refl, ap, ◌⊎◌, ◌↔◌, inl, inr, true, map, &&-eq-true, Option, none, some, ◌==◌,
  eq_iff,
}
use ctrl_alt_ship.CallFlow.{Persona, client, provider}
use ctrl_alt_ship.Telephony.Outbound.{same_id}
use ctrl_alt_ship.Telephony.Routing.{
  AcceptedRoutingDecision, CounterpartyIdentity, client_identity, provider_identity, OutboundFields,
}
use ctrl_alt_ship.Telephony.Persistence.{
  ExistingCall, NewCall, RoutedEvent, direction_text, purpose_text, persona_of, persona_text,
  contact_of, provider_of, or_text, party_matches, intent_of, scope_matches, existing_matches,
  outbound_matches, new_call, routed_event,
}

-- The columns for the party hold this party and no other.
abbrev pub IsParty :
    CounterpartyIdentity → Persona → (contact_id provider_id : Option String) → Type 0
IsParty (client_identity c) p contact provider_id =
    (p ≡ client) × (contact ≡ some c.contact_id) × (provider_id ≡ none)
IsParty (provider_identity i) p contact provider_id =
    (p ≡ provider) × (provider_id ≡ some i.provider_id) × (contact ≡ none)

abbrev pub HasParty : CounterpartyIdentity → ExistingCall → Type 0
HasParty (client_identity c) row = (row.persona ≡ "client") × (row.contact_id ≡ some c.contact_id)
HasParty (provider_identity p) row =
    (row.persona ≡ "provider") × (row.provider_id ≡ some p.provider_id)

abbrev pub IsPersona : CounterpartyIdentity → Persona → Type 0
IsPersona (client_identity c) persona = persona ≡ client
IsPersona (provider_identity p) persona = persona ≡ provider

-- A dialed call has its own row, with its request.
abbrev pub IsDialed : Option OutboundFields → Option ExistingCall → Type 0
IsDialed none row = Unit
IsDialed (some o) none = ⊥
IsDialed (some o) (some row) =
    (row.id ≡ o.call_record_id) × (row.quote_request_id ≡ some o.quote_request_id)

-- The provider's intent in the row, else the client's, else "undecided".
abbrev pub IsIntent : Option ExistingCall → String → Type 0
IsIntent none intent = intent ≡ "undecided"
IsIntent (some row) intent =
    (row.provider_intent ≡ some intent)
    ⊎ ((row.provider_intent ≡ none) × (row.operation_intent ≡ some intent))
    ⊎ ((row.provider_intent ≡ none) × (row.operation_intent ≡ none) × (intent ≡ "undecided"))

same_id_iff : (a : Option String) (b : String) → (same_id a (some b) ≡ true) ↔ (a ≡ some b)
same_id_iff none b = (λ h. cc h, λ h. cc h)
same_id_iff (some a) b = (λ h. ap some ((eq_iff a b).0 h), λ h. (eq_iff a b).1 (cc h))

or_text-IsIntent :
    (first second : Option String) (row : ExistingCall)
    → row.provider_intent ≡ first
    → row.operation_intent ≡ second
    → IsIntent (some row) (or_text first (or_text second "undecided"))
or_text-IsIntent (some intent) second row h k = inl h
or_text-IsIntent none (some intent) row h k = inr (inl (h, k))
or_text-IsIntent none none row h k = inr (inr (h, k, refl))

party_iff :
    (i : CounterpartyIdentity) (row : ExistingCall)
    → (row.persona == persona_text (persona_of i) ≡ true) × (party_matches i row ≡ true)
      ↔ HasParty i row
party_iff (client_identity c) row =
    let (to, from) = same_id_iff row.contact_id c.contact_id in
    (
      λ (h, k). ((eq_iff row.persona "client").0 h, to k),
      λ (h, k). ((eq_iff row.persona "client").1 h, from k),
    )
party_iff (provider_identity p) row =
    let (to, from) = same_id_iff row.provider_id p.provider_id in
    (
      λ (h, k). ((eq_iff row.persona "provider").0 h, to k),
      λ (h, k). ((eq_iff row.persona "provider").1 h, from k),
    )

identity-IsParty :
    (i : CounterpartyIdentity) → IsParty i (persona_of i) (contact_of i) (provider_of i)
identity-IsParty (client_identity c) = (refl, refl, refl)
identity-IsParty (provider_identity p) = (refl, refl, refl)

persona-IsPersona : (i : CounterpartyIdentity) → IsPersona i (persona_of i)
persona-IsPersona (client_identity c) = refl
persona-IsPersona (provider_identity p) = refl

module _ {Operation : Type 0} (reference : Operation → String)
    (d : AcceptedRoutingDecision Operation) where
  -- The row that is inserted: the call's own identifiers, purpose and party.
  pub record IsNew (n : NewCall) : Type 0 where
    pub network_id : n.twilio_call_sid ≡ d.twilio_call_sid
    pub realtime_id : n.realtime_call_id ≡ d.call_id
    pub purpose : n.purpose ≡ d.purpose
    pub party : IsParty d.identity n.persona n.contact_id n.provider_id

  -- The event that is stored: of this row, with the call's direction, party and operations.
  pub record IsRouted (row : Option ExistingCall) (id : String) (operation_id : Option String)
      (e : RoutedEvent) : Type 0 where
    pub operation : e.operation_id ≡ operation_id
    pub call : e.call_id ≡ id
    pub direction : e.direction ≡ d.direction
    pub persona : IsPersona d.identity e.persona
    pub intent : IsIntent row e.intent
    pub operations : e.candidate_operation_references ≡ map reference d.operations

  -- The row has the direction, the purpose and the party of the call.
  pub record HasScope (row : ExistingCall) : Type 0 where
    pub direction : row.direction ≡ direction_text d.direction
    pub purpose : row.purpose ≡ purpose_text d.purpose
    pub party : HasParty d.identity row

  -- So has every row that is there.
  abbrev pub Fits : Option ExistingCall → Type 0
  Fits none = Unit
  Fits (some row) = HasScope row

  pub new_call-IsNew : IsNew (new_call reference d)
  unfolding new_call
  new_call-IsNew = record {
    network_id = refl;
    realtime_id = refl;
    purpose = refl;
    party = identity-IsParty d.identity;
  }

  intent_of-IsIntent : (r : Option ExistingCall) → IsIntent r (intent_of reference d r)
  intent_of-IsIntent none = refl
  intent_of-IsIntent (some r) = or_text-IsIntent r.provider_intent r.operation_intent r refl refl

  pub routed_event-IsRouted :
      (row : Option ExistingCall) (id : String) (operation_id : Option String)
      → IsRouted row id operation_id (routed_event reference d row id operation_id)
  unfolding routed_event
  routed_event-IsRouted row id operation_id = record {
    operation = refl;
    call = refl;
    direction = refl;
    persona = persona-IsPersona d.identity;
    intent = intent_of-IsIntent row;
    operations = refl;
  }

  scope_matches_iff : (row : ExistingCall) → (scope_matches reference d row ≡ true) ↔ HasScope row
  unfolding scope_matches
  scope_matches_iff row =
      let (to, from) = party_iff d.identity row in
      (
        λ h.
            let (h₁, party) = (&&-eq-true _ _).0 h in
            let (h₂, persona) = (&&-eq-true _ _).0 h₁ in
            let (direction, purpose) = (&&-eq-true _ _).0 h₂ in
            record {
              direction = (eq_iff _ _).0 direction;
              purpose = (eq_iff _ _).0 purpose;
              party = to (persona, party);
            },
        λ k.
            let (persona, party) = from k.party in
            (&&-eq-true _ _).1 (
              (&&-eq-true _ _).1 (
                (&&-eq-true _ _).1 ((eq_iff _ _).1 k.direction, (eq_iff _ _).1 k.purpose),
                persona,
              ),
              party,
            ),
      )

  pub existing_matches_iff :
      (row : Option ExistingCall) → (existing_matches reference d row ≡ true) ↔ Fits row
  unfolding existing_matches
  existing_matches_iff none = (λ h. tt, λ h. refl)
  existing_matches_iff (some row) = scope_matches_iff row

  pub outbound_matches_iff :
      (o : Option OutboundFields) (row : Option ExistingCall)
      → (outbound_matches reference d o row ≡ true) ↔ IsDialed o row
  unfolding outbound_matches
  outbound_matches_iff none row = (λ h. tt, λ h. refl)
  outbound_matches_iff (some o) none = (λ h. cc h, λ h. absurd h)
  outbound_matches_iff (some o) (some row) =
      let (to, from) = same_id_iff row.quote_request_id o.quote_request_id in
      (
        λ h. let (a, b) = (&&-eq-true _ _).0 h in ((eq_iff _ _).0 a, to b),
        λ (a, b). (&&-eq-true _ _).1 ((eq_iff _ _).1 a, from b),
      )
