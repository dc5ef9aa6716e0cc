-- ===== src/Telephony/Admission.antt =====
-- Which inbound calls are taken, and the scope that their tools get.
use mathlib.Core.Path.{subst}
use ctrl_alt_ship.Prelude.{
  String, ◌≡◌, refl, ap, ◌∙◌, sym, inl, inr, true, false, Option, none, some, List, ◌∷◌, ok,
  Result-cases, Bool-cases, Option-cases, ◌==◌,
}
use ctrl_alt_ship.CallFlow.{Flow, client_inbound, provider_inbound, inbound}
use ctrl_alt_ship.Telephony.Routing.{
  CounterpartyIdentity, client_identity, provider_identity, AcceptedRoutingDecision, accept,
  IncomingCallEvent, extract_caller_phone, extract_twilio_call_sid, RoutingCall, find_identity,
  RoutingDependencies, is_active, is_unauthorized, inbound_purpose, admit, operations_of, judge,
  accepted, route_incoming_call,
}
use ctrl_alt_ship.Telephony.Scope.{resolve_call_scope, party_scope}

abbrev pub party_id : CounterpartyIdentity → String
party_id (client_identity c) = c.contact_id
party_id (provider_identity p) = p.provider_id

abbrev pub party_flow : CounterpartyIdentity → Flow
party_flow (client_identity c) = client_inbound
party_flow (provider_identity p) = provider_inbound

party_scope-own :
    {OperationContext : Type 0} (a : AcceptedRoutingDecision OperationContext) (id : String)
    (identity : CounterpartyIdentity)
    → party_scope a id (inbound_purpose identity) identity
      ≡ ok (record {
        call_id = id;
        realtime_call_id = a.call_id;
        counterparty_id = party_id identity;
        flow = party_flow identity;
      })
party_scope-own a id (client_identity c) = refl
party_scope-own a id (provider_identity p) = refl

module _ {OperationContext : Type 0} (d : RoutingDependencies OperationContext)
    (event : IncomingCallEvent) (log : List RoutingCall) where
  -- The caller is who the database says it is, active and, if a client, authorized.
  pub record Admitted (a : AcceptedRoutingDecision OperationContext) : Type 0 where
    pub phone : extract_caller_phone event.sip_headers ≡ some a.caller_phone
    pub found : d.find_identity (find_identity a.caller_phone ∷ log) ≡ ok (some a.identity)
    pub active : is_active a.identity ≡ true
    pub authorized : is_unauthorized a.identity ≡ false
    pub sid : extract_twilio_call_sid event.sip_headers ≡ some a.twilio_call_sid
    pub call : a.call_id ≡ event.call_id
    pub inward : a.direction ≡ inbound
    pub not_outbound : a.outbound ≡ none
    pub purpose : a.purpose ≡ inbound_purpose a.identity

  admit-accepted :
      (phone : String) (identity : CounterpartyIdentity) (calls : List RoutingCall)
      (a : AcceptedRoutingDecision OperationContext)
      → (admit d event phone identity calls).0 ≡ ok (accept a)
      → (sid : String) × (operations : List OperationContext) × (extract_twilio_call_sid
            event.sip_headers
          ≡ some sid)
        × (accepted d event phone identity sid operations ≡ a)
  unfolding admit
  admit-accepted phone identity calls a =
      elim (Option-cases (extract_twilio_call_sid event.sip_headers)) [
        | inl s ↦ rw s (λ e. cc e)
        | inr (sid, s) ↦ elim (Result-cases (operations_of d event identity calls).0) [
          | inl (operations, o) ↦ rw (s, o) (λ e. (sid, operations, refl, cc e))
          | inr (error, o) ↦ rw (s, o) (λ e. cc e)
        ]
      ]

  judge-accepts :
      (phone : String) (found : Option CounterpartyIdentity) (calls : List RoutingCall)
      (a : AcceptedRoutingDecision OperationContext)
      → (judge d event phone found calls).0 ≡ ok (accept a)
      → (identity : CounterpartyIdentity) × (found ≡ some identity)
        × (is_active identity ≡ true)
        × (is_unauthorized identity ≡ false)
        × ((admit d event phone identity calls).0 ≡ ok (accept a))
  judge-accepts phone none calls a = λ e. cc e
  judge-accepts phone (some identity) calls a = elim (Bool-cases (is_active identity)) [
    | inr p ↦ rw p (λ e. cc e)
    | inl p ↦ elim (Bool-cases (is_unauthorized identity)) [
      | inl q ↦ rw (p, q) (λ e. cc e)
      | inr q ↦ rw (p, q) (λ e. (identity, refl, p, q, e))
    ]
  ]

  -- An inbound call is accepted only for a caller whom the database knows by the phone in the SIP
  -- headers, who is active and, as a client, authorized; the decision carries that identity and phone.
  pub route_incoming_call-Admitted :
      (a : AcceptedRoutingDecision OperationContext)
      → (route_incoming_call d event log).0 ≡ ok (accept a)
      → Admitted a
  unfolding route_incoming_call
  route_incoming_call-Admitted a = elim (Option-cases (extract_caller_phone event.sip_headers)) [
    | inl e ↦ rw e (λ h. cc h)
    | inr (phone, e) ↦ elim (Result-cases (d.find_identity (find_identity phone ∷ log))) [
      | inr (error, f) ↦ rw (e, f) (λ h. cc h)
      | inl (found, f) ↦
          rw (e, f)
            (λ h.
              let (identity, known, active, authorized, admitted) =
                judge-accepts phone found (find_identity phone ∷ log) a h in
              let (sid, operations, s, same) =
                admit-accepted phone identity (find_identity phone ∷ log) a admitted in
              subst Admitted same (record {
                phone = e;
                found = f ∙ ap ok known;
                active = active;
                authorized = authorized;
                sid = s;
                call = refl;
                inward = refl;
                not_outbound = refl;
                purpose = refl;
              }))
    ]
  ]

  -- For a call that was accepted, and any persisted call id that is not empty, the scope can be made:
  -- it is that of the identified caller, inbound, with the persisted id and the event's call id.
  pub route-scope :
      (a : AcceptedRoutingDecision OperationContext) (persisted_call_id : String)
      → (route_incoming_call d event log).0 ≡ ok (accept a)
      → (persisted_call_id == "") ≡ false
      → resolve_call_scope a persisted_call_id
        ≡ ok (record {
          call_id = persisted_call_id;
          realtime_call_id = event.call_id;
          counterparty_id = party_id a.identity;
          flow = party_flow a.identity;
        })
  unfolding resolve_call_scope
  route-scope a id h nonempty =
      let r = route_incoming_call-Admitted a h in
      rw (nonempty, r.not_outbound, r.inward, r.purpose, sym r.call)
        (party_scope-own a id a.identity)
