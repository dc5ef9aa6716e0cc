-- ===== src/Tools/Session/Offers.antt =====
-- What `definitions` can offer.
use ctrl_alt_ship.Prelude.{
  String, ◌≡◌, refl, inl, inr, Bool, true, false, not, ◌||◌, Option, none, some, is_some, List, [],
  ◌∷◌, arith, includes, includes-keep, ◌==◌, eq_iff, Bool-cases,
}
use ctrl_alt_ship.Client.Types.{ClientFlowState, ClientProfile}
use ctrl_alt_ship.ProviderState.{
  ProviderCallState, InboundProfile, OutboundProfile, provider_inbound, provider_outbound,
  ProviderBookingSummary,
}
use ctrl_alt_ship.Tools.Session.Definitions.{
  Setup, CallToolSession, escalation_controls, definitions, provider_names, client_names,
  inbound_names, outbound_names, profile_names,
}

module _ {Num : Type 0} (u : Setup) (s : CallToolSession Num) (name : String) where
  -- Every tool offered is registered.
  pub offered-registered : includes (definitions u s) name ≡ true → includes u.tools name ≡ true
  unfolding definitions
  offered-registered h = elim (Bool-cases (s.ready)) [
    | inr unready ↦ ground arith
    | inl ready ↦ elim (Bool-cases s.pending_escalation) [
      | inl pending ↦
          (includes-keep (includes escalation_controls) u.tools name (rw (ready, pending) at h)).1
      | inr free ↦ elim (Bool-cases (u.provider_service || u.booking_service)) [
        | inl provider ↦
            (includes-keep (includes (provider_names s.provider_state)) u.tools name
              (rw (ready, free, provider) at h)).1
        | inr other ↦ elim (Bool-cases u.client_service) [
          | inl client ↦
              (includes-keep (includes (client_names s.state)) u.tools name
                (rw (ready, free, other, client) at h)).1
          | inr none_left ↦
              (includes-keep (λ n. not (includes escalation_controls n)) u.tools name
                (rw (ready, free, other, none_left) at h)).1
        ]
      ]
    ]
  ]

  -- While an escalation is pending only its controls are offered.
  pub offered-pending :
      s.pending_escalation ≡ true
      → includes (definitions u s) name ≡ true
      → includes escalation_controls name ≡ true
  unfolding definitions
  offered-pending pending h = elim (Bool-cases s.ready) [
    | inr unready ↦ ground arith
    | inl ready ↦
        (includes-keep (includes escalation_controls) u.tools name (rw (ready, pending) at h)).0
  ]

inbound_names-controls :
    (p : InboundProfile) (bs : List ProviderBookingSummary)
    → (includes (inbound_names p bs) "confirm_escalation" ≡ false)
      × (includes (inbound_names p bs) "cancel_escalation" ≡ false)
inbound_names-controls InboundProfile.provider_inbound_entry [] = (refl, refl)
inbound_names-controls InboundProfile.provider_inbound_entry (b ∷ bs) = (refl, refl)
inbound_names-controls _ bs = (refl, refl)

outbound_names-controls :
    (p : OutboundProfile)
    → (includes (outbound_names p) "confirm_escalation" ≡ false)
      × (includes (outbound_names p) "cancel_escalation" ≡ false)
outbound_names-controls OutboundProfile.provider_quote = (refl, refl)
outbound_names-controls _ = (refl, refl)

provider_names-controls :
    {Num : Type 0} (p : Option (ProviderCallState Num))
    → (includes (provider_names p) "confirm_escalation" ≡ false)
      × (includes (provider_names p) "cancel_escalation" ≡ false)
provider_names-controls none = (refl, refl)
provider_names-controls (some (provider_inbound s)) = inbound_names-controls s.profile s.bookings
provider_names-controls (some (provider_outbound s)) = outbound_names-controls s.profile

profile_names-controls :
    (p : ClientProfile) (selected : Bool)
    → (includes (profile_names p selected) "confirm_escalation" ≡ false)
      × (includes (profile_names p selected) "cancel_escalation" ≡ false)
profile_names-controls ClientProfile.client_entry selected = (refl, refl)
profile_names-controls _ true = (refl, refl)
profile_names-controls _ false = (refl, refl)

client_names-controls :
    {Num : Type 0} (c : Option (ClientFlowState Num))
    → (includes (client_names c) "confirm_escalation" ≡ false)
      × (includes (client_names c) "cancel_escalation" ≡ false)
client_names-controls none = (refl, refl)
client_names-controls (some s) = profile_names-controls s.profile (is_some s.operation)

-- A list without the two controls offers none of them.
no_control :
    (names : List String) (name : String)
    → (includes names "confirm_escalation" ≡ false) × (includes names "cancel_escalation" ≡ false)
    → includes names name ≡ true
    → includes escalation_controls name ≡ false
no_control names name lacks h = elim (Bool-cases (includes escalation_controls name)) [
  | inr no_name ↦ no_name
  | inl control ↦ elim (Bool-cases ("confirm_escalation" == name)) [
    | inl e ↦ cc ((eq_iff "confirm_escalation" name).0 e, lacks.0)
    | inr other ↦ cc ((eq_iff "cancel_escalation" name).0 (ground arith), lacks.1)
  ]
]

module _ {Num : Type 0} (u : Setup) (s : CallToolSession Num) (name : String) where
  -- Without a pending escalation none of its controls is offered.
  pub offered-free :
      s.pending_escalation ≡ false
      → includes (definitions u s) name ≡ true
      → includes escalation_controls name ≡ false
  unfolding definitions
  offered-free free h = elim (Bool-cases s.ready) [
    | inr unready ↦ ground arith
    | inl ready ↦ elim (Bool-cases (u.provider_service || u.booking_service)) [
      | inl provider ↦
          no_control (provider_names s.provider_state) name
            (provider_names-controls s.provider_state)
            (includes-keep (includes (provider_names s.provider_state)) u.tools name
              (rw (ready, free, provider) at h)).0
      | inr other ↦ elim (Bool-cases u.client_service) [
        | inl client ↦
            no_control (client_names s.state) name (client_names-controls s.state)
              (includes-keep (includes (client_names s.state)) u.tools name
                (rw (ready, free, other, client) at h)).0
        | inr none_left ↦
            let k =
              includes-keep (λ n. not (includes escalation_controls n)) u.tools name
                (rw (ready, free, other, none_left) at h) in
            ground arith
      ]
    ]
  ]
