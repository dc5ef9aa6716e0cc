-- ===== src/OperationRead.antt =====
-- backend/src/domain/operation-read-service.ts: what a caller may list.
-- The repository is a parameter that answers in any way.
use ctrl_alt_ship.Prelude.{
  String, ◌≡◌, refl, Bool, true, false, ◌⊎◌, inl, inr, ◌≢◌, Option, List, ◌∷◌, Result, ok, err, Act,
  perform, demand, ◌>>=◌, ◌>>◌, arith,
}
use ctrl_alt_ship.ToolError.{Thrown, tool_error, not_authorized}
use ctrl_alt_ship.CallFlow.{ToolCallScope, Persona, client, provider, persona}
use ctrl_alt_ship.ProviderState.{ProviderBookingSummary}

pub record ClientOperationSummary : Type 0 where
  pub operation_reference : String
  pub operation_name : String
  pub status : String
  pub container_type : Option String
  pub pickup_location : Option String
  pub delivery_location : Option String
  pub updated_at : String

pub data ReadCall : Type 0 where
  is_authorized : ToolCallScope → ReadCall
  list_for_client : (contact_id : String) → ReadCall
  list_for_provider : ToolCallScope → ReadCall

pub record OperationReadRepository : Type 0 where
  pub is_authorized : List ReadCall → Result Thrown Bool
  pub list_for_client : List ReadCall → Result Thrown (List ClientOperationSummary)
  pub list_for_provider : List ReadCall → Result Thrown (List ProviderBookingSummary)

abbrev same_persona : Persona → Persona → Bool
same_persona client client = true
same_persona provider provider = true
same_persona _ _ = false

persona-cases :
    (p q : Persona) → ((p ≡ q) × (same_persona p q ≡ true)) ⊎ ((p ≢ q) × (same_persona p q ≡ false))
persona-cases client client = inl (refl, refl)
persona-cases provider provider = inl (refl, refl)
persona-cases client provider = inr (λ e. cc, refl)
persona-cases provider client = inr (λ e. cc, refl)

module _ (repository : OperationReadRepository) (scope : ToolCallScope) where
  -- `authorize`: the repository is asked only where the persona fits.
  unfoldable pub authorize : Persona → Act Thrown ReadCall Unit
  authorize expected = do
    demand (same_persona (persona scope.flow) expected) (tool_error not_authorized)
    authorized ← perform (is_authorized scope) repository.is_authorized
    demand authorized (tool_error not_authorized)

  unfoldable pub list_client_operations : Act Thrown ReadCall (List ClientOperationSummary)
  list_client_operations = do
    authorize client
    perform (list_for_client scope.counterparty_id) repository.list_for_client

  unfoldable pub list_provider_operations : Act Thrown ReadCall (List ProviderBookingSummary)
  list_provider_operations = do
    authorize provider
    perform (list_for_provider scope) repository.list_for_provider

  abbrev pub IsAuthorized : Persona → List ReadCall → Type 0
  IsAuthorized expected log =
      (persona scope.flow ≡ expected)
      × (repository.is_authorized (is_authorized scope ∷ log) ≡ ok true)

  -- It throws, and nothing but the authorization was asked for.
  abbrev pub Stops : {A : Type 0} → List ReadCall → Result Thrown A × List ReadCall → Type 0
  Stops log final =
      (e : Thrown) × (final.0 ≡ err e) × ((final.1 ≡ log) ⊎ (final.1 ≡ is_authorized scope ∷ log))

  authorize-cases :
      (expected : Persona) (log : List ReadCall)
      → (IsAuthorized expected log × (authorize expected log ≡ (ok tt, is_authorized scope ∷ log)))
        ⊎ (¬ IsAuthorized expected log × Stops log (authorize expected log))
  unfolding authorize
  authorize-cases expected log = elim (persona-cases (persona scope.flow) expected) [
    | inr (other, h) ↦ inr (λ a. other a.0, (tool_error not_authorized, rw h, inl (rw h)))
    | inl (same, h) ↦
        answer-cases h same (repository.is_authorized (is_authorized scope ∷ log)) refl
  ]
    where
      answer-cases :
          same_persona (persona scope.flow) expected ≡ true
          → persona scope.flow ≡ expected
          → (r : Result Thrown Bool) → repository.is_authorized (is_authorized scope ∷ log) ≡ r
          → (IsAuthorized expected log
              × (authorize expected log ≡ (ok tt, is_authorized scope ∷ log)))
            ⊎ (¬ IsAuthorized expected log × Stops log (authorize expected log))
      answer-cases h same (ok true) e = inl ((same, e), rw (h, e))
      answer-cases h same (ok false) e =
          inr (λ a. cc (a.1), (tool_error not_authorized, rw (h, e), inr (rw (h, e))))
      answer-cases h same (err thrown) e = inr (λ a. cc (a.1), (thrown, rw (h, e), inr (rw (h, e))))

  -- Each list is read by the one repository call it stands for, or not at all.
  abbrev pub ReadsLists : List ReadCall → Type 0
  ReadsLists log =
      ((IsAuthorized client log
          × (list_client_operations log ≡ (
            repository.list_for_client
                (list_for_client scope.counterparty_id ∷ is_authorized scope ∷ log),
            list_for_client scope.counterparty_id ∷ is_authorized scope ∷ log,
          )))
        ⊎ (¬ IsAuthorized client log × Stops log (list_client_operations log)))
      × ((IsAuthorized provider log
            × (list_provider_operations log ≡ (
              repository.list_for_provider (list_for_provider scope ∷ is_authorized scope ∷ log),
              list_for_provider scope ∷ is_authorized scope ∷ log,
            )))
          ⊎ (¬ IsAuthorized provider log × Stops log (list_provider_operations log)))

  -- Each list is read just where the persona fits and the repository, asked first, has authorized
  -- the call: a client's for its own contact, a provider's under its scope. Otherwise it throws and
  -- no list is read.
  lists_authorized : (log : List ReadCall) → ReadsLists log
  unfolding list_client_operations list_provider_operations
  lists_authorized log = (
    elim (authorize-cases client log) [
      | inl (a, h) ↦ inl (a, rw h)
      | inr (other, stops) ↦
          inr (other, (stops.0, ground (arith, stops.1), ground (arith, stops.1, stops.2)))
    ],
    elim (authorize-cases provider log) [
      | inl (a, h) ↦ inl (a, rw h)
      | inr (other, stops) ↦
          inr (other, (stops.0, ground (arith, stops.1), ground (arith, stops.1, stops.2)))
    ],
  )
