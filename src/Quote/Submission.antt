-- ===== src/Quote/Submission.antt =====
-- What reaches the quote repository, and from which calls.
use ctrl_alt_ship.Prelude.{
  String, ◌≡◌, refl, ◌≢◌, ◌⊎◌, inl, inr, true, false, Option, none, some, List, ◌∷◌, arith, err,
  Bool-cases, Option-cases, eq_iff,
}
use ctrl_alt_ship.Js.{Runtime, Value, undefined, str, Fields, get, plain_object, is_blank}
use ctrl_alt_ship.ToolError.{Thrown, tool_error, not_authorized}
use ctrl_alt_ship.CallFlow.{Flow, provider_outbound, provider, outbound, persona, direction}
use ctrl_alt_ship.Checks.{Object, Object-at, Decides, invalid}
use ctrl_alt_ship.ProviderState.{ProviderCommandTarget, ProviderOutboundState}
use ctrl_alt_ship.Quote.Types.{
  ProviderQuoteToolName, create_quote, decline_quote_request, QuoteCall, command,
  ProviderQuoteRepository, ProviderQuoteService,
}
use ctrl_alt_ship.Quote.Service.{
  is_outbound, optional_reference, command_target, own_reference, given_reference, same_reference,
  validate, read, execute, record_offer,
}
use ctrl_alt_ship.Quote.Arguments.{QuoteFields, DeclineFields, quote-decides, decline-decides}

is_outbound-cases :
    (flow : Flow)
    → ((persona flow ≢ provider) ⊎ (direction flow ≢ outbound))
    → is_outbound flow ≡ false
is_outbound-cases (provider_outbound p) h = absurd (grind arith)
is_outbound-cases _ h = refl

same_reference-named :
    {Num : Type 0} (v : Value Num) (own : Option String)
    → same_reference (given_reference v own) own ≡ true
    → (r : String) × (own ≡ some r) × ((v ≡ str r) ⊎ ((s : String) → v ≢ str s))
same_reference-named (str s) none h = cc
same_reference-named (str s) (some r) h = (r, refl, inl (ground (arith, eq_iff s r)))
same_reference-named undefined none h = cc
same_reference-named _ none h = cc
same_reference-named undefined (some r) h = (r, refl, inr (λ s e. cc))
same_reference-named _ (some r) h = (r, refl, inr (λ s e. cc))

module _ (js : Runtime) (repository : ProviderQuoteRepository js.Num)
    (service : ProviderQuoteService js.Num) where
  -- A call that is not a provider's outbound one is refused by every operation, and nothing is
  -- asked of the repository.
  pub quotes_unauthorized :
      (name : ProviderQuoteToolName) (args : Value js.Num) (id : String) (evidence : Option String)
      (log : List (QuoteCall js.Num))
      → ((persona service.scope.flow ≢ provider) ⊎ (direction service.scope.flow ≢ outbound))
      → (execute js repository service name args id evidence log
          ≡ (err (tool_error not_authorized), log))
        × (record_offer js repository service args id log ≡ (err (tool_error not_authorized), log))
        × (read js repository service log ≡ (err (tool_error not_authorized), log))
  unfolding execute record_offer read
  quotes_unauthorized name args id evidence log h =
      rw (is_outbound-cases service.scope.flow h) (refl, refl, refl)

  abbrev pub CommandFields : ProviderQuoteToolName → Fields js.Num → Type 0
  CommandFields create_quote fs = QuoteFields js fs
  CommandFields decline_quote_request fs = DeclineFields js fs

  -- The arguments of a command: a reference, if any, is well formed, and the rest is documented.
  abbrev pub Documented : ProviderQuoteToolName → Fields js.Num → Type 0
  Documented name fs = (optional_reference js fs ≡ true) × CommandFields name fs

  validate-decides :
      (name : ProviderQuoteToolName) (fs : Fields js.Num) (log : List (QuoteCall js.Num))
      → Decides log (validate js name fs log) (CommandFields name fs)
  validate-decides create_quote fs log = quote-decides js log fs
  validate-decides decline_quote_request fs log = decline-decides js log fs

  abbrev pub call_of :
      ProviderQuoteToolName → String → Fields js.Num → Option String → QuoteCall js.Num
  call_of name id fs evidence =
      command service.scope name id fs (command_target service.state fs) evidence

  -- The arguments are documented and the command reaches the repository, or neither.
  abbrev pub QuoteSubmits :
      ProviderQuoteToolName
      → Value js.Num
      → String
      → Option String
      → List (QuoteCall js.Num)
      → Type 0
  QuoteSubmits name args id evidence log =
      ((fs : Fields js.Num) × (plain_object args ≡ some fs)
        × Documented name fs
        × (execute js repository service name args id evidence log ≡ (
          repository.execute (call_of name id fs evidence ∷ log),
          call_of name id fs evidence ∷ log,
        )))
      ⊎ (¬ Object (Documented name) args
          × ((e : Thrown) × (execute js repository service name args id evidence log
                ≡ (err e, log))))

  -- For a provider's outbound call and a tool call id that is not blank: a quote or a refusal with
  -- documented arguments makes the one repository call it stands for; any other throws and calls
  -- nothing.
  pub quote-submits :
      (name : ProviderQuoteToolName) (args : Value js.Num) (id : String) (evidence : Option String)
      (log : List (QuoteCall js.Num))
      → is_outbound service.scope.flow ≡ true
      → is_blank id ≡ false
      → QuoteSubmits name args id evidence log
  unfolding execute
  quote-submits name args id evidence log scoped given = elim (Option-cases (plain_object args)) [
    | inl missing ↦ inr (λ d. cc (d.1), (invalid, rw (scoped, given, missing)))
    | inr (fs, e) ↦ elim (Bool-cases (optional_reference js fs)) [
      | inr failed ↦ inr (
        λ d. let c = Object-at (Documented name) args fs e d in cc (c.0),
        (invalid, rw (scoped, given, e, failed)),
      )
      | inl named ↦ elim (validate-decides name fs log) [
        | inr (other, (thrown, h)) ↦ inr (
          λ d. let c = Object-at (Documented name) args fs e d in other c.1,
          (thrown, rw (scoped, given, e, named, h)),
        )
        | inl (fields, h) ↦ inl (fs, e, (named, fields), rw (scoped, given, e, named, h))
      ]
    ]
  ]

  -- The saved command target accompanies a command only if the saved operation has a reference and
  -- the command names that operation, or none.
  pub command_target-some :
      (state : ProviderOutboundState js.Num) (fs : Fields js.Num) (target : ProviderCommandTarget)
      → command_target (some state) fs ≡ some target
      → (state.command_target ≡ some target)
        × ((reference : String) × (own_reference (some state) ≡ some reference)
            × ((get fs "operation_reference" ≡ str reference)
                ⊎ ((s : String) → get fs "operation_reference" ≢ str s)))
  unfolding command_target
  command_target-some state fs target h = (
    ground arith,
    same_reference-named (get fs "operation_reference") (own_reference (some state)) (ground arith),
  )
