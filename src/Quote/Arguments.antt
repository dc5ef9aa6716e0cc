-- ===== src/Quote/Arguments.antt =====
-- The arguments that the quote tools document, as predicates beside the code's tests.
use ctrl_alt_ship.Prelude.{
  ◌≡◌, refl, ◌⊎◌, inl, inr, true, false, not, ◌&&◌, ◌||◌, List, [], ◌∷◌, arith, eqb, Bool-cases,
  Option-cases,
}
use ctrl_alt_ship.Js.{
  Runtime, Value, num, str, Fields, get, has, only_keys, key_count, plain_object, is_amount, gt,
}
use ctrl_alt_ship.ToolError.{other_error}
use ctrl_alt_ship.Checks.{Object, Object-at, Decides, invalid}
use ctrl_alt_ship.Quote.Service.{
  is_true, is_boolean, is_text, is_reason, string_throws, money, range_ok, quote_keys, flags_ok,
  validate_quote, validate_decline,
}

module _ (js : Runtime) where
  -- An ordered range of two amounts of money.
  pub record RangeIs (price : Fields js.Num) : Type 0 where
    pub min : js.Num
    pub max : js.Num
    pub is_min : get price "min" ≡ num min
    pub is_max : get price "max" ≡ num max
    pub min_amount : is_amount js 2 999_999_999_999_990 min ≡ true
    pub max_amount : is_amount js 2 999_999_999_999_990 max ≡ true
    pub ordered : gt js min max ≡ false

  money-num :
      (v : Value js.Num)
      → money js v ≡ true
      → (x : js.Num) × (v ≡ num x) × (is_amount js 2 999_999_999_999_990 x ≡ true)
  money-num (num x) h = (x, refl, h)
  money-num _ h = cc

  range_ok_sound : (price : Fields js.Num) → range_ok js price ≡ true → RangeIs price
  range_ok_sound price h =
      let (x, is_x, amount_x) = money-num (get price "min") (ground arith) in
      let (y, is_y, amount_y) = money-num (get price "max") (ground arith) in
      record {
        min = x;
        max = y;
        is_min = is_x;
        is_max = is_y;
        min_amount = amount_x;
        max_amount = amount_y;
        ordered = ground arith;
      }

  range_ok_complete : (price : Fields js.Num) → RangeIs price → range_ok js price ≡ true
  range_ok_complete price r = rw (r.is_min, r.is_max, r.min_amount, r.max_amount, r.ordered)

  pub record PriceFields (price : Fields js.Num) : Type 0 where
    pub two : key_count price ≡ 2
    pub range : RangeIs price

  -- An approval above the budget or a stop by the provider is a flag; a stop needs the approval.
  pub record QuoteFields (fs : Fields js.Num) : Type 0 where
    pub known : only_keys (quote_keys js) fs ≡ true
    pub priced : has fs "price_range" ≡ true
    pub approval :
        (has fs "accept_above_budget" ≡ false) ⊎ (is_boolean (get fs "accept_above_budget") ≡ true)
    pub stop :
        (has fs "negotiation_stopped_by_provider" ≡ false)
        ⊎ (is_boolean (get fs "negotiation_stopped_by_provider") ≡ true)
    pub stop_is_approved :
        (is_true (get fs "negotiation_stopped_by_provider") ≡ false)
        ⊎ (is_true (get fs "accept_above_budget") ≡ true)
    pub price : Object PriceFields (get fs "price_range")

  pub record DeclineFields (fs : Fields js.Num) : Type 0 where
    pub known : only_keys ("operation_reference" ∷ "reason" ∷ "details" ∷ []) fs ≡ true
    pub reason : is_reason (get fs "reason") ≡ true
    pub details : (has fs "details" ≡ false) ⊎ (is_text (get fs "details") ≡ true)

  is_reason-string : (v : Value js.Num) → is_reason v ≡ true → string_throws v ≡ false
  is_reason-string (str s) h = refl
  is_reason-string _ h = absurd (ground arith)

  module _ {C : Type 0} (log : List C) (fs : Fields js.Num) where
    pub quote-decides : Decides log (validate_quote js fs log) (QuoteFields fs)
    unfolding validate_quote flags_ok
    quote-decides = elim (Bool-cases (flags_ok js fs)) [
      | inr failed ↦ inr (
        λ q. ground (arith, q.known, q.priced, q.approval, q.stop, q.stop_is_approved),
        (invalid, ground arith),
      )
      | inl passed ↦ elim (Option-cases (plain_object (get fs "price_range"))) [
        | inl missing ↦ inr (λ q. cc (q.price.1), (invalid, ground arith))
        | inr (price, found) ↦ elim (Bool-cases (eqb (key_count price) 2 && range_ok js price)) [
          | inr failed ↦ inr (
            λ q.
                let p = Object-at PriceFields (get fs "price_range") price found q.price in
                ground (arith, p.two, range_ok_complete price p.range),
            (invalid, ground arith),
          )
          | inl range ↦ inl (
            record {
              known = ground arith;
              priced = ground arith;
              approval = ground arith;
              stop = ground arith;
              stop_is_approved = ground arith;
              price = (
                price,
                found,
                record { two = ground arith; range = range_ok_sound price (ground arith) },
              );
            },
            ground arith,
          )
        ]
      ]
    ]

    pub decline-decides : Decides log (validate_decline js fs log) (DeclineFields fs)
    unfolding validate_decline
    decline-decides =
        elim (Bool-cases (only_keys ("operation_reference" ∷ "reason" ∷ "details" ∷ []) fs)) [
          | inr failed ↦ inr (λ d. cc (d.known), (invalid, rw failed))
          | inl known ↦ elim (Bool-cases (string_throws (get fs "reason"))) [
            | inl throws ↦ inr (
              λ d. let s = is_reason-string (get fs "reason") d.reason in cc,
              (other_error "TypeError", rw (known, throws)),
            )
            | inr fine ↦
                elim (Bool-cases (
                  is_reason (get fs "reason")
                  && (not (has fs "details") || is_text (get fs "details")))) [
                    | inr failed ↦ inr (
                      λ d. ground (arith, d.reason, d.details),
                      (invalid, rw (known, fine, failed)),
                    )
                    | inl passed ↦ inl (
                      record { known = known; reason = ground arith; details = ground arith },
                      rw (known, fine, passed),
                    )
                  ]
          ]
        ]
