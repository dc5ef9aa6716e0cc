-- ===== src/Client/Accepted.antt =====
-- The operation fields that the client service accepts, as relations beside the code's tests. The
-- published tools offer fewer of them; the service takes all that are listed here.
use ctrl_alt_ship.Prelude.{
  String, ◌≡◌, refl, ◌≢◌, ◌↔◌, ◌⊎◌, inl, inr, Bool, true, false, Option, none, some, List, [], ◌∷◌,
  arith, eq_iff, All, includes, ◌==◌, Bool-cases,
}
use ctrl_alt_ship.Js.{Runtime, Value, null, num, str, arr, items, is_blank, is_amount}
use ctrl_alt_ship.Client.Fields.{field_ok, fields_ok, texts, all_distinct, distinct_texts}

abbrev pub IsTextKey : String → Type 0
IsTextKey k =
    (k ≡ "container_type")
    ⊎ (k ≡ "pickup_location")
    ⊎ (k ≡ "delivery_location")
    ⊎ (k ≡ "empty_return_depot")
    ⊎ (k ≡ "cargo_notes")

-- `ss` are the elements, each a text that is not blank.
abbrev pub AreTexts : {Num : Type 0} → List (Value Num) → List String → Type 0
AreTexts [] [] = Unit
AreTexts (str s ∷ vs) (t ∷ ss) = (s ≡ t) × (is_blank s ≡ false) × AreTexts vs ss
AreTexts _ _ = ⊥

abbrev pub AreDistinct : List String → Type 0
AreDistinct [] = Unit
AreDistinct (s ∷ ss) = All (λ t. t ≢ s) ss × AreDistinct ss

module _ (js : Runtime) where
  pub data FieldIs (nullable_notes : Bool) (key : String) : Value js.Num → Type 0 where
    a_text : {s : String} → IsTextKey key → is_blank s ≡ false → FieldIs nullable_notes key (str s)
    no_notes : key ≡ "cargo_notes" → nullable_notes ≡ true → FieldIs nullable_notes key null
    a_weight :
        {x : js.Num}
        → key ≡ "gross_weight_kg"
        → is_amount js 3 999_999_999_999 x ≡ true
        → FieldIs nullable_notes key (num x)
    constraints :
        {vs : _}
        → key ≡ "operational_constraints"
        → (ss : List String) → AreTexts (items vs) ss
        → AreDistinct ss
        → FieldIs nullable_notes key (arr vs)

  abbrev pub FieldsAre : Bool → List (String × Value js.Num) → Type 0
  FieldsAre nullable_notes [] = Unit
  FieldsAre nullable_notes ((key, v) ∷ fs) =
      FieldIs nullable_notes key v × FieldsAre nullable_notes fs

includes-eq-false : (ss : List String) (s : String) → (includes ss s ≡ false) ↔ All (λ t. t ≢ s) ss
includes-eq-false [] s = (λ _. tt, λ _. refl)
includes-eq-false (t ∷ ss) s =
    let (to, from) = includes-eq-false ss s in
    elim (Bool-cases (t == s)) [
      | inl same ↦ (rw same (λ h. cc), λ h. absurd (h.0 ((eq_iff t s).0 same)))
      | inr other ↦ rw other (λ h. (λ e. ground (arith, eq_iff t s), to h), λ h. from h.1)
    ]

all_distinct_iff : (ss : List String) → (all_distinct ss ≡ true) ↔ AreDistinct ss
all_distinct_iff [] = (λ _. tt, λ _. refl)
all_distinct_iff (s ∷ ss) =
    let (to, from) = includes-eq-false ss s in
    let (to', from') = all_distinct_iff ss in (λ h. ground arith, λ h. ground arith)

-- The elements are texts just if `texts` finds them.
texts_iff :
    {Num : Type 0} (vs : List (Value Num)) (ss : List String)
    → (texts vs ≡ some ss) ↔ AreTexts vs ss
texts_iff [] [] = (λ _. tt, λ _. refl)
texts_iff [] (t ∷ ss) = (λ h. cc, λ h. absurd h)
texts_iff (str s ∷ vs) [] = (λ h. ground arith, λ h. absurd h)
texts_iff (str s ∷ vs) (t ∷ ss) = (
  λ h. (ground arith, ground arith, (texts_iff vs ss).0 (ground arith)),
  λ h. ground (arith, (texts_iff vs ss).1 h.2),
)
texts_iff (null ∷ vs) [] = (λ h. cc, λ h. absurd h)
texts_iff (_ ∷ vs) [] = (λ h. cc, λ h. absurd h)
texts_iff (null ∷ vs) (t ∷ ss) = (λ h. cc, λ h. absurd h)
texts_iff (_ ∷ vs) (t ∷ ss) = (λ h. cc, λ h. absurd h)

distinct_texts-true :
    (o : Option (List String))
    → distinct_texts o ≡ true
    → (ss : List String) × (o ≡ some ss) × AreDistinct ss
distinct_texts-true none h = cc
distinct_texts-true (some ss) h = (ss, refl, (all_distinct_iff ss).0 h)

module _ (js : Runtime) where
  field_ok_sound :
      (notes : Bool) (k : String) (v : Value js.Num)
      → field_ok js notes k v ≡ true
      → FieldIs js notes k v
  unfolding field_ok
  field_ok_sound notes k (str s) h =
      a_text
        (ground (
          arith,
          eq_iff "container_type" k,
          eq_iff "pickup_location" k,
          eq_iff "delivery_location" k,
          eq_iff "empty_return_depot" k,
          eq_iff k "cargo_notes",
        ))
        (ground arith)
  field_ok_sound notes k null h = no_notes (ground (arith, eq_iff k "cargo_notes")) (ground arith)
  field_ok_sound notes k (num x) h =
      a_weight (ground (arith, eq_iff k "gross_weight_kg")) (ground arith)
  field_ok_sound notes k (arr vs) h =
      let (ss, found, distinct) = distinct_texts-true (texts (items vs)) (ground arith) in
      constraints (ground (arith, eq_iff k "operational_constraints")) ss
        ((texts_iff (items vs) ss).0 found) distinct
  field_ok_sound notes k _ h = absurd (ground arith)

  field_ok_complete :
      (notes : Bool) (k : String) (v : Value js.Num)
      → FieldIs js notes k v
      → field_ok js notes k v ≡ true
  unfolding field_ok
  field_ok_complete notes k _ (a_text key blank) = ground (
    arith,
    eq_iff "container_type" k,
    eq_iff "pickup_location" k,
    eq_iff "delivery_location" k,
    eq_iff "empty_return_depot" k,
    eq_iff k "cargo_notes",
  )
  field_ok_complete notes k _ (no_notes key allowed) = ground (arith, eq_iff k "cargo_notes")
  field_ok_complete notes k _ (a_weight {x} key ok) = rw key ok
  field_ok_complete notes k _ (constraints {vs} key ss are distinct) =
      rw (key, (texts_iff (items vs) ss).1 are) ((all_distinct_iff ss).1 distinct)

  -- An object passes `validateFields` just if each of its fields is one of those listed.
  pub fields_ok_iff :
      (notes : Bool) (fs : List (String × Value js.Num))
      → (fields_ok js notes fs ≡ true) ↔ FieldsAre js notes fs
  fields_ok_iff notes [] = (λ _. tt, λ _. refl)
  fields_ok_iff notes ((k, v) ∷ fs) =
      let (to, from) = fields_ok_iff notes fs in
      (
        λ h. (field_ok_sound notes k v (ground arith), to (ground arith)),
        λ h. ground (arith, field_ok_complete notes k v h.0, from h.1),
      )
