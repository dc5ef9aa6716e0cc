-- ===== src/Js/Maps.antt =====
-- A `Map` whose keys are texts, as its entries in the order in which the keys came.
use ctrl_alt_ship.Prelude.{
  String, suc, ◌≤◌, ◌-◌, false, Bool-cases, Option, none, some, List, [], ◌∷◌, length, ◌≡◌, refl,
  inl, inr, arith, ◌==◌, eq_iff, if◌then◌else◌,
}

module _ {A : Type 0} where
  -- `map.get(key)`
  abbrev pub find_key : String → List (String × A) → Option A
  find_key key [] = none
  find_key key ((k, a) ∷ m) = if k == key then some a else find_key key m

  -- `map.set(key, a)`: a key that is there keeps its place.
  abbrev pub set_key : String → A → List (String × A) → List (String × A)
  set_key key a [] = (key, a) ∷ []
  set_key key a ((k, b) ∷ m) = if k == key then (k, a) ∷ m else (k, b) ∷ set_key key a m

  -- `map.delete(map.keys().next().value)`
  abbrev pub delete_first : List (String × A) → List (String × A)
  delete_first [] = []
  delete_first (e ∷ m) = m

  pub find_key-set_key :
      (key : String) (a : A) (m : List (String × A)) → find_key key (set_key key a m) ≡ some a
  find_key-set_key key a [] = rw ((eq_iff key key).1 refl) refl
  find_key-set_key key a ((k, b) ∷ m) = elim (Bool-cases (k == key)) [
    | inl same ↦ ground arith
    | inr other ↦ ground (arith, find_key-set_key key a m)
  ]

  -- Setting a key leaves the others alone.
  pub find_key-set_other :
      (key other : String) (a : A) (m : List (String × A))
      → (key == other) ≡ false
      → find_key other (set_key key a m) ≡ find_key other m
  find_key-set_other key other a [] h = rw h refl
  find_key-set_other key other a ((k, b) ∷ m) h = elim (Bool-cases (k == key)) [
    | inl same ↦ rw ((eq_iff k key).0 same) (rw ((eq_iff key key).1 refl) (rw h refl))
    | inr differs ↦ ground (arith, find_key-set_other key other a m h)
  ]

  pub length-set_key :
      (key : String) (a : A) (m : List (String × A)) → length (set_key key a m) ≤ suc (length m)
  length-set_key key a [] = omega arith
  length-set_key key a ((k, b) ∷ m) = ground (arith, length-set_key key a m)

  pub length-delete_first : (m : List (String × A)) → length (delete_first m) ≡ length m - 1
  length-delete_first [] = refl
  length-delete_first (e ∷ m) = omega arith
