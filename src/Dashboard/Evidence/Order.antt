-- ===== src/Dashboard/Evidence/Order.antt =====
-- The order of texts by their units.
use ctrl_alt_ship.Prelude.{
  ℕ, Bool, true, false, ◌≡◌, refl, List, [], ◌∷◌, ltb, eqb, if◌then◌else◌, arith,
}

abbrev pub units_lt : List ℕ → List ℕ → Bool
units_lt [] [] = false
units_lt [] (d ∷ ds) = true
units_lt (c ∷ cs) [] = false
units_lt (c ∷ cs) (d ∷ ds) = if eqb c d then units_lt cs ds else ltb c d

pub units_lt_irrefl : (a : List ℕ) → units_lt a a ≡ false
units_lt_irrefl [] = refl
units_lt_irrefl (c ∷ cs) = ground (arith, units_lt_irrefl cs)

-- "not before" is transitive.
pub units_ge_trans :
    (a b c : List ℕ) → units_lt b a ≡ false → units_lt c b ≡ false → units_lt c a ≡ false
units_ge_trans [] b [] h k = refl
units_ge_trans [] b (z ∷ c) h k = refl
units_ge_trans (x ∷ a) [] c h k = cc h
units_ge_trans (x ∷ a) (y ∷ b) [] h k = cc k
units_ge_trans (x ∷ a) (y ∷ b) (z ∷ c) h k = ground (arith, units_ge_trans a b c)

pub units_lt_asym : (a b : List ℕ) → units_lt a b ≡ true → units_lt b a ≡ false
units_lt_asym [] [] h = refl
units_lt_asym [] (d ∷ ds) h = refl
units_lt_asym (c ∷ cs) [] h = cc h
units_lt_asym (c ∷ cs) (d ∷ ds) h = ground (arith, units_lt_asym cs ds)
