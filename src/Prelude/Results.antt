-- ===== src/Prelude/Results.antt =====
-- Code that may throw: a value, or what was thrown.
use mathlib.Core.Bool.{Bool, true, false}
use mathlib.Core.Option.{Option, none, some}
use mathlib.Core.Path.{◌≡◌, refl}
use mathlib.Core.Logic.{◌⊎◌, inl, inr}

pub data Result {ℓ} (E A : Type ℓ) : Type ℓ where
  ok : A → Result E A
  err : E → Result E A

pub Result-cases {ℓ} :
    {E A : Type ℓ} (r : Result E A) → ((a : A) × (r ≡ ok a)) ⊎ ((e : E) × (r ≡ err e))
Result-cases (ok a) = inl (a, refl)
Result-cases (err e) = inr (e, refl)

module _ {ℓ} {E A : Type ℓ} where
  -- `if (!test) throw e;` before the rest of pure code.
  unfoldable pub check : Bool → E → Result E A → Result E A
  check true e rest = rest
  check false e rest = err e

  pub check-ok :
      {b : Bool} (e : E) {rest : Result E A} {a : A}
      → check b e rest ≡ ok a
      → (b ≡ true) × (rest ≡ ok a)
  unfolding check
  check-ok {b = true} e h = (refl, h)
  check-ok {b = false} e h = cc h

module _ {ℓ} {E A B : Type ℓ} where
  -- The value, or `throw e` where there is none, before the rest of pure code.
  unfoldable pub given : Option A → E → (A → Result E B) → Result E B
  given none e rest = err e
  given (some a) e rest = rest a

  pub given-ok :
      {o : Option A} (e : E) {rest : A → Result E B} {b : B}
      → given o e rest ≡ ok b
      → (a : A) × (o ≡ some a) × (rest a ≡ ok b)
  unfolding given
  given-ok {o = none} e h = cc h
  given-ok {o = some a} e h = (a, refl, h)
