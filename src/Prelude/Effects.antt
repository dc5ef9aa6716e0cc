-- ===== src/Prelude/Effects.antt =====
-- Code that calls other parts of the system. Every call is recorded, the latest first, and its
-- answer is a function of the calls made so far, this one included: an environment that may answer
-- in any way.
use mathlib.Core.Bool.{Bool, true, false}
use mathlib.Core.Option.{Option, none, some}
use mathlib.Core.List.{List, ◌∷◌}
use mathlib.Core.Path.{◌≡◌, refl}
use mathlib.Core.Logic.{inl, inr}
use ctrl_alt_ship.Prelude.Results.{Result, ok, err, Result-cases}

abbrev pub Act {ℓ} : Type ℓ → Type ℓ → Type ℓ → Type ℓ
Act E C A = List C → Result E A × List C

module _ {ℓ} {E C A : Type ℓ} where
  abbrev pub pure : A → Act E C A
  pure a log = (ok a, log)

  abbrev pub throw : E → Act E C A
  throw e log = (err e, log)

  abbrev pub lift : Result E A → Act E C A
  lift r log = (r, log)

  -- One call `c` of another part, with that part's answer.
  abbrev pub perform : C → (List C → Result E A) → Act E C A
  perform c answer log = (answer (c ∷ log), c ∷ log)

module _ {ℓ} {E C A B : Type ℓ} where
  abbrev pub continue : Result E A → (A → Act E C B) → Act E C B
  continue (ok a) f log = f a log
  continue (err e) f log = (err e, log)

  infixl 5 ◌>>=◌ ◌>>◌
  abbrev pub ◌>>=◌ : Act E C A → (A → Act E C B) → Act E C B
  ◌>>=◌ m f log = let (r, log') = m log in continue r f log'

  abbrev pub ◌>>◌ : Act E C A → Act E C B → Act E C B
  m >> k = m >>= λ _. k

  -- What came before an action that ended well.
  pub >>=-ok :
      (m : Act E C A) (f : A → Act E C B) (log : List C) {b : B}
      → ((m >>= f) log).0 ≡ ok b
      → (a : A) × ((m log).0 ≡ ok a) × ((f a (m log).1).0 ≡ ok b)
  >>=-ok m f log = elim (Result-cases (m log).0) [
    | inl (a, e) ↦ rw e (λ h. (a, refl, h))
    | inr (error, e) ↦ rw e (λ h. cc h)
  ]

module _ {ℓ} {E C A : Type ℓ} where
  abbrev recover : Result E A → (E → Act E C A) → Act E C A
  recover (ok a) f log = (ok a, log)
  recover (err e) f log = f e log

  -- `try { m } catch (e) { f(e) }`; the calls that `m` made stay made.
  abbrev pub try_catch : Act E C A → (E → Act E C A) → Act E C A
  try_catch m f log = let (r, log') = m log in recover r f log'

-- `if (!test) throw e;`
abbrev pub demand : {E C : Type 0} → Bool → E → Act E C (Unit {0})
demand true e log = (ok tt, log)
demand false e log = (err e, log)

abbrev pub unless : {E C : Type 0} → Bool → Act E C (Unit {0}) → Act E C (Unit {0})
unless true m log = (ok tt, log)
unless false m log = m log

-- The value, or `throw e` where there is none.
abbrev pub need : {E C A : Type 0} → Option A → E → Act E C A
need none e log = (err e, log)
need (some a) e log = (ok a, log)
