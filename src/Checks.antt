-- ===== src/Checks.antt =====
-- What the services' checks of `unknown` arguments have in common.
use mathlib.Core.Path.{subst}
use ctrl_alt_ship.Prelude.{◌≡◌, ◌⊎◌, some, List, Result, ok, err}
use ctrl_alt_ship.Js.{Value, Fields, plain_object}
use ctrl_alt_ship.ToolError.{Thrown, tool_error, invalid_arguments}

-- `throw new ToolError("invalid_arguments", …)`
abbrev pub invalid : Thrown
invalid = tool_error invalid_arguments

-- A plain object whose fields satisfy `P`.
abbrev pub Object : {Num : Type 0} → (Fields Num → Type 0) → Value Num → Type 0
Object {Num} P v = (fs : Fields Num) × (plain_object v ≡ some fs) × P fs

pub Object-at :
    {Num : Type 0} (P : Fields Num → Type 0) (v : Value Num) (fs : Fields Num)
    → plain_object v ≡ some fs
    → Object P v
    → P fs
Object-at P v fs e (fs', e', p) = let same : fs' ≡ fs = cc in subst P same p

-- A check that calls nothing passes just if `P` holds, and throws otherwise.
abbrev pub Decides : {C : Type 0} → List C → Result Thrown (Unit {0}) × List C → Type 0 → Type 0
Decides log final P = (P × (final ≡ (ok tt, log))) ⊎ (¬ P × ((e : Thrown) × (final ≡ (err e, log))))
