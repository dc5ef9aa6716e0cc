-- ===== src/Js/Numbers.antt =====
-- The comparisons of numbers, and the tests on amounts that the services share.
use ctrl_alt_ship.Prelude.{ℕ, Bool, ◌&&◌, ◌||◌, not}
use ctrl_alt_ship.Js.Objects.{Runtime}

module _ (js : Runtime) where
  abbrev pub gt : js.Num → js.Num → Bool
  gt a b = js.lt b a

  abbrev pub le : js.Num → js.Num → Bool
  le a b = js.lt a b || js.eq a b

  abbrev pub ge : js.Num → js.Num → Bool
  ge a b = js.lt b a || js.eq a b

  -- finite, positive, at most `most` thousandths, and equal to itself at `places` decimals
  abbrev pub is_amount : (places most : ℕ) → js.Num → Bool
  is_amount places most x =
      js.is_finite x
      && not (le x (js.thousandths 0))
      && not (gt x (js.thousandths most))
      && js.eq (js.to_fixed places x) x
