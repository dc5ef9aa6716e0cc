-- ===== src/Js/Trim.antt =====
-- What `trim` keeps: a part of the text, blank only if the text is.
use Prim.Native.Char.{Char}
use Prim.Native.String.{[], ◌∷◌}
use ctrl_alt_ship.Prelude.{◌≤◌, ◌≡◌, refl, ◌∙◌, String, arith, inl, inr, Bool-cases}
use ctrl_alt_ship.Js.Texts.{is_blank, trim_start, trim_end, trim, text_length}

text_length-trim_start : (s : String) → text_length (trim_start s) ≤ text_length s
unfolding text_length trim_start
text_length-trim_start [] = omega arith
text_length-trim_start (c ∷ s) = ground (arith, text_length-trim_start s)

text_length-trim_end : (s : String) → text_length (trim_end s) ≤ text_length s
unfolding text_length trim_end
text_length-trim_end [] = omega arith
text_length-trim_end (c ∷ s) = elim (Bool-cases (is_blank (c ∷ s))) [
  | inl b ↦ rw b (omega arith)
  | inr b ↦ rw b (omega (arith, text_length-trim_end s))
]

is_blank-trim_start : (s : String) → is_blank (trim_start s) ≡ is_blank s
unfolding is_blank trim_start
is_blank-trim_start [] = refl
is_blank-trim_start (c ∷ s) = ground (arith, is_blank-trim_start s)

is_blank-∷ :
    (c : Char) (s t : String) → is_blank s ≡ is_blank t → is_blank (c ∷ s) ≡ is_blank (c ∷ t)
unfolding is_blank
is_blank-∷ c s t h = rw h

is_blank-trim_end : (s : String) → is_blank (trim_end s) ≡ is_blank s
unfolding trim_end
is_blank-trim_end [] = refl
is_blank-trim_end (c ∷ s) = elim (Bool-cases (is_blank (c ∷ s))) [
  | inl b ↦ rw b (unfold is_blank in refl)
  | inr b ↦ rw b (is_blank-∷ c (trim_end s) s (is_blank-trim_end s) ∙ b)
]

pub text_length-trim : (s : String) → text_length (trim s) ≤ text_length s
unfolding trim
text_length-trim s = omega (arith, text_length-trim_end (trim_start s), text_length-trim_start s)

pub is_blank-trim : (s : String) → is_blank (trim s) ≡ is_blank s
unfolding trim
is_blank-trim s = is_blank-trim_end (trim_start s) ∙ is_blank-trim_start s
