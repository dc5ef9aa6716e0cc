-- ===== src/Js/Texts.antt =====
-- Texts: `trim`, `length` and the patterns by which the program recognises references and dates.
-- A `String` holds code points, so texts with lone surrogates are left out.
use Prim.Native.Char.{code}
use Prim.Native.String.{[], ◌∷◌}
use ctrl_alt_ship.Prelude.{
  ℕ, ◌+◌, String, Bool, false, ◌&&◌, ◌||◌, List, Option, none, some, all, length, leb, ltb, eqb,
  if◌then◌else◌,
}

abbrev pub codes : String → List ℕ
codes [] = List.[]
codes (c ∷ s) = List.◌∷◌ (code c) (codes s)

-- WhiteSpace and LineTerminator of the language
unfoldable pub is_space : ℕ → Bool
is_space c =
    (leb 9 c && leb c 13)
    || eqb c 32
    || eqb c 160
    || eqb c 5760
    || (leb 8192 c && leb c 8202)
    || eqb c 8232
    || eqb c 8233
    || eqb c 8239
    || eqb c 8287
    || eqb c 12288
    || eqb c 65279

abbrev pub is_digit : ℕ → Bool
is_digit c = leb b'0' c && leb c b'9'

abbrev pub is_upper : ℕ → Bool
is_upper c = leb b'A' c && leb c b'Z'

-- `s.trim() === ""`
unfoldable pub is_blank : String → Bool
is_blank s = all is_space (codes s)

unfoldable pub trim_start : String → String
trim_start [] = []
trim_start (c ∷ s) = let rest = trim_start s in if is_space (code c) then rest else c ∷ s

unfoldable pub trim_end : String → String
trim_end [] = []
trim_end (c ∷ s) = let rest = trim_end s in if is_blank (c ∷ s) then [] else c ∷ rest

unfoldable pub trim : String → String
unfolding trim_start trim_end
trim s = trim_end (trim_start s)

-- UTF-16 code units, which `length` counts
abbrev pub units : List ℕ → ℕ
units List.[] = 0
units (List.◌∷◌ c cs) = (if ltb c 65536 then 1 else 2) + units cs

unfoldable pub text_length : String → ℕ
text_length s = units (codes s)

-- What is left of `s` behind the text `p`.
unfoldable pub strip_prefix : List ℕ → List ℕ → Option (List ℕ)
strip_prefix List.[] s = some s
strip_prefix (List.◌∷◌ p ps) List.[] = none
strip_prefix (List.◌∷◌ p ps) (List.◌∷◌ c s) = if eqb p c then strip_prefix ps s else none

abbrev digits_at_least : ℕ → Option (List ℕ) → Bool
digits_at_least n none = false
digits_at_least n (some ds) = leb n (length ds) && all is_digit ds

-- /^OP-[0-9]{6,}$/
unfoldable pub is_operation_reference : String → Bool
unfolding strip_prefix
is_operation_reference s = digits_at_least 6 (strip_prefix (codes "OP-") (codes s))

-- /^[A-Z]{3}$/
unfoldable pub is_currency : String → Bool
is_currency s = eqb (length (codes s)) 3 && all is_upper (codes s)
