-- ===== src/Js/Dates.antt =====
-- The date pattern and the calendar check that the services share.
use Prim.Native.String.{[] as empty, ◌∷◌ as char, ◌++◌ as join}
use ctrl_alt_ship.Prelude.{
  ℕ, zero, suc, String, Bool, true, false, ◌&&◌, ◌||◌, List, [], ◌∷◌, Option, none, some, eqb,
  if◌then◌else◌,
}
use ctrl_alt_ship.Js.Texts.{codes, is_digit}

-- A pattern for one code point after another.
abbrev pub Pattern : Type 0
Pattern = List (ℕ → Bool)

-- What is left of the text behind the pattern.
unfoldable pub match_prefix : Pattern → List ℕ → Option (List ℕ)
match_prefix [] s = some s
match_prefix (p ∷ ps) [] = none
match_prefix (p ∷ ps) (c ∷ s) = if p c then match_prefix ps s else none

abbrev pub exactly : ℕ → ℕ → Bool
exactly a c = eqb a c

-- \d{4}-\d{2}-\d{2}T\d{2}:\d{2}:\d{2}
abbrev pub local_time : Pattern
local_time =
    is_digit
    ∷ is_digit
    ∷ is_digit
    ∷ is_digit
    ∷ exactly b'-'
    ∷ is_digit
    ∷ is_digit
    ∷ exactly b'-'
    ∷ is_digit
    ∷ is_digit
    ∷ exactly b'T'
    ∷ is_digit
    ∷ is_digit
    ∷ exactly b':'
    ∷ is_digit
    ∷ is_digit
    ∷ exactly b':'
    ∷ is_digit
    ∷ is_digit
    ∷ []

abbrev zone_offset : Pattern
zone_offset =
    (λ c. eqb c b'+' || eqb c b'-') ∷ is_digit ∷ is_digit ∷ exactly b':' ∷ is_digit ∷ is_digit ∷ []

unfoldable pub skip_digits : List ℕ → List ℕ
skip_digits [] = []
skip_digits (c ∷ s) = if is_digit c then skip_digits s else c ∷ s

-- (?:\.\d+)?
unfoldable pub skip_fraction : List ℕ → List ℕ
unfolding skip_digits
skip_fraction [] = []
skip_fraction (c ∷ []) = c ∷ []
skip_fraction (c ∷ d ∷ s) = if eqb c b'.' && is_digit d then skip_digits s else c ∷ d ∷ s

abbrev is_end : Option (List ℕ) → Bool
is_end (some []) = true
is_end _ = false

-- (?:Z|[+-]\d{2}:\d{2})$
abbrev is_zone : List ℕ → Bool
is_zone s = is_end (match_prefix (exactly b'Z' ∷ []) s) || is_end (match_prefix zone_offset s)

abbrev zone_follows : Option (List ℕ) → Bool
zone_follows none = false
zone_follows (some s) = is_zone (skip_fraction s)

abbrev fraction_follows : Option (List ℕ) → Bool
fraction_follows none = false
fraction_follows (some s) = is_end (some (skip_fraction s))

unfoldable pub is_zoned_time : String → Bool
unfolding match_prefix skip_fraction
is_zoned_time s = zone_follows (match_prefix local_time (codes s))

-- The same pattern with no zone.
unfoldable pub is_local_time : String → Bool
unfolding match_prefix skip_fraction
is_local_time s = fraction_follows (match_prefix local_time (codes s))

-- `s.slice(0, n)` of an ASCII text
unfoldable pub take_text : ℕ → String → String
take_text zero s = empty
take_text (suc n) empty = empty
take_text (suc n) (char c s) = char c (take_text n s)

-- `${date}T00:00:00Z` for the first ten characters of `s`
abbrev pub midnight : String → String
midnight s = join (take_text 10 s) "T00:00:00Z"
