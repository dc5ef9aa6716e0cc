-- ===== src/Telephony/Formats.antt =====
-- The patterns by which backend/src/tango/telephony recognises numbers and identifiers.
use Prim.Native.Char.{Char, code}
use Prim.Native.String.{[] as empty, ◌∷◌ as char}
use ctrl_alt_ship.Prelude.{
  ℕ, zero, suc, ◌+◌, String, Bool, true, false, ◌&&◌, ◌||◌, List, [], ◌∷◌, ◌++◌, Option, none, some,
  all, leb, eqb, length, if◌then◌else◌, is_some,
}
use ctrl_alt_ship.Js.{codes, is_digit, is_upper}
use ctrl_alt_ship.Js.{Pattern, match_prefix, exactly}

-- Lower case, of ASCII letters only.
abbrev pub lower : ℕ → ℕ
lower c = if is_upper c then c + 32 else c

-- One letter under the flag `i`
abbrev pub letter : ℕ → ℕ → Bool
letter a c = eqb (lower a) (lower c)

-- [0-9a-f] under the flag `i`
abbrev pub is_hex : ℕ → Bool
is_hex c = is_digit c || (leb b'a' (lower c) && leb (lower c) b'f')

abbrev pub repeat : ℕ → (ℕ → Bool) → Pattern
repeat zero p = []
repeat (suc n) p = p ∷ repeat n p

abbrev ends : Option (List ℕ) → Bool
ends (some []) = true
ends _ = false

-- /^[0-9a-f]{8}-[0-9a-f]{4}-[0-9a-f]{4}-[0-9a-f]{4}-[0-9a-f]{12}$/i
abbrev uuid_pattern : Pattern
uuid_pattern =
    repeat 8 is_hex
    ++ exactly b'-' ∷ repeat 4 is_hex
    ++ exactly b'-' ∷ repeat 4 is_hex
    ++ exactly b'-' ∷ repeat 4 is_hex
    ++ exactly b'-' ∷ repeat 12 is_hex

unfoldable pub is_uuid : String → Bool
unfolding match_prefix
is_uuid s = ends (match_prefix uuid_pattern (codes s))

abbrev sid_pattern : ℕ → ℕ → Pattern
sid_pattern a b = letter a ∷ letter b ∷ repeat 32 is_hex

-- /^CA[0-9a-f]{32}$/i
unfoldable pub is_call_sid : String → Bool
unfolding match_prefix
is_call_sid s = ends (match_prefix (sid_pattern b'C' b'A') (codes s))

-- /^RE[0-9a-f]{32}$/i
unfoldable pub is_recording_sid : String → Bool
unfolding match_prefix
is_recording_sid s = ends (match_prefix (sid_pattern b'R' b'E') (codes s))

-- /^AC[0-9a-f]{32}$/i
unfoldable pub is_account_sid : String → Bool
unfolding match_prefix
is_account_sid s = ends (match_prefix (sid_pattern b'A' b'C') (codes s))

-- /^[0-9]+$/
unfoldable pub is_number : String → Bool
is_number s = leb 1 (length (codes s)) && all is_digit (codes s)

-- The digits that a text begins with, and what follows them.
unfoldable pub split_digits : String → String × String
split_digits empty = (empty, empty)
split_digits (char c s) =
    let (digits, rest) = split_digits s in
    if is_digit (code c) then (char c digits, rest) else (empty, char c s)

abbrev phone_digits : Char → Char → String × String → Option (String × String)
phone_digits plus first (digits, rest) =
    if eqb (code plus) b'+'
      && leb b'1' (code first)
      && leb (code first) b'9'
      && leb 7 (length (codes digits))
      && leb (length (codes digits)) 14
    then some (char plus (char first digits), rest)
    else none

-- \+[1-9]\d{7,14}, followed by no further digit; and what follows it.
unfoldable pub leading_phone : String → Option (String × String)
unfolding split_digits
leading_phone empty = none
leading_phone (char c empty) = none
leading_phone (char c (char d s)) = phone_digits c d (split_digits s)

-- What is left of the text behind the pattern.
unfoldable pub behind : Pattern → String → Option String
behind [] s = some s
behind (p ∷ ps) empty = none
behind (p ∷ ps) (char c s) = let rest = behind ps s in if p (code c) then rest else none

abbrev pub is_empty : String → Bool
is_empty empty = true
is_empty (char c s) = false

-- The phone, if what follows it passes the test.
abbrev pub phone_before : (String → Bool) → Option (String × String) → Option String
phone_before follows none = none
phone_before follows (some (phone, rest)) = if follows rest then some phone else none

-- /^\+[1-9]\d{7,14}$/
unfoldable pub is_phone : String → Bool
unfolding leading_phone
is_phone s = is_some (phone_before is_empty (leading_phone s))

abbrev starts_with : (ℕ → Bool) → String → Bool
starts_with p empty = false
starts_with p (char c s) = p (code c)

abbrev phone_after : Option String → (String → Bool) → Option String
phone_after none follows = none
phone_after (some s) follows = phone_before follows (leading_phone s)

abbrev sip_end : ℕ → Bool
sip_end c = eqb c b'@' || eqb c b';' || eqb c b'>'

abbrev first_of : Option String → Option String → Option String
first_of (some a) b = some a
first_of none b = b

-- `extractE164FromSipValue`: /sip:(\+[1-9][0-9]{7,14})(?=[@;>])/i, its first match
unfoldable pub extract_e164_from_sip_value : String → Option String
unfolding leading_phone behind
extract_e164_from_sip_value empty = none
extract_e164_from_sip_value (char c s) =
    let later = extract_e164_from_sip_value s in
    first_of
      (phone_after (behind (letter b's' ∷ letter b'i' ∷ letter b'p' ∷ exactly b':' ∷ []) (char c s))
        (starts_with sip_end))
      later

abbrev parameter_char : ℕ → Bool
parameter_char c = if eqb c b'?' || eqb c b'<' || eqb c b'>' then false else true

-- >?$
abbrev closes : String → Bool
closes empty = true
closes (char c s) = eqb (code c) b'>' && is_empty s

-- [^?<>]*>?$
unfoldable pub parameters_close : String → Bool
parameters_close empty = true
parameters_close (char c s) =
    let rest = parameters_close s in if parameter_char (code c) then rest else closes (char c s)

-- (?:;[^?<>]*)?>?$
unfoldable pub target_closes : String → Bool
unfolding parameters_close
target_closes empty = true
target_closes (char c s) = if eqb (code c) b';' then parameters_close s else closes (char c s)

abbrev unbracketed : String → String
unbracketed empty = empty
unbracketed (char c s) = if eqb (code c) b'<' then s else char c s

-- `transferTargetPhone`: /^<?tel:(\+[1-9]\d{7,14})(?:;[^?<>]*)?>?$/i, or a bare number
unfoldable pub transfer_target_phone : String → Option String
unfolding leading_phone behind target_closes
transfer_target_phone s = first_of (phone_before is_empty (leading_phone s)) (
    phone_after
      (behind (letter b't' ∷ letter b'e' ∷ letter b'l' ∷ exactly b':' ∷ []) (unbracketed s))
      target_closes)
