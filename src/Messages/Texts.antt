-- ===== src/Messages/Texts.antt =====
-- The texts of messages as the UTF-16 units that JavaScript's strings hold, since `slice` may cut
-- between any two of them; `compact` and `limitBody` of sms-templates.ts.
pub mod Laws
use Prim.Native.Char.{code}
use Prim.Native.String.{[] as empty, ◌∷◌ as char}
use ctrl_alt_ship.Prelude.{
  ℕ, ◌+◌, ◌-◌, ◌/◌, ◌%◌, String, Bool, true, false, List, [], ◌∷◌, ◌++◌, Option, none, some, all,
  take, length, ltb, leb, if◌then◌else◌,
}
use ctrl_alt_ship.Js.{is_space}

abbrev pub Text : Type 0
Text = List ℕ

-- The units of a code point.
abbrev pub units_of : ℕ → Text
units_of c =
    if ltb c 65536 then c ∷ [] else (55296 + (c - 65536) / 1024) ∷ (56320 + (c - 65536) % 1024) ∷ []

abbrev pub utf16 : String → Text
utf16 empty = []
utf16 (char c s) = units_of (code c) ++ utf16 s

-- `s.trimStart()`, `s.trimEnd()`, `s.trim()`
unfoldable pub drop_spaces : Text → Text
drop_spaces [] = []
drop_spaces (c ∷ cs) = let rest = drop_spaces cs in if is_space c then rest else c ∷ cs

unfoldable pub trim_end : Text → Text
trim_end [] = []
trim_end (c ∷ cs) = let rest = trim_end cs in if all is_space (c ∷ cs) then [] else c ∷ rest

unfoldable pub trim_text : Text → Text
unfolding drop_spaces trim_end
trim_text s = trim_end (drop_spaces s)

-- What a run of white space leaves: one blank, at its first unit.
abbrev gap : (inside : Bool) → Text → Text
gap true rest = rest
gap false rest = b' ' ∷ rest

unfoldable pub collapse_from : (inside : Bool) → Text → Text
collapse_from inside [] = []
collapse_from inside (c ∷ cs) = elim (is_space c) [
  | true ↦ gap inside (collapse_from true cs)
  | false ↦ c ∷ collapse_from false cs
]

-- `s.replace(/\s+/g, " ")`
unfoldable pub collapse_spaces : Text → Text
unfolding collapse_from
collapse_spaces s = collapse_from false s

abbrev pub ellipsis : Text
ellipsis = utf16 "..."

unfoldable pub compact : (maximum_length : ℕ) → Text → Text
unfolding collapse_spaces trim_text
compact maximum_length value =
    let normalized = trim_text (collapse_spaces value) in
    if leb (length normalized) maximum_length
    then normalized
    else take (maximum_length - 3) normalized ++ ellipsis

unfoldable pub limit_body : (maximum_length : ℕ) → Text → Text
unfolding trim_end
limit_body maximum_length value =
    if leb (length value) maximum_length
    then value
    else trim_end (take (maximum_length - 3) value) ++ ellipsis

-- What `join` puts before each text but the first.
abbrev pub join_rest : (separator : Text) → List Text → Text
join_rest separator [] = []
join_rest separator (t ∷ ts) = separator ++ (t ++ join_rest separator ts)

-- `texts.join(separator)`
abbrev pub join : (separator : Text) → List Text → Text
join separator [] = []
join separator (t ∷ ts) = t ++ join_rest separator ts

-- A text of the payload where it is not empty, which is JavaScript's test `text ? … : null`.
abbrev pub shown : String → Option Text
shown empty = none
shown (char c s) = some (utf16 (char c s))

abbrev pub shown? : Option String → Option Text
shown? none = none
shown? (some s) = shown s

-- The same test on a text that the rendering made.
abbrev pub truthy : Text → Option Text
truthy [] = none
truthy (c ∷ cs) = some (c ∷ cs)

-- `.filter(Boolean)`
abbrev pub present : List (Option Text) → List Text
present [] = []
present (none ∷ ts) = present ts
present (some [] ∷ ts) = present ts
present (some (c ∷ cs) ∷ ts) = (c ∷ cs) ∷ present ts
