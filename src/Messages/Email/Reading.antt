-- ===== src/Messages/Email/Reading.antt =====
-- A reader of HTML, written apart from the templates: tags by their text, and the five character
-- references that the templates use.
use mathlib.Core.List.{append_assoc, append-nil}
use ctrl_alt_ship.Prelude.{
  ℕ, ◌≡◌, sym, ap, ◌∙◌, Bool, true, false, ◌&&◌, List, [], ◌∷◌, ◌++◌, map, eqb, if◌then◌else◌,
}
use ctrl_alt_ship.Messages.Texts.{Text, utf16}

-- A tag, or a unit of the text that is shown.
pub data Token : Type 0 where
  tag : Text → Token
  unit : ℕ → Token

pub data Mode : Type 0 where
  outside : Mode
  in_tag in_reference : Text → Mode

abbrev pub same_text : Text → Text → Bool
same_text [] [] = true
same_text (c ∷ cs) (d ∷ ds) = eqb c d && same_text cs ds
same_text cs ds = false

abbrev pub words : Text → List Token
words t = map unit t

-- An unknown reference is shown as nothing.
abbrev referred : Text → List Token
referred name =
    if same_text name (utf16 "amp")
    then words (utf16 "&")
    else if same_text name (utf16 "lt")
    then words (utf16 "<")
    else if same_text name (utf16 "gt")
    then words (utf16 ">")
    else if same_text name (utf16 "#39")
    then words (utf16 "'")
    else if same_text name (utf16 "quot")
    then words (utf16 "\"")
    else []

unfoldable pub step : Mode → ℕ → Mode × List Token
step outside c =
    if eqb c b'<'
    then (in_tag [], [])
    else if eqb c b'&'
    then (in_reference [], [])
    else (outside, unit c ∷ [])
step (in_tag name) c =
    if eqb c b'>' then (outside, tag name ∷ []) else (in_tag (name ++ c ∷ []), [])
step (in_reference name) c =
    if eqb c b';' then (outside, referred name) else (in_reference (name ++ c ∷ []), [])

unfoldable pub read_from : Mode → Text → List Token
unfolding step
read_from mode [] = []
read_from mode (c ∷ cs) = let (mode', seen) = step mode c in seen ++ read_from mode' cs

unfoldable pub read_html : Text → List Token
unfolding read_from
read_html s = read_from outside s

-- Wherever `p` stands between tags, it is read as `ts`.
pub record Reads (p : Text) (ts : List Token) : Type 0 where
  pub reads : (rest : Text) → read_from outside (p ++ rest) ≡ ts ++ read_from outside rest

infixr 66 ◌then_reads◌
pub ◌then_reads◌ :
    {p q : Text} {ts us : List Token} → Reads p ts → Reads q us → Reads (p ++ q) (ts ++ us)
◌then_reads◌ {p} {q} {ts} {us} hp hq = record {
  reads = λ rest.
      ap (read_from outside) (append_assoc p q rest)
      ∙ hp.reads (q ++ rest)
      ∙ ap (λ l. ts ++ l) (hq.reads rest)
      ∙ sym (append_assoc ts us (read_from outside rest));
}

pub Reads-read_html : {p : Text} {ts : List Token} → Reads p ts → read_html p ≡ ts
unfolding read_html
Reads-read_html {p} {ts} h =
    ap (read_from outside) (sym (append-nil p)) ∙ h.reads [] ∙ append-nil ts
