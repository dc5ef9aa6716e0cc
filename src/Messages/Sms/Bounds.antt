-- ===== src/Messages/Sms/Bounds.antt =====
-- What an SMS body is, whatever the payload: its length, its title and its reference.
use Prim.Native.String.{[] as empty, ◌∷◌ as char}
use mathlib.Core.List.{append_assoc, append-nil}
use ctrl_alt_ship.Prelude.{
  ◌≤◌, ◌≡◌, refl, sym, ap, ◌∙◌, ◌⊎◌, inl, inr, true, String, List, [], ◌∷◌, ◌++◌, Option, ◌==◌,
  length, length-append, arith, Bool-cases, if◌then◌else◌,
}
use ctrl_alt_ship.Js.{is_space}
use ctrl_alt_ship.Messages.Texts.{Text, utf16, compact, join, present}
use ctrl_alt_ship.Messages.Texts.Laws.{
  StartsWith, ends_solid, ends_solid-append, length-compact, length-limit_body,
  limit_body-StartsWith, compact_ends,
}
use ctrl_alt_ship.Messages.Payload.{SmsPayload}
use ctrl_alt_ship.Messages.Sms.{
  reference_line, body_of, booking_lines, client_cancellation_lines, provider_cancellation_lines,
  render_sms,
}

-- The second line of a body: the reference, where there is one.
abbrev reference_part : Text → Text
reference_part [] = []
reference_part (c ∷ cs) = utf16 "\nReference: " ++ (c ∷ cs)

abbrev opening : (title reference : String) → Text
opening title reference = utf16 title ++ reference_part (compact 64 (utf16 reference))

abbrev pub title_of : (template : String) → String
title_of template =
    if template == "operation_cancellation_client"
    then "Tango: cancellation confirmed."
    else if template == "booking_cancellation_provider"
    then "Tango: booking cancelled. Do not dispatch."
    else "Tango: booking confirmed."

pub record IsSmsBody (title reference : String) (body : Text) : Type 0 where
  pub bounded : length body ≤ 459
  pub opened : StartsWith (opening title reference) body

compact_empty : compact 64 [] ≡ []
unfolding compact
compact_empty = refl

reference_part-short : (t : Text) → length t ≤ 64 → length (reference_part t) ≤ 76
reference_part-short [] h = omega arith
reference_part-short (c ∷ cs) h = omega arith

StartsWith-append : (p q : Text) {s : Text} → StartsWith q s → StartsWith (p ++ q) (p ++ s)
StartsWith-append p q (r, e) = (r, ap (λ t. p ++ t) e ∙ sym (append_assoc p q r))

part_open :
    (t rest : Text)
    → StartsWith (reference_part t) (utf16 "\n" ++ ((utf16 "Reference: " ++ (t ++ [])) ++ rest))
part_open [] rest = (_, refl)
part_open (c ∷ cs) rest = (rest, rw (append-nil cs))

reference_part_ends :
    (t : Text)
    → (t ≡ []) ⊎ (ends_solid t ≡ true)
    → (title : Text) → ends_solid title ≡ true
    → ends_solid (title ++ reference_part t) ≡ true
reference_part_ends [] e title h = rw (append-nil title) h
reference_part_ends (c ∷ cs) (inl e) title h = absurd (cc e)
reference_part_ends (c ∷ cs) (inr e) title h =
    ends_solid-append title (reference_part (c ∷ cs))
      (ends_solid-append (utf16 "\nReference: ") (c ∷ cs) e)

module _ (title reference : String) (lines : List (Option Text)) where
  body_of-opened :
      StartsWith
        (opening title reference)
        (join (utf16 "\n") (utf16 title ∷ present (reference_line reference ∷ lines)))
      → length (utf16 title) ≤ 42
      → ends_solid (utf16 title) ≡ true
      → IsSmsBody title reference (body_of title reference lines)
  unfolding body_of
  body_of-opened (r, e) short solid = record {
    bounded =
        length-limit_body 459
          (join (utf16 "\n") (utf16 title ∷ present (reference_line reference ∷ lines)))
          (omega arith);
    opened = rw e (
        limit_body-StartsWith 459 (opening title reference) r
          (omega (
            arith,
            length-append {0} (utf16 title) (reference_part (compact 64 (utf16 reference))),
            reference_part-short (compact 64 (utf16 reference)) (length-compact 64 _ (omega arith)),
          ))
          (reference_part_ends _ (compact_ends 64 (utf16 reference)) (utf16 title) solid));
  }

lines_open :
    (title reference : String) (lines : List (Option Text))
    → StartsWith
        (opening title reference)
        (join (utf16 "\n") (utf16 title ∷ present (reference_line reference ∷ lines)))
lines_open title empty lines = rw compact_empty (StartsWith-append (utf16 title) [] (_, refl))
lines_open title (char c s) lines =
    StartsWith-append (utf16 title) (reference_part (compact 64 (utf16 (char c s))))
      (part_open (compact 64 (utf16 (char c s))) _)

body_of-IsSmsBody :
    (title reference : String) (lines : List (Option Text))
    → length (utf16 title) ≤ 42
    → ends_solid (utf16 title) ≡ true
    → IsSmsBody title reference (body_of title reference lines)
body_of-IsSmsBody title reference lines =
    body_of-opened title reference lines (lines_open title reference lines)

-- Every SMS body has at most 459 units and begins with the title of its template and, where the
-- reference of the operation is not blank, the line of that reference, for every payload.
pub render_sms-IsSmsBody :
    (fixed : String → Option Text) (p : SmsPayload)
    → IsSmsBody (title_of p.common.template) p.common.operation_reference (render_sms fixed p)
unfolding render_sms is_space
render_sms-IsSmsBody fixed p =
    elim (Bool-cases (p.common.template == "operation_cancellation_client")) [
      | inl e ↦ rw e (body_of-IsSmsBody _ _ (client_cancellation_lines p) (omega arith) refl)
      | inr e ↦ rw e (elim (Bool-cases (p.common.template == "booking_cancellation_provider")) [
        | inl e' ↦ rw e' (body_of-IsSmsBody _ _ (provider_cancellation_lines p) (omega arith) refl)
        | inr e' ↦ rw e' (body_of-IsSmsBody _ _ (booking_lines p fixed) (omega arith) refl)
      ])
    ]
