-- ===== src/Messages/Texts/Laws.antt =====
-- What the operations on texts keep: lengths, prefixes and ends.
use mathlib.Core.List.{append_assoc}
use ctrl_alt_ship.Prelude.{
  ℕ, zero, suc, ◌-◌, ◌≤◌, ◌≡◌, refl, ap, ◌∙◌, ◌⊎◌, inl, inr, Bool, true, false, not, [], ◌∷◌, ◌++◌,
  all, take, length, length-take, length-append, leb, arith, Bool-cases,
}
use ctrl_alt_ship.Js.{is_space}
use ctrl_alt_ship.Messages.Texts.{
  Text, trim_end, drop_spaces, trim_text, collapse_spaces, compact, limit_body, ellipsis,
}

-- The text is not empty and its last unit is no white space.
abbrev pub ends_solid : Text → Bool
ends_solid [] = false
ends_solid (c ∷ []) = not (is_space c)
ends_solid (c ∷ d ∷ cs) = ends_solid (d ∷ cs)

length-trim_end : (s : Text) → length (trim_end s) ≤ length s
unfolding trim_end
length-trim_end [] = omega arith
length-trim_end (c ∷ cs) = elim (Bool-cases (all is_space (c ∷ cs))) [
  | inl b ↦ rw b (omega arith)
  | inr b ↦ rw b (omega (arith, length-trim_end cs))
]

pub length-compact : (n : ℕ) (v : Text) → 3 ≤ n → length (compact n v) ≤ n
unfolding compact
length-compact n v h =
    let normalized = trim_text (collapse_spaces v) in
    elim (Bool-cases (leb (length normalized) n)) [
      | inl fits ↦ rw fits (ground arith)
      | inr long ↦ rw long (
          omega (
            arith,
            length-append {0} (take (n - 3) normalized) ellipsis,
            length-take {0} (n - 3) normalized,
          ))
    ]

pub length-limit_body : (n : ℕ) (v : Text) → 3 ≤ n → length (limit_body n v) ≤ n
unfolding limit_body
length-limit_body n v h = elim (Bool-cases (leb (length v) n)) [
  | inl fits ↦ rw fits (ground arith)
  | inr long ↦ rw long (
      omega (
        arith,
        length-append {0} (trim_end (take (n - 3) v)) ellipsis,
        length-trim_end (take (n - 3) v),
        length-take {0} (n - 3) v,
      ))
]

pub ends_solid-append : (p q : Text) → ends_solid q ≡ true → ends_solid (p ++ q) ≡ true
ends_solid-append [] q h = h
ends_solid-append (c ∷ []) [] h = cc h
ends_solid-append (c ∷ []) (d ∷ q) h = h
ends_solid-append (c ∷ d ∷ p) q h = ends_solid-append (d ∷ p) q h

solid_not_blank : (p r : Text) → ends_solid p ≡ true → all is_space (p ++ r) ≡ false
solid_not_blank [] r h = cc h
solid_not_blank (c ∷ []) r h = ground arith
solid_not_blank (c ∷ d ∷ p) r h = rw (solid_not_blank (d ∷ p) r h) (ground arith)

trim_end-append : (p r : Text) → ends_solid p ≡ true → trim_end (p ++ r) ≡ p ++ trim_end r
unfolding trim_end
trim_end-append [] r h = cc
trim_end-append (c ∷ []) r h = rw (solid_not_blank (c ∷ []) r h)
trim_end-append (c ∷ d ∷ p) r h =
    rw (solid_not_blank (c ∷ d ∷ p) r h) (ap (λ t. c ∷ t) (trim_end-append (d ∷ p) r h))

blank_of_trim_end : (s : Text) → trim_end s ≡ [] → all is_space s ≡ true
unfolding trim_end
blank_of_trim_end [] h = refl
blank_of_trim_end (c ∷ cs) h = elim (Bool-cases (all is_space (c ∷ cs))) [
  | inl b ↦ b
  | inr b ↦ let h' = rw b at h in cc h'
]

trim_end_ends : (s : Text) → (trim_end s ≡ []) ⊎ (ends_solid (trim_end s) ≡ true)
unfolding trim_end
trim_end_ends [] = inl refl
trim_end_ends (c ∷ cs) = elim (Bool-cases (all is_space (c ∷ cs))) [
  | inl b ↦ inl (rw b)
  | inr b ↦ elim (trim_end_ends cs) [
    | inl none_left ↦ inr (rw (b, none_left) (ground (arith, b, blank_of_trim_end cs none_left)))
    | inr solid ↦ inr (rw b (ends_solid-append (c ∷ []) (trim_end cs) solid))
  ]
]

take-append : (n : ℕ) (p r : Text) → length p ≤ n → take n (p ++ r) ≡ p ++ take (n - length p) r
take-append n [] r h = let e : n - 0 ≡ n = omega arith in rw e
take-append zero (c ∷ p) r h = absurd (omega arith)
take-append (suc n) (c ∷ p) r h =
    let e : suc n - suc (length p) ≡ n - length p = omega arith in
    rw e (ap (λ t. c ∷ t) (take-append n p r (omega arith)))

pub compact_ends : (n : ℕ) (v : Text) → (compact n v ≡ []) ⊎ (ends_solid (compact n v) ≡ true)
unfolding compact trim_text is_space
compact_ends n v =
    let normalized = trim_text (collapse_spaces v) in
    elim (Bool-cases (leb (length normalized) n)) [
      | inl fits ↦ rw fits (trim_end_ends (drop_spaces (collapse_spaces v)))
      | inr long ↦ rw long (inr (ends_solid-append (take (n - 3) normalized) ellipsis refl))
    ]

-- The text begins with `p`.
abbrev pub StartsWith : Text → Text → Type 0
StartsWith p s = (r : Text) × (s ≡ p ++ r)

-- A beginning that does not end in white space is never cut off or trimmed away.
pub limit_body-StartsWith :
    (n : ℕ) (p r : Text)
    → length p ≤ n - 3
    → ends_solid p ≡ true
    → StartsWith p (limit_body n (p ++ r))
unfolding limit_body
limit_body-StartsWith n p r short solid = elim (Bool-cases (leb (length (p ++ r)) n)) [
  | inl fits ↦ rw fits (r, refl)
  | inr long ↦ rw long (
    trim_end (take (n - 3 - length p) r) ++ ellipsis,
    ap (λ t. trim_end t ++ ellipsis) (take-append (n - 3) p r short)
        ∙ ap (λ t. t ++ ellipsis) (trim_end-append p (take (n - 3 - length p) r) solid)
        ∙ append_assoc p (trim_end (take (n - 3 - length p) r)) ellipsis,
  )
]
