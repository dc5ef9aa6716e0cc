-- ===== src/Dashboard/Trace/Sorting.antt =====
-- A stable sort by a test that says which of two may come first.
use mathlib.Core.List.{Perm}
use mathlib.Core.List.Perm
use ctrl_alt_ship.Prelude.{
  Bool, true, false, ◌≡◌, refl, ◌⊎◌, inl, inr, List, [], ◌∷◌, All, Bool-cases, if◌then◌else◌,
}

module _ {A : Type 0} (before : A → A → Bool) where
  -- `x` stood before the list, so it stays before what is equal.
  unfoldable pub insert : A → List A → List A
  insert x [] = x ∷ []
  insert x (y ∷ ys) = let rest = insert x ys in if before x y then x ∷ y ∷ ys else y ∷ rest

  unfoldable pub sort : List A → List A
  unfolding insert
  sort [] = []
  sort (x ∷ xs) = insert x (sort xs)

  insert_first : (x y : A) (ys : List A) → before x y ≡ true → insert x (y ∷ ys) ≡ x ∷ y ∷ ys
  unfolding insert
  insert_first x y ys h = rw h

  insert_later : (x y : A) (ys : List A) → before x y ≡ false → insert x (y ∷ ys) ≡ y ∷ insert x ys
  unfolding insert
  insert_later x y ys h = rw h

  insert_nothing : (x : A) → insert x [] ≡ x ∷ []
  unfolding insert
  insert_nothing x = refl

  insert-perm : (x : A) (ys : List A) → Perm (insert x ys) (x ∷ ys)
  insert-perm x [] = rw insert_nothing (Perm.refl (x ∷ []))
  insert-perm x (y ∷ ys) = elim (Bool-cases (before x y)) [
    | inl first ↦ rw (insert_first x y ys first) (Perm.refl (x ∷ y ∷ ys))
    | inr later ↦
        rw (insert_later x y ys later)
          (Perm.trans (Perm.cons y (insert-perm x ys)) (Perm.swap x y ys))
  ]

  pub sort-perm : (xs : List A) → Perm (sort xs) xs
  unfolding sort
  sort-perm [] = Perm.refl []
  sort-perm (x ∷ xs) = Perm.trans (insert-perm x (sort xs)) (Perm.cons x (sort-perm xs))

  -- Each comes before all that follow it.
  abbrev pub IsSorted : List A → Type 0
  IsSorted [] = Unit
  IsSorted (x ∷ xs) = All (λ y. before x y ≡ true) xs × IsSorted xs

  module _ {κ} (P : A → Type κ) where
    All-insert : (x : A) (ys : List A) → P x → All P ys → All P (insert x ys)
    All-insert x [] px h = rw insert_nothing (px, tt)
    All-insert x (y ∷ ys) px (py, h) = elim (Bool-cases (before x y)) [
      | inl first ↦ rw (insert_first x y ys first) (px, (py, h))
      | inr later ↦ rw (insert_later x y ys later) (py, All-insert x ys px h)
    ]

    pub All-sort : (xs : List A) → All P xs → All P (sort xs)
    unfolding sort
    All-sort [] h = tt
    All-sort (x ∷ xs) (px, h) = All-insert x (sort xs) px (All-sort xs h)

  module _ (total : (a b : A) → (before a b ≡ true) ⊎ (before b a ≡ true))
      (transitive : (a b c : A) → before a b ≡ true → before b c ≡ true → before a c ≡ true) where
    All-before :
        (x y : A) (ys : List A)
        → before x y ≡ true
        → All (λ z. before y z ≡ true) ys
        → All (λ z. before x z ≡ true) ys
    All-before x y [] h a = tt
    All-before x y (z ∷ zs) h (first, a) = (transitive x y z h first, All-before x y zs h a)

    insert-IsSorted : (x : A) (ys : List A) → IsSorted ys → IsSorted (insert x ys)
    insert-IsSorted x [] h = rw insert_nothing (tt, tt)
    insert-IsSorted x (y ∷ ys) (least, h) = elim (Bool-cases (before x y)) [
      | inl first ↦
          rw (insert_first x y ys first) ((first, All-before x y ys first least), (least, h))
      | inr later ↦
          rw (insert_later x y ys later) (
            All-insert (λ z. before y z ≡ true) x ys (other x y later) least,
            insert-IsSorted x ys h,
          )
    ]
      where
        other : (a b : A) → before a b ≡ false → before b a ≡ true
        other a b no_first = elim (total a b) [ inl h ↦ absurd (cc (h, no_first)) | inr h ↦ h ]

    pub sort-IsSorted : (xs : List A) → IsSorted (sort xs)
    unfolding sort
    sort-IsSorted [] = tt
    sort-IsSorted (x ∷ xs) = insert-IsSorted x (sort xs) (sort-IsSorted xs)
