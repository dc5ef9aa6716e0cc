-- ===== src/Dashboard/Pages/Covered.antt =====
-- The pages of a table that does not change, set one after the other.
use ctrl_alt_ship.Prelude.{
  ℕ, zero, suc, ◌+◌, ◌-◌, ◌*◌, ◌/◌, ◌≤◌, ◌<◌, ◌≡◌, refl, sym, ap, ◌∙◌, List, [], ◌∷◌, ◌++◌, Bool,
  true, false, Bool-cases, inl, inr, Option, some, Result, ok, length, ltb, take, arith,
}
use Prim.Native.Nat.{min, max}
use mathlib.Core.List.{append_assoc, append-nil}
use native.Mathlib.Nat.{lt-div-mul-add, suc-mul, zero-mul, mul-le-mul_right}
use ctrl_alt_ship.Dashboard.Pages.{
  Query, page_size, read_next, if_last, read_from, read_all, page_of, range_of, total_pages,
}

ltb-lt : {a b n : ℕ} → ltb a n ≡ true → a ≡ b → b < n
ltb-lt h e = ground arith

ltb-ge : {a b n : ℕ} → ltb a n ≡ false → a ≡ b → n ≤ b
ltb-ge h e = ground arith

module _ {T : Type 0} where
  abbrev pub drop : ℕ → List T → List T
  drop zero xs = xs
  drop (suc n) [] = []
  drop (suc n) (x ∷ xs) = drop n xs

  -- What a table answers to `range(from, to)`.
  abbrev pub slice : ℕ → ℕ → List T → List T
  slice from to rows = take (suc to - from) (drop from rows)

  drop-nil : (n : ℕ) → drop n [] ≡ []
  drop-nil zero = refl
  drop-nil (suc n) = refl

  drop-drop : (m n : ℕ) (xs : List T) → drop m (drop n xs) ≡ drop (n + m) xs
  drop-drop m zero xs = ap (λ k. drop k xs) (omega arith)
  drop-drop m (suc n) [] = drop-nil m ∙ sym (drop-nil (suc n + m))
  drop-drop m (suc n) (x ∷ xs) =
      let e : suc (n + m) ≡ suc n + m = omega arith in
      drop-drop m n xs ∙ ap (λ k. drop k (x ∷ xs)) e

  take-drop : (n : ℕ) (xs : List T) → take n xs ++ drop n xs ≡ xs
  take-drop zero xs = refl
  take-drop (suc n) [] = refl
  take-drop (suc n) (x ∷ xs) = ap (λ r. x ∷ r) (take-drop n xs)

  length-drop : (n : ℕ) (xs : List T) → length (drop n xs) ≡ length xs - n
  length-drop zero xs = omega arith
  length-drop (suc n) [] = omega arith
  length-drop (suc n) (x ∷ xs) = omega (arith, length-drop n xs)

  drop-all : (n : ℕ) (xs : List T) → length xs ≤ n → drop n xs ≡ []
  drop-all zero [] h = refl
  drop-all zero (x ∷ xs) h = ground (arith, h)
  drop-all (suc n) [] h = refl
  drop-all (suc n) (x ∷ xs) h = drop-all n xs (omega (arith, h))

  -- A part that comes out short is the last.
  short-drop : (n : ℕ) (xs : List T) → length (take n xs) < n → drop n xs ≡ []
  short-drop zero xs h = ground (arith, h)
  short-drop (suc n) [] h = refl
  short-drop (suc n) (x ∷ xs) h = short-drop n xs (omega (arith, h))

  length-full : (n : ℕ) (xs : List T) → n ≤ length (take n xs) → n ≤ length xs
  length-full zero xs h = omega arith
  length-full (suc n) [] h = omega (arith, h)
  length-full (suc n) (x ∷ xs) h = omega (arith, length-full n xs (omega (arith, h)))

  slice-page :
      (table : List T) (from n : ℕ)
      → slice from (from + n) table ++ drop (from + suc n) table ≡ drop from table
  slice-page table from n =
      let e : suc (from + n) - from ≡ suc n = omega arith in
      ap (λ k. take k (drop from table) ++ drop (from + suc n) table) e
      ∙ ap (λ d. take (suc n) (drop from table) ++ d) (sym (drop-drop (suc n) from table))
      ∙ take-drop (suc n) (drop from table)

  length-slice :
      (table : List T) (from n : ℕ)
      → length (slice from (from + n) table) ≡ length (take (suc n) (drop from table))
  length-slice table from n =
      let e : suc (from + n) - from ≡ suc n = omega arith in
      ap (λ k. length (take k (drop from table))) e

module _ {E T : Type 0} where
  if_last-true :
      (b : Bool) (next : List T → Option (Result E (List T))) (rows : List T)
      → b ≡ true
      → if_last b next rows ≡ some (ok rows)
  if_last-true true next rows h = refl
  if_last-true false next rows h = cc

  if_last-false :
      (b : Bool) (next : List T → Option (Result E (List T))) (rows : List T)
      → b ≡ false
      → if_last b next rows ≡ next rows
  if_last-false true next rows h = cc
  if_last-false false next rows h = refl

  module _ (table : List T) (query : Query E T)
      (answers : (from to : ℕ) → query from to ≡ ok (slice from to table)) where
    last-page :
        (from : ℕ) (seen : List T) (n : ℕ)
        → seen ++ drop from table ≡ table
        → length (take (suc n) (drop from table)) < suc n
        → seen ++ slice from (from + n) table ≡ table
    last-page from seen n parts short =
        let page = slice from (from + n) table in
        let empty : drop (from + suc n) table ≡ [] =
          sym (drop-drop (suc n) from table) ∙ short-drop (suc n) (drop from table) short in
        ap (λ d. seen ++ d)
          (sym (append-nil page) ∙ ap (λ d. page ++ d) (sym empty) ∙ slice-page table from n)
        ∙ parts

    read_from-whole :
        (fuel from : ℕ) (seen : List T)
        → seen ++ drop from table ≡ table
        → from ≤ length table
        → length table < from + fuel * page_size
        → read_from fuel query from seen ≡ some (ok table)
    unfolding read_from
    read_from-whole zero from seen parts inside enough = ground (arith, inside, enough)
    read_from-whole (suc fuel) from seen parts inside enough =
        let page = slice from (from + (page_size - 1)) table in
        let n = length-slice table from (page_size - 1) in
        let joined = slice-page table from (page_size - 1) in
        ap (read_next (read_from fuel query (from + page_size)) seen)
          (answers from (from + (page_size - 1)))
        ∙ elim (Bool-cases (ltb (length page) page_size)) [
          | inl short ↦
              if_last-true (ltb (length page) page_size) (read_from fuel query (from + page_size))
                (seen ++ page) short
              ∙ ap (λ r. some (ok r)) (last-page from seen (page_size - 1) parts (ltb-lt short n))
          | inr full ↦
              if_last-false (ltb (length page) page_size) (read_from fuel query (from + page_size))
                (seen ++ page) full
              ∙ read_from-whole fuel (from + page_size) (seen ++ page)
                  (append_assoc seen page (drop (from + page_size) table)
                    ∙ ap (λ d. seen ++ d) joined
                    ∙ parts)
                  (let k = length-full page_size (drop from table) (ltb-ge full n) in
                    omega (arith, k, length-drop from table, inside))
                  (omega (arith, enough))
        ]

    -- Over a table that does not change while it is read, the loop ends, after one page more than the
    -- full ones at most, and gives every row once and in order.
    pub read_all-whole :
        (fuel : ℕ) → length table < fuel * page_size → read_all fuel query ≡ some (ok table)
    unfolding read_all
    read_all-whole fuel enough =
        read_from-whole fuel 0 [] refl (omega arith) (omega (arith, enough))

module _ {T : Type 0} (rows : List T) where
  -- The first pages of so many rows, each as its range of the table.
  abbrev pub pages : ℕ → ℕ → List T
  unfolding range_of
  pages per_page zero = []
  pages per_page (suc k) =
      let (from, to) = range_of (record { page = suc k; per_page = per_page }) in
      pages per_page k ++ slice from to rows

  pages-rest : (m k : ℕ) → pages (suc m) k ++ drop (k * suc m) rows ≡ rows
  unfolding range_of pages
  pages-rest m zero = ap (λ n. drop n rows) (zero-mul (suc m))
  pages-rest m (suc k) =
      let from = k * suc m in
      let before_k : suc k - 1 ≡ k = omega arith in
      let first : (suc k - 1) * suc m ≡ from = ap (λ n. n * suc m) before_k in
      let last : from + suc m - 1 ≡ from + m = omega arith in
      let following : suc k * suc m ≡ from + suc m = suc-mul k (suc m) in
      let before = pages (suc m) k in
      ap (λ f. before ++ slice f (f + suc m - 1) rows ++ drop (suc k * suc m) rows) first
      ∙ ap (λ t. before ++ slice from t rows ++ drop (suc k * suc m) rows) last
      ∙ ap (λ n. before ++ slice from (from + m) rows ++ drop n rows) following
      ∙ append_assoc before (slice from (from + m) rows) (drop (from + suc m) rows)
      ∙ ap (λ d. before ++ d) (slice-page rows from m)
      ∙ pages-rest m k

  enough_pages : (total m : ℕ) → total ≤ total_pages total (suc m) * suc m
  unfolding total_pages
  enough_pages total m =
      let n = suc m in
      let quotient = (total + n - 1) / n in
      let below = lt-div-mul-add {a = total + n - 1} {b = n} (omega arith) in
      let more = mul-le-mul_right {m = quotient} {n = max 1 quotient} n (omega arith) in
      omega (arith, below, more)

  pages-all : (n : ℕ) → 1 ≤ n → pages n (total_pages (length rows) n) ≡ rows
  pages-all zero h = ground (arith, h)
  pages-all (suc m) h =
      let last = total_pages (length rows) (suc m) in
      let shown = pages (suc m) last in
      sym (append-nil shown)
      ∙ ap (λ d. shown ++ d) (sym (drop-all (last * suc m) rows (enough_pages (length rows) m)))
      ∙ pages-rest m last

  -- A page has at least one row's place and at most a hundred, and the pages from the first to the
  -- last, set one after the other, are the table.
  pub pages-whole :
      (page per_page : ℕ)
      → (let n = (page_of page per_page).per_page in
          (1 ≤ n) × (n ≤ 100) × (pages n (total_pages (length rows) n) ≡ rows))
  unfolding page_of
  pages-whole page per_page =
      (omega arith, omega arith, pages-all (min (max 1 per_page) 100) (omega arith))
