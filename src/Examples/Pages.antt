-- ===== src/Examples/Pages.antt =====
-- A table of three rows, read whole and by pages.
use ctrl_alt_ship.Prelude.{ℕ, ◌≤◌, ◌≡◌, refl, List, [], ◌∷◌, some, ok, length, arith}
use ctrl_alt_ship.Dashboard.Pages.{Query, read_all, page_of, total_pages}
use ctrl_alt_ship.Dashboard.Pages.Covered.{slice, pages, read_all-whole, pages-whole}

abbrev table : List ℕ
table = 10 ∷ 20 ∷ 30 ∷ []

abbrev query : Query Unit ℕ
query from to = ok (slice from to table)

read_all-whole_example : read_all 1 query ≡ some (ok table)
read_all-whole_example = read_all-whole table query (λ from to. refl) 1 (omega arith)

pages-whole_example :
    let n = (page_of 2 2).per_page in
    (1 ≤ n) × (n ≤ 100) × (pages table n (total_pages (length table) n) ≡ table)
pages-whole_example = pages-whole table 2 2
