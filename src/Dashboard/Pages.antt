-- ===== src/Dashboard/Pages.antt =====
-- backend/src/tango/supabase/dashboard.ts: rows of the database read page by page. `readAll` of
-- `getDashboardCallEvidence` reads pages of 500 until one is short; `listDashboardOperationsPage` reads
-- the page that is asked for. A loop without bound runs here on fuel: `none` is fuel that ran out. What a
-- query answers to `range(from, to)` is a parameter.
use ctrl_alt_ship.Prelude.{
  ℕ, zero, suc, ◌+◌, ◌-◌, ◌*◌, ◌/◌, List, [], ◌++◌, Bool, true, false, Option, none, some, Result,
  ok, err, length, ltb, take,
}
use Prim.Native.Nat.{min, max}
pub mod Covered

-- The first and the last index that are asked for, the last included.
abbrev pub Query : Type 0 → Type 0 → Type 0
Query E T = ℕ → ℕ → Result E (List T)

abbrev pub page_size : ℕ
page_size = 500

module _ {E T : Type 0} where
  -- `if (page.length < 500) return rows;`
  abbrev pub if_last :
      Bool → (List T → Option (Result E (List T))) → List T → Option (Result E (List T))
  if_last true next rows = some (ok rows)
  if_last false next rows = next rows

  -- The loop's body, behind the answer to its query.
  abbrev pub read_next :
      (List T → Option (Result E (List T)))
      → List T
      → Result E (List T)
      → Option (Result E (List T))
  read_next next rows (err e) = some (err e)
  read_next next rows (ok page) = if_last (ltb (length page) page_size) next (rows ++ page)

  unfoldable pub read_from : ℕ → Query E T → ℕ → List T → Option (Result E (List T))
  read_from zero query from rows = none
  read_from (suc fuel) query from rows =
      read_next (read_from fuel query (from + page_size)) rows (query from (from + (page_size - 1)))

  unfoldable pub read_all : ℕ → Query E T → Option (Result E (List T))
  unfolding read_from
  read_all fuel query = read_from fuel query 0 []

pub record Page : Type 0 where
  pub page : ℕ
  pub per_page : ℕ

-- `Math.max(1, options.page)` and `Math.min(Math.max(1, options.perPage), 100)`
unfoldable pub page_of : ℕ → ℕ → Page
page_of page per_page = record { page = max 1 page; per_page = min (max 1 per_page) 100 }

-- `range(from, from + perPage - 1)`
unfoldable pub range_of : Page → ℕ × ℕ
range_of p = let from = (p.page - 1) * p.per_page in (from, from + p.per_page - 1)

-- `Math.ceil(total / perPage)`, and at least one.
unfoldable pub total_pages : ℕ → ℕ → ℕ
total_pages total per_page = max 1 ((total + per_page - 1) / per_page)
