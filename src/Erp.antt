-- ===== src/Erp.antt =====
-- backend/src/tango/supabase/erp.ts, `listActiveOperationsForProvider`: which operations a provider has to
-- do with, and how. A query answers with its error or with its rows.
pub mod Relationships
use ctrl_alt_ship.Prelude.{
  String, Bool, true, false, not, ◌&&◌, ◌||◌, List, [], ◌∷◌, map, keep, includes, Option, none,
  some, Result, ok, err, ◌==◌, if◌then◌else◌, Act, pure, perform, ◌>>=◌,
}
use ctrl_alt_ship.Js.{Runtime, gt, find_key, set_key}
use ctrl_alt_ship.ToolError.{Thrown}

pub record QuoteRequestRow : Type 0 where
  pub id : String
  pub operation_id : String
  pub status : String
  pub expires_at : String

pub record BookingRow : Type 0 where
  pub id : String
  pub operation_id : String
  pub status : String

pub record PointerRow : Type 0 where
  pub id : String
  pub current_booking_id : Option String

pub record OperationRow : Type 0 where
  pub id : String
  pub reference : String
  pub status : String
  pub container_type : Option String
  pub pickup_location : Option String
  pub delivery_location : Option String
  pub updated_at : String

pub data Relationship : Type 0 where
  quote_requested booking_pending booking_confirmed : Relationship

pub data ErpCall : Type 0 where
  find_requests : (provider_id : String) → ErpCall
  find_quotes find_bookings find_pointers find_operations : (ids : List String) → ErpCall

pub record Tables : Type 0 where
  pub requests : List ErpCall → Result Thrown (List QuoteRequestRow)
  pub quotes : List ErpCall → Result Thrown (List String)
  pub bookings : List ErpCall → Result Thrown (List BookingRow)
  pub pointers : List ErpCall → Result Thrown (List PointerRow)
  pub operations : List ErpCall → Result Thrown (List OperationRow)

abbrev pub Relationships : Type 0
Relationships = List (String × Relationship)

-- `[...new Set(ids)]`
abbrev pub distinct_from : List String → List String → List String
distinct_from seen [] = []
distinct_from seen (x ∷ xs) =
    let rest = distinct_from (x ∷ seen) xs in if includes seen x then rest else x ∷ rest

abbrev pub distinct : List String → List String
distinct xs = distinct_from [] xs

-- `new Map(rows.map((row) => [row.id, row.current_booking_id]))`
abbrev pub pointers_from :
    List (String × Option String) → List PointerRow → List (String × Option String)
pointers_from m [] = m
pointers_from m (p ∷ ps) = pointers_from (set_key p.id p.current_booking_id m) ps

abbrev pub points_at : Option (Option String) → String → Bool
points_at (some (some id)) booking_id = id == booking_id
points_at _ booking_id = false

abbrev pub is_current : List (String × Option String) → BookingRow → Bool
is_current pointers b = points_at (find_key b.operation_id pointers) b.id

abbrev pub relationship_of : BookingRow → Relationship
relationship_of b = if b.status == "confirmed" then booking_confirmed else booking_pending

-- The loop over the bookings.
unfoldable pub with_bookings :
    List (String × Option String) → List BookingRow → Relationships → Relationships
with_bookings pointers [] m = m
with_bookings pointers (b ∷ bs) m =
    with_bookings pointers bs
      (if is_current pointers b then set_key b.operation_id (relationship_of b) m else m)

module _ (js : Runtime) (now : js.Num) where
  abbrev pub is_open : QuoteRequestRow → Bool
  is_open r =
      includes ("pending" ∷ "queued" ∷ "contacted" ∷ "responded" ∷ []) r.status
      && (r.expires_at == "infinity" || gt js (js.parse_date r.expires_at) now)

  -- The loop over the requests.
  unfoldable pub with_requests : List QuoteRequestRow → Relationships → Relationships
  with_requests [] m = m
  with_requests (r ∷ rs) m =
      with_requests rs (if is_open r then set_key r.operation_id quote_requested m else m)

  unfoldable pub relationships :
      List QuoteRequestRow → List BookingRow → List PointerRow → Relationships
  unfolding with_requests with_bookings
  relationships requests bookings pointers =
      with_bookings (pointers_from [] pointers) bookings (with_requests requests [])

  module _ (t : Tables) where
    abbrev pub Run : Type 0 → Type 0
    Run A = Act Thrown ErpCall A

    -- A query that is made only for some identifiers.
    abbrev pub for_some :
        {Row : Type 0}
        → (List String → ErpCall)
        → (List ErpCall → Result Thrown (List Row))
        → List String
        → Run (List Row)
    for_some call answer [] = pure []
    for_some call answer (id ∷ ids) = perform (call (id ∷ ids)) answer

    unfoldable pub read_pointers : List BookingRow → Run (List PointerRow)
    read_pointers bookings =
        for_some find_pointers t.pointers (distinct (map (λ b. b.operation_id) bookings))

    -- The bookings of all the provider's requests.
    unfoldable pub read_bookings : List QuoteRequestRow → Run (List BookingRow)
    read_bookings requests = do
      quotes ← for_some find_quotes t.quotes (map (λ r. r.id) requests)
      for_some find_bookings t.bookings quotes

    abbrev pub related : Relationships → OperationRow → OperationRow × Option Relationship
    related m row = (row, find_key row.id m)

    unfoldable pub read_operations : Relationships → Run (List (OperationRow × Option Relationship))
    read_operations m = do
      rows ← for_some find_operations t.operations (map (λ e. e.0) m)
      pure (map (related m) rows)

    unfoldable pub list_active_operations_for_provider :
        (provider_id : String) → Run (List (OperationRow × Option Relationship))
    unfolding read_bookings read_pointers read_operations relationships
    list_active_operations_for_provider provider_id = do
      requests ← perform (find_requests provider_id) t.requests
      bookings ← read_bookings requests
      pointers ← read_pointers bookings
      read_operations (relationships requests bookings pointers)
