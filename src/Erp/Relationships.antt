-- ===== src/Erp/Relationships.antt =====
-- How an operation is related to a provider.
use ctrl_alt_ship.Prelude.{
  String, includes, ◌≡◌, refl, ap, ◌∙◌, Bool, true, false, ◌&&◌, ◌||◌, Bool-cases, inl, inr, List,
  [], ◌∷◌, any, All, map, Option, none, some, Result, ok, ◌==◌, eq_iff, if◌then◌else◌, >>=-ok,
  arith, perform, ◌⊎◌,
}
use mathlib.Core.Path.{subst}
use ctrl_alt_ship.Js.{Runtime, find_key, set_key, find_key-set_key, find_key-set_other}
use ctrl_alt_ship.ToolError.{Thrown}
use ctrl_alt_ship.Erp.{
  points_at, booking_confirmed, booking_pending, QuoteRequestRow, BookingRow, PointerRow,
  OperationRow, Relationship, quote_requested, ErpCall, find_requests, find_quotes, find_bookings,
  find_pointers, find_operations, distinct, distinct_from, Tables, Relationships, is_current,
  relationship_of, with_bookings, is_open, with_requests, relationships, pointers_from,
  list_active_operations_for_provider, for_some, read_bookings, read_pointers, read_operations,
  related,
}

abbrev pub first_of : Option Relationship → Option Relationship → Option Relationship
first_of none later = later
first_of (some r) later = some r

abbrev pub first_pointer : Option (Option String) → Option (Option String) → Option (Option String)
first_pointer none earlier = earlier
first_pointer (some p) earlier = some p

-- The booking that the last row of the operation points at.
abbrev pub current_booking : List PointerRow → (operation_id : String) → Option (Option String)
current_booking [] id = none
current_booking (p ∷ ps) id =
    first_pointer (current_booking ps id) (if p.id == id then some p.current_booking_id else none)

abbrev pub is_named : Option (Option String) → String → Bool
is_named none id = false
is_named (some none) id = false
is_named (some (some p)) id = p == id

-- What the last booking of the operation that its operation points at says: the status "confirmed",
-- or another.
abbrev pub booked :
    List PointerRow → (operation_id : String) → List BookingRow → Option Relationship
booked pointers id [] = none
booked pointers id (b ∷ bs) = first_of (booked pointers id bs) (
    if is_named (current_booking pointers b.operation_id) b.id && b.operation_id == id
    then some (if b.status == "confirmed" then booking_confirmed else booking_pending)
    else none)

points_at-is_named : (o : Option (Option String)) (id : String) → points_at o id ≡ is_named o id
points_at-is_named none id = refl
points_at-is_named (some none) id = refl
points_at-is_named (some (some p)) id = refl

first_pointer-set :
    (o : Option (Option String)) (key id : String) (c : Option String)
    (m : List (String × Option String))
    → first_pointer o (find_key id (set_key key c m))
      ≡ first_pointer (first_pointer o (if key == id then some c else none)) (find_key id m)
first_pointer-set (some p) key id c m = refl
first_pointer-set none key id c m = elim (Bool-cases (key == id)) [
  | inl same ↦ rw (same, (eq_iff key id).0 same) (find_key-set_key id c m)
  | inr other ↦ rw other (find_key-set_other key id c m other)
]

find_key-pointers_from :
    (id : String) (ps : List PointerRow) (m : List (String × Option String))
    → find_key id (pointers_from m ps) ≡ first_pointer (current_booking ps id) (find_key id m)
find_key-pointers_from id [] m = refl
find_key-pointers_from id (p ∷ ps) m =
    find_key-pointers_from id ps (set_key p.id p.current_booking_id m)
    ∙ first_pointer-set (current_booking ps id) p.id id p.current_booking_id m

first_pointer-none : (o : Option (Option String)) → first_pointer o none ≡ o
first_pointer-none none = refl
first_pointer-none (some p) = refl

is_current-is_named :
    (ps : List PointerRow) (b : BookingRow)
    → is_current (pointers_from [] ps) b ≡ is_named (current_booking ps b.operation_id) b.id
is_current-is_named ps b =
    ap (λ o. points_at o b.id)
      (find_key-pointers_from b.operation_id ps []
        ∙ first_pointer-none (current_booking ps b.operation_id))
    ∙ points_at-is_named (current_booking ps b.operation_id) b.id

includes-distinct :
    (seen xs : List String) (id : String)
    → includes seen id ≡ false
    → includes (distinct_from seen xs) id ≡ includes xs id
includes-distinct seen [] id h = refl
includes-distinct seen (x ∷ xs) id h = elim (Bool-cases (x == id)) [
  | inl same ↦
      let new : includes seen x ≡ false = rw ((eq_iff x id).0 same) h in rw (new, same) refl
  | inr other ↦ elim (Bool-cases (includes seen x)) [
    | inl old ↦ rw (old, other) (includes-distinct (x ∷ seen) xs id (rw (other, h) refl))
    | inr new ↦ rw (new, other) (includes-distinct (x ∷ seen) xs id (rw (other, h) refl))
  ]
]

if_set :
    (b : Bool) (key id : String) (r : Relationship) (m : Relationships)
    → find_key id (if b then set_key key r m else m)
      ≡ (if b && key == id then some r else find_key id m)
if_set false key id r m = refl
if_set true key id r m = elim (Bool-cases (key == id)) [
  | inl same ↦ rw (same, (eq_iff key id).0 same) (find_key-set_key id r m)
  | inr other ↦ rw other (find_key-set_other key id r m other)
]

first_of-if :
    (o : Option Relationship) (b : Bool) (r : Relationship) (rest : Option Relationship)
    → first_of o (if b then some r else rest)
      ≡ first_of (first_of o (if b then some r else none)) rest
first_of-if none true r rest = refl
first_of-if none false r rest = refl
first_of-if (some s) b r rest = refl

find_key-with_bookings :
    (ps : List PointerRow) (id : String) (bs : List BookingRow) (m : Relationships)
    → find_key id (with_bookings (pointers_from [] ps) bs m)
      ≡ first_of (booked ps id bs) (find_key id m)
unfolding with_bookings
find_key-with_bookings ps id [] m = refl
find_key-with_bookings ps id (b ∷ bs) m =
    let named = is_named (current_booking ps b.operation_id) b.id in
    find_key-with_bookings ps id bs _
    ∙ ap (first_of (booked ps id bs)) (
        if_set (is_current (pointers_from [] ps) b) b.operation_id id (relationship_of b) m
        ∙ ap (λ c. if c && b.operation_id == id then some (relationship_of b) else find_key id m)
            (is_current-is_named ps b))
    ∙ first_of-if (booked ps id bs) (named && b.operation_id == id) (relationship_of b)
        (find_key id m)

module _ (js : Runtime) (now : js.Num) where
  -- A request asks for an offer on the operation: it is not settled and has not expired.
  abbrev pub asks : String → QuoteRequestRow → Bool
  asks id r =
      includes ("pending" ∷ "queued" ∷ "contacted" ∷ "responded" ∷ []) r.status
      && (r.expires_at == "infinity" || js.lt now (js.parse_date r.expires_at))
      && r.operation_id == id

  if_either :
      (b c : Bool) (r : Relationship) (rest : Option Relationship)
      → (if c then some r else if b then some r else rest) ≡ (if b || c then some r else rest)
  if_either b c r rest = ground arith

  find_key-with_requests :
      (id : String) (rs : List QuoteRequestRow) (m : Relationships)
      → find_key id (with_requests js now rs m)
        ≡ (if any (asks id) rs then some quote_requested else find_key id m)
  unfolding with_requests
  find_key-with_requests id [] m = refl
  find_key-with_requests id (r ∷ rs) m =
      find_key-with_requests id rs _
      ∙ ap (λ rest. if any (asks id) rs then some quote_requested else rest)
          (if_set (is_open js now r) r.operation_id id quote_requested m)
      ∙ if_either (asks id r) (any (asks id) rs) quote_requested (find_key id m)

  -- A current booking comes before an open request.
  abbrev pub expected :
      List QuoteRequestRow → List BookingRow → List PointerRow → String → Option Relationship
  expected requests bookings pointers id =
      first_of (booked pointers id bookings)
        (if any (asks id) requests then some quote_requested else none)

  find_key-relationships :
      (requests : List QuoteRequestRow) (bookings : List BookingRow) (pointers : List PointerRow)
      (id : String)
      → find_key id (relationships js now requests bookings pointers)
        ≡ expected requests bookings pointers id
  unfolding relationships
  find_key-relationships requests bookings pointers id =
      find_key-with_bookings pointers id bookings (with_requests js now requests [])
      ∙ ap (first_of (booked pointers id bookings)) (find_key-with_requests id requests [])

  module _ (t : Tables) where
    -- The rows were answered, or there was nothing to ask for.
    abbrev pub Fetched :
        {Row : Type 0}
        → (List String → ErpCall)
        → (List ErpCall → Result Thrown (List Row))
        → List String
        → List Row
        → Type 0
    Fetched call answer ids rows =
        ((ids ≡ []) × (rows ≡ [])) ⊎ ((log : List ErpCall) × (answer (call ids ∷ log) ≡ ok rows))

    for_some-Fetched :
        {Row : Type 0} (call : List String → ErpCall)
        (answer : List ErpCall → Result Thrown (List Row)) (ids : List String) (log : List ErpCall)
        (rows : List Row)
        → (for_some js now t call answer ids log).0 ≡ ok rows
        → Fetched call answer ids rows
    for_some-Fetched call answer [] log rows h = inl (refl, cc h)
    for_some-Fetched call answer (id ∷ ids) log rows h = inr (log, h)

    -- Every operation of the list, with the relationship that the answered rows give it.
    pub record IsRelated (provider_id : String) (listed : List (OperationRow × Option Relationship))
        : Type 0 where
      pub requests : List QuoteRequestRow
      pub quotes : List String
      pub bookings : List BookingRow
      pub pointers : List PointerRow
      pub requested :
          (log : List ErpCall) × (t.requests (find_requests provider_id ∷ log) ≡ ok requests)
      pub quoted : Fetched find_quotes t.quotes (map (λ r. r.id) requests) quotes
      pub booking_rows : Fetched find_bookings t.bookings quotes bookings
      -- the identifiers of the bookings' operations, and no others
      pub asked : List String
      pub asked_all :
          (id : String) → includes asked id ≡ includes (map (λ b. b.operation_id) bookings) id
      pub pointed : Fetched find_pointers t.pointers asked pointers
      pub relations : All (λ e. e.1 ≡ expected requests bookings pointers e.0.id) listed

    related-All :
        (requests : List QuoteRequestRow) (bookings : List BookingRow) (pointers : List PointerRow)
        (rows : List OperationRow)
        → All
            (λ e. e.1 ≡ expected requests bookings pointers e.0.id)
            (map (related js now t (relationships js now requests bookings pointers)) rows)
    related-All requests bookings pointers [] = tt
    related-All requests bookings pointers (row ∷ rows) = (
      find_key-relationships requests bookings pointers row.id,
      related-All requests bookings pointers rows,
    )

    read_operations-All :
        (requests : List QuoteRequestRow) (bookings : List BookingRow) (pointers : List PointerRow)
        (log : List ErpCall) (listed : List (OperationRow × Option Relationship))
        → (read_operations js now t (relationships js now requests bookings pointers) log).0
          ≡ ok listed
        → All (λ e. e.1 ≡ expected requests bookings pointers e.0.id) listed
    unfolding read_operations
    read_operations-All requests bookings pointers log listed h =
        let m = relationships js now requests bookings pointers in
        let (rows, e, last) =
          >>=-ok (for_some js now t find_operations t.operations (map (λ e. e.0) m)) _ log h in
        let same : map (related js now t m) rows ≡ listed = cc last in
        subst (All (λ e. e.1 ≡ expected requests bookings pointers e.0.id)) same
          (related-All requests bookings pointers rows)

    read_bookings-Fetched :
        (requests : List QuoteRequestRow) (bookings : List BookingRow) (log : List ErpCall)
        → (read_bookings js now t requests log).0 ≡ ok bookings
        → (quotes : List String) × Fetched find_quotes t.quotes (map (λ r. r.id) requests) quotes
          × Fetched find_bookings t.bookings quotes bookings
    unfolding read_bookings
    read_bookings-Fetched requests bookings log h =
        let (quotes, e, rest) =
          >>=-ok (for_some js now t find_quotes t.quotes (map (λ r. r.id) requests))
            (for_some js now t find_bookings t.bookings) log h in
        (
          quotes,
          for_some-Fetched find_quotes t.quotes _ log quotes e,
          for_some-Fetched find_bookings t.bookings quotes _ bookings rest,
        )

    -- Where a provider's operations are listed, each has the relationship that the rows of the
    -- database give it: that of the last booking which its operation points at, confirmed or pending,
    -- and without such a booking that of an open request.
    pub list_active_operations-IsRelated :
        (provider_id : String) (log : List ErpCall)
        (listed : List (OperationRow × Option Relationship))
        → (list_active_operations_for_provider js now t provider_id log).0 ≡ ok listed
        → IsRelated provider_id listed
    unfolding list_active_operations_for_provider read_pointers
    list_active_operations-IsRelated provider_id log listed h =
        let (requests, e₁, h₁) = >>=-ok (perform (find_requests provider_id) t.requests) _ log h in
        let (bookings, e₂, h₂) = >>=-ok (read_bookings js now t requests) _ _ h₁ in
        let (pointers, e₃, h₃) = >>=-ok (read_pointers js now t bookings) _ _ h₂ in
        let (quotes, quoted, booking_rows) = read_bookings-Fetched requests bookings _ e₂ in
        record {
          requests = requests;
          quotes = quotes;
          bookings = bookings;
          pointers = pointers;
          requested = (log, e₁);
          quoted = quoted;
          booking_rows = booking_rows;
          asked = distinct (map (λ b. b.operation_id) bookings);
          asked_all = λ id. includes-distinct [] (map (λ b. b.operation_id) bookings) id refl;
          pointed = for_some-Fetched find_pointers t.pointers _ _ pointers e₃;
          relations = read_operations-All requests bookings pointers _ listed h₃;
        }
