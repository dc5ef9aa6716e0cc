-- ===== src/Telephony/Persistence/Written.antt =====
-- What is written of a call that was routed.
use ctrl_alt_ship.Prelude.{
  String, ◌≡◌, ◌≢◌, ◌⊎◌, Bool, true, false, List, [], ◌∷◌, ◌++◌, keep, Option, none, some, Result,
  ok, err,
}
use ctrl_alt_ship.ToolError.{Thrown}
use ctrl_alt_ship.Telephony.Routing.{AcceptedRoutingDecision}
use ctrl_alt_ship.Telephony.Persistence.Scope.{IsNew, IsRouted, Fits, IsDialed}
use ctrl_alt_ship.Telephony.Persistence.{
  ExistingCall, NewCall, RoutedEvent, PersistenceCall, find_call, insert_call, find_routed_event,
  insert_routed_event, Database,
}

abbrev is_write : PersistenceCall → Bool
is_write (find_call id) = false
is_write (find_routed_event id) = false
is_write _ = true

abbrev pub writes : List PersistenceCall → List PersistenceCall
writes log = keep is_write log

-- The database has once given this answer to this call.
abbrev pub Answered :
    {A : Type 0}
    → PersistenceCall
    → (List PersistenceCall → Result Thrown A)
    → Result Thrown A
    → Type 0
Answered call answer r = (log : List PersistenceCall) × (answer (call ∷ log) ≡ r)

-- A run from `log` has added the writes `w` and ended in `r`, of which `P` holds.
abbrev pub Adds :
    (List PersistenceCall → Result Thrown String → Type 0)
    → List PersistenceCall
    → Result Thrown String × List PersistenceCall
    → Type 0
Adds P log out = (w : List PersistenceCall) × (writes out.1 ≡ w ++ writes log) × P w out.0

module _ {Operation : Type 0} (reference : Operation → String)
    (d : AcceptedRoutingDecision Operation) (db : Database) where
  -- The event is stored just if none was found.
  pub data Announced (row : Option ExistingCall) (id : String) (operation_id : Option String)
      : List PersistenceCall → Result Thrown String → Type 0 where
    unread :
        (e : Thrown)
        → Answered (find_routed_event id) db.routed (err e)
        → Announced row id operation_id [] (err e)
    found :
        Answered (find_routed_event id) db.routed (ok (some tt))
        → Announced row id operation_id [] (ok id)
    stored :
        (event : RoutedEvent)
        → IsRouted reference d row id operation_id event
        → Answered (find_routed_event id) db.routed (ok none)
        → Answered (insert_routed_event event) db.stored (ok tt)
        → Announced row id operation_id (insert_routed_event event ∷ []) (ok id)
    unstored :
        (event : RoutedEvent) (e : Thrown)
        → IsRouted reference d row id operation_id event
        → Answered (find_routed_event id) db.routed (ok none)
        → Answered (insert_routed_event event) db.stored (err e)
        → Announced row id operation_id (insert_routed_event event ∷ []) (err e)

  -- What was found under the call's own identifier has the call's scope, and is the dialed row where
  -- the call was dialed.
  pub record IsRead (row : Option ExistingCall) : Type 0 where
    pub read : Answered (find_call d.call_id) db.existing (ok row)
    pub scope : Fits reference d row
    pub dialed : IsDialed d.outbound row

  -- There is no row, or none with an identifier.
  abbrev pub IsAbsent : Option ExistingCall → Type 0
  IsAbsent row = (row ≡ none) ⊎ ((r : ExistingCall) × (row ≡ some r) × (r.id ≡ ""))

  -- The row could not be read, or has another scope, or is not the dialed one.
  abbrev pub Refusal : Thrown → Type 0
  Refusal e =
      Answered (find_call d.call_id) db.existing (err e)
      ⊎ ((row : Option ExistingCall) × Answered (find_call d.call_id) db.existing (ok row)
          × ((¬ Fits reference d row) ⊎ (¬ IsDialed d.outbound row)))

  pub data Written : List PersistenceCall → Result Thrown String → Type 0 where
    refused : (e : Thrown) → Refusal e → Written [] (err e)
    known :
        (row : ExistingCall) {w : List PersistenceCall} {r : Result Thrown String}
        → IsRead (some row)
        → row.id ≢ ""
        → Announced (some row) row.id row.operation_id w r
        → Written w r
    uninserted :
        (row : Option ExistingCall) (n : NewCall) (e : Thrown)
        → IsRead row
        → IsAbsent row
        → IsNew reference d n
        → Answered (insert_call n) db.inserted (err e)
          ⊎ Answered (insert_call n) db.inserted (ok none)
        → Written (insert_call n ∷ []) (err e)
    inserted :
        (row : Option ExistingCall) (n : NewCall) (id : String) {w : List PersistenceCall}
        {r : Result Thrown String}
        → IsRead row
        → IsAbsent row
        → IsNew reference d n
        → Answered (insert_call n) db.inserted (ok (some id))
        → Announced row id none w r
        → Written (w ++ insert_call n ∷ []) r
