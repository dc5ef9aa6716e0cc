-- ===== src/Sourcing.antt =====
-- backend/src/tango/services/sourcing-review-service.ts: a sourcing round is finalized only behind a
-- review of its candidate. The judge is a language model and the schema library is not the program's
-- own: both are parameters. Log lines are left out.
pub mod Gate
use ctrl_alt_ship.Prelude.{
  ℕ, String, Bool, true, false, not, ◌&&◌, ◌||◌, List, [], ◌∷◌, Option, none, some, Result, ok, err,
  if◌then◌else◌, ◌==◌, check, given,
}
use ctrl_alt_ship.Js.{Runtime, gt, Value, undefined, null, bool, num, str, obj, Fields, get}
use ctrl_alt_ship.ToolError.{Thrown, other_error}

-- What is used of a prepared review.
pub record Prepared (Num : Type 0) : Type 0 where
  pub input_hash : String
  pub operation_id : String
  pub context : Value Num

-- `retryAfter`, by the operation.
pub record Retry (Num : Type 0) : Type 0 where
  pub operation_id : String
  pub input_hash : String
  pub until : Num

pub data ReviewCall (Num : Type 0) : Type 0 where
  prepare : (operation_id : String) → ReviewCall Num
  find_review : (operation_id input_hash : String) → ReviewCall Num
  judge : (context : Value Num) → ReviewCall Num
  record_review : (operation_id input_hash : String) → (review : Value Num) → ReviewCall Num
  finalize_sourcing : (operation_id : String) → ReviewCall Num

pub data Decision (Num : Type 0) : Type 0 where
  -- what the preparation has answered
  not_ready : Value Num → Decision Num
  not_finalized : (reason : String) → Decision Num
  -- the answer of the database, with the identifier of its review
  answered : (answer review_id : Value Num) → Decision Num

pub record ReviewDependencies (js : Runtime) : Type 0 where
  pub prepare : List (ReviewCall js.Num) → Result Thrown (Value js.Num)
  pub find_review : List (ReviewCall js.Num) → Result Thrown (Option String)
  pub judge : List (ReviewCall js.Num) → Result Thrown (Value js.Num)
  pub record_review : List (ReviewCall js.Num) → Result Thrown (Value js.Num)
  pub finalize_sourcing : List (ReviewCall js.Num) → Result Thrown (Value js.Num)
  -- `z.string().uuid()`
  pub is_uuid : String → Bool
  -- `Date.now()` and sixty seconds later
  pub now : js.Num
  pub retry_at : js.Num

abbrev invalid : Thrown
invalid = other_error "ZodError"

module _ {Num : Type 0} where
  -- `value?.key`
  abbrev pub member : Value Num → String → Value Num
  member (obj prototype fields) key = get fields key
  member v key = undefined

  abbrev pub is_true : Value Num → Bool
  is_true (bool b) = b
  is_true v = false

  abbrev text : Value Num → Option String
  text (str s) = some s
  text v = none

  abbrev is_object : Value Num → Bool
  is_object (obj prototype fields) = true
  is_object v = false

  -- `a ?? b`
  abbrev pub or_else : Value Num → Value Num → Value Num
  or_else undefined b = b
  or_else null b = b
  or_else a b = a

  abbrev pub find_retry : List (Retry Num) → (operation_id : String) → Option (Retry Num)
  find_retry [] id = none
  find_retry (r ∷ rs) id = if r.operation_id == id then some r else find_retry rs id

  -- `retryAfter.delete(id)`
  abbrev pub without_retry : List (Retry Num) → (operation_id : String) → List (Retry Num)
  without_retry [] id = []
  without_retry (r ∷ rs) id =
      let rest = without_retry rs id in if r.operation_id == id then rest else r ∷ rest

  module _ (is_uuid : String → Bool) where
    abbrev uuid_text : Value Num → Bool
    uuid_text (str s) = is_uuid s
    uuid_text v = false

    -- `preparedSchema.parse`
    unfoldable pub parse_prepared : Value Num → Result Thrown (Prepared Num)
    parse_prepared v = check (is_true (member v "ready")) invalid (
        given (text (member v "input_hash")) invalid (λ input_hash.
          check (not (input_hash == "")) invalid (
            let context = member v "context" in
            check (is_object context) invalid (
              check (uuid_text (member context "operation_id")) invalid (
                check (uuid_text (member context "round_id")) invalid (
                  check (uuid_text (member (member context "selected_quote") "id")) invalid (
                    check (uuid_text (member (member context "mandate") "id")) invalid (
                      given (text (member context "operation_id")) invalid (λ operation_id.
                        ok (record {
                          input_hash = input_hash;
                          operation_id = operation_id;
                          context = context;
                        }))))))))))

-- The service's map, and the calls made.
pub record Reviews (Num : Type 0) : Type 0 where
  pub retries : List (Retry Num)
  pub log : List (ReviewCall Num)

module _ (js : Runtime) (d : ReviewDependencies js) where
  abbrev pub Num : Type 0
  Num = js.Num

  abbrev pub Outcome : Type 0
  Outcome = Result Thrown (Decision Num) × Reviews Num

  abbrev called : ReviewCall Num → Reviews Num → Reviews Num
  called c s = record s { log = c ∷ s.log }

  -- The last step: the database decides, and checks the review once more.
  abbrev finalized_with : Reviews Num → Result Thrown (Value Num) → Outcome
  finalized_with s (err e) = (err e, s)
  finalized_with s (ok answer) = (
    ok (answered answer (or_else (member answer "review_id") (member answer "judge_review_id"))),
    s,
  )

  unfoldable pub conclude : (operation_id : String) → Reviews Num → Outcome
  conclude operation_id s =
      let s' = called (finalize_sourcing operation_id) s in
      finalized_with s' (d.finalize_sourcing s'.log)

  -- `Boolean(value)`; a number is false if it is 0 or NaN, and other objects are true.
  abbrev pub truthy : Value Num → Bool
  truthy undefined = false
  truthy null = false
  truthy (bool b) = b
  truthy (num x) = js.lt x (js.thousandths 0) || js.lt (js.thousandths 0) x
  truthy (str s) = not (s == "")
  truthy v = true

  abbrev saved_with : (operation_id : String) → Reviews Num → Result Thrown (Value Num) → Outcome
  saved_with operation_id s (err e) = (err e, s)
  saved_with operation_id s (ok answer) =
      if truthy (member answer "saved")
      then conclude operation_id s
      else (ok (not_finalized "stale_review"), s)

  abbrev judged_with :
      (operation_id : String) → Prepared Num → Reviews Num → Result Thrown (Value Num) → Outcome
  judged_with operation_id p s (err e) = (
    ok (not_finalized "judge_unavailable"),
    record s {
      retries =
          record { operation_id = operation_id; input_hash = p.input_hash; until = d.retry_at }
          ∷ without_retry s.retries operation_id;
    },
  )
  judged_with operation_id p s (ok review) =
      let s' =
        called (record_review operation_id p.input_hash review)
          (record s { retries = without_retry s.retries operation_id }) in
      saved_with operation_id s' (d.record_review s'.log)

  unfoldable pub ask_judge : (operation_id : String) → Prepared Num → Reviews Num → Outcome
  unfolding conclude
  ask_judge operation_id p s =
      let s' = called (judge p.context) s in judged_with operation_id p s' (d.judge s'.log)

  -- `retry?.inputHash === input_hash && retry.until > Date.now()`
  abbrev pub pending : Option (Retry Num) → (input_hash : String) → Bool
  pending none input_hash = false
  pending (some r) input_hash = r.input_hash == input_hash && gt js r.until d.now

  abbrev pub is_pending : (operation_id : String) → Prepared Num → Reviews Num → Bool
  is_pending operation_id p s = pending (find_retry s.retries operation_id) p.input_hash

  abbrev cached_with :
      (operation_id : String) → Prepared Num → Reviews Num → Result Thrown (Option String) → Outcome
  cached_with operation_id p s (err e) = (err e, s)
  cached_with operation_id p s (ok (some id)) = conclude operation_id s
  cached_with operation_id p s (ok none) =
      if is_pending operation_id p s
      then (ok (not_finalized "judge_retry_pending"), s)
      else ask_judge operation_id p s

  abbrev reviewed : (operation_id : String) → Reviews Num → Result Thrown (Prepared Num) → Outcome
  reviewed operation_id s (err e) = (err e, s)
  reviewed operation_id s (ok p) =
      let s' = called (find_review operation_id p.input_hash) s in
      if p.operation_id == operation_id
      then cached_with operation_id p s' (d.find_review s'.log)
      else (err (other_error "sourcing_review_scope_mismatch"), s)

  abbrev not_ready_answer : Value Num → Decision Num
  not_ready_answer undefined = not_finalized "not_ready"
  not_ready_answer null = not_finalized "not_ready"
  not_ready_answer v = not_ready v

  abbrev prepared_with : (operation_id : String) → Reviews Num → Result Thrown (Value Num) → Outcome
  prepared_with operation_id s (err e) = (err e, s)
  prepared_with operation_id s (ok v) =
      if is_true (member v "ready")
      then reviewed operation_id s (parse_prepared d.is_uuid v)
      else (ok (not_ready_answer v), s)

  unfoldable pub finalize : (operation_id : String) → Reviews Num → Outcome
  unfolding parse_prepared ask_judge conclude
  finalize operation_id s =
      let s' = called (prepare operation_id) s in prepared_with operation_id s' (d.prepare s'.log)
