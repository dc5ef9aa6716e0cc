-- ===== src/Dashboard/Trace.antt =====
-- dashboard.ts: `counterpartyName` and `toOperationTrace`, the calls and events of an operation in lanes.
-- Texts are ordered by the host's `localeCompare`, lists by a stable sort.
pub mod Sorting
pub mod Lanes
use Prim.Native.String.{◌++◌ as join_text}
use ctrl_alt_ship.Prelude.{
  ℕ, zero, suc, ◌+◌, String, Bool, true, false, not, ◌&&◌, ◌||◌, List, [], ◌∷◌, ◌++◌, map, Option,
  none, some, is_some, includes, keep, leb, ◌≡◌, ◌⊎◌, if◌then◌else◌, ◌==◌,
}
use ctrl_alt_ship.Js.{Value}
use ctrl_alt_ship.CallFlow.{Direction, inbound, outbound}
use ctrl_alt_ship.Messages.Texts.{Text, utf16}
use ctrl_alt_ship.Dashboard.Readers.{NumberHost, as_number}
use ctrl_alt_ship.Dashboard.Titles.{
  call_lifecycle_events, operation_state_events, find_text, blank_out, trace_event_title,
}
use ctrl_alt_ship.Dashboard.Details.{TraceChange, trace_changes, trace_event_detail}
use ctrl_alt_ship.Dashboard.Trace.Sorting.{sort}

pub record CallRow : Type 0 where
  pub id : String
  pub contact_id : Option String
  pub provider_id : Option String
  pub direction : Direction
  pub outcome : String
  pub started_at : String
  pub ended_at : Option String

pub record EventRow (Num : Type 0) : Type 0 where
  pub id : String
  pub event_type : String
  pub payload : Value Num
  pub call_id : Option String
  pub recording_checkpoint : Value Num
  pub occurred_at : String

pub record Names : Type 0 where
  pub contacts : List (String × String)
  pub providers : List (String × String)

pub data LaneKind : Type 0 where
  operation_lane call_lane : LaneKind

pub record Lane : Type 0 where
  pub id : String
  pub label : Text
  pub description : Text
  pub kind : LaneKind

pub data NodeKind : Type 0 where
  call_started event call_ended : NodeKind

pub record SourceCall : Type 0 where
  pub label : Text
  pub description : Text
  pub branch_depth : ℕ

pub record Node (Num : Type 0) : Type 0 where
  pub id : String
  pub lane_id : String
  pub kind : NodeKind
  pub occurred_at : String
  pub title : Text
  pub detail : Option Text
  pub branch_depth : ℕ
  pub recording_checkpoint : Option Num
  pub source_call : Option SourceCall
  pub changes : List TraceChange

-- A column that is there and not empty.
abbrev pub filled : Option String → Option String
filled none = none
filled (some s) = if s == "" then none else some s

module _ (names : Names) where
  abbrev party_name : (provider contact : Option String) → Option String
  party_name (some id) contact = find_text names.providers id
  party_name none (some id) = find_text names.contacts id
  party_name none none = none

  unfoldable pub counterparty_name : Option CallRow → Option String
  counterparty_name none = none
  counterparty_name (some call) = party_name (filled call.provider_id) (filled call.contact_id)

  abbrev or_unrecorded : Option String → String
  or_unrecorded none = "Counterparty not recorded"
  or_unrecorded (some name) = name

  unfoldable pub call_lane_label : CallRow → String
  unfolding counterparty_name
  call_lane_label call = or_unrecorded (counterparty_name (some call))

abbrev direction_text : Direction → String
direction_text outbound = "Outbound"
direction_text inbound = "Inbound"

abbrev pub lane_id_of : (call_id : String) → String
lane_id_of call_id = join_text "call:" call_id

abbrev pub operation_lane_row : Lane
operation_lane_row = record {
  id = "operation";
  label = utf16 "Operation state";
  description = utf16 "Persists after every call";
  kind = operation_lane;
}

abbrev pub call_lane_row : Names → CallRow → Lane
call_lane_row names call = record {
  id = lane_id_of call.id;
  label = utf16 "Call with " ++ utf16 (call_lane_label names call);
  description = utf16 (direction_text call.direction) ++ utf16 " call";
  kind = call_lane;
}

-- The first of two indices, if there is one.
abbrev pub later : Option ℕ → Option ℕ → Option ℕ
later none o = o
later (some i) o = some i

-- `new Map(lanes.map((lane, index) => [lane.id, index])).get(id)`: of two lanes with one identifier the
-- later one counts.
abbrev pub last_index : ℕ → List Lane → (id : String) → Option ℕ
last_index index [] id = none
last_index index (lane ∷ lanes) id =
    later (last_index (suc index) lanes id) (if lane.id == id then some index else none)

-- `index ?? 0`
abbrev or_zero : Option ℕ → ℕ
or_zero none = 0
or_zero (some i) = i

abbrev pub depth_of : List Lane → (id : String) → ℕ
depth_of lanes id = or_zero (last_index 0 lanes id)

-- `localeCompare(…) <= 0`
pub record Collation : Type 0 where
  pub le : String → String → Bool
  pub le_total : (a b : String) → (le a b ≡ true) ⊎ (le b a ≡ true)
  pub le_trans : (a b c : String) → le a b ≡ true → le b c ≡ true → le a c ≡ true

abbrev pub kind_order : NodeKind → ℕ
kind_order call_started = 0
kind_order event = 1
kind_order call_ended = 2

module _ (order : Collation) where
  -- `left.started_at.localeCompare(right.started_at) <= 0`
  abbrev pub call_before : CallRow → CallRow → Bool
  call_before left right = order.le left.started_at right.started_at

  -- By time, and at the same time by kind.
  abbrev pub node_before : {Num : Type 0} → Node Num → Node Num → Bool
  node_before left right =
      order.le left.occurred_at right.occurred_at
      && (not (order.le right.occurred_at left.occurred_at)
          || leb (kind_order left.kind) (kind_order right.kind))

  abbrev pub ordered_calls : List CallRow → List CallRow
  ordered_calls calls = sort call_before calls

  abbrev pub lanes_of : Names → List CallRow → List Lane
  lanes_of names calls = operation_lane_row ∷ map (call_lane_row names) (ordered_calls calls)

abbrev find_call : List CallRow → (lane_id : String) → Option CallRow
find_call [] lane_id = none
find_call (call ∷ calls) lane_id =
    if lane_id_of call.id == lane_id then some call else find_call calls lane_id

abbrev pub has_lane : List Lane → (id : String) → Bool
has_lane lanes id = is_some (last_index 0 lanes id)

abbrev pub is_shown : {Num : Type 0} → EventRow Num → Bool
is_shown e = not (includes call_lifecycle_events e.event_type)

module _ {Num : Type 0} (host : NumberHost Num) (count_text : ℕ → String) (names : Names)
    (calls : List CallRow) (lanes : List Lane) where
  abbrev recorded_name : String → Option Text
  recorded_name name = if name == "Counterparty not recorded" then none else some (utf16 name)

  abbrev call_started_node : CallRow → Node Num
  call_started_node call = record {
    id = join_text call.id ":started";
    lane_id = lane_id_of call.id;
    kind = call_started;
    occurred_at = call.started_at;
    title = utf16 (direction_text call.direction) ++ utf16 " call started";
    detail = recorded_name (call_lane_label names call);
    branch_depth = depth_of lanes (lane_id_of call.id);
    recording_checkpoint = none;
    source_call = none;
    changes = [];
  }

  abbrev pub call_ended_nodes : CallRow → Option String → List (Node Num)
  call_ended_nodes call none = []
  call_ended_nodes call (some ended_at) =
      record {
        id = join_text call.id ":ended";
        lane_id = lane_id_of call.id;
        kind = call_ended;
        occurred_at = ended_at;
        title = utf16 "Call ended";
        detail = some (blank_out b'_' (utf16 call.outcome));
        branch_depth = depth_of lanes (lane_id_of call.id);
        recording_checkpoint = none;
        source_call = none;
        changes = [];
      }
      ∷ []

  unfoldable pub call_nodes : List CallRow → List (Node Num)
  unfolding call_lane_label
  call_nodes [] = []
  call_nodes (call ∷ rest) =
      (call_started_node call ∷ call_ended_nodes call (filled call.ended_at)) ++ call_nodes rest

  -- The lane of the event's call, where there is one.
  abbrev pub call_lane_of : Option String → Option String
  call_lane_of none = none
  call_lane_of (some call_id) =
      if has_lane lanes (lane_id_of call_id) then some (lane_id_of call_id) else none

  -- An event that changes the operation stays in its lane.
  abbrev pub event_lane : (event_type : String) → Option String → String
  event_lane event_type none = "operation"
  event_lane event_type (some lane_id) =
      if includes operation_state_events event_type then "operation" else lane_id

  abbrev source_of : Option CallRow → (lane_id : String) → Option SourceCall
  source_of none lane_id = none
  source_of (some call) lane_id = some (record {
    label = utf16 (call_lane_label names call);
    description = utf16 (direction_text call.direction) ++ utf16 " call";
    branch_depth = depth_of lanes lane_id;
  })

  abbrev source_call_of : (lane_id : String) → Option String → Option SourceCall
  source_call_of lane_id none = none
  source_call_of lane_id (some call_lane_id) =
      if lane_id == "operation" then source_of (find_call calls call_lane_id) call_lane_id else none

  unfoldable pub event_node : EventRow Num → Node Num
  unfolding trace_event_title trace_event_detail trace_changes as_number call_lane_label
  event_node e =
      let call_lane_id = call_lane_of (filled e.call_id) in
      let lane_id = event_lane e.event_type call_lane_id in
      record {
        id = e.id;
        lane_id = lane_id;
        kind = event;
        occurred_at = e.occurred_at;
        title = trace_event_title e.event_type;
        detail = trace_event_detail host count_text e.event_type e.payload;
        branch_depth = depth_of lanes lane_id;
        recording_checkpoint = as_number host e.recording_checkpoint;
        source_call = source_call_of lane_id call_lane_id;
        changes =
            (if e.event_type == "operation.updated" || e.event_type == "operation.corrected"
              then trace_changes host count_text e.payload
              else []);
      }

pub record Trace (Num : Type 0) : Type 0 where
  pub lanes : List Lane
  pub nodes : List (Node Num)

module _ {Num : Type 0} (host : NumberHost Num) (count_text : ℕ → String) (order : Collation)
    (names : Names) where
  abbrev pub unsorted_nodes : List CallRow → List (EventRow Num) → List (Node Num)
  unsorted_nodes calls events =
      let lanes = lanes_of order names calls in
      call_nodes host count_text names calls lanes (ordered_calls order calls)
      ++ map (event_node host count_text names calls lanes) (keep is_shown events)

  unfoldable pub to_operation_trace : List CallRow → List (EventRow Num) → Trace Num
  unfolding sort call_nodes event_node
  to_operation_trace calls events = record {
    lanes = lanes_of order names calls;
    nodes = sort (node_before order) (unsorted_nodes calls events);
  }
