-- ===== src/Dashboard/Trace/Lanes.antt =====
-- What a trace is: a complete and ordered list of nodes, each in one of the lanes.
use Prim.Native.String.{◌++◌ as join_text}
use mathlib.Core.Path.{subst}
use mathlib.Core.List.{Perm, map-append}
use mathlib.Core.List.Perm
use ctrl_alt_ship.Prelude.{
  ℕ, suc, ◌+◌, String, Bool, true, false, ◌||◌, ◌≡◌, refl, ap, ◌++◌, if◌then◌else◌, ◌∙◌, ◌⊎◌, inl,
  inr, List, [], ◌∷◌, map, Option, none, some, is_some, All, All-append, All-imp, get_elem?, any,
  keep, includes, arith, Bool-cases, Option-cases, ◌==◌, eq_iff,
}
use ctrl_alt_ship.Dashboard.Readers.{NumberHost}
use ctrl_alt_ship.Dashboard.Titles.{operation_state_events}
use ctrl_alt_ship.Dashboard.Trace.Sorting.{sort, sort-perm, IsSorted, All-sort, sort-IsSorted}
use ctrl_alt_ship.Dashboard.Trace.{
  CallRow, EventRow, Names, Lane, Node, filled, lane_id_of, operation_lane_row, last_index,
  depth_of, Collation, node_before, ordered_calls, lanes_of, call_lane_row, has_lane, is_shown,
  NodeKind, call_started, event, call_ended, call_before, call_nodes, call_ended_nodes, event_lane,
  call_lane_of, event_node, Trace, unsorted_nodes, to_operation_trace,
}

node_before_total :
    {Num : Type 0} (order : Collation) (a b : Node Num)
    → (node_before order a b ≡ true) ⊎ (node_before order b a ≡ true)
node_before_total order a b = ground (arith, order.le_total a.occurred_at b.occurred_at)

node_before_trans :
    {Num : Type 0} (order : Collation) (a b c : Node Num)
    → node_before order a b ≡ true
    → node_before order b c ≡ true
    → node_before order a c ≡ true
node_before_trans order a b c h k = ground (
  arith,
  order.le_trans a.occurred_at b.occurred_at c.occurred_at,
  order.le_trans c.occurred_at a.occurred_at b.occurred_at,
  order.le_trans b.occurred_at c.occurred_at a.occurred_at,
)

-- The lane at the node's depth is the one that the node names.
abbrev pub InLane : {Num : Type 0} → List Lane → Node Num → Type 0
InLane lanes node =
    (lane : Lane) × (get_elem? lanes node.branch_depth ≡ some lane) × (lane.id ≡ node.lane_id)

named : String → Lane → Bool
named id lane = lane.id == id

-- An index counted from `k`, of a lane with that identifier.
last_index-get :
    (k : ℕ) (lanes : List Lane) (id : String) (i : ℕ)
    → last_index k lanes id ≡ some i
    → (j : ℕ) × (i ≡ k + j) × (lane : Lane) × (get_elem? lanes j ≡ some lane) × (lane.id ≡ id)
last_index-get k [] id i h = cc h
last_index-get k (lane ∷ lanes) id i h = elim (Option-cases (last_index (suc k) lanes id)) [
  | inl nothing ↦ elim (Bool-cases (lane.id == id)) [
    | inl same ↦
        let h' : some k ≡ some i = rw (nothing, same) at h in
        (0, (let e : k ≡ i = cc h' in omega arith), lane, refl, (eq_iff lane.id id).0 same)
    | inr other ↦ let h' = rw (nothing, other) at h in cc h'
  ]
  | inr (i', found) ↦
      let h' : some i' ≡ some i = rw found at h in
      let (j, e, l, at, same) = last_index-get (suc k) lanes id i' found in
      (suc j, (let e' : i' ≡ i = cc h' in omega arith), l, at, same)
]

has_lane-any :
    (k : ℕ) (lanes : List Lane) (id : String)
    → is_some (last_index k lanes id) ≡ any (named id) lanes
unfolding named
has_lane-any k [] id = refl
has_lane-any k (lane ∷ lanes) id = ground (arith, has_lane-any (suc k) lanes id)

depth_of-InLane :
    (lanes : List Lane) (id : String)
    → has_lane lanes id ≡ true
    → (lane : Lane) × (get_elem? lanes (depth_of lanes id) ≡ some lane) × (lane.id ≡ id)
depth_of-InLane lanes id h = elim (Option-cases (last_index 0 lanes id)) [
  | inl nothing ↦ let h' = rw nothing at h in cc h'
  | inr (i, found) ↦
      let (j, e, lane, at, same) = last_index-get 0 lanes id i found in
      let e' : i ≡ j = omega arith in rw (found, e') (lane, at, same)
]

named_self : (id : String) → id == id ≡ true
named_self id = (eq_iff id id).1 refl

||-true : (b : Bool) → (b || true) ≡ true
||-true true = refl
||-true false = refl

calls_named :
    (names : Names) (calls : List CallRow)
    → All (λ call. any (named (lane_id_of call.id)) (map (call_lane_row names) calls) ≡ true) calls
unfolding named
calls_named names [] = tt
calls_named names (call ∷ calls) = (
  rw (named_self (lane_id_of call.id)),
  All-imp (λ other h. rw h (||-true (named (lane_id_of other.id) (call_lane_row names call)))) calls
      (calls_named names calls),
)

-- What a node stands for.
pub record Mark : Type 0 where
  pub kind : NodeKind
  pub id : String
  pub at : String

abbrev pub mark : {Num : Type 0} → Node Num → Mark
mark node = record { kind = node.kind; id = node.id; at = node.occurred_at }

-- The end of a call that has ended.
abbrev pub end_marks : CallRow → Option String → List Mark
end_marks call none = []
end_marks call (some at) =
    if at == ""
    then []
    else record { kind = call_ended; id = join_text call.id ":ended"; at = at } ∷ []

-- The start of each call, and its end.
abbrev pub call_marks : List CallRow → List Mark
call_marks [] = []
call_marks (call ∷ calls) =
    record { kind = call_started; id = join_text call.id ":started"; at = call.started_at }
      ∷ end_marks call call.ended_at
    ++ call_marks calls

-- Each event that does not say that a call was routed, has been completed or has failed.
abbrev pub event_marks : {Num : Type 0} → List (EventRow Num) → List Mark
event_marks [] = []
event_marks (e ∷ events) =
    let rest = event_marks events in
    if includes ("call.routed" ∷ "call.completed" ∷ "call.failed" ∷ []) e.event_type
    then rest
    else record { kind = event; id = e.id; at = e.occurred_at } ∷ rest

keep-cons :
    {A : Type 0} (p : A → Bool) (x : A) (xs : List A)
    → keep p (x ∷ xs) ≡ (if p x then x ∷ keep p xs else keep p xs)
keep-cons p x xs = elim (Bool-cases (p x)) [ inl h ↦ ground arith | inr h ↦ ground arith ]

module _ {Num : Type 0} (host : NumberHost Num) (count_text : ℕ → String) (order : Collation)
    (names : Names) where
  module _ (lanes : List Lane) (calls : List CallRow) where
    call_ended_nodes-InLane :
        (call : CallRow) (ended : Option String)
        → has_lane lanes (lane_id_of call.id) ≡ true
        → All (InLane lanes) (call_ended_nodes host count_text names calls lanes call ended)
    call_ended_nodes-InLane call none h = tt
    call_ended_nodes-InLane call (some ended) h = (depth_of-InLane lanes (lane_id_of call.id) h, tt)

    call_nodes-InLane :
        (rest : List CallRow)
        → All (λ call. has_lane lanes (lane_id_of call.id) ≡ true) rest
        → All (InLane lanes) (call_nodes host count_text names calls lanes rest)
    unfolding call_nodes
    call_nodes-InLane [] h = tt
    call_nodes-InLane (call ∷ rest) (here, h) = (
      depth_of-InLane lanes (lane_id_of call.id) here,
      All-append (InLane lanes)
          (call_ended_nodes host count_text names calls lanes call (filled call.ended_at))
          (call_nodes host count_text names calls lanes rest)
          (call_ended_nodes-InLane call (filled call.ended_at) here) (call_nodes-InLane rest h),
    )

    event_lane-has :
        (event_type : String) (call_id : Option String)
        → has_lane lanes "operation" ≡ true
        → has_lane lanes (
            event_lane host count_text names calls lanes event_type
              (call_lane_of host count_text names calls lanes call_id))
          ≡ true
    event_lane-has event_type none h = h
    event_lane-has event_type (some id) h = elim (Bool-cases (has_lane lanes (lane_id_of id))) [
      | inl there ↦ rw there (elim (Bool-cases (includes operation_state_events event_type)) [
        | inl state ↦ rw state h
        | inr other ↦ rw other there
      ])
      | inr absent ↦ rw absent h
    ]

    event_nodes-InLane :
        (events : List (EventRow Num))
        → has_lane lanes "operation" ≡ true
        → All (InLane lanes) (map (event_node host count_text names calls lanes) events)
    unfolding event_node
    event_nodes-InLane [] h = tt
    event_nodes-InLane (e ∷ events) h = (
      depth_of-InLane lanes _ (event_lane-has e.event_type (filled e.call_id) h),
      event_nodes-InLane events h,
    )

  module _ (lanes : List Lane) (calls : List CallRow) where
    ended-marks :
        (call : CallRow) (ended : Option String)
        → map mark (call_ended_nodes host count_text names calls lanes call (filled ended))
          ≡ end_marks call ended
    ended-marks call none = refl
    ended-marks call (some at) = elim (Bool-cases (at == "")) [
      | inl empty ↦ rw empty refl
      | inr there ↦ rw there refl
    ]

    call_nodes-marks :
        (rest : List CallRow)
        → map mark (call_nodes host count_text names calls lanes rest) ≡ call_marks rest
    unfolding call_nodes
    call_nodes-marks [] = refl
    call_nodes-marks (call ∷ rest) =
        let ended =
          call_ended_nodes host count_text names calls lanes call (filled call.ended_at) in
        let later = call_nodes host count_text names calls lanes rest in
        let started : Mark = record {
          kind = call_started;
          id = join_text call.id ":started";
          at = call.started_at;
        } in
        ap (λ l. started ∷ l)
          (map-append mark ended later
            ∙ ap (λ l. l ++ map mark later) (ended-marks call call.ended_at)
            ∙ ap (λ l. end_marks call call.ended_at ++ l) (call_nodes-marks rest))

    event_nodes-marks :
        (events : List (EventRow Num))
        → map mark (map (event_node host count_text names calls lanes) (keep is_shown events))
          ≡ event_marks events
    unfolding event_node
    event_nodes-marks [] = refl
    event_nodes-marks (e ∷ events) =
        elim (Bool-cases
          (includes ("call.routed" ∷ "call.completed" ∷ "call.failed" ∷ []) e.event_type)) [
            | inl hidden ↦ rw (keep-cons is_shown e events, hidden) (event_nodes-marks events)
            | inr shown ↦
                rw (keep-cons is_shown e events, shown)
                  (ap (λ l. record { kind = event; id = e.id; at = e.occurred_at } ∷ l)
                    (event_nodes-marks events))
          ]

  operation_has_lane :
      (calls : List CallRow) → has_lane (lanes_of order names calls) "operation" ≡ true
  unfolding named
  operation_has_lane calls =
      has_lane-any 0 (lanes_of order names calls) "operation" ∙ rw (named_self "operation")

  calls_have_lanes :
      (calls : List CallRow)
      → All
          (λ call. has_lane (lanes_of order names calls) (lane_id_of call.id) ≡ true)
          (ordered_calls order calls)
  calls_have_lanes calls =
      All-imp
        (λ call h.
          has_lane-any 0 (lanes_of order names calls) (lane_id_of call.id)
          ∙ rw h (||-true (named (lane_id_of call.id) operation_lane_row)))
        (ordered_calls order calls) (calls_named names (ordered_calls order calls))

  pub record IsTrace (calls : List CallRow) (events : List (EventRow Num)) (t : Trace Num)
      : Type 0 where
    -- nothing is lost or shown twice
    pub ordered : List CallRow
    pub each_call : Perm ordered calls
    pub complete : Perm (map mark t.nodes) (call_marks ordered ++ event_marks events)
    pub sorted : IsSorted (node_before order) t.nodes
    pub placed : All (InLane t.lanes) t.nodes

  -- A trace holds one node for the start of each call, one for the end of each call that has ended, and
  -- one for each event that is not of a call's life, ordered by time and kind, each at the depth of the lane that it names.
  pub to_operation_trace-IsTrace :
      (calls : List CallRow) (events : List (EventRow Num))
      → IsTrace calls events (to_operation_trace host count_text order names calls events)
  unfolding to_operation_trace
  to_operation_trace-IsTrace calls events =
      let lanes = lanes_of order names calls in
      let shown = keep is_shown events in
      let from_calls = call_nodes host count_text names calls lanes (ordered_calls order calls) in
      let from_events = map (event_node host count_text names calls lanes) shown in
      let nodes = unsorted_nodes host count_text order names calls events in
      record {
        ordered = ordered_calls order calls;
        each_call = sort-perm (call_before order) calls;
        complete =
            subst (Perm (map mark (sort (node_before order) nodes)))
              (map-append mark from_calls from_events
                ∙ ap (λ l. l ++ map mark from_events)
                    (call_nodes-marks lanes calls (ordered_calls order calls))
                ∙ ap (λ l. call_marks (ordered_calls order calls) ++ l)
                    (event_nodes-marks lanes calls events))
              (Perm.map mark (sort-perm (node_before order) nodes));
        sorted =
            sort-IsSorted (node_before order) (node_before_total order) (node_before_trans order)
              (unsorted_nodes host count_text order names calls events);
        placed =
            All-sort (node_before order) (InLane lanes)
              (unsorted_nodes host count_text order names calls events)
              (All-append (InLane lanes)
                (call_nodes host count_text names calls lanes (ordered_calls order calls))
                (map (event_node host count_text names calls lanes) shown)
                (call_nodes-InLane lanes calls (ordered_calls order calls) (calls_have_lanes calls))
                (event_nodes-InLane lanes calls shown (operation_has_lane calls)));
      }
