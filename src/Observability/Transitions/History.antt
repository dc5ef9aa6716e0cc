-- ===== src/Observability/Transitions/History.antt =====
-- The log against its history: what was observed, what of it was logged, and which keys were retained.
use ctrl_alt_ship.Prelude.{
  String, ◌≡◌, refl, ap, ◌∙◌, Bool, true, false, not, ◌&&◌, List, [], ◌∷◌, Option, none, some,
  includes, if◌then◌else◌, ◌==◌, eq_iff, arith, Bool-cases, inl, inr,
}
use ctrl_alt_ship.Observability.Transitions.{
  Entry, States, lookup, set_entry, unchanged, observe, retain,
}

pub data Action : Type 0 where
  observing : (key : String) → Entry → Action
  retaining : (keys : List String) → Action

-- The latest event first.
pub data Event : Type 0 where
  observed : (key : String) → Entry → (logged : Bool) → Event
  retained : (keys : List String) → Event

pub record Run : Type 0 where
  pub states : States
  pub history : List Event

abbrev noted : List Event → (key : String) → Entry → States × Bool → Run
noted history key now (states, logged) = record {
  states = states;
  history = observed key now logged ∷ history;
}

abbrev act : Run → Action → Run
act r (observing key now) = noted r.history key now (observe r.states key now)
act r (retaining keys) = record {
  states = retain r.states keys;
  history = retained keys ∷ r.history;
}

-- The actions in order, from a new log.
abbrev pub run_from : Run → List Action → Run
run_from r [] = r
run_from r (a ∷ actions) = run_from (act r a) actions

abbrev pub run : List Action → Run
run = run_from (record { states = []; history = [] })

-- What was last logged under the key since the key was last dropped.
abbrev pub last_logged : (key : String) → List Event → Option Entry
last_logged key [] = none
last_logged key (observed k now logged ∷ history) =
    if logged && k == key then some now else last_logged key history
last_logged key (retained keys ∷ history) =
    if includes keys key then last_logged key history else none

-- Each observation was logged just if it differs from what was last logged under its key, or if a
-- minute has passed since.
abbrev pub LogsChanges : List Event → Type 0
LogsChanges [] = Unit
LogsChanges (observed key now logged ∷ history) =
    (logged ≡ not (unchanged (last_logged key history) now)) × LogsChanges history
LogsChanges (retained keys ∷ history) = LogsChanges history

lookup-set_entry :
    (states : States) (key k : String) (entry : Entry)
    → lookup (set_entry states key entry) k ≡ (if key == k then some entry else lookup states k)
unfolding set_entry
lookup-set_entry [] key k entry = refl
lookup-set_entry ((j, old) ∷ states) key k entry =
    ground (arith, eq_iff key k, eq_iff j key, eq_iff j k, lookup-set_entry states key k entry)

lookup-retain :
    (states : States) (keys : List String) (k : String)
    → lookup (retain states keys) k ≡ (if includes keys k then lookup states k else none)
unfolding retain
lookup-retain [] keys k = ground arith
lookup-retain ((j, entry) ∷ states) keys k = ground (arith, eq_iff j k, lookup-retain states keys k)

-- The states hold what was last logged.
pub record Follows (r : Run) : Type 0 where
  pub holds : (key : String) → lookup r.states key ≡ last_logged key r.history
  pub proper : LogsChanges r.history

module _ (states : States) (key : String) (now : Entry) where
  observe_same : unchanged (lookup states key) now ≡ true → observe states key now ≡ (states, false)
  unfolding observe
  observe_same h = rw h

  observe_changed :
      unchanged (lookup states key) now ≡ false
      → observe states key now ≡ (set_entry states key now, true)
  unfolding observe
  observe_changed h = rw h

act-Follows : (r : Run) (a : Action) → Follows r → Follows (act r a)
act-Follows r (retaining keys) f = record {
  holds = λ key.
      lookup-retain r.states keys key
      ∙ ap (λ o. if includes keys key then o else none) (f.holds key);
  proper = f.proper;
}
act-Follows r (observing key now) f = elim (Bool-cases (unchanged (lookup r.states key) now)) [
  | inl same ↦
      rw (observe_same r.states key now same)
        (record { holds = f.holds; proper = (rw (← f.holds key) (rw same), f.proper) })
  | inr changed ↦ rw (observe_changed r.states key now changed) (record {
    holds = λ k.
        lookup-set_entry r.states key k now
        ∙ ap (λ o. if key == k then some now else o) (f.holds k);
    proper = (rw (← f.holds key) (rw changed), f.proper);
  })
]

run_from-Follows : (actions : List Action) (r : Run) → Follows r → Follows (run_from r actions)
run_from-Follows [] r f = f
run_from-Follows (a ∷ actions) r f = run_from-Follows actions (act r a) (act-Follows r a f)

-- Whatever is observed and retained, an observation is logged just if it differs from what was last
-- logged under its key since that key was last dropped, or if a minute or more has passed since.
pub run-LogsChanges : (actions : List Action) → LogsChanges (run actions).history
run-LogsChanges actions =
    (run_from-Follows actions (record { states = []; history = [] })
      (record { holds = λ key. refl; proper = tt })).proper
