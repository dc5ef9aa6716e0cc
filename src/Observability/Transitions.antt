-- ===== src/Observability/Transitions.antt =====
-- backend/src/observability/state-transition-log.ts: polling results are logged on change, or once a
-- minute. Times are milliseconds of the host's clock.
pub mod History
use ctrl_alt_ship.Prelude.{
  ℕ, ◌-◌, String, Bool, true, false, not, ◌&&◌, List, [], ◌∷◌, Option, none, some, keep, includes,
  ltb, if◌then◌else◌, ◌==◌,
}

pub record Entry : Type 0 where
  pub signature : String
  pub at : ℕ

-- `states`
abbrev pub States : Type 0
States = List (String × Entry)

abbrev pub lookup : States → String → Option Entry
lookup [] key = none
lookup ((k, entry) ∷ states) key = if k == key then some entry else lookup states key

-- `states.set(key, entry)`
unfoldable pub set_entry : States → String → Entry → States
set_entry [] key entry = (key, entry) ∷ []
set_entry ((k, old) ∷ states) key entry =
    if k == key then (key, entry) ∷ states else (k, old) ∷ set_entry states key entry

-- `previous?.signature === signature && at - previous.at < 60_000`; a clock that has stepped back
-- counts as no time at all, which is below a minute as the negative difference is.
abbrev pub unchanged : Option Entry → Entry → Bool
unchanged none now = false
unchanged (some previous) now =
    previous.signature == now.signature && ltb (now.at - previous.at) 60000

-- Whether the observation is logged, and the states after it. The fields enter by their JSON text.
unfoldable pub observe : States → (key : String) → Entry → States × Bool
unfolding set_entry
observe states key now =
    if unchanged (lookup states key) now then (states, false) else (set_entry states key now, true)

unfoldable pub retain : States → (keys : List String) → States
retain states keys = keep (λ entry. includes keys entry.0) states
